-- ===== src/Files/Private.antt =====
-- What `ensure_private_dir` and `ensure_bridge_dir` guarantee.
use ignibyte_bridge.Prelude.{
  Result-cases, ◌≡◌, ◌≢◌, refl, ◌∙◌, inl, inr, false, Bool-cases, Option-cases, ℕ, ◌%◌, Option,
  none, some, List, [], ◌∷◌, ◌++◌, arith, Bytes, codes, Result, ok, err,
}
use ignibyte_bridge.Effects.{and_then, and_then-ok, with_context}
use ignibyte_bridge.Files.{
  FilePath, path_eq, FileKind, directory, special, regular, symlink, Node, Disk, F, update, mkdir,
  symlink_metadata, set_permissions,
}
use ignibyte_bridge.Files.Operations.{
  is_loose, make_missing, ancestors, create_dir_all, leads_to_directory, check_owned,
  ensure_private_dir, ensure_each, failed_to,
}
use ignibyte_bridge.Files.Nodes.{
  path_eq_iff, update_at, update_else, system_call-cases, context-state, context-ok, context-only,
  metadata-found,
}

-- A real directory of the user that only the owner can use.
abbrev pub PrivateNode : ℕ → Option Node → Type 0
PrivateNode euid none = ⊥
PrivateNode euid (some node) = (node.kind ≡ directory) × (node.uid ≡ euid) × (node.mode % 64 ≡ 0)

abbrev pub IsPrivate : Disk → FilePath → Type 0
IsPrivate d p = PrivateNode d.euid (d.nodes p)

-- What was private stays so.
pub record Safer (d d' : Disk) : Type 0 where
  pub same_euid : d'.euid ≡ d.euid
  pub keeps : (q : FilePath) → IsPrivate d q → IsPrivate d' q

Safer-refl : (d : Disk) → Safer d d
Safer-refl d = record { same_euid = refl; keeps = λ q h. h }

Safer-trans : {c d e : Disk} → Safer c d → Safer d e → Safer c e
Safer-trans p q = record {
  same_euid = q.same_euid ∙ p.same_euid;
  keeps = λ f h. q.keeps f (p.keeps f h);
}

Safer-still : {d d' : Disk} → d'.nodes ≡ d.nodes → d'.euid ≡ d.euid → Safer d d'
Safer-still {d} {d'} n u = record { same_euid = u; keeps = λ q h. rw (n, u) h }

Safer-set :
    (d d' : Disk) (p : FilePath) (node : Node)
    → d'.nodes ≡ update p (some node) d.nodes
    → d'.euid ≡ d.euid
    → (PrivateNode d.euid (d.nodes p) → PrivateNode d.euid (some node))
    → Safer d d'
Safer-set d d' p node n u h = record {
  same_euid = u;
  keeps = λ q k. elim (Bool-cases (path_eq q p)) [
    | inl e ↦
        let s : q ≡ p = (path_eq_iff q p).0 e in
        rw (n, u, s, update_at p (some node) d.nodes) (h (rw s at k))
    | inr e ↦
        let s : q ≢ p = (λ x. let y = (path_eq_iff q p).1 x in cc) in
        rw (n, u, update_else q p (some node) d.nodes s) k
  ];
}

-- From every disk, whether it succeeds or fails.
record IsSafer {A : Type 0} (m : F A) : Type 0 where
  pub from : (d : Disk) → Safer d (m d).1

then-Safer :
    {A B : Type 0} (d : Disk) (p : Result A × Disk) (f : A → F B)
    → Safer d p.1
    → ((a : A) (v : Disk) → p ≡ (ok a, v) → Safer v (f a v).1)
    → Safer d (and_then p f).1
then-Safer d (ok a, v) f s h = Safer-trans s (h a v refl)
then-Safer d (err e, v) f s h = s

context-Safer :
    {A : Type 0} (d : Disk) (message : Bytes) (m : F A)
    → Safer d (m d).1
    → Safer d (with_context message m d).1
context-Safer d message m s = rw (context-state message (m d)) s

mkdir-Safer : (p : FilePath) (d : Disk) → d.nodes p ≡ none → Safer d (mkdir p d).1
unfolding mkdir
mkdir-Safer p d h =
    system_call-cases (λ r. Safer d r.1) _ d (λ e. Safer-still refl refl)
      (Safer-set d _ p _ refl refl (λ k. absurd (rw h at k)))

metadata-Safer : (p : FilePath) (d : Disk) → Safer d (symlink_metadata p d).1
unfolding symlink_metadata
metadata-Safer p d =
    system_call-cases (λ r. Safer d r.1) _ d (λ e. Safer-still refl refl) (Safer-still refl refl)

permissions-Safer : (p : FilePath) (d : Disk) → Safer d (set_permissions p 0x1c0 d).1
unfolding set_permissions
permissions-Safer p d =
    system_call-cases (λ r. Safer d r.1) _ d (λ e. Safer-still refl refl)
      (elim (Option-cases (d.nodes p)) [
        | inl e ↦ rw e (Safer-still refl refl)
        | inr (node, e) ↦
            rw e (Safer-set d _ p _ refl refl (λ k. let (a, b, c) = rw e at k in (a, b, refl)))
      ])

make_missing-Safer : (ps : List FilePath) (d : Disk) → Safer d (make_missing ps d).1
unfolding make_missing
make_missing-Safer [] d = Safer-refl d
make_missing-Safer (p ∷ ps) d = elim (Option-cases (d.nodes p)) [
  | inl e ↦ rw e (then-Safer d (mkdir p d) _ (mkdir-Safer p d e) (λ a v q. make_missing-Safer ps v))
  | inr (node, e) ↦ rw e (make_missing-Safer ps d)
]

create-Safer : (p : FilePath) (d : Disk) → Safer d (create_dir_all p d).1
unfolding create_dir_all
create-Safer p d =
    then-Safer d (make_missing (ancestors [] p) d) _ (make_missing-Safer (ancestors [] p) d)
      λ a v q. elim (Bool-cases (leads_to_directory (v.nodes p))) [
        | inl e ↦ rw e (Safer-refl v)
        | inr e ↦ rw e (Safer-refl v)
      ]

pub ensure_private-Safer : (p : FilePath) (d : Disk) → Safer d (ensure_private_dir p d).1
unfolding ensure_private_dir
ensure_private-Safer p d =
    then-Safer d (with_context (failed_to (codes "create") p) (create_dir_all p) d) _
      (context-Safer d _ (create_dir_all p) (create-Safer p d))
      λ a v q.
        then-Safer v (with_context (failed_to (codes "inspect") p) (symlink_metadata p) v) _
          (context-Safer v _ (symlink_metadata p) (metadata-Safer p v))
          λ node u r. elim (Result-cases (check_owned p node.kind node.uid u.euid)) [
            | inr (x, e) ↦ rw e (Safer-refl u)
            | inl (_, e) ↦ elim (Bool-cases (is_loose node.mode)) [
              | inl l ↦
                  rw (e, l) (context-Safer u _ (set_permissions p 0x1c0) (permissions-Safer p u))
              | inr l ↦ rw (e, l) (Safer-refl u)
            ]
          ]

owned-ok :
    (p : FilePath) (kind : FileKind) (uid euid : ℕ)
    → check_owned p kind uid euid ≡ ok tt
    → (kind ≡ directory) × (uid ≡ euid)
unfolding check_owned
owned-ok p directory uid euid h = ground arith
owned-ok p special uid euid h = absurd cc
owned-ok p (regular contents) uid euid h = absurd cc
owned-ok p (symlink to_directory) uid euid h = absurd cc

restricted-IsPrivate :
    (p : FilePath) (d : Disk) (node : Node)
    → d.nodes p ≡ some node
    → node.kind ≡ directory
    → node.uid ≡ d.euid
    → (set_permissions p 0x1c0 d).0 ≡ ok tt
    → IsPrivate (set_permissions p 0x1c0 d).1 p
unfolding set_permissions
restricted-IsPrivate p d node n k u =
    system_call-cases (λ r. r.0 ≡ ok tt → IsPrivate r.1 p) _ d (λ e q. absurd cc)
      (rw n (λ q. rw (update_at p (some (record node { mode = 0x1c0 })) d.nodes) (k, u, refl)))

loose-false : (mode : ℕ) → is_loose mode ≡ false → mode % 64 ≡ 0
loose-false mode h = ground arith

-- A private directory is at `p` if `ensure_private_dir` succeeds.
pub ensure-IsPrivate :
    (p : FilePath) (d : Disk)
    → (ensure_private_dir p d).0 ≡ ok tt
    → IsPrivate (ensure_private_dir p d).1 p
unfolding ensure_private_dir
ensure-IsPrivate p d =
    and_then-ok (λ _ v. IsPrivate v p)
      (with_context (failed_to (codes "create") p) (create_dir_all p) d) _ tt
      λ a v q.
        and_then-ok (λ _ v. IsPrivate v p)
          (with_context (failed_to (codes "inspect") p) (symlink_metadata p) v) _ tt
          λ node u r.
            let (n, e, _) =
              metadata-found p v u node (context-ok _ (symlink_metadata p v) node u r) in
            elim (Result-cases (check_owned p node.kind node.uid u.euid)) [
              | inr (x, c) ↦ rw c (λ z. absurd cc)
              | inl (_, c) ↦
                  let (k, o) = owned-ok p node.kind node.uid u.euid c in
                  elim (Bool-cases (is_loose node.mode)) [
                    | inl l ↦
                        rw (c, l)
                          (context-only (failed_to (codes "restrict permissions on") p)
                            (set_permissions p 0x1c0 u) (λ w. IsPrivate w p)
                            (restricted-IsPrivate p u node n k o))
                    | inr l ↦ rw (c, l) (λ z. rw n (k, o, loose-false node.mode l))
                  ]
            ]

pub each-Safer : (current cs : FilePath) (d : Disk) → Safer d (ensure_each current cs d).1
unfolding ensure_each
each-Safer current [] d = Safer-refl d
each-Safer current (c ∷ cs) d =
    then-Safer d (ensure_private_dir (current ++ c ∷ []) d) _
      (ensure_private-Safer (current ++ c ∷ []) d) (λ a v q. each-Safer (current ++ c ∷ []) cs v)
