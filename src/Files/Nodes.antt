-- ===== src/Files/Nodes.antt =====
-- What a system call leaves of the file system.
use ignibyte_bridge.Prelude.{
  ◌≡◌, ◌≢◌, ◌↔◌, refl, sym, ap, ◌∙◌, inl, inr, true, false, suc, Option, some, List, [], ◌∷◌, ◌++◌,
  append_assoc, append-nil, All, All-append, arith, Bytes, bytes_eq_iff, Option-cases, Error,
  Result, ok, err,
}
use ignibyte_bridge.Effects.{context_of}
use ignibyte_bridge.Files.{
  FilePath, path_eq, Node, Nodes, Disk, F, system_call, update, symlink_metadata,
}

pub path_eq_iff : (p q : FilePath) → (path_eq p q ≡ true) ↔ (p ≡ q)
unfolding path_eq
path_eq_iff (a ∷ p) (b ∷ q) = ground (arith, bytes_eq_iff a b, path_eq_iff p q)
path_eq_iff [] [] = ground arith
path_eq_iff [] (b ∷ q) = ground arith
path_eq_iff (a ∷ p) [] = ground arith

pub path_eq_refl : (p : FilePath) → path_eq p p ≡ true
path_eq_refl p = (path_eq_iff p p).1 refl

pub path_ne : (p q : FilePath) → p ≢ q → path_eq p q ≡ false
path_ne p q h = ground (arith, path_eq_iff p q)

pub update_at :
    (p : FilePath) (entry : Option Node) (nodes : Nodes) → update p entry nodes p ≡ entry
unfolding update
update_at p entry nodes = rw (path_eq_refl p) refl

pub update_else :
    (p q : FilePath) (entry : Option Node) (nodes : Nodes)
    → p ≢ q
    → update q entry nodes p ≡ nodes p
unfolding update
update_else p q entry nodes h = rw (path_ne p q h) refl

-- Between two states of the disk only `P` has happened to the nodes, in each state that others have seen.
pub record Evolves (P : Nodes → Type 0) (d d' : Disk) : Type 0 where
  pub new_seen : List Nodes
  pub seen_eq : d'.seen ≡ d.seen ++ new_seen
  pub all_seen : All P new_seen
  pub same_euid : d'.euid ≡ d.euid

module _ {P : Nodes → Type 0} where
  pub Evolves-still : {d d' : Disk} → d'.seen ≡ d.seen → d'.euid ≡ d.euid → Evolves P d d'
  Evolves-still {d} e u = record {
    new_seen = [];
    seen_eq = e ∙ sym (append-nil d.seen);
    all_seen = tt;
    same_euid = u;
  }

  pub Evolves-trans : {c d e : Disk} → Evolves P c d → Evolves P d e → Evolves P c e
  Evolves-trans {c} p q = record {
    new_seen = p.new_seen ++ q.new_seen;
    seen_eq =
        q.seen_eq ∙ ap (λ x. x ++ q.new_seen) p.seen_eq ∙ append_assoc c.seen p.new_seen q.new_seen;
    all_seen = All-append P p.new_seen q.new_seen p.all_seen q.all_seen;
    same_euid = q.same_euid ∙ p.same_euid;
  }

  pub Evolves-one :
      (d d' : Disk) (nodes : Nodes)
      → d'.seen ≡ d.seen ++ nodes ∷ []
      → d'.euid ≡ d.euid
      → P nodes
      → Evolves P d d'
  Evolves-one d d' nodes e u h = record {
    new_seen = nodes ∷ [];
    seen_eq = e;
    all_seen = (h, tt);
    same_euid = u;
  }

-- What holds of a system call that fails and of one that does its work.
pub system_call-cases :
    {A : Type 0} (Q : Result A × Disk → Type 0) (m : F A) (d : Disk)
    → ((e : Error) → Q (err e, record d { calls = suc d.calls }))
    → Q (m (record d { calls = suc d.calls }))
    → Q (system_call m d)
system_call-cases Q m d h k = elim (Option-cases (d.fault d.calls)) [
  | inl e ↦ rw e k
  | inr (x, e) ↦ rw e (h x)
]

-- A context changes no state, and no success.
pub context-state :
    {A : Type 0} (message : Bytes) (p : Result A × Disk) → (context_of message p).1 ≡ p.1
context-state message (ok a, d) = refl
context-state message (err e, d) = refl

pub context-ok :
    {A : Type 0} (message : Bytes) (p : Result A × Disk) (a : A) (d : Disk)
    → context_of message p ≡ (ok a, d)
    → p ≡ (ok a, d)
context-ok message (ok b, c) a d e = e
context-ok message (err x, c) a d e = cc

pub context-only :
    (message : Bytes) (p : Result (Unit {0}) × Disk) (Q : Disk → Type 0)
    → (p.0 ≡ ok tt → Q p.1)
    → (context_of message p).0 ≡ ok tt
    → Q (context_of message p).1
context-only message (ok _, d) Q h e = h refl
context-only message (err x, d) Q h e = absurd cc

-- What `lstat` reports is there.
pub metadata-found :
    (p : FilePath) (d v : Disk) (node : Node)
    → symlink_metadata p d ≡ (ok node, v)
    → (v.nodes p ≡ some node) × (v.euid ≡ d.euid) × (d.nodes p ≡ some node)
unfolding symlink_metadata
metadata-found p d v node =
    system_call-cases
      (λ r.
        r ≡ (ok node, v) → (v.nodes p ≡ some node) × (v.euid ≡ d.euid) × (d.nodes p ≡ some node))
      _ d (λ e q. absurd cc)
      λ q. elim (Option-cases (d.nodes p)) [
        | inl e ↦ absurd (let q' = rw e at q in cc)
        | inr (n, e) ↦
            let q' : ◌≡◌ {A = Result Node × Disk} (ok n, record d { calls = suc d.calls })
                (ok node, v) =
              rw e at q in
            let k : n ≡ node = (let z : ok n ≡ ok node = ap (λ r. r.0) q' in cc) in
            (
              ap (λ r. r.1.nodes p) (sym q') ∙ (e ∙ ap some k),
              ap (λ r. r.1.euid) (sym q'),
              e ∙ ap some k,
            )
      ]
