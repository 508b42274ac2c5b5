-- ===== src/Files/Atomic.antt =====
-- `write_atomic`: a whole file or the old one, for every reader at every time.
use ignibyte_bridge.Prelude.{
  Result-cases, subst, ◌≡◌, ◌≢◌, ◌⊎◌, refl, sym, ap, ◌∙◌, inl, inr, Bool-cases, Option-cases, ℕ,
  ◌+◌, ◌%◌, ◌^◌, not, ◌||◌, Option, none, some, List, [], ◌∷◌, ◌++◌, length, length-append, All,
  arith, Bytes, bytes_eq, codes, Error, Result, ok, err,
}
use ignibyte_bridge.Text.{decimal}
use ignibyte_bridge.Effects.{context_of, outcome-cases, with_context}
use ignibyte_bridge.Text.Utf8.{from_utf8_lossy}
use ignibyte_bridge.Files.{FilePath, Node, Nodes, Disk, update, is_directory, rename}
use ignibyte_bridge.Files.Operations.{
  split_last, tmp_name, has_name, or_remove, write_tmp, replace_by, write_atomic, failed_to,
}
use ignibyte_bridge.Files.Nodes.{
  update_at, update_else, Evolves, Evolves-still, Evolves-one, Evolves-trans, system_call-cases,
}
use ignibyte_bridge.Files.Temporary.{Within, remove-Within, write_tmp-Within}
use ignibyte_bridge.Files.Contents.{Holds, holds, write_tmp-Holds}

-- What others see at `path` at any time.
abbrev pub OldOrNew : FilePath → Bytes → Nodes → Nodes → Type 0
OldOrNew path contents old nodes = (nodes path ≡ old path) ⊎ Holds nodes path contents

-- Replacing a file as a whole: the contract of `write_atomic`.
pub record IsAtomic (path : FilePath) (contents : Bytes) (d : Disk) (r : Result (Unit {0}) × Disk)
    : Type 0 where
  pub tmp : FilePath
  pub outcome :
      ((r.0 ≡ ok tt) × Holds r.1.nodes path contents × (r.1.nodes tmp ≡ none))
      ⊎ ((e : Error) × (r.0 ≡ err e) × (r.1.nodes path ≡ d.nodes path))
  pub in_between : Evolves (OldOrNew path contents d.nodes) d r.1
  pub others : (q : FilePath) → q ≢ path → q ≢ tmp → r.1.nodes q ≡ d.nodes q

data Renamed (p q : FilePath) (d : Disk) (r : Result (Unit {0}) × Disk) : Type 0 where
  moved :
      (node : Node)
      → d.nodes p ≡ some node
      → r.0 ≡ ok tt
      → r.1.nodes ≡ update p none (update q (some node) d.nodes)
      → r.1.seen ≡ d.seen ++ r.1.nodes ∷ []
      → r.1.euid ≡ d.euid
      → Renamed p q d r
  stuck :
      (e : Error)
      → r.0 ≡ err e
      → r.1.nodes ≡ d.nodes
      → r.1.seen ≡ d.seen
      → r.1.euid ≡ d.euid
      → Renamed p q d r

rename-Renamed : (p q : FilePath) (d : Disk) → Renamed p q d (rename p q d)
unfolding rename
rename-Renamed p q d =
    system_call-cases (Renamed p q d) _ d (λ e. stuck e refl refl refl refl)
      (elim (Bool-cases (is_directory (d.nodes q))) [
        | inl b ↦ rw b (stuck _ refl refl refl refl)
        | inr b ↦ elim (Option-cases (d.nodes p)) [
          | inl n ↦ rw (b, n) (stuck _ refl refl refl refl)
          | inr (node, n) ↦ rw (b, n) (moved node n refl refl refl refl)
        ]
      ])

context-Renamed :
    (message : Bytes) (p q : FilePath) (d : Disk) (r : Result (Unit {0}) × Disk)
    → Renamed p q d r
    → Renamed p q d (context_of message r)
context-Renamed message p q d (ok _, v) h = h
context-Renamed message p q d (err x, v) (moved node n r a s u) = absurd cc
context-Renamed message p q d (err x, v) (stuck e r a s u) = stuck _ refl a s u

All-map : {P Q : Nodes → Type 0} (xs : List Nodes) → ((s : Nodes) → P s → Q s) → All P xs → All Q xs
All-map [] f h = tt
All-map (x ∷ xs) f h = (f x h.0, All-map xs f h.1)

Evolves-map :
    {P Q : Nodes → Type 0} {d d' : Disk}
    → ((s : Nodes) → P s → Q s)
    → Evolves P d d'
    → Evolves Q d d'
Evolves-map f e = record {
  new_seen = e.new_seen;
  seen_eq = e.seen_eq;
  all_seen = All-map e.new_seen f e.all_seen;
  same_euid = e.same_euid;
}

module _ (tmp path : FilePath) (differ : path ≢ tmp) (contents : Bytes) (d : Disk) where
  old : {v : Disk} → Within d.nodes tmp d v → Evolves (OldOrNew path contents d.nodes) d v
  old w = Evolves-map (λ s h. inl (h path differ)) w.evolves

  -- A failure that leaves all but the temporary file.
  failing :
      (e : Error) (r : Result (Unit {0}) × Disk)
      → r.0 ≡ err e
      → Within d.nodes tmp d r.1
      → IsAtomic path contents d r
  failing e r x w = record {
    tmp = tmp;
    outcome = inr (e, x, w.elsewhere path differ);
    in_between = old w;
    others = λ q h k. w.elsewhere q k;
  }

  Within-trans :
      {u v : Disk} → Within d.nodes tmp d u → Within d.nodes tmp u v → Within d.nodes tmp d v
  Within-trans p q = record { evolves = Evolves-trans p.evolves q.evolves; elsewhere = q.elsewhere }

  removing :
      (e : Error) (v : Disk)
      → Within d.nodes tmp d v
      → IsAtomic path contents d (or_remove tmp (err e) v)
  removing e v w =
      failing e (or_remove tmp (err e) v) refl
        (Within-trans w (remove-Within d.nodes tmp v w.elsewhere))

  finishing :
      (v : Disk) (r : Result (Unit {0}) × Disk)
      → Within d.nodes tmp d v
      → Holds v.nodes tmp contents
      → Renamed tmp path v r
      → IsAtomic path contents d (or_remove tmp r.0 r.1)
  finishing v (ok _, u) w h (stuck e x n s y) = absurd cc
  finishing v (err e', u) w h (stuck e x n s y) = removing e' u (record {
    evolves = Evolves-trans w.evolves (Evolves-still s y);
    elsewhere = rw n w.elsewhere;
  })
  finishing v (err e', u) w h (moved node n x m s y) = absurd cc
  finishing v (ok _, u) w (holds node' n' k l) (moved node n x m s y) =
      let new : Holds u.nodes path contents =
        holds node'
          (ap (λ f. f path) m
            ∙ (update_else path tmp none (update path (some node) v.nodes) differ
                ∙ (update_at path (some node) v.nodes ∙ (sym n ∙ n'))))
          k l in
      record {
        tmp = tmp;
        outcome =
            inl
              (refl, new, ap (λ f. f tmp) m ∙ update_at tmp none (update path (some node) v.nodes));
        in_between = Evolves-trans (old w) (Evolves-one v u u.nodes s y (inr new));
        others = λ q h h'.
            ap (λ f. f q) m
            ∙ (update_else q tmp none (update path (some node) v.nodes) h'
                ∙ (update_else q path (some node) v.nodes h ∙ w.elsewhere q h'));
      }

  replace-IsAtomic : IsAtomic path contents d (replace_by tmp path contents d)
  unfolding replace_by
  replace-IsAtomic =
      let w = write_tmp-Within d.nodes tmp contents d (λ q h. refl) in
      elim (outcome-cases (write_tmp tmp contents d)) [
        | inr (e, v, q) ↦ rw q (removing e v (subst (λ r. Within d.nodes tmp d r.1) q w))
        | inl (_, v, q) ↦ rw q (
            finishing v (with_context (failed_to (codes "replace") path) (rename tmp path) v)
              (subst (λ r. Within d.nodes tmp d r.1) q w)
              (subst (λ r. Holds r.1.nodes tmp contents) q
                (write_tmp-Holds tmp contents d (ap (λ r. r.0) q)))
              (context-Renamed _ tmp path v (rename tmp path v) (rename-Renamed tmp path v)))
      ]

split_last-eq :
    (p parent : FilePath) (name : Bytes)
    → split_last p ≡ some (parent, name)
    → p ≡ parent ++ name ∷ []
split_last-eq [] parent name h = absurd cc
split_last-eq (c ∷ []) parent name h = cc
split_last-eq (c ∷ d ∷ cs) parent name h = elim (Option-cases (split_last (d ∷ cs))) [
  | inl e ↦ absurd (let h' = rw e at h in cc)
  | inr ((p, n), e) ↦
      let ih = split_last-eq (d ∷ cs) p n e in
      let h' : some (c ∷ p, n) ≡ some (parent, name) = rw e at h in cc
]

has_name-eq :
    (o : Option (FilePath × Bytes)) (path parent : FilePath) (name : Bytes)
    → has_name o path ≡ ok (parent, name)
    → o ≡ some (parent, name)
unfolding has_name
has_name-eq none path parent name h = absurd cc
has_name-eq (some (p, n)) path parent name h =
    elim (Bool-cases (bytes_eq n (codes "..") || not (bytes_eq (from_utf8_lossy n) n))) [
      | inl e ↦ absurd (let h' = rw e at h in cc)
      | inr e ↦ let h' : ok (p, n) ≡ ok (parent, name) = rw e at h in cc
    ]

tmp_name-ne : (name : Bytes) (pid unique : ℕ) → name ≢ tmp_name name pid unique
tmp_name-ne name pid unique h =
    let e = ap length h in
    omega
      (arith, length-append {0} name (codes ".tmp." ++ (decimal pid ++ (b'.' ∷ decimal unique))))

last-injective : (p : FilePath) (a b : Bytes) → p ++ a ∷ [] ≡ p ++ b ∷ [] → a ≡ b
last-injective [] a b h = cc
last-injective (x ∷ p) a b h = let h' : p ++ a ∷ [] ≡ p ++ b ∷ [] = cc in last-injective p a b h'

-- Taking a number for the temporary file is not seen.
counted :
    (path : FilePath) (contents : Bytes) (d : Disk) (r : Result (Unit {0}) × Disk)
    → IsAtomic path contents (record d { tmp_counter = (d.tmp_counter + 1) % 2 ^ 64 }) r
    → IsAtomic path contents d r
counted path contents d r a = record {
  tmp = a.tmp;
  outcome = a.outcome;
  in_between = record {
    new_seen = a.in_between.new_seen;
    seen_eq = a.in_between.seen_eq;
    all_seen = a.in_between.all_seen;
    same_euid = a.in_between.same_euid;
  };
  others = a.others;
}

-- `write_atomic` replaces the file at a path as a whole. It succeeds, and the path holds exactly the new
-- contents in a file that only the owner can use, and the temporary file is gone; or it fails, and the path is
-- as before. At every step in between, with any of the system calls failing or short, whoever looks sees
-- the old file or the complete new one, and at the end no path but these two has changed.
pub write_atomic-IsAtomic :
    (path : FilePath) (contents : Bytes) (d : Disk)
    → IsAtomic path contents d (write_atomic path contents d)
unfolding write_atomic
write_atomic-IsAtomic path contents d = elim (Result-cases (has_name (split_last path) path)) [
  | inr (e, h) ↦ rw h (record {
    tmp = path;
    outcome = inr (e, refl, refl);
    in_between = Evolves-still refl refl;
    others = λ q k l. refl;
  })
  | inl ((parent, name), h) ↦
      let tmp = parent ++ tmp_name name d.pid d.tmp_counter ∷ [] in
      let place =
        split_last-eq path parent name (has_name-eq (split_last path) path parent name h) in
      let differ : path ≢ tmp = λ e.
        tmp_name-ne name d.pid d.tmp_counter
          (last-injective parent name (tmp_name name d.pid d.tmp_counter) (sym place ∙ e)) in
      rw h (
        counted path contents d _ (
          replace-IsAtomic tmp path differ contents
            (record d { tmp_counter = (d.tmp_counter + 1) % 2 ^ 64 })))
]
