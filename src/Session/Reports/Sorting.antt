-- ===== src/Session/Reports/Sorting.antt =====
-- The order of `list`, and of the daemon's stops.
use ignibyte_bridge.Prelude.{
  ◌≡◌, inl, inr, refl, Bool-cases, true, false, List, [], ◌∷◌, Bytes, arith,
}
use mathlib.Core.List.{Perm}
use mathlib.Core.List.Perm
use ignibyte_bridge.Session.Reports.{bytes_le, insert_by, sort_by}

pub bytes_le-total : (xs ys : Bytes) → bytes_le xs ys ≡ false → bytes_le ys xs ≡ true
unfolding bytes_le
bytes_le-total [] ys h = absurd cc
bytes_le-total (x ∷ xs) [] h = refl
bytes_le-total (x ∷ xs) (y ∷ ys) h = ground (arith, bytes_le-total xs ys)

module _ {A : Type 0} (key : A → Bytes) where
  -- Each key is at most the next.
  pub data IsSorted : List A → Type 0 where
    empty : IsSorted []
    one : (a : A) → IsSorted (a ∷ [])
    more :
        {a b : A} {xs : List A}
        → bytes_le (key a) (key b) ≡ true
        → IsSorted (b ∷ xs)
        → IsSorted (a ∷ b ∷ xs)

  insert_below :
      (a x : A) (xs : List A)
      → bytes_le (key x) (key a) ≡ true
      → IsSorted (x ∷ xs)
      → IsSorted (x ∷ insert_by key a xs)
  unfolding insert_by
  insert_below a x [] h s = more h (one a)
  insert_below a x (y ∷ ys) h (more k s) = elim (Bool-cases (bytes_le (key a) (key y))) [
    | inl e ↦ rw e (more h (more e s))
    | inr e ↦ rw e (more k (insert_below a y ys (bytes_le-total (key a) (key y) e) s))
  ]

  insert-IsSorted : (a : A) (xs : List A) → IsSorted xs → IsSorted (insert_by key a xs)
  unfolding insert_by
  insert-IsSorted a [] s = one a
  insert-IsSorted a (x ∷ xs) s = elim (Bool-cases (bytes_le (key a) (key x))) [
    | inl e ↦ rw e (more e s)
    | inr e ↦ rw e (insert_below a x xs (bytes_le-total (key a) (key x) e) s)
  ]

  insert-perm : (a : A) (xs : List A) → Perm (insert_by key a xs) (a ∷ xs)
  unfolding insert_by
  insert-perm a [] = Perm.rfl
  insert-perm a (x ∷ xs) = elim (Bool-cases (bytes_le (key a) (key x))) [
    | inl e ↦ rw e Perm.rfl
    | inr e ↦ rw e (Perm.trans (Perm.cons x (insert-perm a xs)) (Perm.swap a x xs))
  ]

  -- The sort by a name gives its elements in the order of their names, each as often as it was there.
  pub sort_by-IsSorted : (xs : List A) → IsSorted (sort_by key xs) × Perm (sort_by key xs) xs
  unfolding sort_by
  sort_by-IsSorted [] = (empty, Perm.rfl)
  sort_by-IsSorted (x ∷ xs) =
      let (s, p) = sort_by-IsSorted xs in
      (
        insert-IsSorted x (sort_by key xs) s,
        Perm.trans (insert-perm x (sort_by key xs)) (Perm.cons x p),
      )
