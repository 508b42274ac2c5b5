-- ===== src/Text/Split.antt =====
-- `str::split` undoes `join`.
use ignibyte_bridge.Prelude.{
  ℕ, ◌≡◌, refl, ap, ◌∙◌, Bool-cases, inl, inr, false, List, [], ◌∷◌, ◌++◌, append_assoc, append-nil,
  arith, Bytes, ◌==◌, All, count, count-append,
}
use ignibyte_bridge.Text.{split, split_from, join}

split-piece :
    (sep : ℕ) (cur w rest : Bytes)
    → count sep w ≡ 0
    → split_from sep cur (w ++ (sep ∷ rest)) ≡ (cur ++ w) ∷ split_from sep [] rest
unfolding split_from
split-piece sep cur [] rest h = rw append-nil (ground arith)
split-piece sep cur (b ∷ w) rest h =
    ground (arith, split-piece sep (cur ++ b ∷ []) w rest, append_assoc cur (b ∷ []) w)

split-last : (sep : ℕ) (cur w : Bytes) → count sep w ≡ 0 → split_from sep cur w ≡ (cur ++ w) ∷ []
unfolding split_from
split-last sep cur [] h = rw append-nil refl
split-last sep cur (b ∷ w) h =
    ground (arith, split-last sep (cur ++ b ∷ []) w, append_assoc cur (b ∷ []) w)

-- Pieces with no separator in them, at least one, are joined and split again.
pub split-join :
    (sep : ℕ) (w : Bytes) (ws : List Bytes)
    → All (λ v. count sep v ≡ 0) (w ∷ ws)
    → split sep (join (sep ∷ []) (w ∷ ws)) ≡ w ∷ ws
unfolding split join
split-join sep w [] h = split-last sep [] w h.0
split-join sep w (v ∷ ws) h =
    split-piece sep [] w (join (sep ∷ []) (v ∷ ws)) h.0 ∙ ap (◌∷◌ w) (split-join sep v ws h.1)

count-longer :
    (sep : ℕ) (cur : Bytes) (b : ℕ)
    → count sep cur ≡ 0
    → (b == sep) ≡ false
    → count sep (cur ++ b ∷ []) ≡ 0
count-longer sep cur b h e = rw (count-append sep cur (b ∷ []), h, e) (omega arith)

split_from-pieces :
    (sep : ℕ) (cur s : Bytes)
    → count sep cur ≡ 0
    → All (λ v. count sep v ≡ 0) (split_from sep cur s)
unfolding split_from
split_from-pieces sep cur [] h = (h, tt)
split_from-pieces sep cur (b ∷ s) h = elim (Bool-cases (b == sep)) [
  | inl e ↦ rw e (h, split_from-pieces sep [] s refl)
  | inr e ↦ rw e (split_from-pieces sep (cur ++ b ∷ []) s (count-longer sep cur b h e))
]

-- No piece holds the separator.
pub split-pieces : (sep : ℕ) (s : Bytes) → All (λ v. count sep v ≡ 0) (split sep s)
unfolding split
split-pieces sep s = split_from-pieces sep [] s refl
