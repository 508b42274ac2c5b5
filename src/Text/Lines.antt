-- ===== src/Text/Lines.antt =====
-- How `str::lines` splits a text, and how many lines there are.
use ignibyte_bridge.Prelude.{
  ◌≤◌, ◌≡◌, refl, ap, Bool-cases, inl, inr, [], ◌∷◌, ◌++◌, arith, Bytes, ◌==◌, length, count,
}
use ignibyte_bridge.Text.{lines, lines_from, strip_cr}

lines_from-newline :
    (cur xs ys : Bytes)
    → lines_from cur (xs ++ (b'\n' ∷ ys)) ≡ lines_from cur (xs ++ b'\n' ∷ []) ++ lines ys
unfolding lines_from lines
lines_from-newline cur [] ys = refl
lines_from-newline cur (x ∷ xs) ys = elim (Bool-cases (x == b'\n')) [
  | inl e ↦ rw e (ap (◌∷◌ (strip_cr cur)) (lines_from-newline [] xs ys))
  | inr e ↦ rw e (lines_from-newline (cur ++ x ∷ []) xs ys)
]

-- The text behind a newline is split by itself.
pub lines-newline :
    (xs ys : Bytes) → lines (xs ++ (b'\n' ∷ ys)) ≡ lines (xs ++ b'\n' ∷ []) ++ lines ys
unfolding lines
lines-newline xs ys = lines_from-newline [] xs ys

count-le-lines_from : (cur s : Bytes) → count b'\n' s ≤ length (lines_from cur s)
unfolding lines_from
count-le-lines_from cur [] = omega arith
count-le-lines_from cur (b ∷ s) =
    ground (arith, count-le-lines_from [] s, count-le-lines_from (cur ++ b ∷ []) s)

-- There are at least as many lines as newlines.
pub count-le-lines : (s : Bytes) → count b'\n' s ≤ length (lines s)
unfolding lines
count-le-lines s = count-le-lines_from [] s
