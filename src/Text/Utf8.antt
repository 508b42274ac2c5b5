-- ===== src/Text/Utf8.antt =====
-- `String::from_utf8_lossy`: each maximal ill-formed subpart becomes U+FFFD.
use ignibyte_bridge.Prelude.{
  ℕ, ◌-◌, ◌≤◌, ◌≡◌, refl, sym, [], ◌∷◌, ◌++◌, append_assoc, arith, Bytes, ◌==◌, within, ltb,
  if◌then◌else◌, count, count-append,
}

-- The replacement character.
abbrev pub replacement : Bytes
replacement = 0xef ∷ 0xbf ∷ 0xbd ∷ []

-- A character in progress: its bytes so far, how many are missing, and the range of the next.
pub data Partial : Type 0 where
  boundary : Partial
  inside : (bytes : Bytes) (missing lo hi : ℕ) → Partial

-- The first byte of a character.
pub begin : ℕ → Partial × Bytes
begin b =
    if ltb b 0x80
    then (boundary, b ∷ [])
    else if within 0xc2 0xdf b
    then (inside (b ∷ []) 1 0x80 0xbf, [])
    else if b == 0xe0
    then (inside (b ∷ []) 2 0xa0 0xbf, [])
    else if b == 0xed
    then (inside (b ∷ []) 2 0x80 0x9f, [])
    else if within 0xe1 0xef b
    then (inside (b ∷ []) 2 0x80 0xbf, [])
    else if b == 0xf0
    then (inside (b ∷ []) 3 0x90 0xbf, [])
    else if within 0xf1 0xf3 b
    then (inside (b ∷ []) 3 0x80 0xbf, [])
    else if b == 0xf4
    then (inside (b ∷ []) 3 0x80 0x8f, [])
    else (boundary, replacement)

abbrev behind : Bytes → Partial × Bytes → Partial × Bytes
behind out (p, more) = (p, out ++ more)

pub advance : Partial → ℕ → Partial × Bytes
unfolding begin
advance boundary b = begin b
advance (inside bytes missing lo hi) b =
    if within lo hi b
    then if missing == 1
      then (boundary, bytes ++ b ∷ [])
      else (inside (bytes ++ b ∷ []) (missing - 1) 0x80 0xbf, [])
    else behind replacement (begin b)

pub flush : Partial → Bytes
flush boundary = []
flush (inside bytes missing lo hi) = replacement

unfoldable pub lossy_from : Partial → Bytes → Bytes
unfolding advance flush
lossy_from p [] = flush p
lossy_from p (b ∷ bs) = (advance p b).1 ++ lossy_from (advance p b).0 bs

unfoldable pub from_utf8_lossy : Bytes → Bytes
unfolding lossy_from
from_utf8_lossy s = lossy_from boundary s

-- A character in progress expects no ASCII byte, and holds no newline.
abbrev IsSound : Partial → Type 0
IsSound boundary = Unit
IsSound (inside bytes missing lo hi) = (0x80 ≤ lo) × (count b'\n' bytes ≡ 0)

begin-IsSound : (b : ℕ) → IsSound (begin b).0
unfolding begin
begin-IsSound b = ground arith

advance-IsSound : (p : Partial) (b : ℕ) → IsSound p → IsSound (advance p b).0
unfolding advance
advance-IsSound boundary b h = begin-IsSound b
advance-IsSound (inside bytes missing lo hi) b h =
    ground (arith, begin-IsSound b, count-append b'\n' bytes (b ∷ []))

-- What a byte adds to the newlines of the output.
count-advance :
    (p : Partial) (b : ℕ) → IsSound p → count b'\n' (advance p b).1 ≡ count b'\n' (b ∷ [])
unfolding advance begin
count-advance boundary b h = ground arith
count-advance (inside bytes missing lo hi) b h = ground (arith, count-append b'\n' bytes (b ∷ []))

count-lossy_from :
    (p : Partial) (bs : Bytes) → IsSound p → count b'\n' (lossy_from p bs) ≡ count b'\n' bs
unfolding lossy_from
count-lossy_from boundary [] h = refl
count-lossy_from (inside _ _ _ _) [] h = refl
count-lossy_from p (b ∷ bs) h = omega (
  arith,
  count-append b'\n' (advance p b).1 (lossy_from (advance p b).0 bs),
  count-advance p b h,
  count-lossy_from (advance p b).0 bs (advance-IsSound p b h),
)

-- Lossy decoding keeps the number of newlines.
pub count-from_utf8_lossy : (s : Bytes) → count b'\n' (from_utf8_lossy s) ≡ count b'\n' s
unfolding from_utf8_lossy
count-from_utf8_lossy s = count-lossy_from boundary s tt

newline_flushes : (p : Partial) → IsSound p → advance p b'\n' ≡ (boundary, flush p ++ b'\n' ∷ [])
unfolding advance begin flush
newline_flushes boundary h = refl
newline_flushes (inside bytes missing lo hi) h = ground arith

lossy_from-newline :
    (p : Partial) (xs ys : Bytes)
    → IsSound p
    → lossy_from p (xs ++ (b'\n' ∷ ys)) ≡ lossy_from p xs ++ (b'\n' ∷ lossy_from boundary ys)
unfolding lossy_from
lossy_from-newline p [] ys h = rw (newline_flushes p h) (append_assoc (flush p) (b'\n' ∷ []) _)
lossy_from-newline p (x ∷ xs) ys h =
    rw (lossy_from-newline (advance p x).0 xs ys (advance-IsSound p x h))
      (sym (append_assoc (advance p x).1 _ _))

-- What stands behind a newline is decoded by itself.
pub from_utf8_lossy-newline :
    (xs ys : Bytes)
    → from_utf8_lossy (xs ++ (b'\n' ∷ ys)) ≡ from_utf8_lossy xs ++ (b'\n' ∷ from_utf8_lossy ys)
unfolding from_utf8_lossy
from_utf8_lossy-newline xs ys = lossy_from-newline boundary xs ys tt
