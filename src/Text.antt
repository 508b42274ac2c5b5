-- ===== src/Text.antt =====
-- The string functions of Rust's standard library that the program calls, over UTF-8 bytes.
pub mod Utf8
pub mod Lines
pub mod Numbers
pub mod Words
pub mod Split
use ignibyte_bridge.Prelude.{
  ℕ, zero, suc, ◌+◌, ◌-◌, ◌*◌, ◌/◌, ◌%◌, ◌^◌, ◌<◌, Bool, true, false, not, ◌&&◌, ◌||◌, List, [],
  ◌∷◌, ◌++◌, Option, none, some, Bytes, ◌==◌, ltb, leb, within, if◌then◌else◌, is_empty,
}
use mathlib.Core.List.{reverse}

-- `str::lines`: a line end is "\n" or "\r\n"; a carriage return in front of no newline stays.
strip_cr_reversed : Bytes → Bytes
strip_cr_reversed [] = []
strip_cr_reversed (b ∷ bs) = if b == b'\r' then bs else b ∷ bs

-- `strip_suffix('\r')`
unfoldable pub strip_cr : Bytes → Bytes
unfolding strip_cr_reversed
strip_cr line = reverse (strip_cr_reversed (reverse line))

-- Text behind the last line end is a line unless it is empty.
abbrev pub last_line : Bytes → List Bytes
last_line cur = if is_empty cur then [] else cur ∷ []

-- `cur` is the line read so far.
unfoldable pub lines_from : Bytes → Bytes → List Bytes
lines_from cur [] = last_line cur
lines_from cur (b ∷ bs) =
    let rest = lines_from [] bs in
    let longer = lines_from (cur ++ b ∷ []) bs in if b == b'\n' then strip_cr cur ∷ rest else longer

unfoldable pub lines : Bytes → List Bytes
unfolding lines_from
lines s = lines_from [] s

-- `str::trim_end` drops trailing `White_Space` characters; here from the reversed bytes.
-- One byte: U+0009 to U+000D and U+0020.
pub is_ascii_space : ℕ → Bool
is_ascii_space b = within 0x09 0x0d b || b == 0x20

-- U+0085 and U+00A0.
pub is_two_byte_space : ℕ → ℕ → Bool
is_two_byte_space a b = a == 0xc2 && (b == 0x85 || b == 0xa0)

-- U+1680, U+2000 to U+200A, U+2028, U+2029, U+202F, U+205F and U+3000.
pub is_three_byte_space : ℕ → ℕ → ℕ → Bool
is_three_byte_space a b c =
    (a == 0xe1 && b == 0x9a && c == 0x80)
    || (a == 0xe2 && b == 0x80 && (within 0x80 0x8a c || c == 0xa8 || c == 0xa9 || c == 0xaf))
    || (a == 0xe2 && b == 0x81 && c == 0x9f)
    || (a == 0xe3 && b == 0x80 && c == 0x80)

unfoldable pub trim_reversed : Bytes → Bytes
unfolding is_ascii_space is_two_byte_space is_three_byte_space
trim_reversed [] = []
trim_reversed (c ∷ []) = if is_ascii_space c then [] else c ∷ []
trim_reversed (c ∷ b ∷ []) =
    let one = trim_reversed (b ∷ []) in
    if is_ascii_space c then one else if is_two_byte_space b c then [] else c ∷ b ∷ []
trim_reversed (c ∷ b ∷ a ∷ rest) =
    let one = trim_reversed (b ∷ a ∷ rest) in
    let two = trim_reversed (a ∷ rest) in
    let three = trim_reversed rest in
    if is_ascii_space c
    then one
    else if is_two_byte_space b c
    then two
    else if is_three_byte_space a b c
    then three
    else c ∷ b ∷ a ∷ rest

unfoldable pub trim_end : Bytes → Bytes
unfolding trim_reversed
trim_end s = reverse (trim_reversed (reverse s))

-- `str::trim_start`
unfoldable pub trim_start : Bytes → Bytes
unfolding is_ascii_space is_two_byte_space is_three_byte_space
trim_start [] = []
trim_start (a ∷ []) = if is_ascii_space a then [] else a ∷ []
trim_start (a ∷ b ∷ []) =
    let one = trim_start (b ∷ []) in
    if is_ascii_space a then one else if is_two_byte_space a b then [] else a ∷ b ∷ []
trim_start (a ∷ b ∷ c ∷ rest) =
    let one = trim_start (b ∷ c ∷ rest) in
    let two = trim_start (c ∷ rest) in
    let three = trim_start rest in
    if is_ascii_space a
    then one
    else if is_two_byte_space a b
    then two
    else if is_three_byte_space a b c
    then three
    else a ∷ b ∷ c ∷ rest

unfoldable pub trim : Bytes → Bytes
unfolding trim_start trim_end
trim s = trim_end (trim_start s)

-- `str::contains` for a text.
unfoldable pub is_prefix : Bytes → Bytes → Bool
is_prefix [] s = true
is_prefix (p ∷ ps) [] = false
is_prefix (p ∷ ps) (c ∷ cs) = p == c && is_prefix ps cs

unfoldable pub contains : Bytes → Bytes → Bool
unfolding is_prefix
contains p [] = is_prefix p []
contains p (c ∷ cs) = is_prefix p (c ∷ cs) || contains p cs

-- `[…].join(sep)`
unfoldable pub join : Bytes → List Bytes → Bytes
join sep [] = []
join sep (x ∷ []) = x
join sep (x ∷ y ∷ xs) = x ++ (sep ++ join sep (y ∷ xs))

-- `str::split(sep)` at one byte: one piece more than there are separators.
unfoldable pub split_from : ℕ → Bytes → Bytes → List Bytes
split_from sep cur [] = cur ∷ []
split_from sep cur (b ∷ bs) =
    let next = split_from sep [] bs in
    let longer = split_from sep (cur ++ b ∷ []) bs in if b == sep then cur ∷ next else longer

unfoldable pub split : ℕ → Bytes → List Bytes
unfolding split_from
split sep s = split_from sep [] s

-- The decimal digits of a number, as `Display` prints it. A digit is taken off on each round, so
-- `n + 1` rounds are enough.
digits_from : ℕ → ℕ → Bytes → Bytes
digits_from zero n acc = acc
digits_from (suc fuel) n acc =
    let here = (n % 10 + b'0') ∷ acc in
    let more = digits_from fuel (n / 10) here in if ltb n 10 then here else more

unfoldable pub decimal : ℕ → Bytes
unfolding digits_from
decimal n = digits_from (suc n) n []

abbrev pub u64_limit : ℕ
u64_limit = 2 ^ 64

-- The digits behind a value read so far; `none` at another byte or at an overflow.
unfoldable pub parse_digits : ℕ → Bytes → Option ℕ
parse_digits value [] = some value
parse_digits value (b ∷ bs) =
    let value' = value * 10 + (b - b'0') in
    let rest = parse_digits value' bs in
    if within b'0' b'9' b && ltb value' u64_limit then rest else none

-- `str::parse::<u64>`: an optional `+` and at least one digit.
parse_unsigned : Bytes → Option ℕ
unfolding parse_digits
parse_unsigned [] = none
parse_unsigned (b ∷ bs) = parse_digits 0 (b ∷ bs)

unfoldable pub parse_u64 : Bytes → Option ℕ
unfolding parse_unsigned
parse_u64 [] = none
parse_u64 (b ∷ bs) = if b == b'+' then parse_unsigned bs else parse_unsigned (b ∷ bs)

abbrev word : Bytes → List Bytes → List Bytes
word cur rest = if is_empty cur then rest else cur ∷ rest

-- `str::split_whitespace`: the maximal runs without `White_Space`. `cur` is the run read so far.
unfoldable pub words_from : Bytes → Bytes → List Bytes
unfolding is_ascii_space is_two_byte_space is_three_byte_space
words_from cur [] = word cur []
words_from cur (a ∷ []) = if is_ascii_space a then word cur [] else (cur ++ a ∷ []) ∷ []
words_from cur (a ∷ b ∷ []) =
    let one = words_from [] (b ∷ []) in
    let longer = words_from (cur ++ a ∷ []) (b ∷ []) in
    if is_ascii_space a then word cur one else if is_two_byte_space a b then word cur [] else longer
words_from cur (a ∷ b ∷ c ∷ rest) =
    let one = words_from [] (b ∷ c ∷ rest) in
    let two = words_from [] (c ∷ rest) in
    let three = words_from [] rest in
    let longer = words_from (cur ++ a ∷ []) (b ∷ c ∷ rest) in
    if is_ascii_space a
    then word cur one
    else if is_two_byte_space a b
    then word cur two
    else if is_three_byte_space a b c
    then word cur three
    else longer

unfoldable pub split_whitespace : Bytes → List Bytes
unfolding words_from
split_whitespace s = words_from [] s

-- What follows the last occurrence of a byte: `&s[s.rfind(b)? + 1..]`.
unfoldable pub after_last : ℕ → Bytes → Option Bytes
after_last b [] = none
after_last b (c ∷ cs) = elim (after_last b cs) [
  | some rest ↦ some rest
  | none ↦ if c == b then some cs else none
]
