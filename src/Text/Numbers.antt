-- ===== src/Text/Numbers.antt =====
-- Printing a number and reading it back.
use ignibyte_bridge.Prelude.{
  ℕ, zero, suc, ◌+◌, ◌*◌, ◌/◌, ◌%◌, ◌^◌, ◌<◌, ◌≡◌, refl, ◌∙◌, Bool-cases, inl, inr, [], ◌∷◌, some,
  arith, Bytes, ltb, ltb→lt, lt→ltb, within, true, sym, ap, ◌-◌,
}
use ignibyte_bridge.Text.{decimal, digits_from, parse_digits, parse_u64}

digit_test : (n : ℕ) → within b'0' b'9' (n % 10 + b'0') ≡ true
digit_test n = ground arith

parse_digit :
    (value n : ℕ) (rest : Bytes)
    → value * 10 + n % 10 ≡ n
    → n < 2 ^ 64
    → parse_digits value ((n % 10 + b'0') ∷ rest) ≡ parse_digits n rest
unfolding parse_digits
parse_digit value n rest e h =
    let e' : value * 10 + (n % 10 + b'0' - b'0') ≡ n = omega (arith, e) in
    rw (e', digit_test n, lt→ltb n (2 ^ 64) h)

parse-digits_from :
    (fuel n : ℕ) (rest : Bytes)
    → n < fuel
    → n < 2 ^ 64
    → parse_digits 0 (digits_from fuel n rest) ≡ parse_digits n rest
unfolding digits_from
parse-digits_from zero n rest h k = absurd (omega arith)
parse-digits_from (suc fuel) n rest h k = elim (Bool-cases (ltb n 10)) [
  | inl e ↦ rw e (parse_digit 0 n rest (omega (arith, ltb→lt n 10 e)) k)
  | inr e ↦ rw e (
      parse-digits_from fuel (n / 10) _ (ground arith) (omega arith)
      ∙ parse_digit (n / 10) n rest (omega arith) k)
]

-- The printed form starts with a digit.
first_digit :
    (fuel n d : ℕ) (rest : Bytes)
    → within b'0' b'9' d ≡ true
    → (c : ℕ) × (cs : Bytes) × (digits_from fuel n (d ∷ rest) ≡ c ∷ cs)
      × (within b'0' b'9' c ≡ true)
unfolding digits_from
first_digit zero n d rest h = (d, rest, refl, h)
first_digit (suc fuel) n d rest h = elim (Bool-cases (ltb n 10)) [
  | inl e ↦ rw e (n % 10 + b'0', d ∷ rest, refl, digit_test n)
  | inr e ↦ rw e (first_digit fuel (n / 10) (n % 10 + b'0') (d ∷ rest) (digit_test n))
]

first_digit_of :
    (n : ℕ) → (c : ℕ) × (cs : Bytes) × (decimal n ≡ c ∷ cs) × (within b'0' b'9' c ≡ true)
unfolding decimal digits_from
first_digit_of n = elim (Bool-cases (ltb n 10)) [
  | inl e ↦ rw e (n % 10 + b'0', [], refl, digit_test n)
  | inr e ↦ rw e (first_digit n (n / 10) (n % 10 + b'0') [] (digit_test n))
]

parse_u64_digit :
    (c : ℕ) (cs : Bytes) → within b'0' b'9' c ≡ true → parse_u64 (c ∷ cs) ≡ parse_digits 0 (c ∷ cs)
unfolding parse_u64
parse_u64_digit c cs h = ground arith

-- A 64-bit number is read back from its decimal digits.
pub parse_u64-decimal : (n : ℕ) → n < 2 ^ 64 → parse_u64 (decimal n) ≡ some n
unfolding decimal parse_digits
parse_u64-decimal n h =
    let (c, cs, e, d) = first_digit_of n in
    rw e (parse_u64_digit c cs d)
    ∙ ap (parse_digits 0) (sym e)
    ∙ parse-digits_from (suc n) n [] (omega arith) h
