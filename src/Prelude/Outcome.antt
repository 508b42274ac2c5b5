-- ===== src/Prelude/Outcome.antt =====
-- `anyhow::Result`: an error is its chain of messages, the outermost context first.
use mathlib.Core.List.{List, [], ◌∷◌, ◌++◌}
use mathlib.Core.Path.{◌≡◌, refl}
use mathlib.Core.Logic.{◌⊎◌, inl, inr}
use ignibyte_bridge.Prelude.Lists.{Bytes, codes}

pub record Error : Type 0 where
  pub message : Bytes
  pub causes : List Bytes

pub data Result {ℓ} (A : Type ℓ) : Type ℓ where
  err : Error → Result A
  ok : A → Result A

-- `bail!(message)`
abbrev pub bail {ℓ} : {A : Type ℓ} → Bytes → Result A
bail m = err (record { message = m; causes = [] })

-- `.context(message)`
abbrev pub context {ℓ} : {A : Type ℓ} → Bytes → Result A → Result A
context m (ok a) = ok a
context m (err e) = err (record { message = m; causes = e.message ∷ e.causes })

-- `?` on a value, and on a test.
infixl 5 ◌>>=◌ ◌>>◌
abbrev pub ◌>>=◌ {ℓ κ} : {A : Type ℓ} {B : Type κ} → Result A → (A → Result B) → Result B
err failure >>= next = err failure
ok value >>= next = next value

joined : List Bytes → Bytes
joined [] = []
joined (m ∷ ms) = codes ": " ++ (m ++ joined ms)

-- `{error:#}`: the whole chain, joined by ": ".
unfoldable pub chain : Error → Bytes
unfolding joined
chain e = e.message ++ joined e.causes

abbrev pub ◌>>◌ {ℓ} : {B : Type ℓ} → Result (Unit {0}) → Result B → Result B
check >> next = check >>= λ _. next

pub >>=-eq-ok {ℓ κ} :
    {A : Type ℓ} {B : Type κ} (first : Result A) (next : A → Result B) {b : B}
    → (first >>= next) ≡ ok b
    → (a : A) × (first ≡ ok a) × (next a ≡ ok b)
>>=-eq-ok (err failure) next h = cc
>>=-eq-ok (ok value) next h = (value, refl, h)

pub Result-cases {ℓ} :
    {A : Type ℓ} (r : Result A) → ((a : A) × (r ≡ ok a)) ⊎ ((e : Error) × (r ≡ err e))
Result-cases (err e) = inr (e, refl)
Result-cases (ok a) = inl (a, refl)
