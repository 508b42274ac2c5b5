-- ===== src/Effects.antt =====
-- Fallible code over a state `S`, which it passes on whether it succeeds or fails.
use ignibyte_bridge.Prelude.{◌≡◌, ◌⊎◌, refl, inl, inr, Bytes, Error, Result, ok, err, ◌∷◌}

abbrev pub Stateful : Type 0 → Type 0 → Type 0
Stateful S A = S → Result A × S

module _ {S : Type 0} where
  -- `?` on the outcome of the first part.
  abbrev pub and_then : {A B : Type 0} → Result A × S → (A → Stateful S B) → Result B × S
  and_then (ok a, w) f = f a w
  and_then (err e, w) f = (err e, w)

  infixl 5 ◌>>=◌ ◌>>◌
  abbrev pub ◌>>=◌ : {A B : Type 0} → Stateful S A → (A → Stateful S B) → Stateful S B
  ◌>>=◌ m f w = and_then (m w) f

  abbrev pub ◌>>◌ : {B : Type 0} → Stateful S (Unit {0}) → Stateful S B → Stateful S B
  m >> k = m >>= λ _. k

  abbrev pub pure : {A : Type 0} → A → Stateful S A
  pure a w = (ok a, w)

  abbrev pub lift : {A : Type 0} → Result A → Stateful S A
  lift r w = (r, w)

  abbrev pub get : Stateful S S
  get w = (ok w, w)

  abbrev pub put : S → Stateful S (Unit {0})
  put w _ = (ok tt, w)

  -- The outcome as a value: `match f()`, `if let Ok(x) = f()`, `let _ = f()`.
  abbrev pub attempt : {A : Type 0} → Stateful S A → Stateful S (Result A)
  attempt m w = (ok (m w).0, (m w).1)

  abbrev pub context_of : {A : Type 0} → Bytes → Result A × S → Result A × S
  context_of message (ok a, w) = (ok a, w)
  context_of message (err e, w) =
      (err (record { message = message; causes = e.message ∷ e.causes }), w)

  -- `.context(message)` on the outcome.
  abbrev pub with_context : {A : Type 0} → Bytes → Stateful S A → Stateful S A
  with_context message m w = context_of message (m w)

  -- What holds of both parts' outcomes holds of the whole: the second part starts where the first, with this
  -- result, has ended, or the first has failed.
  pub and_then-cases :
      {A B : Type 0} (Q : Result B × S → Type 0) (p : Result A × S) (f : A → Stateful S B)
      → ((a : A) (v : S) → p ≡ (ok a, v) → Q (f a v))
      → ((e : Error) (v : S) → p ≡ (err e, v) → Q (err e, v))
      → Q (and_then p f)
  and_then-cases Q (ok a, v) f h k = h a v refl
  and_then-cases Q (err e, v) f h k = k e v refl

  -- The same where only success counts.
  pub and_then-ok :
      {A B : Type 0} (Q : B → S → Type 0) (p : Result A × S) (f : A → Stateful S B) (b : B)
      → ((a : A) (v : S) → p ≡ (ok a, v) → (f a v).0 ≡ ok b → Q b (f a v).1)
      → (and_then p f).0 ≡ ok b
      → Q b (and_then p f).1
  and_then-ok Q (ok a, v) f b h e = h a v refl e
  and_then-ok Q (err x, v) f b h e = absurd cc

  -- What each part keeps of the state, the whole keeps.
  pub and_then-keeps :
      {A B : Type 0} (Q : S → Type 0) (p : Result A × S) (f : A → Stateful S B)
      → Q p.1
      → ((a : A) (v : S) → Q v → Q (f a v).1)
      → Q (and_then p f).1
  and_then-keeps Q (ok a, v) f h k = k a v h
  and_then-keeps Q (err e, v) f h k = h

  -- Where the second part fails, the whole fails.
  pub and_then-fails :
      {A B : Type 0} (Q : S → Type 0) (p : Result A × S) (f : A → Stateful S B)
      → Q p.1
      → ((a : A) (v : S) → Q v → (e : Error) × ((f a v).0 ≡ err e))
      → (e : Error) × ((and_then p f).0 ≡ err e)
  and_then-fails Q (ok a, v) f h k = k a v h
  and_then-fails Q (err e, v) f h k = (e, refl)

  pub context_of-keeps :
      {A : Type 0} (Q : S → Type 0) (message : Bytes) (p : Result A × S)
      → Q p.1
      → Q (context_of message p).1
  context_of-keeps Q message (ok a, v) h = h
  context_of-keeps Q message (err e, v) h = h

  -- An outcome is a result and the state behind it.
  pub outcome-cases :
      {A : Type 0} (p : Result A × S)
      → ((a : A) × (v : S) × (p ≡ (ok a, v))) ⊎ ((e : Error) × (v : S) × (p ≡ (err e, v)))
  outcome-cases (ok a, v) = inl (a, v, refl)
  outcome-cases (err e, v) = inr (e, v, refl)
