-- ===== src/Clean/Sequences.antt =====
-- Whole sequences, and plain text.
use ignibyte_bridge.Prelude.{
  ℕ, false, [], ◌∷◌, ◌++◌, ◌≡◌, ◌≢◌, ◌≤◌, ◌⊎◌, refl, ap, ◌∙◌, arith, Bytes, if◌then◌else◌, All,
  append-nil, append_assoc,
}
use ignibyte_bridge.Clean.{State, AnsiCleaner, step, default, clean, is_string_state}
use ignibyte_bridge.Clean.Chunks.{
  cleaned, cleaner_after, clean-cleaned, cleaned-append, cleaner_after-append,
}

-- From `c`, the bytes `xs` write `out` and leave `c'`.
pub record Writes (c : AnsiCleaner) (xs out : Bytes) (c' : AnsiCleaner) : Type 0 where
  pub writes : cleaned c xs ≡ out
  pub leaves : cleaner_after c xs ≡ c'

pub Writes-append :
    {c d e : AnsiCleaner} (xs ys out out' : Bytes)
    → Writes c xs out d
    → Writes d ys out' e
    → Writes c (xs ++ ys) (out ++ out') e
Writes-append {c} xs ys out out' p q = record {
  writes = rw (cleaned-append c xs ys, p.leaves, p.writes, q.writes) refl;
  leaves = rw (cleaner_after-append c xs ys, p.leaves) q.leaves;
}

pub one :
    (c : AnsiCleaner) (b : ℕ) (out : Bytes) (c' : AnsiCleaner)
    → step c b ≡ (c', out)
    → Writes c (b ∷ []) out c'
unfolding cleaned cleaner_after
one c b out c' e = record { writes = append-nil _ ∙ ap (λ p. p.1) e; leaves = ap (λ p. p.0) e }

abbrev at : State → AnsiCleaner
at s = record { state = s; pending_cr = false }

-- Bytes that keep a state and write nothing.
stays :
    (s : State) (P : ℕ → Type 0) (xs : Bytes)
    → ((b : ℕ) → P b → step (at s) b ≡ (at s, []))
    → All P xs
    → Writes (at s) xs [] (at s)
unfolding cleaned cleaner_after
stays s P [] keep h = record { writes = refl; leaves = refl }
stays s P (x ∷ xs) keep h =
    Writes-append (x ∷ []) xs [] [] (one (at s) x [] (at s) (keep x h.0)) (stays s P xs keep h.1)

-- The sequences of ECMA-48 that a terminal program writes.
pub data Sequence : Type 0 where
  csi_sequence : (params : Bytes) (final : ℕ) → Sequence
  osc_bel osc_st : (body : Bytes) → Sequence
  string_sequence : (opener : ℕ) (body : Bytes) → Sequence
  short_sequence : (intermediates : Bytes) (final : ℕ) → Sequence

abbrev pub encode : Sequence → Bytes
encode (csi_sequence params final) = 0x1b ∷ b'[' ∷ (params ++ final ∷ [])
encode (osc_bel body) = 0x1b ∷ b']' ∷ (body ++ 0x07 ∷ [])
encode (osc_st body) = 0x1b ∷ b']' ∷ (body ++ 0x1b ∷ b'\\' ∷ [])
encode (string_sequence opener body) = 0x1b ∷ opener ∷ (body ++ 0x1b ∷ b'\\' ∷ [])
encode (short_sequence intermediates final) = 0x1b ∷ (intermediates ++ final ∷ [])

abbrev pub IsWithin : ℕ → ℕ → ℕ → Type 0
IsWithin lo hi b = (lo ≤ b) × (b ≤ hi)

abbrev pub IsFinal : Bytes → ℕ → Type 0
IsFinal [] f =
    IsWithin 0x30 0x7e f
    × (f ≢ b'[')
    × (f ≢ b']')
    × (f ≢ b'P')
    × (f ≢ b'X')
    × (f ≢ b'^')
    × (f ≢ b'_')
IsFinal (_ ∷ _) f = IsWithin 0x30 0x7e f

abbrev pub IsWellFormed : Sequence → Type 0
IsWellFormed (csi_sequence params final) =
    All (IsWithin 0x20 0x3f) params × IsWithin 0x40 0x7e final
IsWellFormed (osc_bel body) = All (λ b. (b ≢ 0x07) × (b ≢ 0x1b)) body
IsWellFormed (osc_st body) = All (λ b. (b ≢ 0x07) × (b ≢ 0x1b)) body
IsWellFormed (string_sequence opener body) =
    ((opener ≡ b'P') ⊎ (opener ≡ b'X') ⊎ (opener ≡ b'^') ⊎ (opener ≡ b'_'))
    × All (λ b. b ≢ 0x1b) body
IsWellFormed (short_sequence intermediates final) =
    All (IsWithin 0x20 0x2f) intermediates × IsFinal intermediates final

abbrev owed_newline : AnsiCleaner → Bytes
owed_newline c = if c.pending_cr then b'\n' ∷ [] else []

opens :
    (c : AnsiCleaner)
    → is_string_state c.state ≡ false
    → Writes c (0x1b ∷ []) (owed_newline c) (at State.escape)
unfolding step
opens c h = one c 0x1b (owed_newline c) (at State.escape) (ground arith)

-- The rest of a sequence, from a state that it opens.
module _ (s : State) (P : ℕ → Type 0) (keep : (b : ℕ) → P b → step (at s) b ≡ (at s, [])) where
  closes_one :
      (xs : Bytes) (f : ℕ)
      → All P xs
      → step (at s) f ≡ (default, [])
      → Writes (at s) (xs ++ f ∷ []) [] default
  closes_one xs f h e =
      Writes-append xs (f ∷ []) [] [] (stays s P xs keep h) (one (at s) f [] default e)

  closes_two :
      (xs : Bytes) (f g : ℕ) (t : State)
      → All P xs
      → step (at s) f ≡ (at t, [])
      → step (at t) g ≡ (default, [])
      → Writes (at s) (xs ++ f ∷ g ∷ []) [] default
  closes_two xs f g t h e k =
      Writes-append xs (f ∷ g ∷ []) [] [] (stays s P xs keep h) (
        Writes-append (f ∷ []) (g ∷ []) [] [] (one (at s) f [] (at t) e)
          (one (at t) g [] default k))

body :
    (q : Sequence)
    → IsWellFormed q
    → (rest : Bytes) × (encode q ≡ 0x1b ∷ rest) × Writes (at State.escape) rest [] default
unfolding step is_string_state
body (csi_sequence params final) h = (
  b'[' ∷ (params ++ final ∷ []),
  refl,
  Writes-append (b'[' ∷ []) _ [] [] (one (at State.escape) b'[' [] (at State.csi) refl) (
      closes_one State.csi (IsWithin 0x20 0x3f) (λ b k. ground arith) params final h.0
        (ground arith)),
)
body (osc_bel b) h = (
  b']' ∷ (b ++ 0x07 ∷ []),
  refl,
  Writes-append (b']' ∷ []) _ [] [] (one (at State.escape) b']' [] (at State.osc) refl)
      (closes_one State.osc _ (λ b k. ground arith) b 0x07 h refl),
)
body (osc_st b) h = (
  b']' ∷ (b ++ 0x1b ∷ b'\\' ∷ []),
  refl,
  Writes-append (b']' ∷ []) _ [] [] (one (at State.escape) b']' [] (at State.osc) refl)
      (closes_two State.osc _ (λ b k. ground arith) b 0x1b b'\\' State.osc_esc h refl refl),
)
body (string_sequence opener b) h = (
  opener ∷ (b ++ 0x1b ∷ b'\\' ∷ []),
  refl,
  Writes-append (opener ∷ []) _ [] []
      (one (at State.escape) opener [] (at State.string_seq) (ground arith))
      (closes_two State.string_seq _ (λ b k. ground arith) b 0x1b b'\\' State.string_esc h.1 refl
        refl),
)
body (short_sequence [] final) h =
    (final ∷ [], refl, one (at State.escape) final [] default (ground arith))
body (short_sequence (i ∷ is) final) h = (
  i ∷ (is ++ final ∷ []),
  refl,
  Writes-append (i ∷ []) _ [] []
      (one (at State.escape) i [] (at State.escape_intermediate) (ground arith))
      (closes_one State.escape_intermediate (IsWithin 0x20 0x2f) (λ b k. ground arith) is final
        h.0.1 (ground arith)),
)

-- A well-formed control sequence that starts outside an OSC or string sequence, also in the middle of
-- another sequence, is taken out whole: only the newline of a pending carriage return is written, and the
-- cleaner goes on in the ground state.
pub clean_sequence :
    (c : AnsiCleaner) (q : Sequence) (rest out : Bytes)
    → is_string_state c.state ≡ false
    → IsWellFormed q
    → clean c (encode q ++ rest) out
      ≡ clean default rest (out ++ (if c.pending_cr then b'\n' ∷ [] else []))
clean_sequence c q rest out h wf =
    let (tail, e, w) = body q wf in
    let all = Writes-append (0x1b ∷ []) tail (owed_newline c) [] (opens c h) w in
    rw (clean-cleaned c (encode q ++ rest) out, clean-cleaned default rest (out ++ owed_newline c))
      (rw (cleaned-append c (encode q) rest, cleaner_after-append c (encode q) rest, e)
        (rw (all.writes, all.leaves) (simp append_assoc)))
