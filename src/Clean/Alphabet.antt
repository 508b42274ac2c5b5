-- ===== src/Clean/Alphabet.antt =====
-- What `clean` can write, and how much.
use ignibyte_bridge.Prelude.{
  ℕ, ◌+◌, ◌≤◌, ◌≡◌, ◌≢◌, ◌⊎◌, refl, true, [], ◌∷◌, arith, Bytes, if◌then◌else◌, length,
  length-append, All, All-append,
}
use ignibyte_bridge.Clean.{State, AnsiCleaner, step, clean}
use ignibyte_bridge.Clean.Chunks.{cleaned, cleaner_after, clean-cleaned}

-- A newline, a tab, or a byte that is no C0 control and not DEL.
abbrev pub IsReadable : ℕ → Type 0
IsReadable b = (b ≡ b'\n') ⊎ (b ≡ b'\t') ⊎ ((32 ≤ b) × (b ≢ 0x7f))

step_in-IsReadable :
    (s : State) (c : AnsiCleaner) (b : ℕ) → c.state ≡ s → All IsReadable (step c b).1
unfolding step
step_in-IsReadable State.ground c b e = ground arith
step_in-IsReadable _ c b e = ground arith

cleaned-IsReadable : (c : AnsiCleaner) (input : Bytes) → All IsReadable (cleaned c input)
unfolding cleaned
cleaned-IsReadable c [] = tt
cleaned-IsReadable c (b ∷ input) =
    All-append IsReadable (step c b).1 _ (step_in-IsReadable c.state c b refl)
      (cleaned-IsReadable (step c b).0 input)

-- Whatever the state of the cleaner and the input, what `clean` appends holds no escape, carriage
-- return, delete or other C0 control: only newlines, tabs and printable or UTF-8 bytes.
pub clean-IsReadable :
    (c : AnsiCleaner) (input out : Bytes)
    → All IsReadable out
    → All IsReadable (clean c input out).1
clean-IsReadable c input out h =
    rw (clean-cleaned c input out)
      (All-append IsReadable out (cleaned c input) h (cleaned-IsReadable c input))

-- The newline owed for a carriage return that is still pending.
abbrev pub owed : AnsiCleaner → ℕ
owed c = if c.pending_cr then 1 else 0

step-owed :
    (s : State) (c : AnsiCleaner) (b : ℕ)
    → c.state ≡ s
    → length (step c b).1 + owed (step c b).0 ≤ 1 + owed c
unfolding step
step-owed State.ground c b e = ground arith
step-owed _ c b e = ground arith

cleaned-owed :
    (c : AnsiCleaner) (input : Bytes)
    → length (cleaned c input) + owed (cleaner_after c input) ≤ length input + owed c
unfolding cleaned cleaner_after
cleaned-owed c [] = omega arith
cleaned-owed c (b ∷ input) = omega (
  arith,
  length-append (step c b).1 (cleaned (step c b).0 input),
  step-owed c.state c b refl,
  cleaned-owed (step c b).0 input,
)

-- One call appends at most one byte for each byte read, and one for a carriage return that was
-- pending before; a newline still owed after the call is counted too.
pub length-clean :
    (c : AnsiCleaner) (input out : Bytes)
    → length (clean c input out).1 + owed (clean c input out).0 ≤ length out + length input + owed c
length-clean c input out =
    rw (clean-cleaned c input out)
      (omega (arith, length-append out (cleaned c input), cleaned-owed c input))

-- A carriage return is pending in the ground state only.
abbrev pub IsSettled : AnsiCleaner → Type 0
IsSettled c = c.pending_cr ≡ true → c.state ≡ State.ground

pub step-IsSettled :
    (s : State) (c : AnsiCleaner) (b : ℕ) → c.state ≡ s → IsSettled c → IsSettled (step c b).0
unfolding step
step-IsSettled State.ground c b e h = ground arith
step-IsSettled _ c b e h = ground arith
