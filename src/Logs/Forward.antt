-- ===== src/Logs/Forward.antt =====
-- `forward_input` of src/logs.rs, over what the stop flag and the reads of the FIFO give it.
use ignibyte_bridge.Prelude.{ℕ, take, List, [], ◌∷◌, ◌++◌, ◌≡◌, refl, Bytes, codes}

pub data Round : Type 0 where
  stop_set read_zero would_block read_failed : Round
  read_bytes flush_failed : (bytes : Bytes) → Round
  write_failed : (bytes : Bytes) (accepted : ℕ) → Round

pub data Exit : Type 0 where
  running returned_ok : Exit
  returned_err : Bytes → Exit

-- The bytes that the PTY has been given, after `pty`: of a write that fails, those that it had accepted.
unfoldable pub forward_input : List Round → Bytes → Bytes × Exit
forward_input [] pty = (pty, running)
forward_input (stop_set ∷ rounds) pty = (pty, returned_ok)
forward_input (read_zero ∷ rounds) pty = forward_input rounds pty
forward_input (would_block ∷ rounds) pty = forward_input rounds pty
forward_input (read_failed ∷ rounds) pty = (pty, returned_err (codes "failed to read input FIFO"))
forward_input (read_bytes bytes ∷ rounds) pty = forward_input rounds (pty ++ bytes)
forward_input (write_failed bytes accepted ∷ rounds) pty =
    (pty ++ take accepted bytes, returned_err (codes "failed to write input to PTY"))
forward_input (flush_failed bytes ∷ rounds) pty =
    (pty ++ bytes, returned_err (codes "failed to flush PTY input"))

-- The loop goes on where it stands.
pub forward_input-append :
    (rounds more : List Round) (pty : Bytes)
    → (forward_input rounds pty).1 ≡ running
    → forward_input (rounds ++ more) pty ≡ forward_input more (forward_input rounds pty).0
unfolding forward_input
forward_input-append [] more pty h = refl
forward_input-append (stop_set ∷ rounds) more pty h = absurd cc
forward_input-append (read_zero ∷ rounds) more pty h = forward_input-append rounds more pty h
forward_input-append (would_block ∷ rounds) more pty h = forward_input-append rounds more pty h
forward_input-append (read_failed ∷ rounds) more pty h = absurd cc
forward_input-append (read_bytes bytes ∷ rounds) more pty h =
    forward_input-append rounds more (pty ++ bytes) h
forward_input-append (write_failed bytes accepted ∷ rounds) more pty h = absurd cc
forward_input-append (flush_failed bytes ∷ rounds) more pty h = absurd cc

pub forward_input-stop : (pty : Bytes) → forward_input (stop_set ∷ []) pty ≡ (pty, returned_ok)
unfolding forward_input
forward_input-stop pty = refl

pub forward_input-none : (pty : Bytes) → forward_input [] pty ≡ (pty, running)
unfolding forward_input
forward_input-none pty = refl
