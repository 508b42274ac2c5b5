-- ===== src/Clean.antt =====
-- src/clean.rs: the streaming stripper of terminal controls, `AnsiCleaner`.
-- A method that pushes to `out` returns the cleaner with the bytes that it pushes.
pub mod Chunks
pub mod Alphabet
pub mod Sequences
pub mod PlainLines
pub mod Reference
use ignibyte_bridge.Prelude.{
  ℕ, Bool, true, false, not, ◌&&◌, ◌||◌, List, [], ◌∷◌, ◌++◌, Bytes, ◌==◌, within, if◌then◌else◌,
}

pub data State : Type 0 where
  ground escape escape_intermediate csi osc osc_esc string_seq string_esc : State

pub record AnsiCleaner : Type 0 where
  pub state : State
  pub pending_cr : Bool

-- `AnsiCleaner::default()`
abbrev pub default : AnsiCleaner
default = record { state = ground; pending_cr = false }

-- The states in which `ESC` may begin the terminator `ESC \`.
unfoldable pub is_string_state : State → Bool
is_string_state osc = true
is_string_state osc_esc = true
is_string_state string_seq = true
is_string_state string_esc = true
is_string_state _ = false

-- The byte match of `ground`, with no carriage return pending.
pub ground_match : AnsiCleaner → ℕ → AnsiCleaner × Bytes
ground_match c byte =
    if byte == 0x1b
    then (record c { state = escape }, [])
    else if byte == b'\r'
    then (record c { pending_cr = true }, [])
    else if byte == b'\n' || byte == b'\t'
    then (c, byte ∷ [])
    else if within 0x00 0x08 byte || within 0x0b 0x0c byte || within 0x0e 0x1f byte || byte == 0x7f
    then (c, [])
    else (c, byte ∷ [])

-- A byte that stands behind a flushed newline.
abbrev pub behind_newline : AnsiCleaner × Bytes → AnsiCleaner × Bytes
behind_newline (c, out) = (c, b'\n' ∷ out)

pub ground_byte : AnsiCleaner → ℕ → AnsiCleaner × Bytes
unfolding ground_match
ground_byte c byte =
    if c.pending_cr
    then if byte == b'\n'
      then (record c { pending_cr = false }, b'\n' ∷ [])
      else behind_newline (ground_match (record c { pending_cr = false }) byte)
    else ground_match c byte

pub escape_byte : ℕ → State
escape_byte byte =
    if byte == b'['
    then csi
    else if byte == b']'
    then osc
    else if byte == b'P' || byte == b'X' || byte == b'^' || byte == b'_'
    then string_seq
    else if within 0x20 0x2f byte
    then escape_intermediate
    else ground

-- `match self.state`
pub step_in : State → AnsiCleaner → ℕ → AnsiCleaner × Bytes
unfolding ground_byte escape_byte
step_in ground c byte = ground_byte c byte
step_in escape c byte = (record c { state = escape_byte byte }, [])
step_in escape_intermediate c byte =
    (if within 0x30 0x7e byte then record c { state = ground } else c, [])
step_in csi c byte = (if within 0x40 0x7e byte then record c { state = ground } else c, [])
step_in osc c byte = (
  if byte == 0x07
      then record c { state = ground }
      else if byte == 0x1b
      then record c { state = osc_esc }
      else c,
  [],
)
step_in osc_esc c byte = (record c { state = ground }, [])
step_in string_seq c byte = (if byte == 0x1b then record c { state = string_esc } else c, [])
step_in string_esc c byte = (record c { state = ground }, [])

pub step : AnsiCleaner → ℕ → AnsiCleaner × Bytes
unfolding step_in is_string_state
step c byte =
    if byte == 0x1b && not (is_string_state c.state)
    then if c.pending_cr
      then (record { state = escape; pending_cr = false }, b'\n' ∷ [])
      else (record c { state = escape }, [])
    else step_in c.state c byte

-- `clean(&mut self, input, out)`: the cleaner and `out` after the loop.
unfoldable pub clean : AnsiCleaner → Bytes → Bytes → AnsiCleaner × Bytes
clean c [] out = (c, out)
clean c (byte ∷ input) out = let (c', pushed) = step c byte in clean c' input (out ++ pushed)

-- A fresh cleaner over one buffer.
unfoldable pub clean_all : Bytes → Bytes
clean_all input = (clean default input []).1
