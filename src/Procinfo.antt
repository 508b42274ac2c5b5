-- ===== src/Procinfo.antt =====
-- src/procinfo.rs: the start-time token of a process, on Linux and on macOS.
pub mod Token
use ignibyte_bridge.Prelude.{
  ℕ, ◌+◌, ◌*◌, ◌%◌, ◌^◌, Option, none, some, Bytes, if◌then◌else◌, bytes_eq, get_elem?,
}
use ignibyte_bridge.Text.{after_last, split_whitespace, parse_u64}
use ignibyte_bridge.Text.Utf8.{from_utf8_lossy}

infixl 5 ◌>>=◌
abbrev ◌>>=◌ {ℓ κ} : {A : Type ℓ} {B : Type κ} → Option A → (A → Option B) → Option B
none >>= f = none
some a >>= f = f a

-- `read_to_string` of a file: text that is not UTF-8 is an error. Lossy decoding changes exactly that.
unfoldable pub read_to_string : Option Bytes → Option Bytes
read_to_string none = none
read_to_string (some s) = if bytes_eq (from_utf8_lossy s) s then some s else none

-- Field 22 of the line, counted behind the last `)`.
unfoldable pub stat_start_time : Bytes → Option ℕ
stat_start_time stat = do
  after_comm ← after_last b')' stat
  field ← get_elem? (split_whitespace after_comm) 19
  parse_u64 field

-- On Linux, from the bytes of `/proc/<pid>/stat`, if it can be read.
unfoldable pub process_start_time : Option Bytes → Option ℕ
process_start_time file = do stat ← read_to_string file; stat_start_time stat

-- On macOS, from the seconds and microseconds that `proc_pidinfo` gives, if it fills the structure.
-- The shift leaves 20 zero bits, so `|` with the low 20 bits of the microseconds is a sum.
unfoldable pub process_start_time_macos : Option (ℕ × ℕ) → Option ℕ
process_start_time_macos none = none
process_start_time_macos (some (sec, usec)) = some (sec * 2 ^ 20 % 2 ^ 64 + usec % 2 ^ 20)
