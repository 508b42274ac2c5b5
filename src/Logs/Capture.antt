-- ===== src/Logs/Capture.antt =====
-- `capture_output` and `warn_once` of src/logs.rs. The loop runs over the rounds that `poll`, `read`
-- and the three writes give it; the terminal is the `vt100` parser of another crate, a parameter.
pub mod Stream
pub mod Messages
pub mod Warnings
pub mod Rounds
use ignibyte_bridge.Prelude.{
  ℕ, Bool, true, false, List, [], ◌∷◌, ◌++◌, Bytes, if◌then◌else◌, take, codes,
}
use ignibyte_bridge.Clean.{AnsiCleaner, clean}
use ignibyte_bridge.Logs.{trim_screen_snapshot}

-- A `write_all` and `flush`, or a `write_atomic`. One that fails may have written a prefix.
pub data Write : Type 0 where
  written : Write
  failed_after : (accepted : ℕ) (error : Bytes) → Write

-- What one round of the loop meets, in the order of its tests.
pub data Round : Type 0 where
  stop_set poll_interrupted poll_failed poll_timeout read_failed read_eof : Round
  read_chunk : (chunk : Bytes) (raw clean screen : Write) → Round

pub data Exit : Type 0 where
  running returned_ok : Exit
  returned_err : Bytes → Exit

pub record Warned : Type 0 where
  pub raw : Bool
  pub clean : Bool
  pub screen : Bool

-- The three sinks, with the messages on stderr, oldest first.
pub record Sinks : Type 0 where
  pub raw_log : Bytes
  pub clean_log : Bytes
  pub screen : Bytes
  pub warned : Warned
  pub stderr : List Bytes

pub append_write : Bytes → Bytes → Write → Bytes
append_write log bytes written = log ++ bytes
append_write log bytes (failed_after n e) = log ++ take n bytes

pub replace_write : Bytes → Bytes → Write → Bytes
replace_write old new written = new
replace_write old new (failed_after n e) = old

pub failed : Write → Bool
failed written = false
failed (failed_after n e) = true

pub write_failed : Bytes → Bytes → Bytes
write_failed sink e =
    codes "ignibyte-bridge: " ++ (sink ++ (codes " write failed (continuing): " ++ e))

-- The flag and the messages after `warn_once`.
pub warn_once : Bool → Bytes → Write → List Bytes → Bool × List Bytes
warn_once warned sink written stderr = (warned, stderr)
warn_once true sink (failed_after n e) stderr = (true, stderr)
warn_once false sink (failed_after n e) stderr = (true, stderr ++ write_failed sink e ∷ [])

pub raw_sink : Bytes
raw_sink = codes "raw log"

pub clean_sink : Bytes
clean_sink = codes "clean log"

pub screen_sink : Bytes
screen_sink = codes "screen snapshot"

module _ {Terminal : Type 0} (process : Terminal → Bytes → Terminal)
    (contents : Terminal → Bytes) where
  pub record Capture : Type 0 where
    pub cleaner : AnsiCleaner
    pub terminal : Terminal
    pub sinks : Sinks

  -- The body of the loop behind a successful read.
  unfoldable pub capture_chunk : Capture → Bytes → Write → Write → Write → Capture
  capture_chunk c chunk raw_result clean_result screen_result =
      let raw_log = append_write c.sinks.raw_log chunk raw_result in
      let (raw_warned, stderr1) = warn_once c.sinks.warned.raw raw_sink raw_result c.sinks.stderr in
      let (cleaner, cleaned) = clean c.cleaner chunk [] in
      let clean_log = append_write c.sinks.clean_log cleaned clean_result in
      let (clean_warned, stderr2) =
        warn_once c.sinks.warned.clean clean_sink clean_result stderr1 in
      let terminal = process c.terminal chunk in
      let screen =
        replace_write c.sinks.screen (trim_screen_snapshot (contents terminal)) screen_result in
      let (screen_warned, stderr3) =
        warn_once c.sinks.warned.screen screen_sink screen_result stderr2 in
      record {
        cleaner = cleaner;
        terminal = terminal;
        sinks = record {
          raw_log = raw_log;
          clean_log = clean_log;
          screen = screen;
          warned = record { raw = raw_warned; clean = clean_warned; screen = screen_warned };
          stderr = stderr3;
        };
      }

  -- `running` if the rounds end before the loop does.
  unfoldable pub capture_output : List Round → Capture → Capture × Exit
  unfolding capture_chunk
  capture_output [] c = (c, running)
  capture_output (stop_set ∷ rounds) c = (c, returned_ok)
  capture_output (poll_interrupted ∷ rounds) c = capture_output rounds c
  capture_output (poll_failed ∷ rounds) c = (c, returned_err (codes "failed to poll PTY"))
  capture_output (poll_timeout ∷ rounds) c = capture_output rounds c
  capture_output (read_failed ∷ rounds) c = (c, returned_err (codes "failed to read PTY"))
  capture_output (read_eof ∷ rounds) c = (c, returned_ok)
  capture_output (read_chunk chunk raw_result clean_result screen_result ∷ rounds) c =
      capture_output rounds (capture_chunk c chunk raw_result clean_result screen_result)
