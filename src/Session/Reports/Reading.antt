-- ===== src/Session/Reports/Reading.antt =====
-- What `read` shows.
use ignibyte_bridge.Prelude.{
  ◌≡◌, ◌-◌, ap, arith, drop, ℕ, Bool, true, false, Option, some, Bytes, length, ok,
}
use ignibyte_bridge.Text.Utf8.{from_utf8_lossy}
use ignibyte_bridge.Paths.{validate_session_name}
use ignibyte_bridge.Logs.{tail_lines, max_bytes, block}
use ignibyte_bridge.Logs.Tail.{tail_contents-capped}
use ignibyte_bridge.Session.World.{World}
use ignibyte_bridge.Session.Metadata.{dir_of}
use ignibyte_bridge.Session.Reports.{tail_file, read_output_text}

abbrev pub log_of : Bool → World → Bytes → Option Bytes
log_of true w name = (w.sessions name).raw_log
log_of false w name = (w.sessions name).clean_log

-- `read` of a session whose log is there succeeds, with the last lines of the last 8 MiB of that log, raw or
-- clean as asked for, decoded as one text.
-- The name is valid and the root of the bridge is known.
pub read_output-tail :
    (w : World) (name dir log : Bytes) (tail : ℕ) (raw : Bool)
    → validate_session_name name ≡ ok tt
    → dir_of name w ≡ ok dir
    → log_of raw w name ≡ some log
    → read_output_text w name tail raw
      ≡ ok (tail_lines (from_utf8_lossy (drop (length log - max_bytes) log)) tail)
unfolding read_output_text tail_file
read_output-tail w name dir log tail true v d e =
    rw (v, d, e) (ap ok (tail_contents-capped block max_bytes log tail (omega arith)))
read_output-tail w name dir log tail false v d e =
    rw (v, d, e) (ap ok (tail_contents-capped block max_bytes log tail (omega arith)))
