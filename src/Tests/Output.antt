-- ===== src/Tests/Output.antt =====
-- Cleaning, capturing and reading logs, at concrete inputs.
use ignibyte_bridge.Prelude.{
  ◌≡◌, refl, append_assoc, append-nil, arith, ◌-◌, false, List, [], ◌∷◌, ◌++◌, Bytes, codes, length,
  drop, All,
}
use ignibyte_bridge.Text.Utf8.{from_utf8_lossy}
use ignibyte_bridge.Clean.{State, AnsiCleaner, default, clean}
use ignibyte_bridge.Clean.Alphabet.{IsReadable, clean-IsReadable}
use ignibyte_bridge.Clean.Reference.{owed_newline, tokens, normalize, clean-normalize}
use ignibyte_bridge.Logs.{tail_contents, tail_lines, trim_screen_snapshot}
use ignibyte_bridge.Logs.Tail.{tail_contents-capped}
use ignibyte_bridge.Logs.Capture.{
  written, failed_after, Round, poll_timeout, read_chunk, read_eof, Capture, capture_output,
}
use ignibyte_bridge.Logs.Capture.Stream.{received, IsFaithful, capture-IsFaithful}
use ignibyte_bridge.Logs.Capture.Warnings.{Reports, capture-Reports}

-- Red text, a carriage return that is rewritten, and a line end.
abbrev colored : Bytes
colored = 0x1b ∷ (codes "[31mred" ++ b'\r' ∷ b'\n' ∷ (codes "50%" ++ b'\r' ∷ codes "99%"))

abbrev pending : AnsiCleaner
pending = record { state = State.csi; pending_cr = false }

clean-IsReadable_example : All IsReadable (clean pending colored []).1
clean-IsReadable_example = clean-IsReadable pending colored [] tt

clean-normalize_example :
    (clean default colored []).1 ++ owed_newline (clean default colored []).0
    ≡ normalize false (tokens State.ground colored)
clean-normalize_example = clean-normalize colored

abbrev log : Bytes
log = codes "one" ++ b'\n' ∷ (codes "two" ++ b'\n' ∷ codes "three")

tail_contents-capped_example :
    tail_contents 4 9 log 2 ≡ tail_lines (from_utf8_lossy (drop (length log - 9) log)) 2
tail_contents-capped_example = tail_contents-capped 4 9 log 2 (omega arith)

-- A terminal that shows all that it has processed.
abbrev pub start : Capture {Terminal = Bytes} ◌++◌ (λ t. t)
start = record {
  cleaner = default;
  terminal = [];
  sinks = record {
    raw_log = [];
    clean_log = [];
    screen = trim_screen_snapshot [];
    warned = record { raw = false; clean = false; screen = false };
    stderr = [];
  };
}

abbrev rounds : List Round
rounds = poll_timeout ∷ read_chunk colored written written written ∷ read_eof ∷ []

abbrev full_disk : List Round
full_disk =
    read_chunk colored (failed_after 2 (codes "disk full")) written written
    ∷ read_chunk colored (failed_after 0 (codes "disk full")) (failed_after 1 (codes "disk full"))
        written
    ∷ read_eof
    ∷ []

capture-IsFaithful_example :
    IsFaithful {Terminal = Bytes} ◌++◌
      (λ t. t)
      (λ t xs ys. append_assoc t xs ys)
      append-nil
      start
      (received rounds)
      (capture_output ◌++◌ (λ t. t) rounds start).0
capture-IsFaithful_example =
    capture-IsFaithful ◌++◌ (λ t. t) (λ t xs ys. append_assoc t xs ys) append-nil rounds start refl
      (tt, ((refl, refl, refl), (tt, tt)))

capture-Reports_example :
    Reports {Terminal = Bytes} ◌++◌
      (λ t. t)
      full_disk
      start
      (capture_output ◌++◌ (λ t. t) full_disk start).0
capture-Reports_example = capture-Reports ◌++◌ (λ t. t) full_disk start
