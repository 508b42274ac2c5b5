-- ===== src/Tests/Runs.antt =====
-- The lifecycle of a run, at a concrete session.
use ignibyte_bridge.Prelude.{
  ◌≡◌, ◌≢◌, ◌⊎◌, refl, inl, inr, arith, ◌+◌, ◌%◌, ◌^◌, ℕ, false, Option, none, some, List, [], ◌∷◌,
  Bytes, codes, bytes_eq, Result, ok, err, Error, bail, if◌then◌else◌,
}
use ignibyte_bridge.Paths.{
  validate_session_name, session_dir, path_join, is_name_byte, starts_with, ends_with,
  parse_command,
}
use ignibyte_bridge.Session.World.{
  pos, negsuc, as_i32, SessionMetadata, starting, stopped, absent, contents, delivered,
  not_permitted, no_such_process, Os, World, Env, write_dir, set_dir,
}
use ignibyte_bridge.Procinfo.{process_start_time, read_to_string}
use ignibyte_bridge.Session.Process.{
  process_alive, terminate_pid, send_signal, signal_pid_and_group, refusal, wait_gone,
}
use ignibyte_bridge.Session.Process.Gone.{terminate-gone}
use ignibyte_bridge.Session.Process.Termination.{Effects, terminate-Effects}
use ignibyte_bridge.Session.Metadata.{
  current, parse_stored, stamped, save_metadata, encoded, load_metadata, mark_stopped, promote,
  record_child,
}
use ignibyte_bridge.Session.Metadata.Saving.{SaveOutcome, save-SaveOutcome}
use ignibyte_bridge.Session.Metadata.Marking.{
  marked, mark_stopped-live, mark_stopped-first, promote-dead,
}
use ignibyte_bridge.Session.Start.{initialize_session_files}
use ignibyte_bridge.Session.Start.Fresh.{IsNewRun, initialize-IsNewRun}
use ignibyte_bridge.Session.Stop.{stop_session_silent}
use ignibyte_bridge.Session.Stop.Safety.{Named, gone, reused, stop_foreign-only_marks, stop-Effects}
use ignibyte_bridge.Session.Lifecycle.{
  Writers, here, next, marks, promotes, initializes, starts, starts_in, Writers-Follows,
}
use ignibyte_bridge.Session.Lifecycle.Continuation.{Follows}
use ignibyte_bridge.Tests.Codec.{encode, decode-encode, codec, codec-RoundTrips}

-- A session that is starting its third run, with its supervisor recorded.
abbrev pub run : SessionMetadata
run = record {
  name = codes "web";
  cwd = codes "/tmp";
  command = codes "sh" ∷ [];
  status = starting;
  supervisor_pid = some 70;
  child_pid = some 71;
  supervisor_start_time = some 5;
  child_start_time = some 6;
  generation = 3;
  rows = 40;
  cols = 140;
  created_at_unix = 100;
  updated_at_unix = 100;
  exit_status = none;
  exit_code = none;
}

abbrev ended : SessionMetadata
ended = record run { status = stopped; exit_code = some 0 }

-- Process 70 is there, but nothing of it can be read.
abbrev pub os : Os
os = record {
  kill = λ target. elim target [
    | pos n ↦ (if bytes_eq (n ∷ []) (70 ∷ []) then delivered else no_such_process)
    | negsuc n ↦ no_such_process
  ];
  stat = λ pid. none;
}

-- The third write to the disk fails.
abbrev pub fault : ℕ → Option Error
fault n =
    if bytes_eq (n ∷ []) (2 ∷ [])
    then some (record { message = codes "No space left on device"; causes = [] })
    else none

abbrev pub world : SessionMetadata → World
world m = record {
  root = ok (codes "/b");
  sessions = λ name. record {
    metadata = (if bytes_eq name (codes "web") then contents (encode m) else absent);
    raw_log = none;
    clean_log = none;
    screen = none;
    raw_prev = none;
    clean_prev = none;
    fifo = none;
    fifo_reader = false;
  };
  now = 107;
  os = os;
  signals = [];
  sleeps = 0;
  writes = 0;
  write_fault = fault;
}

pub loads : (m : SessionMetadata) → current codec (world m) (codes "web") ≡ ok m
unfolding current parse_stored session_dir validate_session_name path_join is_name_byte starts_with
    ends_with bytes_eq
loads m = rw (decode-encode m) refl

valid : validate_session_name (codes "web") ≡ ok tt
unfolding validate_session_name is_name_byte starts_with bytes_eq
valid = refl

-- Nothing else happens in the system.
abbrev pub quiet : Env
quiet n w = w

save-SaveOutcome_example :
    SaveOutcome codec
      (world run)
      (codes "web")
      (ok run)
      (ok (stamped (world run) ended))
      (save_metadata codec ended (world run))
save-SaveOutcome_example = save-SaveOutcome codec codec-RoundTrips (world run) run ended (loads run)

-- The first mark of a run in a world where no write fails.
first_succeeds : (mark_stopped codec (codes "web") none (some 1) (some 3) (world run)).0 ≡ ok tt
unfolding mark_stopped current parse_stored session_dir validate_session_name path_join is_name_byte
    starts_with ends_with bytes_eq load_metadata save_metadata encoded write_dir set_dir
first_succeeds = rw (decode-encode run) refl

mark_stopped-first_example :
    let v = (mark_stopped codec (codes "web") none (some 1) (some 3) (world run)).1 in
    let p = mark_stopped codec (codes "web") (some (codes "killed")) (some 9) (some 4) v in
    (p ≡ (ok tt, v))
    × (current codec p.1 (codes "web") ≡ ok (marked codec (world run) run none (some 1)))
mark_stopped-first_example =
    mark_stopped-first codec codec-RoundTrips (world run) run none (some (codes "killed")) (some 1)
      (some 9) (some 4) (loads run) (λ e. cc) first_succeeds

mark_stopped-live_example :
    SaveOutcome codec
      (world run)
      (codes "web")
      (ok run)
      (ok (marked codec (world run) run none (some 1)))
      (mark_stopped codec (codes "web") none (some 1) (some 3) (world run))
mark_stopped-live_example =
    mark_stopped-live codec codec-RoundTrips (world run) run none (some 1) (some 3) (loads run) refl
      (λ e. cc)

promote-dead_example :
    (e : Error) × (promote codec (codes "web") 3 (world ended) ≡ (err e, world ended))
    × (record_child codec (codes "web") 3 (some 71) (codes "sh" ∷ []) (world ended)
        ≡ (err e, world ended))
promote-dead_example =
    promote-dead codec (world ended) (codes "web") 3 ended (some 71) (codes "sh" ∷ []) (loads ended)
      (inr refl)

-- A command line of one word, or one that does not parse.
abbrev pub shell_split : Bytes → Result (List Bytes)
shell_split [] = bail (codes "missing closing quote")
shell_split (c ∷ cs) = ok ((c ∷ cs) ∷ [])

parsed : parse_command shell_split (codes "sh") ≡ ok (codes "sh" ∷ [])
unfolding parse_command
parsed = refl

initialize-IsNewRun_example :
    let p =
      initialize_session_files codec shell_split
        (codes "web")
        (codes "/")
        (codes "sh")
        none
        (some 0)
        (world ended) in
    ((e : Error) × (p.0 ≡ err e) × (current codec p.1 (codes "web") ≡ ok ended))
    ⊎ ((m' : SessionMetadata) × (p.0 ≡ ok ((3 + 1) % 2 ^ 64))
        × (current codec p.1 (codes "web") ≡ ok m')
        × IsNewRun
            (codes "web")
            (codes "/")
            (codes "sh" ∷ [])
            ((3 + 1) % 2 ^ 64)
            none
            (some 0)
            107
            m')
initialize-IsNewRun_example =
    initialize-IsNewRun codec codec-RoundTrips shell_split (codes "web") (codes "/") (codes "sh")
      none (some 0) (world ended) ended (codes "sh" ∷ []) parsed (loads ended)

terminate-Effects_example :
    Effects
      (λ t. (t ≡ pos 70) ⊎ (t ≡ negsuc 69))
      40
      (world run)
      (terminate_pid quiet (pos 70) (world run)).1
terminate-Effects_example = terminate-Effects quiet (pos 70) (world run) (λ p. (inl refl, inr refl))

-- Process 70 has a start time that cannot be read, and 71 is gone.
stop_foreign-only_marks_example :
    let p = stop_session_silent codec quiet (codes "web") (world run) in
    SaveOutcome codec
      (world run)
      (codes "web")
      (ok run)
      (ok (marked codec (world run) run (some (codes "stopped by user")) none))
      p
    × (p.1.signals ≡ (world run).signals)
    × (p.1.sleeps ≡ (world run).sleeps)
unfolding bytes_eq process_start_time read_to_string as_i32
stop_foreign-only_marks_example =
    stop_foreign-only_marks codec codec-RoundTrips quiet (world run) run valid (loads run) (λ e. cc)
      (gone 71 refl refl) (reused 70 5 refl refl (λ e. cc))

stop-Effects_example :
    Effects
      (Named codec (world run) (codes "web"))
      80
      (world run)
      (stop_session_silent codec quiet (codes "web") (world run)).1
stop-Effects_example = stop-Effects codec quiet (world run) (codes "web")

-- A stop, a restart, a supervisor that is late, and the new one.
abbrev after_stop : World
after_stop = (mark_stopped codec (codes "web") none (some 1) (some 3) (world run)).1

abbrev after_start : World
after_start =
    (initialize_session_files codec shell_split (codes "web") (codes "/") (codes "sh") none none
      after_stop).1

abbrev after_late : World
after_late = (promote codec (codes "web") 3 after_start).1

abbrev after_promote : World
after_promote = (promote codec (codes "web") 4 after_late).1

abbrev story : Writers codec (codes "web") (world run) after_promote
story =
    next
      (next
        (next (next here (marks none (some 1) (some 3)))
          (initializes shell_split (codes "/") (codes "sh") none none))
        (promotes 3))
      (promotes 4)

Writers-Follows_example :
    Follows codec (codes "web") run (starts codec (codes "web") story) after_promote
unfolding starts starts_in
Writers-Follows_example =
    Writers-Follows codec (codes "web") codec-RoundTrips run (world run) after_promote refl
      (loads run) story (omega arith)

-- Process 71 is not there.
ends : (terminate_pid quiet (pos 71) (world run)).0 ≡ ok tt
unfolding terminate_pid signal_pid_and_group send_signal refusal wait_gone process_alive bytes_eq
ends = refl

terminate-gone_example :
    let found = (terminate_pid quiet (pos 71) (world run)).1.os.kill (pos 71) in
    (found ≢ delivered) × (found ≢ not_permitted)
terminate-gone_example = terminate-gone quiet (pos 71) (world run) refl ends
