-- ===== src/Session/Start.antt =====
-- Starting a run: its files, and the wait for it.
pub mod Files
pub mod Fresh
pub mod Waiting
use ignibyte_bridge.Prelude.{
  ℕ, zero, suc, ◌+◌, ◌%◌, ◌^◌, ◌==◌, Bool, true, false, Option, none, some, List, [], ◌∷◌, ◌++◌,
  Bytes, ltb, if◌then◌else◌, is_empty, codes, Result, ok, err, bail,
}
use ignibyte_bridge.Paths.{session_dir, parse_command}
use ignibyte_bridge.Session.World.{
  SessionMetadata, SessionStatus, starting, running, stopped, Json, SessionDir, World, M, ◌>>=◌,
  ◌>>◌, pure, lift, get, attempt, with_context, write_dir, Env, sleep, as_i32, screen_rows,
  screen_cols,
}
use ignibyte_bridge.Session.Process.{pid_is_ours, terminate_pid}
use ignibyte_bridge.Session.Metadata.{dir_of, load_metadata, save_metadata, mark_stopped}

-- `wrapping_add(1)` on a `u64`, or 1 for a first run.
abbrev pub next_generation : Result SessionMetadata → ℕ
next_generation (ok prev) = (prev.generation + 1) % 2 ^ 64
next_generation (err e) = 1

-- `filter(|n| *n > 0).unwrap_or(default)`
abbrev pub positive_or : ℕ → Option ℕ → ℕ
positive_or default none = default
positive_or default (some n) = if ltb 0 n then n else default

-- A log that is there and not empty.
abbrev pub is_worth_keeping : Option Bytes → Bool
is_worth_keeping none = false
is_worth_keeping (some []) = false
is_worth_keeping (some (b ∷ bs)) = true

abbrev pub has_fifo : Option Bytes → Bool
has_fifo none = false
has_fifo (some _) = true

-- A write to the session's directory, if a test of the directory asks for it.
unfoldable pub write_when :
    Bytes → Bytes → (SessionDir → Bool) → (SessionDir → SessionDir) → M (Unit {0})
write_when message name test change w =
    if test (w.sessions name) then with_context message (write_dir name change) w else (ok tt, w)

-- An old FIFO is removed; its readers keep the old one.
abbrev pub without_fifo : SessionDir → SessionDir
without_fifo d = record d { fifo = none; fifo_reader = false }

abbrev pub with_fifo : SessionDir → SessionDir
with_fifo d = record d { fifo = some []; fifo_reader = false }

abbrev pub rotated_raw : SessionDir → SessionDir
rotated_raw d = record d { raw_log = none; raw_prev = d.raw_log }

abbrev pub rotated_clean : SessionDir → SessionDir
rotated_clean d = record d { clean_log = none; clean_prev = d.clean_log }

-- `rotate_previous_log` for raw.log and for clean.log: no write if there is nothing to keep.
unfoldable pub rotate_raw_log : Bytes → M (Unit {0})
rotate_raw_log name =
    write_when (codes "failed to rotate raw.log") name (λ d. is_worth_keeping d.raw_log) rotated_raw

unfoldable pub rotate_clean_log : Bytes → M (Unit {0})
rotate_clean_log name =
    write_when (codes "failed to rotate clean.log") name (λ d. is_worth_keeping d.clean_log)
      rotated_clean

unfoldable pub remove_fifo : Bytes → M (Unit {0})
remove_fifo name =
    write_when (codes "failed to remove input.fifo") name (λ d. has_fifo d.fifo) without_fifo

unfoldable pub make_fifo : Bytes → M (Unit {0})
make_fifo name = write_when (codes "failed to create input.fifo") name (λ d. true) with_fifo

unfoldable pub create_raw_log : Bytes → M (Unit {0})
create_raw_log name =
    write_when (codes "failed to create raw log") name (λ d. true)
      (λ d. record d { raw_log = some [] })

unfoldable pub create_clean_log : Bytes → M (Unit {0})
create_clean_log name =
    write_when (codes "failed to create clean log") name (λ d. true)
      (λ d. record d { clean_log = some [] })

unfoldable pub create_screen : Bytes → M (Unit {0})
create_screen name =
    write_when (codes "failed to create screen snapshot") name (λ d. true)
      (λ d. record d { screen = some [] })

unfoldable pub create_files : Bytes → M (Unit {0})
create_files name = do
  remove_fifo name
  make_fifo name
  rotate_raw_log name
  rotate_clean_log name
  create_raw_log name
  create_clean_log name
  create_screen name

-- The metadata of a new run.
abbrev pub new_run : Bytes → Bytes → List Bytes → ℕ → Option ℕ → Option ℕ → ℕ → SessionMetadata
new_run name cwd command generation rows cols now = record {
  name = name;
  cwd = cwd;
  command = command;
  status = starting;
  supervisor_pid = none;
  child_pid = none;
  supervisor_start_time = none;
  child_start_time = none;
  generation = generation;
  rows = positive_or screen_rows rows;
  cols = positive_or screen_cols cols;
  created_at_unix = now;
  updated_at_unix = now;
  exit_status = none;
  exit_code = none;
}

abbrev pub is_zero : Option ℕ → Bool
is_zero none = false
is_zero (some code) = code == 0

pub stopped_while_starting : Bytes → Option Bytes → Bytes
stopped_while_starting name none =
    codes "session '" ++ (name ++ codes "' stopped while starting: unknown failure")
stopped_while_starting name (some status) =
    codes "session '" ++ (name ++ (codes "' stopped while starting: " ++ status))

pub not_running_in_time : Bytes → Bytes
not_running_in_time name =
    codes "session '" ++ (name ++ codes "' did not report running within 5 seconds")

-- What a poll makes of the status: an answer, or none while the run is starting.
unfoldable pub start_answer :
    Bytes → SessionMetadata → SessionStatus → Option (Result SessionMetadata)
start_answer name m running = some (ok m)
start_answer name m stopped =
    some (if is_zero m.exit_code then ok m else bail (stopped_while_starting name m.exit_status))
start_answer name m starting = none

-- `let _ = terminate_pid(pid.unwrap() as i32)`, for a PID that is ours.
unfoldable pub terminate_if_ours : Env → Option ℕ → Option ℕ → M (Unit {0})
terminate_if_ours env none token w = (ok tt, w)
terminate_if_ours env (some pid) token w =
    if pid_is_ours w.os (some pid) token
    then (ok tt, (terminate_pid env (as_i32 pid) w).1)
    else (ok tt, w)

module _ (json : Json) where
  -- `split` is `shell_words::split`.
  unfoldable pub initialize_session_files :
      (Bytes → Result (List Bytes)) → Bytes → Bytes → Bytes → Option ℕ → Option ℕ → M ℕ
  initialize_session_files split name cwd cmd rows cols = do
    w ← get
    dir ← lift (dir_of name w)
    command ← lift (parse_command split cmd)
    prev ← attempt (load_metadata json name)
    create_files name
    save_metadata json (new_run name cwd command (next_generation prev) rows cols w.now)
    pure (next_generation prev)

  abbrev pub or_else : Option (Result SessionMetadata) → M SessionMetadata → M SessionMetadata
  or_else (some answer) m w = (answer, w)
  or_else none m w = m w

  -- Behind the last poll: a run that is still starting is terminated and marked.
  unfoldable pub give_up : Env → Bytes → Result SessionMetadata → M SessionMetadata
  give_up env name (err e) = lift (bail (not_running_in_time name))
  give_up env name (ok m) = or_else (start_answer name m m.status) (do
    terminate_if_ours env m.supervisor_pid m.supervisor_start_time
    terminate_if_ours env m.child_pid m.child_start_time
    marked ←
        attempt (mark_stopped json name (some (codes "start timed out")) none (some m.generation))
    lift (bail (not_running_in_time name)))

  unfoldable pub poll_running : Env → ℕ → Bytes → M SessionMetadata
  unfolding give_up
  poll_running env zero name = do m ← attempt (load_metadata json name); give_up env name m
  poll_running env (suc rounds) name = do
    sleep env
    m ← load_metadata json name
    or_else (start_answer name m m.status) (poll_running env rounds name)

  unfoldable pub wait_for_running_metadata : Env → Bytes → M SessionMetadata
  unfolding poll_running
  wait_for_running_metadata env name = poll_running env 50 name
