-- ===== src/Session/Metadata.antt =====
-- The metadata file of a session, and the transitions of its status under the status lock. A section that
-- holds the lock is one function of the world here; Session/Locking has it in steps.
pub mod Writing
pub mod Saving
pub mod Marking
use ignibyte_bridge.Prelude.{
  ℕ, ◌+◌, ◌%◌, ◌^◌, ◌==◌, Bool, true, false, not, ◌&&◌, ◌||◌, Option, none, some, List, [], ◌∷◌,
  ◌++◌, Bytes, if◌then◌else◌, codes, Result, ok, err, Error, bail, context,
}
use ignibyte_bridge.Paths.{path_join, session_dir}
use ignibyte_bridge.Procinfo.{process_start_time}
use ignibyte_bridge.Session.World.{
  SessionMetadata, SessionStatus, starting, running, stopped, Json, Stored, absent, unreadable,
  contents, SessionDir, World, M, ◌>>=◌, ◌>>◌, pure, lift, get, attempt, write_dir, metadata_name,
}

abbrev pub is_stopped : SessionStatus → Bool
is_stopped stopped = true
is_stopped _ = false

pub no_such_session : Bytes → Bytes
no_such_session name = codes "no such session '" ++ (name ++ codes "'")

pub metadata_path : Bytes → Bytes
metadata_path dir = path_join dir metadata_name

-- Reading and parsing the file.
unfoldable pub parse_stored : Json → Bytes → Bytes → Stored → Result SessionMetadata
parse_stored json name dir absent = bail (no_such_session name)
parse_stored json name dir (unreadable e) =
    context (codes "failed to read " ++ metadata_path dir) (err e)
parse_stored json name dir (contents s) =
    context (codes "failed to parse " ++ metadata_path dir) (json.from_json s)

-- `session_dir(name)` in a world.
abbrev pub dir_of : Bytes → World → Result Bytes
dir_of name w = session_dir w.root name

abbrev in_dir : {A : Type 0} → Result Bytes → (Bytes → Result A) → Result A
in_dir (ok dir) f = f dir
in_dir (err e) f = err e

-- `next.updated_at_unix = now_unix()`
abbrev pub stamped : World → SessionMetadata → SessionMetadata
stamped w m = record m { updated_at_unix = w.now }

pub superseded : Bytes → Bytes
superseded name = codes "session '" ++ (name ++ codes "' was superseded by a newer start")

pub stopped_during_startup : Bytes → Bytes
stopped_during_startup name = codes "session '" ++ (name ++ codes "' was stopped during startup")

unfoldable pub check_run_live : SessionMetadata → ℕ → Bytes → Result (Unit {0})
check_run_live m generation name =
    if not (m.generation == generation)
    then bail (superseded name)
    else if is_stopped m.status
    then bail (stopped_during_startup name)
    else ok tt

-- The guard of a generation, if there is one.
abbrev pub is_other_generation : SessionMetadata → Option ℕ → Bool
is_other_generation m none = false
is_other_generation m (some generation) = not (m.generation == generation)

-- The child's PID with its token, or neither: `child_pid.and_then(process_start_time)`.
abbrev pub with_child : SessionMetadata → Option ℕ → Option ℕ → SessionMetadata
with_child m child_pid none = record m { child_pid = none; child_start_time = none }
with_child m child_pid (some token) = record m {
  child_pid = child_pid;
  child_start_time = some token;
}

abbrev pub child_token : World → Option ℕ → Option ℕ
child_token w none = none
child_token w (some pid) = process_start_time (w.os.stat pid)

module _ (json : Json) where
  -- The outcome of loading.
  unfoldable pub current : World → Bytes → Result SessionMetadata
  current w name =
      in_dir (dir_of name w) (λ dir. parse_stored json name dir (w.sessions name).metadata)

  unfoldable pub load_metadata : Bytes → M SessionMetadata
  unfolding current
  load_metadata name w = (current w name, w)

  unfoldable pub encoded : World → SessionMetadata → Result Bytes
  encoded w m =
      in_dir (dir_of m.name w)
        (λ dir. context (codes "failed to serialize metadata") (json.to_json (stamped w m)))

  -- `write_atomic` on the file: the old contents or all of the new.
  unfoldable pub save_metadata : SessionMetadata → M (Unit {0})
  unfolding encoded
  save_metadata m = do
    w ← get
    s ← lift (encoded w m)
    write_dir m.name (λ d. record d { metadata = contents s })

  unfoldable pub mark_stopped : Bytes → Option Bytes → Option ℕ → Option ℕ → M (Unit {0})
  mark_stopped name exit_status exit_code generation = do
    w ← get
    dir ← lift (dir_of name w)
    m ← load_metadata name
    if is_other_generation m generation
        then pure tt
        else if is_stopped m.status
        then pure tt
        else save_metadata (record m {
          status = stopped;
          updated_at_unix = w.now;
          exit_status = exit_status;
          exit_code = exit_code;
        })

  -- The first section of `run_supervisor`, in the process `pid`: it returns the generation that it found.
  unfoldable pub record_supervisor : Bytes → ℕ → M ℕ
  record_supervisor name pid = do
    w ← get
    dir ← lift (dir_of name w)
    m ← load_metadata name
    save_metadata (record m {
      supervisor_pid = some pid;
      supervisor_start_time = process_start_time (w.os.stat pid);
      updated_at_unix = w.now;
    })
    pure m.generation

  -- The section of `supervise_pty` behind the spawn.
  unfoldable pub record_child : Bytes → ℕ → Option ℕ → List Bytes → M (Unit {0})
  record_child name generation child_pid command_parts = do
    w ← get
    m ← load_metadata name
    lift (check_run_live m generation name)
    let child = with_child m child_pid (child_token w child_pid)
    save_metadata (record child { command = command_parts; updated_at_unix = w.now })

  -- The section of `supervise_pty` that publishes the session.
  unfoldable pub promote : Bytes → ℕ → M (Unit {0})
  promote name generation = do
    w ← get
    m ← load_metadata name
    lift (check_run_live m generation name)
    save_metadata (record m { status = running; updated_at_unix = w.now })
