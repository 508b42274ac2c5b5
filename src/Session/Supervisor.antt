-- ===== src/Session/Supervisor.antt =====
-- `supervise_pty` and `run_supervisor`: the owner of a run, from the spawn of its child to the mark at its end.
pub mod Reaping
pub mod Settling
use ignibyte_bridge.Prelude.{
  ℕ, suc, Bool, Option, none, some, List, [], ◌∷◌, ◌++◌, Bytes, codes, Error, Result, ok, err,
}
use ignibyte_bridge.Effects.{Stateful, ◌>>=◌, ◌>>◌, pure, lift, get, put, attempt, with_context}
use ignibyte_bridge.Paths.{
  validate_session_name, parse_command, child_path, resolve_program_path, path_join,
}
use ignibyte_bridge.Session.World.{
  SessionMetadata, Json, World, M, Env, sleep, input_fifo_name, screen_rows, screen_cols,
}
use ignibyte_bridge.Session.Metadata.{
  dir_of, load_metadata, record_supervisor, record_child, promote, mark_stopped,
}

-- The command that is spawned, with the changes to its environment.
pub record SpawnRequest : Type 0 where
  pub argv : List Bytes
  pub cwd : Bytes
  pub set_env : List (Bytes × Bytes)
  pub remove_env : List Bytes

-- What the system gives: the arguments of `child_path`, `shell_words::split`, and the outcomes of opening the
-- terminal at a size, of the spawn (with the child's PID), of opening the FIFO, of taking the terminal's ends for the
-- two threads, and of waiting for the child (with the text of its exit status and its code).
pub record Setting : Type 0 where
  pub home : Option Bytes
  pub own_path : Bytes
  pub is_executable : Bytes → Bool
  pub shell_split : Bytes → Result (List Bytes)
  pub openpty : ℕ → ℕ → Result (Unit {0})
  pub spawn_command : SpawnRequest → Result (Option ℕ)
  pub open_input : Result (Unit {0})
  pub take_ends : Result (Unit {0})
  pub wait_child : Result (Bytes × ℕ)

pub data Child : Type 0 where
  not_spawned reaped : Child
  spawned : SpawnRequest → Child

pub record Supervision : Type 0 where
  pub world : World
  pub child : Child
  pub kills : ℕ

abbrev pub S : Type 0 → Type 0
S A = Stateful Supervision A

abbrev pub in_world : {A : Type 0} → M A → S A
in_world m s = ((m s.world).0, record s { world = (m s.world).1 })

-- The program that the child's PATH gives for the first word.
abbrev pub first_resolved : Option Bytes → List Bytes → List Bytes
first_resolved none words = words
first_resolved (some program) [] = []
first_resolved (some program) (word ∷ words) = program ∷ words

abbrev pub resolved_in : Setting → Option Bytes → List Bytes → List Bytes
resolved_in t none words = words
resolved_in t (some path) [] = []
resolved_in t (some path) (word ∷ words) =
    first_resolved (resolve_program_path t.is_executable word path) (word ∷ words)

abbrev pub path_env : Option Bytes → List (Bytes × Bytes)
path_env none = []
path_env (some path) = (codes "PATH", path) ∷ []

abbrev pub spawn_request : List Bytes → Bytes → Option Bytes → SpawnRequest
spawn_request argv cwd path = record {
  argv = argv;
  cwd = cwd;
  set_env = (codes "TERM", codes "xterm-256color") ∷ path_env path;
  remove_env = codes "CLAUDECODE" ∷ codes "CLAUDE_CODE_ENTRY_POINT" ∷ [];
}

abbrev pub geometry : Result SessionMetadata → ℕ × ℕ
geometry (ok m) = (m.rows, m.cols)
geometry (err e) = (screen_rows, screen_cols)

abbrev pub spawned_as : SpawnRequest → Result (Option ℕ) → S (Option ℕ)
spawned_as request (ok pid) s = (ok pid, record s { child = spawned request })
spawned_as request (err e) s = (err e, s)

abbrev pub waited : Result (Bytes × ℕ) → S (Bytes × ℕ)
waited (ok exit) s = (ok exit, record s { child = reaped })
waited (err e) s = (err e, s)

-- `child.wait()` and `child.kill()`
unfoldable pub wait_child : Setting → S (Bytes × ℕ)
wait_child t = waited t.wait_child

unfoldable pub kill_child : S (Unit {0})
kill_child s = (ok tt, record s { kills = suc s.kills })

-- Behind a failure the child is killed and waited for.
unfoldable pub reap : Setting → Result (Bytes × Option ℕ) → S (Bytes × Option ℕ)
unfolding kill_child
reap t (ok exit) = pure exit
reap t (err e) = do kill_child; status ← attempt (wait_child t); lift (err e)

module _ (json : Json) where
  -- The mark at the end, in the supervisor and in the daemon's thread.
  unfoldable pub mark_ended : Bytes → ℕ → Result (Bytes × Option ℕ) → M (Unit {0})
  mark_ended name generation (ok (exit_status, exit_code)) =
      mark_stopped json name (some exit_status) exit_code (some generation)
  mark_ended name generation (err e) =
      mark_stopped json name (some e.message) none (some generation)

module _ (json : Json) (env : Env) (t : Setting) where
  -- The closure behind the spawn. While the child runs, the others act; what the two threads do in it is in
  -- Session/Threads.
  unfoldable pub run_child : Bytes → Bytes → ℕ → Option ℕ → List Bytes → S (Bytes × Option ℕ)
  unfolding wait_child
  run_child name dir generation child_pid argv = do
    in_world (record_child json name generation child_pid argv)
    with_context (codes "failed to open " ++ path_join dir input_fifo_name) (lift t.open_input)
    in_world (promote json name generation)
    lift t.take_ends
    in_world (sleep env)
    exit ← with_context (codes "failed while waiting for child") (wait_child t)
    pure (exit.0, some exit.1)

  unfoldable pub supervise_pty : Bytes → Bytes → Bytes → Option Bytes → ℕ → S (Bytes × Option ℕ)
  unfolding run_child reap
  supervise_pty name cwd cmd client_path generation = do
    words ← lift (parse_command t.shell_split cmd)
    let path = child_path t.home t.own_path client_path
    let argv = resolved_in t path words
    s ← get
    dir ← lift (dir_of name s.world)
    m ← in_world (attempt (load_metadata json name))
    with_context (codes "failed to open PTY") (lift (t.openpty (geometry m).0 (geometry m).1))
    let request = spawn_request argv cwd path
    child_pid ←
        with_context (codes "failed to spawn command in PTY")
          (spawned_as request (t.spawn_command request))
    outcome ← attempt (run_child name dir generation child_pid argv)
    reap t outcome

  -- In the process `pid`, which has inherited the client's PATH.
  unfoldable pub run_supervisor : Bytes → Bytes → Bytes → ℕ → S (Unit {0})
  unfolding supervise_pty mark_ended
  run_supervisor name cwd cmd pid = do
    lift (validate_session_name name)
    generation ← in_world (record_supervisor json name pid)
    outcome ← attempt (supervise_pty name cwd cmd none generation)
    in_world (mark_ended json name generation outcome)
