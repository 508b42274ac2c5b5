-- ===== src/Session/Stop.antt =====
-- `stop_session_silent`.
pub mod Safety
use ignibyte_bridge.Prelude.{
  ℕ, Bool, true, false, Option, none, some, List, [], ◌∷◌, ◌++◌, Bytes, if◌then◌else◌, is_empty,
  codes, Result, ok, err, Error, bail,
}
use ignibyte_bridge.Text.{join, decimal}
use ignibyte_bridge.Paths.{validate_session_name}
use ignibyte_bridge.Session.World.{
  SessionMetadata, Json, World, M, ◌>>=◌, ◌>>◌, pure, lift, get, attempt, Env, as_i32,
}
use ignibyte_bridge.Session.Process.{pid_is_ours, terminate_pid}
use ignibyte_bridge.Session.Metadata.{is_stopped, load_metadata, mark_stopped}

-- The message of a process that could not be terminated.
abbrev pub failure_of : Bytes → ℕ → Result (Unit {0}) → List Bytes
failure_of who pid (ok _) = []
failure_of who pid (err e) = (who ++ (decimal pid ++ (codes ": " ++ e.message))) ∷ []

-- `if pid_is_ours(…) { if let Err(error) = terminate_pid(…) { errors.push(…) } }`
unfoldable pub stop_process : Env → Bytes → Option ℕ → Option ℕ → M (List Bytes)
stop_process env who none token w = (ok [], w)
stop_process env who (some pid) token w =
    if pid_is_ours w.os (some pid) token
    then (do outcome ← attempt (terminate_pid env (as_i32 pid)); pure (failure_of who pid outcome))
        w
    else (ok [], w)

pub failed_to_stop : Bytes → List Bytes → Bytes
failed_to_stop name errors =
    codes "failed to stop session '" ++ (name ++ (codes "': " ++ join (codes "; ") errors))

module _ (json : Json) where
  -- Behind the test for a run that has stopped already.
  unfoldable pub stop_run : Env → Bytes → SessionMetadata → M (Unit {0})
  stop_run env name m = do
    child_errors ← stop_process env (codes "child pid ") m.child_pid m.child_start_time
    supervisor_errors ←
        stop_process env (codes "supervisor pid ") m.supervisor_pid m.supervisor_start_time
    if is_empty (child_errors ++ supervisor_errors)
        then mark_stopped json name (some (codes "stopped by user")) none (some m.generation)
        else lift (bail (failed_to_stop name (child_errors ++ supervisor_errors)))

  unfoldable pub stop_session_silent : Env → Bytes → M (Unit {0})
  unfolding stop_run
  stop_session_silent env name = do
    lift (validate_session_name name)
    m ← load_metadata json name
    if is_stopped m.status then pure tt else stop_run env name m
