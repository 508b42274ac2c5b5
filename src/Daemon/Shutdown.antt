-- ===== src/Daemon/Shutdown.antt =====
-- `shutdown_sessions_for_daemon`: what the daemon does to the sessions when it is shut down.
pub mod Listed
pub mod Complete
use ignibyte_bridge.Prelude.{
  ℕ, Bool, true, false, Option, none, some, List, [], ◌∷◌, ◌++◌, Bytes, is_empty, if◌then◌else◌,
  codes, Error, Result, ok, err, bail, context,
}
use ignibyte_bridge.Text.{join}
use ignibyte_bridge.Paths.{sessions_root}
use ignibyte_bridge.Session.World.{
  SessionMetadata, Json, World, M, Env, ◌>>=◌, ◌>>◌, pure, lift, get, attempt,
}
use ignibyte_bridge.Session.Metadata.{current, is_stopped}
use ignibyte_bridge.Session.Stop.{stop_session_silent}
use ignibyte_bridge.Session.Reports.{DirEntry, collect, sort_by}
use ignibyte_bridge.Dispatch.{stopped_session}

-- The names of the sessions that are starting or running.
unfoldable pub live_names : List SessionMetadata → List Bytes
live_names [] = []
live_names (m ∷ ms) =
    let rest = live_names ms in if is_stopped m.status then rest else m.name ∷ rest

-- What the loop has gathered: its output and its errors.
pub record Gathered : Type 0 where
  pub output : Bytes
  pub errors : List Bytes

abbrev pub noted : Bytes → Result (Unit {0}) → Gathered → Gathered
noted name (ok _) g = record g { output = stopped_session name ++ g.output }
noted name (err e) g = record g { errors = (name ++ (codes ": " ++ e.message)) ∷ g.errors }

unfoldable pub stop_each : Json → Env → List Bytes → M Gathered
stop_each json env [] = pure (record { output = []; errors = [] })
stop_each json env (name ∷ names) = do
  outcome ← attempt (stop_session_silent json env name)
  rest ← stop_each json env names
  pure (noted name outcome rest)

pub failed_to_stop_all : List Bytes → Bytes
failed_to_stop_all errors = codes "failed to stop running sessions: " ++ join (codes "; ") errors

abbrev pub shutdown_result : Gathered → Result Bytes
shutdown_result g = if is_empty g.errors then ok g.output else bail (failed_to_stop_all g.errors)

-- `entries` is the outcome of `read_dir`, if the directory exists.
unfoldable pub shutdown_entries : Json → Env → Option (Result (List (Result DirEntry))) → M Bytes
unfolding stop_each live_names sort_by collect
shutdown_entries json env none = pure []
shutdown_entries json env (some entries) = do
  w ← get
  dir ← lift (sessions_root w.root)
  es ← lift (context (codes "failed to read " ++ dir) entries)
  sessions ← lift (collect (current json w) es)
  gathered ← stop_each json env (sort_by (λ name. name) (live_names sessions))
  lift (shutdown_result gathered)

unfoldable pub shutdown_sessions_for_daemon :
    Json → Env → Option (Result (List (Result DirEntry))) → M Bytes
unfolding shutdown_entries
shutdown_sessions_for_daemon json env entries = do
  w ← get
  dir ← lift (sessions_root w.root)
  shutdown_entries json env entries
