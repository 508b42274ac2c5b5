-- ===== src/Dispatch.antt =====
-- The commands of src/main.rs, the requests of src/protocol.rs and the daemon's answers in src/daemon.rs: how
-- a command reaches the session operations, directly or through the daemon.
pub mod Modes
use ignibyte_bridge.Prelude.{
  ℕ, Bool, true, false, Option, none, some, List, [], ◌∷◌, ◌++◌, Bytes, if◌then◌else◌, codes,
  Result, ok, err, bail, chain, Error,
}
use ignibyte_bridge.Text.{join, decimal}
use ignibyte_bridge.Effects.{Stateful, ◌>>=◌, ◌>>◌, pure, lift}
use ignibyte_bridge.Session.World.{SessionMetadata}
use ignibyte_bridge.Session.Metadata.{is_stopped}

pub data Commands : Type 0 where
  start : (name : Bytes) (cwd : Option Bytes) (cmd : Bytes) (rows cols : Option ℕ) → Commands
  send : (name text : Bytes) (no_enter : Bool) → Commands
  keys : (name : Bytes) (key_names : List Bytes) → Commands
  read : (name : Bytes) (tail : ℕ) (raw : Bool) → Commands
  screen : (name : Bytes) (tail : ℕ) → Commands
  status stop : (name : Bytes) → Commands
  list daemon shutdown : Commands
  doctor : (cmd : Bytes) (cwd : Option Bytes) → Commands
  supervisor : (name cwd cmd : Bytes) → Commands

pub data DaemonRequest : Type 0 where
  start :
      (name : Bytes) (cwd : Option Bytes) (cmd : Bytes) (path : Option Bytes) (rows cols : Option ℕ)
      → DaemonRequest
  send : (name text : Bytes) (no_enter : Bool) → DaemonRequest
  keys : (name : Bytes) (key_names : List Bytes) → DaemonRequest
  read : (name : Bytes) (tail : ℕ) (raw : Bool) → DaemonRequest
  screen : (name : Bytes) (tail : ℕ) → DaemonRequest
  status stop : (name : Bytes) → DaemonRequest
  list shutdown : DaemonRequest

-- The field `ok` is `is_ok` here.
pub record DaemonResponse : Type 0 where
  pub is_ok : Bool
  pub output : Bytes
  pub error : Option Bytes

-- The operations that both ways of running a command share, and those that only one of them calls. What
-- they print is their result.
pub record Operations (S : Type 0) : Type 0 where
  pub resolve_cwd : Option Bytes → Stateful S Bytes
  pub start_session_detached :
      Bytes → Option Bytes → Bytes → Option ℕ → Option ℕ → Stateful S SessionMetadata
  pub start_session_in_daemon :
      Bytes → Option Bytes → Bytes → Option Bytes → Option ℕ → Option ℕ → Stateful S SessionMetadata
  pub send_input_silent : Bytes → Bytes → Bool → Stateful S (Unit {0})
  pub send_keys_silent : Bytes → List Bytes → Stateful S (Unit {0})
  pub read_output_text : Bytes → ℕ → Bool → Stateful S Bytes
  pub read_screen_text : Bytes → ℕ → Stateful S Bytes
  pub status_text : Bytes → Stateful S Bytes
  pub list_sessions_text : Stateful S Bytes
  pub stop_session_silent : Bytes → Stateful S (Unit {0})
  pub run_daemon : Stateful S Bytes
  pub run_doctor : Bytes → Option Bytes → Stateful S Bytes
  pub run_supervisor : Bytes → Bytes → Bytes → Stateful S Bytes

-- A PID, or the text for a missing one.
abbrev pub pid_or : Bytes → Option ℕ → Bytes
pid_or missing none = missing
pid_or missing (some pid) = decimal pid

unfoldable pub format_started_session : SessionMetadata → Bytes
format_started_session m =
    codes "started session '"
    ++ (m.name
        ++ (codes "' (supervisor pid: "
            ++ (pid_or (codes "daemon") m.supervisor_pid
                ++ (codes ", child pid: "
                    ++ (pid_or (codes "unknown") m.child_pid ++ (codes ")" ++ b'\n' ∷ []))))))

abbrev pub finished : Bytes → Option ℕ → Bytes
finished name (some code) =
    codes "session '"
    ++ (name
        ++ (codes "' ran to completion (exit code " ++ (decimal code ++ (codes ")" ++ b'\n' ∷ []))))
finished name none = codes "session '" ++ (name ++ (codes "' finished" ++ b'\n' ∷ []))

unfoldable pub format_start_result : SessionMetadata → Bytes
unfolding format_started_session
format_start_result m =
    if is_stopped m.status then finished m.name m.exit_code else format_started_session m

pub sent_input : Bytes → Bytes
sent_input name = codes "sent input to '" ++ (name ++ (codes "'" ++ b'\n' ∷ []))

pub sent_keys : Bytes → List Bytes → Bytes
sent_keys name key_names =
    codes "sent keys to '" ++ (name ++ (codes "': " ++ (join (codes " ") key_names ++ b'\n' ∷ [])))

pub stopped_session : Bytes → Bytes
stopped_session name = codes "stopped session '" ++ (name ++ (codes "'" ++ b'\n' ∷ []))

-- The client's answer for a response of the daemon.
unfoldable pub client_answer : Bytes → DaemonResponse → Result Bytes
client_answer failure r =
    if r.is_ok then ok r.output else bail (elim r.error [ none ↦ failure | some message ↦ message ])

abbrev pub response_of : {S : Type 0} → Result Bytes × S → DaemonResponse × S
response_of (ok output, w) = (record { is_ok = true; output = output; error = none }, w)
response_of (err e, w) = (record { is_ok = false; output = []; error = some (chain e) }, w)

module _ {S : Type 0} (ops : Operations S) where
  -- The result behind a request; `none` where the daemon panics, at `unreachable!`.
  unfoldable pub request_result : DaemonRequest → Option (Stateful S Bytes)
  request_result (DaemonRequest.start name cwd cmd path rows cols) =
      some (do
        m ← ops.start_session_in_daemon name cwd cmd path rows cols
        pure (format_start_result m))
  request_result (DaemonRequest.send name text no_enter) =
      some (do ops.send_input_silent name text no_enter; pure (sent_input name))
  request_result (DaemonRequest.keys name key_names) =
      some (do ops.send_keys_silent name key_names; pure (sent_keys name key_names))
  request_result (DaemonRequest.read name tail raw) = some (ops.read_output_text name tail raw)
  request_result (DaemonRequest.screen name tail) = some (ops.read_screen_text name tail)
  request_result (DaemonRequest.status name) = some (ops.status_text name)
  request_result DaemonRequest.list = some ops.list_sessions_text
  request_result (DaemonRequest.stop name) =
      some (do ops.stop_session_silent name; pure (stopped_session name))
  request_result DaemonRequest.shutdown = none

  unfoldable pub handle_daemon_request : DaemonRequest → Option (S → DaemonResponse × S)
  unfolding request_result
  handle_daemon_request request = elim (request_result request) [
    | none ↦ none
    | some m ↦ some (λ w. response_of (m w))
  ]

  -- `path` is the client's PATH.
  unfoldable pub daemon_request_for_command :
      Option Bytes → Commands → Stateful S (Option DaemonRequest)
  daemon_request_for_command path (Commands.start name cwd cmd rows cols) = do
    dir ← ops.resolve_cwd cwd
    pure (some (DaemonRequest.start name (some dir) cmd path rows cols))
  daemon_request_for_command path (Commands.send name text no_enter) =
      pure (some (DaemonRequest.send name text no_enter))
  daemon_request_for_command path (Commands.keys name key_names) =
      pure (some (DaemonRequest.keys name key_names))
  daemon_request_for_command path (Commands.read name tail raw) =
      pure (some (DaemonRequest.read name tail raw))
  daemon_request_for_command path (Commands.screen name tail) =
      pure (some (DaemonRequest.screen name tail))
  daemon_request_for_command path (Commands.status name) = pure (some (DaemonRequest.status name))
  daemon_request_for_command path Commands.list = pure (some DaemonRequest.list)
  daemon_request_for_command path (Commands.stop name) = pure (some (DaemonRequest.stop name))
  daemon_request_for_command path Commands.shutdown = pure (some DaemonRequest.shutdown)
  daemon_request_for_command path _ = pure none

  -- `try_send` asks the daemon; it gives none where no daemon listens.
  module _ (try_send : DaemonRequest → Stateful S (Option DaemonResponse)) where
    abbrev pub shutdown_answer : Option DaemonResponse → Result Bytes
    shutdown_answer none = ok (codes "daemon not running" ++ b'\n' ∷ [])
    shutdown_answer (some r) = client_answer (codes "daemon shutdown failed") r

    -- The match at the end of `main`.
    unfoldable pub run_command : Commands → Stateful S Bytes
    run_command (Commands.start name cwd cmd rows cols) = do
      m ← ops.start_session_detached name cwd cmd rows cols
      pure (format_start_result m)
    run_command (Commands.send name text no_enter) = do
      ops.send_input_silent name text no_enter
      pure (sent_input name)
    run_command (Commands.keys name key_names) = do
      ops.send_keys_silent name key_names
      pure (sent_keys name key_names)
    run_command (Commands.read name tail raw) = ops.read_output_text name tail raw
    run_command (Commands.screen name tail) = ops.read_screen_text name tail
    run_command (Commands.status name) = ops.status_text name
    run_command Commands.list = ops.list_sessions_text
    run_command (Commands.stop name) = do ops.stop_session_silent name; pure (stopped_session name)
    run_command Commands.daemon = ops.run_daemon
    run_command Commands.shutdown = do
      response ← try_send DaemonRequest.shutdown
      lift (shutdown_answer response)
    run_command (Commands.doctor cmd cwd) = ops.run_doctor cmd cwd
    run_command (Commands.supervisor name cwd cmd) = ops.run_supervisor name cwd cmd

    abbrev pub by_response : Commands → Option DaemonResponse → Stateful S Bytes
    by_response command none = run_command command
    by_response command (some r) = lift (client_answer (codes "daemon command failed") r)

    abbrev pub by_request : Commands → Option DaemonRequest → Stateful S Bytes
    by_request command none = run_command command
    by_request command (some request) = do response ← try_send request; by_response command response

    unfoldable pub run_main : Bool → Option Bytes → Commands → Stateful S Bytes
    unfolding run_command daemon_request_for_command
    run_main true path command = run_command command
    run_main false path command = do
      request ← daemon_request_for_command path command
      by_request command request
