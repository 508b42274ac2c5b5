-- ===== src/Dispatch/Modes.antt =====
-- Commands through the daemon and run directly.
use ignibyte_bridge.Prelude.{
  ℕ, ◌≡◌, refl, Bool, true, false, Option, none, some, Bytes, Result, ok, err, bail, chain, codes,
}
use ignibyte_bridge.Effects.{Stateful, and_then, ◌>>=◌, pure}
use ignibyte_bridge.Dispatch.{
  Commands, DaemonRequest, DaemonResponse, Operations, format_start_result, client_answer,
  response_of, request_result, handle_daemon_request, daemon_request_for_command, run_command,
  by_request, run_main,
}

-- The chain of an error's messages as one message.
abbrev pub flatten : {S : Type 0} → Result Bytes × S → Result Bytes × S
flatten (ok output, w) = (ok output, w)
flatten (err e, w) = (bail (chain e), w)

-- The commands on sessions.
abbrev pub is_session : Commands → Bool
is_session Commands.daemon = false
is_session Commands.shutdown = false
is_session (Commands.doctor cmd cwd) = false
is_session (Commands.supervisor name cwd cmd) = false
is_session _ = true

abbrev pub is_start : Commands → Bool
is_start (Commands.start name cwd cmd rows cols) = true
is_start _ = false

answered :
    {S : Type 0} (failure : Bytes) (p : Result Bytes × S)
    → (client_answer failure (response_of p).0, (response_of p).1) ≡ flatten p
unfolding client_answer
answered failure (ok output, w) = refl
answered failure (err e, w) = refl

module _ {S : Type 0} (ops : Operations S)
    (try_send : DaemonRequest → Stateful S (Option DaemonResponse)) where
  -- What the client sends to the daemon for a command that is given at `w`, and the state where it does.
  abbrev pub IsRequestOf : Option Bytes → Commands → S → DaemonRequest → S → Type 0
  IsRequestOf path command w request v =
      daemon_request_for_command ops path command w ≡ (ok (some request), v)

  -- A daemon that listens answers these requests by its handler.
  abbrev pub IsServed : (DaemonRequest → S → Type 0) → Type 0
  IsServed Q =
      (request : DaemonRequest) (f : S → DaemonResponse × S) (w : S)
      → Q request w
      → handle_daemon_request ops request ≡ some f
      → try_send request w ≡ (ok (some (f w).0), (f w).1)

  -- What a command does where a daemon takes it.
  abbrev pub through_daemon : Option Bytes → Commands → Stateful S Bytes
  through_daemon path (Commands.start name cwd cmd rows cols) = do
    dir ← ops.resolve_cwd cwd
    λ w. flatten (
        (do
          m ← ops.start_session_in_daemon name (some dir) cmd path rows cols
          pure (format_start_result m))
          w)
  through_daemon path command = λ w. flatten (run_command ops try_send command w)

  handled :
      (request : DaemonRequest) (m : Stateful S Bytes)
      → request_result ops request ≡ some m
      → handle_daemon_request ops request ≡ some (λ v. response_of (m v))
  unfolding handle_daemon_request
  handled request m e = rw (handle_daemon_request, e) refl

  served :
      (Q : DaemonRequest → S → Type 0)
      → IsServed Q
      → (command : Commands) (request : DaemonRequest) (m : Stateful S Bytes) (w : S) → Q request w
      → request_result ops request ≡ some m
      → by_request ops try_send command (some request) w ≡ flatten (m w)
  served Q h command request m w q e =
      rw (h request (λ v. response_of (m v)) w q (handled request m e))
        (answered (codes "daemon command failed") (m w))

  -- Behind the resolution of the directory.
  start_served :
      (path : Option Bytes) (name : Bytes) (cwd : Option Bytes) (cmd : Bytes) (rows cols : Option ℕ)
      (v : S) (p : Result Bytes × S)
      → IsServed (IsRequestOf path (Commands.start name cwd cmd rows cols) v)
      → ops.resolve_cwd cwd v ≡ p
      → and_then
          (and_then p (λ dir. pure (some (DaemonRequest.start name (some dir) cmd path rows cols))))
          (by_request ops try_send (Commands.start name cwd cmd rows cols))
        ≡ and_then p (λ dir v. flatten (
            (ops.start_session_in_daemon name (some dir) cmd path rows cols
                >>= (λ m. pure (format_start_result m)))
              v))
  unfolding request_result daemon_request_for_command
  start_served path name cwd cmd rows cols v (err e, w) h k = refl
  start_served path name cwd cmd rows cols v (ok dir, w) h k =
      let c = Commands.start name cwd cmd rows cols in
      served (IsRequestOf path c v) h c (DaemonRequest.start name (some dir) cmd path rows cols) _ w
        (rw k refl) refl

  -- A command on a session gives through a daemon that serves its request the output, and leaves the state, of its
  -- direct run, where the messages of an error's chain are joined to one. A start resolves its directory in the
  -- client and is then the daemon's, with that directory and the client's PATH.
  pub main-daemon :
      (path : Option Bytes) (command : Commands) (w : S)
      → IsServed (IsRequestOf path command w)
      → is_session command ≡ true
      → run_main ops try_send false path command w ≡ through_daemon path command w
  unfolding run_main daemon_request_for_command run_command request_result
  main-daemon path (Commands.start name cwd cmd rows cols) w h e =
      start_served path name cwd cmd rows cols w (ops.resolve_cwd cwd w) h refl
  main-daemon path (Commands.send name text no_enter) w h e =
      served _ h (Commands.send name text no_enter) (DaemonRequest.send name text no_enter) _ w refl
        refl
  main-daemon path (Commands.keys name key_names) w h e =
      served _ h (Commands.keys name key_names) (DaemonRequest.keys name key_names) _ w refl refl
  main-daemon path (Commands.read name tail raw) w h e =
      served _ h (Commands.read name tail raw) (DaemonRequest.read name tail raw) _ w refl refl
  main-daemon path (Commands.screen name tail) w h e =
      served _ h (Commands.screen name tail) (DaemonRequest.screen name tail) _ w refl refl
  main-daemon path (Commands.status name) w h e =
      served _ h (Commands.status name) (DaemonRequest.status name) _ w refl refl
  main-daemon path Commands.list w h e = served _ h Commands.list DaemonRequest.list _ w refl refl
  main-daemon path (Commands.stop name) w h e =
      served _ h (Commands.stop name) (DaemonRequest.stop name) _ w refl refl
  main-daemon path Commands.daemon w h e = absurd cc
  main-daemon path Commands.shutdown w h e = absurd cc
  main-daemon path (Commands.doctor cmd cwd) w h e = absurd cc
  main-daemon path (Commands.supervisor name cwd cmd) w h e = absurd cc

  -- Where no daemon listens, a command other than `start` is run directly, as with `--direct`.
  pub main-undaemoned :
      ((request : DaemonRequest) (w : S) → try_send request w ≡ (ok none, w))
      → (path : Option Bytes) (command : Commands) (w : S) → is_start command ≡ false
      → run_main ops try_send false path command w ≡ run_main ops try_send true path command w
  unfolding run_main daemon_request_for_command run_command
  main-undaemoned h path (Commands.start name cwd cmd rows cols) w e = absurd cc
  main-undaemoned h path (Commands.send name text no_enter) w e =
      rw (h (DaemonRequest.send name text no_enter) w) refl
  main-undaemoned h path (Commands.keys name key_names) w e =
      rw (h (DaemonRequest.keys name key_names) w) refl
  main-undaemoned h path (Commands.read name tail raw) w e =
      rw (h (DaemonRequest.read name tail raw) w) refl
  main-undaemoned h path (Commands.screen name tail) w e =
      rw (h (DaemonRequest.screen name tail) w) refl
  main-undaemoned h path (Commands.status name) w e = rw (h (DaemonRequest.status name) w) refl
  main-undaemoned h path Commands.list w e = rw (h DaemonRequest.list w) refl
  main-undaemoned h path (Commands.stop name) w e = rw (h (DaemonRequest.stop name) w) refl
  main-undaemoned h path Commands.shutdown w e =
      rw (h DaemonRequest.shutdown w, h DaemonRequest.shutdown w) refl
  main-undaemoned h path _ w e = refl
