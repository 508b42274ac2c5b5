-- ===== src/Program/Agreement.antt =====
-- A command has one meaning: over the socket or directly, on the program's own operations.
use ignibyte_bridge.Prelude.{
  Result-cases, inl, inr, ◌<◌, ◌≡◌, true, false, Option, Bytes, length, ok,
}
use ignibyte_bridge.Effects.{Stateful}
use ignibyte_bridge.Paths.{resolve_cwd}
use ignibyte_bridge.Dispatch.{
  Commands, DaemonRequest, DaemonResponse, run_main, daemon_request_for_command,
}
use ignibyte_bridge.Dispatch.Modes.{
  is_session, is_start, IsRequestOf, through_daemon, main-daemon, flatten,
}
use ignibyte_bridge.Daemon.{Codec, max_request_bytes}
use ignibyte_bridge.Daemon.Serving.{Speaks, over_socket, over_socket-IsServed}
use ignibyte_bridge.Program.{Platform, Program, operations, shutdown_all, socket_of}

module _ (k : Platform) (codec : Codec) where
  abbrev pub client : DaemonRequest → Stateful Program (Option DaemonResponse)
  client = over_socket codec socket_of (operations k) (shutdown_all k)

  -- The request that a command becomes, if it becomes one, has a line that the daemon reads in full.
  abbrev pub IsShort : Option Bytes → Commands → Program → Type 0
  IsShort path command p =
      (request : DaemonRequest) (v : Program)
      → IsRequestOf (operations k) client path command p request v
      → (s : Bytes) → codec.request_json request ≡ ok s
      → length s < max_request_bytes

  -- The client's end of a command changes nothing before it sends.
  stays :
      (path : Option Bytes) (command : Commands) (p v : Program) (request : DaemonRequest)
      → IsRequestOf (operations k) client path command p request v
      → p ≡ v
  unfolding daemon_request_for_command
  stays path (Commands.start name cwd cmd rows cols) p v request e =
      let l = k.launcher in
      elim (Result-cases (resolve_cwd l.current_dir l.canonicalize l.is_dir cwd)) [
        | inl (dir, r) ↦ let e' = rw r at e in cc
        | inr (x, r) ↦ let e' = rw r at e in cc
      ]
  stays path (Commands.send name text no_enter) p v request e = cc
  stays path (Commands.keys name key_names) p v request e = cc
  stays path (Commands.read name tail raw) p v request e = cc
  stays path (Commands.screen name tail) p v request e = cc
  stays path (Commands.status name) p v request e = cc
  stays path Commands.list p v request e = cc
  stays path (Commands.stop name) p v request e = cc
  stays path Commands.shutdown p v request e = cc
  stays path _ p v request e = cc

  -- On the program's own operations, a command on a session gives over the socket of a daemon that listens the
  -- output, and leaves the sessions, files and locks, of its direct run, where the messages of an error's chain are
  -- joined to one. A start resolves its directory in the client and is then the daemon's. The client and the
  -- daemon read back what the other has serialized, and the request's line is within the daemon's limit.
  pub main-socket :
      Speaks codec
      → (path : Option Bytes) (command : Commands) (p : Program) (socket : Bytes)
      → socket_of p ≡ ok socket
      → IsShort path command p
      → is_session command ≡ true
      → run_main (operations k) client false path command p
        ≡ through_daemon (operations k) client path command p
  main-socket h path command p socket e short c =
      main-daemon (operations k) client path command p
        (over_socket-IsServed codec socket_of (operations k) (shutdown_all k)
          (IsRequestOf (operations k) client path command p) h
          (λ request v q. record {
            fits = short request v q;
            socket = socket;
            found = rw (stays path command p v request q) at e;
          }))
        c

  -- The same for all commands on sessions but `start`, against the run with `--direct`.
  pub main-direct :
      Speaks codec
      → (path : Option Bytes) (command : Commands) (p : Program) (socket : Bytes)
      → socket_of p ≡ ok socket
      → IsShort path command p
      → is_session command ≡ true
      → is_start command ≡ false
      → run_main (operations k) client false path command p
        ≡ flatten (run_main (operations k) client true path command p)
  unfolding run_main
  main-direct h path (Commands.start name cwd cmd rows cols) p socket e short c d = absurd cc
  main-direct h path command p socket e short c d = main-socket h path command p socket e short c
