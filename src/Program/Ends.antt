-- ===== src/Program/Ends.antt =====
-- Ending sessions from the command line, through the socket and the daemon's handler to the session's files.
use mathlib.Core.List.{Memᴰ}
use ignibyte_bridge.Prelude.{
  Result-cases, inl, inr, ◌≡◌, refl, sym, ap, subst, false, Option, some, List, Bytes, Result, ok,
}
use ignibyte_bridge.Session.World.{SessionMetadata, RoundTrips, World}
use ignibyte_bridge.Session.Reports.{DirEntry, collect}
use ignibyte_bridge.Session.Progress.Sessions.{IsOrderly, IsWellNamed}
use ignibyte_bridge.Daemon.Shutdown.{shutdown_sessions_for_daemon}
use ignibyte_bridge.Daemon.Shutdown.Complete.{shutdown-Over}
use ignibyte_bridge.Session.Metadata.{current}
use ignibyte_bridge.Session.Progress.{Advances}
use ignibyte_bridge.Session.Progress.Ends.{Over, stop-Over}
use ignibyte_bridge.Session.Stop.{stop_session_silent}
use ignibyte_bridge.Dispatch.{
  Commands, DaemonRequest, run_main, run_command, daemon_request_for_command, client_answer,
}
use ignibyte_bridge.Daemon.{Codec, shutting_down}
use ignibyte_bridge.Daemon.Serving.{Speaks, IsSent}
use ignibyte_bridge.Daemon.Farewell.{over_socket-shutdown}
use ignibyte_bridge.Program.{Platform, Program, operations, shutdown_all, socket_of}
use ignibyte_bridge.Program.Agreement.{client, IsShort, main-socket}

module _ (k : Platform) (codec : Codec) where
  abbrev pub stop_command : Option Bytes → Bytes → Program → Result Bytes × Program
  stop_command path name = run_main (operations k) (client k codec) false path (Commands.stop name)

  -- If the command `stop` succeeds, asked of a daemon over its socket, the run that the session was in is over: it has
  -- stopped, or a newer run has taken its place. The others may do to the session what they like while the
  -- daemon waits for its processes, as long as they let it only advance. Client and daemon read back what the
  -- other has serialized, as the metadata are, and the request's line is within the daemon's limit.
  pub stop_command-Over :
      Speaks codec
      → RoundTrips k.json
      → (path : Option Bytes) (name : Bytes) (m : SessionMetadata) (p : Program)
        (socket out : Bytes)
      → socket_of p ≡ ok socket
      → IsShort k codec path (Commands.stop name) p
      → Advances k.json name k.env
      → current k.json p.host.world name ≡ ok m
      → m.name ≡ name
      → (stop_command path name p).0 ≡ ok out
      → Over k.json name m (stop_command path name p).1.host.world
  unfolding run_command
  stop_command-Over h rt path name m p socket out e short a c n =
      subst (λ r. r.0 ≡ ok out → Over k.json name m r.1.host.world)
        (sym (main-socket k codec h path (Commands.stop name) p socket e short refl))
        (elim (Result-cases (stop_session_silent k.json k.env name p.host.world).0) [
          | inl (_, s) ↦ rw s (λ g. stop-Over k.json name rt m k.env p.host.world a c n s)
          | inr (x, s) ↦ rw s (λ g. absurd cc)
        ])

  abbrev pub shutdown_command : Option Bytes → Program → Result Bytes × Program
  shutdown_command path = run_main (operations k) (client k codec) false path Commands.shutdown

  shutdown_asked :
      (h : Speaks codec) (path : Option Bytes) (p : Program) (socket later : Bytes)
      → socket_of p ≡ ok socket
      → IsShort k codec path Commands.shutdown p
      → socket_of (shutdown_all k p).1 ≡ ok later
      → shutdown_command path p ≡ (ok shutting_down.output, (shutdown_all k p).1)
  unfolding run_main daemon_request_for_command client_answer shutting_down
  shutdown_asked h path p socket later e short f =
      let sent : IsSent codec socket_of (operations k) (shutdown_all k) DaemonRequest.shutdown p =
        record { fits = short DaemonRequest.shutdown p refl; socket = socket; found = e } in
      rw (over_socket-shutdown codec socket_of (operations k) (shutdown_all k) h p later sent f)
        refl

  -- The command `shutdown`, asked of a daemon over its socket, prints the daemon's acknowledgement; and once the
  -- daemon has stopped its sessions without an error, the run of every session that its directory lists is
  -- over: it has stopped, or a newer run has taken its place. The others may do to the sessions what they like
  -- meanwhile, as long as they let each only advance and keep its name, which the metadata bear at the start.
  -- Client and daemon read back what the other has serialized, as the metadata are, the request's line is within
  -- the daemon's limit, and the socket's path can be found before and after.
  pub shutdown_command-Over :
      Speaks codec
      → RoundTrips k.json
      → (path : Option Bytes) (p : Program) (socket later out : Bytes) (es : List (Result DirEntry))
        (sessions : List SessionMetadata)
      → socket_of p ≡ ok socket
      → IsShort k codec path Commands.shutdown p
      → socket_of (shutdown_all k p).1 ≡ ok later
      → IsOrderly k.json k.env
      → IsWellNamed k.json p.host.world
      → k.read_dir p.host.world ≡ ok es
      → collect (current k.json p.host.world) es ≡ ok sessions
      → (shutdown_all k p).0 ≡ ok out
      → (n : Bytes) (m : SessionMetadata) → current k.json p.host.world n ≡ ok m
      → Memᴰ m sessions
      → ((shutdown_command path p).0 ≡ ok shutting_down.output)
        × Over k.json n m (shutdown_command path p).1.host.world
  shutdown_command-Over h rt path p socket later out es sessions e short f orderly named r ce s n m
        c i =
      let a = shutdown_asked h path p socket later e short f in
      let w = p.host.world in
      let stop : Result (List (Result DirEntry)) → Result Bytes × World =
        λ entries. shutdown_sessions_for_daemon k.json k.env (some entries) w in
      let s' : (stop (ok es)).0 ≡ ok out = subst (λ q. (stop q).0 ≡ ok out) r s in
      let o = shutdown-Over k.json rt k.env orderly es sessions w out named ce n m c i s' in
      (
        ap (λ q. q.0) a,
        subst (λ q. Over k.json n m q.1.host.world) (sym a)
            (subst (λ q. Over k.json n m (stop q).1) (sym r) o),
      )
