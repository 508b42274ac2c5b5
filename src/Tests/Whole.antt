-- ===== src/Tests/Whole.antt =====
-- The whole program at a concrete session.
use ignibyte_bridge.Prelude.{
  ◌≡◌, ◌<◌, ◌^◌, refl, ap, true, false, none, [], ◌∷◌, Bytes, codes, length, ok, arith, bytes_eq,
  ◌∙◌, ◌++◌,
}
use ignibyte_bridge.Paths.{
  socket_path, path_join, ends_with, starts_with, sessions_root, session_dir, validate_session_name,
  is_name_byte,
}
use ignibyte_bridge.Daemon.Service.{absent}
use ignibyte_bridge.Dispatch.{
  Commands, DaemonRequest, run_main, daemon_request_for_command, stopped_session, run_command,
}
use ignibyte_bridge.Dispatch.Modes.{through_daemon}
use ignibyte_bridge.Program.{Platform, Program, operations, shutdown_all, socket_of}
use ignibyte_bridge.Program.Agreement.{client, IsShort, main-socket}
use ignibyte_bridge.Daemon.Connection.{open_io}
use ignibyte_bridge.Daemon.Accept.{
  Server, spawned, ended, accepts, accept_fails, handles, Steps, here, next,
}
use ignibyte_bridge.Daemon.Accept.Answers.{Call, asks, sent_by, Service}
use ignibyte_bridge.Tests.Codec.{codec, codec-RoundTrips, encode}
use mathlib.Core.List.Memᴰ
use ignibyte_bridge.Session.World.{set_dir, write_dir}
use ignibyte_bridge.Session.Metadata.{save_metadata, encoded}
use ignibyte_bridge.Session.Reports.{sort_by, insert_by}
use ignibyte_bridge.Session.Progress.Ends.{Over}
use ignibyte_bridge.Daemon.{shutting_down, handle_daemon_stream, first_line}
use ignibyte_bridge.Daemon.Shutdown.{
  shutdown_sessions_for_daemon, shutdown_entries, stop_each, live_names,
}
use ignibyte_bridge.Program.Ends.{
  stop_command, stop_command-Over, shutdown_command, shutdown_command-Over,
}
use ignibyte_bridge.Tests.Endings.{
  quiet-Advances, web_marked, web_stops, web_only, entries, collected, shuts_down,
}
use ignibyte_bridge.Tests.Runs.{run, world, loads, quiet}
use ignibyte_bridge.Tests.Starts.{launcher, host, setting}
use ignibyte_bridge.Tests.Commands.{channel}
use ignibyte_bridge.Tests.Machines.{machine, system}
use ignibyte_bridge.Tests.Wire.{wire, wire-Speaks, request_form, shift}

abbrev platform : Platform
platform = record {
  json = codec;
  env = quiet;
  launcher = launcher;
  channel = channel;
  modified = λ path. none;
  is_utf8 = λ s. true;
  read_dir = λ w. ok entries;
  setting = setting;
  pid = 70;
  machine = machine;
  system = system;
}

abbrev program : Program
program = record { host = host; daemon_locked = true; socket = absent }

root_socket : socket_of program ≡ ok (codes "/b/ignibyte-bridge.sock")
unfolding socket_path path_join ends_with starts_with
root_socket = refl

abbrev stop_web : Commands
stop_web = Commands.stop (codes "web")

stop_short :
    (s : Bytes) → wire.request_json (DaemonRequest.stop (codes "web")) ≡ ok s → length s < 2 ^ 20
unfolding encode request_form shift
stop_short s e =
    let e' : shift (encode (request_form (DaemonRequest.stop (codes "web")))) ≡ s = cc in
    let n : length (shift (encode (request_form (DaemonRequest.stop (codes "web"))))) ≡ length s =
      ap length e' in
    omega arith

stop-IsShort : (p : Program) → IsShort platform wire none stop_web p
unfolding daemon_request_for_command
stop-IsShort p request v q s e =
    let r : DaemonRequest.stop (codes "web") ≡ request = cc in stop_short s (rw r e)

main-socket_example :
    run_main (operations platform) (client platform wire) false none stop_web program
    ≡ through_daemon (operations platform) (client platform wire) none stop_web program
main-socket_example =
    main-socket platform wire wire-Speaks none stop_web program (codes "/b/ignibyte-bridge.sock")
      root_socket (stop-IsShort program) refl

abbrev fresh : Server Program
fresh = record { program = program; socket = true; exited = false; threads = []; stderr = [] }

abbrev stop_request : Call
stop_request = asks (DaemonRequest.stop (codes "web"))

-- A request, a probe and an accept that fails; the probe is handled before the request.
abbrev story :
    (t : Server Program) × Steps wire socket_of
      (operations platform)
      (shutdown_all platform)
      fresh
      t
unfolding handle_daemon_stream first_line
story = (
  _,
  next
      (next
        (next
          (next
            (next here
              (accepts (sent_by wire wire-Speaks (operations platform) stop_request) open_io refl))
            (accepts [] open_io refl))
          (accept_fails (record { message = codes "Too many open files"; causes = [] }) refl))
        (handles
          (spawned (sent_by wire wire-Speaks (operations platform) stop_request) open_io ∷ []) [] []
          open_io refl refl))
      (handles [] (ended [] ∷ []) (sent_by wire wire-Speaks (operations platform) stop_request)
        open_io refl refl),
)

-- The session `web`, whose processes are gone.
abbrev quiet_program : Program
quiet_program = record program { host = record host { world = world run } }

quiet_socket : socket_of quiet_program ≡ ok (codes "/b/ignibyte-bridge.sock")
unfolding socket_path path_join ends_with starts_with
quiet_socket = refl

stop_succeeds :
    (stop_command platform wire none (codes "web") quiet_program).0
    ≡ ok (stopped_session (codes "web"))
unfolding run_command
stop_succeeds =
    ap (λ q. q.0)
      (main-socket platform wire wire-Speaks none stop_web quiet_program
        (codes "/b/ignibyte-bridge.sock") quiet_socket (stop-IsShort quiet_program) refl)
    ∙ rw web_stops refl

stop_command-Over_example :
    Over codec
      (codes "web")
      run
      (stop_command platform wire none (codes "web") quiet_program).1.host.world
stop_command-Over_example =
    stop_command-Over platform wire wire-Speaks codec-RoundTrips none (codes "web") run
      quiet_program (codes "/b/ignibyte-bridge.sock") (stopped_session (codes "web")) quiet_socket
      (stop-IsShort quiet_program) (quiet-Advances (codes "web")) (loads run) refl stop_succeeds

shutdown_short : (s : Bytes) → wire.request_json DaemonRequest.shutdown ≡ ok s → length s < 2 ^ 20
unfolding encode request_form shift
shutdown_short s e =
    let e' : shift (encode (request_form DaemonRequest.shutdown)) ≡ s = cc in
    let n : length (shift (encode (request_form DaemonRequest.shutdown))) ≡ length s =
      ap length e' in
    omega arith

shutdown-IsShort : IsShort platform wire none Commands.shutdown quiet_program
unfolding daemon_request_for_command
shutdown-IsShort request v q s e =
    let r : DaemonRequest.shutdown ≡ request = cc in shutdown_short s (rw r e)

socket_later :
    socket_of (shutdown_all platform quiet_program).1 ≡ ok (codes "/b/ignibyte-bridge.sock")
unfolding shutdown_sessions_for_daemon shutdown_entries sessions_root path_join ends_with stop_each
    live_names sort_by insert_by socket_path starts_with save_metadata encoded session_dir
    validate_session_name is_name_byte bytes_eq write_dir set_dir
socket_later = rw (collected, web_marked) refl

shutdown_command-Over_example :
    ((shutdown_command platform wire none quiet_program).0 ≡ ok shutting_down.output)
    × Over codec (codes "web") run (shutdown_command platform wire none quiet_program).1.host.world
shutdown_command-Over_example =
    shutdown_command-Over platform wire wire-Speaks codec-RoundTrips none quiet_program
      (codes "/b/ignibyte-bridge.sock") (codes "/b/ignibyte-bridge.sock")
      (stopped_session (codes "web") ++ []) entries (run ∷ []) quiet_socket shutdown-IsShort
      socket_later (record { advances = quiet-Advances; keeps_names = λ i w h. h })
      (record { bears = web_only }) refl collected shuts_down (codes "web") run (loads run)
      (Memᴰ.head refl)
