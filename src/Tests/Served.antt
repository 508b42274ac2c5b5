-- ===== src/Tests/Served.antt =====
-- Requests over the socket, and what is shown, at concrete data.
use ignibyte_bridge.Prelude.{
  ◌≡◌, refl, ◌-◌, arith, true, none, some, [], ◌∷◌, ◌++◌, Bytes, bytes_eq, length, take, codes,
  Result, ok, bail, if◌then◌else◌,
}
use ignibyte_bridge.Paths.{socket_path, path_join, starts_with, ends_with}
use ignibyte_bridge.Session.World.{World, pure}
use ignibyte_bridge.Dispatch.{DaemonRequest, DaemonResponse, handle_daemon_request, request_result}
use ignibyte_bridge.Daemon.{Codec, connected, try_send_daemon_request}
use ignibyte_bridge.Daemon.Connection.{open_io, served_by, try_send-served}
use ignibyte_bridge.Tests.Runs.{run, world}
use ignibyte_bridge.Tests.Commands.{ops}

-- A codec for the request `list` and for responses without an error, of one line.
abbrev lines_codec : Codec
lines_codec = record {
  request_json = λ request. ok (codes "list");
  parse_request = λ s.
      if bytes_eq s (codes "list" ++ b'\n' ∷ [])
      then ok DaemonRequest.list
      else bail (codes "unknown variant");
  response_json = λ response. ok response.output;
  parse_response = λ s. ok (record { is_ok = true; output = take (length s - 1) s; error = none });
  is_utf8 = λ s. true;
}

abbrev listing : World → DaemonResponse × World
listing w = (record { is_ok = true; output = codes "no sessions"; error = none }, w)

root_socket : socket_path (ok (codes "/b")) ≡ ok (codes "/b/ignibyte-bridge.sock")
unfolding socket_path path_join ends_with starts_with
root_socket = refl

abbrev socket_of : World → Result Bytes
socket_of w = socket_path w.root

lists : handle_daemon_request ops DaemonRequest.list ≡ some listing
unfolding handle_daemon_request request_result
lists = refl

parses : bytes_eq (codes "list" ++ b'\n' ∷ []) (codes "list" ++ b'\n' ∷ []) ≡ true
unfolding bytes_eq
parses = refl

try_send-served_example :
    try_send_daemon_request lines_codec open_io socket_of connected
      (served_by lines_codec open_io socket_of ops (pure []))
      DaemonRequest.list
      (world run)
    ≡ (ok (some (record { is_ok = true; output = codes "no sessions"; error = none })), world run)
try_send-served_example =
    try_send-served lines_codec socket_of ops (pure []) (world run)
      (codes "/b/ignibyte-bridge.sock") DaemonRequest.list listing (codes "list")
      (codes "no sessions") root_socket lists refl
      (record { one_line = refl; utf8 = refl; parsed = rw parses refl }) (omega arith) refl
      (record { one_line = refl; utf8 = refl; parsed = refl })
