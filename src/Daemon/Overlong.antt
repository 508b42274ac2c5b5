-- ===== src/Daemon/Overlong.antt =====
-- A request over the socket that is longer than the daemon reads.
use ignibyte_bridge.Prelude.{
  ◌≡◌, refl, true, false, some, [], ◌∷◌, ◌++◌, Bytes, take, is_empty, Error, Result, ok, err,
}
use ignibyte_bridge.Effects.{Stateful}
use ignibyte_bridge.Dispatch.{DaemonRequest, Operations}
use ignibyte_bridge.Daemon.{
  Codec, invalid_request, max_request_bytes, first_line, handle_daemon_stream, connected, replied,
  try_send_daemon_request,
}
use ignibyte_bridge.Daemon.Connection.{open_io, IsLine, served_by, write-sent, ask-replied}

module _ (codec : Codec) {S : Type 0} (path_of : S → Result Bytes) (ops : Operations S)
    (shutdown_sessions : Stateful S Bytes) where
  -- The handler of a stream on a line that is cut and then is not a request.
  stream-cut :
      (w : S) (s out : Bytes) (x : Error)
      → let cut = first_line (take max_request_bytes s) in
        codec.is_utf8 cut ≡ true
        → is_empty cut ≡ false
        → codec.parse_request cut ≡ err x
        → codec.response_json (invalid_request x) ≡ ok out
        → served_by codec open_io path_of ops shutdown_sessions s w
          ≡ (replied (out ++ b'\n' ∷ []), w)
  unfolding handle_daemon_stream
  stream-cut w s out x u n e o = rw (u, n, e, write-sent codec (invalid_request x) out _ o) refl

  -- The daemon reads no more of a request's line than its limit. Where what it has read of the line is
  -- not a request, the client gets the daemon's answer that says so, and no operation has been run. The answer
  -- is taken to be serialized to one line that is parsed to what was serialized.
  pub try_send-overlong :
      (w : S) (path : Bytes) (request : DaemonRequest) (s out : Bytes) (x : Error)
      → let cut = take max_request_bytes (s ++ b'\n' ∷ []) in
        path_of w ≡ ok path
        → codec.request_json request ≡ ok s
        → codec.is_utf8 (first_line cut) ≡ true
        → is_empty (first_line cut) ≡ false
        → codec.parse_request (first_line cut) ≡ err x
        → codec.response_json (invalid_request x) ≡ ok out
        → IsLine codec codec.parse_response (invalid_request x) out
        → try_send_daemon_request codec open_io path_of connected
            (served_by codec open_io path_of ops shutdown_sessions)
            request
            w
          ≡ (ok (some (invalid_request x)), w)
  try_send-overlong w path request s out x p j u n e o k =
      ask-replied codec path_of (served_by codec open_io path_of ops shutdown_sessions) w w path
        request s out (invalid_request x) p j (stream-cut w (s ++ b'\n' ∷ []) out x u n e o) k
