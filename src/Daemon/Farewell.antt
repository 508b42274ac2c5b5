-- ===== src/Daemon/Farewell.antt =====
-- The request `shutdown` over the socket.
use ignibyte_bridge.Prelude.{
  ◌≡◌, refl, ap, ◌<◌, true, false, some, [], ◌∷◌, ◌++◌, Bytes, length, length-append, Result, ok,
  arith,
}
use ignibyte_bridge.Effects.{Stateful}
use ignibyte_bridge.Dispatch.{DaemonRequest, Operations}
use ignibyte_bridge.Daemon.{
  Codec, Stream, shutting_down, max_request_bytes, handle_daemon_stream, handle_shutdown, replied,
}
use ignibyte_bridge.Daemon.Connection.{
  open_io, IsLine, take_all, not_empty, read_line-IsLine, served_by, write-sent, ask-replied,
}
use ignibyte_bridge.Daemon.Serving.{Speaks, over_socket, IsSent}

module _ (codec : Codec) {S : Type 0} (path_of : S → Result Bytes) (ops : Operations S)
    (shutdown_sessions : Stateful S Bytes) where
  -- The handler acknowledges, stops the sessions, whatever comes of it, removes the socket and exits.
  pub stream-shutdown :
      (w : S) (s out socket : Bytes)
      → length s < max_request_bytes
      → IsLine codec codec.parse_request DaemonRequest.shutdown s
      → codec.response_json shutting_down ≡ ok out
      → path_of (shutdown_sessions w).1 ≡ ok socket
      → let t : Stream S = record {
        program = w;
        incoming = s ++ b'\n' ∷ [];
        outgoing = [];
        socket = true;
        exited = false;
      } in
        handle_daemon_stream codec open_io path_of ops shutdown_sessions t ≡ (
          ok tt,
          record t {
            program = (shutdown_sessions w).1;
            outgoing = out ++ b'\n' ∷ [];
            socket = false;
            exited = true;
          },
        )
  unfolding handle_daemon_stream handle_shutdown
  stream-shutdown w s out socket b h o p =
      rw
        (
          take_all max_request_bytes (s ++ b'\n' ∷ [])
              (let n = length-append s (b'\n' ∷ []) in omega arith),
          read_line-IsLine codec codec.parse_request DaemonRequest.shutdown s h,
          not_empty s,
          h.parsed,
          write-sent codec shutting_down out _ o,
          p,
        )
        refl

  -- The client gets the acknowledgement, and the state is what the shutdown of the sessions has left.
  pub over_socket-shutdown :
      (h : Speaks codec) (w : S) (socket : Bytes)
      → IsSent codec path_of ops shutdown_sessions DaemonRequest.shutdown w
      → path_of (shutdown_sessions w).1 ≡ ok socket
      → over_socket codec path_of ops shutdown_sessions DaemonRequest.shutdown w
        ≡ (ok (some shutting_down), (shutdown_sessions w).1)
  over_socket-shutdown h w socket sent p =
      let (s, j, line) = h.requests DaemonRequest.shutdown in
      let (out, o, answer) = h.responses shutting_down in
      ask-replied codec path_of (served_by codec open_io path_of ops shutdown_sessions) w
        (shutdown_sessions w).1 sent.socket DaemonRequest.shutdown s out shutting_down sent.found j
        (ap (λ q. (replied q.1.outgoing, q.1.program))
          (stream-shutdown w s out socket (sent.fits s j) line o p))
        answer
