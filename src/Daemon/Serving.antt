-- ===== src/Daemon/Serving.antt =====
-- A client and a daemon that speak the same lines: the socket as a way to the operations.
use ignibyte_bridge.Prelude.{◌≡◌, ◌<◌, Option, Bytes, length, Result, ok}
use ignibyte_bridge.Effects.{Stateful}
use ignibyte_bridge.Dispatch.{DaemonRequest, DaemonResponse, Operations}
use ignibyte_bridge.Dispatch.Modes.{IsServed}
use ignibyte_bridge.Daemon.{Codec, max_request_bytes, connected, try_send_daemon_request}
use ignibyte_bridge.Daemon.Connection.{open_io, IsLine, served_by, try_send-served}

-- `serde_json` on requests and on responses.
pub record Speaks (codec : Codec) : Type 0 where
  pub requests :
      (request : DaemonRequest)
      → (s : Bytes) × (codec.request_json request ≡ ok s)
        × IsLine codec codec.parse_request request s
  pub responses :
      (response : DaemonResponse)
      → (s : Bytes) × (codec.response_json response ≡ ok s)
        × IsLine codec codec.parse_response response s

module _ {S : Type 0} (codec : Codec) (path_of : S → Result Bytes) (ops : Operations S)
    (shutdown_sessions : Stateful S Bytes) where
  -- A client's requests over the socket of a daemon that listens.
  abbrev pub over_socket : DaemonRequest → Stateful S (Option DaemonResponse)
  over_socket =
      try_send_daemon_request codec open_io path_of connected
        (served_by codec open_io path_of ops shutdown_sessions)

  -- The line of the request is below the limit of the daemon, and the client knows where the socket is.
  pub record IsSent (request : DaemonRequest) (w : S) : Type 0 where
    pub fits : (s : Bytes) → codec.request_json request ≡ ok s → length s < max_request_bytes
    pub socket : Bytes
    pub found : path_of w ≡ ok socket

  pub over_socket-IsServed :
      (Q : DaemonRequest → S → Type 0)
      → Speaks codec
      → ((request : DaemonRequest) (w : S) → Q request w → IsSent request w)
      → IsServed ops over_socket Q
  over_socket-IsServed Q h k request f w q e =
      let (s, j, line) = h.requests request in
      let (out, o, answer) = h.responses (f w).0 in
      let sent = k request w q in
      try_send-served codec path_of ops shutdown_sessions w sent.socket request f s out sent.found e
        j line (sent.fits s j) o answer
