-- ===== src/Daemon.antt =====
-- A connection of src/protocol.rs to src/daemon.rs: the client's request line, the daemon's handler of the stream
-- and its response line.
pub mod Connection
pub mod Overlong
pub mod Serving
pub mod Accept
pub mod Farewell
pub mod Shutdown
pub mod Service
use ignibyte_bridge.Prelude.{
  ℕ, ◌+◌, ◌*◌, ◌^◌, ◌==◌, Bool, true, false, not, Option, none, some, List, [], ◌∷◌, ◌++◌, Bytes,
  take, is_empty, codes, Error, Result, ok, err, bail, context, if◌then◌else◌,
}
use ignibyte_bridge.Effects.{Stateful, ◌>>=◌, ◌>>◌, pure, lift, get, put, attempt, with_context}
use ignibyte_bridge.Dispatch.{DaemonRequest, DaemonResponse, Operations, handle_daemon_request}

-- `serde_json` for the two types, and the test of bytes for UTF-8 in the reading of a line.
pub record Codec : Type 0 where
  pub request_json : DaemonRequest → Result Bytes
  pub parse_request : Bytes → Result DaemonRequest
  pub response_json : DaemonResponse → Result Bytes
  pub parse_response : Bytes → Result DaemonResponse
  pub is_utf8 : Bytes → Bool

-- The daemon's end of a stream: what the client has sent and what it gets, whether the socket's file is there and
-- whether the daemon has exited.
pub record Stream (S : Type 0) : Type 0 where
  pub program : S
  pub incoming : Bytes
  pub outgoing : Bytes
  pub socket : Bool
  pub exited : Bool

abbrev pub D : Type 0 → Type 0 → Type 0
D S A = Stateful (Stream S) A

-- What the system gives for one end of a stream: the outcomes of its options, of `try_clone`, of reading and of each
-- write. A write that fails is taken to write nothing.
pub record Io : Type 0 where
  pub read_timeout : Result (Unit {0})
  pub write_timeout : Result (Unit {0})
  pub try_clone : Result (Unit {0})
  pub reading : Result (Unit {0})
  pub write_message : Result (Unit {0})
  pub write_newline : Result (Unit {0})
  pub flush : Result (Unit {0})

abbrev pub max_request_bytes : ℕ
max_request_bytes = 2 ^ 20

-- Up to the first newline, with it.
unfoldable pub first_line : Bytes → Bytes
first_line [] = []
first_line (b ∷ bs) = let rest = first_line bs in if b == b'\n' then b ∷ [] else b ∷ rest

-- `read_line`
abbrev pub read_line : Codec → Result (Unit {0}) → Bytes → Result Bytes
read_line codec (err e) bytes = err e
read_line codec (ok _) bytes =
    if codec.is_utf8 (first_line bytes)
    then ok (first_line bytes)
    else bail (codes "stream did not contain valid UTF-8")

abbrev pub in_program : {S A : Type 0} → Stateful S A → D S A
in_program m s = ((m s.program).0, record s { program = (m s.program).1 })

abbrev pub sent : {S : Type 0} → Result (Unit {0}) → Bytes → D S (Unit {0})
sent (ok _) bytes s = (ok tt, record s { outgoing = s.outgoing ++ bytes })
sent (err e) bytes s = (err e, s)

unfoldable pub write_daemon_response : {S : Type 0} → Codec → Io → DaemonResponse → D S (Unit {0})
write_daemon_response codec io response = do
  json ←
      with_context (codes "failed to write daemon response") (lift (codec.response_json response))
  with_context (codes "failed to write daemon response") (sent io.write_message json)
  with_context (codes "failed to finish daemon response") (sent io.write_newline (b'\n' ∷ []))
  with_context (codes "failed to flush daemon response") (lift io.flush)

pub invalid_request : Error → DaemonResponse
invalid_request e = record {
  is_ok = false;
  output = [];
  error = some (codes "invalid daemon request: " ++ e.message);
}

unfoldable pub shutting_down : DaemonResponse
shutting_down = record {
  is_ok = true;
  output = codes "daemon shutting down" ++ b'\n' ∷ [];
  error = none;
}

abbrev pub remove_socket : {S : Type 0} → Result Bytes → D S (Unit {0})
remove_socket path s = (ok tt, elim path [ err e ↦ s | ok path ↦ record s { socket = false } ])

abbrev pub exit : {S : Type 0} → D S (Unit {0})
exit s = (ok tt, record s { exited = true })

-- `path` is the outcome of `socket_path()` in a state.
module _ {S : Type 0} (codec : Codec) (io : Io) (path : S → Result Bytes) (ops : Operations S)
    (shutdown_sessions : Stateful S Bytes) where
  -- Acknowledged first.
  unfoldable pub handle_shutdown : D S (Unit {0})
  unfolding shutting_down
  handle_shutdown = do
    write_daemon_response codec io shutting_down
    stopped ← in_program (attempt shutdown_sessions)
    s ← get
    remove_socket (path s.program)
    exit

  -- A request other than `shutdown`, by `handle_daemon_request`.
  abbrev pub handled_by : Option (S → DaemonResponse × S) → D S (Unit {0})
  handled_by none = handle_shutdown
  handled_by (some f) = do
    s ← get
    put (record s { program = (f s.program).1 })
    write_daemon_response codec io (f s.program).0

  abbrev pub handle_line : Result DaemonRequest → D S (Unit {0})
  handle_line (err e) = write_daemon_response codec io (invalid_request e)
  handle_line (ok DaemonRequest.shutdown) = handle_shutdown
  handle_line (ok request) = handled_by (handle_daemon_request ops request)

  unfoldable pub handle_daemon_stream : D S (Unit {0})
  handle_daemon_stream = do
    with_context (codes "failed to set read timeout") (lift io.read_timeout)
    with_context (codes "failed to set write timeout") (lift io.write_timeout)
    with_context (codes "failed to clone daemon stream") (lift io.try_clone)
    s ← get
    line ←
        with_context (codes "failed to read daemon request")
          (lift (read_line codec io.reading (take max_request_bytes s.incoming)))
    if is_empty line then pure tt else handle_line (codec.parse_request line)

-- What `connect` and the wait for a response come to.
pub data Connect : Type 0 where
  connected socket_not_found connection_refused : Connect
  connect_failed : Error → Connect

pub data Reply : Type 0 where
  replied : Bytes → Reply
  timed_out : Reply
  read_failed : Error → Reply

pub did_not_respond : Bytes → Bytes
did_not_respond path =
    codes "daemon at "
    ++ (path
        ++ (codes
              " accepted the connection but did not respond within 60s; it may be suspended or wedged "
            ++ 0xe2 ∷ 0x80 ∷ 0x94 ∷ codes " restart it or rerun with --direct"))

unfoldable pub response_line : Codec → Bytes → Reply → Result Bytes
unfolding did_not_respond
response_line codec path timed_out = bail (did_not_respond path)
response_line codec path (read_failed e) =
    err (record { message = codes "failed to read daemon response"; causes = e.message ∷ e.causes })
response_line codec path (replied bytes) =
    context (codes "failed to read daemon response") (read_line codec (ok tt) bytes)

module _ {S : Type 0} (codec : Codec) (io : Io) (path : S → Result Bytes) (connect : Connect)
    (serve : Bytes → S → Reply × S) where
  unfoldable pub ask : Bytes → DaemonRequest → Stateful S (Option DaemonResponse)
  ask path request = do
    with_context (codes "failed to set daemon read timeout") (lift io.read_timeout)
    with_context (codes "failed to set daemon write timeout") (lift io.write_timeout)
    json ← with_context (codes "failed to write daemon request") (lift (codec.request_json request))
    with_context (codes "failed to write daemon request") (lift io.write_message)
    with_context (codes "failed to finish daemon request") (lift io.write_newline)
    with_context (codes "failed to flush daemon request") (lift io.flush)
    reply ← λ w. (ok (serve (json ++ b'\n' ∷ []) w).0, (serve (json ++ b'\n' ∷ []) w).1)
    line ← lift (response_line codec path reply)
    if is_empty line then lift (bail (codes "daemon closed connection without a response")) else do
      response ←
          with_context (codes "failed to parse daemon response") (lift (codec.parse_response line))
      pure (some response)

  abbrev pub ask_if : Connect → Bytes → DaemonRequest → Stateful S (Option DaemonResponse)
  ask_if connected path request = ask path request
  ask_if socket_not_found path request = pure none
  ask_if connection_refused path request = pure none
  ask_if (connect_failed e) path request =
      with_context (codes "failed to connect to daemon at " ++ path) (lift (err e))

  unfoldable pub try_send_daemon_request : DaemonRequest → Stateful S (Option DaemonResponse)
  unfolding ask
  try_send_daemon_request request = do w ← get; found ← lift (path w); ask_if connect found request
