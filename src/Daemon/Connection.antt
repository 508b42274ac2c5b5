-- ===== src/Daemon/Connection.antt =====
-- A request over the socket.
use ignibyte_bridge.Prelude.{
  ◌≡◌, refl, ap, ℕ, zero, suc, ◌<◌, ◌≤◌, ◌==◌, inl, inr, Bool-cases, true, false, Bool, none, some,
  List, [], ◌∷◌, ◌++◌, Bytes, take, length, count, is_empty, length-append, Result, ok, arith,
}
use ignibyte_bridge.Effects.{Stateful}
use ignibyte_bridge.Dispatch.{
  DaemonRequest, DaemonResponse, Operations, handle_daemon_request, request_result,
}
use ignibyte_bridge.Daemon.{
  Codec, Stream, Io, max_request_bytes, first_line, read_line, handle_daemon_stream, handle_line,
  handled_by, write_daemon_response, connected, Reply, replied, response_line, ask,
  try_send_daemon_request,
}

-- An end of a stream at which nothing fails.
abbrev pub open_io : Io
open_io = record {
  read_timeout = ok tt;
  write_timeout = ok tt;
  try_clone = ok tt;
  reading = ok tt;
  write_message = ok tt;
  write_newline = ok tt;
  flush = ok tt;
}

-- `serde_json` writes one line, of UTF-8, and reads it back, with the newline behind it.
pub record IsLine {A : Type 0} (codec : Codec) (parse : Bytes → Result A) (a : A) (s : Bytes)
    : Type 0 where
  pub one_line : count b'\n' s ≡ 0
  pub utf8 : codec.is_utf8 (s ++ b'\n' ∷ []) ≡ true
  pub parsed : parse (s ++ b'\n' ∷ []) ≡ ok a

first_line-newline :
    (s : Bytes) → count b'\n' s ≡ 0 → first_line (s ++ b'\n' ∷ []) ≡ s ++ b'\n' ∷ []
unfolding first_line
first_line-newline [] h = refl
first_line-newline (b ∷ s) h = elim (Bool-cases (b == b'\n')) [
  | inl e ↦ absurd (let q = rw e at h in omega arith)
  | inr e ↦ let q = rw e at h in rw e (ap (◌∷◌ b) (first_line-newline s (omega arith)))
]

pub take_all : {A : Type 0} (n : ℕ) (xs : List A) → length xs ≤ n → take n xs ≡ xs
take_all zero [] h = refl
take_all zero (x ∷ xs) h = absurd (omega arith)
take_all (suc n) [] h = refl
take_all (suc n) (x ∷ xs) h = ap (◌∷◌ x) (take_all n xs (omega arith))

pub not_empty : (s : Bytes) → is_empty (s ++ b'\n' ∷ []) ≡ false
not_empty [] = refl
not_empty (b ∷ s) = refl

-- The daemon's end, at the bytes of a client.
abbrev pub served_by :
    {S : Type 0}
    → Codec
    → Io
    → (S → Result Bytes)
    → Operations S
    → Stateful S Bytes
    → Bytes
    → S
    → Reply × S
served_by codec io path ops shutdown_sessions bytes w =
    let s =
      (handle_daemon_stream codec io path ops shutdown_sessions (record {
        program = w;
        incoming = bytes;
        outgoing = [];
        socket = true;
        exited = false;
      })).1 in
    (replied s.outgoing, s.program)

pub read_line-IsLine :
    {A : Type 0} (codec : Codec) (parse : Bytes → Result A) (a : A) (s : Bytes)
    → IsLine codec parse a s
    → read_line codec (ok tt) (s ++ b'\n' ∷ []) ≡ ok (s ++ b'\n' ∷ [])
read_line-IsLine codec parse a s h = rw (first_line-newline s h.one_line, h.utf8) refl

module _ (codec : Codec) where
  pub write-sent :
      {S : Type 0} (response : DaemonResponse) (out : Bytes) (s : Stream S)
      → codec.response_json response ≡ ok out
      → write_daemon_response codec open_io response s
        ≡ (ok tt, record s { outgoing = (s.outgoing ++ out) ++ b'\n' ∷ [] })
  unfolding write_daemon_response
  write-sent response out s e = rw e refl

  -- The client's end, at a daemon that replies with a line.
  pub ask-replied :
      {S : Type 0} (path_of : S → Result Bytes) (serve : Bytes → S → Reply × S) (w v : S)
      (path : Bytes) (request : DaemonRequest) (s out : Bytes) (response : DaemonResponse)
      → path_of w ≡ ok path
      → codec.request_json request ≡ ok s
      → serve (s ++ b'\n' ∷ []) w ≡ (replied (out ++ b'\n' ∷ []), v)
      → IsLine codec codec.parse_response response out
      → try_send_daemon_request codec open_io path_of connected serve request w
        ≡ (ok (some response), v)
  unfolding try_send_daemon_request ask response_line
  ask-replied path_of serve w v path request s out response p j e k =
      rw
        (
          p,
          j,
          e,
          read_line-IsLine codec codec.parse_response response out k,
          not_empty out,
          k.parsed,
        )
        refl

  module _ {S : Type 0} (path_of : S → Result Bytes) (ops : Operations S)
      (shutdown_sessions : Stateful S Bytes) where
    shutdown_unhandled : handle_daemon_request ops DaemonRequest.shutdown ≡ none
    unfolding handle_daemon_request request_result
    shutdown_unhandled = refl

    handle_request :
        (request : DaemonRequest) (f : S → DaemonResponse × S)
        → handle_daemon_request ops request ≡ some f
        → handle_line codec open_io path_of ops shutdown_sessions (ok request)
          ≡ handled_by codec open_io path_of ops shutdown_sessions (some f)
    handle_request DaemonRequest.shutdown f e = absurd (let q = shutdown_unhandled in cc)
    handle_request (DaemonRequest.start name cwd cmd path rows cols) f e =
        ap (handled_by codec open_io path_of ops shutdown_sessions) e
    handle_request (DaemonRequest.send name text no_enter) f e =
        ap (handled_by codec open_io path_of ops shutdown_sessions) e
    handle_request (DaemonRequest.keys name key_names) f e =
        ap (handled_by codec open_io path_of ops shutdown_sessions) e
    handle_request (DaemonRequest.read name tail raw) f e =
        ap (handled_by codec open_io path_of ops shutdown_sessions) e
    handle_request (DaemonRequest.screen name tail) f e =
        ap (handled_by codec open_io path_of ops shutdown_sessions) e
    handle_request (DaemonRequest.status name) f e =
        ap (handled_by codec open_io path_of ops shutdown_sessions) e
    handle_request (DaemonRequest.stop name) f e =
        ap (handled_by codec open_io path_of ops shutdown_sessions) e
    handle_request DaemonRequest.list f e =
        ap (handled_by codec open_io path_of ops shutdown_sessions) e

    -- The handler of a stream on the line of a request.
    pub stream-answered :
        (w : S) (socket exited : Bool) (request : DaemonRequest) (f : S → DaemonResponse × S)
        (s out : Bytes)
        → length s < max_request_bytes
        → IsLine codec codec.parse_request request s
        → handle_daemon_request ops request ≡ some f
        → codec.response_json (f w).0 ≡ ok out
        → let t : Stream S = record {
          program = w;
          incoming = s ++ b'\n' ∷ [];
          outgoing = [];
          socket = socket;
          exited = exited;
        } in
          handle_daemon_stream codec open_io path_of ops shutdown_sessions t
          ≡ (ok tt, record t { program = (f w).1; outgoing = out ++ b'\n' ∷ [] })
    unfolding handle_daemon_stream
    stream-answered w socket exited request f s out b h e o =
        rw
          (
            take_all max_request_bytes (s ++ b'\n' ∷ [])
                (let n = length-append s (b'\n' ∷ []) in omega arith),
            read_line-IsLine codec codec.parse_request request s h,
            not_empty s,
            h.parsed,
            handle_request request f e,
            write-sent (f w).0 out _ o,
          )
          refl

    stream-handled :
        (w : S) (request : DaemonRequest) (f : S → DaemonResponse × S) (s out : Bytes)
        → length s < max_request_bytes
        → IsLine codec codec.parse_request request s
        → handle_daemon_request ops request ≡ some f
        → codec.response_json (f w).0 ≡ ok out
        → served_by codec open_io path_of ops shutdown_sessions (s ++ b'\n' ∷ []) w
          ≡ (replied (out ++ b'\n' ∷ []), (f w).1)
    stream-handled w request f s out b h e o =
        ap (λ p. (replied p.1.outgoing, p.1.program))
          (stream-answered w true false request f s out b h e o)

    -- A client that connects and closes is given nothing.
    pub stream-probed :
        (t : Stream S)
        → codec.is_utf8 [] ≡ true
        → t.incoming ≡ []
        → handle_daemon_stream codec open_io path_of ops shutdown_sessions t ≡ (ok tt, t)
    unfolding handle_daemon_stream first_line
    stream-probed t u e = rw (e, u) refl

    -- A request over the socket comes to a call of its handler: the client gets the handler's response, and the state
    -- is what the handler has left. The daemon listens and no end of the stream fails; the request and
    -- the response are each serialized to one line that is parsed to what was serialized, and the request's line
    -- is within the limit of the daemon.
    pub try_send-served :
        (w : S) (path : Bytes) (request : DaemonRequest) (f : S → DaemonResponse × S)
        (s out : Bytes)
        → path_of w ≡ ok path
        → handle_daemon_request ops request ≡ some f
        → codec.request_json request ≡ ok s
        → IsLine codec codec.parse_request request s
        → length s < max_request_bytes
        → codec.response_json (f w).0 ≡ ok out
        → IsLine codec codec.parse_response (f w).0 out
        → try_send_daemon_request codec open_io path_of connected
            (served_by codec open_io path_of ops shutdown_sessions)
            request
            w
          ≡ (ok (some (f w).0), (f w).1)
    try_send-served w path request f s out p e j h b o k =
        ask-replied path_of (served_by codec open_io path_of ops shutdown_sessions) w (f w).1 path
          request s out (f w).0 p j (stream-handled w request f s out b h e o) k
