-- ===== src/Daemon/Accept/Answers.antt =====
-- What the accept loop comes to for clients that keep to the protocol.
use ignibyte_bridge.Prelude.{
  ◌≡◌, ◌≢◌, ◌<◌, true, false, Option, none, some, List, [], ◌∷◌, ◌++◌, map, Bytes, length, Error,
  Result, All,
}
use ignibyte_bridge.Effects.{Stateful}
use ignibyte_bridge.Dispatch.{DaemonRequest, DaemonResponse, Operations, handle_daemon_request}
use ignibyte_bridge.Daemon.{Codec, max_request_bytes}
use ignibyte_bridge.Daemon.Connection.{open_io}
use ignibyte_bridge.Daemon.Serving.{Speaks}
use ignibyte_bridge.Daemon.Accept.{
  Thread, spawned, ended, Server, accept_error, Step, accepts, accept_fails, handles, Steps,
}

-- What a client does: it sends a request, or connects and closes.
pub data Call : Type 0 where
  asks : DaemonRequest → Call
  probes : Call

-- A client that waits, or one with what it was given.
pub data Client : Type 0 where
  waits : Call → Client
  has : (reply : Bytes) → Client

module _ {S : Type 0} (codec : Codec) (h : Speaks codec) (ops : Operations S) where
  abbrev pub sent_by : Call → Bytes
  sent_by (asks request) = (h.requests request).0 ++ b'\n' ∷ []
  sent_by probes = []

  -- A request other than `shutdown`, whose line is within the limit.
  abbrev pub IsServable : Call → Type 0
  IsServable (asks request) =
      (length (h.requests request).0 < max_request_bytes) × (request ≢ DaemonRequest.shutdown)
  IsServable probes = Unit

  abbrev pub reply_line : DaemonResponse → Bytes
  reply_line response = (h.responses response).0 ++ b'\n' ∷ []

  abbrev pub answer_by : Option (S → DaemonResponse × S) → S → Bytes × S
  answer_by none w = ([], w)
  answer_by (some f) w = (reply_line (f w).0, (f w).1)

  -- What a client is given, and what becomes of the program, by the handler of its request alone.
  abbrev pub answer : Call → S → Bytes × S
  answer (asks request) w = answer_by (handle_daemon_request ops request) w
  answer probes w = ([], w)

  -- The daemon as its clients see it.
  pub record Service : Type 0 where
    pub program : S
    pub clients : List Client
    pub printed : List Bytes

  -- A client comes; an accept fails; one of the clients that wait, whichever, is answered.
  pub data Turn (a : Service) : Service → Type 0 where
    comes : (c : Call) → Turn a (record a { clients = a.clients ++ waits c ∷ [] })
    misses : (e : Error) → Turn a (record a { printed = a.printed ++ accept_error e ∷ [] })
    answers :
        (before after : List Client) (c : Call)
        → a.clients ≡ before ++ waits c ∷ after
        → Turn a (record a {
          program = (answer c a.program).1;
          clients = before ++ has (answer c a.program).0 ∷ after;
        })

  pub data Turns (a : Service) : Service → Type 0 where
    here : Turns a a
    next : {b c : Service} → Turns a b → Turn b c → Turns a c

  abbrev pub thread_of : Client → Thread
  thread_of (waits c) = spawned (sent_by c) open_io
  thread_of (has reply) = ended reply

  abbrev pub IsServableClient : Client → Type 0
  IsServableClient (waits c) = IsServable c
  IsServableClient (has reply) = Unit

  -- The daemon `s`, which has not exited, seen as `a`.
  pub record Shows (a : Service) (s : Server S) : Type 0 where
    pub same_program : s.program ≡ a.program
    pub same_threads : s.threads ≡ map thread_of a.clients
    pub same_printed : s.stderr ≡ a.printed
    pub goes_on : s.exited ≡ false
    pub servable : All IsServableClient a.clients

  module _ (path_of : S → Result Bytes) (shutdown_sessions : Stateful S Bytes)
      (utf8 : codec.is_utf8 [] ≡ true) where
    -- The clients of accepted streams keep to the protocol.
    abbrev pub Keeps : {s t : Server S} → Step codec path_of ops shutdown_sessions s t → Type 0
    Keeps (accepts bytes io e) = (c : Call) × (bytes ≡ sent_by c) × (io ≡ open_io) × IsServable c
    Keeps (accept_fails x e) = Unit
    Keeps (handles before after bytes io e f) = Unit

    abbrev pub AllKeep : {s t : Server S} → Steps codec path_of ops shutdown_sessions s t → Type 0
    AllKeep Steps.here = Unit
    AllKeep (Steps.next ss st) = AllKeep ss × Keeps st
