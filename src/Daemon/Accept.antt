-- ===== src/Daemon/Accept.antt =====
-- The accept loop at the end of `run_daemon` of src/daemon.rs, as steps: a stream that is accepted gets a thread of
-- its own, the loop goes on at once, and the threads run their handlers in any order. What a handler does to the
-- program is one step.
pub mod Places
pub mod Answers
use ignibyte_bridge.Prelude.{
  ◌≡◌, Bool, false, List, [], ◌∷◌, ◌++◌, Bytes, codes, chain, Error, Result, ok, err,
}
use ignibyte_bridge.Effects.{Stateful}
use ignibyte_bridge.Dispatch.{Operations}
use ignibyte_bridge.Daemon.{Codec, Io, Stream, handle_daemon_stream}

-- The thread of a stream, with what its client sends, until its handler has run, and with what its client was given.
pub data Thread : Type 0 where
  spawned : (bytes : Bytes) (io : Io) → Thread
  ended : (reply : Bytes) → Thread

-- The daemon, with its threads in the order of their streams, and what it has printed to stderr, oldest first.
pub record Server (S : Type 0) : Type 0 where
  pub program : S
  pub socket : Bool
  pub exited : Bool
  pub threads : List Thread
  pub stderr : List Bytes

abbrev pub request_failed : Result (Unit {0}) → List Bytes
request_failed (ok _) = []
request_failed (err e) = (codes "daemon request failed: " ++ chain e) ∷ []

pub accept_error : Error → Bytes
accept_error e = codes "daemon accept failed: " ++ e.message

module _ {S : Type 0} (codec : Codec) (path : S → Result Bytes) (ops : Operations S)
    (shutdown_sessions : Stateful S Bytes) where
  abbrev pub opened : Bytes → Server S → Stream S
  opened bytes s = record {
    program = s.program;
    incoming = bytes;
    outgoing = [];
    socket = s.socket;
    exited = s.exited;
  }

  abbrev pub closed : List Thread → List Thread → Server S → Result (Unit {0}) × Stream S → Server S
  closed before after s (r, t) = record {
    program = t.program;
    socket = t.socket;
    exited = t.exited;
    threads = before ++ ended t.outgoing ∷ after;
    stderr = s.stderr ++ request_failed r;
  }

  -- A daemon that has exited does nothing more.
  pub data Step (s : Server S) : Server S → Type 0 where
    accepts :
        (bytes : Bytes) (io : Io)
        → s.exited ≡ false
        → Step s (record s { threads = s.threads ++ spawned bytes io ∷ [] })
    accept_fails :
        (e : Error)
        → s.exited ≡ false
        → Step s (record s { stderr = s.stderr ++ accept_error e ∷ [] })
    handles :
        (before after : List Thread) (bytes : Bytes) (io : Io)
        → s.exited ≡ false
        → s.threads ≡ before ++ spawned bytes io ∷ after
        → Step s (
            closed before after s
              (handle_daemon_stream codec io path ops shutdown_sessions (opened bytes s)))

  pub data Steps (s : Server S) : Server S → Type 0 where
    here : Steps s s
    next : {t u : Server S} → Steps s t → Step t u → Steps s u
