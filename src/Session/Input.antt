-- ===== src/Session/Input.antt =====
-- Sending input to a session: `write_session_bytes`, `send_input_silent` and `send_keys_silent`.
pub mod Delivery
use ignibyte_bridge.Prelude.{
  ℕ, suc, ◌-◌, ◌/◌, ◌%◌, ◌==◌, Bool, true, false, not, Option, none, some, List, [], ◌∷◌, ◌++◌,
  Bytes, if◌then◌else◌, is_empty, take, codes, Error, Result, ok, err, bail,
}
use ignibyte_bridge.Paths.{validate_session_name}
use ignibyte_bridge.Keys.{encode_keys}
use ignibyte_bridge.Session.World.{
  SessionMetadata, Json, SessionDir, World, M, ◌>>=◌, ◌>>◌, pure, lift, get, with_context, Env,
  sleep, set_dir,
}
use ignibyte_bridge.Session.Process.{is_running}
use ignibyte_bridge.Session.Metadata.{dir_of, load_metadata}

pub not_running : Bytes → Bytes
not_running name = codes "session '" ++ (name ++ codes "' is not running")

pub no_input_reader : Bytes → Bytes
no_input_reader name =
    codes "session '"
    ++ (name ++ codes "' has no input reader; it may still be starting or its owner exited")

pub no_fifo : Bytes → Bytes
no_fifo name = codes "failed to open input FIFO for '" ++ (name ++ codes "'")

-- The FIFO with more bytes in it.
abbrev pub fed : Bytes → SessionDir → SessionDir
fed bytes d = record d { fifo = elim d.fifo [ none ↦ none | some queued ↦ some (queued ++ bytes) ] }

-- What the system gives for the FIFO's descriptor: how many bytes a failing write has passed on, the flags that
-- `fcntl` reads, and what it says to new ones.
pub record Channel : Type 0 where
  pub accepted : ℕ
  pub get_flags : Result ℕ
  pub set_flags : ℕ → Result (Unit {0})

-- `flags & !O_NONBLOCK`, with the bit of Linux.
abbrev pub blocking : ℕ → ℕ
blocking flags = if flags / 2048 % 2 == 1 then flags - 2048 else flags

unfoldable pub clear_nonblocking : Channel → M (Unit {0})
clear_nonblocking channel = do
  flags ← with_context (codes "failed to read FIFO flags") (lift channel.get_flags)
  with_context (codes "failed to set FIFO blocking") (lift (channel.set_flags (blocking flags)))

-- `write_all` and `flush`: a failing write has passed on the first `accepted` bytes.
unfoldable pub write_fifo : ℕ → Bytes → Bytes → M (Unit {0})
unfolding set_dir
write_fifo accepted name bytes w =
    let counted = record w { writes = suc w.writes } in
    elim (w.write_fault w.writes) [
      | none ↦ (ok tt, set_dir name (fed bytes (w.sessions name)) counted)
      | some e ↦ (err e, set_dir name (fed (take accepted bytes) (w.sessions name)) counted)
    ]

-- Opening for writing, which does not block: a FIFO that is missing or has no reader is an error.
unfoldable pub open_fifo : Bytes → SessionDir → Result (Unit {0})
open_fifo name d = elim d.fifo [
  | none ↦ err (record { message = no_fifo name; causes = codes "No such file or directory" ∷ [] })
  | some queued ↦ if d.fifo_reader then ok tt else bail (no_input_reader name)
]

module _ (json : Json) (channel : Channel) where
  unfoldable pub write_session_bytes : Bytes → Bytes → M (Unit {0})
  unfolding clear_nonblocking
  write_session_bytes name bytes = do
    lift (validate_session_name name)
    m ← load_metadata json name
    if not (is_running m.status) then lift (bail (not_running name)) else (do
      w ← get
      dir ← lift (dir_of name w)
      lift (open_fifo name (w.sessions name))
      clear_nonblocking channel
      with_context (codes "failed to write input") (write_fifo channel.accepted name bytes))

  unfoldable pub send_input_silent : Env → Bytes → Bytes → Bool → M (Unit {0})
  unfolding write_session_bytes
  send_input_silent env name text no_enter = do
    write_session_bytes name text
    if no_enter then pure tt else (do sleep env; write_session_bytes name (b'\r' ∷ []))

  unfoldable pub send_keys_silent : Bytes → List Bytes → M (Unit {0})
  unfolding write_session_bytes
  send_keys_silent name keys =
      if is_empty keys
      then lift (bail (codes "at least one key is required"))
      else (do bytes ← lift (encode_keys keys); write_session_bytes name bytes)
