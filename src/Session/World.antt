-- ===== src/Session/World.antt =====
-- The state that session.rs works on: the files of each session, the clock, the processes, and the
-- monad of its functions. `sleep` lets everything else in the system act.
use ignibyte_bridge.Prelude.{
  ℕ, suc, ◌-◌, ◌^◌, Bool, Option, none, some, List, Bytes, ltb, if◌then◌else◌, bytes_eq, codes,
  Error, Result, ok, err, ◌≡◌,
}
use ignibyte_bridge.Effects.{Stateful}
pub use ignibyte_bridge.Effects.{
  and_then, ◌>>=◌, ◌>>◌, pure, lift, get, put, attempt, context_of, with_context,
}

-- `negsuc n` is -(n + 1).
pub data ℤ : Type 0 where
  pos : ℕ → ℤ
  negsuc : ℕ → ℤ

-- `pid as i32` of a `u32`.
unfoldable pub as_i32 : ℕ → ℤ
as_i32 pid = if ltb pid (2 ^ 31) then pos pid else negsuc (2 ^ 32 - 1 - pid)

pub data SessionStatus : Type 0 where
  starting running stopped : SessionStatus

pub record SessionMetadata : Type 0 where
  pub name : Bytes
  pub cwd : Bytes
  pub command : List Bytes
  pub status : SessionStatus
  pub supervisor_pid : Option ℕ
  pub child_pid : Option ℕ
  pub supervisor_start_time : Option ℕ
  pub child_start_time : Option ℕ
  pub generation : ℕ
  pub rows : ℕ
  pub cols : ℕ
  pub created_at_unix : ℕ
  pub updated_at_unix : ℕ
  pub exit_status : Option Bytes
  pub exit_code : Option ℕ

-- `serde_json` for `SessionMetadata` is another crate's.
pub record Json : Type 0 where
  pub to_json : SessionMetadata → Result Bytes
  pub from_json : Bytes → Result SessionMetadata

-- What was written is read back.
abbrev pub RoundTrips : Json → Type 0
RoundTrips json =
    (m : SessionMetadata) (s : Bytes) → json.to_json m ≡ ok s → json.from_json s ≡ ok m

-- The file `metadata.json`.
pub data Stored : Type 0 where
  absent : Stored
  unreadable : Error → Stored
  contents : Bytes → Stored

-- The directory of a session; a log that is absent is `none`.
pub record SessionDir : Type 0 where
  pub metadata : Stored
  pub raw_log : Option Bytes
  pub clean_log : Option Bytes
  pub screen : Option Bytes
  pub raw_prev : Option Bytes
  pub clean_prev : Option Bytes
  -- The bytes in the FIFO, if there is one.
  pub fifo : Option Bytes
  pub fifo_reader : Bool

-- What `kill` returns for a target.
pub data Kill : Type 0 where
  delivered no_such_process not_permitted : Kill
  kill_failed : Bytes → Kill

pub data Signal : Type 0 where
  sigterm sigkill : Signal

-- The processes, as `kill` and `/proc/<pid>/stat` show them.
pub record Os : Type 0 where
  pub kill : ℤ → Kill
  pub stat : ℕ → Option Bytes

pub record World : Type 0 where
  -- The outcome of `bridge_root()`.
  pub root : Result Bytes
  pub sessions : Bytes → SessionDir
  pub now : ℕ
  pub os : Os
  -- The signals sent so far, oldest first.
  pub signals : List (ℤ × Signal)
  -- How often the program has slept.
  pub sleeps : ℕ
  -- How many writes to the disk were tried, and the error that the n-th meets, such as a full disk.
  pub writes : ℕ
  pub write_fault : ℕ → Option Error

abbrev pub M : Type 0 → Type 0
M A = Stateful World A

-- What the rest of the system does during the n-th sleep of the program.
abbrev pub Env : Type 0
Env = ℕ → World → World

unfoldable pub sleep : Env → M (Unit {0})
sleep env w =
    let w' = env w.sleeps w in (ok tt, record w' { sleeps = suc w.sleeps; signals = w.signals })

-- A file of the session's directory, rewritten.
unfoldable pub set_dir : Bytes → SessionDir → World → World
set_dir name dir w = record w { sessions = λ n. if bytes_eq n name then dir else w.sessions n }

abbrev written : Option Error → World → World → Result (Unit {0}) × World
written none before after = (ok tt, after)
written (some e) before after = (err e, before)

-- A write to a session's directory: it fails, or replaces the directory's state at once.
unfoldable pub write_dir : Bytes → (SessionDir → SessionDir) → M (Unit {0})
unfolding set_dir
write_dir name change w =
    let counted = record w { writes = suc w.writes } in
    written (w.write_fault w.writes) counted (set_dir name (change (w.sessions name)) counted)

-- The file names of lib.rs.
pub input_fifo_name : Bytes
input_fifo_name = codes "input.fifo"

pub raw_log_name : Bytes
raw_log_name = codes "raw.log"

pub clean_log_name : Bytes
clean_log_name = codes "clean.log"

pub screen_snapshot_name : Bytes
screen_snapshot_name = codes "screen.txt"

pub metadata_name : Bytes
metadata_name = codes "metadata.json"

abbrev pub screen_rows : ℕ
screen_rows = 40

abbrev pub screen_cols : ℕ
screen_cols = 140
