-- ===== src/Session/Reports.antt =====
-- The texts of `read`, `screen`, `status` and `list`.
pub mod Sorting
pub mod Reading
use ignibyte_bridge.Prelude.{
  ℕ, ◌+◌, ◌-◌, ◌==◌, Bool, true, false, Option, none, some, List, [], ◌∷◌, ◌++◌, Bytes, ltb,
  is_empty, if◌then◌else◌, length, codes, Error, Result, ok, err, bail, context, ◌>>=◌, ◌>>◌,
}
use ignibyte_bridge.Text.{join, decimal}
use ignibyte_bridge.Paths.{validate_session_name, session_dir, sessions_root, path_join}
use ignibyte_bridge.Logs.{tail_lines, tail_contents, block, max_bytes}
use ignibyte_bridge.Session.World.{
  SessionMetadata, SessionStatus, starting, running, stopped, Json, World, raw_log_name,
  clean_log_name, screen_snapshot_name,
}
use ignibyte_bridge.Session.Process.{pid_is_ours}
use ignibyte_bridge.Session.Metadata.{current, dir_of}

-- Opening the file and tailing it; once it is open, reading it is taken not to fail.
unfoldable pub tail_file : Bytes → Option Bytes → ℕ → Result Bytes
tail_file path none tail = bail (codes "failed to read " ++ path)
tail_file path (some contents) tail = ok (tail_contents block max_bytes contents tail)

unfoldable pub read_output_text : World → Bytes → ℕ → Bool → Result Bytes
unfolding tail_file
read_output_text w name tail raw = do
  validate_session_name name
  dir ← dir_of name w
  let d = w.sessions name
  if raw
      then tail_file (path_join dir raw_log_name) d.raw_log tail
      else tail_file (path_join dir clean_log_name) d.clean_log tail

-- `is_utf8` stands for the check of `read_to_string`.
unfoldable pub read_screen_text : (Bytes → Bool) → World → Bytes → ℕ → Result Bytes
read_screen_text is_utf8 w name tail = do
  validate_session_name name
  dir ← dir_of name w
  contents ←
      context (codes "failed to read " ++ path_join dir screen_snapshot_name)
        (elim (w.sessions name).screen [
          | none ↦ bail (codes "No such file or directory (os error 2)")
          | some text ↦
              if is_utf8 text then ok text else bail (codes "stream did not contain valid UTF-8")
        ])
  ok (tail_lines contents tail)

pub record Activity : Type 0 where
  pub last_output_unix : ℕ
  pub idle_seconds : ℕ
  pub output_bytes : ℕ

abbrev pub activity_of : ℕ → Option Bytes → Option ℕ → Option Activity
activity_of now none modified = none
activity_of now (some log) none = none
activity_of now (some log) (some last) =
    some (record { last_output_unix = last; idle_seconds = now - last; output_bytes = length log })

-- `modified` gives the time of the last write to a session's raw.log, in seconds since 1970, if there is one.
unfoldable pub session_activity : (Bytes → Option ℕ) → World → Bytes → Option Activity
session_activity modified w name = elim (dir_of name w) [
  | err e ↦ none
  | ok dir ↦ activity_of w.now (w.sessions name).raw_log (modified name)
]

abbrev pub line : Bytes → Bytes → Bytes
line label value = label ++ (value ++ b'\n' ∷ [])

abbrev pub bool_text : Bool → Bytes
bool_text true = codes "true"
bool_text false = codes "false"

abbrev pub status_name : SessionStatus → Bytes
status_name starting = codes "Starting"
status_name running = codes "Running"
status_name stopped = codes "Stopped"

-- `{:?}` of an `Option<u32>`
abbrev pub debug_pid : Option ℕ → Bytes
debug_pid none = codes "None"
debug_pid (some pid) = codes "Some(" ++ (decimal pid ++ codes ")")

abbrev pub activity_lines : Option Activity → Bytes
activity_lines none = []
activity_lines (some a) =
    line (codes "last_output_unix: ") (decimal a.last_output_unix)
    ++ (line (codes "idle_seconds: ") (decimal a.idle_seconds)
        ++ line (codes "output_bytes: ") (decimal a.output_bytes))

abbrev pub exit_line : Option Bytes → Bytes
exit_line none = []
exit_line (some status) = line (codes "exit_status: ") status

unfoldable pub status_lines : World → SessionMetadata → Option Activity → Bytes
status_lines w m activity =
    line (codes "name: ") m.name
    ++ (line (codes "status: ") (status_name m.status)
        ++ (line (codes "cwd: ") m.cwd
            ++ (line (codes "command: ") (join (codes " ") m.command)
                ++ (line (codes "geometry: ") (decimal m.rows ++ (codes "x" ++ decimal m.cols))
                    ++ (line (codes "supervisor_pid: ") (debug_pid m.supervisor_pid)
                        ++ (line (codes "supervisor_alive: ") (
                              bool_text (pid_is_ours w.os m.supervisor_pid m.supervisor_start_time))
                            ++ (line (codes "child_pid: ") (debug_pid m.child_pid)
                                ++ (line (codes "child_alive: ")
                                      (bool_text (pid_is_ours w.os m.child_pid m.child_start_time))
                                    ++ (activity_lines activity ++ exit_line m.exit_status)))))))))

unfoldable pub status_text : Json → (Bytes → Option ℕ) → World → Bytes → Result Bytes
unfolding status_lines session_activity
status_text json modified w name = do
  validate_session_name name
  m ← current json w name
  ok (status_lines w m (session_activity modified w name))

-- An entry of the directory of the sessions, with its name after `to_string_lossy`.
pub record DirEntry : Type 0 where
  pub file_name : Bytes
  pub is_dir : Result Bool

abbrev pub listed : Bool → Result SessionMetadata → List SessionMetadata → List SessionMetadata
listed true (ok m) ms = m ∷ ms
listed _ _ ms = ms

-- The sessions among the entries, whose metadata can be loaded.
unfoldable pub collect :
    (Bytes → Result SessionMetadata) → List (Result DirEntry) → Result (List SessionMetadata)
collect load [] = ok []
collect load (e ∷ es) = do
  entry ← e
  is_dir ← entry.is_dir
  rest ← collect load es
  ok (listed is_dir (load entry.file_name) rest)

-- `Ord` for strings: by bytes.
unfoldable pub bytes_le : Bytes → Bytes → Bool
bytes_le [] ys = true
bytes_le (x ∷ xs) [] = false
bytes_le (x ∷ xs) (y ∷ ys) =
    let rest = bytes_le xs ys in if ltb x y then true else if x == y then rest else false

-- The sort by a key, which keeps the order of equal keys.
module _ {A : Type 0} (key : A → Bytes) where
  unfoldable pub insert_by : A → List A → List A
  insert_by a [] = a ∷ []
  insert_by a (x ∷ xs) =
      let rest = insert_by a xs in if bytes_le (key a) (key x) then a ∷ x ∷ xs else x ∷ rest

  unfoldable pub sort_by : List A → List A
  unfolding insert_by
  sort_by [] = []
  sort_by (x ∷ xs) = insert_by x (sort_by xs)

abbrev pub idle_text : Option Activity → Bytes
idle_text none = codes "-"
idle_text (some a) = decimal a.idle_seconds ++ codes "s"

unfoldable pub list_line : World → SessionMetadata → Option Activity → Bytes
list_line w m activity =
    m.name
    ++ (b'\t'
        ∷ (status_name m.status
            ++ (b'\t'
                ∷ (codes "child_alive="
                    ++ (bool_text (pid_is_ours w.os m.child_pid m.child_start_time)
                        ++ (b'\t'
                            ∷ (codes "idle="
                                ++ (idle_text activity
                                    ++ (b'\t'
                                        ∷ (codes "cmd="
                                            ++ (join (codes " ") m.command ++ b'\n' ∷ [])))))))))))

unfoldable pub list_lines : (Bytes → Option ℕ) → World → List SessionMetadata → Bytes
unfolding list_line session_activity
list_lines modified w [] = []
list_lines modified w (m ∷ ms) =
    list_line w m (session_activity modified w m.name) ++ list_lines modified w ms

abbrev pub list_or_none : (Bytes → Option ℕ) → World → List SessionMetadata → Bytes
list_or_none modified w [] = codes "no sessions" ++ b'\n' ∷ []
list_or_none modified w (m ∷ ms) = list_lines modified w (m ∷ ms)

-- `ensured` is the outcome of `ensure_bridge_dir`, and `entries` that of `read_dir`.
unfoldable pub list_sessions_text :
    Json
    → (Bytes → Option ℕ)
    → Result (Unit {0})
    → Result (List (Result DirEntry))
    → World
    → Result Bytes
unfolding list_lines collect sort_by
list_sessions_text json modified ensured entries w = do
  dir ← sessions_root w.root
  ensured
  es ← context (codes "failed to read " ++ dir) entries
  sessions ← collect (current json w) es
  ok (list_or_none modified w (sort_by (λ m. m.name) sessions))
