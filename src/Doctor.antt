-- ===== src/Doctor.antt =====
-- src/doctor.rs: what `doctor` prints, given what the system and the programs that it runs answer.
pub mod Agreement
use ignibyte_bridge.Prelude.{
  ℕ, suc, ◌<◌, ltb, Bool, true, false, not, ◌&&◌, ◌||◌, Option, none, some, List, [], ◌∷◌, ◌++◌,
  Bytes, bytes_eq, is_empty, if◌then◌else◌, keep, codes, Error, Result, ok, err, bail, context,
}
use ignibyte_bridge.Effects.{Stateful, ◌>>=◌, ◌>>◌, pure, lift}
use ignibyte_bridge.Text.{lines, join, split, decimal, trim, trim_end, contains}
use ignibyte_bridge.Text.Utf8.{from_utf8_lossy}
use ignibyte_bridge.Paths.{
  sessions_root, parse_command, child_path, resolve_program_path, command_is_claude, starts_with,
}

-- What a program that was run has given; `status` is its exit status as text.
pub record Output : Type 0 where
  pub success : Bool
  pub status : Bytes
  pub stdout : Bytes
  pub stderr : Bytes

-- `run` gives the outcome of a command, with its arguments, its directory and its PATH where that is set.
pub record Machine : Type 0 where
  pub current_dir : Result Bytes
  pub canonicalize : Bytes → Result Bytes
  pub is_dir : Bytes → Bool
  pub shell_split : Bytes → Result (List Bytes)
  pub home : Option Bytes
  pub path_var : Option Bytes
  pub shell_var : Option Bytes
  pub bridge_root : Result Bytes
  pub is_executable : Bytes → Bool
  pub run : List Bytes → Bytes → Option Bytes → Result Output

abbrev pub or_else : Bytes → Option Bytes → Bytes
or_else default none = default
or_else default (some s) = s

-- What has been printed is the state.
abbrev pub P : Type 0
P = Stateful Bytes (Unit {0})

abbrev pub say : Bytes → P
say s printed = (ok tt, printed ++ (s ++ b'\n' ∷ []))

unfoldable pub doctor_path : Machine → Bytes
doctor_path m = let own = or_else [] m.path_var in or_else own (child_path m.home own none)

-- `parse_command` gives at least one word.
unfoldable pub resolved_program : Machine → List Bytes → Bytes
unfolding doctor_path
resolved_program m [] = []
resolved_program m (word ∷ words) =
    or_else word (resolve_program_path m.is_executable word (doctor_path m))

-- The entries of the PATH, with a number of at least two places.
abbrev pub number : ℕ → Bytes
number n = if ltb n 10 then b' ' ∷ decimal n else decimal n

unfoldable pub say_entries : ℕ → List Bytes → P
say_entries n [] = pure tt
say_entries n (entry ∷ entries) = do
  say (codes "  " ++ (number n ++ (codes ": " ++ entry)))
  say_entries (suc n) entries

unfoldable pub say_all : Bytes → List Bytes → P
say_all before [] = pure tt
say_all before (s ∷ ss) = do say (before ++ s); say_all before ss

unfoldable pub print_output_block : Bytes → Bytes → P
unfolding say_all
print_output_block label bytes =
    let shown = trim_end (from_utf8_lossy bytes) in
    if is_empty shown
    then say (codes "  " ++ (label ++ codes ": <empty>"))
    else do say (codes "  " ++ (label ++ codes ":")); say_all (codes "    ") (lines shown)

unfoldable pub print_command_output : Result Output → P
unfolding print_output_block
print_command_output (err e) = say (codes "  failed: " ++ e.message)
print_command_output (ok output) = do
  say (codes "  status: " ++ output.status)
  print_output_block (codes "stdout") output.stdout
  print_output_block (codes "stderr") output.stderr

abbrev pub sentinel : Bytes
sentinel = codes "__IGNIBYTE_BRIDGE_CLAUDE__"

unfoldable pub first_path : List Bytes → Option Bytes
first_path [] = none
first_path (l ∷ ls) =
    let rest = first_path ls in
    let path = trim l in if starts_with b'/' path then some path else rest

unfoldable pub path_behind : List Bytes → Option Bytes
unfolding first_path
path_behind [] = none
path_behind (l ∷ ls) =
    let rest = path_behind ls in
    let found = first_path ls in if contains sentinel l then found else rest

unfoldable pub login_path : Result Output → Option Bytes
unfolding path_behind
login_path (err e) = none
login_path (ok output) = path_behind (lines (from_utf8_lossy output.stdout))

abbrev pub succeeded : Result Output → Bool
succeeded (ok output) = output.success
succeeded (err e) = false

pub not_executable : Bytes
not_executable = codes "resolved program is not executable or could not be found."

pub version_failed : Bytes
version_failed =
    codes "`claude --version` via the resolved path did not succeed; the session may fail to start."

pub differs : Bytes → Bytes → Bytes
differs login resolved =
    codes "login shell resolves claude to '"
    ++ (login
        ++ (codes "', but Ignibyte Bridge resolves '"
            ++ (resolved ++ codes "'; sessions may run a different binary than your terminal.")))

unfoldable pub path_warnings : Bytes → Option Bytes → List Bytes
path_warnings resolved none = []
path_warnings resolved (some login) =
    if bytes_eq login resolved then [] else differs login resolved ∷ []

abbrev pub warn_if : Bool → Bytes → List Bytes
warn_if true s = s ∷ []
warn_if false s = []

unfoldable pub claude_warnings : Bytes → Result Output → Result Output → List Bytes
unfolding path_warnings login_path
claude_warnings resolved version login =
    warn_if (not (succeeded version)) version_failed ++ path_warnings resolved (login_path login)

-- The two programs are run, and their outputs printed.
unfoldable pub examine_claude : Machine → Bytes → Bytes → Stateful Bytes (List Bytes)
unfolding print_command_output claude_warnings
examine_claude m cwd resolved = do
  let version = m.run (resolved ∷ codes "--version" ∷ []) cwd (some (doctor_path m))
  let shell = or_else (codes "/bin/sh") m.shell_var
  let script = codes "printf '" ++ (sentinel ++ codes "\\n'; command -v claude")
  let login = m.run (shell ∷ codes "-lic" ∷ script ∷ []) cwd none
  say []
  say (codes "claude_version_via_ignibyte_bridge_path:")
  print_command_output version
  say []
  say (codes "claude_resolution_via_login_shell (" ++ (shell ++ codes "):"))
  print_command_output login
  pure (claude_warnings resolved version login)

unfoldable pub print_warnings : List Bytes → P
unfolding say_all
print_warnings [] = say (codes "warnings: none")
print_warnings (w ∷ ws) = do say (codes "warnings:"); say_all (codes "  - ") (w ∷ ws)

abbrev pub is_claude : List Bytes → Bytes → Bool
is_claude [] resolved = command_is_claude resolved
is_claude (word ∷ words) resolved = command_is_claude word || command_is_claude resolved

-- `current_dir` is asked whether or not a directory is given.
unfoldable pub doctor_cwd : Machine → Option Bytes → Result Bytes
doctor_cwd m cwd = elim (context (codes "failed to read current directory") m.current_dir) [
  | err e ↦ err e
  | ok current ↦ context (codes "failed to canonicalize cwd") (m.canonicalize (or_else current cwd))
]

unfoldable pub doctor : Machine → Bytes → Option Bytes → P
unfolding doctor_cwd say_entries examine_claude print_warnings resolved_program
doctor m cmd cwd = do
  dir ← lift (doctor_cwd m cwd)
  lift (if m.is_dir dir then ok tt else bail (codes "cwd is not a directory: " ++ dir))
  words ← lift (parse_command m.shell_split cmd)
  let resolved = resolved_program m words
  let found = m.is_executable resolved
  say (codes "ignibyte-bridge doctor")
  root ← lift (sessions_root m.bridge_root)
  say (codes "sessions_root: " ++ root)
  say (codes "cwd: " ++ dir)
  say (codes "input_command: " ++ cmd)
  say (codes "parsed_command: " ++ join (codes " ") words)
  say (codes "resolved_program: " ++ resolved)
  say (codes "executable_found: " ++ (if found then codes "true" else codes "false"))
  say (codes "child_path:")
  say_entries 1 (keep (λ entry. not (is_empty entry)) (split b':' (doctor_path m)))
  warnings ← (if is_claude words resolved then examine_claude m dir resolved else pure [])
  say []
  print_warnings (warn_if (not found) not_executable ++ warnings)
