-- ===== src/Paths.antt =====
-- src/paths.rs: session names, the storage root, PATH handling. A path is its bytes.
pub mod Names
pub mod Programs
use ignibyte_bridge.Prelude.{
  ℕ, Bool, true, false, not, ◌&&◌, ◌||◌, Option, none, some, List, [], ◌∷◌, ◌++◌, map, Bytes, ◌==◌,
  ltb, within, if◌then◌else◌, bytes_eq, codes, length, is_empty, all, any, keep, Result, ok, err,
  ◌>>=◌, ◌>>◌, bail, context,
}
use ignibyte_bridge.Text.{split, join}

-- `bytes.starts_with(b)` for one byte.
unfoldable pub starts_with : ℕ → Bytes → Bool
starts_with b [] = false
starts_with b (c ∷ cs) = c == b

unfoldable pub ends_with : ℕ → Bytes → Bool
ends_with b [] = false
ends_with b (c ∷ []) = c == b
ends_with b (c ∷ d ∷ cs) = ends_with b (d ∷ cs)

-- `u8::is_ascii_alphanumeric`, or one of `-`, `_` and `.`.
unfoldable pub is_name_byte : ℕ → Bool
is_name_byte b =
    within b'0' b'9' b
    || within b'A' b'Z' b
    || within b'a' b'z' b
    || b == b'-'
    || b == b'_'
    || b == b'.'

unfoldable pub validate_session_name : Bytes → Result (Unit {0})
validate_session_name name =
    if is_empty name
    then bail (codes "session name cannot be empty")
    else if ltb 128 (length name)
    then bail (codes "session name must be 128 characters or fewer")
    else if not (all is_name_byte name)
    then bail (codes "session name may only contain letters, numbers, '.', '-', and '_'")
    else if bytes_eq name (codes ".") || bytes_eq name (codes "..")
    then bail (codes "session name may not be '.' or '..'")
    else if starts_with b'-' name
    then bail (codes "session name may not start with '-'")
    else ok tt

-- `Path::join`: an absolute path replaces the base, and a separator is added where it is missing.
unfoldable pub path_join : Bytes → Bytes → Bytes
unfolding starts_with ends_with
path_join base rest =
    if starts_with b'/' rest
    then rest
    else if is_empty base || ends_with b'/' base
    then base ++ rest
    else base ++ (b'/' ∷ rest)

pub not_absolute : Bytes → Bytes
not_absolute root = codes "IGNIBYTE_BRIDGE_HOME must be an absolute path, got " ++ root

-- The environment variable, and the home directory that the `directories` crate finds.
unfoldable pub bridge_root_from : Option Bytes → Option Bytes → Result Bytes
unfolding starts_with
bridge_root_from (some root) home =
    if not (starts_with b'/' root) then bail (not_absolute root) else ok root
bridge_root_from none none = bail (codes "failed to locate home directory")
bridge_root_from none (some home) = ok (path_join home (codes ".ignibyte-bridge"))

-- The rest of the file's functions take the outcome of `bridge_root`.
unfoldable pub sessions_root : Result Bytes → Result Bytes
sessions_root bridge_root = do root ← bridge_root; ok (path_join root (codes "sessions"))

unfoldable pub socket_path : Result Bytes → Result Bytes
socket_path bridge_root = do root ← bridge_root; ok (path_join root (codes "ignibyte-bridge.sock"))

unfoldable pub session_dir : Result Bytes → Bytes → Result Bytes
unfolding sessions_root
session_dir bridge_root name = do
  validate_session_name name
  root ← sessions_root bridge_root
  ok (path_join root name)

-- `shell_words::split` is another crate's: its outcome is an argument.
unfoldable pub parse_command : (Bytes → Result (List Bytes)) → Bytes → Result (List Bytes)
parse_command shell_split cmd = do
  parts ← context (codes "failed to parse command") (shell_split cmd)
  if is_empty parts then bail (codes "command cannot be empty") else ok parts

-- What the system says of the current directory, of a canonical path and of directories are arguments.
unfoldable pub resolve_cwd :
    Result Bytes → (Bytes → Result Bytes) → (Bytes → Bool) → Option Bytes → Result Bytes
resolve_cwd current_dir canonicalize is_dir cwd = do
  dir ← elim cwd [
    | none ↦ context (codes "failed to read current directory") current_dir
    | some path ↦ ok path
  ]
  canonical ← context (codes "failed to canonicalize cwd " ++ dir) (canonicalize dir)
  if is_dir canonical then ok canonical else bail (codes "cwd is not a directory: " ++ canonical)

-- `entry` is a directory of PATH that is kept.
pub is_other_entry : Bytes → Bytes → Bool
is_other_entry local_bin entry = not (is_empty entry) && not (bytes_eq entry local_bin)

unfoldable pub path_with_local_bin_from : Bytes → Bytes → Bytes
unfolding is_other_entry
path_with_local_bin_from current_path home_dir =
    let local_bin = path_join home_dir (codes ".local/bin") in
    let rest = join (b':' ∷ []) (keep (is_other_entry local_bin) (split b':' current_path)) in
    if is_empty current_path
    then local_bin
    else if is_empty rest
    then local_bin
    else local_bin ++ (b':' ∷ rest)

-- `child_path`: the client's PATH or the process's own; the home directory may be missing.
unfoldable pub child_path : Option Bytes → Bytes → Option Bytes → Option Bytes
child_path home own_path (some path) =
    some (elim home [ some dir ↦ path_with_local_bin_from path dir | none ↦ path ])
child_path home own_path none = elim home [
  | some dir ↦ some (path_with_local_bin_from own_path dir)
  | none ↦ none
]

-- `.find(is_executable)`
pub find_executable : (Bytes → Bool) → List Bytes → Option Bytes
find_executable is_executable [] = none
find_executable is_executable (c ∷ cs) =
    if is_executable c then some c else find_executable is_executable cs

abbrev pub candidates : Bytes → Bytes → List Bytes
candidates program path =
    map (λ entry. path_join entry program) (keep (λ entry. not (is_empty entry)) (split b':' path))

unfoldable pub resolve_program_path : (Bytes → Bool) → Bytes → Bytes → Option Bytes
unfolding find_executable
resolve_program_path is_executable program path =
    if any (λ b. b == b'/') program
    then some program
    else find_executable is_executable (candidates program path)

-- `Path::file_name`: the last component but empty ones and `.`; none if that is `..`.
last_normal : List Bytes → Option Bytes
unfolding bytes_eq
last_normal [] = none
last_normal (c ∷ []) = if bytes_eq c (codes "..") then none else some c
last_normal (c ∷ d ∷ cs) = last_normal (d ∷ cs)

unfoldable pub file_name : Bytes → Option Bytes
unfolding last_normal
file_name path =
    last_normal (keep (λ c. not (is_empty c) && not (bytes_eq c (codes "."))) (split b'/' path))

unfoldable pub command_is_claude : Bytes → Bool
command_is_claude program = elim (file_name program) [
  | none ↦ false
  | some name ↦ bytes_eq name (codes "claude")
]
