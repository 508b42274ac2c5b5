-- ===== src/Files/Operations.antt =====
-- The operations of src/paths.rs on files and directories.
use ignibyte_bridge.Prelude.{
  ℕ, ◌+◌, ◌/◌, ◌%◌, ◌^◌, ◌==◌, Bool, true, false, not, ◌||◌, Option, none, some, List, [], ◌∷◌,
  ◌++◌, Bytes, if◌then◌else◌, bytes_eq, codes, Result, ok, err, bail,
}
use ignibyte_bridge.Effects.{◌>>=◌, ◌>>◌, pure, lift, get, put, attempt, with_context}
use ignibyte_bridge.Text.{decimal}
use ignibyte_bridge.Text.Utf8.{from_utf8_lossy}
use ignibyte_bridge.Files.{
  F, FileKind, FilePath, Node, directory, mkdir, open_truncated, path_text, regular, remove_file,
  rename, set_permissions, symlink, symlink_metadata, system_call, write_all,
}

abbrev pub failed_to : Bytes → FilePath → Bytes
failed_to action p = codes "failed to " ++ (action ++ (codes " " ++ path_text p))

-- `mode & 0o077 != 0`
abbrev pub is_loose : ℕ → Bool
is_loose mode = not (mode % 64 == 0)

-- The parents of a path below `base`, outermost first, and the path.
abbrev pub ancestors : FilePath → FilePath → List FilePath
ancestors base [] = []
ancestors base (c ∷ cs) = (base ++ c ∷ []) ∷ ancestors (base ++ c ∷ []) cs

abbrev pub is_absent : Option Node → Bool
is_absent none = true
is_absent (some node) = false

unfoldable pub make_missing : List FilePath → F (Unit {0})
unfolding mkdir
make_missing [] = pure tt
make_missing (p ∷ ps) = do
  d ← get
  if is_absent (d.nodes p) then mkdir p else pure tt
  make_missing ps

-- `Path::is_dir`, through a link.
abbrev pub leads_to_directory : Option Node → Bool
leads_to_directory none = false
leads_to_directory (some node) = elim node.kind [
  | directory ↦ true
  | symlink to_directory ↦ to_directory
  | _ ↦ false
]

-- `DirBuilder::recursive(true)` with mode 0o700.
unfoldable pub create_dir_all : FilePath → F (Unit {0})
create_dir_all p = do
  make_missing (ancestors [] p)
  d ← get
  if leads_to_directory (d.nodes p)
      then pure tt
      else lift (bail (codes "File exists (os error 17)"))

abbrev pub refusing : FilePath → Bytes → Result (Unit {0})
refusing p reason = bail (codes "refusing to use " ++ (path_text p ++ (codes ": " ++ reason)))

-- The tests of a directory that is there.
unfoldable pub check_owned : FilePath → FileKind → ℕ → ℕ → Result (Unit {0})
check_owned p (symlink to_directory) uid euid =
    refusing p (codes "it is a symlink (possible tampering)")
check_owned p directory uid euid =
    if not (uid == euid)
    then refusing p (
        codes "owned by uid "
        ++ (decimal uid ++ (codes " instead of current uid " ++ decimal euid)))
    else ok tt
check_owned p _ uid euid = refusing p (codes "not a directory")

unfoldable pub ensure_private_dir : FilePath → F (Unit {0})
ensure_private_dir p = do
  with_context (failed_to (codes "create") p) (create_dir_all p)
  node ← with_context (failed_to (codes "inspect") p) (symlink_metadata p)
  d ← get
  lift (check_owned p node.kind node.uid d.euid)
  if is_loose node.mode
      then with_context (failed_to (codes "restrict permissions on") p) (set_permissions p 0x1c0)
      else pure tt

abbrev pub strip_prefix : FilePath → FilePath → Option FilePath
strip_prefix [] dir = some dir
strip_prefix (a ∷ root) [] = none
strip_prefix (a ∷ root) (b ∷ dir) = if bytes_eq a b then strip_prefix root dir else none

-- `dir.strip_prefix(&root)` with its context.
abbrev pub relative_to : FilePath → FilePath → Option FilePath → Result FilePath
relative_to root dir (some relative) = ok relative
relative_to root dir none = err (record {
  message = path_text dir ++ (codes " is not inside the bridge root " ++ path_text root);
  causes = codes "prefix not found" ∷ [];
})

unfoldable pub ensure_each : FilePath → FilePath → F (Unit {0})
ensure_each current [] = pure tt
ensure_each current (c ∷ cs) = do
  ensure_private_dir (current ++ c ∷ [])
  ensure_each (current ++ c ∷ []) cs

-- `bridge_root` is the outcome of the function of that name.
unfoldable pub ensure_bridge_dir : Result FilePath → FilePath → F (Unit {0})
unfolding ensure_each
ensure_bridge_dir bridge_root dir = do
  root ← lift bridge_root
  ensure_private_dir root
  relative ← lift (relative_to root dir (strip_prefix root dir))
  ensure_each root relative

unfoldable pub create_private_file : FilePath → F (Unit {0})
create_private_file p = do
  with_context (failed_to (codes "create") p) (open_truncated p)
  node ← with_context (failed_to (codes "inspect") p) (symlink_metadata p)
  if is_loose node.mode
      then with_context (failed_to (codes "restrict permissions on") p) (set_permissions p 0x180)
      else pure tt

-- The parent and the last component.
abbrev pub split_last : FilePath → Option (FilePath × Bytes)
split_last [] = none
split_last (c ∷ []) = some ([], c)
split_last (c ∷ d ∷ cs) = elim (split_last (d ∷ cs)) [
  | none ↦ none
  | some (parent, name) ↦ some (c ∷ parent, name)
]

abbrev pub tmp_name : Bytes → ℕ → ℕ → Bytes
tmp_name name pid unique =
    b'.' ∷ (name ++ (codes ".tmp." ++ (decimal pid ++ (b'.' ∷ decimal unique))))

-- The temporary file of the next write, and its writing.
unfoldable pub write_tmp : FilePath → Bytes → F (Unit {0})
write_tmp tmp contents = do
  create_private_file tmp
  with_context (failed_to (codes "write") tmp) (write_all tmp contents)
  with_context (failed_to (codes "flush") tmp) (system_call (pure tt))

-- `if let Err(error) = result { let _ = fs::remove_file(&tmp); return Err(error); }`
abbrev pub or_remove : FilePath → Result (Unit {0}) → F (Unit {0})
or_remove tmp (ok _) = pure tt
or_remove tmp (err e) = do removed ← attempt (remove_file tmp); lift (err e)

unfoldable pub replace_by : FilePath → FilePath → Bytes → F (Unit {0})
unfolding write_tmp
replace_by tmp path contents = do
  result ← attempt (write_tmp tmp contents)
  or_remove tmp result
  result ← attempt (with_context (failed_to (codes "replace") path) (rename tmp path))
  or_remove tmp result

-- A name that is not UTF-8, which replacing its invalid parts changes, is none for `to_str`.
unfoldable pub has_name : Option (FilePath × Bytes) → FilePath → Result (FilePath × Bytes)
has_name none path = bail (codes "path has no parent directory: " ++ path_text path)
has_name (some (parent, name)) path =
    if bytes_eq name (codes "..") || not (bytes_eq (from_utf8_lossy name) name)
    then bail (codes "path has no file name: " ++ path_text path)
    else ok (parent, name)

unfoldable pub write_atomic : FilePath → Bytes → F (Unit {0})
unfolding replace_by
write_atomic path contents = do
  place ← lift (has_name (split_last path) path)
  d ← get
  put (record d { tmp_counter = (d.tmp_counter + 1) % 2 ^ 64 })
  replace_by (place.0 ++ tmp_name place.1 d.pid d.tmp_counter ∷ []) path contents

-- `mode & 0o111 != 0`
abbrev pub may_execute : ℕ → Bool
may_execute mode = mode / 64 % 2 == 1 || mode / 8 % 2 == 1 || mode % 2 == 1

-- The metadata are those of the file that a link leads to.
unfoldable pub is_executable : Option Node → Bool
is_executable none = false
is_executable (some node) = elim node.kind [ regular contents ↦ may_execute node.mode | _ ↦ false ]
