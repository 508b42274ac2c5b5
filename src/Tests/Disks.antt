-- ===== src/Tests/Disks.antt =====
-- Files and directories, at a concrete disk.
use ignibyte_bridge.Prelude.{
  ◌≡◌, refl, ℕ, none, some, [], ◌∷◌, ◌++◌, All, codes, ok, bytes_eq, true, false,
}
use ignibyte_bridge.Files.{
  FilePath, Disk, Nodes, directory, path_eq, update, mkdir, symlink_metadata, set_permissions,
}
use ignibyte_bridge.Files.Operations.{
  ancestors, make_missing, create_dir_all, check_owned, ensure_private_dir, ensure_each,
  ensure_bridge_dir, write_atomic,
}
use ignibyte_bridge.Files.Private.{IsPrivate}
use ignibyte_bridge.Files.Bridge.{ensure_bridge-IsPrivate}
use ignibyte_bridge.Files.Atomic.{IsAtomic, write_atomic-IsAtomic}

abbrev bridge : FilePath
bridge = codes "b" ∷ []

abbrev session : FilePath
session = codes "b" ∷ codes "s" ∷ codes "web" ∷ []

-- The bridge's directory is open to others, and holds nothing.
abbrev nodes : Nodes
nodes [] = some (record { kind = directory; mode = 0x1ed; uid = 0 })
nodes (name ∷ []) = elim (bytes_eq name (codes "b")) [
  | true ↦ some (record { kind = directory; mode = 0x1ed; uid = 7 })
  | false ↦ none
]
nodes path = none

abbrev pub disk : ℕ → Disk
disk pid = record {
  nodes = nodes;
  euid = 7;
  pid = pid;
  tmp_counter = 3;
  calls = 0;
  fault = λ n. none;
  seen = [];
}

write_atomic-IsAtomic_example :
    IsAtomic
      (codes "b" ∷ codes "m" ∷ [])
      (codes "new")
      (disk 12)
      (write_atomic (codes "b" ∷ codes "m" ∷ []) (codes "new") (disk 12))
write_atomic-IsAtomic_example =
    write_atomic-IsAtomic (codes "b" ∷ codes "m" ∷ []) (codes "new") (disk 12)

made : (ensure_bridge_dir (ok bridge) session (disk 12)).0 ≡ ok tt
unfolding ensure_bridge_dir ensure_private_dir ensure_each create_dir_all make_missing ancestors
    mkdir symlink_metadata set_permissions check_owned update path_eq bytes_eq
made = refl

ensure_bridge-IsPrivate_example :
    (relative : FilePath) × (session ≡ bridge ++ relative)
    × All
        (IsPrivate (ensure_bridge_dir (ok bridge) session (disk 12)).1)
        (bridge ∷ ancestors bridge relative)
ensure_bridge-IsPrivate_example = ensure_bridge-IsPrivate bridge session (disk 12) made
