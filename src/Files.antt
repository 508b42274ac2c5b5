-- ===== src/Files.antt =====
-- The file system that src/paths.rs works on, and the system calls it makes. A path is absolute, as the list of its
-- components. The model opens a path at its own name: no link stands among the parents of a path that is
-- opened. The operations are in Files/Operations.
pub mod Operations
pub mod Nodes
pub mod Private
pub mod Bridge
pub mod Temporary
pub mod Contents
pub mod Atomic
use ignibyte_bridge.Prelude.{
  ℕ, suc, ◌+◌, ◌/◌, ◌%◌, ◌^◌, ◌==◌, Bool, true, false, not, ◌&&◌, ◌||◌, Option, none, some, List,
  [], ◌∷◌, ◌++◌, Bytes, if◌then◌else◌, bytes_eq, codes, Error, Result, ok, err, bail,
}
use ignibyte_bridge.Effects.{Stateful, ◌>>=◌, ◌>>◌, pure, lift, get, put, attempt, with_context}
use ignibyte_bridge.Text.{join, decimal}

abbrev pub FilePath : Type 0
FilePath = List Bytes

unfoldable pub path_eq : FilePath → FilePath → Bool
path_eq [] [] = true
path_eq (a ∷ p) (b ∷ q) = bytes_eq a b && path_eq p q
path_eq _ _ = false

-- `Path::display`
unfoldable pub path_text : FilePath → Bytes
path_text p = b'/' ∷ join (b'/' ∷ []) p

-- What a name stands for. To open a `special` file, such as a FIFO, for writing is taken to fail.
pub data FileKind : Type 0 where
  directory special : FileKind
  regular : (contents : Bytes) → FileKind
  symlink : (to_directory : Bool) → FileKind

-- `mode` holds the twelve permission bits.
pub record Node : Type 0 where
  pub kind : FileKind
  pub mode : ℕ
  pub uid : ℕ

abbrev pub Nodes : Type 0
Nodes = FilePath → Option Node

-- `fault` gives the error that the n-th system call meets, if it meets one. `seen` holds the states of the file
-- system that others may have seen since, oldest first.
pub record Disk : Type 0 where
  pub nodes : Nodes
  pub euid : ℕ
  pub pid : ℕ
  pub tmp_counter : ℕ
  pub calls : ℕ
  pub fault : ℕ → Option Error
  pub seen : List Nodes

abbrev pub F : Type 0 → Type 0
F A = Stateful Disk A

abbrev pub attempted : {A : Type 0} → Option Error → F A → F A
attempted none m d = m d
attempted (some e) m d = (err e, d)

abbrev pub system_call : {A : Type 0} → F A → F A
system_call m d = attempted (d.fault d.calls) m (record d { calls = suc d.calls })

unfoldable pub update : FilePath → Option Node → Nodes → Nodes
update p node nodes = λ q. if path_eq q p then node else nodes q

abbrev pub become : Nodes → F (Unit {0})
become nodes d = (ok tt, record d { nodes = nodes; seen = d.seen ++ nodes ∷ [] })

abbrev pub set_node : FilePath → Node → F (Unit {0})
set_node p node d = become (update p (some node) d.nodes) d

abbrev pub not_found : Error
not_found = record { message = codes "No such file or directory (os error 2)"; causes = [] }

-- `mkdir` with mode 0o700.
unfoldable pub mkdir : FilePath → F (Unit {0})
mkdir p = system_call (λ d. set_node p (record { kind = directory; mode = 0x1c0; uid = d.euid }) d)

abbrev pub found : Option Node → Result Node
found none = err not_found
found (some node) = ok node

unfoldable pub symlink_metadata : FilePath → F Node
symlink_metadata p = system_call (λ d. (found (d.nodes p), d))

abbrev pub with_mode : FilePath → ℕ → Option Node → F (Unit {0})
with_mode p mode none = lift (err not_found)
with_mode p mode (some node) = set_node p (record node { mode = mode })

unfoldable pub set_permissions : FilePath → ℕ → F (Unit {0})
set_permissions p mode = system_call (λ d. with_mode p mode (d.nodes p) d)

abbrev pub opened : FilePath → FileKind → Node → F (Unit {0})
opened p (regular contents) node = set_node p (record node { kind = regular [] })
opened p directory node = lift (bail (codes "Is a directory (os error 21)"))
opened p (symlink to_directory) node =
    lift (bail (codes "Too many levels of symbolic links (os error 40)"))
opened p special node = lift (bail (codes "No such device or address (os error 6)"))

abbrev pub open_found : FilePath → Option Node → F (Unit {0})
open_found p none = λ d. set_node p (record { kind = regular []; mode = 0x180; uid = d.euid }) d
open_found p (some node) = opened p node.kind node

-- `open` with `O_WRONLY | O_CREAT | O_TRUNC | O_NOFOLLOW` and mode 0o600.
unfoldable pub open_truncated : FilePath → F (Unit {0})
open_truncated p = system_call (λ d. open_found p (d.nodes p) d)

abbrev pub longer : FilePath → ℕ → FileKind → Node → F (Unit {0})
longer p byte (regular contents) node =
    set_node p (record node { kind = regular (contents ++ byte ∷ []) })
longer p byte _ node = pure tt

abbrev pub append_found : FilePath → ℕ → Option Node → F (Unit {0})
append_found p byte none = pure tt
append_found p byte (some node) = longer p byte node.kind node

-- One more byte of a file that is open for writing.
unfoldable pub append_byte : FilePath → ℕ → F (Unit {0})
append_byte p byte = system_call (λ d. append_found p byte (d.nodes p) d)

-- `write_all`, which `write` may serve in pieces of any size: byte by byte, others see each prefix.
unfoldable pub write_all : FilePath → Bytes → F (Unit {0})
unfolding append_byte
write_all p [] = pure tt
write_all p (byte ∷ bytes) = do append_byte p byte; write_all p bytes

unfoldable pub remove_file : FilePath → F (Unit {0})
remove_file p = system_call (λ d. become (update p none d.nodes) d)

abbrev pub is_directory : Option Node → Bool
is_directory none = false
is_directory (some node) = elim node.kind [ directory ↦ true | _ ↦ false ]

abbrev pub renamed : FilePath → FilePath → Option Node → F (Unit {0})
renamed p q none = lift (err not_found)
renamed p q (some node) = λ d. become (update p none (update q (some node) d.nodes)) d

-- `rename`: one step for those who look, of a file onto anything but a directory.
unfoldable pub rename : FilePath → FilePath → F (Unit {0})
rename p q = system_call (λ d.
    if is_directory (d.nodes q)
    then (bail (codes "Is a directory (os error 21)"), d)
    else renamed p q (d.nodes p) d)
