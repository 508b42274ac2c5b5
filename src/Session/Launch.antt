-- ===== src/Session/Launch.antt =====
-- Starting a session, by `start_session_detached` with a process of its own and by the daemon's
-- `start_session_in_daemon` with a thread: what stands before the run, the start lock, and the launch.
pub mod Refusal
pub mod Success
use ignibyte_bridge.Prelude.{
  ℕ, Bool, true, false, ◌||◌, Option, none, some, List, [], ◌∷◌, ◌++◌, Bytes, bytes_eq, codes,
  Error, Result, ok, err, bail, if◌then◌else◌,
}
use ignibyte_bridge.Effects.{Stateful, ◌>>=◌, ◌>>◌, pure, lift, get, put, attempt, with_context}
use ignibyte_bridge.Paths.{validate_session_name, resolve_cwd, path_join}
use ignibyte_bridge.Files.{FilePath, Disk, F}
use ignibyte_bridge.Files.Operations.{ensure_bridge_dir, create_private_file}
use ignibyte_bridge.Session.World.{SessionMetadata, Json, Os, World, M, Env}
use ignibyte_bridge.Session.Process.{session_is_active}
use ignibyte_bridge.Session.Metadata.{dir_of, load_metadata}
use ignibyte_bridge.Session.Start.{initialize_session_files, wait_for_running_metadata}

-- What has been launched for a run: a process with these arguments, in a session of its own, or a thread of the
-- daemon.
pub data Launched : Type 0 where
  supervisor_process : (argv : List Bytes) → Launched
  supervisor_thread :
      (name cwd cmd : Bytes) (client_path : Option Bytes) (generation : ℕ) → Launched

-- `locked` tells of each session directory whether its start.lock is held.
pub record Host : Type 0 where
  pub world : World
  pub disk : Disk
  pub locked : Bytes → Bool
  pub launched : List Launched

abbrev pub H : Type 0 → Type 0
H A = Stateful Host A

abbrev pub in_world : {A : Type 0} → M A → H A
in_world m h = ((m h.world).0, record h { world = (m h.world).1 })

abbrev pub in_disk : {A : Type 0} → F A → H A
in_disk m h = ((m h.disk).0, record h { disk = (m h.disk).1 })

-- What the system gives: the components of a path, the arguments of `resolve_cwd`, `shell_words::split`, an error
-- of `flock` other than that the lock is held, and the outcomes of `current_exe` and of the spawn.
pub record Launcher : Type 0 where
  pub components : Bytes → FilePath
  pub current_dir : Result Bytes
  pub canonicalize : Bytes → Result Bytes
  pub is_dir : Bytes → Bool
  pub shell_split : Bytes → Result (List Bytes)
  pub flock_fault : Option Error
  pub current_exe : Result Bytes
  pub spawn : Result (Unit {0})

pub already_starting : Bytes → Bytes
already_starting name = codes "session '" ++ (name ++ codes "' is already starting")

pub already_running : Bytes → Bytes
already_running name = codes "session '" ++ (name ++ codes "' is already running")

abbrev pub components_of : Launcher → Result Bytes → Result FilePath
components_of l (ok root) = ok (l.components root)
components_of l (err e) = err e

abbrev pub take_lock : Option Error → Bytes → H (Unit {0})
take_lock none dir h = (ok tt, record h { locked = λ d. bytes_eq d dir || h.locked d })
take_lock (some e) dir h = (err e, h)

-- The file that is returned in the source stands for the lock in the state.
unfoldable pub acquire_start_lock : Launcher → Bytes → Bytes → H (Unit {0})
unfolding already_starting
acquire_start_lock l dir name = do
  with_context (codes "failed to open session start lock")
      (in_disk (create_private_file (l.components (path_join dir (codes "start.lock")))))
  h ← get
  if h.locked dir
      then lift (bail (already_starting name))
      else with_context (codes "failed to lock session start") (take_lock l.flock_fault dir)

-- The lock is dropped where the function returns.
abbrev pub release : Bytes → Host → Host
release dir h = record h { locked = λ d. if bytes_eq d dir then false else h.locked d }

abbrev pub releasing : {A : Type 0} → Bytes → H A → H A
releasing dir m h = ((m h).0, release dir (m h).1)

-- `if let Ok(metadata) = load_metadata(name) { if session_is_active(&metadata) { bail!(..) } }`
unfoldable pub check_inactive : Os → Bytes → Result SessionMetadata → Result (Unit {0})
check_inactive os name (err e) = ok tt
check_inactive os name (ok m) =
    if session_is_active os m then bail (already_running name) else ok tt

-- `--` stands before the name.
unfoldable pub supervisor_argv : Bytes → Bytes → Bytes → Bytes → List Bytes
supervisor_argv exe cwd cmd name =
    exe ∷ codes "supervisor" ∷ codes "--cwd" ∷ cwd ∷ codes "--cmd" ∷ cmd ∷ codes "--" ∷ name ∷ []

abbrev pub launch : Launched → H (Unit {0})
launch run h = (ok tt, record h { launched = h.launched ++ run ∷ [] })

module _ (json : Json) (env : Env) (l : Launcher) where
  -- What both starts do under the lock; `launching` is given the directory and the generation of the run.
  unfoldable pub start_locked :
      (Bytes → ℕ → H (Unit {0})) → Bytes → Bytes → Bytes → Option ℕ → Option ℕ → H SessionMetadata
  start_locked launching name cwd cmd rows cols = do
    loaded ← in_world (attempt (load_metadata json name))
    h ← get
    lift (check_inactive h.world.os name loaded)
    generation ← in_world (initialize_session_files json l.shell_split name cwd cmd rows cols)
    launching cwd generation
    in_world (wait_for_running_metadata json env name)

  unfoldable pub start_by :
      (Bytes → ℕ → H (Unit {0}))
      → Bytes
      → Option Bytes
      → Bytes
      → Option ℕ
      → Option ℕ
      → H SessionMetadata
  unfolding start_locked
  start_by launching name cwd cmd rows cols = do
    lift (validate_session_name name)
    cwd ← lift (resolve_cwd l.current_dir l.canonicalize l.is_dir cwd)
    h ← get
    dir ← lift (dir_of name h.world)
    in_disk (ensure_bridge_dir (components_of l h.world.root) (l.components dir))
    acquire_start_lock l dir name
    releasing dir (start_locked launching name cwd cmd rows cols)

  unfoldable pub launch_process : Bytes → Bytes → Bytes → ℕ → H (Unit {0})
  unfolding supervisor_argv
  launch_process name cmd cwd generation = do
    exe ← with_context (codes "failed to locate current executable") (lift l.current_exe)
    with_context (codes "failed to spawn session supervisor") (lift l.spawn)
    launch (supervisor_process (supervisor_argv exe cwd cmd name))

  unfoldable pub start_session_detached :
      Bytes → Option Bytes → Bytes → Option ℕ → Option ℕ → H SessionMetadata
  unfolding start_by launch_process
  start_session_detached name cwd cmd rows cols =
      start_by (launch_process name cmd) name cwd cmd rows cols

  -- The thread does `supervise_pty` and `mark_ended`.
  unfoldable pub start_session_in_daemon :
      Bytes → Option Bytes → Bytes → Option Bytes → Option ℕ → Option ℕ → H SessionMetadata
  unfolding start_by
  start_session_in_daemon name cwd cmd client_path rows cols =
      start_by (λ cwd generation. launch (supervisor_thread name cwd cmd client_path generation))
        name cwd cmd rows cols
