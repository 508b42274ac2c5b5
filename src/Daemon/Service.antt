-- ===== src/Daemon/Service.antt =====
-- `run_daemon` up to its accept loop, and the daemon's lock.
pub mod Exclusive
use ignibyte_bridge.Prelude.{
  Bool, true, false, Option, none, some, List, [], ◌∷◌, ◌++◌, Bytes, codes, Error, Result, ok, err,
  bail, if◌then◌else◌,
}
use ignibyte_bridge.Effects.{Stateful, ◌>>=◌, ◌>>◌, pure, lift, get, attempt, with_context}
use ignibyte_bridge.Paths.{socket_path, path_join}
use ignibyte_bridge.Files.{FilePath, Disk, F}
use ignibyte_bridge.Files.Operations.{ensure_private_dir, create_private_file}

-- What stands at the path of the socket: nothing, a file at which no daemon listens, or a daemon's socket.
pub data Socket : Type 0 where
  absent stale : Socket
  listening : (is_private : Bool) → Socket

-- `locked` tells whether a process holds daemon.lock.
pub record Site : Type 0 where
  pub disk : Disk
  pub locked : Bool
  pub socket : Socket

abbrev pub B : Type 0 → Type 0
B A = Stateful Site A

abbrev pub in_disk : {A : Type 0} → F A → B A
in_disk m s = ((m s.disk).0, record s { disk = (m s.disk).1 })

-- What the system gives: the components of a path, the outcome of `bridge_root`, an error of `flock` other
-- than that the lock is held, and the outcomes of removing the socket's file, of `bind` and of `chmod`.
pub record System : Type 0 where
  pub components : Bytes → FilePath
  pub bridge_root : Result Bytes
  pub flock_fault : Option Error
  pub remove_file : Result (Unit {0})
  pub bind : Result (Unit {0})
  pub set_permissions : Result (Unit {0})

pub another_daemon : Bytes
another_daemon = codes "another ignibyte-bridge daemon is already running or starting"

pub already_listening : Bytes → Bytes
already_listening path = codes "daemon already appears to be running at " ++ path

abbrev pub take_lock : Option Error → B (Unit {0})
take_lock none s = (ok tt, record s { locked = true })
take_lock (some e) s = (err e, s)

unfoldable pub acquire_daemon_lock : System → Bytes → B (Unit {0})
unfolding another_daemon
acquire_daemon_lock sys root = do
  with_context (codes "failed to open daemon lock")
      (in_disk (create_private_file (sys.components (path_join root (codes "daemon.lock")))))
  s ← get
  if s.locked
      then lift (bail another_daemon)
      else with_context (codes "failed to lock daemon") (take_lock sys.flock_fault)

abbrev pub set_socket : Result (Unit {0}) → Socket → B (Unit {0})
set_socket (ok _) socket s = (ok tt, record s { socket = socket })
set_socket (err e) socket s = (err e, s)

-- Where `chmod` fails, the listener is dropped and its file stays.
abbrev pub protect_socket : Result (Unit {0}) → B (Unit {0})
protect_socket (ok _) s = (ok tt, record s { socket = listening true })
protect_socket (err e) s = (err e, record s { socket = stale })

unfoldable pub clear_socket : System → Bytes → Socket → B (Unit {0})
unfolding already_listening
clear_socket sys path absent = pure tt
clear_socket sys path stale =
    with_context (codes "failed to remove stale socket " ++ path)
      (set_socket sys.remove_file absent)
clear_socket sys path (listening is_private) = lift (bail (already_listening path))

-- The lock is dropped where `run_daemon` returns an error; otherwise it is held while the daemon accepts.
abbrev pub unlock_on_error : Result Bytes × Site → Result Bytes × Site
unlock_on_error (ok path, s) = (ok path, s)
unlock_on_error (err e, s) = (err e, record s { locked = false })

unfoldable pub listen : System → B Bytes
unfolding clear_socket
listen sys = do
  path ← lift (socket_path sys.bridge_root)
  s ← get
  clear_socket sys path s.socket
  with_context (codes "failed to bind " ++ path) (set_socket sys.bind (listening false))
  with_context (codes "failed to chmod " ++ path) (protect_socket sys.set_permissions)
  pure path

-- It gives the path of the socket at which it goes on to accept.
unfoldable pub run_daemon : System → B Bytes
unfolding acquire_daemon_lock listen
run_daemon sys = do
  root ← lift sys.bridge_root
  in_disk (ensure_private_dir (sys.components root))
  acquire_daemon_lock sys root
  λ s. unlock_on_error (listen sys s)
