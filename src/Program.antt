-- ===== src/Program.antt =====
-- The whole program: the commands of src/main.rs and the requests of the daemon on the operations of src/session.rs,
-- src/daemon.rs and src/doctor.rs themselves, over one state.
pub mod Agreement
pub mod Ends
use ignibyte_bridge.Prelude.{
  ℕ, Bool, Option, none, some, List, [], ◌∷◌, ◌++◌, Bytes, codes, Result, ok, err,
}
use ignibyte_bridge.Effects.{Stateful, ◌>>=◌, ◌>>◌, pure, lift, get, attempt}
use ignibyte_bridge.Paths.{resolve_cwd, sessions_root, socket_path}
use ignibyte_bridge.Files.Operations.{ensure_bridge_dir}
use ignibyte_bridge.Session.World.{Json, World, M, Env}
use ignibyte_bridge.Session.Input.{Channel, send_input_silent, send_keys_silent}
use ignibyte_bridge.Session.Reports.{
  DirEntry, read_output_text, read_screen_text, status_text, list_sessions_text,
}
use ignibyte_bridge.Session.Stop.{stop_session_silent}
use ignibyte_bridge.Session.Launch.{
  Host, H, Launcher, in_world, in_disk, components_of, start_session_detached,
  start_session_in_daemon,
}
use ignibyte_bridge.Session.Supervisor.{Setting, not_spawned, run_supervisor}
use ignibyte_bridge.Doctor.{Machine, doctor}
use ignibyte_bridge.Dispatch.{Operations}
use ignibyte_bridge.Daemon.Service.{Socket, System, run_daemon}
use ignibyte_bridge.Daemon.Shutdown.{shutdown_sessions_for_daemon}

-- What the system and other crates give to all the parts.
pub record Platform : Type 0 where
  pub json : Json
  pub env : Env
  pub launcher : Launcher
  pub channel : Channel
  pub modified : Bytes → Option ℕ
  pub is_utf8 : Bytes → Bool
  -- The outcome of `read_dir` on the directory of the sessions.
  pub read_dir : World → Result (List (Result DirEntry))
  pub setting : Setting
  -- The PID of the process.
  pub pid : ℕ
  pub machine : Machine
  pub system : System

-- The sessions and files, the daemon's lock and its socket.
pub record Program : Type 0 where
  pub host : Host
  pub daemon_locked : Bool
  pub socket : Socket

abbrev pub in_host : {A : Type 0} → H A → Stateful Program A
in_host m p = ((m p.host).0, record p { host = (m p.host).1 })

-- A function that only looks at the world.
abbrev pub asking : {A : Type 0} → (World → Result A) → H A
asking f h = (f h.world, h)

abbrev pub list_in : Platform → H Bytes
list_in k = do
  h ← get
  dir ← lift (sessions_root h.world.root)
  ensured ← in_disk (
      attempt
        (ensure_bridge_dir (components_of k.launcher h.world.root) (k.launcher.components dir)))
  asking (λ w. list_sessions_text k.json k.modified ensured (k.read_dir w) w)

abbrev pub supervise_in : Platform → Bytes → Bytes → Bytes → M Bytes
supervise_in k name cwd cmd w =
    let p =
      run_supervisor k.json k.env k.setting name cwd cmd k.pid
        (record { world = w; child = not_spawned; kills = 0 }) in
    (elim p.0 [ ok _ ↦ ok [] | err e ↦ err e ], p.1.world)

-- It prints where it listens, and goes on to accept.
abbrev pub daemon_in : Platform → Stateful Program Bytes
daemon_in k p =
    let q =
      run_daemon k.system
        (record { disk = p.host.disk; locked = p.daemon_locked; socket = p.socket }) in
    (
      elim q.0 [
        | ok path ↦ ok (codes "ignibyte-bridge daemon listening on " ++ (path ++ b'\n' ∷ []))
        | err e ↦ err e
      ],
      record p {
        host = record p.host { disk = q.1.disk };
        daemon_locked = q.1.locked;
        socket = q.1.socket;
      },
    )

-- What `doctor` prints where it succeeds.
abbrev pub examine : Machine → Bytes → Option Bytes → Result Bytes
examine m cmd cwd = let q = doctor m cmd cwd [] in elim q.0 [ ok _ ↦ ok q.1 | err e ↦ err e ]

abbrev pub operations : Platform → Operations Program
operations k = record {
  resolve_cwd = λ cwd.
      lift (resolve_cwd k.launcher.current_dir k.launcher.canonicalize k.launcher.is_dir cwd);
  start_session_detached = λ name cwd cmd rows cols.
      in_host (start_session_detached k.json k.env k.launcher name cwd cmd rows cols);
  start_session_in_daemon = λ name cwd cmd path rows cols.
      in_host (start_session_in_daemon k.json k.env k.launcher name cwd cmd path rows cols);
  send_input_silent = λ name text no_enter.
      in_host (in_world (send_input_silent k.json k.channel k.env name text no_enter));
  send_keys_silent = λ name keys. in_host (in_world (send_keys_silent k.json k.channel name keys));
  read_output_text = λ name tail raw. in_host (asking (λ w. read_output_text w name tail raw));
  read_screen_text = λ name tail. in_host (asking (λ w. read_screen_text k.is_utf8 w name tail));
  status_text = λ name. in_host (asking (λ w. status_text k.json k.modified w name));
  list_sessions_text = in_host (list_in k);
  stop_session_silent = λ name. in_host (in_world (stop_session_silent k.json k.env name));
  run_daemon = daemon_in k;
  run_doctor = λ cmd cwd. lift (examine k.machine cmd cwd);
  run_supervisor = λ name cwd cmd. in_host (in_world (supervise_in k name cwd cmd));
}

-- `entries` as the shutdown finds them: the directory of the sessions is there.
abbrev pub shutdown_all : Platform → Stateful Program Bytes
shutdown_all k =
    in_host (in_world (λ w. shutdown_sessions_for_daemon k.json k.env (some (k.read_dir w)) w))

-- `socket_path()` in a state.
abbrev pub socket_of : Program → Result Bytes
socket_of p = socket_path p.host.world.root
