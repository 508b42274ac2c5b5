-- ===== src/Tests/Starts.antt =====
-- Starts and supervisors, at a concrete session.
use ignibyte_bridge.Prelude.{
  ◌≡◌, refl, true, false, none, some, List, [], ◌∷◌, Bytes, bytes_eq, if◌then◌else◌, codes, Result,
  ok, err,
}
use ignibyte_bridge.Paths.{
  validate_session_name, session_dir, path_join, is_name_byte, starts_with, ends_with,
  parse_command, resolve_cwd,
}
use ignibyte_bridge.Files.{
  FilePath, mkdir, symlink_metadata, set_permissions, update, path_eq, open_truncated, remove_file,
}
use ignibyte_bridge.Files.Operations.{
  ensure_bridge_dir, create_private_file, ensure_private_dir, ensure_each, create_dir_all,
  make_missing, ancestors, check_owned,
}
use ignibyte_bridge.Session.World.{
  SessionMetadata, Json, running, as_i32, sleep, write_dir, set_dir,
}
use ignibyte_bridge.Session.Process.{pid_is_ours, process_alive, session_is_active}
use ignibyte_bridge.Session.Metadata.{
  current, parse_stored, load_metadata, encoded, save_metadata, mark_stopped, record_supervisor,
}
use ignibyte_bridge.Session.Lifecycle.Ordering.{Later-refl}
use ignibyte_bridge.Session.Progress.{past}
use ignibyte_bridge.Session.Progress.Ends.{Over}
use ignibyte_bridge.Session.Supervisor.Settling.{run_supervisor-Over}
use ignibyte_bridge.Procinfo.{process_start_time, read_to_string}
use ignibyte_bridge.Session.Supervisor.{
  Setting, Supervision, not_spawned, supervise_pty, mark_ended, run_supervisor,
}
use ignibyte_bridge.Session.Supervisor.Reaping.{IsReaped, supervise-IsReaped}
use ignibyte_bridge.Session.Launch.{
  Host, Launcher, start_by, start_locked, launch_process, check_inactive, acquire_start_lock,
  start_session_detached, start_session_in_daemon,
}
use ignibyte_bridge.Session.Start.{
  initialize_session_files, create_files, write_when, rotate_raw_log, rotate_clean_log, remove_fifo,
  make_fifo, create_raw_log, create_clean_log, create_screen, wait_for_running_metadata,
  poll_running, start_answer,
}
use ignibyte_bridge.Session.Launch.Success.{
  IsLaunch, ProcessOf, ThreadOf, start_detached-IsLaunch, start_in_daemon-IsLaunch,
}
use ignibyte_bridge.Session.Launch.Refusal.{IsRefused, is_starting, start-IsRefused}
use ignibyte_bridge.Tests.Codec.{codec, codec-RoundTrips, decode-encode}
use ignibyte_bridge.Tests.Runs.{run, world, quiet, loads}
use ignibyte_bridge.Tests.Disks.{disk}

-- One word.
abbrev one_word : Bytes → Result (List Bytes)
one_word s = ok (s ∷ [])

-- A child that runs and ends with code 0; the FIFO cannot be opened.
abbrev pub setting : Setting
setting = record {
  home = none;
  own_path = codes "/bin";
  is_executable = λ p. true;
  shell_split = one_word;
  openpty = λ rows cols. ok tt;
  spawn_command = λ request. ok (some 71);
  open_input = err (record { message = codes "no FIFO"; causes = [] });
  take_ends = ok tt;
  wait_child = ok (codes "ExitStatus", 0);
}

abbrev supervision : Supervision
supervision = record { world = world run; child = not_spawned; kills = 0 }

supervise-IsReaped_example :
    IsReaped
      (supervise_pty codec quiet setting (codes "web") (codes "/") (codes "sh") none 3 supervision)
supervise-IsReaped_example =
    supervise-IsReaped codec quiet setting (codes "ExitStatus", 0) refl (codes "web") (codes "/")
      (codes "sh") none 3 supervision refl

abbrev pub launcher : Launcher
launcher = record {
  components = λ path. path ∷ [];
  current_dir = ok (codes "/");
  canonicalize = λ path. ok path;
  is_dir = λ path. true;
  shell_split = one_word;
  flock_fault = none;
  current_exe = ok (codes "/bin/bridge");
  spawn = ok tt;
}

-- Another start of the session holds its lock.
abbrev pub host : Host
host = record { world = world run; disk = disk 12; locked = λ dir. true; launched = [] }

place : session_dir (ok (codes "/b")) (codes "web") ≡ ok (codes "/b/sessions/web")
unfolding session_dir validate_session_name path_join is_name_byte starts_with ends_with bytes_eq
place = refl

start-IsRefused_example :
    IsRefused host
      (start_session_detached codec quiet launcher (codes "web") none (codes "sh") none none host)
    × IsRefused host (
        start_session_in_daemon codec quiet launcher
          (codes "web")
          none
          (codes "sh")
          none
          none
          none
          host)
start-IsRefused_example =
    start-IsRefused codec quiet launcher (codes "web") none (codes "sh") none none none host
      (is_starting (codes "/b/sessions/web") place refl)

-- A command that does not parse.
abbrev unparsed : Setting
unparsed = record setting {
  shell_split = λ s. err (record { message = codes "missing quote"; causes = [] });
}

abbrev supervised : SessionMetadata
supervised = record run {
  supervisor_pid = some 80;
  supervisor_start_time = none;
  updated_at_unix = 107;
}

ran :
    (run_supervisor codec quiet unparsed (codes "web") (codes "/") (codes "sh") 80 supervision).0
    ≡ ok tt
unfolding run_supervisor supervise_pty mark_ended record_supervisor mark_stopped load_metadata
    save_metadata encoded current parse_stored session_dir validate_session_name path_join
    is_name_byte starts_with ends_with bytes_eq write_dir set_dir parse_command process_start_time
    read_to_string
ran = rw (decode-encode run, decode-encode supervised) refl

run_supervisor-Over_example :
    Over codec
      (codes "web")
      run
      (run_supervisor codec quiet unparsed
        (codes "web")
        (codes "/")
        (codes "sh")
        80
        supervision).1.world
run_supervisor-Over_example =
    run_supervisor-Over codec codec-RoundTrips (codes "web") run quiet
      (λ n w m c k. past m c k (Later-refl m)) unparsed (codes "/") (codes "sh") 80 supervision
      (loads run) refl ran

-- A host on which nothing holds the lock, no write fails, and a session whose metadata are there.
abbrev free : Host
free = record {
  world = record (world run) { write_fault = λ n. none };
  disk = disk 12;
  locked = λ dir. false;
  launched = [];
}

abbrev components : Bytes → FilePath
components path =
    if bytes_eq path (codes "/b")
    then codes "b" ∷ []
    else if bytes_eq path (codes "/b/sessions/web")
    then codes "b" ∷ codes "sessions" ∷ codes "web" ∷ []
    else codes "b" ∷ codes "sessions" ∷ codes "web" ∷ codes "start.lock" ∷ []

abbrev pub live : SessionMetadata
live = record run { status = running; generation = 4 }

-- What is read of any metadata.
abbrev one_run : Json
one_run = record { to_json = λ m. ok []; from_json = λ s. ok live }

started :
    (start_session_detached one_run quiet
      (record launcher { components = components })
      (codes "web")
      none
      (codes "sh")
      none
      none
      free).0
    ≡ ok live
unfolding start_session_detached start_by start_locked launch_process check_inactive
    session_is_active pid_is_ours acquire_start_lock resolve_cwd session_dir validate_session_name
    path_join is_name_byte starts_with ends_with bytes_eq ensure_bridge_dir ensure_private_dir
    ensure_each create_dir_all make_missing ancestors mkdir symlink_metadata set_permissions
    check_owned update path_eq create_private_file open_truncated initialize_session_files
    create_files remove_file write_when write_dir set_dir rotate_raw_log rotate_clean_log
    remove_fifo make_fifo create_raw_log create_clean_log create_screen parse_command load_metadata
    current parse_stored save_metadata encoded wait_for_running_metadata poll_running start_answer
    sleep as_i32 process_start_time read_to_string process_alive
started = refl

start_detached-IsLaunch_example :
    IsLaunch one_run quiet
      (record launcher { components = components })
      (codes "web")
      (ProcessOf one_run quiet
        (record launcher { components = components })
        (codes "web")
        (codes "sh"))
      none
      free
      (start_session_detached one_run quiet
        (record launcher { components = components })
        (codes "web")
        none
        (codes "sh")
        none
        none
        free).1
      live
start_detached-IsLaunch_example =
    start_detached-IsLaunch one_run quiet (record launcher { components = components })
      (codes "web") none (codes "sh") none none free live started

started_in_daemon :
    (start_session_in_daemon one_run quiet
      (record launcher { components = components })
      (codes "web")
      none
      (codes "sh")
      (some (codes "/bin"))
      none
      none
      free).0
    ≡ ok live
unfolding start_session_in_daemon start_by start_locked check_inactive session_is_active pid_is_ours
    acquire_start_lock resolve_cwd session_dir validate_session_name path_join is_name_byte
    starts_with ends_with bytes_eq ensure_bridge_dir ensure_private_dir ensure_each create_dir_all
    make_missing ancestors mkdir symlink_metadata set_permissions check_owned update path_eq
    create_private_file open_truncated initialize_session_files create_files remove_file write_when
    write_dir set_dir rotate_raw_log rotate_clean_log remove_fifo make_fifo create_raw_log
    create_clean_log create_screen parse_command load_metadata current parse_stored save_metadata
    encoded wait_for_running_metadata poll_running start_answer sleep as_i32 process_start_time
    read_to_string process_alive
started_in_daemon = refl

start_in_daemon-IsLaunch_example :
    IsLaunch one_run quiet
      (record launcher { components = components })
      (codes "web")
      (ThreadOf one_run quiet
        (record launcher { components = components })
        (codes "web")
        (codes "sh")
        (some (codes "/bin")))
      none
      free
      (start_session_in_daemon one_run quiet
        (record launcher { components = components })
        (codes "web")
        none
        (codes "sh")
        (some (codes "/bin"))
        none
        none
        free).1
      live
start_in_daemon-IsLaunch_example =
    start_in_daemon-IsLaunch one_run quiet (record launcher { components = components })
      (codes "web") none (codes "sh") (some (codes "/bin")) none none free live started_in_daemon
