-- ===== src/Tests/Machines.antt =====
-- A second daemon, and `doctor`, at concrete machines.
use ignibyte_bridge.Prelude.{◌≡◌, refl, inr, true, false, none, some, [], ◌∷◌, codes, ok, err}
use ignibyte_bridge.Session.Supervisor.{resolved_in, Setting}
use ignibyte_bridge.Daemon.Service.{Site, System, listening, run_daemon}
use ignibyte_bridge.Daemon.Service.Exclusive.{IsTurnedAway, run_daemon-IsTurnedAway}
use ignibyte_bridge.Doctor.{Machine, resolved_program}
use ignibyte_bridge.Doctor.Agreement.{resolved_program-spawned}
use ignibyte_bridge.Paths.{child_path}
use ignibyte_bridge.Tests.Disks.{disk}

-- A daemon that listens, whose lock is free.
abbrev pub site : Site
site = record { disk = disk 12; locked = false; socket = listening true }

abbrev pub system : System
system = record {
  components = λ path. path ∷ [];
  bridge_root = ok (codes "/b");
  flock_fault = none;
  remove_file = ok tt;
  bind = ok tt;
  set_permissions = ok tt;
}

run_daemon-IsTurnedAway_example : IsTurnedAway site (run_daemon system site)
run_daemon-IsTurnedAway_example = run_daemon-IsTurnedAway system site (inr (true, refl))

abbrev pub machine : Machine
machine = record {
  current_dir = ok (codes "/");
  canonicalize = λ path. ok path;
  is_dir = λ path. true;
  shell_split = λ s. ok (s ∷ []);
  home = some (codes "/home/u");
  path_var = some (codes "/bin");
  shell_var = none;
  bridge_root = ok (codes "/b");
  is_executable = λ path. true;
  run = λ argv cwd path. err (record { message = codes "not found"; causes = [] });
}

abbrev setting_at_home : Setting
setting_at_home = record {
  home = some (codes "/home/u");
  own_path = codes "/bin";
  is_executable = λ p. true;
  shell_split = λ s. ok (s ∷ []);
  openpty = λ rows cols. ok tt;
  spawn_command = λ request. ok (some 71);
  open_input = err (record { message = codes "no FIFO"; causes = [] });
  take_ends = ok tt;
  wait_child = ok (codes "ExitStatus", 0);
}

resolved_program-spawned_example :
    resolved_in setting_at_home
      (child_path (some (codes "/home/u")) (codes "/bin") none)
      (codes "sh" ∷ [])
    ≡ resolved_program machine (codes "sh" ∷ []) ∷ []
resolved_program-spawned_example =
    resolved_program-spawned machine setting_at_home (codes "/home/u") (codes "sh") []
      (record { same_home = refl; same_path = refl; same_executable = refl }) refl
