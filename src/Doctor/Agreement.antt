-- ===== src/Doctor/Agreement.antt =====
-- `doctor` and a run agree on the program.
use ignibyte_bridge.Prelude.{◌≡◌, refl, Option, none, some, List, [], ◌∷◌, Bytes}
use ignibyte_bridge.Paths.{child_path}
use ignibyte_bridge.Session.Supervisor.{Setting, first_resolved, resolved_in}
use ignibyte_bridge.Doctor.{Machine, or_else, doctor_path, resolved_program}

-- A supervisor of a direct run finds the machine that `doctor` looks at.
pub record IsSeen (m : Machine) (t : Setting) : Type 0 where
  pub same_home : t.home ≡ m.home
  pub same_path : t.own_path ≡ or_else [] m.path_var
  pub same_executable : t.is_executable ≡ m.is_executable

first_resolved_lem :
    (word : Bytes) (words : List Bytes) (r : Option Bytes)
    → first_resolved r (word ∷ words) ≡ or_else word r ∷ words
first_resolved_lem word words none = refl
first_resolved_lem word words (some program) = refl

-- Where there is a home directory, the program that `doctor` reports for a command is the one that a direct run
-- of the command spawns, with the command's other words behind it.
pub resolved_program-spawned :
    (m : Machine) (t : Setting) (home word : Bytes) (words : List Bytes)
    → IsSeen m t
    → m.home ≡ some home
    → resolved_in t (child_path t.home t.own_path none) (word ∷ words)
      ≡ resolved_program m (word ∷ words) ∷ words
unfolding resolved_program doctor_path child_path
resolved_program-spawned m t home word words seen h =
    rw (seen.same_home, seen.same_path, seen.same_executable, h) (first_resolved_lem word words _)
