-- ===== src/Session/Locking.antt =====
-- The status lock of a session, `acquire_status_lock` of src/session.rs: the sections that take it, each in the steps
-- that others can see. A process waits for the lock, holds it, loads the metadata and then
-- saves what it makes of them, or leaves them; a process that ends gives up the lock. The processes, any
-- number of them, act in any order.
pub mod Sections
pub mod Serial
pub mod Restart
use ignibyte_bridge.Prelude.{
  ℕ, ◌+◌, ◌==◌, Bool, true, false, Option, none, some, List, Bytes, if◌then◌else◌, Result, ok, err,
  ◌≡◌,
}
use ignibyte_bridge.Procinfo.{process_start_time}
use ignibyte_bridge.Session.World.{SessionMetadata, running, stopped, Json, Os, World}
use ignibyte_bridge.Session.Metadata.{
  is_stopped, current, save_metadata, is_other_generation, check_run_live, with_child, mark_stopped,
  record_supervisor, record_child, promote, child_token,
}
use ignibyte_bridge.Session.Start.{initialize_session_files}

-- The code that holds the lock, with its arguments.
pub data Section : Type 0 where
  marking : (exit_status : Option Bytes) (exit_code generation : Option ℕ) → Section
  recording_supervisor : (pid : ℕ) → Section
  recording_child : (generation : ℕ) (child_pid : Option ℕ) (command_parts : List Bytes) → Section
  promoting : (generation : ℕ) → Section

-- What a section does behind its load.
pub data Plan : Type 0 where
  leaves : Plan
  saves : SessionMetadata → Plan

unfoldable pub if_live : Result (Unit {0}) → SessionMetadata → Plan
if_live (ok _) m = saves m
if_live (err e) m = leaves

-- A section has loaded `m` in the world `w`.
unfoldable pub planned : Bytes → Section → World → SessionMetadata → Plan
unfolding if_live
planned name (marking exit_status exit_code generation) w m =
    if is_other_generation m generation
    then leaves
    else if is_stopped m.status
    then leaves
    else saves (record m {
      status = stopped;
      updated_at_unix = w.now;
      exit_status = exit_status;
      exit_code = exit_code;
    })
planned name (recording_supervisor pid) w m = saves (record m {
  supervisor_pid = some pid;
  supervisor_start_time = process_start_time (w.os.stat pid);
  updated_at_unix = w.now;
})
planned name (recording_child generation child_pid command_parts) w m =
    let child = with_child m child_pid (child_token w child_pid) in
    if_live (check_run_live m generation name)
      (record child { command = command_parts; updated_at_unix = w.now })
planned name (promoting generation) w m =
    if_live (check_run_live m generation name)
      (record m { status = running; updated_at_unix = w.now })

unfoldable pub plan : Bytes → Section → World → Result SessionMetadata → Plan
plan name c w (ok m) = planned name c w m
plan name c w (err e) = leaves

-- Where a process is in `acquire_status_lock` and the section behind it.
pub data Phase : Type 0 where
  outside : Phase
  waits : Section → Phase
  holds : Section → Phase
  loaded : Section → Plan → Phase

unfoldable pub is_inside : Phase → Bool
is_inside outside = false
is_inside (waits c) = false
is_inside (holds c) = true
is_inside (loaded c p) = true

pub record System : Type 0 where
  pub world : World
  pub lock : Option ℕ
  pub phase : ℕ → Phase

-- The process `i` comes to another phase.
abbrev pub moved : ℕ → Phase → (ℕ → Phase) → ℕ → Phase
moved i p phase j = if j == i then p else phase j

module _ (json : Json) (name : Bytes) where
  -- A section that nothing interrupts.
  unfoldable pub whole : Section → World → World
  whole (marking exit_status exit_code generation) w =
      (mark_stopped json name exit_status exit_code generation w).1
  whole (recording_supervisor pid) w = (record_supervisor json name pid w).1
  whole (recording_child generation child_pid command_parts) w =
      (record_child json name generation child_pid command_parts w).1
  whole (promoting generation) w = (promote json name generation w).1

  unfoldable pub carry_out : Plan → World → World
  carry_out leaves w = w
  carry_out (saves m) w = (save_metadata json m w).1

  -- A start does not take the status lock. It is one step here.
  pub data Step (s : System) : System → Type 0 where
    asks :
        (i : ℕ) (c : Section)
        → s.phase i ≡ outside
        → Step s (record s { phase = moved i (waits c) s.phase })
    fails :
        (i : ℕ) (c : Section)
        → s.phase i ≡ waits c
        → Step s (record s { phase = moved i outside s.phase })
    acquires :
        (i : ℕ) (c : Section)
        → s.phase i ≡ waits c
        → s.lock ≡ none
        → Step s (record s { lock = some i; phase = moved i (holds c) s.phase })
    loads :
        (i : ℕ) (c : Section)
        → s.phase i ≡ holds c
        → Step s (record s {
          phase = moved i (loaded c (plan name c s.world (current json s.world name))) s.phase;
        })
    finishes :
        (i : ℕ) (c : Section) (p : Plan)
        → s.phase i ≡ loaded c p
        → Step s
            (record { world = carry_out p s.world; lock = none; phase = moved i outside s.phase })
    dies :
        (i : ℕ)
        → s.lock ≡ some i
        → Step s (record s { lock = none; phase = moved i outside s.phase })
    restarts :
        (split : Bytes → Result (List Bytes)) (cwd cmd : Bytes) (rows cols : Option ℕ)
        → Step s (record s {
          world = (initialize_session_files json split name cwd cmd rows cols s.world).1;
        })
    changes_elsewhere :
        (w : World)
        → w.root ≡ s.world.root
        → (w.sessions name).metadata ≡ (s.world.sessions name).metadata
        → Step s (record s { world = w })

  pub data Steps (s : System) : System → Type 0 where
    here : Steps s s
    next : {t u : System} → Steps s t → Step t u → Steps s u

  unfoldable pub is_start : {s t : System} → Step s t → ℕ
  is_start (restarts split cwd cmd rows cols) = 1
  is_start (asks i c h) = 0
  is_start (fails i c h) = 0
  is_start (acquires i c h k) = 0
  is_start (loads i c h) = 0
  is_start (finishes i c p h) = 0
  is_start (dies i h) = 0
  is_start (changes_elsewhere w r m) = 0

  -- How many starts there are.
  unfoldable pub starts_of : {s t : System} → Steps s t → ℕ
  unfolding is_start
  starts_of here = 0
  starts_of (next ss s) = starts_of ss + is_start s

  -- No start falls into a section.
  abbrev pub IsApart : {s t : System} → Steps s t → Type 0
  IsApart here = Unit
  IsApart (next {t} ss s) = IsApart ss × (is_start s ≡ 1 → t.lock ≡ none)
