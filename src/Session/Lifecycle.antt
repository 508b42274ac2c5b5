-- ===== src/Session/Lifecycle.antt =====
-- The run of a session as all its writers see it: a restart, the supervisor's sections, the marks of a stop,
-- in any order and by any number of processes.
pub mod Ordering
pub mod Continuation
use ignibyte_bridge.Prelude.{
  Result-cases, ℕ, ◌+◌, ◌%◌, ◌^◌, ◌≤◌, ◌<◌, ◌≡◌, ◌≢◌, ◌⊎◌, refl, ◌∙◌, Bool-cases, inl, inr, Option,
  none, some, List, arith, Bytes, Result, ok,
}
use ignibyte_bridge.Session.World.{
  SessionMetadata, SessionStatus, starting, running, stopped, Json, RoundTrips, World,
}
use ignibyte_bridge.Session.Metadata.{
  current, stamped, load_metadata, save_metadata, is_other_generation, check_run_live, mark_stopped,
  record_supervisor, record_child, promote, with_child, child_token,
}
use ignibyte_bridge.Session.Metadata.Saving.{
  SaveOutcome, saved, unsaved, save-SaveOutcome, current-dir,
}
use ignibyte_bridge.Session.Metadata.Marking.{
  check_live, marked, mark_stopped-stale, mark_stopped-save,
}
use ignibyte_bridge.Session.Start.{initialize_session_files, new_run}
use ignibyte_bridge.Session.Start.Files.{and_return, initialize_unparsed, initialize-new_run}
use ignibyte_bridge.Paths.{parse_command}
use ignibyte_bridge.Procinfo.{process_start_time}
use ignibyte_bridge.Session.Lifecycle.Continuation.{
  Follows, stays, mark-Follows, supervisor-Follows, child-Follows, promote-Follows,
  initialize-Follows, elsewhere-Follows,
}
use ignibyte_bridge.Session.Lifecycle.Ordering.{
  Later, Later-refl, Later-trans, level, level_live, level_stopped, level_top, newer_run,
  next_generation_after, same_run, status-cases,
}

module _ (json : Json) (name : Bytes) where
  -- One section of one writer, or anything else that leaves this session's metadata file alone.
  pub data Writer (w : World) : World → Type 0 where
    marks :
        (exit_status : Option Bytes) (exit_code generation : Option ℕ)
        → Writer w (mark_stopped json name exit_status exit_code generation w).1
    records_supervisor : (pid : ℕ) → Writer w (record_supervisor json name pid w).1
    records_child :
        (generation : ℕ) (child_pid : Option ℕ) (command_parts : List Bytes)
        → Writer w (record_child json name generation child_pid command_parts w).1
    promotes : (generation : ℕ) → Writer w (promote json name generation w).1
    initializes :
        (split : Bytes → Result (List Bytes)) (cwd cmd : Bytes) (rows cols : Option ℕ)
        → Writer w (initialize_session_files json split name cwd cmd rows cols w).1
    elsewhere :
        {w' : World}
        → w'.root ≡ w.root
        → (w'.sessions name).metadata ≡ (w.sessions name).metadata
        → Writer w w'

  pub data Writers (w : World) : World → Type 0 where
    here : Writers w w
    next : {u v : World} → Writers w u → Writer u v → Writers w v

  -- How many starts are among the writers.
  unfoldable pub starts_in : {w w' : World} → Writer w w' → ℕ
  starts_in (initializes split cwd cmd rows cols) = 1
  starts_in (marks es ec g) = 0
  starts_in (records_supervisor pid) = 0
  starts_in (records_child g pid parts) = 0
  starts_in (promotes g) = 0
  starts_in (elsewhere r s) = 0

  unfoldable pub starts : {w w' : World} → Writers w w' → ℕ
  unfolding starts_in
  starts here = 0
  starts (next ws s) = starts ws + starts_in s

  Writer-Follows :
      RoundTrips json
      → (w : World) (m : SessionMetadata) → m.name ≡ name
      → current json w name ≡ ok m
      → {w' : World} (s : Writer w w') → m.generation + starts_in s < 2 ^ 64
      → Follows json name m (starts_in s) w'
  unfolding starts_in
  Writer-Follows rt w m n c (marks es ec g) b = mark-Follows json name rt w m n c es ec g
  Writer-Follows rt w m n c (records_supervisor pid) b = supervisor-Follows json name rt w m n c pid
  Writer-Follows rt w m n c (records_child g pid parts) b =
      child-Follows json name rt w m n c g pid parts
  Writer-Follows rt w m n c (promotes g) b = promote-Follows json name rt w m n c g
  Writer-Follows rt w m n c (initializes split cwd cmd rows cols) b =
      initialize-Follows json name rt w m n c split cwd cmd rows cols b
  Writer-Follows rt w m n c (elsewhere r s) b = elsewhere-Follows json name rt w m n c r s

  -- Whatever the writers of a session do, each section and each start in one piece, in any order and with any of
  -- their writes failing: its metadata stay readable, its generation never goes back nor rises by more
  -- than the number of starts, and within one run the status never does, from starting over running to stopped,
  -- and the exit information of a run that has stopped stays. The generation is taken not to wrap around at 64
  -- bits, and what is serialized to be read back.
  pub Writers-Follows :
      RoundTrips json
      → (m : SessionMetadata) (w w' : World) → m.name ≡ name
      → current json w name ≡ ok m
      → (ws : Writers w w') → m.generation + starts ws < 2 ^ 64
      → Follows json name m (starts ws) w'
  unfolding starts
  Writers-Follows rt m w w' n c here b = stays json name rt w m n c c
  Writers-Follows rt m w w' n c (next {u} ws s) b =
      let f = Writers-Follows rt m w u n c ws (omega arith) in
      let h = f.bounded in
      let g = Writer-Follows rt u f.now_there f.named f.loads s (omega arith) in
      let h' = g.bounded in
      record {
        now_there = g.now_there;
        loads = g.loads;
        named = g.named;
        later = Later-trans f.later g.later;
        bounded = omega arith;
      }
