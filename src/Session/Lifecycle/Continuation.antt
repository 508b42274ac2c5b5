-- ===== src/Session/Lifecycle/Continuation.antt =====
-- The metadata of a session from one section of its writers to the next: section by section, it only goes on.
use ignibyte_bridge.Prelude.{
  Result-cases, ℕ, ◌+◌, ◌%◌, ◌^◌, ◌≤◌, ◌<◌, ◌≡◌, refl, Bool-cases, inl, inr, Option, none, some,
  List, arith, Bytes, Result, ok,
}
use ignibyte_bridge.Session.World.{SessionMetadata, running, Json, RoundTrips, World}
use ignibyte_bridge.Session.Metadata.{
  current, stamped, load_metadata, save_metadata, is_other_generation, check_run_live, mark_stopped,
  record_supervisor, record_child, promote, with_child, child_token,
}
use ignibyte_bridge.Session.Metadata.Saving.{
  SaveOutcome, saved, unsaved, save-SaveOutcome, current-dir,
}
use ignibyte_bridge.Session.Metadata.Marking.{
  check_live, marked, mark_stopped-stale, mark_stopped-save,
}
use ignibyte_bridge.Session.Start.{initialize_session_files, new_run}
use ignibyte_bridge.Session.Start.Files.{and_return, initialize_unparsed, initialize-new_run}
use ignibyte_bridge.Paths.{parse_command}
use ignibyte_bridge.Procinfo.{process_start_time}
use ignibyte_bridge.Session.Lifecycle.Ordering.{
  Later, Later-refl, level, level_live, level_top, newer_run, next_generation_after, same_run,
  status-cases,
}

module _ (json : Json) (name : Bytes) where
  -- The metadata of the session in a world that its writers have left, with at most `k` starts.
  pub record Follows (m : SessionMetadata) (k : ℕ) (w : World) : Type 0 where
    pub now_there : SessionMetadata
    pub loads : current json w name ≡ ok now_there
    pub named : now_there.name ≡ name
    pub later : Later m now_there
    pub bounded : now_there.generation ≤ m.generation + k

  save-Follows :
      (w : World) (m m' : SessionMetadata) (p : Result (Unit {0}) × World)
      → m.name ≡ name
      → m'.name ≡ name
      → m'.generation ≡ m.generation
      → Later m m'
      → SaveOutcome json w name (ok m) (ok m') p
      → Follows m 0 p.1
  save-Follows w m m' p n n' g l (saved r c f) = record {
    now_there = m';
    loads = c;
    named = n';
    later = l;
    bounded = omega arith;
  }
  save-Follows w m m' p n n' g l (unsaved x r c f) = record {
    now_there = m;
    loads = c;
    named = n;
    later = Later-refl m;
    bounded = omega arith;
  }

  rename :
      (w : World) (n : Bytes) (before after : Result SessionMetadata)
      (p : Result (Unit {0}) × World)
      → n ≡ name
      → SaveOutcome json w n before after p
      → SaveOutcome json w name before after p
  rename w n before after p e s = rw e at s

  at_name :
      (w : World) (n : Bytes) (m : SessionMetadata)
      → n ≡ name
      → current json w name ≡ ok m
      → current json w n ≡ ok m
  at_name w n m e c = rw e c

  pub named-SaveOutcome :
      RoundTrips json
      → (w : World) (m m' : SessionMetadata) → m'.name ≡ name
      → current json w name ≡ ok m
      → SaveOutcome json w name (ok m) (ok (stamped w m')) (save_metadata json m' w)
  named-SaveOutcome rt w m m' n c =
      rename w m'.name (ok m) (ok (stamped w m')) (save_metadata json m' w) n
        (save-SaveOutcome json rt w m m' (at_name w m'.name m n c))

  module _ (rt : RoundTrips json) (w : World) (m : SessionMetadata) (n : m.name ≡ name)
      (c : current json w name ≡ ok m) where
    pub stays : {w' : World} {k : ℕ} → current json w' name ≡ ok m → Follows m k w'
    stays c' = record {
      now_there = m;
      loads = c';
      named = n;
      later = Later-refl m;
      bounded = omega arith;
    }

    saved-Follows :
        (m' : SessionMetadata)
        → m'.name ≡ name
        → m'.generation ≡ m.generation
        → Later m (stamped w m')
        → Follows m 0 (save_metadata json m' w).1
    saved-Follows m' n' g l =
        save-Follows w m (stamped w m') (save_metadata json m' w) n n' g l
          (named-SaveOutcome rt w m m' n' c)

    pub mark-Follows :
        (es : Option Bytes) (ec g : Option ℕ) → Follows m 0 (mark_stopped json name es ec g w).1
    unfolding level
    mark-Follows es ec g = elim (Bool-cases (is_other_generation m g)) [
      | inl h ↦ rw (mark_stopped-stale json w name m es ec g c (inl h)) (stays c)
      | inr h ↦ elim (status-cases m.status) [
        | inl s ↦ rw (mark_stopped-stale json w name m es ec g c (inr s)) (stays c)
        | inr s ↦ rw (mark_stopped-save json w name m es ec g c h s) (
            saved-Follows (marked json w m es ec) n refl
              (same_run refl (level_top m.status) (λ e. absurd (s e))))
      ]
    ]

    pub supervisor-Follows : (pid : ℕ) → Follows m 0 (record_supervisor json name pid w).1
    unfolding record_supervisor load_metadata
    supervisor-Follows pid =
        let (dir, d) = current-dir json w name m c in
        let m' = record m {
          supervisor_pid = some pid;
          supervisor_start_time = process_start_time (w.os.stat pid);
          updated_at_unix = w.now;
        } in
        rw (d, c, and_return json m.generation (save_metadata json m' w))
          (saved-Follows m' n refl (same_run refl (omega arith) (λ e. (refl, refl))))

    pub child-Follows :
        (g : ℕ) (pid : Option ℕ) (parts : List Bytes)
        → Follows m 0 (record_child json name g pid parts w).1
    unfolding record_child load_metadata
    child-Follows g pid parts = elim (Result-cases (check_run_live m g name)) [
      | inl (_, h) ↦ rw (c, h) (go (child_token w pid))
      | inr (x, h) ↦ rw (c, h) (stays c)
    ]
      where
        go :
            (t : Option ℕ)
            → Follows m 0
                (save_metadata json
                  (record (with_child m pid t) { command = parts; updated_at_unix = w.now })
                  w).1
        go none =
            saved-Follows
              (record (with_child m pid none) { command = parts; updated_at_unix = w.now }) n refl
              (same_run refl (omega arith) (λ e. (refl, refl)))
        go (some t) =
            saved-Follows
              (record (with_child m pid (some t)) { command = parts; updated_at_unix = w.now }) n
              refl (same_run refl (omega arith) (λ e. (refl, refl)))

    pub promote-Follows : (g : ℕ) → Follows m 0 (promote json name g w).1
    unfolding promote load_metadata level
    promote-Follows g = elim (Result-cases (check_run_live m g name)) [
      | inl (_, h) ↦
          let s = check_live m g name h in
          rw (c, h)
            (saved-Follows (record m { status = running; updated_at_unix = w.now }) n refl
              (same_run refl (level_live m.status s) (λ e. absurd (s e))))
      | inr (x, h) ↦ rw (c, h) (stays c)
    ]

    pub initialize-Follows :
        (split : Bytes → Result (List Bytes)) (cwd cmd : Bytes) (rows cols : Option ℕ)
        → m.generation + 1 < 2 ^ 64
        → Follows m 1 (initialize_session_files json split name cwd cmd rows cols w).1
    initialize-Follows split cwd cmd rows cols b = elim (Result-cases (parse_command split cmd)) [
      | inr (x, h) ↦ rw (initialize_unparsed json split name cwd cmd rows cols w x h) (stays c)
      | inl (command, h) ↦
          elim (initialize-new_run json rt split name cwd cmd rows cols w m command h c) [
            | inl c' ↦ stays c'
            | inr c' ↦ record {
              now_there = new_run name cwd command ((m.generation + 1) % 2 ^ 64) rows cols w.now;
              loads = c';
              named = refl;
              later = newer_run (next_generation_after m.generation b);
              bounded = omega arith;
            }
          ]
    ]

    pub elsewhere-Follows :
        {w' : World}
        → w'.root ≡ w.root
        → (w'.sessions name).metadata ≡ (w.sessions name).metadata
        → Follows m 0 w'
    unfolding current
    elsewhere-Follows r s = stays (rw (r, s) c)
