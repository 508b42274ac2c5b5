-- ===== src/Session/Metadata/Marking.antt =====
-- `mark_stopped` and the sections of the supervisor, branch by branch.
use ignibyte_bridge.Prelude.{
  ℕ, ==_iff, ◌≡◌, ◌≢◌, ◌⊎◌, refl, sym, ap, ◌∙◌, true, false, Bool-cases, inl, inr, Option, some,
  List, [], arith, Bytes, ◌==◌, Result, ok, err, Error,
}
use ignibyte_bridge.Session.World.{
  SessionMetadata, SessionStatus, starting, running, stopped, Json, RoundTrips, World,
}
use ignibyte_bridge.Session.Metadata.{
  is_stopped, current, load_metadata, save_metadata, is_other_generation, check_run_live,
  mark_stopped, record_child, promote, superseded, stopped_during_startup,
}
use ignibyte_bridge.Session.Metadata.Saving.{
  current-dir, SaveOutcome, saved, unsaved, save-SaveOutcome,
}

pub not_stopped : (s : SessionStatus) → s ≢ stopped → is_stopped s ≡ false
not_stopped starting h = refl
not_stopped running h = refl
not_stopped stopped h = absurd (h refl)

check_dead :
    (m : SessionMetadata) (generation : ℕ) (name : Bytes)
    → (m.generation ≢ generation) ⊎ (m.status ≡ stopped)
    → (e : Error) × (check_run_live m generation name ≡ err e)
unfolding check_run_live
check_dead m g name h = elim (Bool-cases (m.generation == g)) [
  | inr e ↦ (record { message = superseded name; causes = [] }, rw e refl)
  | inl e ↦ (record { message = stopped_during_startup name; causes = [] }, ground arith)
]

pub check_live :
    (m : SessionMetadata) (generation : ℕ) (name : Bytes)
    → check_run_live m generation name ≡ ok tt
    → m.status ≢ stopped
check_live m g name h s =
    let (x, e) = check_dead m g name (inr s) in let p : ok tt ≡ err x = rw h at e in cc

module _ (json : Json) where
  -- The metadata that `mark_stopped` writes.
  abbrev pub marked : World → SessionMetadata → Option Bytes → Option ℕ → SessionMetadata
  marked w m exit_status exit_code = record m {
    status = stopped;
    updated_at_unix = w.now;
    exit_status = exit_status;
    exit_code = exit_code;
  }

  pub saved-current :
      (w : World) {name : Bytes} {b a : Result SessionMetadata} {p : Result (Unit {0}) × World}
      → SaveOutcome json w name b a p
      → p.0 ≡ ok tt
      → current json p.1 name ≡ a
  saved-current w (saved r c f) e = c
  saved-current w (unsaved x r c f) e = let q : ok tt ≡ err x = sym e ∙ r in cc

  -- A mark by a supervisor of another generation, and any mark of a session that has stopped, succeeds and
  -- changes nothing at all: the exit information that was recorded first stays.
  pub mark_stopped-stale :
      (w : World) (name : Bytes) (m : SessionMetadata) (exit_status : Option Bytes)
      (exit_code generation : Option ℕ)
      → current json w name ≡ ok m
      → (is_other_generation m generation ≡ true) ⊎ (m.status ≡ stopped)
      → mark_stopped json name exit_status exit_code generation w ≡ (ok tt, w)
  unfolding mark_stopped load_metadata
  mark_stopped-stale w name m es ec g e (inl h) =
      let (dir, d) = current-dir json w name m e in rw (d, e, h) refl
  mark_stopped-stale w name m es ec g e (inr h) =
      let (dir, d) = current-dir json w name m e in rw (d, e, h) (ground arith)

  pub mark_stopped-save :
      (w : World) (name : Bytes) (m : SessionMetadata) (exit_status : Option Bytes)
      (exit_code generation : Option ℕ)
      → current json w name ≡ ok m
      → is_other_generation m generation ≡ false
      → m.status ≢ stopped
      → mark_stopped json name exit_status exit_code generation w
        ≡ save_metadata json (marked w m exit_status exit_code) w
  unfolding mark_stopped load_metadata
  mark_stopped-save w name m es ec g e h k =
      let (dir, d) = current-dir json w name m e in rw (d, e, h, not_stopped m.status k) refl

  -- A mark of the generation that is there, while it has not stopped, records the stop with this exit
  -- information and changes nothing else of the metadata but the time; or the write fails, and they stay.
  pub mark_stopped-live :
      RoundTrips json
      → (w : World) (m : SessionMetadata) (exit_status : Option Bytes)
        (exit_code generation : Option ℕ)
      → current json w m.name ≡ ok m
      → is_other_generation m generation ≡ false
      → m.status ≢ stopped
      → SaveOutcome json w m.name
          (ok m)
          (ok (marked w m exit_status exit_code))
          (mark_stopped json m.name exit_status exit_code generation w)
  mark_stopped-live rt w m es ec g e h k =
      rw (mark_stopped-save w m.name m es ec g e h k)
        (save-SaveOutcome json rt w m (marked w m es ec) e)

  -- A supervisor whose run was stopped or superseded fails to record its child and to publish the session as
  -- running, and changes nothing.
  pub promote-dead :
      (w : World) (name : Bytes) (generation : ℕ) (m : SessionMetadata) (child_pid : Option ℕ)
      (command_parts : List Bytes)
      → current json w name ≡ ok m
      → (m.generation ≢ generation) ⊎ (m.status ≡ stopped)
      → (e : Error) × (promote json name generation w ≡ (err e, w))
        × (record_child json name generation child_pid command_parts w ≡ (err e, w))
  unfolding promote record_child load_metadata
  promote-dead w name g m child parts e h =
      let (x, c) = check_dead m g name h in (x, rw (e, c) refl, rw (e, c) refl)

  -- The first mark of a run wins: behind a mark that has succeeded on a run that had not stopped, any other mark, by the
  -- supervisor of whatever generation or by none, succeeds too and changes nothing at all; so the metadata are
  -- those of the run, stopped, with the exit information that was recorded first.
  pub mark_stopped-first :
      RoundTrips json
      → (w : World) (m : SessionMetadata) (exit_status exit_status' : Option Bytes)
        (exit_code exit_code' generation' : Option ℕ)
      → current json w m.name ≡ ok m
      → m.status ≢ stopped
      → (mark_stopped json m.name exit_status exit_code (some m.generation) w).0 ≡ ok tt
      → let v = (mark_stopped json m.name exit_status exit_code (some m.generation) w).1 in
        let p = mark_stopped json m.name exit_status' exit_code' generation' v in
        (p ≡ (ok tt, v)) × (current json p.1 m.name ≡ ok (marked w m exit_status exit_code))
  mark_stopped-first rt w m es es' ec ec' g' c k h =
      let v = (mark_stopped json m.name es ec (some m.generation) w).1 in
      let live =
        mark_stopped-live rt w m es ec (some m.generation) c
          (rw ((==_iff m.generation m.generation).1 refl) refl) k in
      let now : current json v m.name ≡ ok (marked w m es ec) = saved-current w live h in
      let q = mark_stopped-stale v m.name (marked w m es ec) es' ec' g' now (inr refl) in
      (q, ap (λ p. current json p.1 m.name) q ∙ now)
