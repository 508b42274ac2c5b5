-- ===== src/Session/Locking/Sections.antt =====
-- The sections under the status lock in one piece and in two: what is carried out is what was loaded for.
use ignibyte_bridge.Prelude.{
  Result-cases, ℕ, ◌≡◌, refl, sym, ap, ◌∙◌, Bool-cases, inl, inr, Option, none, some, List, Bytes,
  Result, ok, err, Error, Option-cases,
}
use ignibyte_bridge.Session.World.{SessionMetadata, Json, World, write_dir, set_dir}
use ignibyte_bridge.Session.Metadata.{
  is_stopped, dir_of, current, encoded, load_metadata, save_metadata, is_other_generation,
  check_run_live, mark_stopped, record_supervisor, record_child, promote,
}
use ignibyte_bridge.Session.Metadata.Marking.{mark_stopped-stale, mark_stopped-save, not_stopped}
use ignibyte_bridge.Session.Lifecycle.Ordering.{status-cases}
use ignibyte_bridge.Procinfo.{process_start_time}
use ignibyte_bridge.Session.Metadata.Saving.{current-dir}
use ignibyte_bridge.Session.Start.Files.{and_return}
use ignibyte_bridge.Session.Locking.{
  Section, marking, recording_supervisor, recording_child, promoting, Plan, leaves, saves, if_live,
  planned, plan, whole, carry_out,
}

-- The world `w` with the processes of `u`.
abbrev pub with_os : World → World → World
with_os u w = record w { os = u.os }

module _ (json : Json) (name : Bytes) where
  unread_mark :
      (es : Option Bytes) (ec g : Option ℕ) (w : World) (x : Error)
      → current json w name ≡ err x
      → (mark_stopped json name es ec g w).1 ≡ w
  unfolding mark_stopped load_metadata
  unread_mark es ec g w x e = elim (Result-cases (dir_of name w)) [
    | inl (dir, d) ↦ rw (d, e) refl
    | inr (y, d) ↦ rw d refl
  ]

  unread_supervisor :
      (pid : ℕ) (w : World) (x : Error)
      → current json w name ≡ err x
      → (record_supervisor json name pid w).1 ≡ w
  unfolding record_supervisor load_metadata
  unread_supervisor pid w x e = elim (Result-cases (dir_of name w)) [
    | inl (dir, d) ↦ rw (d, e) refl
    | inr (y, d) ↦ rw d refl
  ]

  mark-plan :
      (es : Option Bytes) (ec g : Option ℕ) (w : World)
      → (mark_stopped json name es ec g w).1
        ≡ carry_out json name (plan name (marking es ec g) w (current json w name)) w
  unfolding carry_out plan planned
  mark-plan es ec g w = elim (Result-cases (current json w name)) [
    | inr (x, e) ↦ rw e (unread_mark es ec g w x e)
    | inl (m, e) ↦ elim (Bool-cases (is_other_generation m g)) [
      | inl h ↦ rw (mark_stopped-stale json w name m es ec g e (inl h), e, h) refl
      | inr h ↦ elim (status-cases m.status) [
        | inl s ↦ rw (mark_stopped-stale json w name m es ec g e (inr s), e, h, s) refl
        | inr s ↦
            rw (mark_stopped-save json w name m es ec g e h s, e, h, not_stopped m.status s) refl
      ]
    ]
  ]

  found_supervisor :
      (pid : ℕ) (w : World) (m : SessionMetadata)
      → current json w name ≡ ok m
      → (record_supervisor json name pid w).1
        ≡ carry_out json name (planned name (recording_supervisor pid) w m) w
  unfolding carry_out planned record_supervisor load_metadata
  found_supervisor pid w m e =
      let (dir, d) = current-dir json w name m e in
      let m' = record m {
        supervisor_pid = some pid;
        supervisor_start_time = process_start_time (w.os.stat pid);
        updated_at_unix = w.now;
      } in
      rw (d, e) (and_return json m.generation (save_metadata json m' w))

  supervisor-plan :
      (pid : ℕ) (w : World)
      → (record_supervisor json name pid w).1
        ≡ carry_out json name (plan name (recording_supervisor pid) w (current json w name)) w
  unfolding carry_out plan
  supervisor-plan pid w = elim (Result-cases (current json w name)) [
    | inr (x, e) ↦ rw e (unread_supervisor pid w x e)
    | inl (m, e) ↦ rw e (found_supervisor pid w m e)
  ]

  child-plan :
      (g : ℕ) (pid : Option ℕ) (parts : List Bytes) (w : World)
      → (record_child json name g pid parts w).1
        ≡ carry_out json name (plan name (recording_child g pid parts) w (current json w name)) w
  unfolding carry_out plan planned record_child load_metadata if_live
  child-plan g pid parts w = elim (Result-cases (current json w name)) [
    | inr (x, e) ↦ rw e refl
    | inl (m, e) ↦ elim (Result-cases (check_run_live m g name)) [
      | inr (x, h) ↦ rw (e, h) refl
      | inl (_, h) ↦ rw (e, h) refl
    ]
  ]

  promote-plan :
      (g : ℕ) (w : World)
      → (promote json name g w).1
        ≡ carry_out json name (plan name (promoting g) w (current json w name)) w
  unfolding carry_out plan planned promote load_metadata if_live
  promote-plan g w = elim (Result-cases (current json w name)) [
    | inr (x, e) ↦ rw e refl
    | inl (m, e) ↦ elim (Result-cases (check_run_live m g name)) [
      | inr (x, h) ↦ rw (e, h) refl
      | inl (_, h) ↦ rw (e, h) refl
    ]
  ]

  -- A section that nothing interrupts loads, and carries its plan out.
  pub whole-plan :
      (c : Section) (w : World)
      → whole json name c w ≡ carry_out json name (plan name c w (current json w name)) w
  unfolding whole
  whole-plan (marking es ec g) w = mark-plan es ec g w
  whole-plan (recording_supervisor pid) w = supervisor-plan pid w
  whole-plan (recording_child g pid parts) w = child-plan g pid parts w
  whole-plan (promoting g) w = promote-plan g w

  -- The world of a save is that of the save elsewhere, but for the processes.
  pub save-os :
      (m : SessionMetadata) (w u : World)
      → (save_metadata json m w).1 ≡ with_os w (save_metadata json m (with_os u w)).1
  unfolding save_metadata write_dir set_dir encoded
  save-os m w u = elim (Result-cases (encoded json w m)) [
    | inr (x, e) ↦ rw e refl
    | inl (t, e) ↦ elim (Option-cases (w.write_fault w.writes)) [
      | inl f ↦ rw (e, f) refl
      | inr (y, f) ↦ rw (e, f) refl
    ]
  ]

  carry_out-os :
      (p : Plan) (w u : World)
      → carry_out json name p w ≡ with_os w (carry_out json name p (with_os u w))
  unfolding carry_out
  carry_out-os leaves w u = refl
  carry_out-os (saves m) w u = save-os m w u

  -- The clock that a plan was made by does not matter: saving stamps the time.
  plan-clock :
      (c : Section) (w u : World) (r : Result SessionMetadata)
      → carry_out json name (plan name c u r) w
        ≡ carry_out json name (plan name c (with_os u w) r) w
  unfolding carry_out plan planned if_live save_metadata encoded
  plan-clock c w u (err x) = refl
  plan-clock (marking es ec g) w u (ok m) = elim (Bool-cases (is_other_generation m g)) [
    | inl h ↦ rw h refl
    | inr h ↦ elim (Bool-cases (is_stopped m.status)) [
      | inl s ↦ rw (h, s) refl
      | inr s ↦ rw (h, s) refl
    ]
  ]
  plan-clock (recording_supervisor pid) w u (ok m) = refl
  plan-clock (recording_child g none parts) w u (ok m) =
      elim (Result-cases (check_run_live m g name)) [
        | inr (x, h) ↦ rw h refl
        | inl (_, h) ↦ rw h refl
      ]
  plan-clock (recording_child g (some pid) parts) w u (ok m) =
      elim (Result-cases (check_run_live m g name)) [
        | inr (x, h) ↦ rw h refl
        | inl (_, h) ↦ elim (Option-cases (process_start_time (u.os.stat pid))) [
          | inl t ↦ rw (h, t) refl
          | inr (n, t) ↦ rw (h, t) refl
        ]
      ]
  plan-clock (promoting g) w u (ok m) = elim (Result-cases (check_run_live m g name)) [
    | inr (x, h) ↦ rw h refl
    | inl (_, h) ↦ rw h refl
  ]

  -- A plan that was made of these metadata, in whatever world, is carried out as the whole section is among the
  -- processes of that world.
  pub carry_out-whole :
      (c : Section) (w u : World)
      → carry_out json name (plan name c u (current json w name)) w
        ≡ with_os w (whole json name c (with_os u w))
  unfolding current
  carry_out-whole c w u =
      let p = plan name c (with_os u w) (current json w name) in
      plan-clock c w u (current json w name)
      ∙ carry_out-os p w u
      ∙ ap (with_os w) (sym (whole-plan c (with_os u w)))
