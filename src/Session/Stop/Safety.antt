-- ===== src/Session/Stop/Safety.antt =====
-- Whom a stop may signal.
use ignibyte_bridge.Prelude.{
  Result-cases, Result, ap, ==_iff, ◌==◌, ℕ, ◌≡◌, ◌≢◌, ◌⊎◌, refl, inl, inr, true, false, Bool-cases,
  Option, some, none, [], ◌++◌, Bytes, codes, ok, is_empty,
}
use ignibyte_bridge.Paths.{validate_session_name}
use ignibyte_bridge.Procinfo.{process_start_time}
use ignibyte_bridge.Session.World.{
  ℤ, as_i32, SessionMetadata, stopped, no_such_process, Os, Json, RoundTrips, World, Env,
}
use ignibyte_bridge.Session.Process.{process_alive, option_eq, pid_is_ours, is_positive, negate}
use ignibyte_bridge.Session.Process.Termination.{
  Effects, Effects-silent, then-Effects, terminate-Effects,
}
use ignibyte_bridge.Session.Metadata.{
  dir_of, is_stopped, is_other_generation, current, load_metadata, mark_stopped,
}
use ignibyte_bridge.Session.Metadata.Saving.{save-Frame, SaveOutcome, saved, unsaved}
use ignibyte_bridge.Session.Metadata.Marking.{not_stopped, marked, mark_stopped-live}
use ignibyte_bridge.Session.Stop.{stop_process, stop_run, stop_session_silent}

-- The process of a recorded PID that fits an `i32`, or its group.
pub record Recorded (pid : Option ℕ) (target : ℤ) : Type 0 where
  pub number : ℕ
  pub is_recorded : pid ≡ some number
  pub is_process : is_positive (as_i32 number) ≡ true
  pub is_target : (target ≡ as_i32 number) ⊎ (target ≡ negate (as_i32 number))

process-Effects :
    {P : ℤ → Type 0} (env : Env) (who : Bytes) (pid token : Option ℕ) (w : World)
    → ((target : ℤ) → Recorded pid target → P target)
    → Effects P 40 w (stop_process env who pid token w).1
unfolding stop_process
process-Effects env who none token w h = Effects-silent refl refl
process-Effects {P} env who (some n) token w h =
    elim (Bool-cases (pid_is_ours w.os (some n) token)) [
      | inr e ↦ rw e (Effects-silent refl refl)
      | inl e ↦ rw e (
          terminate-Effects env (as_i32 n) w (λ p. (
            h (as_i32 n)
                (record { number = n; is_recorded = refl; is_process = p; is_target = inl refl }),
            h (negate (as_i32 n))
                (record { number = n; is_recorded = refl; is_process = p; is_target = inr refl }),
          )))
    ]

-- A process that is not positively ours is left alone.
process-foreign :
    (env : Env) (who : Bytes) (pid token : Option ℕ) (w : World)
    → pid_is_ours w.os pid token ≡ false
    → stop_process env who pid token w ≡ (ok [], w)
unfolding stop_process
process-foreign env who none token w h = refl
process-foreign env who (some n) token w h = rw h refl

-- What makes sure that a recorded process is not ours to signal: no PID is on record, no process has it any more,
-- or a start time is on record and that of the process with this PID is not known to be the same.
pub data IsForeign (os : Os) (pid token : Option ℕ) : Type 0 where
  unrecorded : pid ≡ none → IsForeign os pid token
  gone : (n : ℕ) → pid ≡ some n → os.kill (as_i32 n) ≡ no_such_process → IsForeign os pid token
  reused :
      (n t : ℕ)
      → pid ≡ some n
      → token ≡ some t
      → process_start_time (os.stat n) ≢ some t
      → IsForeign os pid token

option_neq : (o : Option ℕ) (t : ℕ) → o ≢ some t → option_eq o t ≡ false
option_neq none t h = refl
option_neq (some n) t h = elim (Bool-cases (n == t)) [
  | inr e ↦ e
  | inl e ↦ absurd (h (ap some ((==_iff n t).0 e)))
]

foreign :
    (os : Os) (pid token : Option ℕ) → IsForeign os pid token → pid_is_ours os pid token ≡ false
unfolding pid_is_ours process_alive
foreign os pid token (unrecorded e) = rw e refl
foreign os pid token (gone n e k) = rw (e, process_alive, k) refl
foreign os pid token (reused n t e f h) = elim (Bool-cases (process_alive os (as_i32 n))) [
  | inl a ↦ rw (e, f, a) (option_neq (process_start_time (os.stat n)) t h)
  | inr a ↦ rw (e, a) refl
]

module _ (json : Json) where
  -- A session that has stopped already is left as it is: nothing is signalled and its metadata, with the
  -- exit information, are not written.
  pub stop_stopped :
      (env : Env) (w : World) (name : Bytes) (m : SessionMetadata)
      → validate_session_name name ≡ ok tt
      → current json w name ≡ ok m
      → m.status ≡ stopped
      → stop_session_silent json env name w ≡ (ok tt, w)
  unfolding stop_session_silent load_metadata
  stop_stopped env w name m v c s = rw (v, c, s) refl

  same_generation : (m : SessionMetadata) → is_other_generation m (some m.generation) ≡ false
  same_generation m = rw ((==_iff m.generation m.generation).1 refl) refl

  outcome-signals :
      {w : World} {name : Bytes} {b a : Result SessionMetadata} {p : Result (Unit {0}) × World}
      → SaveOutcome json w name b a p
      → p.1.signals ≡ w.signals
  outcome-signals (saved r c f) = f.same_signals
  outcome-signals (unsaved x r c f) = f.same_signals

  outcome-sleeps :
      {w : World} {name : Bytes} {b a : Result SessionMetadata} {p : Result (Unit {0}) × World}
      → SaveOutcome json w name b a p
      → p.1.sleeps ≡ w.sleeps
  outcome-sleeps (saved r c f) = f.same_sleeps
  outcome-sleeps (unsaved x r c f) = f.same_sleeps

  -- If neither recorded PID is positively that of our processes any more, a stop signals nothing and does not
  -- wait: it only marks the run stopped.
  pub stop_foreign :
      (env : Env) (w : World) (name : Bytes) (m : SessionMetadata)
      → validate_session_name name ≡ ok tt
      → current json w name ≡ ok m
      → m.status ≢ stopped
      → pid_is_ours w.os m.child_pid m.child_start_time ≡ false
      → pid_is_ours w.os m.supervisor_pid m.supervisor_start_time ≡ false
      → stop_session_silent json env name w
        ≡ mark_stopped json name (some (codes "stopped by user")) none (some m.generation) w
  unfolding stop_session_silent stop_run load_metadata
  stop_foreign env w name m v c s h k =
      rw
        (
          v,
          c,
          not_stopped m.status s,
          process-foreign env (codes "child pid ") m.child_pid m.child_start_time w h,
          process-foreign env (codes "supervisor pid ") m.supervisor_pid m.supervisor_start_time w
              k,
        )
        refl

  -- A stop of a session that has not stopped, where each of the two processes has no PID on record, or none that a
  -- process has, or a start time on record that its PID is not known to have, succeeds or fails as the save of the
  -- metadata does: they are afterwards the old ones with the stop by the user recorded, or still the old ones,
  -- and nothing is signalled or waited for.
  pub stop_foreign-only_marks :
      RoundTrips json
      → (env : Env) (w : World) (m : SessionMetadata) → validate_session_name m.name ≡ ok tt
      → current json w m.name ≡ ok m
      → m.status ≢ stopped
      → IsForeign w.os m.child_pid m.child_start_time
      → IsForeign w.os m.supervisor_pid m.supervisor_start_time
      → let p = stop_session_silent json env m.name w in
        SaveOutcome json w m.name
          (ok m)
          (ok (marked json w m (some (codes "stopped by user")) none))
          p
        × (p.1.signals ≡ w.signals)
        × (p.1.sleeps ≡ w.sleeps)
  stop_foreign-only_marks rt env w m v c s h k =
      let o =
        mark_stopped-live json rt w m (some (codes "stopped by user")) none (some m.generation) c
          (same_generation m) s in
      rw
        (stop_foreign env w m.name m v c s (foreign w.os m.child_pid m.child_start_time h)
          (foreign w.os m.supervisor_pid m.supervisor_start_time k))
        (o, outcome-signals o, outcome-sleeps o)

  mark-Effects :
      {P : ℤ → Type 0} {k : ℕ} (w : World) (name : Bytes) (es : Option Bytes) (ec g : Option ℕ)
      → Effects P k w (mark_stopped json name es ec g w).1
  unfolding mark_stopped load_metadata
  mark-Effects w name es ec g = elim (Result-cases (dir_of name w)) [
    | inr (x, d) ↦ rw d (Effects-silent refl refl)
    | inl (dir, d) ↦ elim (Result-cases (current json w name)) [
      | inr (x, c) ↦ rw (d, c) (Effects-silent refl refl)
      | inl (m, c) ↦ elim (Bool-cases (is_other_generation m g)) [
        | inl h ↦ rw (d, c, h) (Effects-silent refl refl)
        | inr h ↦ elim (Bool-cases (is_stopped m.status)) [
          | inl s ↦ rw (d, c, h, s) (Effects-silent refl refl)
          | inr s ↦
              let f = save-Frame json w (marked json w m es ec) in
              rw (d, c, h, s) (Effects-silent f.same_signals f.same_sleeps)
        ]
      ]
    ]
  ]

  run-Effects :
      {P : ℤ → Type 0} (env : Env) (name : Bytes) (m : SessionMetadata) (w : World)
      → ((target : ℤ) → Recorded m.child_pid target ⊎ Recorded m.supervisor_pid target → P target)
      → Effects P 80 w (stop_run json env name m w).1
  unfolding stop_run
  run-Effects env name m w h =
      then-Effects {j = 40} {k = 40}
        (stop_process env (codes "child pid ") m.child_pid m.child_start_time w) _
        (process-Effects env (codes "child pid ") m.child_pid m.child_start_time w
          (λ t r. h t (inl r)))
        λ child_errors v.
          then-Effects {j = 40} {k = 0}
            (stop_process env (codes "supervisor pid ") m.supervisor_pid m.supervisor_start_time v)
            _
            (process-Effects env (codes "supervisor pid ") m.supervisor_pid m.supervisor_start_time
              v (λ t r. h t (inr r)))
            λ supervisor_errors u.
              elim (Bool-cases (is_empty (child_errors ++ supervisor_errors))) [
                | inl e ↦
                    rw e (
                      mark-Effects u name (some (codes "stopped by user")) none (some m.generation))
                | inr e ↦ rw e (Effects-silent refl refl)
              ]

  -- The processes that a session names, as positive PIDs, and their groups.
  pub data Named (w : World) (name : Bytes) (target : ℤ) : Type 0 where
    by_metadata :
        (m : SessionMetadata)
        → current json w name ≡ ok m
        → Recorded m.child_pid target ⊎ Recorded m.supervisor_pid target
        → Named w name target

  -- Whatever happens during its waits and whether or not it succeeds, a stop signals no other target than the
  -- child and the supervisor that the metadata name at its start, and their groups, each by a positive PID (so
  -- never 0, the caller's own group); and it sleeps at most 80 times, 8 seconds in all.
  pub stop-Effects :
      (env : Env) (w : World) (name : Bytes)
      → Effects (Named w name) 80 w (stop_session_silent json env name w).1
  unfolding stop_session_silent load_metadata
  stop-Effects env w name = elim (Result-cases (validate_session_name name)) [
    | inr (x, v) ↦ rw v (Effects-silent refl refl)
    | inl (_, v) ↦ elim (Result-cases (current json w name)) [
      | inr (x, c) ↦ rw (v, c) (Effects-silent refl refl)
      | inl (m, c) ↦ elim (Bool-cases (is_stopped m.status)) [
        | inl s ↦ rw (v, c, s) (Effects-silent refl refl)
        | inr s ↦ rw (v, c, s) (run-Effects env name m w (λ t r. by_metadata m c r))
      ]
    ]
  ]
