-- ===== src/Session/Progress/Ends.antt =====
-- A stop that succeeds has ended the run that it found.
use ignibyte_bridge.Prelude.{
  Result-cases, subst, ℕ, ◌<◌, ◌≡◌, ◌≢◌, ◌⊎◌, refl, sym, ◌∙◌, inl, inr, true, Bool-cases, Option,
  none, some, ◌++◌, arith, Bytes, codes, Result, ok, is_empty,
}
use ignibyte_bridge.Effects.{and_then-ok}
use ignibyte_bridge.Paths.{validate_session_name}
use ignibyte_bridge.Session.World.{
  SessionMetadata, SessionStatus, stopped, Json, RoundTrips, World, Env,
}
use ignibyte_bridge.Session.Metadata.{
  current, stamped, load_metadata, is_stopped, is_other_generation, mark_stopped,
}
use ignibyte_bridge.Session.Metadata.Saving.{SaveOutcome, saved, unsaved}
use ignibyte_bridge.Session.Metadata.Marking.{
  not_stopped, marked, mark_stopped-stale, mark_stopped-save,
}
use ignibyte_bridge.Session.Lifecycle.Continuation.{named-SaveOutcome}
use ignibyte_bridge.Session.Lifecycle.Ordering.{
  level, Later, newer_run, same_run, Later-refl, Later-trans, status-cases, level_top,
}
use ignibyte_bridge.Session.Stop.{stop_process, stop_run, stop_session_silent}
use ignibyte_bridge.Session.Progress.{Past, past, Advances, stop_process-Past}

is_stopped-true : (s : SessionStatus) → s ≡ stopped → is_stopped s ≡ true
is_stopped-true s e = rw e refl

module _ (json : Json) (name : Bytes) where
  -- The run `m` is over: the session has stopped, or a newer run has taken its place.
  pub data Over (m : SessionMetadata) (w : World) : Type 0 where
    over :
        (m' : SessionMetadata)
        → current json w name ≡ ok m'
        → m'.name ≡ name
        → Later m m'
        → (m.generation < m'.generation) ⊎ (m'.status ≡ stopped)
        → Over m w

  other_run :
      (m m' : SessionMetadata)
      → Later m m'
      → is_other_generation m' (some m.generation) ≡ true
      → m.generation < m'.generation
  other_run m m' (newer_run p) h = p
  other_run m m' (same_run e l x) h = absurd (ground arith)

  module _ (rt : RoundTrips json) (m : SessionMetadata) where
    saved-Over :
        (w : World) (m' : SessionMetadata) (es : Option Bytes) (ec : Option ℕ)
        (p : Result (Unit {0}) × World)
        → m'.name ≡ name
        → Later m m'
        → m'.status ≢ stopped
        → SaveOutcome json w name (ok m') (ok (stamped w (marked json w m' es ec))) p
        → p.0 ≡ ok tt
        → Over m p.1
    unfolding level
    saved-Over w m' es ec p n l s (saved r c f) h =
        over (stamped w (marked json w m' es ec)) c n
          (Later-trans l (same_run refl (level_top m'.status) (λ e. absurd (s e)))) (inr refl)
    saved-Over w m' es ec p n l s (unsaved x r c f) h = absurd (let q = sym r ∙ h in cc)

    -- A mark for the run `m` that succeeds.
    pub mark-Over :
        (w : World) (es : Option Bytes) (ec : Option ℕ)
        → Past json name m w
        → (mark_stopped json name es ec (some m.generation) w).0 ≡ ok tt
        → Over m (mark_stopped json name es ec (some m.generation) w).1
    mark-Over w es ec (past m' c n l) =
        elim (Bool-cases (is_other_generation m' (some m.generation))) [
          | inl o ↦
              rw (mark_stopped-stale json w name m' es ec (some m.generation) c (inl o))
                (λ h. over m' c n l (inl (other_run m m' l o)))
          | inr o ↦ elim (status-cases m'.status) [
            | inl s ↦
                rw (mark_stopped-stale json w name m' es ec (some m.generation) c (inr s))
                  (λ h. over m' c n l (inr s))
            | inr s ↦ rw (mark_stopped-save json w name m' es ec (some m.generation) c o s) (
                saved-Over w m' es ec _ n l s
                  (named-SaveOutcome json name rt w m' (marked json w m' es ec) n c))
          ]
        ]

    stop_run-Over :
        (env : Env) (w : World)
        → Advances json name env
        → Past json name m w
        → (stop_run json env name m w).0 ≡ ok tt
        → Over m (stop_run json env name m w).1
    unfolding stop_run
    stop_run-Over env w a h =
        and_then-ok (λ _ v. Over m v)
          (stop_process env (codes "child pid ") m.child_pid m.child_start_time w) _ tt
          λ child_errors v q.
            let h' =
              subst (λ r. Past json name m r.1) q
                (stop_process-Past json name env a m (codes "child pid ") m.child_pid
                  m.child_start_time w h) in
            and_then-ok (λ _ v. Over m v)
              (stop_process env (codes "supervisor pid ") m.supervisor_pid m.supervisor_start_time
                v)
              _ tt
              λ supervisor_errors u r.
                let h'' =
                  subst (λ r. Past json name m r.1) r
                    (stop_process-Past json name env a m (codes "supervisor pid ") m.supervisor_pid
                      m.supervisor_start_time v h') in
                elim (Bool-cases (is_empty (child_errors ++ supervisor_errors))) [
                  | inl e ↦ rw e (mark-Over u (some (codes "stopped by user")) none h'')
                  | inr e ↦ rw e (λ z. absurd cc)
                ]

    -- If a stop succeeds, the run that it found is over behind it: the session has stopped, or a newer run
    -- has taken its place. The others may do to the session what they like while the stop waits, as long as
    -- they let it only advance.
    -- What is serialized is taken to be read back.
    pub stop-Over :
        (env : Env) (w : World)
        → Advances json name env
        → current json w name ≡ ok m
        → m.name ≡ name
        → (stop_session_silent json env name w).0 ≡ ok tt
        → Over m (stop_session_silent json env name w).1
    unfolding stop_session_silent load_metadata
    stop-Over env w a c n = elim (Result-cases (validate_session_name name)) [
      | inr (x, v) ↦ rw v (λ h. absurd cc)
      | inl (_, v) ↦ elim (status-cases m.status) [
        | inl s ↦ rw (v, c, is_stopped-true m.status s) (λ h. over m c n (Later-refl m) (inr s))
        | inr s ↦
            rw (v, c, not_stopped m.status s) (stop_run-Over env w a (past m c n (Later-refl m)))
      ]
    ]
