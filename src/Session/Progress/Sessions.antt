-- ===== src/Session/Progress/Sessions.antt =====
-- All the sessions at once: what a stop of one does to the others.
use ignibyte_bridge.Prelude.{
  ◌≡◌, ◌≢◌, ◌⊎◌, refl, sym, ap, ◌∙◌, inl, inr, Bool-cases, ℕ, Option, none, some, ◌++◌, Bytes,
  bytes_eq, bytes_eq_iff, is_empty, codes, Error, Result, ok, err, Result-cases,
}
use ignibyte_bridge.Effects.{and_then-keeps}
use ignibyte_bridge.Paths.{validate_session_name}
use ignibyte_bridge.Session.World.{SessionMetadata, Json, RoundTrips, World, Env}
use ignibyte_bridge.Session.Metadata.{
  current, dir_of, stamped, load_metadata, is_stopped, is_other_generation, mark_stopped,
}
use ignibyte_bridge.Session.Metadata.Writing.{Frame}
use ignibyte_bridge.Session.Metadata.Saving.{current-same, SaveOutcome, saved, unsaved}
use ignibyte_bridge.Session.Metadata.Marking.{marked, mark_stopped-stale, mark_stopped-save}
use ignibyte_bridge.Session.Lifecycle.Continuation.{named-SaveOutcome}
use ignibyte_bridge.Session.Lifecycle.Ordering.{
  level, Later, same_run, Later-refl, Later-trans, status-cases, level_top,
}
use ignibyte_bridge.Session.Stop.{stop_process, stop_run, stop_session_silent}
use ignibyte_bridge.Session.Progress.{
  Past, past, Past-same, Advances, during-Past, stop_process-keeps,
}

module _ (json : Json) where
  -- The metadata that are stored for a session bear its name.
  pub record IsWellNamed (w : World) : Type 0 where
    pub bears : (n : Bytes) (m : SessionMetadata) → current json w n ≡ ok m → m.name ≡ n

  pub record Advanced (n : Bytes) (m : SessionMetadata) (w : World) : Type 0 where
    pub well_named : IsWellNamed w
    pub is_past : Past json n m w

  -- What the others do during each sleep: sessions only advance, and keep their names.
  pub record IsOrderly (env : Env) : Type 0 where
    pub advances : (n : Bytes) → Advances json n env
    pub keeps_names : (i : ℕ) (w : World) → IsWellNamed w → IsWellNamed (env i w)

  Advanced-same :
      {n : Bytes} {m : SessionMetadata} (w v : World)
      → v.root ≡ w.root
      → v.sessions ≡ w.sessions
      → Advanced n m w
      → Advanced n m v
  Advanced-same w v r s a = record {
    well_named = record {
      bears =
          λ k x c. a.well_named.bears k x (sym (current-same json w v k r (ap (λ f. f k) s)) ∙ c);
    };
    is_past = Past-same json _ w v r s a.is_past;
  }

  during-Advanced :
      (env : Env)
      → IsOrderly env
      → (n : Bytes) (m : SessionMetadata) (i : ℕ) (w : World) → Advanced n m w
      → Advanced n m (env i w)
  during-Advanced env o n m i w a = record {
    well_named = o.keeps_names i w a.well_named;
    is_past = during-Past json n env (o.advances n) m i w a.is_past;
  }

  name-cases : (a b : Bytes) → (a ≡ b) ⊎ (a ≢ b)
  name-cases a b = elim (Bool-cases (bytes_eq a b)) [
    | inl e ↦ inl ((bytes_eq_iff a b).0 e)
    | inr e ↦ inr (λ q. let t = (bytes_eq_iff a b).1 q in cc)
  ]

  -- One session's metadata are replaced by later ones.
  replaced-Advanced :
      (n k : Bytes) (m a b : SessionMetadata) (w v : World)
      → Frame k w v
      → current json w k ≡ ok a
      → current json v k ≡ ok b
      → b.name ≡ k
      → Later a b
      → Advanced n m w
      → Advanced n m v
  replaced-Advanced n k m a b w v f c d e l h = record {
    well_named = record { bears = λ q x t. names q x t (name-cases q k) };
    is_past = keeps h.is_past (name-cases n k);
  }
    where
      names :
          (q : Bytes) (x : SessionMetadata)
          → current json v q ≡ ok x
          → (q ≡ k) ⊎ (q ≢ k)
          → x.name ≡ q
      names q x t (inl i) =
          let t' : current json v k ≡ ok x = rw i at t in
          let y : b ≡ x = cc in let z : b.name ≡ x.name = ap (λ u. u.name) y in sym z ∙ (e ∙ sym i)
      names q x t (inr i) =
          h.well_named.bears q x (sym (current-same json w v q f.same_root (f.same_others q i)) ∙ t)

      keeps : Past json n m w → (n ≡ k) ⊎ (n ≢ k) → Past json n m v
      keeps (past m' c' n' l') (inl i) =
          let c'' : current json w k ≡ ok m' = rw i at c' in
          let y : m' ≡ a = cc in
          let l'' : Later m a = rw y at l' in past b (rw i d) (e ∙ sym i) (Later-trans l'' l)
      keeps (past m' c' n' l') (inr i) =
          past m' (current-same json w v n f.same_root (f.same_others n i) ∙ c') n' l'

  saved-Advanced :
      (n k : Bytes) (m a b : SessionMetadata) (w : World) (p : Result (Unit {0}) × World)
      → current json w k ≡ ok a
      → a.name ≡ k
      → b.name ≡ k
      → Later a b
      → SaveOutcome json w k (ok a) (ok b) p
      → Advanced n m w
      → Advanced n m p.1
  saved-Advanced n k m a b w p c d e l (saved r g f) h =
      replaced-Advanced n k m a b w p.1 f c g e l h
  saved-Advanced n k m a b w p c d e l (unsaved x r g f) h =
      replaced-Advanced n k m a a w p.1 f c g d (Later-refl a) h

  module _ (rt : RoundTrips json) where
    unread-Advanced :
        (n k : Bytes) (m : SessionMetadata) (es : Option Bytes) (ec g : Option ℕ) (w : World)
        (x : Error)
        → current json w k ≡ err x
        → Advanced n m w
        → Advanced n m (mark_stopped json k es ec g w).1
    unfolding mark_stopped load_metadata
    unread-Advanced n k m es ec g w x c h = elim (Result-cases (dir_of k w)) [
      | inl (dir, d) ↦ rw (d, c) h
      | inr (y, d) ↦ rw d h
    ]

    mark-Advanced :
        (n k : Bytes) (m : SessionMetadata) (es : Option Bytes) (ec g : Option ℕ) (w : World)
        → Advanced n m w
        → Advanced n m (mark_stopped json k es ec g w).1
    unfolding level
    mark-Advanced n k m es ec g w h = elim (Result-cases (current json w k)) [
      | inr (x, c) ↦ unread-Advanced n k m es ec g w x c h
      | inl (a, c) ↦ elim (Bool-cases (is_other_generation a g)) [
        | inl o ↦ rw (mark_stopped-stale json w k a es ec g c (inl o)) h
        | inr o ↦ elim (status-cases a.status) [
          | inl s ↦ rw (mark_stopped-stale json w k a es ec g c (inr s)) h
          | inr s ↦
              let d = h.well_named.bears k a c in
              rw (mark_stopped-save json w k a es ec g c o s) (
                saved-Advanced n k m a (stamped w (marked json w a es ec)) w _ c d d
                  (same_run refl (level_top a.status) (λ e. absurd (s e)))
                  (named-SaveOutcome json k rt w a (marked json w a es ec) d c) h)
        ]
      ]
    ]

    module _ (env : Env) (orderly : IsOrderly env) where
      stop_run-Advanced :
          (n k : Bytes) (m a : SessionMetadata) (w : World)
          → Advanced n m w
          → Advanced n m (stop_run json env k a w).1
      unfolding stop_run
      stop_run-Advanced n k m a w h =
          let parts =
            stop_process-keeps env (Advanced n m) Advanced-same (during-Advanced env orderly n m) in
          and_then-keeps (Advanced n m)
            (stop_process env (codes "child pid ") a.child_pid a.child_start_time w) _
            (parts (codes "child pid ") a.child_pid a.child_start_time w h)
            λ es v i.
              and_then-keeps (Advanced n m)
                (stop_process env (codes "supervisor pid ") a.supervisor_pid a.supervisor_start_time
                  v)
                _ (parts (codes "supervisor pid ") a.supervisor_pid a.supervisor_start_time v i)
                λ fs u j. elim (Bool-cases (is_empty (es ++ fs))) [
                  | inl e ↦ rw e (
                      mark-Advanced n k m (some (codes "stopped by user")) none (some a.generation)
                        u j)
                  | inr e ↦ rw e j
                ]

      pub stop-Advanced :
          (n k : Bytes) (m : SessionMetadata) (w : World)
          → Advanced n m w
          → Advanced n m (stop_session_silent json env k w).1
      unfolding stop_session_silent load_metadata
      stop-Advanced n k m w h =
          and_then-keeps (Advanced n m) (validate_session_name k, w) _ h
            λ _ v i.
              and_then-keeps (Advanced n m) (current json v k, v) _ i
                λ a u j. elim (Bool-cases (is_stopped a.status)) [
                  | inl e ↦ rw e j
                  | inr e ↦ rw e (stop_run-Advanced n k m a u j)
                ]
