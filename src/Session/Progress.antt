-- ===== src/Session/Progress.antt =====
-- A run under way: what the rest of the system may do to its metadata while the program waits, and what a stop
-- that succeeds has brought about.
pub mod Ends
pub mod Sessions
use ignibyte_bridge.Prelude.{
  ℕ, zero, suc, ◌<◌, ◌≡◌, ◌≢◌, ◌⊎◌, refl, sym, ap, ◌∙◌, inl, inr, Bool, true, false, not, ◌&&◌,
  Bool-cases, Option, none, some, List, [], Bytes, codes, Error, Result, ok, err, if◌then◌else◌,
  is_empty, arith,
}
use ignibyte_bridge.Effects.{and_then-keeps}
use ignibyte_bridge.Session.World.{
  ℤ, Kill, delivered, no_such_process, not_permitted, kill_failed, Signal, sigterm, sigkill,
  SessionMetadata, stopped, Json, RoundTrips, World, M, Env, sleep, as_i32, ◌>>=◌, ◌>>◌,
}
use ignibyte_bridge.Session.Process.{
  process_alive, pid_is_ours, is_positive, recorded, send_signal, signal_pid_and_group, wait_gone,
  kill_phase, terminate_pid, negate,
}
use ignibyte_bridge.Session.Metadata.{current}
use ignibyte_bridge.Session.Metadata.Saving.{current-same}
use ignibyte_bridge.Session.Lifecycle.Ordering.{Later, Later-refl, Later-trans}
use ignibyte_bridge.Session.Stop.{stop_process}

-- What the parts of a stop that only send signals and sleep keep: a property of the sessions' files that the
-- others keep during each sleep.
module _ (env : Env) (P : World → Type 0)
    (same : (w v : World) → v.root ≡ w.root → v.sessions ≡ w.sessions → P w → P v)
    (during : (n : ℕ) (w : World) → P w → P (env n w)) where
  pub sleep-keeps : (w : World) → P w → P (sleep env w).1
  unfolding sleep
  sleep-keeps w h = same (env w.sleeps w) (sleep env w).1 refl refl (during w.sleeps w h)

  recorded-keeps : (t : ℤ) (s : Signal) (w : World) (k : Kill) → P w → P (recorded t s w k).1
  recorded-keeps t s w delivered h = same w _ refl refl h
  recorded-keeps t s w no_such_process h = h
  recorded-keeps t s w not_permitted h = h
  recorded-keeps t s w (kill_failed e) h = h

  signal-keeps : (pid : ℤ) (s : Signal) (w : World) → P w → P (signal_pid_and_group pid s w).1
  unfolding signal_pid_and_group send_signal
  signal-keeps pid s w h =
      let v = (recorded (negate pid) s w (w.os.kill (negate pid))).1 in
      recorded-keeps pid s v (v.os.kill pid)
        (recorded-keeps (negate pid) s w (w.os.kill (negate pid)) h)

  wait-keeps : (rounds : ℕ) (pid : ℤ) (w : World) → P w → P (wait_gone env rounds pid w).1
  unfolding wait_gone sleep
  wait-keeps zero pid w h = h
  wait-keeps (suc n) pid w h = elim (Bool-cases (process_alive w.os pid)) [
    | inl e ↦ rw e (wait-keeps n pid (sleep env w).1 (sleep-keeps w h))
    | inr e ↦ rw e h
  ]

  kill-keeps : (pid : ℤ) (sent : Bool) (w : World) → P w → P (kill_phase env pid sent w).1
  unfolding kill_phase
  kill-keeps pid sent w h =
      and_then-keeps P (signal_pid_and_group pid sigkill w) _ (signal-keeps pid sigkill w h)
        λ kill_sent v k. elim (Bool-cases (not sent && not kill_sent)) [
          | inl e ↦ rw e k
          | inr e ↦ rw e (
              and_then-keeps P (wait_gone env 20 pid v) _ (wait-keeps 20 pid v k)
                λ gone u l. elim (Bool-cases gone) [ inl g ↦ rw g l | inr g ↦ rw g l ])
        ]

  terminate-keeps : (pid : ℤ) (w : World) → P w → P (terminate_pid env pid w).1
  unfolding terminate_pid
  terminate-keeps pid w h = elim (Bool-cases (is_positive pid)) [
    | inr e ↦ rw e h
    | inl e ↦ rw e (
        and_then-keeps P (signal_pid_and_group pid sigterm w) _ (signal-keeps pid sigterm w h)
          λ term_sent v k.
            and_then-keeps P (wait_gone env 20 pid v) _ (wait-keeps 20 pid v k) λ gone u l.
              elim (Bool-cases gone) [
                | inl g ↦ rw g l
                | inr g ↦ rw g (kill-keeps pid term_sent u l)
              ])
  ]

  pub stop_process-keeps :
      (who : Bytes) (pid token : Option ℕ) (w : World)
      → P w
      → P (stop_process env who pid token w).1
  unfolding stop_process
  stop_process-keeps who none token w h = h
  stop_process-keeps who (some n) token w h = elim (Bool-cases (pid_is_ours w.os (some n) token)) [
    | inr e ↦ rw e h
    | inl e ↦ rw e (terminate-keeps (as_i32 n) w h)
  ]

module _ (json : Json) (name : Bytes) where
  -- The session has metadata, of the run `m` or a later one, and no step back.
  pub data Past (m : SessionMetadata) (w : World) : Type 0 where
    past :
        (m' : SessionMetadata)
        → current json w name ≡ ok m'
        → m'.name ≡ name
        → Later m m'
        → Past m w

  -- During each sleep the others let the session only advance.
  abbrev pub Advances : Env → Type 0
  Advances env =
      (n : ℕ) (w : World) (m : SessionMetadata)
      → current json w name ≡ ok m
      → m.name ≡ name
      → Past m (env n w)

  pub Past-trans : {a b : SessionMetadata} {w : World} → Later a b → Past b w → Past a w
  Past-trans l (past m c n k) = past m c n (Later-trans l k)

  pub Past-same :
      {m : SessionMetadata} (w v : World)
      → v.root ≡ w.root
      → v.sessions ≡ w.sessions
      → Past m w
      → Past m v
  Past-same w v r s (past m' c n l) =
      past m' (current-same json w v name r (ap (λ f. f name) s) ∙ c) n l

  module _ (env : Env) (advances : Advances env) (m : SessionMetadata) where
    pub during-Past : (n : ℕ) (w : World) → Past m w → Past m (env n w)
    during-Past n w (past m' c k l) = Past-trans l (advances n w m' c k)

    pub sleep-Past : (w : World) → Past m w → Past m (sleep env w).1
    sleep-Past = sleep-keeps env (Past m) Past-same during-Past

    pub stop_process-Past :
        (who : Bytes) (pid token : Option ℕ) (w : World)
        → Past m w
        → Past m (stop_process env who pid token w).1
    stop_process-Past = stop_process-keeps env (Past m) Past-same during-Past
