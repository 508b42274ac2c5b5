-- ===== src/Session/Process/Gone.antt =====
-- What it means that `terminate_pid` succeeds.
use ignibyte_bridge.Prelude.{
  ℕ, zero, suc, ◌≡◌, ◌≢◌, refl, inl, inr, Bool, true, false, Bool-cases, not, ◌&&◌, ◌||◌, ◌++◌,
  arith, Bytes, is_empty, if◌then◌else◌, Result, ok, err, bail,
}
use ignibyte_bridge.Session.World.{
  ℤ, Kill, delivered, no_such_process, not_permitted, kill_failed, Signal, sigterm, sigkill, Os,
  World, M, Env, and_then, sleep,
}
use ignibyte_bridge.Session.Process.{
  process_alive, negate, is_positive, is_delivered, refusal, recorded, send_signal,
  signal_pid_and_group, wait_gone, kill_phase, terminate_pid,
}

-- Nothing sent and no error: there was no such process.
result-no_such_process :
    (k k' : Kill) (t t' : ℤ) (text : Bytes)
    → (if not (is_delivered k || is_delivered k') && not (is_empty (refusal t k ++ refusal t' k'))
        then bail text
        else ok (is_delivered k || is_delivered k'))
      ≡ ok false
    → k' ≡ no_such_process
unfolding refusal
result-no_such_process k no_such_process t t' text h = refl
result-no_such_process delivered delivered t t' text h = absurd cc
result-no_such_process no_such_process delivered t t' text h = absurd cc
result-no_such_process not_permitted delivered t t' text h = absurd cc
result-no_such_process (kill_failed e) delivered t t' text h = absurd cc
result-no_such_process delivered not_permitted t t' text h = absurd cc
result-no_such_process no_such_process not_permitted t t' text h = absurd cc
result-no_such_process not_permitted not_permitted t t' text h = absurd cc
result-no_such_process (kill_failed e) not_permitted t t' text h = absurd cc
result-no_such_process delivered (kill_failed x) t t' text h = absurd cc
result-no_such_process no_such_process (kill_failed x) t t' text h = absurd cc
result-no_such_process not_permitted (kill_failed x) t t' text h = absurd cc
result-no_such_process (kill_failed e) (kill_failed x) t t' text h = absurd cc

-- Sending a signal leaves the processes, as they are known, and gives what `kill` returned.
recorded-os : (t : ℤ) (s : Signal) (w : World) (k : Kill) → (recorded t s w k).1.os ≡ w.os
recorded-os t s w delivered = refl
recorded-os t s w no_such_process = refl
recorded-os t s w not_permitted = refl
recorded-os t s w (kill_failed e) = refl

recorded-kill : (t : ℤ) (s : Signal) (w : World) (k : Kill) → (recorded t s w k).0 ≡ k
recorded-kill t s w delivered = refl
recorded-kill t s w no_such_process = refl
recorded-kill t s w not_permitted = refl
recorded-kill t s w (kill_failed e) = refl

dead : (os : Os) (pid : ℤ) → os.kill pid ≡ no_such_process → process_alive os pid ≡ false
unfolding process_alive
dead os pid h = rw (process_alive, h) refl

signal-dead :
    (pid : ℤ) (s : Signal) (w : World)
    → (signal_pid_and_group pid s w).0 ≡ ok false
    → process_alive (signal_pid_and_group pid s w).1.os pid ≡ false
unfolding signal_pid_and_group send_signal
signal-dead pid s w h =
    let v = (recorded (negate pid) s w (w.os.kill (negate pid))).1 in
    rw (recorded-os pid s v (v.os.kill pid)) (
      dead v.os pid (
        result-no_such_process (recorded (negate pid) s w (w.os.kill (negate pid))).0
          (v.os.kill pid) (negate pid) pid _ (rw (recorded-kill pid s v (v.os.kill pid)) at h)))

wait-dead :
    (env : Env) (rounds : ℕ) (pid : ℤ) (w : World)
    → (wait_gone env rounds pid w).0 ≡ ok true
    → process_alive (wait_gone env rounds pid w).1.os pid ≡ false
unfolding wait_gone sleep
wait-dead env zero pid w h = absurd cc
wait-dead env (suc n) pid w h = elim (Bool-cases (process_alive w.os pid)) [
  | inr e ↦ rw e e
  | inl e ↦ rw e (wait-dead env n pid (sleep env w).1 (rw e at h))
]

-- If the outcome is success, the process was not there at the end.
Gone : ℤ → Result (Unit {0}) × World → Type 0
Gone pid r = r.0 ≡ ok tt → process_alive r.1.os pid ≡ false

then-Gone :
    {A : Type 0} (pid : ℤ) (p : Result A × World) (f : A → M (Unit {0}))
    → ((a : A) (v : World) → p ≡ (ok a, v) → Gone pid (f a v))
    → Gone pid (and_then p f)
unfolding Gone
then-Gone pid (ok a, v) f h = h a v refl
then-Gone pid (err e, v) f h = λ x. absurd cc

both_false : (a b : Bool) → (not a && not b) ≡ true → b ≡ false
both_false a b h = ground arith

wait-Gone :
    (env : Env) (pid : ℤ) (w : World) (k : M (Unit {0}))
    → ((v : World) → Gone pid (k v))
    → Gone pid (and_then (wait_gone env 20 pid w) (λ gone. if gone then (λ v. (ok tt, v)) else k))
unfolding Gone
wait-Gone env pid w k h =
    then-Gone pid (wait_gone env 20 pid w) (λ gone. if gone then (λ v. (ok tt, v)) else k)
      λ gone v q. elim (Bool-cases gone) [
        | inl e ↦ rw e (λ x. rw q at (wait-dead env 20 pid w (rw (q, e) refl)))
        | inr e ↦ rw e (h v)
      ]

kill-Gone : (env : Env) (pid : ℤ) (sent : Bool) (w : World) → Gone pid (kill_phase env pid sent w)
unfolding kill_phase Gone
kill-Gone env pid sent w = then-Gone pid (signal_pid_and_group pid sigkill w) _ λ kill_sent v q.
    elim (Bool-cases (not sent && not kill_sent)) [
      | inl e ↦
          rw e (λ x. rw q at (signal-dead pid sigkill w (rw (q, both_false sent kill_sent e) refl)))
      | inr e ↦ rw e (wait-Gone env pid v _ (λ u x. absurd cc))
    ]

terminate-Gone :
    (env : Env) (pid : ℤ) (w : World) → is_positive pid ≡ true → Gone pid (terminate_pid env pid w)
unfolding terminate_pid
terminate-Gone env pid w p = rw p (
    then-Gone pid (signal_pid_and_group pid sigterm w) _ λ term_sent v q.
      wait-Gone env pid v (kill_phase env pid term_sent) (kill-Gone env pid term_sent))

not_found :
    (os : Os) (pid : ℤ)
    → process_alive os pid ≡ false
    → (os.kill pid ≢ delivered) × (os.kill pid ≢ not_permitted)
unfolding process_alive
not_found os pid h = (
  λ e. let q : true ≡ false = rw (e, process_alive) at h in cc,
  λ e. let q : true ≡ false = rw (e, process_alive) at h in cc,
)

-- If `terminate_pid` succeeds for a positive PID, whatever else happened while it waited, then `kill` with no
-- signal finds no such process at its end, or fails for some other reason than a missing permission: it is
-- neither delivered nor refused for want of the permission.
pub terminate-gone :
    (env : Env) (pid : ℤ) (w : World)
    → is_positive pid ≡ true
    → (terminate_pid env pid w).0 ≡ ok tt
    → let found = (terminate_pid env pid w).1.os.kill pid in
      (found ≢ delivered) × (found ≢ not_permitted)
unfolding Gone
terminate-gone env pid w p h =
    not_found (terminate_pid env pid w).1.os pid (terminate-Gone env pid w p h)
