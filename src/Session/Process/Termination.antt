-- ===== src/Session/Process/Termination.antt =====
-- What `terminate_pid` may do: whom it signals, and how long it waits.
use ignibyte_bridge.Prelude.{
  ℕ, zero, suc, ◌+◌, ◌≤◌, ◌≡◌, refl, sym, ap, ◌∙◌, inl, inr, Bool, true, Bool-cases, not, List, [],
  ◌∷◌, ◌++◌, append_assoc, append-nil, All, All-append, arith, Result, ok, err, ◌&&◌,
}
use ignibyte_bridge.Session.World.{
  ℤ, Kill, delivered, no_such_process, not_permitted, kill_failed, Signal, sigterm, sigkill, World,
  M, Env, and_then, sleep,
}
use ignibyte_bridge.Session.Process.{
  process_alive, negate, is_positive, recorded, send_signal, signal_pid_and_group, wait_gone,
  kill_phase, terminate_pid,
}

-- Between two worlds only targets in `P` are signalled, and the program sleeps at most `k` times.
pub record Effects (P : ℤ → Type 0) (k : ℕ) (w w' : World) : Type 0 where
  pub sent : List (ℤ × Signal)
  pub signals_sent : w'.signals ≡ w.signals ++ sent
  pub targets : All (λ s. P s.0) sent
  pub slept : w'.sleeps ≤ w.sleeps + k

module _ {P : ℤ → Type 0} where
  pub Effects-silent :
      {k : ℕ} {w w' : World} → w'.signals ≡ w.signals → w'.sleeps ≡ w.sleeps → Effects P k w w'
  Effects-silent {k} {w} e s = record {
    sent = [];
    signals_sent = e ∙ sym (append-nil w.signals);
    targets = tt;
    slept = omega arith;
  }

  pub Effects-trans :
      {j k : ℕ} {u v w : World} → Effects P j u v → Effects P k v w → Effects P (j + k) u w
  Effects-trans {j} {k} {u} {v} {w} p q =
      let s = p.slept in
      let s' = q.slept in
      record {
        sent = p.sent ++ q.sent;
        signals_sent =
            q.signals_sent
            ∙ ap (λ x. x ++ q.sent) p.signals_sent
            ∙ append_assoc u.signals p.sent q.sent;
        targets = All-append (λ s. P s.0) p.sent q.sent p.targets q.targets;
        slept = omega arith;
      }

  pub Effects-weaken : {j k : ℕ} {u v : World} → j ≤ k → Effects P j u v → Effects P k u v
  Effects-weaken h p =
      let s = p.slept in
      record {
        sent = p.sent;
        signals_sent = p.signals_sent;
        targets = p.targets;
        slept = omega arith;
      }

  -- A bound on the first part and on what may follow it.
  pub then-Effects :
      {A B : Type 0} {j k : ℕ} {u : World} (p : Result A × World) (f : A → M B)
      → Effects P j u p.1
      → ((a : A) (v : World) → Effects P k v (f a v).1)
      → Effects P (j + k) u (and_then p f).1
  then-Effects (ok a, v) f q h = Effects-trans q (h a v)
  then-Effects (err e, v) f q h = Effects-weaken (omega arith) q

  recorded-Effects :
      (target : ℤ) (signal : Signal) (w : World) (k : Kill)
      → P target
      → Effects P 0 w (recorded target signal w k).1
  recorded-Effects target signal w delivered h = record {
    sent = (target, signal) ∷ [];
    signals_sent = refl;
    targets = (h, tt);
    slept = omega arith;
  }
  recorded-Effects target signal w no_such_process h = Effects-silent refl refl
  recorded-Effects target signal w not_permitted h = Effects-silent refl refl
  recorded-Effects target signal w (kill_failed e) h = Effects-silent refl refl

  signal-Effects :
      (pid : ℤ) (signal : Signal) (w : World)
      → P pid
      → P (negate pid)
      → Effects P 0 w (signal_pid_and_group pid signal w).1
  unfolding signal_pid_and_group send_signal
  signal-Effects pid signal w h h' =
      let v = (recorded (negate pid) signal w (w.os.kill (negate pid))).1 in
      Effects-trans {j = 0} {k = 0}
        (recorded-Effects (negate pid) signal w (w.os.kill (negate pid)) h')
        (recorded-Effects pid signal v (v.os.kill pid) h)

  sleep-Effects : (env : Env) (w : World) → Effects P 1 w (sleep env w).1
  unfolding sleep
  sleep-Effects env w = record {
    sent = [];
    signals_sent = sym (append-nil w.signals);
    targets = tt;
    slept = omega arith;
  }

  wait-Effects :
      (env : Env) (rounds : ℕ) (pid : ℤ) (w : World)
      → Effects P rounds w (wait_gone env rounds pid w).1
  unfolding wait_gone sleep
  wait-Effects env zero pid w = Effects-silent refl refl
  wait-Effects env (suc n) pid w = elim (Bool-cases (process_alive w.os pid)) [
    | inl e ↦ rw e (
        Effects-weaken {j = 1 + n} (omega arith) (
          Effects-trans {j = 1} {k = n} (sleep-Effects env w)
            (wait-Effects env n pid (sleep env w).1)))
    | inr e ↦ rw e (Effects-silent refl refl)
  ]

  kill-Effects :
      (env : Env) (pid : ℤ) (sent : Bool) (w : World)
      → P pid
      → P (negate pid)
      → Effects P 20 w (kill_phase env pid sent w).1
  unfolding kill_phase
  kill-Effects env pid sent w h h' =
      then-Effects {j = 0} {k = 20} (signal_pid_and_group pid sigkill w) _
        (signal-Effects pid sigkill w h h')
        λ kill_sent v. elim (Bool-cases (not sent && not kill_sent)) [
          | inl e ↦ rw e (Effects-silent refl refl)
          | inr e ↦ rw e (
              then-Effects {j = 20} {k = 0} (wait_gone env 20 pid v) _ (wait-Effects env 20 pid v)
                λ gone u. elim (Bool-cases gone) [
                  | inl g ↦ rw g (Effects-silent refl refl)
                  | inr g ↦ rw g (Effects-silent refl refl)
                ])
        ]

  -- `terminate_pid` signals only the process and its group, sleeps at most 40 times, and does nothing to a PID that
  -- is not positive (0 and -1 would address whole groups).
  pub terminate-Effects :
      (env : Env) (pid : ℤ) (w : World)
      → (is_positive pid ≡ true → P pid × P (negate pid))
      → Effects P 40 w (terminate_pid env pid w).1
  unfolding terminate_pid
  terminate-Effects env pid w h = elim (Bool-cases (is_positive pid)) [
    | inr e ↦ rw e (Effects-silent refl refl)
    | inl e ↦
        let (p, n) = h e in
        rw e (
          then-Effects {j = 0} {k = 40} (signal_pid_and_group pid sigterm w) _
            (signal-Effects pid sigterm w p n)
            λ term_sent v.
              then-Effects {j = 20} {k = 20} (wait_gone env 20 pid v) _ (wait-Effects env 20 pid v)
                λ gone u. elim (Bool-cases gone) [
                  | inl g ↦ rw g (Effects-silent refl refl)
                  | inr g ↦ rw g (kill-Effects env pid term_sent u p n)
                ])
  ]
