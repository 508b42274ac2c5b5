-- ===== src/Daemon/Service/Exclusive.antt =====
-- There is one daemon at a time.
use ignibyte_bridge.Prelude.{
  ◌≡◌, ◌≢◌, ◌⊎◌, refl, sym, inl, inr, ◌∙◌, Bool, true, false, Bool-cases, Option, none, some, [],
  Bytes, codes, Error, Result, ok, err, Result-cases,
}
use ignibyte_bridge.Effects.{and_then, and_then-keeps, and_then-fails, context_of, context_of-keeps}
use ignibyte_bridge.Paths.{socket_path, path_join}
use ignibyte_bridge.Files.Operations.{ensure_private_dir, create_private_file}
use ignibyte_bridge.Daemon.Service.{
  listening, Site, B, another_daemon, take_lock, System, in_disk, acquire_daemon_lock, clear_socket,
  unlock_on_error, listen, run_daemon,
}

-- A daemon that listens, or is about to.
abbrev pub IsServing : Site → Type 0
IsServing s = (s.locked ≡ true) ⊎ ((p : Bool) × (s.socket ≡ listening p))

-- It is refused, and the socket stays.
pub record IsTurnedAway (s : Site) (r : Result Bytes × Site) : Type 0 where
  pub fails : (path : Bytes) → r.0 ≢ ok path
  pub same_socket : r.1.socket ≡ s.socket

then-IsTurnedAway :
    {A : Type 0} (s : Site) (R : Site → Type 0) (p : Result A × Site) (f : A → B Bytes)
    → ((v : Site) → R v → v.socket ≡ s.socket)
    → R p.1
    → ((a : A) (v : Site) → R v → IsTurnedAway s (f a v))
    → IsTurnedAway s (and_then p f)
then-IsTurnedAway s R (ok a, v) f i r k = k a v r
then-IsTurnedAway s R (err e, v) f i r k = record { fails = λ path q. cc; same_socket = i v r }

-- The lock and the socket are as before.
record Same (s v : Site) : Type 0 where
  pub same_locked : v.locked ≡ s.locked
  pub same_socket : v.socket ≡ s.socket

module _ (sys : System) where
  take_lock-socket :
      (s : Site) (message : Bytes) (fault : Option Error)
      → (context_of message (take_lock fault s)).1.socket ≡ s.socket
  take_lock-socket s message none = refl
  take_lock-socket s message (some e) = refl

  acquire-socket : (root : Bytes) (s : Site) → (acquire_daemon_lock sys root s).1.socket ≡ s.socket
  unfolding acquire_daemon_lock
  acquire-socket root s =
      let Q : Site → Type 0 = λ v. v.socket ≡ s.socket in
      let p = create_private_file (sys.components (path_join root (codes "daemon.lock"))) s.disk in
      let q : Result (Unit {0}) × Site = (p.0, record s { disk = p.1 }) in
      and_then-keeps Q (context_of (codes "failed to open daemon lock") q) _
        (context_of-keeps Q _ q refl)
        λ _ v i. elim (Bool-cases v.locked) [
          | inl e ↦ rw e i
          | inr e ↦ rw e (
              take_lock-socket (record v { locked = false }) (codes "failed to lock daemon")
                sys.flock_fault
              ∙ i)
        ]

  acquire-fails :
      (root : Bytes) (s : Site)
      → s.locked ≡ true
      → (e : Error) × ((acquire_daemon_lock sys root s).0 ≡ err e)
  unfolding acquire_daemon_lock
  acquire-fails root s h =
      let Q : Site → Type 0 = λ v. v.locked ≡ true in
      let p = create_private_file (sys.components (path_join root (codes "daemon.lock"))) s.disk in
      let q : Result (Unit {0}) × Site = (p.0, record s { disk = p.1 }) in
      and_then-fails Q (context_of (codes "failed to open daemon lock") q) _
        (context_of-keeps Q _ q h)
        λ _ v i. (record { message = another_daemon; causes = [] }, rw i refl)

  -- Behind the lock, at a socket at which a daemon listens.
  listen-IsTurnedAway :
      (s v : Site) (p : Bool)
      → s.socket ≡ listening p
      → v.socket ≡ s.socket
      → IsTurnedAway s (unlock_on_error (listen sys v))
  unfolding listen clear_socket
  listen-IsTurnedAway s v p l h = elim (Result-cases (socket_path sys.bridge_root)) [
    | inr (x, e) ↦ rw e (record { fails = λ path q. cc; same_socket = h })
    | inl (path, e) ↦
        let l' : v.socket ≡ listening p = h ∙ l in
        rw (e, l') (record { fails = λ path q. cc; same_socket = sym l })
  ]

  failed-IsTurnedAway :
      {A : Type 0} (s : Site) (p : Result A × Site) (f : A → B Bytes) (e : Error)
      → p.1.socket ≡ s.socket
      → p.0 ≡ err e
      → IsTurnedAway s (and_then p f)
  failed-IsTurnedAway s (ok a, v) f e h q = absurd cc
  failed-IsTurnedAway s (err x, v) f e h q = record { fails = λ path r. cc; same_socket = h }

  locked-IsTurnedAway :
      (s v : Site) (root : Bytes)
      → Same s v
      → IsServing s
      → IsTurnedAway s
          (and_then (acquire_daemon_lock sys root v) (λ _ u. unlock_on_error (listen sys u)))
  locked-IsTurnedAway s v root h (inl k) =
      let (e, f) = acquire-fails root v (h.same_locked ∙ k) in
      failed-IsTurnedAway s (acquire_daemon_lock sys root v) _ e
        (acquire-socket root v ∙ h.same_socket) f
  locked-IsTurnedAway s v root h (inr (p, l)) =
      then-IsTurnedAway s (λ u. u.socket ≡ s.socket) (acquire_daemon_lock sys root v) _ (λ u i. i)
        (acquire-socket root v ∙ h.same_socket) λ _ u i. listen-IsTurnedAway s u p l i

  -- While a daemon is running or starting, a second one fails, and leaves the socket of the first where it is.
  pub run_daemon-IsTurnedAway : (s : Site) → IsServing s → IsTurnedAway s (run_daemon sys s)
  unfolding run_daemon
  run_daemon-IsTurnedAway s serving =
      let socket_of : (v : Site) → Same s v → v.socket ≡ s.socket = λ v h. h.same_socket in
      then-IsTurnedAway s (Same s) (sys.bridge_root, s) _ socket_of
        (record { same_locked = refl; same_socket = refl })
        λ root v h.
          then-IsTurnedAway s (Same s) (in_disk (ensure_private_dir (sys.components root)) v) _
            socket_of (record { same_locked = h.same_locked; same_socket = h.same_socket })
            λ _ u i. locked-IsTurnedAway s u root i serving
