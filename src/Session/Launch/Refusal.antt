-- ===== src/Session/Launch/Refusal.antt =====
-- Starts that are refused.
use ignibyte_bridge.Prelude.{
  ◌≡◌, ◌≢◌, ◌⊎◌, arith, Bool, ◌||◌, refl, inl, inr, ℕ, true, Bytes, Option, none, some, codes,
  Error, Result, ok, err, Bool-cases, [],
}
use ignibyte_bridge.Effects.{and_then, and_then-keeps, and_then-fails, context_of-keeps, context_of}
use ignibyte_bridge.Paths.{validate_session_name, resolve_cwd, path_join}
use ignibyte_bridge.Files.{Disk}
use ignibyte_bridge.Files.Operations.{ensure_bridge_dir, create_private_file}
use ignibyte_bridge.Session.World.{SessionMetadata, running, Os, Json, Env}
use ignibyte_bridge.Session.Process.{pid_is_ours, session_is_active}
use ignibyte_bridge.Session.Metadata.{dir_of, current, load_metadata}
use ignibyte_bridge.Session.Launch.{
  Host, H, Launcher, in_disk, components_of, take_lock, acquire_start_lock, already_starting,
  releasing, check_inactive, start_locked, start_by, launch_process, launch, supervisor_thread,
  start_session_detached, start_session_in_daemon,
}

-- A start that fails and leaves the sessions, and what runs, as they were.
pub record IsRefused (h : Host) (p : Result SessionMetadata × Host) : Type 0 where
  pub fails : (m : SessionMetadata) → p.0 ≢ ok m
  pub same_world : p.1.world ≡ h.world
  pub same_launched : p.1.launched ≡ h.launched

-- Only the disk and the locks may have changed.
pub record Before (h v : Host) : Type 0 where
  pub same_world : v.world ≡ h.world
  pub same_launched : v.launched ≡ h.launched

-- Only the disk may have changed.
record Unlocked (h v : Host) : Type 0 where
  pub before : Before h v
  pub same_locked : v.locked ≡ h.locked

IsRefused-here : (h v : Host) (e : Error) → Before h v → IsRefused h (err e, v)
IsRefused-here h v e b = record {
  fails = λ m q. cc;
  same_world = b.same_world;
  same_launched = b.same_launched;
}

Unlocked-refl : (h : Host) → Unlocked h h
Unlocked-refl h = record {
  before = record { same_world = refl; same_launched = refl };
  same_locked = refl;
}

Unlocked-disk : (h v : Host) (d : Disk) → Unlocked h v → Unlocked h (record v { disk = d })
Unlocked-disk h v d u = record {
  before = record { same_world = u.before.same_world; same_launched = u.before.same_launched };
  same_locked = u.same_locked;
}

-- The parts before keep what the rest stands on.
then-IsRefused :
    {A : Type 0} (h : Host) (R : Host → Type 0) (p : Result A × Host) (f : A → H SessionMetadata)
    → ((v : Host) → R v → Before h v)
    → R p.1
    → ((a : A) (v : Host) → p.0 ≡ ok a → R v → IsRefused h (f a v))
    → IsRefused h (and_then p f)
then-IsRefused h R (ok a, v) f i r k = k a v refl r
then-IsRefused h R (err e, v) f i r k = IsRefused-here h v e (i v r)

failed-IsRefused :
    {A : Type 0} (h : Host) (p : Result A × Host) (f : A → H SessionMetadata) (e : Error)
    → Before h p.1
    → p.0 ≡ err e
    → IsRefused h (and_then p f)
failed-IsRefused h (ok a, v) f x b q = absurd cc
failed-IsRefused h (err e, v) f x b q = IsRefused-here h v e b

or_true : (b : Bool) → (b || true) ≡ true
or_true b = ground arith

module _ (json : Json) (env : Env) (l : Launcher) (name : Bytes) where
  -- The session's start lock is held; or its metadata say that it is running, and its supervisor or its child
  -- is alive, with the start time that is on record.
  pub data IsTaken (h : Host) : Type 0 where
    is_starting : (dir : Bytes) → dir_of name h.world ≡ ok dir → h.locked dir ≡ true → IsTaken h
    is_active :
        (m : SessionMetadata)
        → current json h.world name ≡ ok m
        → m.status ≡ running
        → (pid_is_ours h.world.os m.supervisor_pid m.supervisor_start_time ≡ true)
          ⊎ (pid_is_ours h.world.os m.child_pid m.child_start_time ≡ true)
        → IsTaken h

  active_running :
      (os : Os) (m : SessionMetadata)
      → m.status ≡ running
      → (pid_is_ours os m.supervisor_pid m.supervisor_start_time ≡ true)
        ⊎ (pid_is_ours os m.child_pid m.child_start_time ≡ true)
      → session_is_active os m ≡ true
  unfolding session_is_active
  active_running os m r (inl h) = rw (r, h) refl
  active_running os m r (inr h) =
      rw (r, h) (or_true (pid_is_ours os m.supervisor_pid m.supervisor_start_time))

  take_lock-Before :
      (h v : Host) (message dir : Bytes) (fault : Option Error)
      → Before h v
      → Before h (context_of message (take_lock fault dir v)).1
  take_lock-Before h v message dir none b = record {
    same_world = b.same_world;
    same_launched = b.same_launched;
  }
  take_lock-Before h v message dir (some e) b = b

  pub acquire-Before :
      (h v : Host) (dir : Bytes) → Before h v → Before h (acquire_start_lock l dir name v).1
  unfolding acquire_start_lock
  acquire-Before h v dir b =
      let p = create_private_file (l.components (path_join dir (codes "start.lock"))) v.disk in
      and_then-keeps (Before h)
        (context_of (codes "failed to open session start lock") (p.0, record v { disk = p.1 })) _
        (context_of-keeps (Before h) _ (p.0, record v { disk = p.1 })
          (record { same_world = b.same_world; same_launched = b.same_launched }))
        λ _ w i. elim (Bool-cases (w.locked dir)) [
          | inl e ↦ rw e i
          | inr e ↦
              rw e (take_lock-Before h w (codes "failed to lock session start") dir l.flock_fault i)
        ]

  acquire-fails :
      (v : Host) (dir : Bytes)
      → v.locked dir ≡ true
      → (e : Error) × ((acquire_start_lock l dir name v).0 ≡ err e)
  unfolding acquire_start_lock
  acquire-fails v dir h =
      let p = create_private_file (l.components (path_join dir (codes "start.lock"))) v.disk in
      let R : Host → Type 0 = λ w. w.locked dir ≡ true in
      and_then-fails R
        (context_of (codes "failed to open session start lock") (p.0, record v { disk = p.1 })) _
        (context_of-keeps R _ (p.0, record v { disk = p.1 }) h)
        λ _ w i. (record { message = already_starting name; causes = [] }, rw i refl)

  locked-IsRefused :
      (launching : Bytes → ℕ → H (Unit {0})) (cwd cmd dir : Bytes) (rows cols : Option ℕ)
      (h v : Host)
      → Before h v
      → (m : SessionMetadata) → current json h.world name ≡ ok m
      → session_is_active h.world.os m ≡ true
      → IsRefused h (releasing dir (start_locked json env l launching name cwd cmd rows cols) v)
  unfolding start_locked check_inactive load_metadata
  locked-IsRefused launching cwd cmd dir rows cols h v b m c a =
      let c' : current json v.world name ≡ ok m = rw b.same_world c in
      let a' : session_is_active v.world.os m ≡ true = rw b.same_world a in
      rw (c', a')
        (record { fails = λ m q. cc; same_world = b.same_world; same_launched = b.same_launched })

  taken-IsRefused :
      (launching : Bytes → ℕ → H (Unit {0})) (cwd cmd dir : Bytes) (rows cols : Option ℕ)
      (h v : Host)
      → Unlocked h v
      → dir_of name h.world ≡ ok dir
      → IsTaken h
      → IsRefused h (
          and_then
            (acquire_start_lock l dir name v)
            (λ _. releasing dir (start_locked json env l launching name cwd cmd rows cols)))
  taken-IsRefused launching cwd cmd dir rows cols h v u q (is_starting dir' q' k) =
      let e : dir' ≡ dir = cc in
      let k' : v.locked dir' ≡ true = rw u.same_locked k in
      let (x, f) = acquire-fails v dir (rw e at k') in
      failed-IsRefused h (acquire_start_lock l dir name v) _ x (acquire-Before h v dir u.before) f
  taken-IsRefused launching cwd cmd dir rows cols h v u q (is_active m c r a) =
      then-IsRefused h (Before h) (acquire_start_lock l dir name v) _ (λ w b. b)
        (acquire-Before h v dir u.before)
        λ _ w _ b.
          locked-IsRefused launching cwd cmd dir rows cols h w b m c
            (active_running h.world.os m r a)

  start_by-IsRefused :
      (launching : Bytes → ℕ → H (Unit {0})) (cwd : Option Bytes) (cmd : Bytes)
      (rows cols : Option ℕ) (h : Host)
      → IsTaken h
      → IsRefused h (start_by json env l launching name cwd cmd rows cols h)
  unfolding start_by
  start_by-IsRefused launching cwd cmd rows cols h taken =
      let i : (v : Host) → Unlocked h v → Before h v = λ v u. u.before in
      then-IsRefused h (Unlocked h) (validate_session_name name, h) _ i (Unlocked-refl h)
        λ _ a _ ua.
          then-IsRefused h (Unlocked h) (resolve_cwd l.current_dir l.canonicalize l.is_dir cwd, a) _
            i ua
            λ path b _ ub.
              then-IsRefused h (Unlocked h) (dir_of name b.world, b) _ i ub
                λ dir c q uc.
                  then-IsRefused h (Unlocked h)
                    (in_disk (ensure_bridge_dir (components_of l b.world.root) (l.components dir))
                      c)
                    _ i (Unlocked-disk h c _ uc)
                    λ _ d _ ud.
                      taken-IsRefused launching path cmd dir rows cols h d ud
                        (let s = ub.before.same_world in rw s at q) taken

  -- While a start of a session is under way, or its metadata say that it is running and its supervisor or its
  -- child is alive, any other start fails, direct or by the daemon, and then nothing was launched and no session's metadata, logs or FIFO
  -- have changed.
  pub start-IsRefused :
      (cwd : Option Bytes) (cmd : Bytes) (client_path : Option Bytes) (rows cols : Option ℕ)
      (h : Host)
      → IsTaken h
      → IsRefused h (start_session_detached json env l name cwd cmd rows cols h)
        × IsRefused h (start_session_in_daemon json env l name cwd cmd client_path rows cols h)
  unfolding start_session_detached start_session_in_daemon
  start-IsRefused cwd cmd client_path rows cols h taken = (
    start_by-IsRefused (launch_process json env l name cmd) cwd cmd rows cols h taken,
    start_by-IsRefused
        (λ path generation. launch (supervisor_thread name path cmd client_path generation)) cwd cmd
        rows cols h taken,
  )
