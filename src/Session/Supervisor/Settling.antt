-- ===== src/Session/Supervisor/Settling.antt =====
-- A supervisor that returns success has brought its run to an end.
use ignibyte_bridge.Prelude.{
  ◌≡◌, inl, inr, ap, Bytes, ℕ, suc, Option, none, some, List, codes, Result, ok, err, Result-cases,
  subst, ◌++◌,
}
use ignibyte_bridge.Effects.{
  and_then, and_then-ok, and_then-keeps, context_of-keeps, context_of, with_context, lift,
}
use ignibyte_bridge.Paths.{validate_session_name, parse_command, child_path, path_join}
use ignibyte_bridge.Procinfo.{process_start_time}
use ignibyte_bridge.Session.World.{
  SessionMetadata, Json, RoundTrips, Env, World, sleep, input_fifo_name,
}
use ignibyte_bridge.Session.Metadata.{
  current, dir_of, load_metadata, save_metadata, record_supervisor, record_child, promote,
}
use ignibyte_bridge.Session.Metadata.Saving.{current-dir}
use ignibyte_bridge.Session.Lifecycle.Continuation.{
  Follows, supervisor-Follows, child-Follows, promote-Follows,
}
use ignibyte_bridge.Session.Progress.{Past, past, Past-trans, Advances, sleep-Past}
use ignibyte_bridge.Session.Progress.Ends.{Over, mark-Over}
use ignibyte_bridge.Session.Supervisor.{
  SpawnRequest, Setting, Supervision, in_world, resolved_in, spawn_request, geometry, spawned_as,
  waited, reap, wait_child, kill_child, run_child, supervise_pty, mark_ended, run_supervisor,
}

returned :
    (g x : ℕ) (p : Result (Unit {0}) × World) → (and_then p (λ _ v. (ok g, v))).0 ≡ ok x → g ≡ x
returned g x (ok _, v) e = cc
returned g x (err _, v) e = absurd cc

module _ (json : Json) (rt : RoundTrips json) (name : Bytes) where
  Follows-Past :
      {m' : SessionMetadata} {k : ℕ} {w : World} → Follows json name m' k w → Past json name m' w
  Follows-Past f = past f.now_there f.loads f.named f.later

  module _ (m : SessionMetadata) where
    child-Past :
        (g : ℕ) (pid : Option ℕ) (argv : List Bytes) (w : World)
        → Past json name m w
        → Past json name m (record_child json name g pid argv w).1
    child-Past g pid argv w (past m' c n l) =
        Past-trans json name l (Follows-Past (child-Follows json name rt w m' n c g pid argv))

    promote-Past :
        (g : ℕ) (w : World) → Past json name m w → Past json name m (promote json name g w).1
    promote-Past g w (past m' c n l) =
        Past-trans json name l (Follows-Past (promote-Follows json name rt w m' n c g))

    IsUnderWay : Supervision → Type 0
    IsUnderWay s = Past json name m s.world

    module _ (env : Env) (advances : Advances json name env) (t : Setting) where
      waited-Past :
          (r : Result (Bytes × ℕ)) (s : Supervision)
          → Past json name m s.world
          → Past json name m (waited r s).1.world
      waited-Past (ok exit) s h = h
      waited-Past (err e) s h = h

      run_child-Past :
          (dir : Bytes) (g : ℕ) (pid : Option ℕ) (argv : List Bytes) (s : Supervision)
          → IsUnderWay s
          → IsUnderWay (run_child json env t name dir g pid argv s).1
      unfolding run_child wait_child IsUnderWay sleep
      run_child-Past dir g pid argv s h =
          let Q : Supervision → Type 0 = λ v. Past json name m v.world in
          and_then-keeps Q (in_world (record_child json name g pid argv) s) _
            (child-Past g pid argv s.world h)
            λ _ a i.
              and_then-keeps Q
                (with_context (codes "failed to open " ++ path_join dir input_fifo_name)
                  (lift t.open_input) a)
                _ (context_of-keeps Q _ (t.open_input, a) i)
                λ _ b j.
                  and_then-keeps Q (in_world (promote json name g) b) _ (promote-Past g b.world j)
                    λ _ c k.
                      and_then-keeps Q (t.take_ends, c) _ k
                        λ _ d l.
                          let e = in_world (sleep env) d in
                          and_then-keeps Q
                            (with_context (codes "failed while waiting for child")
                              (waited t.wait_child) e.1)
                            _
                            (context_of-keeps Q _ (waited t.wait_child e.1) (
                              waited-Past t.wait_child e.1
                                (sleep-Past json name env advances m d.world l)))
                            λ _ f o. o

      reap-Past :
          (r : Result (Bytes × Option ℕ)) (s : Supervision)
          → IsUnderWay s
          → IsUnderWay (reap t r s).1
      unfolding reap kill_child wait_child IsUnderWay
      reap-Past (ok x) s h = h
      reap-Past (err e) s h = waited-Past t.wait_child (record s { kills = suc s.kills }) h

      spawned-Past :
          (request : SpawnRequest) (r : Result (Option ℕ)) (s : Supervision)
          → Past json name m s.world
          → Past json name m (spawned_as request r s).1.world
      spawned-Past request (ok pid) s h = h
      spawned-Past request (err e) s h = h

      supervise-Past :
          (cwd cmd : Bytes) (client_path : Option Bytes) (g : ℕ) (s : Supervision)
          → IsUnderWay s
          → IsUnderWay (supervise_pty json env t name cwd cmd client_path g s).1
      unfolding supervise_pty IsUnderWay load_metadata
      supervise-Past cwd cmd client_path g s h =
          let Q : Supervision → Type 0 = λ v. Past json name m v.world in
          and_then-keeps Q (parse_command t.shell_split cmd, s) _ h
            λ words a i.
              and_then-keeps Q (dir_of name a.world, a) _ i
                λ dir b j.
                  let size = geometry (current json b.world name) in
                  let r = t.openpty size.0 size.1 in
                  and_then-keeps Q (context_of (codes "failed to open PTY") (r, b)) _
                    (context_of-keeps Q (codes "failed to open PTY") (r, b) j)
                    λ _ d l.
                      let path = child_path t.home t.own_path client_path in
                      let argv = resolved_in t path words in
                      let request = spawn_request argv cwd path in
                      let q = spawned_as request (t.spawn_command request) d in
                      and_then-keeps Q (context_of (codes "failed to spawn command in PTY") q) _
                        (context_of-keeps Q _ q
                          (spawned-Past request (t.spawn_command request) d l))
                        λ pid e k.
                          let p = run_child json env t name dir g pid argv e in
                          reap-Past p.0 p.1 (run_child-Past dir g pid argv e k)

      supervisor-Past :
          (pid : ℕ) (w : World)
          → current json w name ≡ ok m
          → m.name ≡ name
          → Past json name m (record_supervisor json name pid w).1
      supervisor-Past pid w c n = Follows-Past (supervisor-Follows json name rt w m n c pid)

      recorded_generation :
          (w : World) (pid g : ℕ)
          → current json w name ≡ ok m
          → (record_supervisor json name pid w).0 ≡ ok g
          → m.generation ≡ g
      unfolding record_supervisor load_metadata
      recorded_generation w pid g c =
          let (dir, d) = current-dir json w name m c in
          let m' = record m {
            supervisor_pid = some pid;
            supervisor_start_time = process_start_time (w.os.stat pid);
            updated_at_unix = w.now;
          } in
          rw (d, c) (returned m.generation g (save_metadata json m' w))

      ended-Over :
          (r : Result (Bytes × Option ℕ)) (w : World)
          → Past json name m w
          → (mark_ended json name m.generation r w).0 ≡ ok tt
          → Over json name m (mark_ended json name m.generation r w).1
      unfolding mark_ended
      ended-Over (ok (status, code)) w = mark-Over json name rt m w (some status) code
      ended-Over (err e) w = mark-Over json name rt m w (some e.message) none

      -- If a supervisor returns success, whether its child has run to an end or failed to, the run that it found
      -- is over: the session has stopped, or a newer run has taken its place. The others may do to the
      -- session what they like while the child runs, as long as they let it only advance.
      -- What is serialized is taken to be read back.
      pub run_supervisor-Over :
          (cwd cmd : Bytes) (pid : ℕ) (s : Supervision)
          → current json s.world name ≡ ok m
          → m.name ≡ name
          → (run_supervisor json env t name cwd cmd pid s).0 ≡ ok tt
          → Over json name m (run_supervisor json env t name cwd cmd pid s).1.world
      unfolding run_supervisor IsUnderWay
      run_supervisor-Over cwd cmd pid s c n = elim (Result-cases (validate_session_name name)) [
        | inr (x, v) ↦ rw v (λ h. absurd cc)
        | inl (_, v) ↦ rw v (
            and_then-ok (λ _ v. Over json name m v.world)
              (in_world (record_supervisor json name pid) s) _ tt
              λ g b q.
                let e = recorded_generation s.world pid g c (ap (λ p. p.0) q) in
                let h =
                  subst (λ p. Past json name m p.1.world) q (supervisor-Past pid s.world c n) in
                let p = supervise_pty json env t name cwd cmd none g b in
                subst
                  (λ k.
                    (mark_ended json name k p.0 p.1.world).0 ≡ ok tt
                    → Over json name m (mark_ended json name k p.0 p.1.world).1)
                  e (ended-Over p.0 p.1.world (supervise-Past cwd cmd none g b h)))
      ]
