-- ===== src/Session/Launch/Success.antt =====
-- Starts that succeed.
use ignibyte_bridge.Prelude.{
  ◌≡◌, refl, sym, ap, ◌∙◌, ℕ, Bytes, Option, [], ◌∷◌, ◌++◌, Result, ok, err, codes,
}
use ignibyte_bridge.Effects.{and_then, and_then-ok, context_of, with_context, lift, ◌>>◌}
use ignibyte_bridge.Paths.{validate_session_name, resolve_cwd}
use ignibyte_bridge.Files.Operations.{ensure_bridge_dir}
use ignibyte_bridge.Session.World.{SessionMetadata, Json, Env}
use ignibyte_bridge.Session.Metadata.{dir_of, current, load_metadata}
use ignibyte_bridge.Session.Start.{initialize_session_files}
use ignibyte_bridge.Session.Start.Waiting.{IsStarted, wait-IsStarted, wait-current}
use ignibyte_bridge.Session.Launch.{
  Host, H, Launcher, Launched, supervisor_process, supervisor_thread, in_disk, in_world,
  components_of, acquire_start_lock, release, check_inactive, start_locked, start_by,
  launch_process, launch, supervisor_argv, start_session_detached, start_session_in_daemon,
}
use ignibyte_bridge.Session.Launch.Refusal.{acquire-Before}

module _ (json : Json) (env : Env) (l : Launcher) (name : Bytes) where
  -- One run, with a property of its directory and its generation, was launched, and it was seen to start.
  pub record IsLaunch (R : Bytes → ℕ → Launched → Type 0) (cwd : Option Bytes) (h v : Host)
      (m : SessionMetadata) : Type 0 where
    pub path : Bytes
    pub generation : ℕ
    pub run : Launched
    pub resolved : resolve_cwd l.current_dir l.canonicalize l.is_dir cwd ≡ ok path
    pub is_run : R path generation run
    pub one_launched : v.launched ≡ h.launched ++ run ∷ []
    pub started : IsStarted m
    pub reported : current json v.world name ≡ ok m

  -- A launch that succeeds launches one run.
  LaunchesOne : (Bytes → ℕ → Launched → Type 0) → (Bytes → ℕ → H (Unit {0})) → Type 0
  LaunchesOne R launching =
      (path : Bytes) (generation : ℕ) (v : Host)
      → (launching path generation v).0 ≡ ok tt
      → (run : Launched) × R path generation run
        × ((launching path generation v).1.launched ≡ v.launched ++ run ∷ [])

  module _ (R : Bytes → ℕ → Launched → Type 0) (launching : Bytes → ℕ → H (Unit {0}))
      (launches : LaunchesOne R launching) (cwd : Option Bytes) (cmd : Bytes) (rows cols : Option ℕ)
      (h : Host) (m : SessionMetadata) where
    abbrev Goal : SessionMetadata → Host → Type 0
    Goal m v = IsLaunch R cwd h v m

    released-IsLaunch :
        (dir : Bytes) (v : Host) → IsLaunch R cwd h v m → IsLaunch R cwd h (release dir v) m
    released-IsLaunch dir v i = record {
      path = i.path;
      generation = i.generation;
      run = i.run;
      resolved = i.resolved;
      is_run = i.is_run;
      one_launched = i.one_launched;
      started = i.started;
      reported = i.reported;
    }

    locked-IsLaunch :
        (path : Bytes) (v : Host)
        → resolve_cwd l.current_dir l.canonicalize l.is_dir cwd ≡ ok path
        → v.launched ≡ h.launched
        → (start_locked json env l launching name path cmd rows cols v).0 ≡ ok m
        → IsLaunch R cwd h (start_locked json env l launching name path cmd rows cols v).1 m
    unfolding start_locked load_metadata LaunchesOne
    locked-IsLaunch path v e k =
        and_then-ok Goal (check_inactive v.world.os name (current json v.world name), v) _ m
          λ _ a q.
            and_then-ok Goal
              (in_world (initialize_session_files json l.shell_split name path cmd rows cols) a) _ m
              λ g b r. and_then-ok Goal (launching path g b) _ m λ _ c t s.
                let (run, i, j) = launches path g b (ap (λ p. p.0) t) in
                record {
                  path = path;
                  generation = g;
                  run = run;
                  resolved = e;
                  is_run = i;
                  one_launched =
                      sym (ap (λ p. p.1.launched) t)
                      ∙ (j
                          ∙ ap (λ before. before ++ run ∷ [])
                              (sym (ap (λ p. p.1.launched) r)
                                ∙ (sym (ap (λ p. p.1.launched) q) ∙ k)));
                  started = wait-IsStarted json env name c.world m s;
                  reported = wait-current json env name c.world m s;
                }

    start_by-IsLaunch :
        (start_by json env l launching name cwd cmd rows cols h).0 ≡ ok m
        → IsLaunch R cwd h (start_by json env l launching name cwd cmd rows cols h).1 m
    unfolding start_by
    start_by-IsLaunch =
        and_then-ok Goal (validate_session_name name, h) _ m
          λ _ a q.
            and_then-ok Goal (resolve_cwd l.current_dir l.canonicalize l.is_dir cwd, a) _ m
              λ path b r.
                and_then-ok Goal (dir_of name b.world, b) _ m
                  λ dir c s.
                    and_then-ok Goal
                      (in_disk (ensure_bridge_dir (components_of l b.world.root) (l.components dir))
                        c)
                      _ m
                      λ _ d t. and_then-ok Goal (acquire_start_lock l dir name d) _ m λ _ e u k.
                        let before =
                          (acquire-Before json env l name d d dir
                            (record { same_world = refl; same_launched = refl })).same_launched in
                        released-IsLaunch dir _ (
                          locked-IsLaunch path e (ap (λ p. p.0) r)
                            (sym (ap (λ p. p.1.launched) u)
                              ∙ (before
                                  ∙ (sym (ap (λ p. p.1.launched) t)
                                      ∙ (sym (ap (λ p. p.1.launched) s)
                                          ∙ (sym (ap (λ p. p.1.launched) r)
                                              ∙ sym (ap (λ p. p.1.launched) q))))))
                            k)

  -- The process of a run, with its arguments: the program itself, as its supervisor, with the session's name last.
  pub data ProcessOf (cmd path : Bytes) (generation : ℕ) : Launched → Type 0 where
    own_process :
        (exe : Bytes)
        → l.current_exe ≡ ok exe
        → ProcessOf cmd path generation (
            supervisor_process (
              exe
              ∷ codes "supervisor"
              ∷ codes "--cwd"
              ∷ path
              ∷ codes "--cmd"
              ∷ cmd
              ∷ codes "--"
              ∷ name
              ∷ []))

  -- The thread of a run.
  pub data ThreadOf (cmd : Bytes) (client_path : Option Bytes) (path : Bytes) (generation : ℕ)
      : Launched → Type 0 where
    own_thread :
        ThreadOf cmd client_path path generation
          (supervisor_thread name path cmd client_path generation)

  launched_exe :
      (cmd path : Bytes) (generation : ℕ) (v : Host) (r : Result Bytes)
      → l.current_exe ≡ r
      → (s : Result (Unit {0}))
      → let p = and_then (context_of (codes "failed to locate current executable") (r, v)) (λ exe.
        with_context (codes "failed to spawn session supervisor") (lift s)
        >> launch (supervisor_process (supervisor_argv exe path cmd name))) in
        p.0 ≡ ok tt
        → (run : Launched) × ProcessOf cmd path generation run
          × (p.1.launched ≡ v.launched ++ run ∷ [])
  unfolding supervisor_argv
  launched_exe cmd path g v (ok exe) e (ok _) h =
      (supervisor_process (supervisor_argv exe path cmd name), own_process exe e, refl)
  launched_exe cmd path g v (ok exe) e (err x) h = absurd cc
  launched_exe cmd path g v (err x) e s h = absurd cc

  -- A direct start that succeeds has launched one run, a supervisor process in the directory that was asked
  -- for, with the arguments `supervisor --cwd DIR --cmd CMD -- NAME`; and the metadata that it returns are those of
  -- the session at its end, running, or stopped with exit code 0.
  pub start_detached-IsLaunch :
      (cwd : Option Bytes) (cmd : Bytes) (rows cols : Option ℕ) (h : Host) (m : SessionMetadata)
      → (start_session_detached json env l name cwd cmd rows cols h).0 ≡ ok m
      → IsLaunch
          (ProcessOf cmd)
          cwd
          h
          (start_session_detached json env l name cwd cmd rows cols h).1
          m
  unfolding start_session_detached launch_process LaunchesOne
  start_detached-IsLaunch cwd cmd =
      start_by-IsLaunch (ProcessOf cmd) (launch_process json env l name cmd)
        (λ path g v. launched_exe cmd path g v l.current_exe refl l.spawn) cwd cmd

  -- A start by the daemon that succeeds has launched one run, a thread in the directory that was asked for, that
  -- is given the client's PATH; and the metadata that it returns are those of the session at its end, running,
  -- or stopped with exit code 0.
  pub start_in_daemon-IsLaunch :
      (cwd : Option Bytes) (cmd : Bytes) (client_path : Option Bytes) (rows cols : Option ℕ)
      (h : Host) (m : SessionMetadata)
      → (start_session_in_daemon json env l name cwd cmd client_path rows cols h).0 ≡ ok m
      → IsLaunch
          (ThreadOf cmd client_path)
          cwd
          h
          (start_session_in_daemon json env l name cwd cmd client_path rows cols h).1
          m
  unfolding start_session_in_daemon LaunchesOne
  start_in_daemon-IsLaunch cwd cmd client_path =
      start_by-IsLaunch (ThreadOf cmd client_path)
        (λ path g. launch (supervisor_thread name path cmd client_path g))
        (λ path g v _. (supervisor_thread name path cmd client_path g, own_thread, refl)) cwd cmd
