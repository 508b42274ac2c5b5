-- ===== src/Session/Supervisor/Reaping.antt =====
-- No child is left behind.
use ignibyte_bridge.Prelude.{◌≡◌, refl, ◌∙◌, Bytes, ℕ, Option, List, codes, Result, ok, err, ◌++◌}
use ignibyte_bridge.Effects.{and_then, and_then-ok, context_of, with_context, lift}
use ignibyte_bridge.Paths.{parse_command, child_path, path_join}
use ignibyte_bridge.Session.World.{Json, Env, sleep, input_fifo_name}
use ignibyte_bridge.Session.Metadata.{dir_of, load_metadata, record_child, promote}
use ignibyte_bridge.Session.Supervisor.{
  SpawnRequest, Setting, not_spawned, reaped, spawned, Supervision, S, in_world, resolved_in,
  spawn_request, geometry, spawned_as, waited, reap, wait_child, kill_child, run_child,
  supervise_pty,
}

-- Behind an outcome: the child, if there was one, has been waited for.
pub data IsReaped {A : Type 0} (p : Result A × Supervision) : Type 0 where
  no_child : p.1.child ≡ not_spawned → IsReaped p
  child_reaped : p.1.child ≡ reaped → IsReaped p

same-IsReaped :
    {A B : Type 0} (p : Result A × Supervision) (q : Result B × Supervision)
    → q.1.child ≡ p.1.child
    → IsReaped p
    → IsReaped q
same-IsReaped p q e (no_child h) = no_child (e ∙ h)
same-IsReaped p q e (child_reaped h) = child_reaped (e ∙ h)

then-IsReaped :
    {A B : Type 0} (p : Result A × Supervision) (f : A → S B)
    → IsReaped p
    → ((a : A) (v : Supervision) → IsReaped {A = A} (ok a, v) → IsReaped (f a v))
    → IsReaped (and_then p f)
then-IsReaped (ok a, v) f h k = k a v h
then-IsReaped (err e, v) f h k = same-IsReaped (err e, v) (err e, v) refl h

context-IsReaped :
    {A : Type 0} (message : Bytes) (p : Result A × Supervision)
    → IsReaped p
    → IsReaped (context_of message p)
context-IsReaped message (ok a, v) h = h
context-IsReaped message (err e, v) h = same-IsReaped (err e, v) _ refl h

waited-reaped :
    (r : Result (Bytes × ℕ)) (s : Supervision) (message : Bytes)
    (f : Bytes × ℕ → S (Bytes × Option ℕ)) (exit : Bytes × Option ℕ)
    → ((x : Bytes × ℕ) (v : Supervision) → (f x v).1.child ≡ v.child)
    → (and_then (context_of message (waited r s)) f).0 ≡ ok exit
    → (and_then (context_of message (waited r s)) f).1.child ≡ reaped
waited-reaped (ok x) s message f exit k h = k x (record s { child = reaped })
waited-reaped (err e) s message f exit k h = absurd cc

spawn-IsReaped :
    {A C : Type 0} (message : Bytes) (request : SpawnRequest) (r : Result (Option ℕ))
    (s : Supervision) (f : Option ℕ → S A) (q : Result C)
    → IsReaped (q, s)
    → ((pid : Option ℕ) (v : Supervision) → IsReaped (f pid v))
    → IsReaped (and_then (context_of message (spawned_as request r s)) f)
spawn-IsReaped message request (ok pid) s f q h k = k pid (record s { child = spawned request })
spawn-IsReaped message request (err e) s f q h k = same-IsReaped (q, s) _ refl h

module _ (json : Json) (env : Env) (t : Setting) where
  -- `run_child` returns success only behind the wait.
  run_child-reaped :
      (name dir : Bytes) (generation : ℕ) (pid : Option ℕ) (argv : List Bytes) (s : Supervision)
      (exit : Bytes × Option ℕ)
      → (run_child json env t name dir generation pid argv s).0 ≡ ok exit
      → (run_child json env t name dir generation pid argv s).1.child ≡ reaped
  unfolding run_child wait_child
  run_child-reaped name dir generation pid argv s exit =
      let Q : Bytes × Option ℕ → Supervision → Type 0 = λ _ v. v.child ≡ reaped in
      and_then-ok Q (in_world (record_child json name generation pid argv) s) _ exit λ _ a _.
        and_then-ok Q
          (with_context (codes "failed to open " ++ path_join dir input_fifo_name)
            (lift t.open_input) a)
          _ exit
          λ _ b _. and_then-ok Q (in_world (promote json name generation) b) _ exit λ _ c _.
            and_then-ok Q (lift t.take_ends c) _ exit λ _ d _.
              and_then-ok Q (in_world (sleep env) d) _ exit λ _ e _.
                waited-reaped t.wait_child e (codes "failed while waiting for child") _ exit
                  (λ x v. refl)

  module _ (exit : Bytes × ℕ) (waits : t.wait_child ≡ ok exit) where
    reap-reaped :
        (p : Result (Bytes × Option ℕ) × Supervision)
        → ((x : Bytes × Option ℕ) → p.0 ≡ ok x → p.1.child ≡ reaped)
        → IsReaped (reap t p.0 p.1)
    unfolding reap kill_child wait_child
    reap-reaped (ok x, v) h = child_reaped (h x refl)
    reap-reaped (err e, v) h = rw waits (child_reaped refl)

    -- Whatever fails, before or behind the spawn, and whatever the others do while the child runs: when
    -- `supervise_pty` returns, a child that it has spawned has been waited for, so that no zombie is left. Waiting
    -- for the child is taken to work.
    pub supervise-IsReaped :
        (name cwd cmd : Bytes) (client_path : Option Bytes) (generation : ℕ) (s : Supervision)
        → s.child ≡ not_spawned
        → IsReaped (supervise_pty json env t name cwd cmd client_path generation s)
    unfolding supervise_pty
    supervise-IsReaped name cwd cmd client_path generation s h =
        then-IsReaped (lift (parse_command t.shell_split cmd) s) _ (no_child h) λ words a i.
          then-IsReaped (lift (dir_of name a.world) a) _ (same-IsReaped _ _ refl i) λ dir b j.
            let m = load_metadata json name b.world in
            let c = record b { world = m.1 } in
            let r = t.openpty (geometry m.0).0 (geometry m.0).1 in
            then-IsReaped (with_context (codes "failed to open PTY") (lift r) c) _
              (context-IsReaped (codes "failed to open PTY") (r, c) (same-IsReaped _ _ refl j))
              λ _ d l.
                let path = child_path t.home t.own_path client_path in
                let argv = resolved_in t path words in
                let request = spawn_request argv cwd path in
                spawn-IsReaped (codes "failed to spawn command in PTY") request
                  (t.spawn_command request) d _ _ l
                  λ pid v.
                    let q = run_child json env t name dir generation pid argv v in
                    reap-reaped q (run_child-reaped name dir generation pid argv v)
