-- ===== src/Daemon/Shutdown/Complete.antt =====
-- A shutdown that succeeds leaves no run behind.
use ignibyte_bridge.Prelude.{
  ◌≡◌, ◌⊎◌, ap, inl, inr, Bool-cases, true, some, List, [], ◌∷◌, Bytes, is_empty, Result, ok,
  Result-cases, subst,
}
use mathlib.Core.List.{Memᴰ}
use mathlib.Core.List.Memᴰ
use ignibyte_bridge.Effects.{and_then, and_then-keeps, and_then-ok, lift}
use ignibyte_bridge.Paths.{sessions_root}
use ignibyte_bridge.Session.World.{SessionMetadata, stopped, Json, RoundTrips, World, Env}
use ignibyte_bridge.Session.Metadata.{current}
use ignibyte_bridge.Session.Lifecycle.Ordering.{Later, Later-refl, Later-trans, status-cases}
use ignibyte_bridge.Session.Stop.{stop_session_silent}
use ignibyte_bridge.Session.Progress.{past}
use ignibyte_bridge.Session.Progress.Ends.{Over, over, stop-Over}
use ignibyte_bridge.Session.Progress.Sessions.{IsWellNamed, Advanced, IsOrderly, stop-Advanced}
use ignibyte_bridge.Session.Reports.{DirEntry, collect, sort_by}
use ignibyte_bridge.Daemon.Shutdown.{
  live_names, Gathered, noted, stop_each, shutdown_result, shutdown_entries,
  shutdown_sessions_for_daemon,
}
use ignibyte_bridge.Daemon.Shutdown.Listed.{
  Over-Later, live-Mem, noted_ok, noted_result, noted_state, sort-Mem, still_over,
}

module _ (json : Json) (rt : RoundTrips json) (env : Env) (orderly : IsOrderly json env) where
  each-Advanced :
      (names : List Bytes) (n : Bytes) (m : SessionMetadata) (w : World)
      → Advanced json n m w
      → Advanced json n m (stop_each json env names w).1
  unfolding stop_each
  each-Advanced [] n m w h = h
  each-Advanced (k ∷ ks) n m w h =
      let v = (stop_session_silent json env k w).1 in
      and_then-keeps (Advanced json n m) (stop_each json env ks v) _
        (each-Advanced ks n m v (stop-Advanced json rt env orderly n k m w h)) λ _ u i. i

  -- A stop of the session itself, and then of others.
  stopped-Over :
      (n : Bytes) (m : SessionMetadata) (ks : List Bytes) (w : World)
      → Advanced json n m w
      → (stop_session_silent json env n w).0 ≡ ok tt
      → Over json n m (stop_each json env ks (stop_session_silent json env n w).1).1
  stopped-Over n m ks w h e = elim h.is_past [
    | past m' c k l ↦ go m' l (stop-Over json n rt m' env w (orderly.advances n) c k e)
  ]
    where
      v : World
      v = (stop_session_silent json env n w).1

      go :
          (m' : SessionMetadata)
          → Later m m'
          → Over json n m' v
          → Over json n m (stop_each json env ks v).1
      go m' l (over x c k l' o) =
          let a = stop-Advanced json rt env orderly n n m w h in
          let b =
            each-Advanced ks n x v
              (record { well_named = a.well_named; is_past = past x c k (Later-refl x) }) in
          Over-Later json n m x _ (Later-trans l l') (still_over m m' x l o) b.is_past

  each-Over :
      (names : List Bytes) (n : Bytes) (m : SessionMetadata) (w : World) (g : Gathered)
      → Advanced json n m w
      → Memᴰ n names
      → (stop_each json env names w).0 ≡ ok g
      → is_empty g.errors ≡ true
      → Over json n m (stop_each json env names w).1
  unfolding stop_each
  each-Over [] n m w g h i e z = absurd (Memᴰ.not-nil i)
  each-Over (k ∷ ks) n m w g h i e z =
      let p = stop_session_silent json env k w in
      let q = stop_each json env ks p.1 in
      let (rest, f, t) = noted_result k p.0 q g e in
      let z' : is_empty (noted k p.0 rest).errors ≡ true = rw t z in
      let (stopped_k, none_else) = noted_ok k p.0 rest z' in
      rw (noted_state k p.0 q) (elim (Memᴰ.cases_cons i) [
        | inl a ↦
            let s : (stop_session_silent json env n w).0 ≡ ok tt = rw a stopped_k in
            subst
              (λ y. Over json n m (stop_each json env ks (stop_session_silent json env y w).1).1) a
              (stopped-Over n m ks w h s)
        | inr b ↦
            each-Over ks n m p.1 rest (stop-Advanced json rt env orderly n k m w h) b f none_else
      ])

  listed-Over :
      (names : List Bytes) (n : Bytes) (m : SessionMetadata) (w : World) (out : Bytes)
      → Advanced json n m w
      → (m.status ≡ stopped) ⊎ Memᴰ n names
      → (and_then (stop_each json env names w) (λ g. lift (shutdown_result g))).0 ≡ ok out
      → Over json n m (and_then (stop_each json env names w) (λ g. lift (shutdown_result g))).1
  listed-Over names n m w out h (inl s) e =
      let a =
        and_then-keeps (Advanced json n m) (stop_each json env names w)
          (λ g. lift (shutdown_result g)) (each-Advanced names n m w h) (λ g v i. i) in
      Over-Later json n m m _ (Later-refl m) (inr s) a.is_past
  listed-Over names n m w out h (inr i) f =
      and_then-ok (λ _ v. Over json n m v) (stop_each json env names w)
        (λ g. lift (shutdown_result g)) out
        (λ g v q e. elim (Bool-cases (is_empty g.errors)) [
          | inl z ↦
              subst (λ p. Over json n m p.1) q (each-Over names n m w g h i (ap (λ p. p.0) q) z)
          | inr z ↦ absurd (let r = rw z at e in cc)
        ])
        f

  -- If the daemon's shutdown of the sessions succeeds, the run of every session that it lists is over: the
  -- session has stopped, or a newer run has taken its place. The others may do to the sessions what they
  -- like while a stop waits, as long as they let each only advance and keep its name in its metadata.
  -- At the start, too, the metadata that are stored for a session bear its name; and what is serialized is
  -- taken to be read back.
  pub shutdown-Over :
      (es : List (Result DirEntry)) (sessions : List SessionMetadata) (w : World) (out : Bytes)
      → IsWellNamed json w
      → collect (current json w) es ≡ ok sessions
      → (n : Bytes) (m : SessionMetadata) → current json w n ≡ ok m
      → Memᴰ m sessions
      → (shutdown_sessions_for_daemon json env (some (ok es)) w).0 ≡ ok out
      → Over json n m (shutdown_sessions_for_daemon json env (some (ok es)) w).1
  unfolding shutdown_sessions_for_daemon shutdown_entries
  shutdown-Over es sessions w out wn ce n m c i = elim (Result-cases (sessions_root w.root)) [
    | inr (x, d) ↦ rw d (λ h. absurd cc)
    | inl (dir, d) ↦
        let names = sort_by (λ name. name) (live_names sessions) in
        let h : Advanced json n m w = record {
          well_named = wn;
          is_past = past m c (wn.bears n m c) (Later-refl m);
        } in
        rw (d, d, ce)
          (listed-Over names n m w out h (elim (status-cases m.status) [
            | inl s ↦ inl s
            | inr s ↦ inr (
                subst (λ y. Memᴰ y names) (wn.bears n m c)
                  (sort-Mem (λ name. name) m.name (live_names sessions) (live-Mem m sessions s i)))
          ]))
  ]
