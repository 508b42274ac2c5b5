-- ===== src/Session/Start/Waiting.antt =====
-- What a start that succeeds has waited for.
use ignibyte_bridge.Prelude.{
  ℕ, zero, suc, ◌≡◌, ◌≢◌, ◌⊎◌, refl, sym, ap, ◌∙◌, inl, inr, Bool-cases, true, Option, none, some,
  Bytes, arith, Result, ok, err,
}
use ignibyte_bridge.Session.World.{
  SessionMetadata, SessionStatus, starting, running, stopped, Json, World, M, Env, and_then, ◌>>=◌,
  sleep,
}
use ignibyte_bridge.Session.Metadata.{current, load_metadata}
use ignibyte_bridge.Session.Start.{
  is_zero, start_answer, terminate_if_ours, or_else, give_up, poll_running,
  wait_for_running_metadata,
}

-- The run came up, or it has ended already with exit code 0.
abbrev pub IsStarted : SessionMetadata → Type 0
IsStarted m = (m.status ≡ running) ⊎ ((m.status ≡ stopped) × (m.exit_code ≡ some 0))

is_zero-some : (code : Option ℕ) → is_zero code ≡ true → code ≡ some 0
is_zero-some code h = ground arith

answer-IsStarted :
    (name : Bytes) (m m' : SessionMetadata) (s : SessionStatus)
    → m.status ≡ s
    → start_answer name m s ≡ some (ok m')
    → IsStarted m'
unfolding start_answer
answer-IsStarted name m m' running e h =
    let p : m ≡ m' = cc in let q : IsStarted m = inl e in rw p at q
answer-IsStarted name m m' stopped e h = elim (Bool-cases (is_zero m.exit_code)) [
  | inl z ↦
      let q : some (ok m) ≡ some (ok m') = rw z at h in
      let p : m ≡ m' = cc in let r : IsStarted m = inr (e, is_zero-some m.exit_code z) in rw p at r
  | inr z ↦ absurd (let q = rw z at h in cc)
]
answer-IsStarted name m m' starting e h = absurd cc

then-never :
    {A : Type 0} {B : Type 0} (p : Result A × World) (f : A → M B) (b : B)
    → ((a : A) (v : World) → (f a v).0 ≢ ok b)
    → (and_then p f).0 ≢ ok b
then-never (ok a, v) f b h = h a v
then-never (err e, v) f b h = λ x. cc

-- A result of both parts is one of the second.
then-IsStarted :
    {A : Type 0} (p : Result A × World) (f : A → M SessionMetadata) (m' : SessionMetadata)
    → ((a : A) (v : World) → (f a v).0 ≡ ok m' → IsStarted m')
    → (and_then p f).0 ≡ ok m'
    → IsStarted m'
then-IsStarted (ok a, v) f m' h e = h a v e
then-IsStarted (err x, v) f m' h e = absurd cc

or_else-IsStarted :
    (json : Json) (o : Option (Result SessionMetadata)) (k : M SessionMetadata) (w : World)
    (m' : SessionMetadata)
    → (o ≡ some (ok m') → IsStarted m')
    → ((k w).0 ≡ ok m' → IsStarted m')
    → (or_else json o k w).0 ≡ ok m'
    → IsStarted m'
or_else-IsStarted json none k w m' h g e = g e
or_else-IsStarted json (some answer) k w m' h g e = h (let e' : answer ≡ ok m' = e in cc)

module _ (json : Json) (env : Env) (name : Bytes) where
  give_up-IsStarted :
      (r : Result SessionMetadata) (w : World) (m' : SessionMetadata)
      → (give_up json env name r w).0 ≡ ok m'
      → IsStarted m'
  unfolding give_up
  give_up-IsStarted (err e) w m' h = absurd cc
  give_up-IsStarted (ok m) w m' h =
      or_else-IsStarted json (start_answer name m m.status) _ w m'
        (answer-IsStarted name m m' m.status refl)
        (λ e. absurd (
          then-never (terminate_if_ours env m.supervisor_pid m.supervisor_start_time w) _ m'
            (λ a v.
              then-never (terminate_if_ours env m.child_pid m.child_start_time v) _ m'
                (λ b u x. cc))
            e))
        h

  poll-IsStarted :
      (rounds : ℕ) (w : World) (m' : SessionMetadata)
      → (poll_running json env rounds name w).0 ≡ ok m'
      → IsStarted m'
  unfolding poll_running load_metadata sleep
  poll-IsStarted zero w m' h = give_up-IsStarted _ w m' h
  poll-IsStarted (suc n) w m' h =
      let next : SessionMetadata → M SessionMetadata =
        λ m. or_else json (start_answer name m m.status) (poll_running json env n name) in
      then-IsStarted (sleep env w) (λ _. load_metadata json name >>= next) m'
        (λ a v. then-IsStarted (load_metadata json name v) next m' λ m u.
          or_else-IsStarted json (start_answer name m m.status) (poll_running json env n name) u m'
            (answer-IsStarted name m m' m.status refl) (poll-IsStarted n u m'))
        h

  -- A start that succeeds gives the metadata of a run that is running, or of one that has ended with exit code 0
  -- before it was seen running; whatever else the system does during the polls, a run that failed, or
  -- that is still starting, is never reported as started.
  pub wait-IsStarted :
      (w : World) (m' : SessionMetadata)
      → (wait_for_running_metadata json env name w).0 ≡ ok m'
      → IsStarted m'
  unfolding wait_for_running_metadata
  wait-IsStarted w m' h = poll-IsStarted 50 w m' h

  -- The metadata of the session are those that the result gives, if it gives any.
  AtEnd : SessionMetadata → World → Type 0
  AtEnd m' v = current json v name ≡ ok m'

  answer-same :
      (m m' : SessionMetadata) (s : SessionStatus) → start_answer name m s ≡ some (ok m') → m ≡ m'
  unfolding start_answer
  answer-same m m' running h = cc
  answer-same m m' stopped h = elim (Bool-cases (is_zero m.exit_code)) [
    | inl z ↦ (let q : some (ok m) ≡ some (ok m') = rw z at h in cc)
    | inr z ↦ absurd (let q = rw z at h in cc)
  ]
  answer-same m m' starting h = absurd cc

  or_else-AtEnd :
      (o : Option (Result SessionMetadata)) (k : M SessionMetadata) (w : World)
      (m m' : SessionMetadata)
      → current json w name ≡ ok m
      → (o ≡ some (ok m') → m ≡ m')
      → ((k w).0 ≡ ok m' → AtEnd m' (k w).1)
      → (or_else json o k w).0 ≡ ok m'
      → AtEnd m' (or_else json o k w).1
  unfolding AtEnd
  or_else-AtEnd none k w m m' c h g e = g e
  or_else-AtEnd (some answer) k w m m' c h g e =
      let e' : answer ≡ ok m' = e in let q : m ≡ m' = h cc in rw q at c

  give_up-AtEnd :
      (r : Result SessionMetadata) (w : World) (m' : SessionMetadata)
      → current json w name ≡ r
      → (give_up json env name r w).0 ≡ ok m'
      → AtEnd m' (give_up json env name r w).1
  unfolding give_up
  give_up-AtEnd (err e) w m' c h = absurd cc
  give_up-AtEnd (ok m) w m' c h =
      or_else-AtEnd (start_answer name m m.status) _ w m m' c (answer-same m m' m.status)
        (λ e. absurd (
          then-never (terminate_if_ours env m.supervisor_pid m.supervisor_start_time w) _ m'
            (λ a v.
              then-never (terminate_if_ours env m.child_pid m.child_start_time v) _ m'
                (λ b u x. cc))
            e))
        h

  then-AtEnd :
      {A : Type 0} (p : Result A × World) (f : A → M SessionMetadata) (m' : SessionMetadata)
      → ((a : A) (v : World) → p ≡ (ok a, v) → (f a v).0 ≡ ok m' → AtEnd m' (f a v).1)
      → (and_then p f).0 ≡ ok m'
      → AtEnd m' (and_then p f).1
  then-AtEnd (ok a, v) f m' h e = h a v refl e
  then-AtEnd (err x, v) f m' h e = absurd cc

  poll-AtEnd :
      (rounds : ℕ) (w : World) (m' : SessionMetadata)
      → (poll_running json env rounds name w).0 ≡ ok m'
      → AtEnd m' (poll_running json env rounds name w).1
  unfolding poll_running load_metadata sleep
  poll-AtEnd zero w m' h = give_up-AtEnd _ w m' refl h
  poll-AtEnd (suc n) w m' h =
      let next : SessionMetadata → M SessionMetadata =
        λ m. or_else json (start_answer name m m.status) (poll_running json env n name) in
      then-AtEnd (sleep env w) (λ _. load_metadata json name >>= next) m'
        (λ a v _. then-AtEnd (load_metadata json name v) next m' λ m u q.
          or_else-AtEnd (start_answer name m m.status) (poll_running json env n name) u m m'
            (sym (ap (λ p. current json p.1 name) q) ∙ ap (λ p. p.0) q) (answer-same m m' m.status)
            (poll-AtEnd n u m'))
        h

  -- The metadata that a start gives are those of the session when it returns.
  pub wait-current :
      (w : World) (m' : SessionMetadata)
      → (wait_for_running_metadata json env name w).0 ≡ ok m'
      → current json (wait_for_running_metadata json env name w).1 name ≡ ok m'
  unfolding wait_for_running_metadata AtEnd
  wait-current w m' h = poll-AtEnd 50 w m' h
