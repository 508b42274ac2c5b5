-- ===== src/Session/Locking/Serial.antt =====
-- The status lock makes one step of each section: what the processes do together, their sections do one after another.
use ignibyte_bridge.Prelude.{
  ℕ, ◌+◌, ◌==◌, ==_iff, ◌≡◌, ◌≢◌, refl, sym, ap, ◌∙◌, true, false, Bool-cases, inl, inr, Option,
  none, some, Bytes, arith, ok, ◌<◌, ◌^◌,
}
use ignibyte_bridge.Session.World.{SessionMetadata, Json, RoundTrips, World}
use ignibyte_bridge.Session.Metadata.{current}
use ignibyte_bridge.Session.Lifecycle.Continuation.{Follows}
use ignibyte_bridge.Session.Lifecycle.{
  Writers-Follows, Writer, marks, records_supervisor, records_child, promotes, initializes,
  elsewhere, Writers, starts, starts_in,
}
use ignibyte_bridge.Session.Locking.{
  Section, marking, recording_supervisor, recording_child, promoting, Plan, plan, Phase, outside,
  waits, holds, loaded, is_inside, System, moved, whole, carry_out, Step, asks, fails, acquires,
  loads, finishes, dies, restarts, changes_elsewhere, Steps, is_start, starts_of, IsApart,
}
use ignibyte_bridge.Session.Locking.Sections.{with_os, carry_out-whole}

module _ (json : Json) (name : Bytes) where
  -- Only the holder of the lock is in a section, and what it has loaded is still there.
  pub record IsLocked (s : System) : Type 0 where
    pub holder : (i : ℕ) → is_inside (s.phase i) ≡ true → s.lock ≡ some i
    pub fresh :
        (i : ℕ) (c : Section) (p : Plan)
        → s.phase i ≡ loaded c p
        → (u : World) × (p ≡ plan name c u (current json s.world name))

  -- A run of whole sections with `k` starts.
  abbrev pub Serial : World → ℕ → World → Type 0
  Serial w k w' = (ws : Writers json name w w') × (starts json name ws ≡ k)

  section-Writer : (c : Section) (w : World) → Writer json name w (whole json name c w)
  unfolding whole
  section-Writer (marking es ec g) w = marks es ec g
  section-Writer (recording_supervisor pid) w = records_supervisor pid
  section-Writer (recording_child g pid parts) w = records_child g pid parts
  section-Writer (promoting g) w = promotes g

  -- A change of phase.
  stepped :
      (s : System) (i : ℕ) (q : Phase) (l : Option ℕ)
      → IsLocked s
      → (is_inside q ≡ true → l ≡ some i)
      → ((j : ℕ) → s.lock ≡ some j → l ≡ some j)
      → ((c : Section) (p : Plan)
          → q ≡ loaded c p
          → (u : World) × (p ≡ plan name c u (current json s.world name)))
      → IsLocked (record s { lock = l; phase = moved i q s.phase })
  stepped s i q l h a b f = record {
    holder = λ j e. elim (Bool-cases (j == i)) [
      | inl t ↦ let k = (==_iff j i).0 t in rw k (a (rw t at e))
      | inr t ↦ b j (h.holder j (rw t at e))
    ];
    fresh = λ j c p e. elim (Bool-cases (j == i)) [
      | inl t ↦ f c p (rw t at e)
      | inr t ↦ h.fresh j c p (rw t at e)
    ];
  }

  -- The holder leaves: nobody is in a section, whatever becomes of the world.
  emptied :
      (s : System) (i : ℕ) (w : World)
      → IsLocked s
      → s.lock ≡ some i
      → IsLocked (record { world = w; lock = none; phase = moved i outside s.phase })
  unfolding is_inside
  emptied s i w h l =
      let inside_none : (j : ℕ) → is_inside (moved i outside s.phase j) ≢ true = λ j e.
        elim (Bool-cases (j == i)) [
          | inl t ↦ let e' : false ≡ true = rw t at e in cc
          | inr t ↦
              let k : some j ≡ some i = sym (h.holder j (rw t at e)) ∙ l in
              ground (arith, ==_iff j i)
        ] in
      record {
        holder = λ j e. absurd (inside_none j e);
        fresh = λ j c p e. absurd (inside_none j (ap is_inside e));
      }

  -- While nobody holds the lock, the world may change.
  unlocked :
      (s : System) (w : World) → IsLocked s → s.lock ≡ none → IsLocked (record s { world = w })
  unfolding is_inside
  unlocked s w h l =
      let inside_none : (j : ℕ) → is_inside (s.phase j) ≢ true =
        λ j e. let k : some j ≡ none = sym (h.holder j e) ∙ l in cc in
      record {
        holder = λ j e. absurd (inside_none j e);
        fresh = λ j c p e. absurd (inside_none j (ap is_inside e));
      }

  section-starts : (c : Section) (w : World) → starts_in json name (section-Writer c w) ≡ 0
  unfolding starts_in section-Writer whole
  section-starts (marking es ec g) w = refl
  section-starts (recording_supervisor pid) w = refl
  section-starts (recording_child g pid parts) w = refl
  section-starts (promoting g) w = refl

  one : {w w' : World} (s : Writer json name w w') → Serial w (starts_in json name s) w'
  unfolding starts
  one s = (Writers.next Writers.here s, omega arith)

  -- A plan that is carried out is its section, between two changes of what does not concern the session.
  plan-Serial :
      (c : Section) (w u : World)
      → Serial w 0 (carry_out json name (plan name c u (current json w name)) w)
  unfolding starts starts_in
  plan-Serial c w u =
      let v = with_os u w in
      let before : Writers json name w v = Writers.next Writers.here (elsewhere refl refl) in
      let section = Writers.next before (section-Writer c v) in
      let p : Serial w 0 (with_os w (whole json name c v)) =
        (Writers.next section (elsewhere refl refl), omega (arith, section-starts c v)) in
      rw (carry_out-whole json name c w u) p

  nothing : (w : World) → Serial w 0 w
  unfolding starts
  nothing w = (Writers.here, refl)

  same_current :
      (w v : World)
      → w.root ≡ v.root
      → (w.sessions name).metadata ≡ (v.sessions name).metadata
      → current json w name ≡ current json v name
  unfolding current
  same_current w v r m = rw (r, m) refl

  append :
      {u v w : World} (ws : Writers json name u v) (vs : Writers json name v w)
      → Serial u (starts json name ws + starts json name vs) w
  unfolding starts
  append ws Writers.here = (ws, omega arith)
  append ws (Writers.next vs s) = let (us, e) = append ws vs in (Writers.next us s, omega arith)

  Step-Serial :
      {s t : System} (st : Step json name s t)
      → IsLocked s
      → (is_start json name st ≡ 1 → s.lock ≡ none)
      → IsLocked t × Serial s.world (is_start json name st) t.world
  unfolding is_start is_inside starts_in
  Step-Serial {s} (asks i c e) h apart =
      (stepped s i (waits c) s.lock h (λ e. cc) (λ j k. k) (λ d p e. cc), nothing s.world)
  Step-Serial {s} (fails i c e) h apart =
      (stepped s i outside s.lock h (λ e. cc) (λ j k. k) (λ d p e. cc), nothing s.world)
  Step-Serial {s} (acquires i c e l) h apart =
      (stepped s i (holds c) (some i) h (λ e. refl) (λ j k. cc) (λ d p e. cc), nothing s.world)
  Step-Serial {s} (loads i c e) h apart = (
    stepped s i (loaded c (plan name c s.world (current json s.world name))) s.lock h
        (λ k. h.holder i (rw e refl)) (λ j k. k) (λ d p k. (s.world, cc)),
    nothing s.world,
  )
  Step-Serial {s} (finishes i c p e) h apart =
      let (u, k) = h.fresh i c p e in
      (
        emptied s i (carry_out json name p s.world) h (h.holder i (rw e refl)),
        rw k (plan-Serial c s.world u),
      )
  Step-Serial {s} (dies i l) h apart = (emptied s i s.world h l, nothing s.world)
  Step-Serial {s} (restarts split cwd cmd rows cols) h apart =
      (unlocked s _ h (apart refl), one (initializes split cwd cmd rows cols))
  Step-Serial {s} (changes_elsewhere w r m) h apart = (
    record {
      holder = h.holder;
      fresh = λ j c p e. let (u, k) = h.fresh j c p e in (u, rw (same_current w s.world r m) k);
    },
    one (elsewhere r m),
  )

  Steps-Locked :
      {s t : System} (ss : Steps json name s t)
      → IsLocked s
      → IsApart json name ss
      → IsLocked t × Serial s.world (starts_of json name ss) t.world
  unfolding starts_of
  Steps-Locked {s} Steps.here h a = (h, nothing s.world)
  Steps-Locked (Steps.next ss st) h a =
      let (h', (ws, e)) = Steps-Locked ss h a.0 in
      let (k, (vs, f)) = Step-Serial st h' a.1 in
      let (us, g) = append ws vs in (k, (us, omega arith))

  all_outside : (s : System) → ((i : ℕ) → is_inside (s.phase i) ≡ false) → IsLocked s
  unfolding is_inside
  all_outside s h = record {
    holder = λ i e. cc (h i);
    fresh = λ i c p e. let k : is_inside (loaded c p) ≡ false = rw e at (h i) in cc;
  }

  -- Any number of processes that enter the sections of the status lock, wait, load, save, fail or die there, in
  -- any order among themselves and the rest of the system, leave a world that whole sections, one
  -- after another, could have left, with as many starts; nobody is in a section at the beginning, and no start falls
  -- into one.
  pub Steps-Serial :
      (s t : System)
      → ((i : ℕ) → is_inside (s.phase i) ≡ false)
      → (ss : Steps json name s t) → IsApart json name ss
      → Serial s.world (starts_of json name ss) t.world
  Steps-Serial s t h ss a = (Steps-Locked ss (all_outside s h) a).1

  -- So the metadata only go on, as behind whole sections.
  Steps-Follows :
      RoundTrips json
      → (m : SessionMetadata) (s t : System) → m.name ≡ name
      → current json s.world name ≡ ok m
      → ((i : ℕ) → is_inside (s.phase i) ≡ false)
      → (ss : Steps json name s t) → IsApart json name ss
      → m.generation + starts_of json name ss < 2 ^ 64
      → Follows json name m (starts_of json name ss) t.world
  Steps-Follows rt m s t n c h ss a b =
      let (ws, e) = Steps-Serial s t h ss a in
      rw (← e) (Writers-Follows json name rt m s.world t.world n c ws (omega arith))
