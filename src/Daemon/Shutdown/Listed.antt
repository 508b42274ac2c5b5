-- ===== src/Daemon/Shutdown/Listed.antt =====
-- The names that a shutdown stops, and what stays true of a run that is over.
use ignibyte_bridge.Prelude.{
  ◌≡◌, ◌≢◌, ◌⊎◌, refl, ap, ◌∙◌, inl, inr, Bool-cases, true, false, ◌<◌, List, [], ◌∷◌, arith, Bytes,
  is_empty, Result, ok, err,
}
use mathlib.Core.List.{Memᴰ}
use mathlib.Core.List.Memᴰ
use ignibyte_bridge.Effects.{and_then}
use ignibyte_bridge.Session.World.{SessionMetadata, stopped, Json, World}
use ignibyte_bridge.Session.Metadata.{is_stopped}
use ignibyte_bridge.Session.Metadata.Marking.{not_stopped}
use ignibyte_bridge.Session.Lifecycle.Ordering.{
  Later, newer_run, same_run, level_stopped, Later-trans,
}
use ignibyte_bridge.Session.Progress.{Past, past}
use ignibyte_bridge.Session.Progress.Ends.{Over, over}
use ignibyte_bridge.Session.Reports.{bytes_le, insert_by, sort_by}
use ignibyte_bridge.Daemon.Shutdown.{live_names, Gathered, noted}

pub insert-Mem :
    {A : Type 0} (key : A → Bytes) (x a : A) (xs : List A)
    → Memᴰ x (a ∷ xs)
    → Memᴰ x (insert_by key a xs)
unfolding insert_by
insert-Mem key x a [] h = h
insert-Mem key x a (y ∷ ys) h = elim (Bool-cases (bytes_le (key a) (key y))) [
  | inl e ↦ rw e h
  | inr e ↦ rw e (elim (Memᴰ.cases_cons h) [
    | inl q ↦ Memᴰ.tail (insert-Mem key x a ys (Memᴰ.head q))
    | inr m ↦ elim (Memᴰ.cases_cons m) [
      | inl q ↦ Memᴰ.head q
      | inr k ↦ Memᴰ.tail (insert-Mem key x a ys (Memᴰ.tail k))
    ]
  ])
]

pub sort-Mem :
    {A : Type 0} (key : A → Bytes) (x : A) (xs : List A) → Memᴰ x xs → Memᴰ x (sort_by key xs)
unfolding sort_by
sort-Mem key x [] h = h
sort-Mem key x (y ∷ ys) h =
    insert-Mem key x y (sort_by key ys)
      (elim (Memᴰ.cases_cons h) [ inl q ↦ Memᴰ.head q | inr m ↦ Memᴰ.tail (sort-Mem key x ys m) ])

pub live-Mem :
    (m : SessionMetadata) (ms : List SessionMetadata)
    → m.status ≢ stopped
    → Memᴰ m ms
    → Memᴰ m.name (live_names ms)
unfolding live_names
live-Mem m [] s h = absurd (Memᴰ.not-nil h)
live-Mem m (x ∷ xs) s h = elim (Memᴰ.cases_cons h) [
  | inl q ↦
      let t : is_stopped x.status ≡ false =
        not_stopped x.status (λ e. s (ap (λ u. u.status) q ∙ e)) in
      rw t (Memᴰ.head (ap (λ u. u.name) q))
  | inr k ↦ elim (Bool-cases (is_stopped x.status)) [
    | inl e ↦ rw e (live-Mem m xs s k)
    | inr e ↦ rw e (Memᴰ.tail (live-Mem m xs s k))
  ]
]

pub still_over :
    (m m' x : SessionMetadata)
    → Later m m'
    → (m'.generation < x.generation) ⊎ (x.status ≡ stopped)
    → (m.generation < x.generation) ⊎ (x.status ≡ stopped)
still_over m m' x (newer_run p) (inl q) = inl (omega arith)
still_over m m' x (same_run e h k) (inl q) = inl (omega arith)
still_over m m' x l (inr s) = inr s

-- What is over stays over.
pub Over-Later :
    (json : Json) (n : Bytes) (m m' : SessionMetadata) (w : World)
    → Later m m'
    → (m.generation < m'.generation) ⊎ (m'.status ≡ stopped)
    → Past json n m' w
    → Over json n m w
Over-Later json n m m' w l o (past x c k l') = over x c k (Later-trans l l') (still l l' o)
  where
    still :
        Later m m'
        → Later m' x
        → (m.generation < m'.generation) ⊎ (m'.status ≡ stopped)
        → (m.generation < x.generation) ⊎ (x.status ≡ stopped)
    still (newer_run p) (newer_run q) o = inl (omega arith)
    still (newer_run p) (same_run e h k) o = inl (omega arith)
    still (same_run e h k) (newer_run q) o = inl (omega arith)
    still (same_run e h k) (same_run e' h' k') (inl g) = inl (omega arith)
    still (same_run e h k) (same_run e' h' k') (inr s) = inr (level_stopped m'.status x.status s h')

pub noted_state :
    (k : Bytes) (r : Result (Unit {0})) (q : Result Gathered × World)
    → (and_then q (λ rest u. (ok (noted k r rest), u))).1 ≡ q.1
noted_state k r (ok rest, u) = refl
noted_state k r (err x, u) = refl

pub noted_result :
    (k : Bytes) (r : Result (Unit {0})) (q : Result Gathered × World) (g : Gathered)
    → (and_then q (λ rest u. (ok (noted k r rest), u))).0 ≡ ok g
    → (rest : Gathered) × (q.0 ≡ ok rest) × (noted k r rest ≡ g)
noted_result k r (ok rest, u) g e = (rest, refl, cc)
noted_result k r (err x, u) g e = absurd cc

pub noted_ok :
    (k : Bytes) (r : Result (Unit {0})) (rest : Gathered)
    → is_empty (noted k r rest).errors ≡ true
    → (r ≡ ok tt) × (is_empty rest.errors ≡ true)
noted_ok k (ok _) rest z = (refl, z)
noted_ok k (err x) rest z = absurd cc
