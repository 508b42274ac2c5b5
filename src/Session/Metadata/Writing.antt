-- ===== src/Session/Metadata/Writing.antt =====
-- What loading and saving the metadata do to the world.
use ignibyte_bridge.Prelude.{
  ℕ, suc, ◌≡◌, ◌≢◌, refl, false, Option-cases, inl, inr, arith, Bytes, bytes_eq, bytes_eq_refl,
  bytes_eq_iff, Result, ok, err, Error,
}
use ignibyte_bridge.Session.World.{World, set_dir, write_dir, SessionDir}

-- All but the count of writes and the files of one session stay.
pub record Frame (name : Bytes) (w w' : World) : Type 0 where
  pub same_root : w'.root ≡ w.root
  pub same_now : w'.now ≡ w.now
  pub same_os : w'.os ≡ w.os
  pub same_signals : w'.signals ≡ w.signals
  pub same_sleeps : w'.sleeps ≡ w.sleeps
  pub same_others : (n : Bytes) → n ≢ name → w'.sessions n ≡ w.sessions n

pub Frame-refl : (name : Bytes) (w : World) → Frame name w w
Frame-refl name w = record {
  same_root = refl;
  same_now = refl;
  same_os = refl;
  same_signals = refl;
  same_sleeps = refl;
  same_others = λ n h. refl;
}

other_name : (n name : Bytes) → n ≢ name → bytes_eq n name ≡ false
other_name n name h = ground (arith, bytes_eq_iff n name)

set-Frame :
    (name : Bytes) (d : SessionDir) (w : World) (k : ℕ)
    → Frame name w (set_dir name d (record w { writes = k }))
unfolding set_dir
set-Frame name d w k = record {
  same_root = refl;
  same_now = refl;
  same_os = refl;
  same_signals = refl;
  same_sleeps = refl;
  same_others = λ n h. rw (other_name n name h) refl;
}

counted-Frame : (name : Bytes) (w : World) (k : ℕ) → Frame name w (record w { writes = k })
counted-Frame name w k = record {
  same_root = refl;
  same_now = refl;
  same_os = refl;
  same_signals = refl;
  same_sleeps = refl;
  same_others = λ n h. refl;
}

-- A write replaces the directory of its session, or fails and leaves it.
pub data WriteOutcome (name : Bytes) (d : SessionDir) (w : World) (p : Result (Unit {0}) × World)
    : Type 0 where
  done : p.0 ≡ ok tt → p.1.sessions name ≡ d → Frame name w p.1 → WriteOutcome name d w p
  failed :
      (e : Error)
      → p.0 ≡ err e
      → p.1.sessions ≡ w.sessions
      → Frame name w p.1
      → WriteOutcome name d w p

pub write-WriteOutcome :
    (name : Bytes) (change : SessionDir → SessionDir) (w : World)
    → WriteOutcome name (change (w.sessions name)) w (write_dir name change w)
unfolding write_dir set_dir
write-WriteOutcome name change w = elim (Option-cases (w.write_fault w.writes)) [
  | inl e ↦
      rw (e, write_dir)
        (done refl (rw (bytes_eq_refl name) refl)
          (set-Frame name (change (w.sessions name)) w (suc w.writes)))
  | inr (x, e) ↦ rw (e, write_dir) (failed x refl refl (counted-Frame name w (suc w.writes)))
]
