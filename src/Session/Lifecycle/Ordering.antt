-- ===== src/Session/Lifecycle/Ordering.antt =====
-- What may become of the metadata of a session: runs in order, and within a run its status.
use ignibyte_bridge.Prelude.{ℕ, ◌+◌, ◌%◌, ◌^◌, ◌≤◌, ◌<◌, ◌≡◌, ◌≢◌, ◌⊎◌, refl, ◌∙◌, inl, inr, arith}
use ignibyte_bridge.Session.World.{SessionMetadata, SessionStatus, starting, running, stopped}

unfoldable pub level : SessionStatus → ℕ
level starting = 0
level running = 1
level stopped = 2

-- `m'` is of a later run, or of the same run: then its status has not gone back, and what was recorded of
-- its exit stays.
pub data Later (m m' : SessionMetadata) : Type 0 where
  newer_run : m.generation < m'.generation → Later m m'
  same_run :
      m'.generation ≡ m.generation
      → level m.status ≤ level m'.status
      → (m.status ≡ stopped → (m'.exit_status ≡ m.exit_status) × (m'.exit_code ≡ m.exit_code))
      → Later m m'

pub Later-refl : (m : SessionMetadata) → Later m m
Later-refl m = same_run refl (omega arith) (λ e. (refl, refl))

pub level_stopped : (s t : SessionStatus) → s ≡ stopped → level s ≤ level t → t ≡ stopped
unfolding level
level_stopped s t e h = ground arith

pub Later-trans : {a b c : SessionMetadata} → Later a b → Later b c → Later a c
Later-trans (newer_run p) (newer_run q) = newer_run (omega arith)
Later-trans (newer_run p) (same_run e l x) = newer_run (omega arith)
Later-trans (same_run e l x) (newer_run q) = newer_run (omega arith)
Later-trans {a} {b} {c} (same_run e l x) (same_run e' l' x') =
    same_run (e' ∙ e) (omega arith) λ s.
      let s' = level_stopped a.status b.status s l in ((x' s').0 ∙ (x s).0, (x' s').1 ∙ (x s).1)

pub status-cases : (s : SessionStatus) → (s ≡ stopped) ⊎ (s ≢ stopped)
status-cases starting = inr (λ e. cc)
status-cases running = inr (λ e. cc)
status-cases stopped = inl refl

pub level_top : (s : SessionStatus) → level s ≤ 2
unfolding level
level_top s = ground arith

pub level_live : (s : SessionStatus) → s ≢ stopped → level s ≤ 1
unfolding level
level_live s h = ground arith

pub next_generation_after : (g : ℕ) → g + 1 < 2 ^ 64 → g < (g + 1) % 2 ^ 64
next_generation_after g b = omega arith
