-- ===== src/Prelude.antt =====
-- The names that the other modules share: the libraries', passed on, byte strings, Boolean tests,
-- the result type of fallible code, and lists measured by native numbers.
mod Tests
mod Lists
mod Outcome
pub use Tests.*
pub use Lists.*
unfoldable pub use Lists.{bytes_eq}
pub use Outcome.*
unfoldable pub use Outcome.{chain}
pub use Prim.Native.Nat.{ℕ, zero, suc, ◌+◌, ◌-◌, ◌*◌, ◌/◌, ◌%◌, ◌^◌, ◌≤◌, ◌<◌, min}
pub use mathlib.Core.Path.{◌≡◌, refl, sym, ap, subst, ◌∙◌}
pub use mathlib.Core.Logic.{◌≢◌, ◌↔◌, ◌⊎◌, inl, inr}
pub use mathlib.Core.Bool.{Bool, true, false, not, ◌&&◌, ◌||◌}
pub use mathlib.Core.Option.{Option, none, some}
pub use mathlib.Core.List.{List, [], ◌∷◌, ◌++◌, map, append-nil, append_assoc}
pub use native.Mathlib.Omega.{arith}
