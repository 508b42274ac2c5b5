-- ===== src/Session/Locking/Restart.antt =====
-- A start does not take the status lock: one that falls into the section of `mark_stopped` is undone by it.
use ignibyte_bridge.Prelude.{ℕ, ◌≡◌, Option, List, Bytes, Result}
use ignibyte_bridge.Session.World.{Json, World}
use ignibyte_bridge.Session.Start.{initialize_session_files}
use ignibyte_bridge.Session.Locking.{System, Steps, Step}

module _ (json : Json) (name : Bytes) (split : Bytes → Result (List Bytes)) (cwd cmd : Bytes)
    (rows cols : Option ℕ) (i : ℕ) (es : Option Bytes) (ec : Option ℕ) where
  abbrev pub started : World → World
  started w = (initialize_session_files json split name cwd cmd rows cols w).1

  -- A start in the middle: the steps before it, the start, and the one step that the section had left.
  pub record Interrupted (s t : System) : Type 0 where
    pub middle : System
    pub before : Steps json name s middle
    pub start : Step json name middle (record middle { world = started middle.world })
    pub left : Step json name (record middle { world = started middle.world }) t
    pub starts_alone : middle.world ≡ s.world
