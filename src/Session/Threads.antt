-- ===== src/Session/Threads.antt =====
-- The end of `supervise_pty` of src/session.rs: its owner, the thread that forwards the input and the thread that
-- captures the output, side by side. A round of a thread's loop is one step, at the test of its stop flag;
-- the capture is taken to have opened its logs.
pub mod Invariant
pub mod Ended
pub mod Bounded
pub mod Joins
use ignibyte_bridge.Prelude.{
  ℕ, ◌+◌, ◌<◌, ◌≤◌, ◌≡◌, ◌≢◌, ◌⊎◌, Bool, true, false, List, [], ◌∷◌, ◌++◌, Bytes,
}
use ignibyte_bridge.Logs.Capture
use ignibyte_bridge.Logs.Capture.{Capture, capture_output}
use ignibyte_bridge.Logs.Forward
use ignibyte_bridge.Logs.Forward.{forward_input}

-- Where the owner is; the deadline is in milliseconds.
pub data Owner : Type 0 where
  waits_child joins_input gave_up : Owner
  drains joins_output finished : (deadline : ℕ) → Owner

unfoldable pub is_capture_stop : Capture.Round → Bool
is_capture_stop Capture.stop_set = true
is_capture_stop _ = false

unfoldable pub is_forward_stop : Forward.Round → Bool
is_forward_stop Forward.stop_set = true
is_forward_stop _ = false

module _ {Terminal : Type 0} (process : Terminal → Bytes → Terminal)
    (contents : Terminal → Bytes) where
  -- `forwarded` and `captured` are the rounds that the two threads have gone, `pty` is what the child was given.
  pub record Threads : Type 0 where
    pub owner : Owner
    pub clock : ℕ
    pub input_stop : Bool
    pub output_stop : Bool
    pub forwarded : List Forward.Round
    pub pty : Bytes
    pub forwarder : Forward.Exit
    pub captured : List Capture.Round
    pub capture : Capture process contents
    pub capturer : Capture.Exit

  abbrev pub spawned : ℕ → Bytes → Capture process contents → Threads
  spawned clock pty capture = record {
    owner = waits_child;
    clock = clock;
    input_stop = false;
    output_stop = false;
    forwarded = [];
    pty = pty;
    forwarder = Forward.running;
    captured = [];
    capture = capture;
    capturer = Capture.running;
  }

  pub data Step (s : Threads) : Threads → Type 0 where
    passes : (late : ℕ) → Step s (record s { clock = s.clock + late })
    forwards :
        (r : Forward.Round)
        → s.forwarder ≡ Forward.running
        → is_forward_stop r ≡ s.input_stop
        → Step s (record s {
          forwarded = s.forwarded ++ r ∷ [];
          pty = (forward_input (r ∷ []) s.pty).0;
          forwarder = (forward_input (r ∷ []) s.pty).1;
        })
    captures :
        (r : Capture.Round)
        → s.capturer ≡ Capture.running
        → is_capture_stop r ≡ s.output_stop
        → Step s (record s {
          captured = s.captured ++ r ∷ [];
          capture = (capture_output process contents (r ∷ []) s.capture).0;
          capturer = (capture_output process contents (r ∷ []) s.capture).1;
        })
    child_exits :
        s.owner ≡ waits_child → Step s (record s { owner = joins_input; input_stop = true })
    -- `child.wait()` fails: the owner returns and sets no flag.
    wait_fails : s.owner ≡ waits_child → Step s (record s { owner = gave_up })
    joins_forwarder :
        s.owner ≡ joins_input
        → s.forwarder ≢ Forward.running
        → Step s (record s { owner = drains (s.clock + 2000) })
    naps :
        (deadline late : ℕ)
        → s.owner ≡ drains deadline
        → s.capturer ≡ Capture.running
        → s.clock < deadline
        → Step s (record s { clock = s.clock + (20 + late) })
    stops_capture :
        (deadline : ℕ)
        → s.owner ≡ drains deadline
        → (s.capturer ≢ Capture.running) ⊎ (deadline ≤ s.clock)
        → Step s (record s { owner = joins_output deadline; output_stop = true })
    joins_capturer :
        (deadline : ℕ)
        → s.owner ≡ joins_output deadline
        → s.capturer ≢ Capture.running
        → Step s (record s { owner = finished deadline })

  pub data Steps (s : Threads) : Threads → Type 0 where
    here : Steps s s
    next : {t u : Threads} → Steps s t → Step t u → Steps s u

  unfoldable pub is_owners : {s t : Threads} → Step s t → ℕ
  is_owners (passes late) = 0
  is_owners (forwards r e f) = 0
  is_owners (captures r e f) = 0
  is_owners (child_exits e) = 1
  is_owners (wait_fails e) = 1
  is_owners (joins_forwarder e f) = 1
  is_owners (naps d l e f g) = 1
  is_owners (stops_capture d e f) = 1
  is_owners (joins_capturer d e f) = 1

  -- How many steps are the owner's, each round of its waiting loop among them.
  unfoldable pub owner_steps : {s t : Threads} → Steps s t → ℕ
  unfolding is_owners
  owner_steps here = 0
  owner_steps (next ss st) = owner_steps ss + is_owners st
