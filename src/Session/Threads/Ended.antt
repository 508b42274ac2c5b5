-- ===== src/Session/Threads/Ended.antt =====
-- What has become of a run's threads when its owner is done with them.
use ignibyte_bridge.Prelude.{ℕ, ◌≤◌, ◌≡◌, ◌≢◌, ◌⊎◌, refl, inr, Bytes, All}
use ignibyte_bridge.Logs.Capture
use ignibyte_bridge.Logs.Capture.{Capture, capture_output}
use ignibyte_bridge.Logs.Forward
use ignibyte_bridge.Logs.Forward.{forward_input, forward_input-stop}
use ignibyte_bridge.Session.Threads.{finished, Threads, spawned, Steps}
use ignibyte_bridge.Session.Threads.Invariant.{IsUnhurried, spawned-IsRun, Steps-IsRun}

module _ {Terminal : Type 0} (process : Terminal → Bytes → Terminal) (contents : Terminal → Bytes)
    (pty : Bytes) (c : Capture process contents) where
  pub record IsOver (deadline : ℕ) (s : Threads process contents) : Type 0 where
    pub forwarder_ended : s.forwarder ≢ Forward.running
    pub capturer_ended : s.capturer ≢ Capture.running
    pub inputs : forward_input s.forwarded pty ≡ (s.pty, s.forwarder)
    pub outputs : capture_output process contents s.captured c ≡ (s.capture, s.capturer)
    pub patient : All IsUnhurried s.captured ⊎ (deadline ≤ s.clock)

  -- However the owner and the two threads of a run take turns: when the owner has finished, both threads have
  -- ended, the child was given what `forward_input` gives it, and the logs and the screen are those of `capture_output`,
  -- each by itself on the rounds that its thread has gone; and the capture has ended by itself,
  -- without meeting its stop flag, or the two seconds for it are over.
  pub finished-IsOver :
      (clock deadline : ℕ) (s : Threads process contents)
      → Steps process contents (spawned process contents clock pty c) s
      → s.owner ≡ finished deadline
      → IsOver deadline s
  finished-IsOver clock deadline s ss e =
      let h = Steps-IsRun process contents pty c ss (spawned-IsRun process contents pty c clock) in
      record {
        forwarder_ended = h.joined_input (rw e refl);
        capturer_ended = h.joined_output deadline e;
        inputs = h.inputs;
        outputs = h.outputs;
        patient = h.patient deadline (inr e);
      }
