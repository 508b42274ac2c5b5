-- ===== src/Session/Threads/Joins.antt =====
-- The joins at the end of a run: what a thread still does while the owner waits for its end.
use ignibyte_bridge.Prelude.{ℕ, ◌+◌, Bytes}
use ignibyte_bridge.Logs.Capture
use ignibyte_bridge.Logs.Capture.{Capture}
use ignibyte_bridge.Logs.Forward
use ignibyte_bridge.Session.Threads.{
  Owner, waits_child, joins_input, drains, joins_output, Threads, Step, forwards, captures, Steps,
}

-- 1 where the owner joins the thread that forwards the input.
pub at_join_input : Owner → ℕ
at_join_input joins_input = 1
at_join_input _ = 0

-- 1 where the owner joins the thread that captures the output.
pub at_join_output : Owner → ℕ
at_join_output (joins_output d) = 1
at_join_output _ = 0

forwarding : Forward.Exit → ℕ
forwarding Forward.running = 1
forwarding _ = 0

capturing : Capture.Exit → ℕ
capturing Capture.running = 1
capturing _ = 0

-- Bounds on the rounds to come during the joins.
spare_input : Owner → Forward.Exit → ℕ
spare_input waits_child x = 1
spare_input joins_input x = forwarding x
spare_input _ x = 0

spare_output : Owner → Capture.Exit → ℕ
spare_output waits_child x = 1
spare_output joins_input x = 1
spare_output (drains d) x = 1
spare_output (joins_output d) x = capturing x
spare_output _ x = 0

module _ {Terminal : Type 0} (process : Terminal → Bytes → Terminal)
    (contents : Terminal → Bytes) where
  -- 1 for a round of the thread that the owner is joining.
  pub is_joined_input : {s t : Threads process contents} → Step process contents s t → ℕ
  is_joined_input {s} (forwards r e f) = at_join_input s.owner
  is_joined_input _ = 0

  pub is_joined_output : {s t : Threads process contents} → Step process contents s t → ℕ
  is_joined_output {s} (captures r e f) = at_join_output s.owner
  is_joined_output _ = 0

  -- How many rounds a thread takes while the owner waits to join it.
  unfoldable pub joined_inputs : {s t : Threads process contents} → Steps process contents s t → ℕ
  joined_inputs Steps.here = 0
  joined_inputs (Steps.next ss st) = joined_inputs ss + is_joined_input st

  unfoldable pub joined_outputs : {s t : Threads process contents} → Steps process contents s t → ℕ
  joined_outputs Steps.here = 0
  joined_outputs (Steps.next ss st) = joined_outputs ss + is_joined_output st
