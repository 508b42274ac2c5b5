-- ===== src/Session/Threads/Bounded.antt =====
-- The owner of a run gets to an end: its waiting loop ends within its cap, and each state leads on to the end.
use ignibyte_bridge.Prelude.{ℕ, ◌+◌, ◌-◌, ◌/◌, ◌≤◌, Bytes, arith}
use ignibyte_bridge.Logs.Capture.{Capture}
use ignibyte_bridge.Session.Threads.{
  Owner, waits_child, joins_input, gave_up, wait_fails, drains, joins_output, finished, Threads,
  spawned, Step, passes, forwards, captures, child_exits, joins_forwarder, naps, stops_capture,
  joins_capturer, Steps, is_owners, owner_steps,
}

-- A bound on the owner's steps to come.
left : Owner → ℕ → ℕ
left waits_child clock = 104
left gave_up clock = 0
left joins_input clock = 103
left (drains deadline) clock = 2 + ((deadline - clock) + 19) / 20
left (joins_output deadline) clock = 1
left (finished deadline) clock = 0

left-later : (o : Owner) (clock late : ℕ) → left o (clock + late) ≤ left o clock
unfolding left
left-later (drains deadline) clock late = omega arith
left-later _ clock late = omega arith

module _ {Terminal : Type 0} (process : Terminal → Bytes → Terminal)
    (contents : Terminal → Bytes) where
  Step-left :
      {s t : Threads process contents} (st : Step process contents s t)
      → is_owners process contents st + left t.owner t.clock ≤ left s.owner s.clock
  unfolding left is_owners
  Step-left {s} (passes late) = omega (arith, left-later s.owner s.clock late)
  Step-left (forwards r e f) = omega arith
  Step-left (captures r e f) = omega arith
  Step-left (child_exits e) = rw e (omega arith)
  Step-left (wait_fails e) = rw e (omega arith)
  Step-left (joins_forwarder e f) = rw e (omega arith)
  Step-left (naps d l e f g) = rw e (omega arith)
  Step-left (stops_capture d e f) = rw e (omega arith)
  Step-left (joins_capturer d e f) = rw e (omega arith)

  Steps-left :
      {s t : Threads process contents} (ss : Steps process contents s t)
      → owner_steps process contents ss + left t.owner t.clock ≤ left s.owner s.clock
  unfolding owner_steps
  Steps-left Steps.here = omega arith
  Steps-left (Steps.next ss st) = omega (arith, Steps-left ss, Step-left st)

  -- The owner of a run makes at most 104 steps, in whatever order it and the threads take turns: its wait for the
  -- capture is at most 100 naps, however late each of them ends.
  pub owner_steps-Bounded :
      (clock : ℕ) (pty : Bytes) (c : Capture process contents) (s : Threads process contents)
      (ss : Steps process contents (spawned process contents clock pty c) s)
      → owner_steps process contents ss ≤ 104
  unfolding left
  owner_steps-Bounded clock pty c s ss = omega (arith, Steps-left ss)
