-- ===== src/Tests/Owners.antt =====
-- The owner of a concrete run and its threads.
use ignibyte_bridge.Prelude.{◌≤◌, refl, inl, [], ◌++◌, Bytes, codes, arith}
use ignibyte_bridge.Logs.Capture
use ignibyte_bridge.Logs.Capture.{Capture, capture_output, capture_chunk}
use ignibyte_bridge.Logs.Forward
use ignibyte_bridge.Logs.Forward.{forward_input}
use ignibyte_bridge.Session.Threads.{
  Threads, spawned, forwards, captures, child_exits, joins_forwarder, naps, stops_capture,
  joins_capturer, Steps, here, next, is_capture_stop, is_forward_stop, owner_steps,
}
use ignibyte_bridge.Tests.Output.{start}
use ignibyte_bridge.Session.Threads.Ended.{IsOver, finished-IsOver}
use ignibyte_bridge.Session.Threads.Bounded.{owner_steps-Bounded}

abbrev shown : Bytes → Bytes
shown t = t

abbrev chunk : Capture.Round
chunk = Capture.read_chunk (codes "hi") Capture.written Capture.written Capture.written

-- Output, the child's exit, one nap, and the end of the output.
abbrev story : (t : Threads ◌++◌ shown) × Steps ◌++◌ shown (spawned ◌++◌ shown 50 [] start) t
unfolding is_capture_stop is_forward_stop forward_input capture_output capture_chunk
story = (
  _,
  next
      (next
        (next
          (next
            (next
              (next
                (next
                  (next (next here (captures chunk refl refl))
                    (forwards (Forward.read_bytes (codes "ls")) refl refl))
                  (child_exits refl))
                (forwards Forward.stop_set refl refl))
              (joins_forwarder refl (λ e. cc)))
            (naps 2050 7 refl refl (omega arith)))
          (captures Capture.read_eof refl refl))
        (stops_capture 2050 refl (inl (λ e. cc))))
      (joins_capturer 2050 refl (λ e. cc)),
)

finished-IsOver_example : IsOver ◌++◌ shown [] start 2050 story.0
unfolding story
finished-IsOver_example = finished-IsOver ◌++◌ shown [] start 50 2050 story.0 story.1 refl

owner_steps-Bounded_example : owner_steps ◌++◌ shown story.1 ≤ 104
owner_steps-Bounded_example = owner_steps-Bounded ◌++◌ shown 50 [] start story.0 story.1
