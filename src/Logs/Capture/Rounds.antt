-- ===== src/Logs/Capture/Rounds.antt =====
-- The loop of `capture_output` round by round.
use ignibyte_bridge.Prelude.{List, [], ◌∷◌, ◌++◌, ◌≡◌, refl, Bytes}
use ignibyte_bridge.Logs.Capture.{
  Round, stop_set, poll_interrupted, poll_failed, poll_timeout, read_failed, read_eof, read_chunk,
  running, returned_ok, Capture, capture_chunk, capture_output,
}

module _ {Terminal : Type 0} (process : Terminal → Bytes → Terminal)
    (contents : Terminal → Bytes) where
  -- The loop goes on where it stands.
  pub capture_output-append :
      (rounds more : List Round) (c : Capture process contents)
      → (capture_output process contents rounds c).1 ≡ running
      → capture_output process contents (rounds ++ more) c
        ≡ capture_output process contents more (capture_output process contents rounds c).0
  unfolding capture_output
  capture_output-append [] more c h = refl
  capture_output-append (stop_set ∷ rounds) more c h = absurd cc
  capture_output-append (poll_interrupted ∷ rounds) more c h = capture_output-append rounds more c h
  capture_output-append (poll_failed ∷ rounds) more c h = absurd cc
  capture_output-append (poll_timeout ∷ rounds) more c h = capture_output-append rounds more c h
  capture_output-append (read_failed ∷ rounds) more c h = absurd cc
  capture_output-append (read_eof ∷ rounds) more c h = absurd cc
  capture_output-append (read_chunk chunk a b d ∷ rounds) more c h =
      capture_output-append rounds more (capture_chunk process contents c chunk a b d) h

  pub capture_output-stop :
      (c : Capture process contents)
      → capture_output process contents (stop_set ∷ []) c ≡ (c, returned_ok)
  unfolding capture_output
  capture_output-stop c = refl

  pub capture_output-none :
      (c : Capture process contents) → capture_output process contents [] c ≡ (c, running)
  unfolding capture_output
  capture_output-none c = refl
