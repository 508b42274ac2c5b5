-- ===== src/Logs/Capture/Stream.antt =====
-- What the sinks hold after any number of rounds.
use ignibyte_bridge.Prelude.{
  List, [], ◌∷◌, ◌++◌, ◌≡◌, refl, sym, ap, ◌∙◌, append-nil, append_assoc, Bytes, All,
}
use ignibyte_bridge.Clean.{clean}
use ignibyte_bridge.Clean.Chunks.{clean-chunk}
use ignibyte_bridge.Logs.{trim_screen_snapshot}
use ignibyte_bridge.Logs.Capture.{
  written, Round, poll_interrupted, poll_timeout, read_chunk, Capture, append_write, replace_write,
  warn_once, capture_chunk, capture_output,
}

-- The bytes read before the loop ends.
pub received : List Round → Bytes
received [] = []
received (poll_interrupted ∷ rounds) = received rounds
received (poll_timeout ∷ rounds) = received rounds
received (read_chunk chunk _ _ _ ∷ rounds) = chunk ++ received rounds
received (_ ∷ rounds) = []

-- Every write of the round succeeds.
abbrev pub Succeeds : Round → Type 0
Succeeds (read_chunk chunk r c s) = (r ≡ written) × (c ≡ written) × (s ≡ written)
Succeeds _ = Unit

module _ {Terminal : Type 0} (process : Terminal → Bytes → Terminal) (contents : Terminal → Bytes)
    (process-append : (t : Terminal) (xs ys : Bytes)
      → process (process t xs) ys ≡ process t (xs ++ ys))
    (process-nil : (t : Terminal) → process t [] ≡ t) where
  -- `c'` is what `c` becomes by the bytes `input`, read at once.
  pub record IsFaithful (c : Capture process contents) (input : Bytes)
      (c' : Capture process contents) : Type 0 where
    pub raw : c'.sinks.raw_log ≡ c.sinks.raw_log ++ input
    pub clean_text : c'.sinks.clean_log ≡ (clean c.cleaner input c.sinks.clean_log).1
    pub cleaner_state : c'.cleaner ≡ (clean c.cleaner input c.sinks.clean_log).0
    pub terminal_state : c'.terminal ≡ process c.terminal input
    pub shown : c'.sinks.screen ≡ trim_screen_snapshot (contents c'.terminal)

  nothing :
      (c : Capture process contents)
      → c.sinks.screen ≡ trim_screen_snapshot (contents c.terminal)
      → IsFaithful c [] c
  unfolding clean
  nothing c h = record {
    raw = sym (append-nil c.sinks.raw_log);
    clean_text = refl;
    cleaner_state = refl;
    terminal_state = sym (process-nil c.terminal);
    shown = h;
  }

  chunk_first :
      (c d : Capture process contents) (chunk input : Bytes)
      → IsFaithful (capture_chunk process contents c chunk written written written) input d
      → IsFaithful c (chunk ++ input) d
  unfolding capture_chunk append_write replace_write warn_once
  chunk_first c d chunk input f = record {
    raw = f.raw ∙ append_assoc c.sinks.raw_log chunk input;
    clean_text = f.clean_text ∙ ap (λ p. p.1) (clean-chunk c.cleaner chunk input c.sinks.clean_log);
    cleaner_state =
        f.cleaner_state ∙ ap (λ p. p.0) (clean-chunk c.cleaner chunk input c.sinks.clean_log);
    terminal_state = f.terminal_state ∙ process-append c.terminal chunk input;
    shown = f.shown;
  }

  -- If the screen file shows the terminal at the start and no write fails, then after any rounds the
  -- raw log has gained exactly the bytes read, the clean log and the cleaner are as after one call of
  -- `clean` over all of them, whatever the chunks, the terminal has processed them all, and the screen
  -- file shows the terminal.
  pub capture-IsFaithful :
      (rounds : List Round) (c : Capture process contents)
      → c.sinks.screen ≡ trim_screen_snapshot (contents c.terminal)
      → All Succeeds rounds
      → IsFaithful c (received rounds) (capture_output process contents rounds c).0
  unfolding capture_output capture_chunk replace_write received
  capture-IsFaithful [] c h k = nothing c h
  capture-IsFaithful (poll_interrupted ∷ rounds) c h k = capture-IsFaithful rounds c h k.1
  capture-IsFaithful (poll_timeout ∷ rounds) c h k = capture-IsFaithful rounds c h k.1
  capture-IsFaithful (read_chunk chunk r w s ∷ rounds) c h k =
      rw (k.0.0, k.0.1, k.0.2)
        (chunk_first c _ chunk (received rounds) (
          capture-IsFaithful rounds (capture_chunk process contents c chunk written written written)
            refl k.1))
  capture-IsFaithful (_ ∷ rounds) c h k = nothing c h
