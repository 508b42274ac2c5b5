-- ===== src/Logs/Capture/Warnings.antt =====
-- Failing writes: the loop goes on, and each sink is reported once.
use ignibyte_bridge.Prelude.{
  ℕ, ◌+◌, Bool, true, false, ◌||◌, List, [], ◌∷◌, map, ◌≡◌, refl, ap, ◌∙◌, arith, Bytes,
  if◌then◌else◌, length, length-append,
}
use ignibyte_bridge.Clean.{clean}
use ignibyte_bridge.Logs.Capture.Messages.{
  said, raw_start, clean_start, screen_start, said-own, said-other, raw_message, clean_message,
  screen_message,
}
use ignibyte_bridge.Logs.Capture.{
  Write, written, failed_after, Round, poll_interrupted, poll_timeout, read_chunk, Exit, Warned,
  Capture, failed, raw_sink, clean_sink, screen_sink, warn_once, write_failed, capture_chunk,
  capture_output,
}

-- The same round with no failing write.
unfoldable pub unfailing : Round → Round
unfailing (read_chunk chunk _ _ _) = read_chunk chunk written written written
unfailing r = r

-- Some round that is reached has a failing write to the sink that `of` picks.
pub any_failed : (Round → Bool) → List Round → Bool
any_failed of [] = false
any_failed of (poll_interrupted ∷ rounds) = any_failed of rounds
any_failed of (poll_timeout ∷ rounds) = any_failed of rounds
any_failed of (read_chunk chunk r c s ∷ rounds) =
    of (read_chunk chunk r c s) || any_failed of rounds
any_failed of (_ ∷ rounds) = false

pub raw_failed : Round → Bool
raw_failed (read_chunk _ r c s) = failed r
raw_failed _ = false

pub clean_failed : Round → Bool
clean_failed (read_chunk _ r c s) = failed c
clean_failed _ = false

pub screen_failed : Round → Bool
screen_failed (read_chunk _ r c s) = failed s
screen_failed _ = false

abbrev pub silent : Warned → ℕ
silent w = (if w.raw then 0 else 1) + (if w.clean then 0 else 1) + (if w.screen then 0 else 1)

-- A message is written exactly when the flag is newly set.
messages-warn_once :
    (flag : Bool) (sink : Bytes) (w : Write) (stderr : List Bytes)
    → length (warn_once flag sink w stderr).1 + (if (warn_once flag sink w stderr).0 then 0 else 1)
      ≡ length stderr + (if flag then 0 else 1)
unfolding warn_once
messages-warn_once flag sink written stderr = refl
messages-warn_once true sink (failed_after n e) stderr = refl
messages-warn_once false sink (failed_after n e) stderr =
    omega (arith, length-append stderr (write_failed sink e ∷ []))

flags : (x y z u v : Bool) → x ≡ (y || v) → y ≡ (z || (u || false)) → x ≡ (z || (u || v))
flags x y z u v h k = ground arith

module _ {Terminal : Type 0} (process : Terminal → Bytes → Terminal)
    (contents : Terminal → Bytes) where
  -- Two runs that agree in all but what the sinks hold.
  pub record Agree (p q : Capture process contents × Exit) : Type 0 where
    pub same_exit : p.1 ≡ q.1
    pub same_cleaner : p.0.cleaner ≡ q.0.cleaner
    pub same_terminal : p.0.terminal ≡ q.0.terminal

  agree :
      (rounds : List Round) (c d : Capture process contents)
      → c.cleaner ≡ d.cleaner
      → c.terminal ≡ d.terminal
      → Agree
          (capture_output process contents rounds c)
          (capture_output process contents (map unfailing rounds) d)
  unfolding capture_output capture_chunk unfailing
  agree [] c d e f = record { same_exit = refl; same_cleaner = e; same_terminal = f }
  agree (poll_interrupted ∷ rounds) c d e f = agree rounds c d e f
  agree (poll_timeout ∷ rounds) c d e f = agree rounds c d e f
  agree (read_chunk chunk r w s ∷ rounds) c d e f =
      agree rounds (capture_chunk process contents c chunk r w s)
        (capture_chunk process contents d chunk written written written)
        (ap (λ k. (clean k chunk []).0) e) (ap (λ t. process t chunk) f)
  agree (_ ∷ rounds) c d e f = record { same_exit = refl; same_cleaner = e; same_terminal = f }

  -- Failing writes, of any sink and in any round, change neither when and how the loop ends nor what the
  -- cleaner and the terminal have processed: the same rounds with all writes succeeding give the same.
  pub capture_unfailing :
      (rounds : List Round) (c : Capture process contents)
      → Agree
          (capture_output process contents rounds c)
          (capture_output process contents (map unfailing rounds) c)
  capture_unfailing rounds c = agree rounds c c refl refl

  -- The flags and messages of a run.
  pub record Reports (rounds : List Round) (c c' : Capture process contents) : Type 0 where
    pub raw_flag : c'.sinks.warned.raw ≡ (c.sinks.warned.raw || any_failed raw_failed rounds)
    pub clean_flag :
        c'.sinks.warned.clean ≡ (c.sinks.warned.clean || any_failed clean_failed rounds)
    pub screen_flag :
        c'.sinks.warned.screen ≡ (c.sinks.warned.screen || any_failed screen_failed rounds)
    pub messages :
        length c'.sinks.stderr + silent c'.sinks.warned
        ≡ length c.sinks.stderr + silent c.sinks.warned
    pub raw_messages :
        said raw_start c'.sinks.stderr + (if c'.sinks.warned.raw then 0 else 1)
        ≡ said raw_start c.sinks.stderr + (if c.sinks.warned.raw then 0 else 1)
    pub clean_messages :
        said clean_start c'.sinks.stderr + (if c'.sinks.warned.clean then 0 else 1)
        ≡ said clean_start c.sinks.stderr + (if c.sinks.warned.clean then 0 else 1)
    pub screen_messages :
        said screen_start c'.sinks.stderr + (if c'.sinks.warned.screen then 0 else 1)
        ≡ said screen_start c.sinks.stderr + (if c.sinks.warned.screen then 0 else 1)

  chunk-Reports :
      (chunk : Bytes) (r w s : Write) (c : Capture process contents)
      → Reports (read_chunk chunk r w s ∷ []) c (capture_chunk process contents c chunk r w s)
  unfolding capture_chunk any_failed raw_failed clean_failed screen_failed failed warn_once
  chunk-Reports chunk r w s c = record {
    raw_flag = ground arith;
    clean_flag = ground arith;
    screen_flag = ground arith;
    messages = omega (
      arith,
      messages-warn_once c.sinks.warned.raw raw_sink r c.sinks.stderr,
      messages-warn_once c.sinks.warned.clean clean_sink w stderr1,
      messages-warn_once c.sinks.warned.screen screen_sink s stderr2,
    );
    raw_messages = omega (
      arith,
      said-own raw_start c.sinks.warned.raw raw_sink r c.sinks.stderr (λ e. (raw_message e).0),
      said-other raw_start c.sinks.warned.clean clean_sink w stderr1 (λ e. (clean_message e).0),
      said-other raw_start c.sinks.warned.screen screen_sink s stderr2 (λ e. (screen_message e).0),
    );
    clean_messages = omega (
      arith,
      said-other clean_start c.sinks.warned.raw raw_sink r c.sinks.stderr (λ e. (raw_message e).1),
      said-own clean_start c.sinks.warned.clean clean_sink w stderr1 (λ e. (clean_message e).1),
      said-other clean_start c.sinks.warned.screen screen_sink s stderr2
          (λ e. (screen_message e).1),
    );
    screen_messages = omega (
      arith,
      said-other screen_start c.sinks.warned.raw raw_sink r c.sinks.stderr (λ e. (raw_message e).2),
      said-other screen_start c.sinks.warned.clean clean_sink w stderr1 (λ e. (clean_message e).2),
      said-own screen_start c.sinks.warned.screen screen_sink s stderr2 (λ e. (screen_message e).2),
    );
  }
    where
      stderr1 : List Bytes
      stderr1 = (warn_once c.sinks.warned.raw raw_sink r c.sinks.stderr).1

      stderr2 : List Bytes
      stderr2 = (warn_once c.sinks.warned.clean clean_sink w stderr1).1

  Reports-cons :
      (chunk : Bytes) (r w s : Write) (rounds : List Round) (c d e : Capture process contents)
      → Reports (read_chunk chunk r w s ∷ []) c d
      → Reports rounds d e
      → Reports (read_chunk chunk r w s ∷ rounds) c e
  unfolding any_failed
  Reports-cons chunk r w s rounds c d e now later = record {
    raw_flag = flags _ d.sinks.warned.raw _ _ _ later.raw_flag now.raw_flag;
    clean_flag = flags _ d.sinks.warned.clean _ _ _ later.clean_flag now.clean_flag;
    screen_flag = flags _ d.sinks.warned.screen _ _ _ later.screen_flag now.screen_flag;
    messages = later.messages ∙ now.messages;
    raw_messages = later.raw_messages ∙ now.raw_messages;
    clean_messages = later.clean_messages ∙ now.clean_messages;
    screen_messages = later.screen_messages ∙ now.screen_messages;
  }

  -- Each sink is reported once, under its own name, in the first round in which its write fails: after any rounds a
  -- sink's flag is set if it was before or one of the reached writes failed; each newly set flag stands for
  -- one more line on stderr that begins with `ignibyte-bridge: SINK write failed`, where SINK is `raw log`,
  -- `clean log` or `screen snapshot`; and there are no other new lines.
  pub capture-Reports :
      (rounds : List Round) (c : Capture process contents)
      → Reports rounds c (capture_output process contents rounds c).0
  unfolding capture_output any_failed
  capture-Reports (read_chunk chunk r w s ∷ rounds) c =
      let d = capture_chunk process contents c chunk r w s in
      Reports-cons chunk r w s rounds c d _ (chunk-Reports chunk r w s c) (capture-Reports rounds d)
  capture-Reports (poll_interrupted ∷ rounds) c =
      let r = capture-Reports rounds c in
      record {
        raw_flag = r.raw_flag;
        clean_flag = r.clean_flag;
        screen_flag = r.screen_flag;
        messages = r.messages;
        raw_messages = r.raw_messages;
        clean_messages = r.clean_messages;
        screen_messages = r.screen_messages;
      }
  capture-Reports (poll_timeout ∷ rounds) c =
      let r = capture-Reports rounds c in
      record {
        raw_flag = r.raw_flag;
        clean_flag = r.clean_flag;
        screen_flag = r.screen_flag;
        messages = r.messages;
        raw_messages = r.raw_messages;
        clean_messages = r.clean_messages;
        screen_messages = r.screen_messages;
      }
  capture-Reports _ c = record {
    raw_flag = ground arith;
    clean_flag = ground arith;
    screen_flag = ground arith;
    messages = refl;
    raw_messages = refl;
    clean_messages = refl;
    screen_messages = refl;
  }
