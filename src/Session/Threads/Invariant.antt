-- ===== src/Session/Threads/Invariant.antt =====
-- What holds of a run's owner and its threads at every moment.
use ignibyte_bridge.Prelude.{
  ℕ, ◌+◌, ◌≤◌, ◌≡◌, ◌≢◌, ◌⊎◌, refl, ◌∙◌, ap, inl, inr, Bool, true, false, [], ◌∷◌, ◌++◌, Bytes,
  arith, All, All-append,
}
use ignibyte_bridge.Logs.Capture
use ignibyte_bridge.Logs.Capture.{Capture, capture_output}
use ignibyte_bridge.Logs.Capture.Rounds.{capture_output-append, capture_output-none}
use ignibyte_bridge.Logs.Forward
use ignibyte_bridge.Logs.Forward.{forward_input, forward_input-append, forward_input-none}
use ignibyte_bridge.Session.Threads.{
  Owner, waits_child, joins_input, gave_up, wait_fails, joins_output, finished, Threads, spawned,
  Step, passes, forwards, captures, child_exits, joins_forwarder, naps, stops_capture,
  joins_capturer, Steps, is_capture_stop,
}

-- The flags that the owner has set.
unfoldable pub wants_input_stop : Owner → Bool
wants_input_stop waits_child = false
wants_input_stop gave_up = false
wants_input_stop _ = true

unfoldable pub wants_output_stop : Owner → Bool
wants_output_stop (joins_output deadline) = true
wants_output_stop (finished deadline) = true
wants_output_stop _ = false

abbrev pub past_input : Owner → Bool
past_input waits_child = false
past_input gave_up = false
past_input joins_input = false
past_input _ = true

-- The stop flag was not set at the round's test.
abbrev pub IsUnhurried : Capture.Round → Type 0
IsUnhurried r = is_capture_stop r ≡ false

module _ {Terminal : Type 0} (process : Terminal → Bytes → Terminal) (contents : Terminal → Bytes)
    (pty : Bytes) (c : Capture process contents) where
  -- The threads have done what their loops do by themselves on the rounds that they have gone.
  pub record IsRun (s : Threads process contents) : Type 0 where
    pub input_flag : s.input_stop ≡ wants_input_stop s.owner
    pub output_flag : s.output_stop ≡ wants_output_stop s.owner
    pub inputs : forward_input s.forwarded pty ≡ (s.pty, s.forwarder)
    pub outputs : capture_output process contents s.captured c ≡ (s.capture, s.capturer)
    pub joined_input : past_input s.owner ≡ true → s.forwarder ≢ Forward.running
    pub joined_output : (d : ℕ) → s.owner ≡ finished d → s.capturer ≢ Capture.running
    pub capped : (d : ℕ) → s.owner ≡ joins_output d → (s.capturer ≢ Capture.running) ⊎ (d ≤ s.clock)
    pub patient :
        (d : ℕ)
        → (s.owner ≡ joins_output d) ⊎ (s.owner ≡ finished d)
        → All IsUnhurried s.captured ⊎ (d ≤ s.clock)
    pub unhurried : wants_output_stop s.owner ≡ false → All IsUnhurried s.captured

  pub spawned-IsRun : (clock : ℕ) → IsRun (spawned process contents clock pty c)
  unfolding wants_input_stop wants_output_stop
  spawned-IsRun clock = record {
    input_flag = refl;
    output_flag = refl;
    inputs = forward_input-none pty;
    outputs = capture_output-none process contents c;
    joined_input = λ e. cc;
    joined_output = λ d e. cc;
    capped = λ d e. cc;
    patient = λ d e. inl tt;
    unhurried = λ e. tt;
  }

  -- Time passes.
  later-IsRun :
      (s : Threads process contents) (n : ℕ) → IsRun s → IsRun (record s { clock = s.clock + n })
  later-IsRun s n h = record {
    input_flag = h.input_flag;
    output_flag = h.output_flag;
    inputs = h.inputs;
    outputs = h.outputs;
    joined_input = h.joined_input;
    joined_output = h.joined_output;
    capped = λ d e. elim (h.capped d e) [ inl k ↦ inl k | inr k ↦ inr (omega arith) ];
    patient = λ d e. elim (h.patient d e) [ inl k ↦ inl k | inr k ↦ inr (omega arith) ];
    unhurried = h.unhurried;
  }

  forwards-IsRun :
      (s : Threads process contents) (r : Forward.Round)
      → IsRun s
      → s.forwarder ≡ Forward.running
      → IsRun (record s {
        forwarded = s.forwarded ++ r ∷ [];
        pty = (forward_input (r ∷ []) s.pty).0;
        forwarder = (forward_input (r ∷ []) s.pty).1;
      })
  forwards-IsRun s r h e = record {
    input_flag = h.input_flag;
    output_flag = h.output_flag;
    inputs =
        forward_input-append s.forwarded (r ∷ []) pty (ap (λ p. p.1) h.inputs ∙ e)
        ∙ ap (λ p. forward_input (r ∷ []) p.0) h.inputs;
    outputs = h.outputs;
    joined_input = λ k. absurd (h.joined_input k e);
    joined_output = h.joined_output;
    capped = h.capped;
    patient = h.patient;
    unhurried = h.unhurried;
  }

  captures-IsRun :
      (s : Threads process contents) (r : Capture.Round)
      → IsRun s
      → s.capturer ≡ Capture.running
      → is_capture_stop r ≡ s.output_stop
      → IsRun (record s {
        captured = s.captured ++ r ∷ [];
        capture = (capture_output process contents (r ∷ []) s.capture).0;
        capturer = (capture_output process contents (r ∷ []) s.capture).1;
      })
  captures-IsRun s r h e f = record {
    input_flag = h.input_flag;
    output_flag = h.output_flag;
    inputs = h.inputs;
    outputs =
        capture_output-append process contents s.captured (r ∷ []) c (ap (λ p. p.1) h.outputs ∙ e)
        ∙ ap (λ p. capture_output process contents (r ∷ []) p.0) h.outputs;
    joined_input = h.joined_input;
    joined_output = λ d k. absurd (h.joined_output d k e);
    capped = λ d k. elim (h.capped d k) [ inl l ↦ absurd (l e) | inr l ↦ inr l ];
    patient = λ d k. elim k [
      | inl l ↦ elim (h.capped d l) [ inl i ↦ absurd (i e) | inr i ↦ inr i ]
      | inr l ↦ absurd (h.joined_output d l e)
    ];
    unhurried =
        λ k. All-append IsUnhurried s.captured (r ∷ []) (h.unhurried k) (f ∙ h.output_flag ∙ k, tt);
  }

  Step-IsRun : {s t : Threads process contents} → Step process contents s t → IsRun s → IsRun t
  unfolding wants_input_stop wants_output_stop
  Step-IsRun {s} (passes late) h = later-IsRun s late h
  Step-IsRun {s} (naps d late e f g) h = later-IsRun s (20 + late) h
  Step-IsRun {s} (forwards r e f) h = forwards-IsRun s r h e
  Step-IsRun {s} (captures r e f) h = captures-IsRun s r h e f
  Step-IsRun {s} (child_exits e) h = record {
    input_flag = refl;
    output_flag = h.output_flag ∙ ap wants_output_stop e;
    inputs = h.inputs;
    outputs = h.outputs;
    joined_input = λ k. cc;
    joined_output = λ d k. cc;
    capped = λ d k. cc;
    patient = λ d k. elim k [ inl l ↦ cc | inr l ↦ cc ];
    unhurried = λ k. h.unhurried (ap wants_output_stop e);
  }
  Step-IsRun {s} (wait_fails e) h = record {
    input_flag = h.input_flag ∙ ap wants_input_stop e;
    output_flag = h.output_flag ∙ ap wants_output_stop e;
    inputs = h.inputs;
    outputs = h.outputs;
    joined_input = λ k. cc;
    joined_output = λ d k. cc;
    capped = λ d k. cc;
    patient = λ d k. elim k [ inl l ↦ cc | inr l ↦ cc ];
    unhurried = λ k. h.unhurried (ap wants_output_stop e);
  }
  Step-IsRun {s} (joins_forwarder e f) h = record {
    input_flag = h.input_flag ∙ ap wants_input_stop e;
    output_flag = h.output_flag ∙ ap wants_output_stop e;
    inputs = h.inputs;
    outputs = h.outputs;
    joined_input = λ k. f;
    joined_output = λ d k. cc;
    capped = λ d k. cc;
    patient = λ d k. elim k [ inl l ↦ cc | inr l ↦ cc ];
    unhurried = λ k. h.unhurried (ap wants_output_stop e);
  }
  Step-IsRun {s} (stops_capture d e f) h = record {
    input_flag = h.input_flag ∙ ap wants_input_stop e;
    output_flag = refl;
    inputs = h.inputs;
    outputs = h.outputs;
    joined_input = λ k. h.joined_input (ap past_input e);
    joined_output = λ d' k. cc;
    capped = λ d' k. let i : d' ≡ d = cc in rw i f;
    patient = λ d' k. inl (h.unhurried (ap wants_output_stop e));
    unhurried = λ k. cc;
  }
  Step-IsRun {s} (joins_capturer d e f) h = record {
    input_flag = h.input_flag ∙ ap wants_input_stop e;
    output_flag = h.output_flag ∙ ap wants_output_stop e;
    inputs = h.inputs;
    outputs = h.outputs;
    joined_input = λ k. h.joined_input (ap past_input e);
    joined_output = λ d' k. f;
    capped = λ d' k. cc;
    patient =
        λ d' k. elim k [ inl l ↦ cc | inr l ↦ let i : d' ≡ d = cc in h.patient d' (inl (rw i e)) ];
    unhurried = λ k. cc;
  }

  pub Steps-IsRun :
      {s t : Threads process contents} → Steps process contents s t → IsRun s → IsRun t
  Steps-IsRun Steps.here h = h
  Steps-IsRun (Steps.next ss st) h = Step-IsRun st (Steps-IsRun ss h)
