-- ===== src/Clean/Reference.antt =====
-- A reference description of `clean`: first the escape sequences are taken out, then carriage
-- returns become newlines at once, and a newline right behind one is skipped.
use ignibyte_bridge.Prelude.{
  ℕ, Bool, true, false, not, ◌&&◌, ◌||◌, List, [], ◌∷◌, ◌++◌, ◌≡◌, refl, ap, sym, ◌∙◌, arith,
  append-nil, append_assoc, Bytes, ◌==◌, ltb, within, if◌then◌else◌,
}
use ignibyte_bridge.Clean.{State, AnsiCleaner, step, default, clean, is_string_state}
use ignibyte_bridge.Clean.Alphabet.{IsSettled, step-IsSettled}
use ignibyte_bridge.Clean.Chunks.{cleaned, cleaner_after, clean-cleaned}

pub data Token : Type 0 where
  text : ℕ → Token
  sequence_start : Token

-- Where a sequence stands after one more byte of it.
pub follow : State → ℕ → State
follow State.ground b = State.ground
follow State.escape b =
    if b == b'['
    then State.csi
    else if b == b']'
    then State.osc
    else if b == b'P' || b == b'X' || b == b'^' || b == b'_'
    then State.string_seq
    else if within 0x20 0x2f b
    then State.escape_intermediate
    else State.ground
follow State.escape_intermediate b =
    if within 0x30 0x7e b then State.ground else State.escape_intermediate
follow State.csi b = if within 0x40 0x7e b then State.ground else State.csi
follow State.osc b =
    if b == 0x07 then State.ground else if b == 0x1b then State.osc_esc else State.osc
follow State.osc_esc b = State.ground
follow State.string_seq b = if b == 0x1b then State.string_esc else State.string_seq
follow State.string_esc b = State.ground

pub shows : State → Bool
shows State.ground = true
shows _ = false

pub tokens : State → Bytes → List Token
tokens s [] = []
tokens s (b ∷ bs) =
    let outside = sequence_start ∷ tokens State.escape bs in
    let shown = text b ∷ tokens State.ground bs in
    let inside = tokens (follow s b) bs in
    if b == 0x1b && not (is_string_state s) then outside else if shows s then shown else inside

-- The flag says that the token before was a carriage return.
pub normalize : Bool → List Token → Bytes
normalize after_cr [] = []
normalize after_cr (sequence_start ∷ ts) = normalize false ts
normalize after_cr (text b ∷ ts) =
    let line_end = b'\n' ∷ normalize true ts in
    let dropped = normalize false ts in
    if b == b'\r'
    then line_end
    else if after_cr && b == b'\n'
    then dropped
    else if b == b'\n' || b == b'\t' || (not (ltb b 0x20) && not (b == 0x7f))
    then b ∷ dropped
    else dropped

abbrev pub owed_newline : AnsiCleaner → Bytes
owed_newline c = if c.pending_cr then b'\n' ∷ [] else []

-- What `c` is still to write for `input`.
abbrev pub written : AnsiCleaner → Bytes → Bytes
written c input = owed_newline c ++ normalize c.pending_cr (tokens c.state input)

step-written :
    (s : State) (c : AnsiCleaner) (b : ℕ) (input : Bytes)
    → c.state ≡ s
    → IsSettled c
    → (step c b).1 ++ written (step c b).0 input ≡ written c (b ∷ input)
unfolding step tokens normalize follow shows is_string_state
step-written State.ground c b input e h = ground arith
step-written _ c b input e h = ground arith

cleaned-written :
    (c : AnsiCleaner) (input : Bytes)
    → IsSettled c
    → cleaned c input ++ owed_newline (cleaner_after c input) ≡ written c input
unfolding cleaned cleaner_after normalize tokens
cleaned-written c [] h = sym (append-nil (owed_newline c))
cleaned-written c (b ∷ input) h =
    append_assoc (step c b).1 _ _
    ∙ ap (◌++◌ (step c b).1)
        (cleaned-written (step c b).0 input (step-IsSettled c.state c b refl h))
    ∙ step-written c.state c b input refl h

-- What a fresh cleaner writes for a stream, with the newline of a carriage return that is still pending at
-- the end, is what the reference gives: the tokens of the stream, with line ends normalized.
pub clean-normalize :
    (input : Bytes)
    → (clean default input []).1 ++ owed_newline (clean default input []).0
      ≡ normalize false (tokens State.ground input)
clean-normalize input =
    rw (clean-cleaned default input []) (cleaned-written default input (λ e. refl))
