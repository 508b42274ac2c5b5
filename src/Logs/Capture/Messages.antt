-- ===== src/Logs/Capture/Messages.antt =====
-- The messages about failing writes, told apart by how they begin.
use ignibyte_bridge.Prelude.{
  ℕ, ◌+◌, ◌==◌, ◌&&◌, Bool, true, false, List, [], ◌∷◌, ◌++◌, ◌≡◌, refl, arith, Bytes, codes,
  if◌then◌else◌,
}
use ignibyte_bridge.Logs.Capture.{
  Write, written, failed_after, raw_sink, clean_sink, screen_sink, warn_once, write_failed,
}

pub begins : Bytes → Bytes → Bool
begins [] line = true
begins (b ∷ bs) [] = false
begins (b ∷ bs) (c ∷ line) = b == c && begins bs line

-- How many lines begin with a text.
pub said : Bytes → List Bytes → ℕ
said start [] = 0
said start (line ∷ lines) = (if begins start line then 1 else 0) + said start lines

-- How the messages about the three sinks begin.
abbrev pub raw_start : Bytes
raw_start = codes "ignibyte-bridge: raw log write failed"

abbrev pub clean_start : Bytes
clean_start = codes "ignibyte-bridge: clean log write failed"

abbrev pub screen_start : Bytes
screen_start = codes "ignibyte-bridge: screen snapshot write failed"

said-last :
    (start : Bytes) (lines : List Bytes) (line : Bytes)
    → said start (lines ++ line ∷ []) ≡ said start lines + (if begins start line then 1 else 0)
unfolding said
said-last start [] line = omega arith
said-last start (l ∷ lines) line = omega (arith, said-last start lines line)

-- A message about the sink is written exactly when its flag is newly set.
pub said-own :
    (start : Bytes) (flag : Bool) (sink : Bytes) (w : Write) (stderr : List Bytes)
    → ((e : Bytes) → begins start (write_failed sink e) ≡ true)
    → said start (warn_once flag sink w stderr).1
        + (if (warn_once flag sink w stderr).0 then 0 else 1)
      ≡ said start stderr + (if flag then 0 else 1)
unfolding warn_once
said-own start flag sink written stderr h = refl
said-own start true sink (failed_after n e) stderr h = refl
said-own start false sink (failed_after n e) stderr h =
    rw (said-last start stderr (write_failed sink e), h e) (omega arith)

-- Nothing is said about other sinks.
pub said-other :
    (start : Bytes) (flag : Bool) (sink : Bytes) (w : Write) (stderr : List Bytes)
    → ((e : Bytes) → begins start (write_failed sink e) ≡ false)
    → said start (warn_once flag sink w stderr).1 ≡ said start stderr
unfolding warn_once
said-other start flag sink written stderr h = refl
said-other start true sink (failed_after n e) stderr h = refl
said-other start false sink (failed_after n e) stderr h =
    rw (said-last start stderr (write_failed sink e), h e) (omega arith)

-- The three messages begin differently.
pub raw_message :
    (e : Bytes)
    → (begins raw_start (write_failed raw_sink e) ≡ true)
      × (begins clean_start (write_failed raw_sink e) ≡ false)
      × (begins screen_start (write_failed raw_sink e) ≡ false)
unfolding begins write_failed raw_sink
raw_message e = (refl, refl, refl)

pub clean_message :
    (e : Bytes)
    → (begins raw_start (write_failed clean_sink e) ≡ false)
      × (begins clean_start (write_failed clean_sink e) ≡ true)
      × (begins screen_start (write_failed clean_sink e) ≡ false)
unfolding begins write_failed clean_sink
clean_message e = (refl, refl, refl)

pub screen_message :
    (e : Bytes)
    → (begins raw_start (write_failed screen_sink e) ≡ false)
      × (begins clean_start (write_failed screen_sink e) ≡ false)
      × (begins screen_start (write_failed screen_sink e) ≡ true)
unfolding begins write_failed screen_sink
screen_message e = (refl, refl, refl)
