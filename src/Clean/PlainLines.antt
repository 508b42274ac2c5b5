-- ===== src/Clean/PlainLines.antt =====
-- Text with no control sequence in it.
use ignibyte_bridge.Prelude.{
  ℕ, ◌≡◌, ◌≢◌, ◌≤◌, ◌⊎◌, true, List, [], ◌∷◌, ◌++◌, refl, arith, Bytes, All,
}
use ignibyte_bridge.Clean.{State, step, default, clean, is_string_state}
use ignibyte_bridge.Clean.Chunks.{cleaned, cleaner_after, clean-cleaned}
use ignibyte_bridge.Clean.Sequences.{Writes, Writes-append, one}

-- A tab, printable ASCII, or a byte of a multi-byte UTF-8 character.
abbrev pub IsPlain : ℕ → Type 0
IsPlain b = (b ≡ b'\t') ⊎ ((32 ≤ b) × (b ≢ 0x7f))

-- Each line with its terminator.
abbrev pub unlines : Bytes → List Bytes → Bytes
unlines eol [] = []
unlines eol (l ∷ ls) = l ++ (eol ++ unlines eol ls)

plain-Writes : (xs : Bytes) → All IsPlain xs → Writes default xs xs default
unfolding step is_string_state cleaned cleaner_after
plain-Writes [] h = record { writes = refl; leaves = refl }
plain-Writes (x ∷ xs) h =
    Writes-append (x ∷ []) xs (x ∷ []) xs (one default x (x ∷ []) default (ground arith))
      (plain-Writes xs h.1)

crlf-Writes : Writes default (b'\r' ∷ b'\n' ∷ []) (b'\n' ∷ []) default
unfolding step is_string_state
crlf-Writes =
    Writes-append (b'\r' ∷ []) (b'\n' ∷ []) [] (b'\n' ∷ [])
      (one default b'\r' [] (record { state = State.ground; pending_cr = true }) refl)
      (one (record { state = State.ground; pending_cr = true }) b'\n' (b'\n' ∷ []) default refl)

unlines-Writes :
    (ls : List Bytes)
    → All (All IsPlain) ls
    → Writes default (unlines (b'\r' ∷ b'\n' ∷ []) ls) (unlines (b'\n' ∷ []) ls) default
unlines-Writes [] h = plain-Writes [] tt
unlines-Writes (l ∷ ls) h =
    Writes-append l _ l _ (plain-Writes l h.0)
      (Writes-append (b'\r' ∷ b'\n' ∷ []) _ (b'\n' ∷ []) _ crlf-Writes (unlines-Writes ls h.1))

-- Lines of plain text that a terminal ends by CR LF, followed by unfinished plain text, come out as the
-- same lines, each ended by one newline, with the same text behind them.
pub clean-unlines :
    (ls : List Bytes) (last out : Bytes)
    → All (All IsPlain) ls
    → All IsPlain last
    → clean default (unlines (b'\r' ∷ b'\n' ∷ []) ls ++ last) out
      ≡ (default, out ++ (unlines (b'\n' ∷ []) ls ++ last))
clean-unlines ls last out h k =
    let w = Writes-append _ last _ last (unlines-Writes ls h) (plain-Writes last k) in
    rw (clean-cleaned default (unlines (b'\r' ∷ b'\n' ∷ []) ls ++ last) out, w.writes, w.leaves)
      refl
