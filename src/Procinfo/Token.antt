-- ===== src/Procinfo/Token.antt =====
-- The token is the kernel's start time, whatever the command name is.
use ignibyte_bridge.Prelude.{
  ℕ, ◌^◌, ◌<◌, ◌≡◌, refl, List, [], ◌∷◌, ◌++◌, some, arith, Bytes, All, count, count-append,
  get_elem?,
}
use ignibyte_bridge.Text.{decimal, join}
use ignibyte_bridge.Text.Numbers.{parse_u64-decimal}
use ignibyte_bridge.Text.Words.{IsWord, split_whitespace-join, after_last-append}
use ignibyte_bridge.Procinfo.{stat_start_time, process_start_time_macos}

join-count :
    (ws : List Bytes) → All (λ w. count b')' w ≡ 0) ws → count b')' (join (b' ' ∷ []) ws) ≡ 0
unfolding join
join-count [] h = refl
join-count (w ∷ []) h = h.0
join-count (w ∷ v ∷ ws) h =
    omega
      (arith, count-append b')' w (b' ' ∷ join (b' ' ∷ []) (v ∷ ws)), h.0, join-count (v ∷ ws) h.1)

-- For a line `<before>) <fields>` whose fields are printable words with no `)` in them, the token is the
-- number that field 22 of the file, the 20th word here, shows. What stands before the last `)`, with the
-- command's name, may be any bytes, also spaces and parentheses.
pub stat_start_time_lem :
    (before : Bytes) (fields : List Bytes) (start : ℕ)
    → All IsWord fields
    → All (λ w. count b')' w ≡ 0) fields
    → get_elem? fields 19 ≡ some (decimal start)
    → start < 2 ^ 64
    → stat_start_time (before ++ (b')' ∷ b' ' ∷ join (b' ' ∷ []) fields)) ≡ some start
unfolding stat_start_time
stat_start_time_lem before fields start w c e h =
    rw
      (after_last-append b')' before (b' ' ∷ join (b' ' ∷ []) fields)
        (omega (arith, join-count fields c)))
      (rw (split_whitespace-join fields w, e) (parse_u64-decimal start h))

-- On macOS two starts have one token only if they are equal, for times below 2 ^ 44 seconds.
pub process_start_time_macos-injective :
    (s u s' u' : ℕ)
    → s < 2 ^ 44
    → s' < 2 ^ 44
    → u < 1000000
    → u' < 1000000
    → process_start_time_macos (some (s, u)) ≡ process_start_time_macos (some (s', u'))
    → (s ≡ s') × (u ≡ u')
unfolding process_start_time_macos
process_start_time_macos-injective s u s' u' hs hs' hu hu' e = ground arith
