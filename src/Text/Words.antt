-- ===== src/Text/Words.antt =====
-- Splitting at spaces, and what follows the last occurrence of a byte.
use ignibyte_bridge.Prelude.{
  ℕ, ◌≤◌, ◌≡◌, ◌≢◌, refl, sym, ap, ◌∙◌, List, [], ◌∷◌, ◌++◌, append_assoc, append-nil, none, some,
  arith, Bytes, All, count,
}
use ignibyte_bridge.Text.{words_from, word, split_whitespace, after_last, join}

-- Printable ASCII but the space.
abbrev pub IsGraphic : ℕ → Type 0
IsGraphic b = (0x21 ≤ b) × (b ≤ 0x7e)

abbrev pub IsWord : Bytes → Type 0
IsWord w = All IsGraphic w × (w ≢ [])

words-graphic :
    (cur : Bytes) (a : ℕ) (bs : Bytes)
    → IsGraphic a
    → words_from cur (a ∷ bs) ≡ words_from (cur ++ a ∷ []) bs
unfolding words_from
words-graphic [] a [] h = ground arith
words-graphic (c ∷ cur) a [] h = ground arith
words-graphic cur a (b ∷ []) h = ground arith
words-graphic cur a (b ∷ c ∷ bs) h = ground arith

words-space : (cur bs : Bytes) → words_from cur (b' ' ∷ bs) ≡ word cur (words_from [] bs)
unfolding words_from
words-space cur [] = refl
words-space cur (b ∷ []) = refl
words-space cur (b ∷ c ∷ bs) = refl

words-run :
    (cur w bs : Bytes) → All IsGraphic w → words_from cur (w ++ bs) ≡ words_from (cur ++ w) bs
words-run cur [] bs h = rw append-nil refl
words-run cur (a ∷ w) bs h =
    words-graphic cur a (w ++ bs) h.0
    ∙ words-run (cur ++ a ∷ []) w bs h.1
    ∙ ap (λ k. words_from k bs) (append_assoc cur (a ∷ []) w)

word-cons : (w : Bytes) (rest : List Bytes) → w ≢ [] → word w rest ≡ w ∷ rest
word-cons [] rest h = absurd (h refl)
word-cons (c ∷ w) rest h = refl

words-last : (w : Bytes) → IsWord w → words_from [] w ≡ w ∷ []
unfolding words_from
words-last w h =
    ap (words_from []) (sym (append-nil w)) ∙ words-run [] w [] h.0 ∙ word-cons w [] h.1

words-join : (ws : List Bytes) → All IsWord ws → words_from [] (join (b' ' ∷ []) ws) ≡ ws
unfolding join words_from
words-join [] h = refl
words-join (w ∷ []) h = words-last w h.0
words-join (w ∷ v ∷ ws) h =
    words-run [] w (b' ' ∷ join (b' ' ∷ []) (v ∷ ws)) h.0.0
    ∙ words-space w (join (b' ' ∷ []) (v ∷ ws))
    ∙ word-cons w _ h.0.1
    ∙ ap (◌∷◌ w) (words-join (v ∷ ws) h.1)

-- Words joined by single spaces, with a space in front, are split into the same words.
pub split_whitespace-join :
    (ws : List Bytes) → All IsWord ws → split_whitespace (b' ' ∷ join (b' ' ∷ []) ws) ≡ ws
unfolding split_whitespace
split_whitespace-join ws h = words-space [] (join (b' ' ∷ []) ws) ∙ words-join ws h

after_last-none : (b : ℕ) (ys : Bytes) → count b ys ≡ 0 → after_last b ys ≡ none
unfolding after_last
after_last-none b [] h = refl
after_last-none b (y ∷ ys) h = ground (arith, after_last-none b ys)

-- Only the last occurrence counts.
pub after_last-append :
    (b : ℕ) (xs ys : Bytes) → count b ys ≡ 0 → after_last b (xs ++ (b ∷ ys)) ≡ some ys
unfolding after_last
after_last-append b [] ys h = ground (arith, after_last-none b ys)
after_last-append b (x ∷ xs) ys h = rw (after_last-append b xs ys h) refl
