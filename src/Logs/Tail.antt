-- ===== src/Logs/Tail.antt =====
-- Tailing by blocks from the end of the file gives what reading the whole file would.
use ignibyte_bridge.Prelude.{
  ℕ, zero, suc, ◌+◌, ◌-◌, ◌≤◌, ◌<◌, ◌≡◌, ◌⊎◌, inl, inr, refl, ap, sym, ◌∙◌, Bool-cases, false, [],
  ◌∷◌, ◌++◌, append_assoc, arith, Bytes, ◌==◌, ltb, min, length, length-append, take, drop,
  drop-past, drop-length, drop-all, drop-nil, take-drop, take-drop_at, ltb→lt, count, count-append,
}
use ignibyte_bridge.Text.{lines}
use ignibyte_bridge.Text.Lines.{lines-newline, count-le-lines}
use ignibyte_bridge.Text.Utf8.{from_utf8_lossy, count-from_utf8_lossy, from_utf8_lossy-newline}
use ignibyte_bridge.Logs.{unlines, tail_lines, tail_loop, tail_contents, read_at, block, max_bytes}

-- A newline with at least `tail` lines behind it hides what stands before it.
pub tail_lines-newline :
    (xs ys : Bytes) (tail : ℕ)
    → tail ≤ length (lines ys)
    → tail_lines (xs ++ (b'\n' ∷ ys)) tail ≡ tail_lines ys tail
unfolding tail_lines
tail_lines-newline xs ys tail h =
    let before = lines (xs ++ b'\n' ∷ []) in
    let behind = lines ys in
    rw (lines-newline xs ys) (
      ap unlines (
        drop-past (length (before ++ behind) - tail) (length behind - tail) before behind
          (omega (arith, length-append before behind))))

-- The first newline of a text.
pub record FirstLine (s : Bytes) : Type 0 where
  pub line : Bytes
  pub rest : Bytes
  pub splits : s ≡ line ++ (b'\n' ∷ rest)
  pub counts : count b'\n' s ≡ suc (count b'\n' rest)

pub first_line : (s : Bytes) → 0 < count b'\n' s → FirstLine s
first_line [] h = absurd (omega arith)
first_line (b ∷ s) h = elim (Bool-cases (b == b'\n')) [
  | inl e ↦ record { line = []; rest = s; splits = ground arith; counts = rw e (omega arith) }
  | inr e ↦
      let f = first_line s (ground arith) in
      record {
        line = b ∷ f.line;
        rest = f.rest;
        splits = ap (◌∷◌ b) f.splits;
        counts = rw e (omega (arith, f.counts));
      }
]

tail_lines-lossy :
    (xs ys : Bytes) (tail : ℕ)
    → tail ≤ count b'\n' ys
    → tail_lines (from_utf8_lossy (xs ++ (b'\n' ∷ ys))) tail ≡ tail_lines (from_utf8_lossy ys) tail
tail_lines-lossy xs ys tail h = rw (from_utf8_lossy-newline xs ys) (
    tail_lines-newline (from_utf8_lossy xs) (from_utf8_lossy ys) tail
      (omega (arith, count-le-lines (from_utf8_lossy ys), count-from_utf8_lossy ys)))

tail_lines-split :
    (before s line rest : Bytes) (tail : ℕ)
    → s ≡ line ++ (b'\n' ∷ rest)
    → tail ≤ count b'\n' rest
    → tail_lines (from_utf8_lossy (before ++ s)) tail ≡ tail_lines (from_utf8_lossy s) tail
tail_lines-split before s line rest tail e h =
    rw (e, ← append_assoc before line (b'\n' ∷ rest))
      (tail_lines-lossy (before ++ line) rest tail h ∙ sym (tail_lines-lossy line rest tail h))

-- A suffix with more than `tail` newlines is enough for the last `tail` lines.
pub tail_lines-suffix :
    (before s : Bytes) (tail : ℕ)
    → tail < count b'\n' s
    → tail_lines (from_utf8_lossy (before ++ s)) tail ≡ tail_lines (from_utf8_lossy s) tail
tail_lines-suffix before s tail h =
    let f = first_line s (omega arith) in
    tail_lines-split before s f.line f.rest tail f.splits (omega (arith, f.counts))

-- What the loop has collected when it ends.
record Collects (contents : Bytes) (tail floor : ℕ) (collected : Bytes) : Type 0 where
  from : ℕ
  above : floor ≤ from
  is_suffix : collected ≡ drop from contents
  ends : (from ≡ floor) ⊎ (tail < count b'\n' collected)

tail_loop-Collects :
    (fuel size : ℕ) (contents : Bytes) (tail floor pos : ℕ) (collected : Bytes) (newlines : ℕ)
    → 0 < size
    → pos < fuel + floor
    → floor ≤ pos
    → collected ≡ drop pos contents
    → newlines ≡ count b'\n' collected
    → Collects contents tail floor (tail_loop fuel size contents tail floor pos collected newlines)
unfolding tail_loop
tail_loop-Collects zero size contents tail floor pos collected newlines hs hf hp hc hn =
    absurd (omega arith)
tail_loop-Collects (suc fuel) size contents tail floor pos collected newlines hs hf hp hc hn =
    elim (Bool-cases (ltb floor pos)) [
      | inr e ↦ rw e (record { from = pos; above = hp; is_suffix = hc; ends = inl (ground arith) })
      | inl e ↦ rw e (elim (Bool-cases (ltb tail newlines')) [
        | inl e' ↦ rw e' (record {
          from = pos';
          above = omega arith;
          is_suffix = joined;
          ends = inr (omega (arith, ltb→lt _ _ e', counted));
        })
        | inr e' ↦ rw e' (
            tail_loop-Collects fuel size contents tail floor pos' collected' newlines' hs
              (omega (arith, ltb→lt _ _ e)) (omega arith) joined counted)
      ])
    ]
  where
    read_size : ℕ
    read_size = min size (pos - floor)

    pos' : ℕ
    pos' = pos - read_size

    collected' : Bytes
    collected' = read_at contents pos' read_size ++ collected

    newlines' : ℕ
    newlines' = newlines + count b'\n' (read_at contents pos' read_size)

    joined : collected' ≡ drop pos' contents
    joined = rw hc (take-drop_at pos' read_size pos contents (omega arith))

    counted : newlines' ≡ count b'\n' collected'
    counted = omega (arith, hn, count-append b'\n' (read_at contents pos' read_size) collected)

-- With enough newlines in it, a suffix of the file tails as the file from any place before it.
suffix_tails :
    (contents : Bytes) (tail floor : ℕ) (collected : Bytes)
    → Collects contents tail floor collected
    → tail_lines (from_utf8_lossy collected) tail
      ≡ tail_lines (from_utf8_lossy (drop floor contents)) tail
suffix_tails contents tail floor collected c = elim c.ends [
  | inl e ↦ rw c.is_suffix (rw e refl)
  | inr h ↦
      let k = c.from - floor in
      let e = take-drop_at floor k c.from contents (omega (arith, c.above)) in
      rw (← e, ← c.is_suffix)
        (sym (tail_lines-suffix (take k (drop floor contents)) collected tail h))
]

tail_lines-zero : (s : Bytes) → tail_lines s 0 ≡ []
unfolding tail_lines unlines
tail_lines-zero s = ap unlines (drop-all (length (lines s) - 0) (lines s) (omega arith))

tail_lines-nil : (tail : ℕ) → tail_lines (from_utf8_lossy []) tail ≡ []
unfolding tail_lines unlines from_utf8_lossy lines
tail_lines-nil tail = ap unlines (drop-nil (0 - tail))

suc_ne_zero : (n : ℕ) → (suc n == 0) ≡ false
suc_ne_zero n = ground arith

-- Reading blocks backward from the end gives the last lines of the last `limit` bytes of the file, for
-- every block size, file and number of lines. A fuel of one more than the file's length is enough.
pub tail_contents-capped :
    (size limit : ℕ) (contents : Bytes) (tail : ℕ)
    → 0 < size
    → tail_contents size limit contents tail
      ≡ tail_lines (from_utf8_lossy (drop (length contents - limit) contents)) tail
unfolding tail_contents
tail_contents-capped size limit [] tail h =
    sym (ap (λ s. tail_lines (from_utf8_lossy s) tail) (drop-nil (0 - limit)) ∙ tail_lines-nil tail)
tail_contents-capped size limit (b ∷ s) zero h =
    rw (suc_ne_zero (length s))
      (sym (tail_lines-zero (from_utf8_lossy (drop (suc (length s) - limit) (b ∷ s)))))
tail_contents-capped size limit (b ∷ s) (suc tail) h =
    rw (suc_ne_zero (length s), suc_ne_zero tail)
      (suffix_tails (b ∷ s) (suc tail) (length (b ∷ s) - limit) _ (
        tail_loop-Collects (suc (length (b ∷ s))) size (b ∷ s) (suc tail) (length (b ∷ s) - limit)
          (length (b ∷ s)) [] 0 h (omega arith) (omega arith) (sym (drop-length (b ∷ s))) refl))

-- `tail_file` gives the last `tail` lines of the whole file, decoded as one text, if the file has at most
-- 8 MiB or its last 8 MiB hold more than `tail` newlines.
pub tail_contents-whole :
    (contents : Bytes) (tail : ℕ)
    → (length contents ≤ max_bytes)
      ⊎ (tail < count b'\n' (drop (length contents - max_bytes) contents))
    → tail_contents block max_bytes contents tail ≡ tail_lines (from_utf8_lossy contents) tail
tail_contents-whole contents tail (inl h) =
    let e : length contents - max_bytes ≡ 0 = omega arith in
    tail_contents-capped block max_bytes contents tail (omega arith) ∙ rw e refl
tail_contents-whole contents tail (inr h) =
    let k = length contents - max_bytes in
    tail_contents-capped block max_bytes contents tail (omega arith)
    ∙ sym (tail_lines-suffix (take k contents) (drop k contents) tail h)
    ∙ ap (λ s. tail_lines (from_utf8_lossy s) tail) (take-drop k contents)
