-- ===== src/Logs.antt =====
-- src/logs.rs: log tailing and the screen snapshot.
pub mod Tail
pub mod Capture
pub mod Forward
use ignibyte_bridge.Prelude.{
  ℕ, zero, suc, ◌+◌, ◌-◌, ◌*◌, Bool, true, false, ◌||◌, List, [], ◌∷◌, ◌++◌, map, Bytes, ◌==◌, ltb,
  min, if◌then◌else◌, is_empty, length, take, drop, count,
}
use ignibyte_bridge.Text.{lines, trim_end, join}
use ignibyte_bridge.Text.Utf8.{from_utf8_lossy}
use mathlib.Core.List.{reverse}

-- Each line with a newline behind it.
unfoldable pub unlines : List Bytes → Bytes
unlines [] = []
unlines (line ∷ ls) = line ++ (b'\n' ∷ unlines ls)

unfoldable pub tail_lines : Bytes → ℕ → Bytes
tail_lines contents tail =
    let ls = lines contents in let start = length ls - tail in unlines (drop start ls)

-- `while lines.last().is_some_and(is_empty) { lines.pop(); }`, on the reversed lines.
unfoldable pub pop_empty : List Bytes → List Bytes
pop_empty [] = []
pop_empty (l ∷ ls) = let popped = pop_empty ls in if is_empty l then popped else l ∷ ls

unfoldable pub trim_screen_snapshot : Bytes → Bytes
unfolding pop_empty
trim_screen_snapshot contents =
    let ls = reverse (pop_empty (reverse (map trim_end (lines contents)))) in
    if is_empty ls then [] else join (b'\n' ∷ []) ls ++ b'\n' ∷ []

abbrev pub block : ℕ
block = 64 * 1024

abbrev pub max_bytes : ℕ
max_bytes = 8 * 1024 * 1024

-- `seek(pos)` and `read_exact` of `n` bytes.
abbrev pub read_at : Bytes → ℕ → ℕ → Bytes
read_at contents pos n = take n (drop pos contents)

-- `while pos > floor { … }` in blocks of `size` bytes. `pos` falls on each round.
pub tail_loop : ℕ → ℕ → Bytes → ℕ → ℕ → ℕ → Bytes → ℕ → Bytes
tail_loop zero size contents tail floor pos collected newlines = collected
tail_loop (suc fuel) size contents tail floor pos collected newlines =
    let read_size = min size (pos - floor) in
    let pos' = pos - read_size in
    let read = read_at contents pos' read_size in
    let newlines' = newlines + count b'\n' read in
    let collected' = read ++ collected in
    let rest = tail_loop fuel size contents tail floor pos' collected' newlines' in
    if ltb floor pos then if ltb tail newlines' then collected' else rest else collected

-- `tail_file` on the contents of a file that can be read, and is not written to meanwhile.
unfoldable pub tail_contents : ℕ → ℕ → Bytes → ℕ → Bytes
tail_contents size limit contents tail =
    let len = length contents in
    let floor = len - limit in
    if len == 0 || tail == 0
    then []
    else tail_lines (from_utf8_lossy (tail_loop (suc len) size contents tail floor len [] 0)) tail
