-- ===== src/Paths/Programs.antt =====
-- The PATH that a session's child gets, and how a program is looked up in one.
use ignibyte_bridge.Prelude.{
  ◌≡◌, ◌≢◌, not, map, refl, Bool, true, false, Bool-cases, inl, inr, Option, none, some, List, [],
  ◌∷◌, ◌++◌, arith, Bytes, if◌then◌else◌, codes, is_empty, keep, any, All, count, ◌==◌,
}
use ignibyte_bridge.Text.{split, join}
use ignibyte_bridge.Text.Split.{split-join, split-pieces}
use ignibyte_bridge.Paths.{
  path_join, is_other_entry, path_with_local_bin_from, find_executable, resolve_program_path,
}

-- The search for a program through the entries of a PATH: an empty entry is skipped, one where the program is not
-- executable is passed, and the first one where it is ends the search.
pub data Search (is_executable : Bytes → Bool) (program : Bytes)
    : List Bytes → Option Bytes → Type 0 where
  over : Search is_executable program [] none
  skips :
      (entries : List Bytes) (r : Option Bytes)
      → Search is_executable program entries r
      → Search is_executable program ([] ∷ entries) r
  passes :
      (entry : Bytes) (entries : List Bytes) (r : Option Bytes)
      → entry ≢ []
      → is_executable (path_join entry program) ≡ false
      → Search is_executable program entries r
      → Search is_executable program (entry ∷ entries) r
  finds :
      (entry : Bytes) (entries : List Bytes)
      → entry ≢ []
      → is_executable (path_join entry program) ≡ true
      → Search is_executable program (entry ∷ entries) (some (path_join entry program))

entries-Search :
    (x : Bytes → Bool) (program : Bytes) (entries : List Bytes)
    → Search x program entries (
        find_executable x
          (map (λ entry. path_join entry program) (keep (λ entry. not (is_empty entry)) entries)))
unfolding find_executable
entries-Search x program [] = over
entries-Search x program ([] ∷ es) = skips es _ (entries-Search x program es)
entries-Search x program ((b ∷ e) ∷ es) = elim (Bool-cases (x (path_join (b ∷ e) program))) [
  | inl h ↦ rw h (finds (b ∷ e) es (λ q. cc) h)
  | inr h ↦ rw h (passes (b ∷ e) es _ (λ q. cc) h (entries-Search x program es))
]

-- A program name with no slash resolves to its path in the first entry of PATH, between the colons, that is not
-- empty and in which it is executable; it stays unresolved if there is no such entry.
pub resolve-Search :
    (is_executable : Bytes → Bool) (program path : Bytes)
    → any (λ b. b == b'/') program ≡ false
    → Search is_executable program
        (split b':' path)
        (resolve_program_path is_executable program path)
unfolding resolve_program_path
resolve-Search x program path e = rw e (entries-Search x program (split b':' path))

keep-All : (P : Bytes → Type 0) (p : Bytes → Bool) (ws : List Bytes) → All P ws → All P (keep p ws)
keep-All P p [] h = tt
keep-All P p (w ∷ ws) h = elim (Bool-cases (p w)) [
  | inl e ↦ rw e (h.0, keep-All P p ws h.1)
  | inr e ↦ rw e (keep-All P p ws h.1)
]

keep-other :
    (lb : Bytes) (ws : List Bytes) → All (λ w. is_empty w ≡ false) (keep (is_other_entry lb) ws)
unfolding is_other_entry
keep-other lb [] = tt
keep-other lb (w ∷ ws) = elim (Bool-cases (is_other_entry lb w)) [
  | inl e ↦ rw e (ground arith, keep-other lb ws)
  | inr e ↦ rw e (keep-other lb ws)
]

join_empty :
    (w : Bytes) (ws : List Bytes)
    → is_empty w ≡ false
    → is_empty (join (b':' ∷ []) (w ∷ ws)) ≡ false
unfolding join
join_empty [] ws h = cc
join_empty (b ∷ w) [] h = refl
join_empty (b ∷ w) (v ∷ ws) h = refl

-- The text that is built from the kept entries.
with_rest :
    (lb : Bytes) (kept : List Bytes)
    → All (λ w. is_empty w ≡ false) kept
    → All (λ w. count b':' w ≡ 0) (lb ∷ kept)
    → split b':'
        (let rest = join (b':' ∷ []) kept in if is_empty rest then lb else lb ++ (b':' ∷ rest))
      ≡ lb ∷ kept
unfolding join
with_rest lb [] h k = split-join b':' lb [] k
with_rest lb (w ∷ ws) h k = rw (join_empty w ws h.0) (split-join b':' lb (w ∷ ws) k)

abbrev pub local_bin_of : Bytes → Bytes
local_bin_of home_dir = path_join home_dir (codes ".local/bin")

-- The entries of the child's PATH are `~/.local/bin`, then the nonempty entries of the base PATH that
-- differ from it, in their order, for a home directory with no colon in its path.
pub path_with_local_bin-entries :
    (current_path home_dir : Bytes)
    → count b':' (local_bin_of home_dir) ≡ 0
    → split b':' (path_with_local_bin_from current_path home_dir)
      ≡ local_bin_of home_dir
        ∷ keep (is_other_entry (local_bin_of home_dir)) (split b':' current_path)
unfolding path_with_local_bin_from
path_with_local_bin-entries [] home_dir h =
    unfold split join in split-join b':' (local_bin_of home_dir) [] (h, tt)
path_with_local_bin-entries (c ∷ path) home_dir h =
    let pieces = split b':' (c ∷ path) in
    with_rest (local_bin_of home_dir) (keep (is_other_entry (local_bin_of home_dir)) pieces)
      (keep-other (local_bin_of home_dir) pieces)
      (
        h,
        keep-All (λ w. count b':' w ≡ 0) (is_other_entry (local_bin_of home_dir)) pieces
            (split-pieces b':' (c ∷ path)),
      )
