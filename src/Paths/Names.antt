-- ===== src/Paths/Names.antt =====
-- Which session names are accepted, and where their directories lie.
use ignibyte_bridge.Prelude.{
  ℕ, ◌≤◌, ◌≡◌, ◌≢◌, ◌↔◌, ◌⊎◌, inl, inr, refl, sym, ap, ◌∙◌, true, false, ◌||◌, Bool-cases, [], ◌∷◌,
  ◌++◌, append_assoc, arith, Bytes, ltb, bytes_eq, bytes_eq_iff, codes, length, is_empty, all, All,
  ok, >>=-eq-ok, drop, drop-append,
}
use ignibyte_bridge.Paths.{
  validate_session_name, is_name_byte, starts_with, ends_with, path_join, session_dir,
}

-- A letter, a digit, `-`, `_` or `.`.
abbrev pub IsNameByte : ℕ → Type 0
IsNameByte b =
    ((b'0' ≤ b) × (b ≤ b'9'))
    ⊎ ((b'A' ≤ b) × (b ≤ b'Z'))
    ⊎ ((b'a' ≤ b) × (b ≤ b'z'))
    ⊎ (b ≡ b'-')
    ⊎ (b ≡ b'_')
    ⊎ (b ≡ b'.')

is_name_byte_iff : (b : ℕ) → (is_name_byte b ≡ true) ↔ IsNameByte b
unfolding is_name_byte
is_name_byte_iff b = (λ h. ground arith, λ h. ground arith)

all_name_bytes_iff : (s : Bytes) → (all is_name_byte s ≡ true) ↔ All IsNameByte s
all_name_bytes_iff [] = (λ h. tt, λ h. refl)
all_name_bytes_iff (b ∷ s) = (
  λ h. ground (arith, (is_name_byte_iff b).0, (all_name_bytes_iff s).0),
  λ h. ground (arith, (is_name_byte_iff b).1 h.0, (all_name_bytes_iff s).1 h.1),
)

pub record IsSessionName (name : Bytes) : Type 0 where
  pub short : length name ≤ 128
  pub bytes : All IsNameByte name
  pub not_nil : name ≢ []
  pub not_dot : name ≢ codes "."
  pub not_dot_dot : name ≢ codes ".."
  pub no_dash : starts_with b'-' name ≡ false

dots :
    (name : Bytes)
    → (bytes_eq name (codes ".") || bytes_eq name (codes "..")) ≡ false
    → (name ≢ codes ".") × (name ≢ codes "..")
dots name h = (
  λ e. ground (arith, bytes_eq_iff name (codes ".")),
  λ e. ground (arith, bytes_eq_iff name (codes "..")),
)

no_dots :
    (name : Bytes)
    → name ≢ codes "."
    → name ≢ codes ".."
    → (bytes_eq name (codes ".") || bytes_eq name (codes "..")) ≡ false
no_dots name h k = ground (arith, bytes_eq_iff name (codes "."), bytes_eq_iff name (codes ".."))

empty_nil : (name : Bytes) → is_empty name ≡ false → name ≢ []
empty_nil [] h e = cc
empty_nil (b ∷ name) h e = cc

nil_empty : (name : Bytes) → name ≢ [] → is_empty name ≡ false
nil_empty [] h = absurd (h refl)
nil_empty (b ∷ name) h = refl

accepted :
    (name : Bytes)
    → validate_session_name name ≡ ok tt
    → (is_empty name ≡ false)
      × (ltb 128 (length name) ≡ false)
      × (all is_name_byte name ≡ true)
      × ((bytes_eq name (codes ".") || bytes_eq name (codes "..")) ≡ false)
      × (starts_with b'-' name ≡ false)
unfolding validate_session_name
accepted name h = ground arith

-- `validate_session_name` accepts exactly the names of 1 to 128 bytes that are letters, digits, `-`, `_` and
-- `.`, do not start with `-`, and are not `.` or `..`.
pub validate_iff : (name : Bytes) → (validate_session_name name ≡ ok tt) ↔ IsSessionName name
unfolding validate_session_name
validate_iff name = (
  λ h.
      let (a, b, c, d, e) = accepted name h in
      record {
        short = ground arith;
        bytes = (all_name_bytes_iff name).0 c;
        not_nil = empty_nil name a;
        not_dot = (dots name d).0;
        not_dot_dot = (dots name d).1;
        no_dash = e;
      },
  λ h.
      let long : ltb 128 (length name) ≡ false = ground (arith, h.short) in
      rw
        (
          nil_empty name h.not_nil,
          long,
          (all_name_bytes_iff name).1 h.bytes,
          no_dots name h.not_dot h.not_dot_dot,
          h.no_dash,
        )
        refl,
)

append-cancel : (xs ys zs : Bytes) → xs ++ ys ≡ xs ++ zs → ys ≡ zs
append-cancel xs ys zs e = sym (drop-append xs ys) ∙ ap (drop (length xs)) e ∙ drop-append xs zs

starts_slash : (name : Bytes) → All IsNameByte name → starts_with b'/' name ≡ false
unfolding starts_with
starts_slash [] h = refl
starts_slash (b ∷ name) h = ground (arith, h.0)

ends-append :
    (b : ℕ) (xs : Bytes) (c : ℕ) (ys : Bytes) → ends_with b (xs ++ (c ∷ ys)) ≡ ends_with b (c ∷ ys)
unfolding ends_with
ends-append b [] c ys = refl
ends-append b (x ∷ []) c ys = refl
ends-append b (x ∷ y ∷ xs) c ys = ends-append b (y ∷ xs) c ys

append-ne-nil : (xs : Bytes) (c : ℕ) (ys : Bytes) → is_empty (xs ++ (c ∷ ys)) ≡ false
append-ne-nil [] c ys = refl
append-ne-nil (x ∷ xs) c ys = refl

-- The root of the sessions: some prefix, then "sessions".
sessions_prefix :
    (root : Bytes) → (p : Bytes) × (path_join root (codes "sessions") ≡ p ++ codes "sessions")
unfolding path_join
sessions_prefix root = elim (Bool-cases (is_empty root || ends_with b'/' root)) [
  | inl e ↦ (root, rw e refl)
  | inr e ↦ (root ++ b'/' ∷ [], rw e (sym (append_assoc root (b'/' ∷ []) (codes "sessions"))))
]

join-name :
    (root name : Bytes)
    → IsSessionName name
    → path_join (path_join root (codes "sessions")) name
      ≡ path_join root (codes "sessions") ++ (b'/' ∷ name)
join-name root name h =
    let (p, e) = sessions_prefix root in
    rw e (
      unfold path_join ends_with in
      rw
        (
          starts_slash name h.bytes,
          append-ne-nil p b's' (codes "essions"),
          ends-append b'/' p b's' (codes "essions"),
        )
        refl)

no_slash : (name : Bytes) → All IsNameByte name → All (λ b. b ≢ b'/') name
no_slash [] h = tt
no_slash (b ∷ name) h = (λ e. ground (arith, h.0), no_slash name h.1)

ok-injective : (a b : Bytes) → ok a ≡ ok b → a ≡ b
ok-injective a b e = cc

cons-injective : (b : ℕ) (xs ys : Bytes) → b ∷ xs ≡ b ∷ ys → xs ≡ ys
cons-injective b xs ys e = cc

-- The directory of a session is a direct child of the sessions' root: for a name that is accepted it is
-- that root, a slash and the name, which has no slash in it and is not empty, `.` or `..`. Any other name
-- has no directory.
pub session_dir-child :
    (root name dir : Bytes)
    → session_dir (ok root) name ≡ ok dir
    → (dir ≡ path_join root (codes "sessions") ++ (b'/' ∷ name))
      × IsSessionName name
      × All (λ b. b ≢ b'/') name
unfolding session_dir
session_dir-child root name dir e =
    let (_, v, rest) = >>=-eq-ok (validate_session_name name) _ e in
    let h = (validate_iff name).0 v in
    (sym (ok-injective _ _ rest) ∙ join-name root name h, h, no_slash name h.bytes)

-- Two names with one session directory are equal.
pub session_dir-injective :
    (root name name' dir : Bytes)
    → session_dir (ok root) name ≡ ok dir
    → session_dir (ok root) name' ≡ ok dir
    → name ≡ name'
session_dir-injective root name name' dir e e' =
    let (d, _, _) = session_dir-child root name dir e in
    let (d', _, _) = session_dir-child root name' dir e' in
    cons-injective b'/' _ _ (append-cancel (path_join root (codes "sessions")) _ _ (sym d ∙ d'))
