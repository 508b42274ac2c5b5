-- ===== src/Keys/Names.antt =====
-- Which names stand for a key, and what a key can send.
use ignibyte_bridge.Prelude.{◌≡◌, ◌⊎◌, [], ◌∷◌, arith, Bytes, ok, err, Error}
use ignibyte_bridge.Keys.{to_ascii_lowercase, key_match, encode_key}

-- One control byte, or an escape sequence `ESC [ …`.
abbrev pub IsKeySequence : Bytes → Type 0
IsKeySequence [] = ⊥
IsKeySequence (b ∷ []) =
    (b ≡ b'\r') ⊎ (b ≡ b'\t') ⊎ (b ≡ 0x1b) ⊎ (b ≡ 0x03) ⊎ (b ≡ 0x04) ⊎ (b ≡ 0x1a) ⊎ (b ≡ 0x7f)
IsKeySequence (b ∷ c ∷ rest) = (b ≡ 0x1b) × (c ≡ b'[')

key_match-IsKeySequence :
    (k : Bytes) (e : Error) (b : Bytes) → key_match k (err e) ≡ ok b → IsKeySequence b
unfolding key_match
key_match-IsKeySequence k e [] h = ground arith
key_match-IsKeySequence k e (x ∷ []) h = ground arith
key_match-IsKeySequence k e (x ∷ y ∷ rest) h = ground arith

key_match_other :
    (k : Bytes) (e e' : Error) (b : Bytes)
    → key_match k (err e) ≡ ok b
    → key_match k (err e') ≡ ok b
unfolding key_match
key_match_other k e e' b h = ground arith

-- A key that is accepted sends one control byte or an escape sequence `ESC [ …`, and so does, with the same
-- bytes, every spelling of it that differs in the case of ASCII letters only.
pub encode_key-case :
    (key key' b : Bytes)
    → to_ascii_lowercase key ≡ to_ascii_lowercase key'
    → encode_key key ≡ ok b
    → (encode_key key' ≡ ok b) × IsKeySequence b
unfolding encode_key
encode_key-case key key' b e h = (
  key_match_other (to_ascii_lowercase key') _ _ b (rw e at h),
  key_match-IsKeySequence (to_ascii_lowercase key) _ b h,
)
