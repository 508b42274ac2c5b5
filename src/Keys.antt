-- ===== src/Keys.antt =====
-- src/keys.rs: the bytes that a named key sends.
pub mod Names
use ignibyte_bridge.Prelude.{
  ◌>>=◌, ℕ, ◌+◌, Bool, false, ◌||◌, List, [], ◌∷◌, ◌++◌, map, Bytes, within, if◌then◌else◌,
  bytes_eq, codes, Result, ok, bail,
}

-- `u8::to_ascii_lowercase`
unfoldable pub to_lower : ℕ → ℕ
to_lower b = if within b'A' b'Z' b then b + 32 else b

-- `str::to_ascii_lowercase`
unfoldable pub to_ascii_lowercase : Bytes → Bytes
to_ascii_lowercase s = map to_lower s

-- A match arm with several texts.
unfoldable pub is_one_of : Bytes → List Bytes → Bool
is_one_of k [] = false
is_one_of k (name ∷ names) = bytes_eq k name || is_one_of k names

pub unsupported_key : Bytes → Bytes
unsupported_key key = codes "unsupported key '" ++ (key ++ codes "'")

-- The match, on the key in lower case; `none` is its last arm.
unfoldable pub key_match : Bytes → Result Bytes → Result Bytes
unfolding is_one_of
key_match k unsupported =
    if is_one_of k (codes "enter" ∷ codes "return" ∷ [])
    then ok (b'\r' ∷ [])
    else if is_one_of k (codes "escape" ∷ codes "esc" ∷ [])
    then ok (0x1b ∷ [])
    else if is_one_of k (codes "ctrl-c" ∷ codes "control-c" ∷ codes "c-c" ∷ [])
    then ok (0x03 ∷ [])
    else if is_one_of k (codes "ctrl-d" ∷ codes "control-d" ∷ codes "c-d" ∷ [])
    then ok (0x04 ∷ [])
    else if is_one_of k (codes "ctrl-z" ∷ codes "control-z" ∷ codes "c-z" ∷ [])
    then ok (0x1a ∷ [])
    else if is_one_of k (codes "tab" ∷ [])
    then ok (b'\t' ∷ [])
    else if is_one_of k (codes "backspace" ∷ codes "bs" ∷ [])
    then ok (0x7f ∷ [])
    else if is_one_of k (codes "delete" ∷ codes "del" ∷ [])
    then ok (0x1b ∷ codes "[3~")
    else if is_one_of k (codes "up" ∷ codes "arrow-up" ∷ [])
    then ok (0x1b ∷ codes "[A")
    else if is_one_of k (codes "down" ∷ codes "arrow-down" ∷ [])
    then ok (0x1b ∷ codes "[B")
    else if is_one_of k (codes "right" ∷ codes "arrow-right" ∷ [])
    then ok (0x1b ∷ codes "[C")
    else if is_one_of k (codes "left" ∷ codes "arrow-left" ∷ [])
    then ok (0x1b ∷ codes "[D")
    else if is_one_of k (codes "home" ∷ [])
    then ok (0x1b ∷ codes "[H")
    else if is_one_of k (codes "end" ∷ [])
    then ok (0x1b ∷ codes "[F")
    else unsupported

unfoldable pub encode_key : Bytes → Result Bytes
unfolding key_match to_ascii_lowercase to_lower bytes_eq
encode_key key = key_match (to_ascii_lowercase key) (bail (unsupported_key key))

-- The loop of `send_keys_silent`: the bytes of all keys, or the error of the first that is not supported.
unfoldable pub encode_keys : List Bytes → Result Bytes
encode_keys [] = ok []
encode_keys (key ∷ keys) = do b ← encode_key key; bs ← encode_keys keys; ok (b ++ bs)
