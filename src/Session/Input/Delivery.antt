-- ===== src/Session/Input/Delivery.antt =====
-- What sending keys delivers.
use ignibyte_bridge.Prelude.{
  Result-cases, ℕ, ◌≡◌, refl, inl, inr, Bool-cases, Option-cases, true, false, none, some, List, [],
  ◌∷◌, ◌++◌, Bytes, bytes_eq_refl, is_empty, >>=-eq-ok, Error, Result, ok, err,
}
use ignibyte_bridge.Keys.{encode_key, encode_keys}
use ignibyte_bridge.Session.World.{
  SessionMetadata, SessionStatus, starting, running, stopped, Json, World, set_dir,
}
use ignibyte_bridge.Session.Input.{
  Channel, blocking, clear_nonblocking, write_fifo, open_fifo, write_session_bytes,
  send_keys_silent,
}
use ignibyte_bridge.Session.Metadata.{dir_of, current, load_metadata}
use ignibyte_bridge.Session.Process.{is_running}
use ignibyte_bridge.Session.Metadata.Saving.{current-dir}
use ignibyte_bridge.Paths.{validate_session_name, session_dir}

encode_keys-unsupported :
    (before after : List Bytes) (key : Bytes) (e : Error)
    → encode_key key ≡ err e
    → (x : Error) × (encode_keys (before ++ key ∷ after) ≡ err x)
unfolding encode_keys
encode_keys-unsupported [] after key e h = (e, rw h refl)
encode_keys-unsupported (k ∷ before) after key e h =
    let (x, i) = encode_keys-unsupported before after key e h in
    elim (Result-cases (encode_key k)) [
      | inl (b, f) ↦ (x, rw (f, i) refl)
      | inr (y, f) ↦ (y, rw f refl)
    ]

append_is_not_empty :
    (before after : List Bytes) (key : Bytes) → is_empty (before ++ key ∷ after) ≡ false
append_is_not_empty [] after key = refl
append_is_not_empty (k ∷ before) after key = refl

validated :
    (root : Result Bytes) (name dir : Bytes)
    → session_dir root name ≡ ok dir
    → validate_session_name name ≡ ok tt
unfolding session_dir
validated root name dir e = let (_, v, _) = >>=-eq-ok (validate_session_name name) _ e in v

-- The bytes of the keys, one after the other.
pub data Encoded : List Bytes → Bytes → Type 0 where
  no_keys : Encoded [] []
  first_key :
      (key : Bytes) (keys : List Bytes) (bs bytes : Bytes)
      → encode_key key ≡ ok bs
      → Encoded keys bytes
      → Encoded (key ∷ keys) (bs ++ bytes)

encode-Encoded :
    (keys : List Bytes) (bytes : Bytes) → encode_keys keys ≡ ok bytes → Encoded keys bytes
unfolding encode_keys
encode-Encoded [] bytes h = let q : [] ≡ bytes = cc in rw q at no_keys
encode-Encoded (key ∷ keys) bytes h =
    let (b, e, h') = >>=-eq-ok (encode_key key) _ h in
    let (bs, f, h'') = >>=-eq-ok (encode_keys keys) _ h' in
    let q : b ++ bs ≡ bytes = cc in rw q at (first_key key keys b bs e (encode-Encoded keys bs f))

status-running : (s : SessionStatus) → is_running s ≡ true → s ≡ running
status-running starting h = absurd cc
status-running running h = refl
status-running stopped h = absurd cc

module _ (json : Json) (channel : Channel) where
  -- The session was running, with a reader at its FIFO, and the bytes are behind what the FIFO held.
  pub record Delivered (name bytes : Bytes) (w v : World) : Type 0 where
    pub metadata : SessionMetadata
    pub queued : Bytes
    pub has_metadata : current json w name ≡ ok metadata
    pub is_running : metadata.status ≡ running
    pub has_reader : (w.sessions name).fifo_reader ≡ true
    pub held : (w.sessions name).fifo ≡ some queued
    pub holds : (v.sessions name).fifo ≡ some (queued ++ bytes)

  -- Keys are sent all or none: if one of them, anywhere in the list, is not supported, the sending fails and
  -- changes nothing, so no byte of the others reaches the session.
  pub send_keys-unsupported :
      (name key : Bytes) (before after : List Bytes) (e : Error) (w : World)
      → encode_key key ≡ err e
      → (x : Error) × (send_keys_silent json channel name (before ++ key ∷ after) w ≡ (err x, w))
  unfolding send_keys_silent
  send_keys-unsupported name key before after e w h =
      let (x, i) = encode_keys-unsupported before after key e h in
      (x, rw (append_is_not_empty before after key, i) refl)

  -- Keys are sent if the session is running, its FIFO has a reader, and no call fails.
  pub send_keys-delivers :
      (name key : Bytes) (keys : List Bytes) (m : SessionMetadata) (queued bytes : Bytes)
      (flags : ℕ) (w : World)
      → current json w name ≡ ok m
      → m.status ≡ running
      → (w.sessions name).fifo ≡ some queued
      → (w.sessions name).fifo_reader ≡ true
      → w.write_fault w.writes ≡ none
      → channel.get_flags ≡ ok flags
      → channel.set_flags (blocking flags) ≡ ok tt
      → encode_keys (key ∷ keys) ≡ ok bytes
      → let p = send_keys_silent json channel name (key ∷ keys) w in
        (p.0 ≡ ok tt) × ((p.1.sessions name).fifo ≡ some (queued ++ bytes))
  unfolding send_keys_silent write_session_bytes clear_nonblocking load_metadata write_fifo
      open_fifo set_dir
  send_keys-delivers name key keys m queued bytes flags w c r f i n g b e =
      let (dir, d) = current-dir json w name m c in
      let v = validated w.root name dir d in
      rw (e, v, c, r, d, f, i, g, b, n, bytes_eq_refl name, f) (refl, refl)

  write-Delivered :
      (name bytes : Bytes) (w : World)
      → (write_session_bytes json channel name bytes w).0 ≡ ok tt
      → Delivered name bytes w (write_session_bytes json channel name bytes w).1
  unfolding write_session_bytes clear_nonblocking load_metadata write_fifo open_fifo set_dir
  write-Delivered name bytes w = elim (Result-cases (validate_session_name name)) [
    | inr (x, v) ↦ rw v (λ h. absurd cc)
    | inl (_, v) ↦ elim (Result-cases (current json w name)) [
      | inr (x, c) ↦ rw (v, c) (λ h. absurd cc)
      | inl (m, c) ↦ elim (Bool-cases (is_running m.status)) [
        | inr r ↦ rw (v, c, r) (λ h. absurd cc)
        | inl r ↦ elim (Result-cases (dir_of name w)) [
          | inr (x, d) ↦ rw (v, c, r, d) (λ h. absurd cc)
          | inl (dir, d) ↦ elim (Option-cases (w.sessions name).fifo) [
            | inl f ↦ rw (v, c, r, d, f) (λ h. absurd cc)
            | inr (queued, f) ↦ elim (Bool-cases (w.sessions name).fifo_reader) [
              | inr i ↦ rw (v, c, r, d, f, i) (λ h. absurd cc)
              | inl i ↦ elim (Result-cases channel.get_flags) [
                | inr (x, g) ↦ rw (v, c, r, d, f, i, g) (λ h. absurd cc)
                | inl (flags, g) ↦ elim (Result-cases (channel.set_flags (blocking flags))) [
                  | inr (x, b) ↦ rw (v, c, r, d, f, i, g, b) (λ h. absurd cc)
                  | inl (_, b) ↦ elim (Option-cases (w.write_fault w.writes)) [
                    | inr (x, n) ↦ rw (v, c, r, d, f, i, g, b, n) (λ h. absurd cc)
                    | inl n ↦
                        rw (v, c, r, d, f, i, g, b, n)
                          (λ h. record {
                            metadata = m;
                            queued = queued;
                            has_metadata = c;
                            is_running = status-running m.status r;
                            has_reader = i;
                            held = f;
                            holds = rw (bytes_eq_refl name, f) refl;
                          })
                  ]
                ]
              ]
            ]
          ]
        ]
      ]
    ]
  ]

  -- A sending of keys that succeeds has delivered them: the session was running, its FIFO had a reader, and the
  -- bytes of the keys, in the order of the keys, are behind what the FIFO held.
  pub send_keys-Delivered :
      (name : Bytes) (keys : List Bytes) (w : World)
      → (send_keys_silent json channel name keys w).0 ≡ ok tt
      → (bytes : Bytes) × Encoded keys bytes
        × Delivered name bytes w (send_keys_silent json channel name keys w).1
  unfolding send_keys_silent
  send_keys-Delivered name [] w = λ h. absurd cc
  send_keys-Delivered name (key ∷ keys) w = elim (Result-cases (encode_keys (key ∷ keys))) [
    | inr (x, e) ↦ rw e (λ h. absurd cc)
    | inl (bytes, e) ↦
        rw e (λ h. (bytes, encode-Encoded (key ∷ keys) bytes e, write-Delivered name bytes w h))
  ]
