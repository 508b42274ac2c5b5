-- ===== src/Session/Metadata/Saving.antt =====
-- Saved metadata are loaded again; a save that fails leaves what was there.
use ignibyte_bridge.Prelude.{
  Result-cases, ◌≡◌, refl, ap, ◌∙◌, inl, inr, Bytes, Result, ok, err, Error, context,
}
use ignibyte_bridge.Session.World.{SessionMetadata, Json, RoundTrips, contents, SessionDir, World}
use ignibyte_bridge.Session.Metadata.{
  dir_of, parse_stored, current, encoded, stamped, save_metadata,
}
use ignibyte_bridge.Session.Metadata.Writing.{
  Frame, Frame-refl, WriteOutcome, done, failed, write-WriteOutcome,
}

module _ (json : Json) where
  pub current-same :
      (w w' : World) (name : Bytes)
      → w'.root ≡ w.root
      → w'.sessions name ≡ w.sessions name
      → current json w' name ≡ current json w name
  unfolding current
  current-same w w' name r s = rw (r, s) refl

  -- A session whose metadata are loaded has a directory.
  pub current-dir :
      (w : World) (name : Bytes) (m : SessionMetadata)
      → current json w name ≡ ok m
      → (dir : Bytes) × (dir_of name w ≡ ok dir)
  unfolding current
  current-dir w name m e = elim (Result-cases (dir_of name w)) [
    | inl found ↦ found
    | inr (x, f) ↦ let p : err x ≡ ok m = rw f at e in cc
  ]

  pub data SaveOutcome (w : World) (name : Bytes) (before after : Result SessionMetadata)
      (p : Result (Unit {0}) × World) : Type 0 where
    saved :
        p.0 ≡ ok tt
        → current json p.1 name ≡ after
        → Frame name w p.1
        → SaveOutcome w name before after p
    unsaved :
        (e : Error)
        → p.0 ≡ err e
        → current json p.1 name ≡ before
        → Frame name w p.1
        → SaveOutcome w name before after p

  loaded :
      (w : World) (name s : Bytes) (dir : Bytes) (m : SessionMetadata)
      → dir_of name w ≡ ok dir
      → (w.sessions name).metadata ≡ contents s
      → json.from_json s ≡ ok m
      → current json w name ≡ ok m
  unfolding current parse_stored
  loaded w name s dir m d c j = rw (d, c, j) refl

  written_outcome :
      (w : World) (name s dir : Bytes) (m m' : SessionMetadata) (p : Result (Unit {0}) × World)
      → current json w name ≡ ok m
      → dir_of name w ≡ ok dir
      → json.from_json s ≡ ok m'
      → WriteOutcome name (record (w.sessions name) { metadata = contents s }) w p
      → SaveOutcome w name (ok m) (ok m') p
  written_outcome w name s dir m m' p e d j (done r c f) =
      saved r (loaded p.1 name s dir m' (rw f.same_root d) (rw c refl) j) f
  written_outcome w name s dir m m' p e d j (failed x r c f) =
      unsaved x r (current-same w p.1 name f.same_root (ap (λ g. g name) c) ∙ e) f

  context-ok :
      (message : Bytes) (r : Result Bytes) (s : Bytes) → context message r ≡ ok s → r ≡ ok s
  context-ok message (ok t) s e = e
  context-ok message (err x) s e = cc

  encoded-ok :
      (w : World) (m : SessionMetadata) (s dir : Bytes)
      → dir_of m.name w ≡ ok dir
      → encoded json w m ≡ ok s
      → json.to_json (stamped w m) ≡ ok s
  unfolding encoded
  encoded-ok w m s dir d e = context-ok _ (json.to_json (stamped w m)) s (rw d at e)

  outcome-Frame :
      (name : Bytes) (d : SessionDir) (w : World) (p : Result (Unit {0}) × World)
      → WriteOutcome name d w p
      → Frame name w p.1
  outcome-Frame name d w p (done r c f) = f
  outcome-Frame name d w p (failed x r c f) = f

  pub save-Frame : (w : World) (m' : SessionMetadata) → Frame m'.name w (save_metadata json m' w).1
  unfolding save_metadata
  save-Frame w m' = elim (Result-cases (encoded json w m')) [
    | inl (s, c) ↦ rw c (outcome-Frame m'.name _ w _ (write-WriteOutcome m'.name _ w))
    | inr (x, c) ↦ rw c (Frame-refl m'.name w)
  ]

  -- Saving the metadata `m'` of a session that has some: they are there afterwards, with the time of the
  -- save, or the save fails and the old ones are.
  pub save-SaveOutcome :
      RoundTrips json
      → (w : World) (m m' : SessionMetadata) → current json w m'.name ≡ ok m
      → SaveOutcome w m'.name (ok m) (ok (stamped w m')) (save_metadata json m' w)
  unfolding save_metadata
  save-SaveOutcome rt w m m' e = elim (Result-cases (encoded json w m')) [
    | inl (s, c) ↦
        let (dir, d) = current-dir w m'.name m e in
        rw c (
          written_outcome w m'.name s dir m (stamped w m') _ e d
            (rt (stamped w m') s (encoded-ok w m' s dir d c)) (write-WriteOutcome m'.name _ w))
    | inr (x, c) ↦ rw c (unsaved x refl e (Frame-refl m'.name w))
  ]
