-- ===== src/Session/Start/Files.antt =====
-- What `initialize_session_files` does to the files of a session.
use ignibyte_bridge.Prelude.{
  Result-cases, ℕ, ◌+◌, ◌%◌, ◌^◌, ◌≡◌, ◌⊎◌, refl, sym, ap, ◌∙◌, Bool, true, Bool-cases, inl, inr,
  Option, some, List, [], Bytes, codes, Result, ok, err, Error,
}
use ignibyte_bridge.Paths.{parse_command}
use ignibyte_bridge.Session.World.{
  SessionMetadata, Json, RoundTrips, SessionDir, World, M, and_then, context_of, write_dir, ◌>>◌,
}
use ignibyte_bridge.Session.Metadata.{dir_of, current, stamped, load_metadata, save_metadata}
use ignibyte_bridge.Session.Metadata.Writing.{WriteOutcome, done, failed, write-WriteOutcome}
use ignibyte_bridge.Session.Metadata.Saving.{
  current-dir, SaveOutcome, saved, unsaved, save-SaveOutcome,
}
use ignibyte_bridge.Session.Start.{
  write_when, without_fifo, with_fifo, rotated_raw, rotated_clean, is_worth_keeping, create_files,
  remove_fifo, make_fifo, rotate_raw_log, rotate_clean_log, create_raw_log, create_clean_log,
  create_screen, has_fifo, new_run, initialize_session_files,
}

-- The metadata file, the root and the clock stay.
pub record Quiet (name : Bytes) (w w' : World) : Type 0 where
  pub same_root : w'.root ≡ w.root
  pub same_now : w'.now ≡ w.now
  pub same_metadata : (w'.sessions name).metadata ≡ (w.sessions name).metadata

pub Quiet-refl : (name : Bytes) (w : World) → Quiet name w w
Quiet-refl name w = record { same_root = refl; same_now = refl; same_metadata = refl }

Quiet-trans : {name : Bytes} {u v w : World} → Quiet name u v → Quiet name v w → Quiet name u w
Quiet-trans p q = record {
  same_root = q.same_root ∙ p.same_root;
  same_now = q.same_now ∙ p.same_now;
  same_metadata = q.same_metadata ∙ p.same_metadata;
}

-- An action that is quiet from every world.
record IsQuiet (name : Bytes) (m : M (Unit {0})) : Type 0 where
  pub at_world : (w : World) → Quiet name w (m w).1

then-Quiet :
    (name : Bytes) (k : M (Unit {0})) (w : World) (p : Result (Unit {0}) × World)
    → Quiet name w p.1
    → IsQuiet name k
    → Quiet name w (and_then p (λ _. k)).1
then-Quiet name k w (ok _, v) q h = Quiet-trans q (h.at_world v)
then-Quiet name k w (err _, v) q h = q

seq-Quiet :
    {name : Bytes} {m k : M (Unit {0})} → IsQuiet name m → IsQuiet name k → IsQuiet name (m >> k)
seq-Quiet {name} {m} {k} h h' = record {
  at_world = λ w. then-Quiet name k w (m w) (h.at_world w) h';
}

context-Quiet :
    (name message : Bytes) (w : World) (p : Result (Unit {0}) × World)
    → Quiet name w p.1
    → Quiet name w (context_of message p).1
context-Quiet name message w (ok _, v) q = q
context-Quiet name message w (err _, v) q = q

outcome-Quiet :
    (name : Bytes) (d : SessionDir) (w : World) (p : Result (Unit {0}) × World)
    → d.metadata ≡ (w.sessions name).metadata
    → WriteOutcome name d w p
    → Quiet name w p.1
outcome-Quiet name d w p e (done r c f) = record {
  same_root = f.same_root;
  same_now = f.same_now;
  same_metadata = ap (λ x. x.metadata) c ∙ e;
}
outcome-Quiet name d w p e (failed x r c f) = record {
  same_root = f.same_root;
  same_now = f.same_now;
  same_metadata = ap (λ g. (g name).metadata) c;
}

when-Quiet :
    (message name : Bytes) (test : SessionDir → Bool) (change : SessionDir → SessionDir)
    → ((d : SessionDir) → (change d).metadata ≡ d.metadata)
    → IsQuiet name (write_when message name test change)
unfolding write_when
when-Quiet message name test change h = record {
  at_world = λ w. elim (Bool-cases (test (w.sessions name))) [
    | inl e ↦ rw e (
        context-Quiet name message w (write_dir name change w) (
          outcome-Quiet name (change (w.sessions name)) w (write_dir name change w)
            (h (w.sessions name)) (write-WriteOutcome name change w)))
    | inr e ↦ rw e (Quiet-refl name w)
  ];
}

create_files-Quiet : (name : Bytes) → IsQuiet name (create_files name)
unfolding create_files remove_fifo make_fifo rotate_raw_log rotate_clean_log create_raw_log
    create_clean_log create_screen
create_files-Quiet name =
    seq-Quiet
      (when-Quiet (codes "failed to remove input.fifo") name (λ d. has_fifo d.fifo) without_fifo
        (λ d. refl))
      (seq-Quiet
        (when-Quiet (codes "failed to create input.fifo") name (λ d. true) with_fifo (λ d. refl))
        (seq-Quiet
          (when-Quiet (codes "failed to rotate raw.log") name (λ d. is_worth_keeping d.raw_log)
            rotated_raw (λ d. refl))
          (seq-Quiet
            (when-Quiet (codes "failed to rotate clean.log") name
              (λ d. is_worth_keeping d.clean_log) rotated_clean (λ d. refl))
            (seq-Quiet
              (when-Quiet (codes "failed to create raw log") name (λ d. true)
                (λ d. record d { raw_log = some [] }) (λ d. refl))
              (seq-Quiet
                (when-Quiet (codes "failed to create clean log") name (λ d. true)
                  (λ d. record d { clean_log = some [] }) (λ d. refl))
                (when-Quiet (codes "failed to create screen snapshot") name (λ d. true)
                  (λ d. record d { screen = some [] }) (λ d. refl)))))))

module _ (json : Json) where
  -- A command that does not parse fails the start before anything is touched: the world, with the previous
  -- run's logs and metadata, stays as it was.
  pub initialize_unparsed :
      (split : Bytes → Result (List Bytes)) (name cwd cmd : Bytes) (rows cols : Option ℕ)
      (w : World) (e : Error)
      → parse_command split cmd ≡ err e
      → (initialize_session_files json split name cwd cmd rows cols w).1 ≡ w
  unfolding initialize_session_files
  initialize_unparsed split name cwd cmd rows cols w e h = elim (Result-cases (dir_of name w)) [
    | inl (dir, d) ↦ rw (d, h) refl
    | inr (x, d) ↦ rw d refl
  ]

  current-Quiet :
      (w v : World) (name : Bytes) → Quiet name w v → current json v name ≡ current json w name
  unfolding current
  current-Quiet w v name q = rw (q.same_root, q.same_metadata) refl

  -- A start of the files that has failed with the old metadata in place, or has given the generation with the new ones.
  pub data FilesOutcome (name : Bytes) (m m' : SessionMetadata) (p : Result ℕ × World)
      : Type 0 where
    not_begun : (e : Error) → p.0 ≡ err e → current json p.1 name ≡ ok m → FilesOutcome name m m' p
    begun : p.0 ≡ ok m'.generation → current json p.1 name ≡ ok m' → FilesOutcome name m m' p

  behind_save :
      (name : Bytes) (w : World) (m m' : SessionMetadata) (p : Result (Unit {0}) × World)
      → SaveOutcome json w name (ok m) (ok m') p
      → FilesOutcome name m m' (and_then p (λ _ v. (ok m'.generation, v)))
  behind_save name w m m' (ok _, v) (saved r c f) = begun refl c
  behind_save name w m m' (err e, v) (saved r c f) = absurd cc
  behind_save name w m m' (ok _, v) (unsaved x r c f) = absurd cc
  behind_save name w m m' (err e, v) (unsaved x r c f) = not_begun e refl c

  pub and_return : (g : ℕ) (p : Result (Unit {0}) × World) → (and_then p (λ _ v. (ok g, v))).1 ≡ p.1
  and_return g (ok _, v) = refl
  and_return g (err _, v) = refl

  stamped_already :
      (v : World) (m' : SessionMetadata) → m'.updated_at_unix ≡ v.now → stamped v m' ≡ m'
  stamped_already v m' e = ap (λ t. record m' { updated_at_unix = t }) (sym e)

  behind_files :
      RoundTrips json
      → (w : World) (m m' : SessionMetadata) (p : Result (Unit {0}) × World)
      → current json w m'.name ≡ ok m
      → m'.updated_at_unix ≡ w.now
      → Quiet m'.name w p.1
      → FilesOutcome m'.name m m'
          (and_then p (λ _ u. and_then (save_metadata json m' u) (λ _ v. (ok m'.generation, v))))
  behind_files rt w m m' (err e, v) c t q = not_begun e refl (current-Quiet w v m'.name q ∙ c)
  behind_files rt w m m' (ok _, v) c t q = behind_save m'.name v m m' (save_metadata json m' v) (
      rw (ap ok (stamped_already v m' (t ∙ sym q.same_now))) at
        (save-SaveOutcome json rt v m m' (current-Quiet w v m'.name q ∙ c)))

  pub initialize-FilesOutcome :
      RoundTrips json
      → (split : Bytes → Result (List Bytes)) (name cwd cmd : Bytes) (rows cols : Option ℕ)
        (w : World) (m : SessionMetadata) (command : List Bytes)
      → parse_command split cmd ≡ ok command
      → current json w name ≡ ok m
      → FilesOutcome name m
          (new_run name cwd command ((m.generation + 1) % 2 ^ 64) rows cols w.now)
          (initialize_session_files json split name cwd cmd rows cols w)
  unfolding initialize_session_files load_metadata
  initialize-FilesOutcome rt split name cwd cmd rows cols w m command h c =
      let (dir, d) = current-dir json w name m c in
      rw (d, h, c)
        (behind_files rt w m
          (new_run name cwd command ((m.generation + 1) % 2 ^ 64) rows cols w.now)
          (create_files name w) c refl ((create_files-Quiet name).at_world w))

  -- Whatever writes fail, the metadata are afterwards the old ones or those of `new_run`.
  pub initialize-new_run :
      RoundTrips json
      → (split : Bytes → Result (List Bytes)) (name cwd cmd : Bytes) (rows cols : Option ℕ)
        (w : World) (m : SessionMetadata) (command : List Bytes)
      → parse_command split cmd ≡ ok command
      → current json w name ≡ ok m
      → let v = (initialize_session_files json split name cwd cmd rows cols w).1 in
        (current json v name ≡ ok m)
        ⊎ (current json v name
            ≡ ok (new_run name cwd command ((m.generation + 1) % 2 ^ 64) rows cols w.now))
  initialize-new_run rt split name cwd cmd rows cols w m command h c =
      elim (initialize-FilesOutcome rt split name cwd cmd rows cols w m command h c) [
        | not_begun e r k ↦ inl k
        | begun r k ↦ inr k
      ]
