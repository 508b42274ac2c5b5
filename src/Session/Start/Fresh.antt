-- ===== src/Session/Start/Fresh.antt =====
-- The metadata that a start of a session begins with.
use ignibyte_bridge.Prelude.{
  ℕ, zero, suc, ◌+◌, ◌%◌, ◌^◌, ◌≡◌, ◌⊎◌, refl, inl, inr, Option, none, some, List, Bytes, Error,
  Result, ok, err, arith,
}
use ignibyte_bridge.Paths.{parse_command}
use ignibyte_bridge.Session.World.{SessionMetadata, starting, Json, RoundTrips, World}
use ignibyte_bridge.Session.Metadata.{current}
use ignibyte_bridge.Session.Start.{positive_or, new_run, initialize_session_files}
use ignibyte_bridge.Session.Start.Files.{not_begun, begun, initialize-FilesOutcome}

-- A size that is given, or the default where none or 0 is.
pub size : ℕ → Option ℕ → ℕ
size default none = default
size default (some zero) = default
size default (some (suc n)) = suc n

-- The metadata of a run that is starting, of which nothing else is known yet.
pub record IsNewRun (name cwd : Bytes) (command : List Bytes) (generation : ℕ)
    (rows cols : Option ℕ) (now : ℕ) (m : SessionMetadata) : Type 0 where
  pub is_named : m.name ≡ name
  pub in_directory : m.cwd ≡ cwd
  pub runs : m.command ≡ command
  pub is_starting : m.status ≡ starting
  pub is_next : m.generation ≡ generation
  pub no_supervisor : m.supervisor_pid ≡ none
  pub no_supervisor_time : m.supervisor_start_time ≡ none
  pub no_child : m.child_pid ≡ none
  pub no_child_time : m.child_start_time ≡ none
  pub has_rows : m.rows ≡ size 40 rows
  pub has_cols : m.cols ≡ size 140 cols
  pub created : m.created_at_unix ≡ now
  pub updated : m.updated_at_unix ≡ now
  pub no_exit_status : m.exit_status ≡ none
  pub no_exit_code : m.exit_code ≡ none

positive-size : (default : ℕ) (given : Option ℕ) → positive_or default given ≡ size default given
unfolding size
positive-size default none = refl
positive-size default (some zero) = refl
positive-size default (some (suc n)) = ground arith

new_run-IsNewRun :
    (name cwd : Bytes) (command : List Bytes) (generation : ℕ) (rows cols : Option ℕ) (now : ℕ)
    → IsNewRun name cwd command generation rows cols now
        (new_run name cwd command generation rows cols now)
new_run-IsNewRun name cwd command generation rows cols now = record {
  is_named = refl;
  in_directory = refl;
  runs = refl;
  is_starting = refl;
  is_next = refl;
  no_supervisor = refl;
  no_supervisor_time = refl;
  no_child = refl;
  no_child_time = refl;
  has_rows = positive-size 40 rows;
  has_cols = positive-size 140 cols;
  created = refl;
  updated = refl;
  no_exit_status = refl;
  no_exit_code = refl;
}

module _ (json : Json) where
  -- A start of the files of a session that has metadata fails and leaves them as they are, whichever write has failed;
  -- or it gives the next generation, and the metadata are those of a new run of it: starting, with this directory and
  -- command, the given size or 40 rows and 140 columns, created and updated now, and with no process, start
  -- time or exit recorded.
  pub initialize-IsNewRun :
      RoundTrips json
      → (split : Bytes → Result (List Bytes)) (name cwd cmd : Bytes) (rows cols : Option ℕ)
        (w : World) (m : SessionMetadata) (command : List Bytes)
      → parse_command split cmd ≡ ok command
      → current json w name ≡ ok m
      → let p = initialize_session_files json split name cwd cmd rows cols w in
        ((e : Error) × (p.0 ≡ err e) × (current json p.1 name ≡ ok m))
        ⊎ ((m' : SessionMetadata) × (p.0 ≡ ok ((m.generation + 1) % 2 ^ 64))
            × (current json p.1 name ≡ ok m')
            × IsNewRun name cwd command ((m.generation + 1) % 2 ^ 64) rows cols w.now m')
  initialize-IsNewRun rt split name cwd cmd rows cols w m command h c =
      elim (initialize-FilesOutcome json rt split name cwd cmd rows cols w m command h c) [
        | not_begun e r k ↦ inl (e, r, k)
        | begun r k ↦ inr (_, r, k, new_run-IsNewRun name cwd command _ rows cols w.now)
      ]
