-- ===== src/Tests/Endings.antt =====
-- The end of runs, at concrete sessions.
use ignibyte_bridge.Prelude.{
  ◌≡◌, refl, sym, ◌∙◌, ap, inl, inr, Bool-cases, true, none, some, List, [], ◌∷◌, ◌++◌, Bytes,
  bytes_eq, bytes_eq_iff, codes, Result, ok, Result-cases,
}
use ignibyte_bridge.Paths.{
  validate_session_name, session_dir, sessions_root, path_join, is_name_byte, starts_with,
  ends_with,
}
use ignibyte_bridge.Session.World.{SessionMetadata, as_i32, write_dir}
use ignibyte_bridge.Procinfo.{process_start_time, read_to_string}
use ignibyte_bridge.Session.Process.{pid_is_ours, process_alive}
use ignibyte_bridge.Session.Metadata.{current, dir_of, parse_stored, encoded, save_metadata}
use ignibyte_bridge.Session.Metadata.Marking.{marked, mark_stopped-save}
use ignibyte_bridge.Session.Stop.Safety.{stop_foreign}
use ignibyte_bridge.Session.Lifecycle.Ordering.{Later-refl}
use ignibyte_bridge.Session.Stop.{stop_session_silent}
use ignibyte_bridge.Session.Progress.{past, Advances}
use ignibyte_bridge.Session.Progress.Ends.{Over, stop-Over}
use ignibyte_bridge.Session.Reports.{DirEntry, collect, insert_by, sort_by}
use ignibyte_bridge.Daemon.Shutdown.{
  live_names, stop_each, shutdown_entries, shutdown_sessions_for_daemon,
}
use ignibyte_bridge.Dispatch.{stopped_session}
use ignibyte_bridge.Tests.Codec.{codec, codec-RoundTrips}
use ignibyte_bridge.Tests.Runs.{run, world, quiet, loads}

pub quiet-Advances : (name : Bytes) → Advances codec name quiet
quiet-Advances name n w m c k = past m c k (Later-refl m)

valid : validate_session_name (codes "web") ≡ ok tt
unfolding validate_session_name is_name_byte starts_with bytes_eq
valid = refl

-- Neither of its processes is there.
pub web_marked :
    stop_session_silent codec quiet (codes "web") (world run)
    ≡ save_metadata codec
        (marked codec (world run) run (some (codes "stopped by user")) none)
        (world run)
unfolding pid_is_ours process_alive as_i32 bytes_eq process_start_time read_to_string
web_marked =
    stop_foreign codec quiet (world run) (codes "web") run valid (loads run) (λ e. cc) refl refl
    ∙ mark_stopped-save codec (world run) (codes "web") run (some (codes "stopped by user")) none
        (some 3) (loads run) refl (λ e. cc)

-- The write of the mark does not fail.
pub web_stops : (stop_session_silent codec quiet (codes "web") (world run)).0 ≡ ok tt
unfolding save_metadata encoded session_dir validate_session_name path_join is_name_byte starts_with
    ends_with bytes_eq write_dir
web_stops = rw web_marked refl

stop-Over_example :
    Over codec (codes "web") run (stop_session_silent codec quiet (codes "web") (world run)).1
stop-Over_example =
    stop-Over codec (codes "web") codec-RoundTrips run quiet (world run)
      (quiet-Advances (codes "web")) (loads run) refl web_stops

pub web_only : (n : Bytes) (m : SessionMetadata) → current codec (world run) n ≡ ok m → m.name ≡ n
unfolding current parse_stored
web_only n m c = elim (Bool-cases (bytes_eq n (codes "web"))) [
  | inl e ↦
      let q = (bytes_eq_iff n (codes "web")).0 e in
      let c' : current codec (world run) (codes "web") ≡ ok m = rw q at c in
      let o : ok run ≡ ok m = sym (loads run) ∙ c' in
      let d : run ≡ m = cc in sym (ap (λ x. x.name) d) ∙ sym q
  | inr e ↦ absurd (elim (Result-cases (dir_of n (world run))) [
    | inl (dir, d) ↦ let r = rw (d, e) at c in cc
    | inr (x, d) ↦ let r = rw d at c in cc
  ])
]

pub entries : List (Result DirEntry)
entries = ok (record { file_name = codes "web"; is_dir = ok true }) ∷ []

pub collected : collect (current codec (world run)) entries ≡ ok (run ∷ [])
unfolding collect entries
collected = rw (loads run) refl

pub shuts_down :
    (shutdown_sessions_for_daemon codec quiet (some (ok entries)) (world run)).0
    ≡ ok (stopped_session (codes "web") ++ [])
unfolding shutdown_sessions_for_daemon shutdown_entries sessions_root path_join ends_with stop_each
    live_names sort_by insert_by
shuts_down = rw (collected, web_stops) refl
