-- ===== src/Tests/Commands.antt =====
-- Commands, keys and the wait of a start, at concrete inputs.
use ignibyte_bridge.Prelude.{Bytes, ◌≡◌, refl, ◌++◌, true, some, [], ◌∷◌, bytes_eq, codes, ok, bail}
use ignibyte_bridge.Keys.{
  encode_key, key_match, to_ascii_lowercase, to_lower, is_one_of, encode_keys,
}
use ignibyte_bridge.Session.World.{SessionMetadata, running, World, pure, sleep}
use ignibyte_bridge.Session.Metadata.{current, parse_stored, load_metadata}
use ignibyte_bridge.Paths.{
  session_dir, validate_session_name, path_join, is_name_byte, starts_with, ends_with,
}
use ignibyte_bridge.Session.Input.{Channel, send_keys_silent}
use ignibyte_bridge.Session.Input.Delivery.{
  send_keys-delivers, Encoded, Delivered, send_keys-Delivered,
}
use ignibyte_bridge.Dispatch.{Operations}
use ignibyte_bridge.Tests.Codec.{codec, decode-encode}
use ignibyte_bridge.Tests.Runs.{run, world, quiet}
use ignibyte_bridge.Session.Start.{wait_for_running_metadata, poll_running, start_answer}
use ignibyte_bridge.Session.Start.Waiting.{IsStarted, wait-IsStarted}

abbrev live : SessionMetadata
live = record run { status = running }

abbrev with_reader : World
with_reader = record (world live) {
  sessions =
      λ name. record ((world live).sessions name) { fifo = some (codes "ls"); fifo_reader = true };
}

loads_live : current codec with_reader (codes "web") ≡ ok live
unfolding current parse_stored session_dir validate_session_name path_join is_name_byte starts_with
    ends_with bytes_eq
loads_live = rw (decode-encode live) refl

two_keys : encode_keys (codes "up" ∷ codes "enter" ∷ []) ≡ ok (0x1b ∷ (codes "[A" ++ b'\r' ∷ []))
unfolding encode_keys encode_key key_match to_ascii_lowercase to_lower is_one_of bytes_eq
two_keys = refl

-- O_WRONLY, not blocking yet.
abbrev pub channel : Channel
channel = record { accepted = 0; get_flags = ok 2049; set_flags = λ flags. ok tt }

keys_sent :
    (send_keys_silent codec channel (codes "web") (codes "up" ∷ codes "enter" ∷ []) with_reader).0
    ≡ ok tt
unfolding bytes_eq
keys_sent =
    (send_keys-delivers codec channel (codes "web") (codes "up") (codes "enter" ∷ []) live
      (codes "ls") (0x1b ∷ (codes "[A" ++ b'\r' ∷ [])) 2049 with_reader loads_live refl refl refl
      refl refl refl two_keys).0

send_keys-Delivered_example :
    let p =
      send_keys_silent codec channel (codes "web") (codes "up" ∷ codes "enter" ∷ []) with_reader in
    (bytes : Bytes) × Encoded (codes "up" ∷ codes "enter" ∷ []) bytes
    × Delivered codec channel (codes "web") bytes with_reader p.1
send_keys-Delivered_example =
    send_keys-Delivered codec channel (codes "web") (codes "up" ∷ codes "enter" ∷ []) with_reader
      keys_sent

-- Operations that answer, where `status` fails for a session of another name.
abbrev pub ops : Operations World
ops = record {
  resolve_cwd = λ cwd. pure (codes "/tmp");
  start_session_detached = λ name cwd cmd rows cols. pure run;
  start_session_in_daemon = λ name cwd cmd path rows cols. pure run;
  send_input_silent = λ name text no_enter. pure tt;
  send_keys_silent = λ name keys. pure tt;
  read_output_text = λ name tail raw. pure (codes "out");
  read_screen_text = λ name tail. pure (codes "screen");
  status_text = λ name w. (bail (codes "no such session"), w);
  list_sessions_text = pure (codes "no sessions");
  stop_session_silent = λ name. pure tt;
  run_daemon = pure [];
  run_doctor = λ cmd cwd. pure [];
  run_supervisor = λ name cwd cmd. pure [];
}

loads_asleep : current codec (sleep quiet (world live)).1 (codes "web") ≡ ok live
unfolding current parse_stored session_dir validate_session_name path_join is_name_byte starts_with
    ends_with bytes_eq sleep
loads_asleep = rw (decode-encode live) refl

came_up : (wait_for_running_metadata codec quiet (codes "web") (world live)).0 ≡ ok live
unfolding wait_for_running_metadata poll_running load_metadata start_answer sleep
came_up = rw loads_asleep refl

wait-IsStarted_example : IsStarted live
wait-IsStarted_example = wait-IsStarted codec quiet (codes "web") (world live) live came_up
