-- ===== src/Tests/Wire.antt =====
-- A codec for requests and responses, as another crate might give it: they are laid out as metadata, whose bytes are
-- shifted past the newline.
use ignibyte_bridge.Prelude.{
  ℕ, zero, suc, ◌+◌, ◌-◌, ◌==◌, ◌≡◌, refl, ap, Bool, true, false, Option, none, some, List, [], ◌∷◌,
  ◌++◌, Bytes, count, if◌then◌else◌, arith, Result, ok, err,
}
use ignibyte_bridge.Session.World.{SessionMetadata, stopped}
use ignibyte_bridge.Dispatch.{DaemonRequest, DaemonResponse}
use ignibyte_bridge.Daemon.{Codec}
use ignibyte_bridge.Daemon.Serving.{Speaks}
use ignibyte_bridge.Tests.Codec.{encode, decode, decode-encode}

-- `tag` tells what is laid out.
abbrev form :
    ℕ → Bytes → Bytes → List Bytes → Option ℕ → Option ℕ → ℕ → ℕ → Option Bytes → SessionMetadata
form tag name text words a b n flag o = record {
  name = name;
  cwd = text;
  command = words;
  status = stopped;
  supervisor_pid = a;
  child_pid = b;
  supervisor_start_time = none;
  child_start_time = none;
  generation = tag;
  rows = n;
  cols = flag;
  created_at_unix = 0;
  updated_at_unix = 0;
  exit_status = o;
  exit_code = none;
}

abbrev flag_of : Bool → ℕ
flag_of true = 1
flag_of false = 0

abbrev bool_of : ℕ → Bool
bool_of zero = false
bool_of (suc n) = true

pub bool-flag : (b : Bool) → bool_of (flag_of b) ≡ b
bool-flag true = refl
bool-flag false = refl

abbrev list_of : Option Bytes → List Bytes
list_of none = []
list_of (some s) = s ∷ []

abbrev option_of : List Bytes → Option Bytes
option_of [] = none
option_of (s ∷ ss) = some s

option-list : (o : Option Bytes) → option_of (list_of o) ≡ o
option-list none = refl
option-list (some s) = refl

unfoldable pub request_form : DaemonRequest → SessionMetadata
request_form (DaemonRequest.start name cwd cmd path rows cols) =
    form 0 name cmd (list_of path) rows cols 0 0 cwd
request_form (DaemonRequest.send name text no_enter) =
    form 1 name text [] none none 0 (flag_of no_enter) none
request_form (DaemonRequest.keys name key_names) = form 2 name [] key_names none none 0 0 none
request_form (DaemonRequest.read name tail raw) =
    form 3 name [] [] none none tail (flag_of raw) none
request_form (DaemonRequest.screen name tail) = form 4 name [] [] none none tail 0 none
request_form (DaemonRequest.status name) = form 5 name [] [] none none 0 0 none
request_form (DaemonRequest.stop name) = form 6 name [] [] none none 0 0 none
request_form DaemonRequest.list = form 7 [] [] [] none none 0 0 none
request_form DaemonRequest.shutdown = form 8 [] [] [] none none 0 0 none

pub form_request : ℕ → SessionMetadata → DaemonRequest
form_request tag m =
    if tag == 0
    then DaemonRequest.start m.name m.exit_status m.cwd (option_of m.command) m.supervisor_pid
        m.child_pid
    else if tag == 1
    then DaemonRequest.send m.name m.cwd (bool_of m.cols)
    else if tag == 2
    then DaemonRequest.keys m.name m.command
    else if tag == 3
    then DaemonRequest.read m.name m.rows (bool_of m.cols)
    else if tag == 4
    then DaemonRequest.screen m.name m.rows
    else if tag == 5
    then DaemonRequest.status m.name
    else if tag == 6
    then DaemonRequest.stop m.name
    else if tag == 7
    then DaemonRequest.list
    else DaemonRequest.shutdown

pub request-form :
    (r : DaemonRequest) → form_request (request_form r).generation (request_form r) ≡ r
unfolding form_request request_form
request-form (DaemonRequest.start name cwd cmd path rows cols) =
    ap (λ o. DaemonRequest.start name cwd cmd o rows cols) (option-list path)
request-form (DaemonRequest.send name text no_enter) =
    ap (DaemonRequest.send name text) (bool-flag no_enter)
request-form (DaemonRequest.read name tail raw) = ap (DaemonRequest.read name tail) (bool-flag raw)
request-form (DaemonRequest.keys name key_names) = refl
request-form (DaemonRequest.screen name tail) = refl
request-form (DaemonRequest.status name) = refl
request-form (DaemonRequest.stop name) = refl
request-form DaemonRequest.list = refl
request-form DaemonRequest.shutdown = refl

-- Past the newline, which is 10.
unfoldable pub shift : Bytes → Bytes
shift [] = []
shift (b ∷ s) = (b + 11) ∷ shift s

-- What was shifted, up to the newline.
pub unshift : Bytes → Bytes
unshift [] = []
unshift (b ∷ s) = let rest = unshift s in if b == b'\n' then [] else (b - 11) ∷ rest

pub unshift-shift : (s : Bytes) → unshift (shift s ++ b'\n' ∷ []) ≡ s
unfolding shift unshift
unshift-shift [] = refl
unshift-shift (b ∷ s) = ground (arith, unshift-shift s)

pub one_line : (s : Bytes) → count b'\n' (shift s) ≡ 0
unfolding shift
one_line [] = refl
one_line (b ∷ s) = ground (arith, one_line s)

abbrev in_form : {A : Type 0} → (SessionMetadata → A) → Result SessionMetadata → Result A
in_form f (ok m) = ok (f m)
in_form f (err e) = err e

abbrev response_form : DaemonResponse → SessionMetadata
response_form r = form 9 r.output [] [] none none 0 (flag_of r.is_ok) r.error

abbrev form_response : SessionMetadata → DaemonResponse
form_response m = record { is_ok = bool_of m.cols; output = m.name; error = m.exit_status }

abbrev pub wire : Codec
wire = record {
  request_json = λ r. ok (shift (encode (request_form r)));
  parse_request = λ s. in_form (λ m. form_request m.generation m) (decode (unshift s));
  response_json = λ r. ok (shift (encode (response_form r)));
  parse_response = λ s. in_form form_response (decode (unshift s));
  is_utf8 = λ s. true;
}

abbrev pub wire-Speaks : Speaks wire
wire-Speaks = record {
  requests = λ r. (
    _,
    refl,
    record {
      one_line = one_line (encode (request_form r));
      utf8 = refl;
      parsed =
          rw (unshift-shift (encode (request_form r)), decode-encode (request_form r))
            (ap ok (request-form r));
    },
  );
  responses = λ r. (
    _,
    refl,
    record {
      one_line = one_line (encode (response_form r));
      utf8 = refl;
      parsed =
          rw (unshift-shift (encode (response_form r)), decode-encode (response_form r))
            (ap (λ b. ok (record { is_ok = b; output = r.output; error = r.error }))
              (bool-flag r.is_ok));
    },
  );
}
