-- ===== src/Session/Process.antt =====
-- Process identity and termination.
pub mod Termination
pub mod Gone
use ignibyte_bridge.Prelude.{
  ℕ, zero, suc, ◌==◌, Bool, true, false, not, ◌&&◌, ◌||◌, Option, none, some, List, [], ◌∷◌, ◌++◌,
  Bytes, if◌then◌else◌, is_empty, codes, Result, ok, err, bail,
}
use ignibyte_bridge.Text.{join, decimal}
use ignibyte_bridge.Procinfo.{process_start_time}
use ignibyte_bridge.Session.World.{
  ℤ, pos, negsuc, as_i32, SessionMetadata, SessionStatus, running, Kill, delivered, no_such_process,
  not_permitted, kill_failed, Signal, sigterm, sigkill, Os, World, M, ◌>>=◌, ◌>>◌, pure, lift, get,
  put, Env, sleep,
}

unfoldable pub process_alive : Os → ℤ → Bool
process_alive os pid = elim (os.kill pid) [ delivered ↦ true | not_permitted ↦ true | _ ↦ false ]

-- `process_start_time(pid)` on Linux.
abbrev pub start_time : Os → ℕ → Option ℕ
start_time os pid = process_start_time (os.stat pid)

abbrev pub option_eq : Option ℕ → ℕ → Bool
option_eq none n = false
option_eq (some m) n = m == n

unfoldable pub pid_is_ours : Os → Option ℕ → Option ℕ → Bool
unfolding process_alive
pid_is_ours os none recorded_start_time = false
pid_is_ours os (some pid) recorded_start_time =
    if not (process_alive os (as_i32 pid))
    then false
    else elim recorded_start_time [ some token ↦ option_eq (start_time os pid) token | none ↦ true ]

abbrev pub is_running : SessionStatus → Bool
is_running running = true
is_running _ = false

unfoldable pub session_is_active : Os → SessionMetadata → Bool
session_is_active os m =
    is_running m.status
    && (pid_is_ours os m.supervisor_pid m.supervisor_start_time
        || pid_is_ours os m.child_pid m.child_start_time)

-- `-pid` of a positive `i32`.
abbrev pub negate : ℤ → ℤ
negate (pos zero) = pos zero
negate (pos (suc n)) = negsuc n
negate (negsuc n) = pos (suc n)

-- A signal that was delivered is on record.
abbrev pub recorded : ℤ → Signal → World → Kill → Kill × World
recorded target signal w delivered =
    (delivered, record w { signals = w.signals ++ (target, signal) ∷ [] })
recorded target signal w other = (other, w)

-- `kill(target, signal)`
unfoldable pub send_signal : ℤ → Signal → World → Kill × World
send_signal target signal w = recorded target signal w (w.os.kill target)

-- `Display` of a `Pid`.
abbrev pub target_text : ℤ → Bytes
target_text (pos n) = decimal n
target_text (negsuc n) = codes "-" ++ decimal (suc n)

-- The error text of a target that was there and could not be signalled.
unfoldable pub refusal : ℤ → Kill → List Bytes
refusal target delivered = []
refusal target no_such_process = []
refusal target not_permitted = (target_text target ++ codes ": EPERM: Operation not permitted") ∷ []
refusal target (kill_failed e) = (target_text target ++ (codes ": " ++ e)) ∷ []

abbrev pub is_delivered : Kill → Bool
is_delivered delivered = true
is_delivered _ = false

-- The process group first, then the process.
unfoldable pub signal_pid_and_group : ℤ → Signal → M Bool
unfolding send_signal refusal
signal_pid_and_group pid signal w =
    let (group_result, w1) = send_signal (negate pid) signal w in
    let (pid_result, w2) = send_signal pid signal w1 in
    let sent = is_delivered group_result || is_delivered pid_result in
    let errors = refusal (negate pid) group_result ++ refusal pid pid_result in
    (if not sent && not (is_empty errors) then bail (join (codes "; ") errors) else ok sent, w2)

-- `for _ in 0..rounds`: whether the process was seen gone.
unfoldable pub wait_gone : Env → ℕ → ℤ → M Bool
wait_gone env zero pid w = (ok false, w)
wait_gone env (suc rounds) pid w =
    let rest = (do sleep env; wait_gone env rounds pid) w in
    if not (process_alive w.os pid) then (ok true, w) else rest

abbrev pub is_positive : ℤ → Bool
is_positive (pos (suc n)) = true
is_positive _ = false

unfoldable pub kill_phase : Env → ℤ → Bool → M (Unit {0})
kill_phase env pid term_sent = do
  kill_sent ← signal_pid_and_group pid sigkill
  if not term_sent && not kill_sent then pure tt else (do
    gone ← wait_gone env 20 pid
    if gone then pure tt else lift (bail (codes "process did not exit after SIGTERM and SIGKILL")))

unfoldable pub terminate_pid : Env → ℤ → M (Unit {0})
unfolding kill_phase
terminate_pid env pid = if not (is_positive pid) then pure tt else (do
  term_sent ← signal_pid_and_group pid sigterm
  gone ← wait_gone env 20 pid
  if gone then pure tt else kill_phase env pid term_sent)
