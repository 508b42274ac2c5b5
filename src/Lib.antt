-- ===== src/Lib.antt =====
-- ignibyte-bridge runs named interactive programs in pseudo terminals: a command starts a session, sends it text
-- or keys, reads what it printed and stops it, directly or through a daemon. This library models the program
-- and states what makes its parts correct.
--
-- Prelude holds the shared names: byte strings, Boolean tests on native numbers, lists measured by
-- them, and `anyhow::Result` with its chain of messages. Effects is fallible code over a state, with the lemmas
-- on what its parts keep. Text models the functions of the standard library that the
-- program applies to strings.
--
-- The files and the code that they model, by paths from the repository's root:
--   Clean: src/clean.rs, the cleaner that takes escape sequences out of terminal output; `step` is
--     `AnsiCleaner::step`. Clean/Reference describes it anew, as tokens and line ends.
--   Keys: src/keys.rs.
--   Logs: src/logs.rs. Logs/Capture runs `capture_output` over rounds, one for each pass of its loop, which say what
--     `poll`, `read` and the three writes did; Logs/Forward does so for `forward_input`. `tail_contents` is
--     `tail_file` on the contents of a file that is not written to meanwhile. Its fuel is one more than the file's
--     length, and each round takes at least one byte.
--   Procinfo: src/procinfo.rs, on the bytes of /proc/<pid>/stat.
--   Paths: src/paths.rs, without what touches the file system. A path is its bytes.
--   Files: the rest of src/paths.rs, on a file system of nodes with kinds, modes and owners. A path is the list of
--   its
--     components. Each system call counts, and may fail; `seen` holds the states that others may have seen.
--   Session: src/session.rs. Session/World is the state: the files of each session, the clock, the
--     processes, the signals sent so far, and which writes to the disk fail. `M` passes the state and
--     stops at an error. `sleep` lets the rest of the system change everything but the
--     record of the signals that the program has sent. Session/Metadata is the metadata file with the sections of code
--     that hold the status lock, each one function: `mark_stopped`, and of `run_supervisor` and
--     `supervise_pty` the sections `record_supervisor`, `record_child` and `promote`. Session/Locking takes them apart
--     into the steps that other processes can see, with `acquire_status_lock`; a start, which does not take that
--     lock, is one step there, and may fall between the others. Session/Start is `initialize_session_files`
--     and `wait_for_running_metadata`, which polls 50 times as the source does. Session/Process and Session/Stop are
--     the signals. Session/Input is the FIFO.
--     Session/Lifecycle lets all these sections, and starts, follow one another in any order. Session/Launch is
--     `start_session_detached` and the daemon's `start_session_in_daemon`, with the start lock, on the
--     session's files and the file system together. Session/Supervisor is `supervise_pty` and
--     `run_supervisor`, with their sections. Session/Threads is the end of `supervise_pty`, with its owner and its two
--     threads as a step relation: a round of `capture_output` or of `forward_input` is one step, and the
--     clock moves on by any amount. Session/Progress says what the others may do to sessions while the program
--     waits. Session/Reports is the texts of `read`, `screen`, `status` and `list`.
--   Dispatch: src/main.rs, src/protocol.rs and `handle_daemon_request` of src/daemon.rs, over an
--     interface of the operations, `Operations`, and any state.
--   Daemon: the connection of src/protocol.rs to `handle_daemon_stream` of src/daemon.rs, and in Daemon/Shutdown
--     `shutdown_sessions_for_daemon`, in Daemon/Service `run_daemon` up to its accept loop, in Daemon/Accept that
--     loop as a step relation, where each stream has its own thread and the threads run in any order. Daemon/Serving says what client and daemon
--     rely on in each other; Daemon/Overlong and Daemon/Farewell are requests past the limit and `shutdown`.
--   Program: the functions of src/session.rs, src/daemon.rs and src/doctor.rs themselves as the operations of
--     src/main.rs, over one state of the sessions, the file system, the locks and the daemon's socket.
--   Doctor: src/doctor.rs, with what it prints as its state.
--   Tests: the theorems at concrete inputs, with codecs in Tests/Codec for the metadata and in Tests/Wire for
--     requests and responses.
--
-- What other crates do is a parameter: `serde_json` on metadata and messages, which is taken to read back what it
-- wrote, the `vt100` terminal, which is taken to treat a stream alike however it is cut, `shell_words::split` and the
-- `directories` crate. A 64-bit generation wraps around as in the source. Numbers that only grow by a
-- clock or a count of bytes have no bound.
--
-- Not modelled: how the operations of two handlers that run at once interleave (what a handler does to the program
-- is one step), a thread that is blocked within a round, links among the parents of a path that is opened, and
-- the parsing of the command line.
mod Prelude
pub mod Effects
pub mod Text
pub mod Keys
pub mod Clean
pub mod Logs
pub mod Procinfo
pub mod Paths
pub mod Files
pub mod Session
pub mod Dispatch
pub mod Program
pub mod Daemon
pub mod Doctor
mod Tests
