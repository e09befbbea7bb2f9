-- ===== src/Runner/Launched.antt =====
-- `_launch` of vfy/runner.py from the pipes on: what is kept of the output, and what the end of the
-- process is reported as. Starting the process, the clock and the pipes are a parameter: the chunks that
-- were read from them, whether the time ran out, and the return code.
use verify_run.Base.{
  ℕ, zero, suc, ◌+◌, ◌-◌, Bool, true, false, ◌||◌, Option, none, some, List, [], ◌∷◌, ◌++◌, length,
  ltb,
}
use verify_run.Base.Int.{ℤ, pos, negsuc}
use verify_run.Authorization.{Bytes}

-- MAX_STDOUT_BYTES and MAX_STDERR_BYTES
abbrev pub max_stdout_bytes : ℕ
max_stdout_bytes = 1048576

abbrev pub max_stderr_bytes : ℕ
max_stderr_bytes = 65536

-- `chunk[:room]`
unfoldable pub take {ℓ} : {A : Type ℓ} → ℕ → List A → List A
take zero xs = []
take (suc n) [] = []
take (suc n) (x ∷ xs) = x ∷ take n xs

-- The body of the loop for one chunk: one byte more than the limit is kept.
abbrev pub extend : ℕ → Bytes → Bytes → Bytes
extend limit buffer chunk = buffer ++ take (limit + 1 - length buffer) chunk

unfoldable pub capture : ℕ → Bytes → List Bytes → Bytes
unfolding take
capture limit buffer [] = buffer
capture limit buffer (chunk ∷ chunks) = capture limit (extend limit buffer chunk) chunks

-- What a process that was started did.
pub record Ended : Type 0 where
  pub stdout_chunks : List Bytes
  pub stderr_chunks : List Bytes
  pub timed_out : Bool
  pub returncode : Option ℤ

-- What `Popen` and the reading of the pipes come to: `Popen` raises OSError, and nothing is started; it
-- raises anything else, as for a NUL in a member of argv, or for "=" or a NUL in the name of an environment variable;
-- the process is started and an exception ends the reading; or the process ends.
pub data Spawned : Type 0 where
  not_started refused_arguments interrupted : Spawned
  ended : Ended → Spawned

-- The processes started, after those that were.
unfoldable pub started_by {ℓ} : {L : Type ℓ} → Spawned → L → List L → List L
started_by not_started launch before = before
started_by refused_arguments launch before = before
started_by interrupted launch before = before ++ launch ∷ []
started_by (ended e) launch before = before ++ launch ∷ []

-- The dict that `_launch` returns.
pub record LaunchOutcome : Type 0 where
  pub started : Bool
  pub exit_status : Option ℤ
  pub timed_out : Bool
  pub signal_number : Option ℤ
  pub stdout : Bytes
  pub stderr : Bytes
  pub truncated : Bool

abbrev signal_of : Bool → Option ℤ → Option ℤ
signal_of true code = none
signal_of false (some (negsuc n)) = some (pos (suc n))
signal_of false code = none

abbrev exit_status_of : Bool → Option ℤ → Option ℤ
exit_status_of true code = none
exit_status_of false (some (negsuc n)) = none
exit_status_of false code = code

-- `_launch`, once `Popen` has raised or the process has ended
unfoldable pub launch_outcome : Option Ended → LaunchOutcome
unfolding capture
launch_outcome none = record {
  started = false;
  exit_status = none;
  timed_out = false;
  signal_number = none;
  stdout = [];
  stderr = [];
  truncated = false;
}
launch_outcome (some e) =
    let stdout = capture max_stdout_bytes [] e.stdout_chunks in
    let stderr = capture max_stderr_bytes [] e.stderr_chunks in
    record {
      started = true;
      exit_status = exit_status_of e.timed_out e.returncode;
      timed_out = e.timed_out;
      signal_number = signal_of e.timed_out e.returncode;
      stdout = take max_stdout_bytes stdout;
      stderr = take max_stderr_bytes stderr;
      truncated = ltb max_stdout_bytes (length stdout) || ltb max_stderr_bytes (length stderr);
    }

-- What `_launch` returns, if it does: it catches OSError, and only from `Popen`.
unfoldable pub launch_result : Spawned → Option LaunchOutcome
launch_result not_started = some (launch_outcome none)
launch_result refused_arguments = none
launch_result interrupted = none
launch_result (ended e) = some (launch_outcome (some e))

-- All that was read.
unfoldable pub concat : List Bytes → Bytes
concat [] = []
concat (chunk ∷ chunks) = chunk ++ concat chunks
