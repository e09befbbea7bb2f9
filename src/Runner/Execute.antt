-- ===== src/Runner/Execute.antt =====
-- `execute_authorized_command` of vfy/runner.py: what it checks, the spending of the authorization, the
-- start of the process, and the record.
use verify_run.Base.{Bool, true, false, not, Option, none, some, List, [], ◌∷◌, Text}
use verify_run.Base.Attempt.{Attempt, raised, returned, require, raised_as, ◌>>=◌}
use verify_run.Authorization.{FrozenAuthorization, EvaluationResult, Host, is_allow}
use verify_run.Authorization.Verify.{verify_authorization}
use verify_run.Receipt.{Receipt, FrozenReceipt, Decision, Execution, ReceiptFailure, issue_receipt}
use verify_run.Runner.{
  Launch, RecordStore, World, Run, ExecutionRecord, RunFailure, Stage, configuration_invalid,
  run_outcome_ineligible, custody_refused, not_verified, not_consumed, recording_failed, escaped,
  executable_argv, check_environment, check_timeout, check_completion, has_binding,
  acknowledge_outcome, completion_instants,
}
use verify_run.Runner.Launched.{LaunchOutcome, Spawned, started_by, launch_result}
use verify_run.Store.{StoreFailure}
use verify_run.Store.Consume.{ConsumptionRecord}

-- What is known once every check has passed.
pub record Ready : Type 0 where
  pub launch : Launch
  pub verified : FrozenAuthorization

abbrev pub record_of : Run → Ready → LaunchOutcome → Execution → FrozenReceipt → ExecutionRecord
record_of run ready o acknowledgment signed = record {
  authorization_id = ready.verified.value.payload.authorization_id;
  outcome = o;
  acknowledgment = acknowledgment;
  receipt = signed;
  stored_receipt_id = run.receipt_id;
}

abbrev pub evaluation_of : Decision → EvaluationResult
evaluation_of d = record { canonical = d.canonical; outcome = d.outcome }

-- `_ConsumedView(store)`, of which only the nonce at hand is looked up
abbrev pub consumed_view : Bool → Text → List Text
consumed_view true nonce = nonce ∷ []
consumed_view false nonce = []

abbrev preserved_path : Attempt StoreFailure Text → Option Text
preserved_path (returned path) = some path
preserved_path (raised f) = none

module _ (host : Host) (conforms : Receipt → Bool) (spawn : Launch → Spawned) {S : Type 0}
    (records : RecordStore S) where
  -- Everything above the line.
  unfoldable pub prepare_run : Run → S → Attempt RunFailure Ready
  unfolding executable_argv check_environment check_timeout check_completion has_binding
  prepare_run run s =
      let nonce = run.authorization.value.payload.nonce in
      check_completion run.acknowledged_at run.receipt_created_at run.completion_clock >>= λ _.
      require (is_allow run.decision.outcome) run_outcome_ineligible >>= λ _.
      executable_argv run.candidate >>= λ argv.
      require run.is_directory configuration_invalid >>= λ _.
      check_environment run.environment >>= λ environment.
      check_timeout run.timeout_seconds >>= λ timeout_seconds.
      raised_as not_verified (
        verify_authorization host run.authorization.value run.pinned run.candidate run.snapshot
          (evaluation_of run.decision) run.runtime_id (some run.verification_time)
          run.authorization_keys (some (consumed_view (records.is_consumed s nonce) nonce)) false)
      >>= λ verified. require (not (has_binding run.candidate)) custody_refused >>= λ _.
          returned (record {
            launch = record {
              argv = argv;
              environment = environment;
              timeout_seconds = timeout_seconds;
            };
            verified = verified;
          })

  -- `put_record`, and `preserve_unrecorded` where it raises
  abbrev pub preserved :
      LaunchOutcome
      → FrozenReceipt
      → S × Attempt StoreFailure Text
      → S × Attempt RunFailure ExecutionRecord
  preserved o signed (s, path) =
      (s, raised (recording_failed Stage.store (some signed) (preserved_path path) o))

  abbrev pub stored :
      LaunchOutcome
      → FrozenReceipt
      → ExecutionRecord
      → S × Attempt StoreFailure (Unit {0})
      → S × Attempt RunFailure ExecutionRecord
  stored o signed done (s, returned u) = (s, returned done)
  stored o signed done (s, raised f) = preserved o signed (records.preserve_unrecorded signed s)

  abbrev pub issued :
      Run
      → Ready
      → LaunchOutcome
      → Execution
      → S
      → Attempt ReceiptFailure FrozenReceipt
      → S × Attempt RunFailure ExecutionRecord
  issued run ready o acknowledgment s (raised f) =
      (s, raised (recording_failed Stage.issue none none o))
  issued run ready o acknowledgment s (returned signed) =
      stored o signed (record_of run ready o acknowledgment signed)
        (records.put_record signed run.pinned run.candidate run.snapshot ready.verified s)

  abbrev pub acknowledged :
      Run
      → Ready
      → LaunchOutcome
      → S
      → Attempt RunFailure (Text × Text)
      → S × Attempt RunFailure ExecutionRecord
  acknowledged run ready o s (raised f) = (s, raised f)
  acknowledged run ready o s (returned at) =
      let acknowledgment = acknowledge_outcome o at.0 in
      issued run ready o acknowledgment s (
        issue_receipt host conforms run.pinned run.candidate run.snapshot run.decision
          (some ready.verified) (some acknowledgment)
          (record {
            receipt_id = run.receipt_id;
            created_at = at.1;
            identity = run.receipt_identity;
          })
          run.receipt_private_key)

  -- From the end of the process on.
  unfoldable pub record_outcome :
      Run → Ready → LaunchOutcome → S → S × Attempt RunFailure ExecutionRecord
  unfolding completion_instants
  record_outcome run ready o s =
      acknowledged run ready o s
        (completion_instants o run.acknowledged_at run.receipt_created_at run.completion_clock)

  -- An exception that `_launch` does not catch leaves the run at once.
  unfoldable pub launched :
      Run → Ready → S → Option LaunchOutcome → S × Attempt RunFailure ExecutionRecord
  unfolding record_outcome
  launched run ready s none = (s, raised escaped)
  launched run ready s (some o) = record_outcome run ready o s

  abbrev pub with_launches :
      List Launch
      → S × Attempt RunFailure ExecutionRecord
      → World S × Attempt RunFailure ExecutionRecord
  with_launches after (s, out) = (record { store = s; launched = after }, out)

  -- The process is started once the authorization is spent.
  unfoldable pub consumed_as :
      Run
      → Ready
      → List Launch
      → S × Attempt StoreFailure ConsumptionRecord
      → World S × Attempt RunFailure ExecutionRecord
  unfolding started_by launched launch_result
  consumed_as run ready before (s, raised f) =
      (record { store = s; launched = before }, raised (not_consumed f))
  consumed_as run ready before (s, returned r) =
      let process = spawn ready.launch in
      with_launches (started_by process ready.launch before)
        (launched run ready s (launch_result process))

  unfoldable pub after_checks :
      Run → World S → Attempt RunFailure Ready → World S × Attempt RunFailure ExecutionRecord
  unfolding consumed_as
  after_checks run w (raised f) = (w, raised f)
  after_checks run w (returned ready) =
      consumed_as run ready w.launched (records.consume_once ready.verified w.store)

  -- `execute_authorized_command`
  unfoldable pub execute_authorized_command :
      Run → World S → World S × Attempt RunFailure ExecutionRecord
  execute_authorized_command run w = after_checks run w (prepare_run run w.store)
