-- ===== src/Runner.antt =====
-- vfy/runner.py: `execute_authorized_command`, without a custody handoff, on a POSIX host: the order of
-- its effects. The store is an interface; the process is a parameter, and every start is recorded.
pub mod Launched
pub mod Output
pub mod Execute
pub mod Order
pub mod Once
pub mod Local
use verify_run.Base.{
  ℕ, ◌+◌, Bool, true, false, not, ◌&&◌, ◌||◌, Option, none, some, List, [], ◌∷◌, ◌++◌, Text, codes,
  text_eq, any, ◌==◌, if◌then◌else◌, length,
}
use verify_run.Base.Attempt.{Attempt, raised, returned, require, or_raise, raised_as, ◌>>=◌}
use verify_run.Base.Int.{ℤ, pos, leb_ℤ}
use verify_run.Authorization.{
  Bytes, Failure, Identity, FrozenAuthorization, EvaluationResult, Host, is_allow,
}
use verify_run.Authorization.Registry.{KeyRegistry}
use verify_run.Authorization.Verify.{verify_authorization}
use verify_run.Receipt.{
  Receipt, FrozenReceipt, Decision, Execution, ReceiptRequest, ReceiptFailure, issue_receipt,
}
use verify_run.Rulebook.{LoadedRulebook}
use verify_run.Runner.Launched.{LaunchOutcome, Ended, launch_outcome}
use verify_run.Schema.Checks.{is_date_time}
use verify_run.Snapshot.{Snapshot}
use verify_run.Store.{StoreFailure}
use verify_run.Store.Consume.{ConsumptionRecord}
use verify_run.Value.{
  Value, null, bool, int, str, list, dict, Items, nil, cons, Fields, end, field, get,
}

-- `stage`
pub data Stage : Type 0 where
  acknowledge issue store : Stage

-- The exceptions: those of this file, and those of the calls it makes. A failure to record carries the
-- signed receipt, where it was preserved, and what the process did. The last is an exception of `Popen` or
-- of the reading of its pipes that nothing catches.
pub data RunFailure : Type 0 where
  type_error configuration_invalid candidate_unsupported custody_refused : RunFailure
  run_outcome_ineligible : RunFailure
  not_verified : Failure → RunFailure
  not_consumed : StoreFailure → RunFailure
  recording_failed : Stage → Option FrozenReceipt → Option Text → LaunchOutcome → RunFailure
  escaped : RunFailure

abbrev pub Environment : Type 0
Environment = List (Text × Text)

-- A process that was asked for.
pub record Launch : Type 0 where
  pub argv : List Text
  pub environment : Environment
  pub timeout_seconds : ℤ

-- What the run asks of a store, whatever it is kept in. It raises its own exceptions and OSError, which are
-- those that the run is ready for, and no others.
pub record RecordStore (S : Type 0) : Type 0 where
  pub is_consumed : S → Text → Bool
  pub consume_once : FrozenAuthorization → S → S × Attempt StoreFailure ConsumptionRecord
  pub put_record :
      FrozenReceipt
      → LoadedRulebook
      → Fields
      → Snapshot
      → FrozenAuthorization
      → S
      → S × Attempt StoreFailure (Unit {0})
  pub preserve_unrecorded : FrozenReceipt → S → S × Attempt StoreFailure Text

-- The store, and every process that was started, the last one last.
pub record World (S : Type 0) : Type 0 where
  pub store : S
  pub launched : List Launch

-- The arguments. `is_directory` says that the working directory is an existing real one; a clock is what
-- the callable comes to, with nothing where it raises.
pub record Run : Type 0 where
  pub pinned : LoadedRulebook
  pub candidate : Fields
  pub snapshot : Snapshot
  pub decision : Decision
  pub authorization : FrozenAuthorization
  pub runtime_id : Text
  pub verification_time : Text
  pub authorization_keys : KeyRegistry
  pub receipt_id : Text
  pub receipt_identity : Identity
  pub receipt_private_key : Bytes
  pub is_directory : Bool
  pub acknowledged_at : Option Text
  pub receipt_created_at : Option Text
  pub completion_clock : Option (Option Value)
  pub environment : Option Value
  pub timeout_seconds : Value

-- `ExecutionRecord`, less what it copies of the outcome and the receipt
pub record ExecutionRecord : Type 0 where
  pub authorization_id : Text
  pub outcome : LaunchOutcome
  pub acknowledgment : Execution
  pub receipt : FrozenReceipt
  pub stored_receipt_id : Text

-- `for member in argv`
abbrev prepend : Value → Attempt RunFailure (List Text) → Attempt RunFailure (List Text)
prepend (str s) (returned rest) = returned (s ∷ rest)
prepend _ _ = raised candidate_unsupported

abbrev members_text : Items → Attempt RunFailure (List Text)
members_text nil = returned []
members_text (cons v vs) = prepend v (members_text vs)

abbrev check_program : List Text → Attempt RunFailure (List Text)
check_program [] = raised candidate_unsupported
check_program (program ∷ rest) =
    require (any (λ c. c == b'/') program) candidate_unsupported >>= λ _. returned (program ∷ rest)

abbrev argv_of : Option Value → Attempt RunFailure (List Text)
argv_of (some (list vs)) = members_text vs >>= check_program
argv_of _ = raised candidate_unsupported

abbrev argv_in : Option Value → Attempt RunFailure (List Text)
argv_in (some (dict action)) = argv_of (get (codes "argv") action)
argv_in _ = raised candidate_unsupported

abbrev is_command : Option Value → Bool
is_command (some (str kind)) = text_eq kind (codes "command")
is_command _ = false

-- `executable_argv`
unfoldable pub executable_argv : Fields → Attempt RunFailure (List Text)
unfolding get
executable_argv candidate =
    require (is_command (get (codes "kind") candidate)) candidate_unsupported >>= λ _.
    argv_in (get (codes "action") candidate)

-- `_check_environment`
abbrev pair : Text → Value → Attempt RunFailure Environment → Attempt RunFailure Environment
pair name (str s) (returned rest) = returned ((name, s) ∷ rest)
pair name _ _ = raised configuration_invalid

abbrev pairs : Fields → Attempt RunFailure Environment
pairs end = returned []
pairs (field name v rest) = pair name v (pairs rest)

unfoldable pub check_environment : Option Value → Attempt RunFailure Environment
check_environment none = returned []
check_environment (some (dict f)) = pairs f
check_environment (some _) = raised configuration_invalid

-- `_check_timeout`, with MIN_TIMEOUT_SECONDS and MAX_TIMEOUT_SECONDS
unfoldable pub check_timeout : Value → Attempt RunFailure ℤ
check_timeout (int z) =
    require (leb_ℤ (pos 1) z && leb_ℤ z (pos 3600)) configuration_invalid >>= λ _. returned z
check_timeout _ = raised configuration_invalid

-- Either both completion instants are supplied, or a clock and none of them.
unfoldable pub check_completion :
    Option Text → Option Text → Option (Option Value) → Attempt RunFailure (Unit {0})
check_completion (some acknowledged_at) (some created_at) none = returned tt
check_completion none none (some clock) = returned tt
check_completion _ _ none = raised type_error
check_completion _ _ (some clock) = raised configuration_invalid

-- `candidate['action'].get('params', {}).get('run_custody_sha256')`
abbrev binding_of : Option Value → Bool
binding_of none = false
binding_of (some null) = false
binding_of (some v) = true

abbrev params_binding : Option Value → Bool
params_binding (some (dict params)) = binding_of (get (codes "run_custody_sha256") params)
params_binding _ = false

unfoldable pub has_binding : Fields → Bool
unfolding get
has_binding candidate = elim (get (codes "action") candidate) [
  | some (dict action) ↦ params_binding (get (codes "params") action)
  | _ ↦ false
]

-- `_acknowledge`
abbrev acknowledged_end : LaunchOutcome → Text → Option ℤ → Execution
acknowledged_end o at (some signal) = record {
  acknowledged = some true;
  acknowledged_at = some at;
  exit_status = none;
  note = some (codes "terminated by signal");
}
acknowledged_end o at none = record {
  acknowledged = some true;
  acknowledged_at = some at;
  exit_status = o.exit_status;
  note = none;
}

unfoldable pub acknowledge_outcome : LaunchOutcome → Text → Execution
acknowledge_outcome o at =
    if not o.started
    then record {
      acknowledged = some false;
      acknowledged_at = some at;
      exit_status = none;
      note = some (codes "could not start");
    }
    else if o.timed_out
    then record {
      acknowledged = some true;
      acknowledged_at = some at;
      exit_status = none;
      note = some (codes "timed out");
    }
    else acknowledged_end o at o.signal_number

-- The acknowledgment's and the receipt's instant: those supplied, or `_completion_instant`.
abbrev clock_instant : LaunchOutcome → Option Value → Attempt RunFailure (Text × Text)
clock_instant o (some (str t)) =
    require (is_date_time t) (recording_failed acknowledge none none o) >>= λ _. returned (t, t)
clock_instant o _ = raised (recording_failed acknowledge none none o)

unfoldable pub completion_instants :
    LaunchOutcome
    → Option Text
    → Option Text
    → Option (Option Value)
    → Attempt RunFailure (Text × Text)
unfolding is_date_time
completion_instants o acknowledged_at created_at (some clock) = clock_instant o clock
completion_instants o (some a) (some c) none = returned (a, c)
completion_instants o _ _ none = raised type_error
