-- ===== src/Samples/Runner.antt =====
-- vfy/runner.py: one authorized command, run and run again.
use verify_run.Base.{
  ◌≡◌, refl, ap, ◌∙◌, ℕ, ◌+◌, ◌≤◌, ◌||◌, Bool, true, false, Option, none, some, List, [], ◌∷◌, Text,
  codes, length, ltb, arith,
}
use verify_run.Base.Attempt.{Attempt, returned}
use verify_run.Base.Int.{pos}
use verify_run.Authorization.{FrozenAuthorization}
use verify_run.Receipt.{FrozenReceipt}
use verify_run.Rulebook.{LoadedRulebook}
use verify_run.Runner.{Launch, RecordStore, World, Run}
use verify_run.Runner.Execute.{Ready, execute_authorized_command, prepare_run, after_checks}
use verify_run.Runner.Launched.{
  Ended, Spawned, take, concat, max_stdout_bytes, max_stderr_bytes, launch_outcome,
}
use verify_run.Runner.Local.{local_store, local_store-Spending}
use verify_run.Runner.Once.{run_all, run_all-once}
use verify_run.Runner.Order.{Spending, Effects, execute_authorized_command-Effects}
use verify_run.Runner.Output.{launch_outcome-output}
use verify_run.Authorization.{recompute}
use verify_run.Authorization.Issue.{issue_authorization}
use verify_run.Authorization.RoundTrip.{issue_authorization-verify_authorization}
use verify_run.Authorization.Verify.{verify_authorization}
use verify_run.Samples.Gate.{allowed}
use verify_run.Samples.Authorization.{
  host, frozen, keys, active, signer, private_key, time, result, request, start, starts, finds,
  lawful, same_text, within, writable,
}
use verify_run.Samples.Receipt.{reader, decision}
use verify_run.Samples.Rulebook.{loaded, snapshot}
use verify_run.Samples.Store.{load, littered}
use verify_run.Snapshot.{Snapshot}
use verify_run.Store.{StoreFailure}
use verify_run.Store.Consume.{is_consumed, consume_once}
use verify_run.Store.Consume.Race.{bit}
use verify_run.Store.Files.{Disk}
use verify_run.Store.Unrecorded.{Answers}
use verify_run.Value.{str, int, list, dict, cons, nil, Fields, field, end}

abbrev command : Fields
command = field (codes "amount") (str (codes "12.50")) (
    field (codes "kind") (str (codes "command")) (
      field (codes "action")
        (dict (field (codes "argv") (list (cons (str (codes "/bin/true")) nil)) end)) end))

abbrev run : Run
run = record {
  pinned = loaded;
  candidate = command;
  snapshot = snapshot;
  decision = decision;
  authorization = frozen;
  runtime_id = codes "r";
  verification_time = time;
  authorization_keys = keys;
  receipt_id = codes "c";
  receipt_identity = signer;
  receipt_private_key = private_key;
  is_directory = true;
  acknowledged_at = some (codes "2024-01-01T00:01:02Z");
  receipt_created_at = some (codes "2024-01-01T00:01:02Z");
  completion_clock = none;
  environment = none;
  timeout_seconds = int (pos 300);
}

abbrev ended : Ended
ended = record {
  stdout_chunks = codes "a" ∷ codes "b" ∷ [];
  stderr_chunks = [];
  timed_out = false;
  returncode = some (pos 0);
}

abbrev spawn : Launch → Spawned
spawn launch = Spawned.ended ended

abbrev granted : Answers
granted = record { opens = true; writes = true; replaces = true }

-- A stand-in that commits nothing.
abbrev put_record :
    FrozenReceipt
    → LoadedRulebook
    → Fields
    → Snapshot
    → FrozenAuthorization
    → Disk
    → Disk × Attempt StoreFailure (Unit {0})
put_record f pinned candidate s a d = (d, returned tt)

abbrev records : RecordStore Disk
records = local_store host load (λ phase. true) granted put_record

local_store-Spending_example : Spending records
local_store-Spending_example =
    local_store-Spending host load (λ phase. true) granted put_record
      (λ f pinned candidate s a d digest h. h)

abbrev fresh : World Disk
fresh = record { store = littered; launched = [] }

abbrev after : World Disk
after = (execute_authorized_command host reader.receipt_conforms spawn records run fresh).0

issues :
    issue_authorization host loaded command snapshot result request private_key ≡ returned frozen
unfolding verify_run.Authorization.Issue.issue_authorization verify_run.Instant.instant
    verify_run.Instant.match_date_time verify_run.Instant.in_calendar verify_run.Instant.month_days
    verify_run.Instant.instant_of verify_run.Base.Int.◌+ℤ◌ verify_run.Base.Int.times_ℤ
    verify_run.Base.Int.◌-ℤ◌ verify_run.Instant.days_from_civil verify_run.Base.Int.div_ℤ
    verify_run.Base.Digits.value_from verify_run.Instant.Render.add_seconds
    verify_run.Canon.canonicalize verify_run.Base.text_lt verify_run.Instant.Render.render_seconds
    verify_run.Instant.Render.render verify_run.Instant.Render.padded
    verify_run.Base.Digits.to_digits verify_run.Canon.insert verify_run.Canon.integer_text
    verify_run.Canon.object_frames verify_run.Canon.run verify_run.Canon.sort
    verify_run.Canon.string_text verify_run.Instant.Era.year_of
    verify_run.Instant.Render.civil_from_days verify_run.Instant.Render.civil_of_era
issues = refl

recomputes : recompute host loaded command snapshot ≡ returned allowed
unfolding verify_run.Authorization.recompute verify_run.Instant.instant
    verify_run.Instant.match_date_time verify_run.Instant.in_calendar verify_run.Instant.month_days
    verify_run.Authorization.read_items verify_run.Instant.instant_of verify_run.Base.Int.◌+ℤ◌
    verify_run.Base.Int.times_ℤ verify_run.Base.Int.◌-ℤ◌ verify_run.Instant.days_from_civil
    verify_run.Base.Int.div_ℤ verify_run.Base.Digits.value_from verify_run.Gate.evaluate
    verify_run.Gate.prepare_rules verify_run.Base.text_eq verify_run.Walk.walk
    verify_run.Walk.walk_from verify_run.Walk.rule_state verify_run.Evaluate.evaluate_node
    verify_run.Evaluate.evaluate_compare verify_run.Decimal.compare_numeric
    verify_run.Decimal.numeric_parts verify_run.Decimal.compare_parts verify_run.Walk.matched
    verify_run.Walk.trace_entry verify_run.Base.Digits.to_digits
recomputes = refl

verifies :
    verify_authorization host frozen.value loaded command snapshot result
      (codes "r")
      (some time)
      keys
      (some [])
      false
    ≡ returned frozen
verifies =
    issue_authorization-verify_authorization host loaded command snapshot result request private_key
      frozen keys active allowed (some time) (some []) start issues finds refl lawful recomputes
      same_text refl starts writable (omega arith) within refl

abbrev ready : Ready
ready = record {
  launch = record { argv = codes "/bin/true" ∷ []; environment = []; timeout_seconds = pos 300 };
  verified = frozen;
}

prepares : prepare_run host reader.receipt_conforms spawn records run littered ≡ returned ready
unfolding prepare_run is_consumed verify_run.Base.text_eq
prepares = rw verifies refl

starts_one :
    length
      (after_checks host reader.receipt_conforms spawn records run fresh
        (returned ready)).0.launched
    ≡ 1
unfolding after_checks consume_once verify_run.Canon.canonicalize verify_run.Base.text_lt
    verify_run.Base.text_eq verify_run.Base.Digits.to_digits
starts_one = refl

launches : length after.launched ≡ 1
unfolding execute_authorized_command
launches =
    ap
      (λ x. length (after_checks host reader.receipt_conforms spawn records run fresh x).0.launched)
      prepares
    ∙ starts_one

execute_authorized_command-Effects_example :
    Effects host reader.receipt_conforms spawn records local_store-Spending_example run fresh
      (execute_authorized_command host reader.receipt_conforms spawn records run fresh)
execute_authorized_command-Effects_example =
    execute_authorized_command-Effects host reader.receipt_conforms spawn records
      local_store-Spending_example run fresh

run_all-once_example :
    length (run_all host reader.receipt_conforms spawn records (run ∷ run ∷ []) fresh).launched
      + bit (records.is_consumed littered (codes "n"))
    ≤ 0
      + bit (
          records.is_consumed
            (run_all host reader.receipt_conforms spawn records (run ∷ run ∷ []) fresh).store
            (codes "n"))
run_all-once_example =
    run_all-once host reader.receipt_conforms spawn records local_store-Spending_example (codes "n")
      (run ∷ run ∷ []) fresh (refl, (refl, tt))

launch_outcome-output_example :
    ((launch_outcome (some ended)).stdout ≡ take max_stdout_bytes (concat ended.stdout_chunks))
    × ((launch_outcome (some ended)).stderr ≡ take max_stderr_bytes (concat ended.stderr_chunks))
    × ((launch_outcome (some ended)).truncated ≡ (
        ltb max_stdout_bytes (length (concat ended.stdout_chunks))
        || ltb max_stderr_bytes (length (concat ended.stderr_chunks))))
launch_outcome-output_example = launch_outcome-output ended
