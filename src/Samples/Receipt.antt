-- ===== src/Samples/Receipt.antt =====
-- vfy/receipt.py: one receipt, issued and replayed.
use verify_run.Base.{◌≡◌, refl, Bool, true, false, Option, none, some, [], Text, codes}
use verify_run.Base.Attempt.{Attempt, raised, returned}
use verify_run.Authorization.{Failure, canonical_text}
use verify_run.Gate.Document.{result_document}
use verify_run.Receipt.{
  Receipt, ReceiptPayload, FrozenReceipt, Decision, ReceiptRequest, ReceiptFailure,
  ReceiptVerification, receipt_fields, completed_receipt, replay_mode, issue_receipt,
  verify_receipt, replay_body_mismatch,
}
use verify_run.Receipt.Replay.{
  Reader, ReplayVerification, created_before_freeze, replay_receipt, load_rulebook, accept_snapshot,
}
use verify_run.Receipt.Replayed.{Replayed, replay_receipt-Replayed}
use verify_run.Receipt.RoundTrip.{issue_receipt-replay_receipt}
use verify_run.Samples.Authorization.{
  host, frozen, keys, active, signer, private_key, result, finds, lawful, recomputes, same_text,
}
use verify_run.Samples.Gate.{candidate, allowed}
use verify_run.Samples.Rulebook.{loaded, snapshot, load, write, hex, digest}
use verify_run.Value.{dict, end}
use verify_run.Walk.{Outcome}

abbrev pub reader : Reader
reader = record {
  load = load;
  rulebook_conforms = λ _. true;
  canonicalize = write;
  hex_digest = hex;
  snapshot_digest = digest;
  snapshot_conforms = λ _. true;
  receipt_conforms = λ _. true;
}

abbrev pub decision : Decision
decision = record {
  canonical = result.canonical;
  outcome = Outcome.allow;
  value = result_document allowed;
}

abbrev request : ReceiptRequest
request = record {
  receipt_id = codes "c";
  created_at = codes "2024-01-01T00:00:03Z";
  identity = signer;
}

abbrev payload : ReceiptPayload
payload = record {
  receipt_id = codes "c";
  created_at = codes "2024-01-01T00:00:03Z";
  rulebook = record { rulebook_id = codes "r"; version = codes "1"; digest = codes "sha256:1" };
  candidate_digest = codes "sha256:1";
  evidence_digest = codes "2";
  result = result_document allowed;
  mode = replay_mode;
  authorization_id = some (codes "a");
  execution = none;
}

abbrev text_or_empty : Attempt Failure Text → Text
text_or_empty (returned t) = t
text_or_empty (raised f) = codes ""

abbrev receipt : Receipt
receipt = record {
  payload = payload;
  identity = signer;
  signature = text_or_empty (canonical_text (dict (receipt_fields payload end)));
}

abbrev issued : FrozenReceipt
issued = record {
  canonical = text_or_empty (canonical_text (completed_receipt receipt));
  value = receipt;
  outcome = Outcome.allow;
}

issues :
    issue_receipt host reader.receipt_conforms loaded candidate snapshot decision
      (some frozen)
      none
      request
      private_key
    ≡ returned issued
unfolding issue_receipt canonical_text verify_run.Base.text_eq verify_run.Canon.canonicalize
    verify_run.Base.text_lt
issues = refl

loads : load_rulebook host reader (codes "") ≡ returned loaded
unfolding verify_run.Rulebook.load_rulebook_bytes
loads = refl

accepts : accept_snapshot host reader loaded snapshot ≡ returned snapshot
unfolding verify_run.Instant.instant verify_run.Instant.match_date_time
    verify_run.Instant.in_calendar verify_run.Instant.month_days
    verify_run.Snapshot.verify_snapshot_value verify_run.Base.text_eq verify_run.Instant.instant_of
    verify_run.Base.Int.◌+ℤ◌ verify_run.Base.Int.times_ℤ verify_run.Base.Int.◌-ℤ◌
    verify_run.Instant.days_from_civil verify_run.Base.Int.div_ℤ verify_run.Base.Digits.value_from
    verify_run.Snapshot.declared verify_run.Snapshot.seen_in
accepts = refl

abbrev report : ReplayVerification
report = record {
  receipt_id = codes "c";
  outcome = codes "ALLOW";
  authorization_verified = false;
  recomputed_canonical = result.canonical;
  anomalies = [];
}

issue_receipt-replay_receipt_example :
    replay_receipt host reader receipt
      (some (codes ""))
      (some candidate)
      (some snapshot)
      keys
      none
      none
      none
    ≡ returned report
unfolding verify_run.Receipt.Replay.timeline_anomalies verify_run.Instant.instant
    verify_run.Instant.match_date_time verify_run.Instant.in_calendar verify_run.Instant.month_days
    verify_run.Instant.instant_of verify_run.Base.Int.◌+ℤ◌ verify_run.Base.Int.times_ℤ
    replay_receipt verify_run.Base.Int.◌-ℤ◌ verify_run.Instant.days_from_civil
    verify_run.Base.Int.div_ℤ verify_run.Base.Digits.value_from
issue_receipt-replay_receipt_example =
    issue_receipt-replay_receipt host reader (codes "") loaded candidate snapshot decision
      (some frozen) none request private_key issued keys active allowed issues finds refl lawful
      loads accepts recomputes refl refl same_text

replay_receipt-Replayed_example :
    Replayed host reader payload receipt (codes "") candidate snapshot keys none none none report
replay_receipt-Replayed_example =
    replay_receipt-Replayed host reader receipt (codes "") candidate snapshot keys none none none
      report issue_receipt-replay_receipt_example
