-- ===== src/Receipt/Replay.antt =====
-- `replay_receipt` and `timeline_anomalies` of vfy/receipt.py. A replay is handed the bodies; that of a
-- rulebook is its source.
use verify_run.Base.{
  Bool, true, false, ◌&&◌, Option, none, some, List, [], ◌∷◌, Text, text_eq, if◌then◌else◌,
}
use verify_run.Base.Attempt.{Attempt, raised, returned, require, or_raise, raised_as, ◌>>=◌}
use verify_run.Base.Int.{ℤ, ltb_ℤ}
use verify_run.Authorization.{
  Authorization, EvaluationResult, Host, canonical_text, digest, recompute, not_a_date_time,
}
use verify_run.Authorization.Registry.{KeyRegistry}
use verify_run.Authorization.Verify.{verify_authorization}
use verify_run.Gate.Document.{result_document}
use verify_run.Instant.{instant}
use verify_run.Receipt.{
  ReceiptFailure, receipt_binding_mismatch, replay_body_mismatch, replay_body_missing,
  replay_result_mismatch, not_authorized, not_loaded, not_accepted, Execution, ReceiptPayload,
  Receipt, verify_receipt,
}
use verify_run.Rulebook.{LoadedRulebook, RulebookValue, load_rulebook_bytes}
use verify_run.Rulebook.Loaded.{pinned_of}
use verify_run.Snapshot
use verify_run.Snapshot.{Snapshot, Checked, verify_snapshot_value}
use verify_run.Value.{Fields, dict}

-- The readers, the schemas and the digests that loading a rulebook and accepting a snapshot ask for.
pub record Reader : Type 0 where
  pub load : Text → Option RulebookValue
  pub rulebook_conforms : RulebookValue → Bool
  pub canonicalize : RulebookValue → Option Text
  pub hex_digest : Text → Text
  pub snapshot_digest : Snapshot.Payload → Text
  pub snapshot_conforms : Snapshot → Bool
  pub receipt_conforms : Receipt → Bool

-- An ordering of recorded instants that cannot have happened: which one precedes which.
pub data Anomaly : Type 0 where
  created_before_issue created_before_freeze : Anomaly
  acknowledged_before_issue acknowledged_before_freeze acknowledged_before_creation : Anomaly

-- `earlier`, where both texts are there
abbrev earlier_instants : Option ℤ → Option ℤ → Bool
earlier_instants (some first) (some second) = ltb_ℤ first second
earlier_instants _ _ = false

abbrev pub earlier : Option Text → Option Text → Bool
earlier (some first) (some second) = earlier_instants (instant first) (instant second)
earlier _ _ = false

abbrev note_if : Anomaly → Bool → List Anomaly → List Anomaly
note_if a found rest = if found then a ∷ rest else rest

abbrev acknowledged_at_of : Option Execution → Option Text
acknowledged_at_of none = none
acknowledged_at_of (some e) = e.acknowledged_at

abbrev issued_at_of : Option Authorization → Option Text
issued_at_of none = none
issued_at_of (some a) = some a.payload.issued_at

-- `timeline_anomalies`, with the snapshot at hand
unfoldable pub timeline_anomalies : ReceiptPayload → Snapshot → Option Authorization → List Anomaly
timeline_anomalies p snapshot authorization =
    let created = some p.created_at in
    let acknowledged = acknowledged_at_of p.execution in
    let frozen_at = some snapshot.payload.frozen_at in
    let issued_at = issued_at_of authorization in
    note_if created_before_issue (earlier created issued_at) (
      note_if created_before_freeze (earlier created frozen_at) (
        note_if acknowledged_before_issue (earlier acknowledged issued_at) (
          note_if acknowledged_before_freeze (earlier acknowledged frozen_at)
            (note_if acknowledged_before_creation (earlier acknowledged created) []))))

-- `ReplayVerification`
pub record ReplayVerification : Type 0 where
  pub receipt_id : Text
  pub outcome : Text
  pub authorization_verified : Bool
  pub recomputed_canonical : Text
  pub anomalies : List Anomaly

-- `verify_snapshot_value`
abbrev pub accepted_as : Checked Snapshot → Attempt ReceiptFailure Snapshot
accepted_as (Snapshot.rejected r) = raised (not_accepted r)
accepted_as (Snapshot.accepted s) = returned s

-- The body that a caller supplies.
abbrev pub body : {A : Type 0} → Option A → Attempt ReceiptFailure A
body o = or_raise replay_body_missing o

module _ (host : Host) (reader : Reader) where
  abbrev pub load_rulebook : Text → Attempt ReceiptFailure LoadedRulebook
  load_rulebook source = raised_as not_loaded (
      load_rulebook_bytes reader.load reader.rulebook_conforms reader.canonicalize reader.hex_digest
        source)

  abbrev pub accept_snapshot : LoadedRulebook → Snapshot → Attempt ReceiptFailure Snapshot
  accept_snapshot pinned snapshot =
      or_raise (not_authorized not_a_date_time) (instant pinned.value.adopted_at) >>= λ adopted_at.
      accepted_as (
        verify_snapshot_value reader.snapshot_digest reader.snapshot_conforms snapshot
          (pinned_of pinned adopted_at))

  -- The cross-check of an authorization that the receipt names and the caller supplies.
  unfoldable pub check_authorization :
      ReceiptPayload
      → LoadedRulebook
      → Fields
      → Snapshot
      → EvaluationResult
      → Authorization
      → Text
      → Option Text
      → KeyRegistry
      → Attempt ReceiptFailure (Unit {0})
  unfolding verify_authorization
  check_authorization p pinned candidate snapshot recomputed authorization name verification_time
        keys =
      let a = authorization.payload in
      require (text_eq a.authorization_id name) receipt_binding_mismatch >>= λ _.
      require (text_eq a.action_digest p.candidate_digest) receipt_binding_mismatch >>= λ _.
      require (text_eq a.rulebook_digest p.rulebook.digest) receipt_binding_mismatch >>= λ _.
      require (text_eq a.evidence_digest p.evidence_digest) receipt_binding_mismatch >>= λ _.
      raised_as not_authorized (
        verify_authorization host authorization pinned candidate snapshot recomputed a.runtime_id
          verification_time keys none true)
      >>= λ _. returned tt

  -- Whether an authorization was verified: only one that is named and supplied is.
  unfoldable pub cross_check :
      ReceiptPayload
      → LoadedRulebook
      → Fields
      → Snapshot
      → EvaluationResult
      → Option Text
      → Option Authorization
      → Option KeyRegistry
      → Option Text
      → Attempt ReceiptFailure Bool
  unfolding check_authorization
  cross_check p pinned candidate snapshot recomputed (some name) (some authorization) keys time =
      or_raise replay_body_missing keys >>= λ registry.
      check_authorization p pinned candidate snapshot recomputed authorization name time registry
      >>= λ _. returned true
  cross_check p pinned candidate snapshot recomputed _ _ keys time = returned false

  -- `gate.evaluate`, and its result against the recorded one
  unfoldable pub recompute_decision :
      ReceiptPayload → LoadedRulebook → Fields → Snapshot → Attempt ReceiptFailure EvaluationResult
  unfolding recompute canonical_text
  recompute_decision p pinned candidate snapshot =
      raised_as not_authorized (recompute host pinned candidate snapshot) >>= λ r.
      raised_as not_authorized (canonical_text (result_document r)) >>= λ recomputed.
      raised_as not_authorized (canonical_text p.result) >>= λ recorded.
      require (text_eq recomputed recorded) replay_result_mismatch >>= λ _.
      returned (record { canonical = recomputed; outcome = r.outcome })

  -- The bodies against what the receipt records of them.
  unfoldable pub match_bodies :
      ReceiptPayload → Text → Fields → Snapshot → Attempt ReceiptFailure (LoadedRulebook × Snapshot)
  unfolding digest
  match_bodies p source candidate snapshot = load_rulebook source >>= λ pinned.
      require
        (text_eq pinned.digest p.rulebook.digest
          && text_eq pinned.value.rulebook_id p.rulebook.rulebook_id
          && text_eq pinned.value.version p.rulebook.version)
        replay_body_mismatch
      >>= λ _. raised_as not_authorized (digest host (dict candidate)) >>= λ candidate_digest.
          require (text_eq candidate_digest p.candidate_digest) replay_body_mismatch >>= λ _.
          accept_snapshot pinned snapshot >>= λ frozen.
          require (text_eq frozen.snapshot_digest p.evidence_digest) replay_body_mismatch >>= λ _.
          returned (pinned, frozen)

  -- `replay_receipt`
  unfoldable pub replay_receipt :
      Receipt
      → Option Text
      → Option Fields
      → Option Snapshot
      → KeyRegistry
      → Option Authorization
      → Option KeyRegistry
      → Option Text
      → Attempt ReceiptFailure ReplayVerification
  unfolding timeline_anomalies
  replay_receipt value rulebook_source candidate_body snapshot_body receipt_keys authorization
        authorization_keys verification_time =
      let p = value.payload in
      verify_receipt host reader.receipt_conforms receipt_keys value >>= λ verified.
      body rulebook_source >>= λ source. body candidate_body >>= λ candidate.
      body snapshot_body >>= λ snapshot. match_bodies p source candidate snapshot >>= λ matched.
      recompute_decision p matched.0 candidate matched.1 >>= λ recomputed.
      cross_check p matched.0 candidate matched.1 recomputed p.authorization_id authorization
        authorization_keys verification_time
      >>= λ authorization_verified. returned (record {
        receipt_id = verified.receipt_id;
        outcome = verified.outcome;
        authorization_verified = authorization_verified;
        recomputed_canonical = recomputed.canonical;
        anomalies = timeline_anomalies p snapshot authorization;
      })
