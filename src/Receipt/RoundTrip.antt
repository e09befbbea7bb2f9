-- ===== src/Receipt/RoundTrip.antt =====
-- `issue_receipt` and `replay_receipt` of vfy/receipt.py, one after the other.
use verify_run.Base.{
  ◌≡◌, refl, sym, ap, ◌∙◌, false, Option, none, some, Text, codes, text_eq, text_eq_refl,
}
use verify_run.Base.Attempt.{returned}
use verify_run.Authorization.{
  Bytes, FrozenAuthorization, Host, canonical_text, decode_signature, recompute,
}
use verify_run.Authorization.Registry.{KeyRegistry, Key, find_key, check_key_status, is_status}
use verify_run.Authorization.RoundTrip.{Lawful}
use verify_run.Gate.Document.{outcome_text, result_document}
use verify_run.Receipt.{
  FrozenReceipt, Decision, Execution, ReceiptRequest, replay_mode, is_present, recorded_outcome,
  check_receipt_signature, verify_receipt, issue_receipt, named,
}
use verify_run.Receipt.Replay.{
  Reader, load_rulebook, accept_snapshot, cross_check, recompute_decision, match_bodies,
  replay_receipt, timeline_anomalies,
}
use verify_run.Receipt.Issued.{IssuedReceipt, issue_receipt-Issued}
use verify_run.Rulebook.{LoadedRulebook}
use verify_run.Snapshot.{Snapshot}
use verify_run.Value.{Fields, dict}
use verify_run.Walk.{Result}

is_present-named : (a : Option FrozenAuthorization) → is_present (named a) ≡ is_present a
is_present-named none = refl
is_present-named (some a) = refl

module _ (host : Host) (reader : Reader) (source : Text) (pinned : LoadedRulebook)
    (candidate : Fields) (snapshot : Snapshot) (decision : Decision)
    (authorization : Option FrozenAuthorization) (execution : Option Execution)
    (request : ReceiptRequest) (private_key : Bytes) (f : FrozenReceipt) (keys : KeyRegistry)
    (key : Key) (r : Result) where
  signature-passes :
      IssuedReceipt host reader.receipt_conforms pinned candidate snapshot decision authorization
        execution request private_key f
      → find_key request.identity keys ≡ some key
      → key.status ≡ codes "active"
      → Lawful host private_key key.public_key
      → check_receipt_signature host reader.receipt_conforms keys f.value ≡ returned tt
  unfolding check_receipt_signature check_key_status is_status decode_signature text_eq
  signature-passes i found active lawful =
      rw
        (
          i.is_identity,
          found,
          active,
          i.is_signature,
          lawful.b64 i.signature,
          text_eq_refl (host.b64encode i.signature),
          i.signing,
          lawful.is_usable,
          lawful.signs i.bytes i.signature i.signature_made,
        )
        refl

  receipt-passes :
      IssuedReceipt host reader.receipt_conforms pinned candidate snapshot decision authorization
        execution request private_key f
      → find_key request.identity keys ≡ some key
      → key.status ≡ codes "active"
      → Lawful host private_key key.public_key
      → recorded_outcome decision.value ≡ some (outcome_text decision.outcome)
      → verify_receipt host reader.receipt_conforms keys f.value
        ≡ returned (record {
          receipt_id = request.receipt_id;
          outcome = outcome_text decision.outcome;
          identity = request.identity;
          mode = replay_mode;
        })
  unfolding verify_receipt
  receipt-passes i found active lawful outcome =
      let mode : f.value.payload.mode ≡ replay_mode = ap (λ p. p.mode) i.is_payload in
      let result : f.value.payload.result ≡ decision.value = ap (λ p. p.result) i.is_payload in
      let id : f.value.payload.receipt_id ≡ request.receipt_id =
        ap (λ p. p.receipt_id) i.is_payload in
      let named_same : is_present f.value.payload.authorization_id ≡ is_present authorization =
        ap (λ p. is_present p.authorization_id) i.is_payload ∙ is_present-named authorization in
      let executed : is_present f.value.payload.execution ≡ is_present execution =
        ap (λ p. is_present p.execution) i.is_payload in
      rw
        (
          i.conforming,
          signature-passes i found active lawful,
          mode,
          text_eq_refl replay_mode,
          result,
          outcome,
          i.is_outcome,
          named_same,
          executed,
          i.shape,
          id,
          i.is_identity,
        )
        refl

  bodies-match :
      IssuedReceipt host reader.receipt_conforms pinned candidate snapshot decision authorization
        execution request private_key f
      → load_rulebook host reader source ≡ returned pinned
      → accept_snapshot host reader pinned snapshot ≡ returned snapshot
      → match_bodies host reader f.value.payload source candidate snapshot
        ≡ returned (pinned, snapshot)
  unfolding match_bodies
  bodies-match i loaded accepted =
      let rulebook : f.value.payload.rulebook.digest ≡ pinned.digest =
        ap (λ p. p.rulebook.digest) i.is_payload in
      let id : f.value.payload.rulebook.rulebook_id ≡ pinned.value.rulebook_id =
        ap (λ p. p.rulebook.rulebook_id) i.is_payload in
      let version : f.value.payload.rulebook.version ≡ pinned.value.version =
        ap (λ p. p.rulebook.version) i.is_payload in
      let action : f.value.payload.candidate_digest ≡ i.candidate_digest =
        ap (λ p. p.candidate_digest) i.is_payload in
      let evidence : f.value.payload.evidence_digest ≡ snapshot.snapshot_digest =
        ap (λ p. p.evidence_digest) i.is_payload in
      rw
        (
          loaded,
          rulebook,
          id,
          version,
          text_eq_refl pinned.digest,
          text_eq_refl pinned.value.rulebook_id,
          text_eq_refl pinned.value.version,
          i.action,
          action,
          text_eq_refl i.candidate_digest,
          accepted,
          evidence,
          text_eq_refl snapshot.snapshot_digest,
        )
        refl

  decision-recomputes :
      f.value.payload.result ≡ result_document r
      → recompute host pinned candidate snapshot ≡ returned r
      → canonical_text (result_document r) ≡ returned decision.canonical
      → recompute_decision host reader f.value.payload pinned candidate snapshot
        ≡ returned (record { canonical = decision.canonical; outcome = r.outcome })
  unfolding recompute_decision
  decision-recomputes recorded evaluated written =
      rw (evaluated, recorded, written, text_eq_refl decision.canonical) refl

  pub issue_receipt-replay_receipt :
      issue_receipt host reader.receipt_conforms pinned candidate snapshot decision authorization
          execution request private_key
        ≡ returned f
      → find_key request.identity keys ≡ some key
      → key.status ≡ codes "active"
      → Lawful host private_key key.public_key
      → load_rulebook host reader source ≡ returned pinned
      → accept_snapshot host reader pinned snapshot ≡ returned snapshot
      → recompute host pinned candidate snapshot ≡ returned r
      → decision.value ≡ result_document r
      → decision.outcome ≡ r.outcome
      → canonical_text (result_document r) ≡ returned decision.canonical
      → replay_receipt host reader f.value
          (some source)
          (some candidate)
          (some snapshot)
          keys
          none
          none
          none
        ≡ returned (record {
          receipt_id = request.receipt_id;
          outcome = outcome_text r.outcome;
          authorization_verified = false;
          recomputed_canonical = decision.canonical;
          anomalies = timeline_anomalies f.value.payload snapshot none;
        })
  unfolding replay_receipt cross_check verify_run.Value.get text_eq
  issue_receipt-replay_receipt h found active lawful loaded accepted evaluated same_value
        same_outcome written =
      let i =
        issue_receipt-Issued host reader.receipt_conforms pinned candidate snapshot decision
          authorization execution request private_key f h in
      let outcome : recorded_outcome decision.value ≡ some (outcome_text decision.outcome) =
        ap recorded_outcome same_value ∙ ap (λ o. some (outcome_text o)) (sym same_outcome) in
      let recorded : f.value.payload.result ≡ result_document r =
        ap (λ p. p.result) i.is_payload ∙ same_value in
      rw
        (
          receipt-passes i found active lawful outcome,
          bodies-match i loaded accepted,
          decision-recomputes recorded evaluated written,
          cross_check-none f.value.payload.authorization_id,
          same_outcome,
        )
        refl
    where
      cross_check-none :
          (name : Option Text)
          → cross_check host reader f.value.payload pinned candidate snapshot
              (record { canonical = decision.canonical; outcome = r.outcome })
              name
              none
              none
              none
            ≡ returned false
      cross_check-none none = refl
      cross_check-none (some n) = refl
