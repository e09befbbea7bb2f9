-- ===== src/Receipt/Issued.antt =====
-- What stands behind a receipt that `issue_receipt` of vfy/receipt.py returns.
use verify_run.Base.{◌≡◌, sym, ap, ◌∙◌, Bool, true, Option, some, Text, length, ◌==◌}
use verify_run.Base.Attempt.{
  returned, returned-injective, returned-bind, returned-require, returned-or_raise,
  returned-raised_as,
}
use verify_run.Authorization.{Bytes, FrozenAuthorization, Host, canonical_text, digest}
use verify_run.Gate.Document.{outcome_text}
use verify_run.Receipt.{
  Receipt, FrozenReceipt, Decision, Execution, ReceiptRequest, replay_mode, is_decision, is_present,
  receipt_bytes, check_shape_for_outcome, issued_receipt, sign_receipt, issue_receipt, named,
  completed_receipt,
}
use verify_run.Rulebook.{LoadedRulebook}
use verify_run.Snapshot.{Snapshot}
use verify_run.Value.{Fields, dict}

module _ (host : Host) (conforms : Receipt → Bool) (pinned : LoadedRulebook) (candidate : Fields)
    (snapshot : Snapshot) (decision : Decision) (authorization : Option FrozenAuthorization)
    (execution : Option Execution) (request : ReceiptRequest) (private_key : Bytes)
    (f : FrozenReceipt) where
  -- What stands behind a receipt that was issued.
  pub record IssuedReceipt : Type 0 where
    pub candidate_digest : Text
    pub bytes : Bytes
    pub signature : Bytes
    pub action : digest host (dict candidate) ≡ returned candidate_digest
    pub is_outcome : is_decision (outcome_text decision.outcome) ≡ true
    pub shape :
        check_shape_for_outcome
          (outcome_text decision.outcome)
          (is_present authorization)
          (is_present execution)
        ≡ returned tt
    pub is_payload : f.value.payload ≡ record {
      receipt_id = request.receipt_id;
      created_at = request.created_at;
      rulebook = record {
        rulebook_id = pinned.value.rulebook_id;
        version = pinned.value.version;
        digest = pinned.digest;
      };
      candidate_digest = candidate_digest;
      evidence_digest = snapshot.snapshot_digest;
      result = decision.value;
      mode = replay_mode;
      authorization_id = named authorization;
      execution = execution;
    }
    pub signing : receipt_bytes host conforms f.value.payload ≡ returned bytes
    pub signature_made : host.sign private_key bytes ≡ some signature
    pub is_identity : f.value.identity ≡ request.identity
    pub is_signature : f.value.signature ≡ host.b64encode signature
    pub conforming : conforms f.value ≡ true

  pub issue_receipt-Issued :
      issue_receipt host conforms pinned candidate snapshot decision authorization execution request
          private_key
        ≡ returned f
      → IssuedReceipt
  unfolding issue_receipt issued_receipt sign_receipt
  issue_receipt-Issued h =
      let (sized, h1) = returned-require (length private_key == 32) _ _ f h in
      let (is_outcome, h2) =
        returned-require (is_decision (outcome_text decision.outcome)) _ _ f h1 in
      let (t, shape, h3) =
        returned-bind
          (check_shape_for_outcome (outcome_text decision.outcome) (is_present authorization)
            (is_present execution))
          _ f h2 in
      let (payload, made, h4) =
        returned-bind
          (issued_receipt host conforms pinned candidate snapshot decision authorization execution
            request)
          _ f h3 in
      let (d, action, h5) = returned-raised_as _ (digest host (dict candidate)) _ payload made in
      let (bytes, signing, h6) = returned-bind (receipt_bytes host conforms payload) _ f h4 in
      let (signature, signature_made, h7) =
        returned-or_raise (host.sign private_key bytes) _ _ f h6 in
      let receipt : Receipt = record {
        payload = payload;
        identity = request.identity;
        signature = host.b64encode signature;
      } in
      let (conforming, h8) = returned-require (conforms receipt) _ _ f h7 in
      let (text, written, h9) =
        returned-raised_as _ (canonical_text (completed_receipt receipt)) _ f h8 in
      let same = ap (λ r. r.value) (sym (returned-injective h9)) in
      record {
        candidate_digest = d;
        bytes = bytes;
        signature = signature;
        action = action;
        is_outcome = is_outcome;
        shape = shape;
        is_payload = ap (λ r. r.payload) same ∙ sym (returned-injective h5);
        signing = ap (λ r. receipt_bytes host conforms r.payload) same ∙ signing;
        signature_made = signature_made;
        is_identity = ap (λ r. r.identity) same;
        is_signature = ap (λ r. r.signature) same;
        conforming = ap conforms same ∙ conforming;
      }
