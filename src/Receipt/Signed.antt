-- ===== src/Receipt/Signed.antt =====
-- What a receipt that verifies shows: who signed it, over what, and that it records a decision.
use verify_run.Base.{◌≡◌, sym, ap, ◌∙◌, Bool, true, some, text_eq, text_eq_iff}
use verify_run.Base.Attempt.{
  returned, returned-injective, returned-bind, returned-require, returned-or_raise,
  returned-raised_as, require_inv,
}
use verify_run.Authorization.{Bytes, Host, decode_signature}
use verify_run.Authorization.Registry.{KeyRegistry, Key, find_key, check_key_status}
use verify_run.Authorization.Sound.{Trusted, check_key_status-Trusted, decode_signature-inv}
use verify_run.Receipt.{
  Receipt, ReceiptVerification, replay_mode, is_decision, is_present, recorded_outcome,
  receipt_bytes, check_receipt_signature, check_shape_for_outcome, verify_receipt,
}

module _ (host : Host) (conforms : Receipt → Bool) (keys : KeyRegistry) (value : Receipt) where
  -- The signature is that of a registered key that is not revoked, over the canonical payload.
  pub record Signed : Type 0 where
    pub key : Key
    pub signature : Bytes
    pub bytes : Bytes
    pub registered : find_key value.identity keys ≡ some key
    pub trusted : Trusted key.status true
    pub decoded : host.b64decode value.signature ≡ some signature
    pub spelled : host.b64encode signature ≡ value.signature
    pub signed_bytes : receipt_bytes host conforms value.payload ≡ returned bytes
    pub verified : host.verify key.public_key signature bytes ≡ true

  check_receipt_signature-Signed :
      check_receipt_signature host conforms keys value ≡ returned tt → Signed
  unfolding check_receipt_signature
  check_receipt_signature-Signed h =
      let (key, registered, h1) = returned-or_raise (find_key value.identity keys) _ _ tt h in
      let (t, trusted, h2) = returned-raised_as _ (check_key_status key.status true) _ tt h1 in
      let (raw, decoded, h3) =
        returned-raised_as _ (decode_signature host value.signature) _ tt h2 in
      let (bytes, signed, h4) = returned-bind (receipt_bytes host conforms value.payload) _ tt h3 in
      let (usable, h5) = returned-require (host.usable key.public_key) _ _ tt h4 in
      record {
        key = key;
        signature = raw;
        bytes = bytes;
        registered = registered;
        trusted = check_key_status-Trusted key.status true trusted;
        decoded = (decode_signature-inv host value.signature raw decoded).0;
        spelled = (decode_signature-inv host value.signature raw decoded).1;
        signed_bytes = signed;
        verified = require_inv (host.verify key.public_key raw bytes) _ h5;
      }

  -- A receipt that verifies: it is signed, and records a decision whose shape fits its outcome.
  abbrev pub VerifiedReceipt : ReceiptVerification → Type 0
  VerifiedReceipt report =
      Signed
      × (value.payload.mode ≡ replay_mode)
      × (recorded_outcome value.payload.result ≡ some report.outcome)
      × (is_decision report.outcome ≡ true)
      × (check_shape_for_outcome report.outcome (is_present value.payload.authorization_id)
            (is_present value.payload.execution)
          ≡ returned tt)
      × (report.receipt_id ≡ value.payload.receipt_id)

  pub verify_receipt-Verified :
      (report : ReceiptVerification)
      → verify_receipt host conforms keys value ≡ returned report
      → VerifiedReceipt report
  unfolding verify_receipt
  verify_receipt-Verified report h =
      let p = value.payload in
      let (conforming, h1) = returned-require (conforms value) _ _ report h in
      let (mode, h2) = returned-require (text_eq p.mode replay_mode) _ _ report h1 in
      let (t, signature, h3) =
        returned-bind (check_receipt_signature host conforms keys value) _ report h2 in
      let (outcome, recorded, h4) = returned-or_raise (recorded_outcome p.result) _ _ report h3 in
      let (decision, h5) = returned-require (is_decision outcome) _ _ report h4 in
      let (u, shape, h6) =
        returned-bind
          (check_shape_for_outcome outcome (is_present p.authorization_id) (is_present p.execution))
          _ report h5 in
      let same = returned-injective h6 in
      let outcome_same : outcome ≡ report.outcome = ap (λ r. r.outcome) same in
      (
        check_receipt_signature-Signed signature,
        (text_eq_iff p.mode replay_mode).0 mode,
        recorded ∙ ap some outcome_same,
        ap is_decision (sym outcome_same) ∙ decision,
        ap (λ o. check_shape_for_outcome o (is_present p.authorization_id) (is_present p.execution))
              (sym outcome_same)
            ∙ shape,
        ap (λ r. r.receipt_id) (sym same),
      )
