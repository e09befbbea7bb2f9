-- ===== src/Receipt.antt =====
-- vfy/receipt.py: what a receipt is, `issue_receipt` and `verify_receipt`, for arguments of the types
-- that they ask for. Cryptography and the receipt's schema are parameters.
pub mod Replay
pub mod Signed
pub mod Replayed
pub mod Issued
pub mod RoundTrip
use verify_run.Base.{
  ℕ, Bool, true, false, not, ◌&&◌, ◌||◌, Option, none, some, Text, codes, text_eq, length, ◌==◌,
}
use verify_run.Base.Attempt.{Attempt, raised, returned, require, or_raise, raised_as, ◌>>=◌}
use verify_run.Base.Int.{ℤ}
use verify_run.Authorization.{
  Bytes, Failure, Identity, FrozenAuthorization, Host, canonical_text, decode_signature, digest,
  signing_key_invalid, signing_key_unknown, signature_invalid,
}
use verify_run.Authorization.Registry.{KeyRegistry, find_key, check_key_status}
use verify_run.Gate.Document.{outcome_text, optional_field}
use verify_run.Rulebook.{LoadedRulebook, LoadFailure}
use verify_run.Snapshot.{Snapshot, Rejection}
use verify_run.Value.{Value, bool, int, str, dict, Fields, end, field, get}
use verify_run.Walk.{Outcome}

-- The exceptions: those of this file, and those of the calls it makes.
pub data ReceiptFailure : Type 0 where
  receipt_schema_invalid receipt_outcome_ineligible receipt_binding_mismatch : ReceiptFailure
  replay_body_mismatch replay_body_missing replay_result_mismatch : ReceiptFailure
  not_authorized : Failure → ReceiptFailure
  not_loaded : LoadFailure → ReceiptFailure
  not_accepted : Rejection → ReceiptFailure

-- `execution`: the members that the schema declares, none of them required.
pub record Execution : Type 0 where
  pub acknowledged : Option Bool
  pub acknowledged_at : Option Text
  pub exit_status : Option ℤ
  pub note : Option Text

pub record RecordedRulebook : Type 0 where
  pub rulebook_id : Text
  pub version : Text
  pub digest : Text

-- The signed payload; `spec_version` is the constant SPEC_VERSION, which the schema requires.
pub record ReceiptPayload : Type 0 where
  pub receipt_id : Text
  pub created_at : Text
  pub rulebook : RecordedRulebook
  pub candidate_digest : Text
  pub evidence_digest : Text
  pub result : Value
  pub mode : Text
  pub authorization_id : Option Text
  pub execution : Option Execution

pub record Receipt : Type 0 where
  pub payload : ReceiptPayload
  pub identity : Identity
  pub signature : Text

-- `FrozenReceipt`, with the value that `value()` reads back from its canonical text.
pub record FrozenReceipt : Type 0 where
  pub canonical : Text
  pub value : Receipt
  pub outcome : Outcome

-- An evaluation result, with the value that `value()` reads back from its canonical text.
pub record Decision : Type 0 where
  pub canonical : Text
  pub outcome : Outcome
  pub value : Value

abbrev optional_bool : Text → Option Bool → Fields → Fields
optional_bool name none rest = rest
optional_bool name (some b) rest = field name (bool b) rest

abbrev optional_int : Text → Option ℤ → Fields → Fields
optional_int name none rest = rest
optional_int name (some z) rest = field name (int z) rest

abbrev pub execution_value : Execution → Value
execution_value e = dict (
    optional_bool (codes "acknowledged") e.acknowledged (
      optional_field (codes "acknowledged_at") e.acknowledged_at (
        optional_field (codes "note") e.note
          (optional_int (codes "exit_status") e.exit_status end))))

abbrev optional_execution : Option Execution → Fields → Fields
optional_execution none rest = rest
optional_execution (some e) rest = field (codes "execution") (execution_value e) rest

-- `payload`
abbrev pub receipt_fields : ReceiptPayload → Fields → Fields
receipt_fields p rest = field (codes "receipt_id") (str p.receipt_id) (
    field (codes "spec_version") (str (codes "1")) (
      field (codes "created_at") (str p.created_at) (
        field (codes "rulebook")
          (dict (
            field (codes "rulebook_id") (str p.rulebook.rulebook_id) (
              field (codes "version") (str p.rulebook.version)
                (field (codes "digest") (str p.rulebook.digest) end))))
          (field (codes "candidate_digest") (str p.candidate_digest) (
            field (codes "evidence_digest") (str p.evidence_digest) (
              field (codes "result") p.result (
                field (codes "replay") (dict (field (codes "mode") (str p.mode) end)) (
                  optional_field (codes "authorization_id") p.authorization_id
                    (optional_execution p.execution rest)))))))))

-- `completed`
abbrev pub completed_receipt : Receipt → Value
completed_receipt r = dict (
    receipt_fields r.payload (
      field (codes "signature")
        (dict (
          field (codes "alg") (str (codes "ed25519")) (
            field (codes "key_id") (str r.identity.key_id) (
              field (codes "key_version") (int r.identity.key_version)
                (field (codes "value") (str r.signature) end)))))
        end))

-- REPLAY_MODE
abbrev pub replay_mode : Text
replay_mode = codes "recompute-decision"

-- `outcome in DECISION_OUTCOMES`
unfoldable pub is_decision : Text → Bool
is_decision outcome =
    text_eq outcome (codes "ALLOW")
    || text_eq outcome (codes "BLOCK")
    || text_eq outcome (codes "HOLD")

abbrev pub is_present {ℓ} : {A : Type ℓ} → Option A → Bool
is_present none = false
is_present (some a) = true

-- `_check_shape_for_outcome`
unfoldable pub check_shape_for_outcome : Text → Bool → Bool → Attempt ReceiptFailure (Unit {0})
check_shape_for_outcome outcome authorization execution =
    let negative = text_eq outcome (codes "BLOCK") || text_eq outcome (codes "HOLD") in
    require (not (negative && authorization)) receipt_binding_mismatch >>= λ _.
    require (not (negative && execution)) receipt_binding_mismatch

-- `value["result"]["outcome"]`; the schema admits no result without one.
abbrev text_of : Option Value → Option Text
text_of (some (str t)) = some t
text_of _ = none

abbrev pub recorded_outcome : Value → Option Text
recorded_outcome (dict f) = text_of (get (codes "outcome") f)
recorded_outcome _ = none

-- `ReceiptVerification`
pub record ReceiptVerification : Type 0 where
  pub receipt_id : Text
  pub outcome : Text
  pub identity : Identity
  pub mode : Text

-- What a caller asks to be issued.
pub record ReceiptRequest : Type 0 where
  pub receipt_id : Text
  pub created_at : Text
  pub identity : Identity

abbrev named : Option FrozenAuthorization → Option Text
named none = none
named (some a) = some a.value.payload.authorization_id

module _ (host : Host) (conforms : Receipt → Bool) where
  -- `canon.canonicalize(payload).encode("utf-8")`
  unfoldable pub receipt_bytes : ReceiptPayload → Attempt ReceiptFailure Bytes
  unfolding canonical_text
  receipt_bytes p = raised_as not_authorized (canonical_text (dict (receipt_fields p end))) >>= λ t.
      returned (host.encode t)

  -- The payload of `issue_receipt`.
  unfoldable pub issued_receipt :
      LoadedRulebook
      → Fields
      → Snapshot
      → Decision
      → Option FrozenAuthorization
      → Option Execution
      → ReceiptRequest
      → Attempt ReceiptFailure ReceiptPayload
  unfolding digest
  issued_receipt pinned candidate snapshot decision authorization execution request =
      raised_as not_authorized (digest host (dict candidate)) >>= λ candidate_digest.
      returned (record {
        receipt_id = request.receipt_id;
        created_at = request.created_at;
        rulebook = record {
          rulebook_id = pinned.value.rulebook_id;
          version = pinned.value.version;
          digest = pinned.digest;
        };
        candidate_digest = candidate_digest;
        evidence_digest = snapshot.snapshot_digest;
        result = decision.value;
        mode = replay_mode;
        authorization_id = named authorization;
        execution = execution;
      })

  unfoldable pub sign_receipt :
      ReceiptRequest → Bytes → Outcome → ReceiptPayload → Attempt ReceiptFailure FrozenReceipt
  unfolding receipt_bytes canonical_text
  sign_receipt request private_key outcome payload = receipt_bytes payload >>= λ bytes.
      or_raise (not_authorized signing_key_invalid) (host.sign private_key bytes) >>= λ signature.
      let receipt : Receipt = record {
        payload = payload;
        identity = request.identity;
        signature = host.b64encode signature;
      } in
      require (conforms receipt) receipt_schema_invalid >>= λ _.
      raised_as not_authorized (canonical_text (completed_receipt receipt)) >>= λ t.
      returned (record { canonical = t; value = receipt; outcome = outcome })

  -- `issue_receipt`
  unfoldable pub issue_receipt :
      LoadedRulebook
      → Fields
      → Snapshot
      → Decision
      → Option FrozenAuthorization
      → Option Execution
      → ReceiptRequest
      → Bytes
      → Attempt ReceiptFailure FrozenReceipt
  unfolding is_decision check_shape_for_outcome issued_receipt sign_receipt
  issue_receipt pinned candidate snapshot decision authorization execution request private_key =
      require (length private_key == 32) (not_authorized signing_key_invalid) >>= λ _.
      require (is_decision (outcome_text decision.outcome)) receipt_outcome_ineligible >>= λ _.
      check_shape_for_outcome (outcome_text decision.outcome) (is_present authorization)
        (is_present execution)
      >>= λ _.
          issued_receipt pinned candidate snapshot decision authorization execution request
          >>= λ payload. sign_receipt request private_key decision.outcome payload

  -- The signature, by a key that is registered and was not revoked.
  unfoldable pub check_receipt_signature : KeyRegistry → Receipt → Attempt ReceiptFailure (Unit {0})
  unfolding find_key check_key_status decode_signature receipt_bytes
  check_receipt_signature keys value =
      or_raise (not_authorized signing_key_unknown) (find_key value.identity keys) >>= λ entry.
      raised_as not_authorized (check_key_status entry.status true) >>= λ _.
      raised_as not_authorized (decode_signature host value.signature) >>= λ signature.
      receipt_bytes value.payload >>= λ bytes.
      require (host.usable entry.public_key) (not_authorized signing_key_invalid) >>= λ _.
      require (host.verify entry.public_key signature bytes) (not_authorized signature_invalid)

  -- `verify_receipt`
  unfoldable pub verify_receipt : KeyRegistry → Receipt → Attempt ReceiptFailure ReceiptVerification
  unfolding is_decision check_shape_for_outcome
  verify_receipt keys value = require (conforms value) receipt_schema_invalid >>= λ _.
      require (text_eq value.payload.mode replay_mode) receipt_binding_mismatch >>= λ _.
      check_receipt_signature keys value >>= λ _.
      or_raise receipt_schema_invalid (recorded_outcome value.payload.result) >>= λ outcome.
      require (is_decision outcome) receipt_outcome_ineligible >>= λ _.
      check_shape_for_outcome outcome (is_present value.payload.authorization_id)
        (is_present value.payload.execution)
      >>= λ _. returned (record {
        receipt_id = value.payload.receipt_id;
        outcome = outcome;
        identity = value.identity;
        mode = value.payload.mode;
      })
