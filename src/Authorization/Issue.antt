-- ===== src/Authorization/Issue.antt =====
-- `issue_authorization` of vfy/authorization.py, for arguments of the types it asks for.
use verify_run.Base.{not, Text, length, ◌==◌}
use verify_run.Base.Int.{ltb_ℤ}
use verify_run.Base.Attempt.{Attempt, returned, require, or_raise, ◌>>=◌}
use verify_run.Authorization.{
  Bytes, Identity, Payload, Authorization, FrozenAuthorization, EvaluationResult, Host, Failure,
  signing_key_invalid, authorization_schema_invalid, outcome_ineligible, not_yet_valid,
  not_a_date_time, digest, signing_bytes, freeze, instant_at, is_allow, ttl_of,
}
use verify_run.Instant.Render.{add_seconds}
use verify_run.Rulebook.{LoadedRulebook}
use verify_run.Snapshot.{Snapshot}
use verify_run.Value.{Fields, dict}

-- What a caller asks to be issued.
pub record Request : Type 0 where
  pub authorization_id : Text
  pub nonce : Text
  pub runtime_id : Text
  pub issued_at : Text
  pub identity : Identity

module _ (host : Host) where
  -- Up to the interval: the private key's length, the outcome and the order of the instants.
  unfoldable pub check_request :
      Request → Bytes → EvaluationResult → Snapshot → Attempt Failure (Unit {0})
  unfolding instant_at
  check_request request private_key result snapshot =
      require (length private_key == 32) signing_key_invalid >>= λ _.
      require (is_allow result.outcome) outcome_ineligible >>= λ _.
      instant_at request.issued_at >>= λ issued. instant_at snapshot.payload.frozen_at >>= λ frozen.
      require (not (ltb_ℤ issued frozen)) not_yet_valid

  -- `payload`
  unfoldable pub issued_payload :
      Request → LoadedRulebook → Fields → Snapshot → Attempt Failure Payload
  unfolding digest
  issued_payload request pinned candidate snapshot =
      or_raise not_a_date_time (add_seconds request.issued_at (ttl_of pinned.value.ttl_seconds))
      >>= λ expires_at. digest host (dict candidate) >>= λ action_digest. returned (record {
        authorization_id = request.authorization_id;
        nonce = request.nonce;
        issued_at = request.issued_at;
        expires_at = expires_at;
        runtime_id = request.runtime_id;
        action_digest = action_digest;
        rulebook_digest = pinned.digest;
        evidence_digest = snapshot.snapshot_digest;
      })

  abbrev pub signed : Request → Payload → Bytes → Authorization
  signed request payload signature = record {
    payload = payload;
    identity = request.identity;
    signature = host.b64encode signature;
  }

  unfoldable pub sign_and_freeze : Request → Bytes → Payload → Attempt Failure FrozenAuthorization
  unfolding signing_bytes freeze
  sign_and_freeze request private_key payload = signing_bytes host payload >>= λ bytes.
      or_raise signing_key_invalid (host.sign private_key bytes) >>= λ signature.
      require (host.conforms (signed request payload signature)) authorization_schema_invalid
      >>= λ _. freeze (signed request payload signature)

  -- `issue_authorization`
  unfoldable pub issue_authorization :
      LoadedRulebook
      → Fields
      → Snapshot
      → EvaluationResult
      → Request
      → Bytes
      → Attempt Failure FrozenAuthorization
  unfolding check_request issued_payload sign_and_freeze
  issue_authorization pinned candidate snapshot result request private_key =
      check_request request private_key result snapshot >>= λ _.
      issued_payload request pinned candidate snapshot >>= λ payload.
      sign_and_freeze request private_key payload
