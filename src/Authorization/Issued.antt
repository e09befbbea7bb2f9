-- ===== src/Authorization/Issued.antt =====
-- The steps of `issue_authorization` of vfy/authorization.py where it returns.
use verify_run.Base.{◌≡◌, sym, true, not, some, Text, length, ◌==◌}
use verify_run.Base.Int.{ℤ, ltb_ℤ}
use verify_run.Base.Attempt.{
  returned, returned-bind, returned-require, returned-or_raise, returned-injective, require_inv,
}
use verify_run.Authorization.{
  Bytes, Payload, FrozenAuthorization, EvaluationResult, Host, digest, signing_bytes, freeze,
  instant_at, is_allow, ttl_of,
}
use verify_run.Authorization.Issue.{
  Request, check_request, issued_payload, signed, sign_and_freeze, issue_authorization,
}
use verify_run.Instant.Render.{add_seconds}
use verify_run.Rulebook.{LoadedRulebook}
use verify_run.Snapshot.{Snapshot}
use verify_run.Value.{Fields, dict}

-- What the request comes to where it is granted: the steps of issuing, one by one.
pub record Issued (host : Host) (pinned : LoadedRulebook) (candidate : Fields) (snapshot : Snapshot)
    (result : EvaluationResult) (request : Request) (private_key : Bytes) (f : FrozenAuthorization)
    : Type 0 where
  pub issued : ℤ
  pub frozen : ℤ
  pub expires_at : Text
  pub action_digest : Text
  pub bytes : Bytes
  pub signature : Bytes
  pub allowed : is_allow result.outcome ≡ true
  pub issued_read : instant_at request.issued_at ≡ returned issued
  pub frozen_read : instant_at snapshot.payload.frozen_at ≡ returned frozen
  pub after_freeze : not (ltb_ℤ issued frozen) ≡ true
  pub expiry : add_seconds request.issued_at (ttl_of pinned.value.ttl_seconds) ≡ some expires_at
  pub action : digest host (dict candidate) ≡ returned action_digest
  pub payload : Payload
  pub is_payload : payload ≡ record {
    authorization_id = request.authorization_id;
    nonce = request.nonce;
    issued_at = request.issued_at;
    expires_at = expires_at;
    runtime_id = request.runtime_id;
    action_digest = action_digest;
    rulebook_digest = pinned.digest;
    evidence_digest = snapshot.snapshot_digest;
  }
  pub signing : signing_bytes host payload ≡ returned bytes
  pub signature_made : host.sign private_key bytes ≡ some signature
  pub conforming : host.conforms (signed host request payload signature) ≡ true
  pub frozen_text : freeze (signed host request payload signature) ≡ returned f

pub issue_authorization-Issued :
    (host : Host) (pinned : LoadedRulebook) (candidate : Fields) (snapshot : Snapshot)
    (result : EvaluationResult) (request : Request) (private_key : Bytes) (f : FrozenAuthorization)
    → issue_authorization host pinned candidate snapshot result request private_key ≡ returned f
    → Issued host pinned candidate snapshot result request private_key f
unfolding issue_authorization check_request issued_payload sign_and_freeze
issue_authorization-Issued host pinned candidate snapshot result request private_key f h =
    let (t, checked, h1) =
      returned-bind (check_request host request private_key result snapshot) _ f h in
    let (payload, made, h2) =
      returned-bind (issued_payload host request pinned candidate snapshot) _ f h1 in
    let (bytes, signing, h3) = returned-bind (signing_bytes host payload) _ f h2 in
    let (signature, signature_made, h4) =
      returned-or_raise (host.sign private_key bytes) _ _ f h3 in
    let (conforming, h5) =
      returned-require (host.conforms (signed host request payload signature)) _ _ f h4 in
    let (long, c1) = returned-require (length private_key == 32) _ _ tt checked in
    let (allowed, c2) = returned-require (is_allow result.outcome) _ _ tt c1 in
    let (issued, issued_read, c3) = returned-bind (instant_at request.issued_at) _ tt c2 in
    let (frozen, frozen_read, c4) = returned-bind (instant_at snapshot.payload.frozen_at) _ tt c3 in
    let (expires_at, expiry, m1) =
      returned-or_raise (add_seconds request.issued_at (ttl_of pinned.value.ttl_seconds)) _ _
        payload made in
    let (action_digest, action, m2) = returned-bind (digest host (dict candidate)) _ payload m1 in
    record {
      issued = issued;
      frozen = frozen;
      expires_at = expires_at;
      action_digest = action_digest;
      bytes = bytes;
      signature = signature;
      allowed = allowed;
      issued_read = issued_read;
      frozen_read = frozen_read;
      after_freeze = require_inv (not (ltb_ℤ issued frozen)) _ c4;
      expiry = expiry;
      action = action;
      payload = payload;
      is_payload = sym (returned-injective m2);
      signing = signing;
      signature_made = signature_made;
      conforming = conforming;
      frozen_text = h5;
    }
