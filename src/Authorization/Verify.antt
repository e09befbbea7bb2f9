-- ===== src/Authorization/Verify.antt =====
-- `verify_authorization` of vfy/authorization.py, for arguments of the types it asks for.
use verify_run.Base.{ℕ, Bool, false, not, Option, none, some, List, Text, text_eq, text_mem}
use verify_run.Base.Int.{ℤ, pos, ltb_ℤ, leb_ℤ, eq_ℤ, div_ℤ, times_ℤ, ◌+ℤ◌}
use verify_run.Base.Attempt.{Attempt, returned, require, or_raise, ◌>>=◌}
use verify_run.Authorization.{
  Payload, Authorization, FrozenAuthorization, EvaluationResult, Host, Failure, signing_key_invalid,
  authorization_schema_invalid, signing_key_unknown, signature_invalid, binding_mismatch, expired,
  nonce_reused, outcome_ineligible, not_yet_valid, digest, signing_bytes, decode_signature,
  recompute, canonical_text, freeze, instant_at, is_allow, ttl_of, bind,
}
use verify_run.Authorization.Registry.{KeyRegistry, find_key, check_key_status}
use verify_run.Gate.Document.{result_document}
use verify_run.Instant.{nanos_per_second}
use verify_run.Rulebook.{LoadedRulebook}
use verify_run.Snapshot.{Snapshot}
use verify_run.Value.{Fields, dict}

-- `expected_expiry`
unfoldable pub expected_expiry : ℤ → ℕ → ℤ
expected_expiry issued ttl = times_ℤ (div_ℤ issued nanos_per_second +ℤ pos ttl) nanos_per_second

-- `verification_time`, if one is supplied.
unfoldable pub check_now : Option Text → ℤ → ℤ → Attempt Failure (Unit {0})
unfolding instant_at
check_now none issued expires = returned tt
check_now (some verification_time) issued expires = instant_at verification_time >>= λ now.
    require (not (ltb_ℤ now issued)) not_yet_valid >>= λ _.
    require (not (leb_ℤ expires now)) expired

-- The validity interval.
unfoldable pub check_interval : Payload → Snapshot → ℕ → Option Text → Attempt Failure (Unit {0})
unfolding instant_at expected_expiry check_now
check_interval p snapshot ttl verification_time = instant_at p.issued_at >>= λ issued.
    instant_at p.expires_at >>= λ expires. instant_at snapshot.payload.frozen_at >>= λ frozen.
    require (not (ltb_ℤ issued frozen)) not_yet_valid >>= λ _.
    require (not (leb_ℤ expires issued)) expired >>= λ _.
    require (eq_ℤ expires (expected_expiry issued ttl)) binding_mismatch >>= λ _.
    check_now verification_time issued expires

-- `consumed_nonces`, if there is such a view.
abbrev pub consumed : Option (List Text) → Text → Bool
consumed none nonce = false
consumed (some nonces) nonce = text_mem nonce nonces

module _ (host : Host) where
  unfoldable pub check_signature : KeyRegistry → Bool → Authorization → Attempt Failure (Unit {0})
  unfolding find_key check_key_status decode_signature signing_bytes
  check_signature keys historical value =
      or_raise signing_key_unknown (find_key value.identity keys) >>= λ entry.
      check_key_status entry.status historical >>= λ _.
      decode_signature host value.signature >>= λ signature.
      signing_bytes host value.payload >>= λ bytes.
      require (host.usable entry.public_key) signing_key_invalid >>= λ _.
      require (host.verify entry.public_key signature bytes) signature_invalid

  unfoldable pub check_bindings :
      Payload
      → LoadedRulebook
      → Fields
      → Snapshot
      → EvaluationResult
      → Text
      → Attempt Failure (Unit {0})
  unfolding digest recompute canonical_text
  check_bindings p pinned candidate snapshot result runtime_id =
      bind p.rulebook_digest pinned.digest >>= λ _.
      digest host (dict candidate) >>= λ action_digest. bind p.action_digest action_digest >>= λ _.
      bind p.evidence_digest snapshot.snapshot_digest >>= λ _.
      recompute host pinned candidate snapshot >>= λ recomputed.
      canonical_text (result_document recomputed) >>= λ canonical.
      require (text_eq canonical result.canonical) binding_mismatch >>= λ _.
      require (is_allow recomputed.outcome) outcome_ineligible >>= λ _. bind p.runtime_id runtime_id

  -- `verify_authorization`
  unfoldable pub verify_authorization :
      Authorization
      → LoadedRulebook
      → Fields
      → Snapshot
      → EvaluationResult
      → Text
      → Option Text
      → KeyRegistry
      → Option (List Text)
      → Bool
      → Attempt Failure FrozenAuthorization
  unfolding check_signature check_bindings check_interval freeze
  verify_authorization value pinned candidate snapshot result runtime_id verification_time keys
        consumed_nonces historical =
      require (host.conforms value) authorization_schema_invalid >>= λ _.
      check_signature keys historical value >>= λ _.
      check_bindings value.payload pinned candidate snapshot result runtime_id >>= λ _.
      check_interval value.payload snapshot (ttl_of pinned.value.ttl_seconds) verification_time
      >>= λ _. require (not (consumed consumed_nonces value.payload.nonce)) nonce_reused >>= λ _.
          freeze value
