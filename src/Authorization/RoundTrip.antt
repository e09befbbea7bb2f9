-- ===== src/Authorization/RoundTrip.antt =====
-- `issue_authorization` and `verify_authorization` of vfy/authorization.py, one after the other.
use verify_run.Base.{
  ◌≡◌, refl, sym, ◌∙◌, ap, subst, ℕ, ◌*◌, ◌≤◌, true, false, not, Option, none, some, List, Text,
  codes, text_eq, text_eq_refl, arith,
}
use verify_run.Base.Int.{ℤ, pos, ◌+ℤ◌, ◌≤ℤ◌, ltb_ℤ, leb_ℤ, eq_ℤ, div_ℤ, +ℤ_parts}
use verify_run.Base.Attempt.{returned}
use verify_run.Authorization.{
  Bytes, Payload, FrozenAuthorization, EvaluationResult, Host, decode_signature, recompute,
  canonical_text, instant_at, ttl_of,
}
use verify_run.Authorization.Registry.{KeyRegistry, Key, find_key, check_key_status, is_status}
use verify_run.Authorization.Issue.{Request, signed, issue_authorization}
use verify_run.Authorization.Verify.{
  expected_expiry, check_now, check_interval, consumed, check_signature, check_bindings,
  verify_authorization,
}
use verify_run.Authorization.Sound.{instant_at-some}
use verify_run.Authorization.Interval.{
  ◌<ℤ◌, Within, second_of-expected_expiry, expected_expiry-bounds,
}
use verify_run.Gate.Document.{result_document}
use verify_run.Instant.{instant, nanos_per_second}
use verify_run.Instant.Render.{civil_from_days}
use verify_run.Instant.RoundTrip.{second_of, instant-add_seconds}
use verify_run.Rulebook.{LoadedRulebook}
use verify_run.Snapshot.{Snapshot}
use verify_run.Value.{Fields}
use verify_run.Walk.{Result}
use verify_run.Authorization.Issued.{Issued, issue_authorization-Issued}
use verify_run.Authorization.Spending.{freeze-inv}

-- What base64 and Ed25519 promise: what is encoded decodes to the same bytes, and what a private key
-- signs verifies under its public key.
pub record Lawful (host : Host) (private_key public_key : Bytes) : Type 0 where
  pub b64 : (raw : Bytes) → host.b64decode (host.b64encode raw) ≡ some raw
  pub is_usable : host.usable public_key ≡ true
  pub signs :
      (bytes signature : Bytes)
      → host.sign private_key bytes ≡ some signature
      → host.verify public_key signature bytes ≡ true

module _ (host : Host) (pinned : LoadedRulebook) (candidate : Fields) (snapshot : Snapshot)
    (result : EvaluationResult) (request : Request) (private_key : Bytes) (f : FrozenAuthorization)
    (i : Issued host pinned candidate snapshot result request private_key f) where
  signature-passes :
      (keys : KeyRegistry) (key : Key)
      → find_key request.identity keys ≡ some key
      → key.status ≡ codes "active"
      → Lawful host private_key key.public_key
      → check_signature host keys false (signed host request i.payload i.signature) ≡ returned tt
  unfolding check_signature check_key_status is_status decode_signature text_eq
  signature-passes keys key found active lawful =
      rw
        (
          found,
          active,
          lawful.b64 i.signature,
          text_eq_refl (host.b64encode i.signature),
          i.signing,
          lawful.is_usable,
          lawful.signs i.bytes i.signature i.signature_made,
        )
        refl

  bindings-pass :
      (r : Result)
      → recompute host pinned candidate snapshot ≡ returned r
      → canonical_text (result_document r) ≡ returned result.canonical
      → r.outcome ≡ result.outcome
      → check_bindings host i.payload pinned candidate snapshot result request.runtime_id
        ≡ returned tt
  unfolding check_bindings
  bindings-pass r evaluated same_text same_outcome =
      rw
        (
          i.is_payload,
          text_eq_refl pinned.digest,
          i.action,
          text_eq_refl i.action_digest,
          text_eq_refl snapshot.snapshot_digest,
          evaluated,
          same_text,
          text_eq_refl result.canonical,
          same_outcome,
          i.allowed,
          text_eq_refl request.runtime_id,
        )
        refl

instant_at-returned : (t : Text) (z : ℤ) → instant t ≡ some z → instant_at t ≡ returned z
unfolding instant_at
instant_at-returned t z h = rw h refl

check_now-passes :
    (time : Option Text) (issued expires : ℤ)
    → Within time issued expires
    → check_now time issued expires ≡ returned tt
unfolding check_now
check_now-passes none issued expires w = refl
check_now-passes (some t) issued expires (now, at, begun, running) =
    rw (instant_at-returned t now at, begun_lem, running_lem) refl
  where
    begun_lem : not (ltb_ℤ now issued) ≡ true
    begun_lem = ground arith

    running_lem : not (leb_ℤ expires now) ≡ true
    running_lem = ground arith

-- A lifetime of at least one second leaves an interval.
begins_before :
    (issued : ℤ) (ttl : ℕ) → 1 ≤ ttl → not (leb_ℤ (expected_expiry issued ttl) issued) ≡ true
begins_before issued ttl h = later (expected_expiry issued ttl) issued (
    omega (
      arith,
      h,
      (expected_expiry-bounds issued ttl).1,
      +ℤ_parts issued (pos (ttl * nanos_per_second)),
      +ℤ_parts (expected_expiry issued ttl) (pos nanos_per_second),
    ))
  where
    later : (a b : ℤ) → b <ℤ a → not (leb_ℤ a b) ≡ true
    later a b k = ground arith

eq_ℤ_refl : (a : ℤ) → eq_ℤ a a ≡ true
eq_ℤ_refl a = ground arith

check_interval-passes :
    (p : Payload) (snapshot : Snapshot) (ttl : ℕ) (time : Option Text) (issued frozen : ℤ)
    → instant p.issued_at ≡ some issued
    → instant p.expires_at ≡ some (expected_expiry issued ttl)
    → instant snapshot.payload.frozen_at ≡ some frozen
    → not (ltb_ℤ issued frozen) ≡ true
    → 1 ≤ ttl
    → Within time issued (expected_expiry issued ttl)
    → check_interval p snapshot ttl time ≡ returned tt
unfolding check_interval
check_interval-passes p snapshot ttl time issued frozen i e f after lives within =
    rw
      (
        instant_at-returned p.issued_at issued i,
        instant_at-returned p.expires_at (expected_expiry issued ttl) e,
        instant_at-returned snapshot.payload.frozen_at frozen f,
        after,
        begins_before issued ttl lives,
        eq_ℤ_refl (expected_expiry issued ttl),
        check_now-passes time issued (expected_expiry issued ttl) within,
      )
      refl

-- The years that the four digits of a date-time can say, at a number of seconds from 1970-01-01.
abbrev pub Writable : ℤ → Type 0
Writable total =
    (pos 0 ≤ℤ div_ℤ total 86400 +ℤ pos 719468)
    × ((civil_from_days (div_ℤ total 86400)).year ≤ℤ pos 9999)

module _ (host : Host) (pinned : LoadedRulebook) (candidate : Fields) (snapshot : Snapshot)
    (result : EvaluationResult) (request : Request) (private_key : Bytes)
    (f : FrozenAuthorization) where
  expires_at-expected :
      (i : Issued host pinned candidate snapshot result request private_key f)
      → Writable (second_of i.issued (ttl_of pinned.value.ttl_seconds))
      → instant i.expires_at ≡ some (expected_expiry i.issued (ttl_of pinned.value.ttl_seconds))
  expires_at-expected i (low, high) =
      let (t, made, reads) =
        instant-add_seconds request.issued_at (ttl_of pinned.value.ttl_seconds) i.issued
          (instant_at-some request.issued_at i.issued i.issued_read) low high in
      rw (some-injective (sym i.expiry ∙ made))
        (reads ∙ ap some (second_of-expected_expiry i.issued (ttl_of pinned.value.ttl_seconds)))
    where
      some-injective : {a b : Text} → some a ≡ some b → a ≡ b
      some-injective {a} e = ap (λ o. elim o [ some x ↦ x | none ↦ a ]) e

  -- An authorization that is issued for a result that the gate recomputes verifies and comes back the
  -- same, for as long as the rulebook's lifetime says: under an active key of the registry for which
  -- the signer's is the private one, with a nonce that is not consumed, where the lifetime is at
  -- least a second and the expiry's year has at most four digits.
  pub issue_authorization-verify_authorization :
      (keys : KeyRegistry) (key : Key) (r : Result) (time : Option Text)
      (nonces : Option (List Text)) (issued : ℤ)
      → issue_authorization host pinned candidate snapshot result request private_key ≡ returned f
      → find_key request.identity keys ≡ some key
      → key.status ≡ codes "active"
      → Lawful host private_key key.public_key
      → recompute host pinned candidate snapshot ≡ returned r
      → canonical_text (result_document r) ≡ returned result.canonical
      → r.outcome ≡ result.outcome
      → instant request.issued_at ≡ some issued
      → Writable (second_of issued (ttl_of pinned.value.ttl_seconds))
      → 1 ≤ ttl_of pinned.value.ttl_seconds
      → Within time issued (expected_expiry issued (ttl_of pinned.value.ttl_seconds))
      → consumed nonces request.nonce ≡ false
      → verify_authorization host f.value pinned candidate snapshot result request.runtime_id time
          keys nonces false
        ≡ returned f
  unfolding verify_authorization
  issue_authorization-verify_authorization keys key r time nonces issued h found active lawful
        evaluated same_text same_outcome at writable lives within fresh =
      let i =
        issue_authorization-Issued host pinned candidate snapshot result request private_key f h in
      let same : i.issued ≡ issued =
        some-injective (sym (instant_at-some request.issued_at i.issued i.issued_read) ∙ at) in
      let interval =
        check_interval-passes i.payload snapshot (ttl_of pinned.value.ttl_seconds) time i.issued
          i.frozen (rw i.is_payload (instant_at-some request.issued_at i.issued i.issued_read))
          (rw i.is_payload (expires_at-expected i (rw same writable)))
          (instant_at-some snapshot.payload.frozen_at i.frozen i.frozen_read) i.after_freeze lives
          (rw same within) in
      subst
        (λ v.
          verify_authorization host v pinned candidate snapshot result request.runtime_id time keys
            nonces false
          ≡ returned f)
        (sym (freeze-inv (signed host request i.payload i.signature) f i.frozen_text).0)
        (rw
          (
            i.conforming,
            signature-passes host pinned candidate snapshot result request private_key f i keys key
                found active lawful,
            bindings-pass host pinned candidate snapshot result request private_key f i r evaluated
                same_text same_outcome,
            interval,
            fresh_lem i,
          )
          i.frozen_text)
    where
      some-injective : {a b : ℤ} → some a ≡ some b → a ≡ b
      some-injective {a} e = ap (λ o. elim o [ some x ↦ x | none ↦ a ]) e

      fresh_lem :
          (i : Issued host pinned candidate snapshot result request private_key f)
          → consumed nonces i.payload.nonce ≡ false
      fresh_lem i = rw i.is_payload fresh
