-- ===== src/Authorization/Spending.antt =====
-- An authorization that verifies: everything that it then shows, and how long it can be spent.
use verify_run.Base.{
  not-true, ◌≡◌, refl, sym, subst, ◌*◌, Bool, false, not, Option, some, List, Text, arith,
}
use verify_run.Base.Int.{ℤ, pos, ◌+ℤ◌, ◌≤ℤ◌}
use verify_run.Base.Attempt.{returned, returned-bind, returned-require, returned-injective}
use verify_run.Authorization.{
  Authorization, FrozenAuthorization, EvaluationResult, Host, canonical_text, completed, freeze,
  ttl_of,
}
use verify_run.Authorization.Registry.{KeyRegistry}
use verify_run.Authorization.Verify.{
  check_interval, consumed, check_signature, check_bindings, verify_authorization, expected_expiry,
}
use verify_run.Authorization.Sound.{
  Authentic, check_signature-Authentic, Bound, check_bindings-Bound,
}
use verify_run.Authorization.Interval.{◌<ℤ◌, Timely, check_interval-Timely, expected_expiry-bounds}
use verify_run.Instant.{instant, nanos_per_second}
use verify_run.Rulebook.{LoadedRulebook}
use verify_run.Snapshot.{Snapshot}
use verify_run.Value.{Fields}

pub freeze-inv :
    (value : Authorization) (f : FrozenAuthorization)
    → freeze value ≡ returned f
    → (f.value ≡ value) × (canonical_text (completed value) ≡ returned f.canonical)
unfolding freeze
freeze-inv value f h =
    let (t, e, h1) = returned-bind (canonical_text (completed value)) _ f h in
    let same : record { canonical = t; value = value } ≡ f = returned-injective h1 in
    (rw (sym same) refl, rw (sym same) e)

module _ (host : Host) (value : Authorization) (pinned : LoadedRulebook) (candidate : Fields)
    (snapshot : Snapshot) (result : EvaluationResult) (runtime_id : Text) (time : Option Text)
    (keys : KeyRegistry) (nonces : Option (List Text)) (historical : Bool)
    (f : FrozenAuthorization) where
  -- The signature, the bindings and the interval hold, the nonce is not consumed, and what is returned
  -- is the canonical text of the value.
  abbrev pub Verified : Type 0
  Verified =
      Authentic host keys historical value
      × Bound host value.payload pinned candidate snapshot result runtime_id
      × Timely value.payload snapshot (ttl_of pinned.value.ttl_seconds) time
      × (consumed nonces value.payload.nonce ≡ false)
      × (f.value ≡ value)
      × (canonical_text (completed value) ≡ returned f.canonical)

  -- An authorization that is verified is signed, over its payload, by a trusted key of the registry; it
  -- binds the rulebook, the action, the snapshot and the runtime at hand; those inputs come to ALLOW,
  -- which is the result supplied; it was issued after the freeze and expires when the rulebook's
  -- lifetime says; the instant asked for, if any, lies in between; and its nonce is not consumed.
  pub verify_authorization-Verified :
      verify_authorization host value pinned candidate snapshot result runtime_id time keys nonces
          historical
        ≡ returned f
      → Verified
  unfolding verify_authorization
  verify_authorization-Verified h =
      let (conforming, h1) = returned-require (host.conforms value) _ _ f h in
      let (t, signature, h2) = returned-bind (check_signature host keys historical value) _ f h1 in
      let (u, bindings, h3) =
        returned-bind
          (check_bindings host value.payload pinned candidate snapshot result runtime_id) _ f h2 in
      let (v, interval, h4) =
        returned-bind (check_interval value.payload snapshot (ttl_of pinned.value.ttl_seconds) time)
          _ f h3 in
      let (fresh, h5) = returned-require (not (consumed nonces value.payload.nonce)) _ _ f h4 in
      (
        check_signature-Authentic host keys historical value signature,
        check_bindings-Bound host value.payload pinned candidate snapshot result runtime_id
            bindings,
        check_interval-Timely value.payload snapshot (ttl_of pinned.value.ttl_seconds) time
            interval,
        not-true _ fresh,
        (freeze-inv value f h5).0,
        (freeze-inv value f h5).1,
      )

-- An authorization that is verified for an instant was issued at or before it, and less than the
-- rulebook's lifetime before it.
pub verify_authorization-lifetime :
    (host : Host) (value : Authorization) (pinned : LoadedRulebook) (candidate : Fields)
    (snapshot : Snapshot) (result : EvaluationResult) (runtime_id : Text) (time : Text)
    (keys : KeyRegistry) (nonces : Option (List Text)) (historical : Bool) (f : FrozenAuthorization)
    → verify_authorization host value pinned candidate snapshot result runtime_id
        (some time)
        keys
        nonces
        historical
      ≡ returned f
    → (issued now : ℤ) × (instant value.payload.issued_at ≡ some issued)
      × (instant time ≡ some now)
      × (issued ≤ℤ now)
      × (now <ℤ issued +ℤ pos (ttl_of pinned.value.ttl_seconds * nanos_per_second))
verify_authorization-lifetime host value pinned candidate snapshot result runtime_id time keys
      nonces historical f h =
    let shown : Verified host value pinned candidate snapshot result runtime_id (some time) keys
        nonces historical f =
      verify_authorization-Verified host value pinned candidate snapshot result runtime_id
        (some time) keys nonces historical f h in
    let timely = shown.2 in
    let (now, at, begun, running) = timely.within in
    (
      timely.issued,
      now,
      timely.issued_at,
      at,
      begun,
      lt_le now (expected_expiry timely.issued (ttl_of pinned.value.ttl_seconds)) _
          (subst (λ e. now <ℤ e) timely.derived running)
          (expected_expiry-bounds timely.issued (ttl_of pinned.value.ttl_seconds)).0,
    )
  where
    lt_le : (a b c : ℤ) → a <ℤ b → b ≤ℤ c → a <ℤ c
    lt_le a b c h k = omega arith
