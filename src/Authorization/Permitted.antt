-- ===== src/Authorization/Permitted.antt =====
-- From an authorization that verifies to the rules that allow: vfy/authorization.py and vfy/gate.py.
use verify_run.Base.{◌≡◌, refl, Bool, Option, none, some, List, [], Text}
use verify_run.Base.Int.{ℤ, pos}
use verify_run.Base.Attempt.{returned, returned-or_raise, or_raise-returned}
use verify_run.Authorization.{
  Authorization, FrozenAuthorization, EvaluationResult, Host, recompute, evaluate_read, read_items,
}
use verify_run.Authorization.Registry.{KeyRegistry}
use verify_run.Authorization.Verify.{verify_authorization}
use verify_run.Authorization.Spending.{Verified, verify_authorization-Verified}
use verify_run.Context.{Item}
use verify_run.Gate.Prepared.{Permits, evaluate-Permits}
use verify_run.Instant.{instant}
use verify_run.Rulebook.{LoadedRulebook, RulebookValue}
use verify_run.Snapshot.{Snapshot}
use verify_run.Value.{Fields}
use verify_run.Walk.{Outcome, Result}

-- The rules of a rulebook permit a candidate on a snapshot, at the instants that the texts of the two
-- documents say.
pub record Permitted (host : Host) (value : RulebookValue) (candidate : Fields)
    (snapshot : Snapshot) : Type 0 where
  pub adopted_at : ℤ
  pub frozen_at : ℤ
  pub items : List Item
  pub adopted : instant value.adopted_at ≡ some adopted_at
  pub frozen : instant snapshot.payload.frozen_at ≡ some frozen_at
  pub items_read : read_items snapshot.payload.items ≡ some items
  pub permits :
      Permits host.message host.undeclared_message
        (host.candidate_failure candidate)
        (host.snapshot_failure snapshot)
        value
        adopted_at
        candidate
        items
        frozen_at

recompute-Permitted :
    (host : Host) (pinned : LoadedRulebook) (candidate : Fields) (snapshot : Snapshot) (r : Result)
    → recompute host pinned candidate snapshot ≡ returned r
    → r.outcome ≡ Outcome.allow
    → Permitted host pinned.value candidate snapshot
unfolding recompute
recompute-Permitted host pinned candidate snapshot r h allowed =
    read (host.candidate_failure candidate) (host.snapshot_failure snapshot) refl refl h
  where
    read :
        (c s : Option Text)
        → host.candidate_failure candidate ≡ c
        → host.snapshot_failure snapshot ≡ s
        → evaluate_read host c s pinned.value candidate snapshot ≡ returned r
        → Permitted host pinned.value candidate snapshot
    read none none c s q =
        let (adopted_at, adopted, q1) =
          returned-or_raise (instant pinned.value.adopted_at) _ _ r q in
        let (items, items_read, q2) =
          returned-or_raise (read_items snapshot.payload.items) _ _ r q1 in
        let (frozen_at, frozen, q3) =
          returned-or_raise (instant snapshot.payload.frozen_at) _ _ r q2 in
        let p =
          evaluate-Permits host.message host.undeclared_message none none pinned.value adopted_at
            candidate items frozen_at r (or_raise-returned _ _ r q3) allowed in
        record {
          adopted_at = adopted_at;
          frozen_at = frozen_at;
          items = items;
          adopted = adopted;
          frozen = frozen;
          items_read = items_read;
          permits = (c, s, p.2);
        }
    read (some t) s c k q = cc (
        (evaluate-Permits host.message host.undeclared_message (some t) s pinned.value (pos 0)
          candidate [] (pos 0) r (or_raise-returned _ _ r q) allowed).0)
    read none (some t) c k q = cc (
        (evaluate-Permits host.message host.undeclared_message none (some t) pinned.value (pos 0)
          candidate [] (pos 0) r (or_raise-returned _ _ r q) allowed).1)

-- No authorization verifies unless the rulebook at hand permits the action: no schema refuses the
-- candidate or the snapshot, every condition parses, and the first rule that is not false allows.
pub verify_authorization-Permitted :
    (host : Host) (value : Authorization) (pinned : LoadedRulebook) (candidate : Fields)
    (snapshot : Snapshot) (result : EvaluationResult) (runtime_id : Text) (time : Option Text)
    (keys : KeyRegistry) (nonces : Option (List Text)) (historical : Bool) (f : FrozenAuthorization)
    → verify_authorization host value pinned candidate snapshot result runtime_id time keys nonces
        historical
      ≡ returned f
    → Permitted host pinned.value candidate snapshot
verify_authorization-Permitted host value pinned candidate snapshot result runtime_id time keys
      nonces historical f h =
    let shown : Verified host value pinned candidate snapshot result runtime_id time keys nonces
        historical f =
      verify_authorization-Verified host value pinned candidate snapshot result runtime_id time keys
        nonces historical f h in
    let bindings = shown.1 in
    recompute-Permitted host pinned candidate snapshot bindings.recomputed bindings.evaluated
      bindings.allowed
