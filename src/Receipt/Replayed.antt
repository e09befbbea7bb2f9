-- ===== src/Receipt/Replayed.antt =====
-- What a receipt that replays shows of the bodies at hand.
use verify_run.Base.{
  ◌≡◌, subst, refl, sym, ap, ◌∙◌, Bool, true, false, ◌&&◌, Option, none, some, Text, text_eq,
  text_eq_iff, and_inv,
}
use verify_run.Base.Attempt.{
  Attempt, returned, returned-injective, returned-bind, returned-require, returned-or_raise,
  returned-raised_as,
}
use verify_run.Authorization.{
  Authorization, EvaluationResult, FrozenAuthorization, Host, canonical_text, digest, recompute,
}
use verify_run.Authorization.Registry.{KeyRegistry}
use verify_run.Authorization.Verify.{verify_authorization}
use verify_run.Gate.Document.{result_document}
use verify_run.Receipt.{
  ReceiptFailure, ReceiptPayload, Receipt, ReceiptVerification, verify_receipt,
}
use verify_run.Receipt.Replay.{
  Reader, ReplayVerification, load_rulebook, accept_snapshot, check_authorization, cross_check,
  recompute_decision, match_bodies, replay_receipt,
}
use verify_run.Receipt.Signed.{VerifiedReceipt, verify_receipt-Verified}
use verify_run.Rulebook.{LoadedRulebook}
use verify_run.Snapshot.{Snapshot}
use verify_run.Value.{Fields, dict}
use verify_run.Walk.{Result}

not_returned :
    (verified : Bool)
    → ◌≡◌ {A = Attempt ReceiptFailure Bool} (returned false) (returned verified)
    → verified ≡ true
    → ⊥
not_returned verified h t = false_true (returned-injective h ∙ t)
  where
    false_true : false ≡ true → ⊥
    false_true e = cc

module _ (host : Host) (reader : Reader) (p : ReceiptPayload) where
  -- The bodies are those that the receipt records by digest, loaded and accepted.
  pub record Matched (source : Text) (candidate : Fields) (snapshot : Snapshot)
      (pinned : LoadedRulebook) (frozen : Snapshot) : Type 0 where
    pub loaded : load_rulebook host reader source ≡ returned pinned
    pub rulebook : pinned.digest ≡ p.rulebook.digest
    pub rulebook_id : pinned.value.rulebook_id ≡ p.rulebook.rulebook_id
    pub version : pinned.value.version ≡ p.rulebook.version
    pub action : digest host (dict candidate) ≡ returned p.candidate_digest
    pub accepted : accept_snapshot host reader pinned snapshot ≡ returned frozen
    pub evidence : frozen.snapshot_digest ≡ p.evidence_digest

  match_bodies-Matched :
      (source : Text) (candidate : Fields) (snapshot : Snapshot)
      (matched : LoadedRulebook × Snapshot)
      → match_bodies host reader p source candidate snapshot ≡ returned matched
      → Matched source candidate snapshot matched.0 matched.1
  unfolding match_bodies
  match_bodies-Matched source candidate snapshot matched h =
      let (pinned, loaded, h1) = returned-bind (load_rulebook host reader source) _ matched h in
      let (named, h2) =
        returned-require
          (text_eq pinned.digest p.rulebook.digest
            && text_eq pinned.value.rulebook_id p.rulebook.rulebook_id
            && text_eq pinned.value.version p.rulebook.version)
          _ _ matched h1 in
      let (both, version) =
        and_inv
          (text_eq pinned.digest p.rulebook.digest
            && text_eq pinned.value.rulebook_id p.rulebook.rulebook_id)
          _ named in
      let (rulebook, id) = and_inv (text_eq pinned.digest p.rulebook.digest) _ both in
      let (d, action, h3) = returned-raised_as _ (digest host (dict candidate)) _ matched h2 in
      let (bound, h4) = returned-require (text_eq d p.candidate_digest) _ _ matched h3 in
      let (frozen, accepted, h5) =
        returned-bind (accept_snapshot host reader pinned snapshot) _ matched h4 in
      let (evidence, h6) =
        returned-require (text_eq frozen.snapshot_digest p.evidence_digest) _ _ matched h5 in
      let same : (pinned, frozen) ≡ matched = returned-injective h6 in
      let m : Matched source candidate snapshot pinned frozen = record {
        loaded = loaded;
        rulebook = (text_eq_iff pinned.digest p.rulebook.digest).0 rulebook;
        rulebook_id = (text_eq_iff pinned.value.rulebook_id p.rulebook.rulebook_id).0 id;
        version = (text_eq_iff pinned.value.version p.rulebook.version).0 version;
        action = action ∙ ap returned ((text_eq_iff d p.candidate_digest).0 bound);
        accepted = accepted;
        evidence = (text_eq_iff frozen.snapshot_digest p.evidence_digest).0 evidence;
      } in
      subst (λ (x : LoadedRulebook × Snapshot). Matched source candidate snapshot x.0 x.1) same m

  module _ (pinned : LoadedRulebook) (candidate : Fields) (frozen : Snapshot) where
    -- The result that the bodies come to has the canonical text of the one that is recorded.
    abbrev pub Recomputed : EvaluationResult → Type 0
    Recomputed e =
        (r : Result) × (recompute host pinned candidate frozen ≡ returned r)
        × (canonical_text (result_document r) ≡ returned e.canonical)
        × (canonical_text p.result ≡ returned e.canonical)
        × (r.outcome ≡ e.outcome)

    recompute_decision-Recomputed :
        (e : EvaluationResult)
        → recompute_decision host reader p pinned candidate frozen ≡ returned e
        → Recomputed e
    unfolding recompute_decision
    recompute_decision-Recomputed e h =
        let (r, evaluated, h1) =
          returned-raised_as _ (recompute host pinned candidate frozen) _ e h in
        let (t, written, h2) = returned-raised_as _ (canonical_text (result_document r)) _ e h1 in
        let (recorded, stored, h3) = returned-raised_as _ (canonical_text p.result) _ e h2 in
        let (agree, h4) = returned-require (text_eq t recorded) _ _ e h3 in
        let same : record { canonical = t; outcome = r.outcome } ≡ e = returned-injective h4 in
        let text_same : t ≡ e.canonical = ap (λ x. x.canonical) same in
        (
          r,
          evaluated,
          written ∙ ap returned text_same,
          stored ∙ ap returned (sym ((text_eq_iff t recorded).0 agree) ∙ text_same),
          ap (λ x. x.outcome) same,
        )

    -- The authorization that is supplied is the one that is named, binds the receipt's digests, and
    -- verified against these bodies and their result.
    pub record CrossChecked (e : EvaluationResult) (authorization : Authorization) (name : Text)
        (time : Option Text) (keys : KeyRegistry) : Type 0 where
      pub id : authorization.payload.authorization_id ≡ name
      pub action : authorization.payload.action_digest ≡ p.candidate_digest
      pub rulebook : authorization.payload.rulebook_digest ≡ p.rulebook.digest
      pub evidence : authorization.payload.evidence_digest ≡ p.evidence_digest
      pub frozen_authorization : FrozenAuthorization
      pub verifies :
          verify_authorization host authorization pinned candidate frozen e
            authorization.payload.runtime_id time keys none true
          ≡ returned frozen_authorization

    check_authorization-CrossChecked :
        (e : EvaluationResult) (authorization : Authorization) (name : Text) (time : Option Text)
        (keys : KeyRegistry)
        → check_authorization host reader p pinned candidate frozen e authorization name time keys
          ≡ returned tt
        → CrossChecked e authorization name time keys
    unfolding check_authorization
    check_authorization-CrossChecked e authorization name time keys h =
        let a = authorization.payload in
        let (id, h1) = returned-require (text_eq a.authorization_id name) _ _ tt h in
        let (action, h2) =
          returned-require (text_eq a.action_digest p.candidate_digest) _ _ tt h1 in
        let (rulebook, h3) =
          returned-require (text_eq a.rulebook_digest p.rulebook.digest) _ _ tt h2 in
        let (evidence, h4) =
          returned-require (text_eq a.evidence_digest p.evidence_digest) _ _ tt h3 in
        let (f, verifies, h5) =
          returned-raised_as _
            (verify_authorization host authorization pinned candidate frozen e a.runtime_id time
              keys none true)
            _ tt h4 in
        record {
          id = (text_eq_iff a.authorization_id name).0 id;
          action = (text_eq_iff a.action_digest p.candidate_digest).0 action;
          rulebook = (text_eq_iff a.rulebook_digest p.rulebook.digest).0 rulebook;
          evidence = (text_eq_iff a.evidence_digest p.evidence_digest).0 evidence;
          frozen_authorization = f;
          verifies = verifies;
        }

    -- What stands behind `authorization_verified`.
    abbrev pub Vouched :
        EvaluationResult
        → Option Text
        → Option Authorization
        → Option KeyRegistry
        → Option Text
        → Bool
        → Type 0
    Vouched e name authorization keys time verified =
        verified ≡ true
        → (n : Text) × (a : Authorization) × (registry : KeyRegistry) × (name ≡ some n)
          × (authorization ≡ some a)
          × (keys ≡ some registry)
          × CrossChecked e a n time registry

    cross_check-Vouched :
        (e : EvaluationResult) (name : Option Text) (authorization : Option Authorization)
        (keys : Option KeyRegistry) (time : Option Text) (verified : Bool)
        → cross_check host reader p pinned candidate frozen e name authorization keys time
          ≡ returned verified
        → Vouched e name authorization keys time verified
    unfolding cross_check
    cross_check-Vouched e (some n) (some a) keys time verified h t =
        let (registry, given, h1) = returned-or_raise keys _ _ verified h in
        let (u, checked, h2) =
          returned-bind
            (check_authorization host reader p pinned candidate frozen e a n time registry) _
            verified h1 in
        (
          n,
          a,
          registry,
          refl,
          refl,
          given,
          check_authorization-CrossChecked e a n time registry checked,
        )
    cross_check-Vouched e (some n) none keys time verified h t = absurd (not_returned verified h t)
    cross_check-Vouched e none authorization keys time verified h t =
        absurd (not_returned verified h t)

  -- A receipt whose bodies replay: it verifies, the bodies are those it records by digest, they come to
  -- the result it records, and an authorization counts as verified only where one is named, supplied
  -- and verified against them.
  pub record Replayed (value : Receipt) (source : Text) (candidate : Fields) (snapshot : Snapshot)
      (receipt_keys : KeyRegistry) (authorization : Option Authorization)
      (authorization_keys : Option KeyRegistry) (time : Option Text) (report : ReplayVerification)
      : Type 0 where
    pub verification : ReceiptVerification
    pub verified : VerifiedReceipt host reader.receipt_conforms receipt_keys value verification
    pub outcome : report.outcome ≡ verification.outcome
    pub pinned : LoadedRulebook
    pub frozen : Snapshot
    pub matched : Matched source candidate snapshot pinned frozen
    pub evaluation : EvaluationResult
    pub recomputed : Recomputed pinned candidate frozen evaluation
    pub canonical : report.recomputed_canonical ≡ evaluation.canonical
    pub vouched :
        Vouched pinned candidate frozen evaluation p.authorization_id authorization
          authorization_keys time report.authorization_verified

module _ (host : Host) (reader : Reader) (value : Receipt) (source : Text) (candidate : Fields)
    (snapshot : Snapshot) (receipt_keys : KeyRegistry) (authorization : Option Authorization)
    (authorization_keys : Option KeyRegistry) (time : Option Text)
    (report : ReplayVerification) where
  -- A receipt that replays is signed by a registered key that is not revoked and records a decision; its
  -- bodies load, are accepted and have the recorded digests; the result recomputed from them has the
  -- canonical text of the recorded one; and its authorization is reported as verified only where one is
  -- named, is supplied, binds the same digests and verifies against these bodies.
  pub replay_receipt-Replayed :
      replay_receipt host reader value
          (some source)
          (some candidate)
          (some snapshot)
          receipt_keys
          authorization
          authorization_keys
          time
        ≡ returned report
      → Replayed host reader value.payload value source candidate snapshot receipt_keys
          authorization authorization_keys time report
  unfolding replay_receipt
  replay_receipt-Replayed h =
      let p = value.payload in
      let (v, verified, h1) =
        returned-bind (verify_receipt host reader.receipt_conforms receipt_keys value) _ report h in
      let (m, matched, h2) =
        returned-bind (match_bodies host reader p source candidate snapshot) _ report h1 in
      let (e, recomputed, h3) =
        returned-bind (recompute_decision host reader p m.0 candidate m.1) _ report h2 in
      let (a, crossed, h4) =
        returned-bind
          (cross_check host reader p m.0 candidate m.1 e p.authorization_id authorization
            authorization_keys time)
          _ report h3 in
      let same = returned-injective h4 in
      record {
        verification = v;
        verified =
            verify_receipt-Verified host reader.receipt_conforms receipt_keys value v verified;
        outcome = ap (λ r. r.outcome) (sym same);
        pinned = m.0;
        frozen = m.1;
        matched = match_bodies-Matched host reader p source candidate snapshot m matched;
        evaluation = e;
        recomputed = recompute_decision-Recomputed host reader p m.0 candidate m.1 e recomputed;
        canonical = ap (λ r. r.recomputed_canonical) (sym same);
        vouched =
            cross_check-Vouched host reader p m.0 candidate m.1 e p.authorization_id authorization
              authorization_keys time report.authorization_verified
              (crossed ∙ ap returned (ap (λ r. r.authorization_verified) same));
      }
