-- ===== src/Store/Consume/Once.antt =====
-- `consume_once` of vfy/store.py as a whole: that it ends, what it leaves where it returns and where it
-- raises, and the second call for one nonce.
use verify_run.Base.{
  ℕ, zero, suc, ◌+◌, ◌-◌, ◌≤◌, ◌<◌, Bool, true, false, Option, none, some, Text, ltb, if◌then◌else◌,
  ◌≡◌, refl, sym, subst, ap, Bool-cases, inl, inr, ◌⊎◌, text_eq, arith, ◌∙◌,
}
use verify_run.Base.Attempt.{Attempt, raised, returned, returned-injective, returned-bind}
use verify_run.Authorization.{Bytes, Host, Payload, FrozenAuthorization}
use verify_run.Store.{StoreFailure, canonical_bytes, nonce_digest}
use verify_run.Store.Files.{StoreEntry, file, Disk, find}
use verify_run.Store.Consume.{
  Call, Phase, opening, writing, linking, unlinking, done, ConsumptionRecord, consumption_path,
  slot_path, is_consumed, entry_stands, advance, open_exclusive, link_staged, publish, run_calls,
  outcome, prepare, consume_prepared, consume_once, consumption_value,
}
use verify_run.Value.{Value}
use verify_run.Store.Consume.Alone.{At, run-At}

-- How many calls on the file system are left at most.
abbrev pub left : Phase → ℕ
left (opening slot) = 4 + (64 - slot)
left (writing slot) = 3
left (linking slot) = 2
left (unlinking slot out) = 1
left (done out) = 0

module _ (host : Host) (load : Bytes → Option Value) (call : Call) where
  publish-left :
      (slot : ℕ) (o : Option StoreEntry) (d : Disk) → left (publish host load call slot o d).1 ≡ 1
  publish-left slot (some e) d = refl
  publish-left slot none d = link_staged-left (find (slot_path call.digest slot) d)
    where
      link_staged-left : (o : Option StoreEntry) → left (link_staged call slot o d).1 ≡ 1
      link_staged-left none = refl
      link_staged-left (some e) = refl

  open_exclusive-left :
      (slot : ℕ) (o : Option StoreEntry) (d : Disk)
      → slot < 64
      → left (open_exclusive call slot o d).1 < left (opening slot)
  open_exclusive-left slot (some e) d h = omega arith
  open_exclusive-left slot none d h = omega arith

  advance-left :
      (answer : Bool) (d : Disk) (phase : Phase) (fuel : ℕ)
      → left phase ≤ suc fuel
      → left (advance host load call answer d phase).1 ≤ fuel
  unfolding advance
  advance-left true d (opening slot) fuel h = elim (Bool-cases (ltb slot 64)) [
    | inl t ↦
        let below : slot < 64 = ground arith in
        rw (t, if◌then◌else◌)
          (omega (arith, open_exclusive-left slot (find (slot_path call.digest slot) d) d below))
    | inr t ↦ rw (t, if◌then◌else◌) (omega arith)
  ]
  advance-left true d (writing slot) fuel h = omega arith
  advance-left true d (linking slot) fuel h =
      omega (arith, publish-left slot (find (consumption_path call.digest) d) d)
  advance-left true d (unlinking slot out) fuel h = omega arith
  advance-left false d (opening slot) fuel h = omega arith
  advance-left false d (writing slot) fuel h = omega arith
  advance-left false d (linking slot) fuel h = omega arith
  advance-left false d (unlinking slot out) fuel h = omega arith
  advance-left answer d (done out) fuel h = omega arith

  run-done :
      (answers : Phase → Bool) (fuel : ℕ) (s : Disk × Phase)
      → left s.1 ≤ fuel
      → (out : Attempt StoreFailure ConsumptionRecord) × ((run_calls host load call answers fuel
            s).1
          ≡ done out)
  unfolding run_calls
  run-done answers zero (d, done out) h = (out, refl)
  run-done answers zero (d, opening slot) h = absurd (omega arith)
  run-done answers zero (d, writing slot) h = absurd (omega arith)
  run-done answers zero (d, linking slot) h = absurd (omega arith)
  run-done answers zero (d, unlinking slot out) h = absurd (omega arith)
  run-done answers (suc fuel) s h =
      run-done answers fuel (advance host load call (answers s.1) s.0 s.1)
        (advance-left (answers s.1) s.0 s.1 fuel h)

outcome-inv :
    (s : Disk × Phase) (e : Disk) (out : Attempt StoreFailure ConsumptionRecord)
    (p : Attempt StoreFailure ConsumptionRecord)
    → s.1 ≡ done p
    → outcome s ≡ (e, out)
    → s ≡ (e, done out)
outcome-inv (d, done r) e out p h k = ap (λ t. (t.0, done t.1)) k
outcome-inv (d, opening slot) e out p h k = cc
outcome-inv (d, writing slot) e out p h k = cc
outcome-inv (d, linking slot) e out p h k = cc
outcome-inv (d, unlinking slot r) e out p h k = cc

module _ (host : Host) (load : Bytes → Option Value) where
  consume_prepared-inv :
      (answers : Phase → Bool) (d e : Disk) (out : Attempt StoreFailure ConsumptionRecord)
      (o : Attempt StoreFailure Call)
      → consume_prepared host load answers d o ≡ (e, out)
      → ((f : StoreFailure) × (e ≡ d) × (out ≡ raised f))
        ⊎ ((call : Call) × (o ≡ returned call)
            × (run_calls host load call answers 68 (d, opening 0) ≡ (e, done out)))
  consume_prepared-inv answers d e out (raised f) h =
      inl (f, ap (λ t. t.0) (sym h), ap (λ t. t.1) (sym h))
  consume_prepared-inv answers d e out (returned call) h =
      let s = run_calls host load call answers 68 (d, opening 0) in
      let (p, over) = run-done host load call answers 68 (d, opening 0) (omega arith) in
      inr (call, refl, outcome-inv s e out p over h)

  pub prepare-inv :
      (authorization : FrozenAuthorization) (call : Call)
      → prepare host authorization ≡ returned call
      → let p = authorization.value.payload in
        (call.digest ≡ nonce_digest host p.nonce)
        × (call.consumption ≡ record {
          nonce = p.nonce;
          authorization_id = p.authorization_id;
          action_digest = p.action_digest;
        })
        × (call.recorded ≡ consumption_value p)
        × (canonical_bytes host (consumption_value p) ≡ returned call.payload)
  unfolding prepare
  prepare-inv authorization call h =
      let p = authorization.value.payload in
      let (payload, e, k) = returned-bind (canonical_bytes host (consumption_value p)) _ call h in
      let same = returned-injective k in
      (
        ap (λ c. c.digest) (sym same),
        ap (λ c. c.consumption) (sym same),
        ap (λ c. c.recorded) (sym same),
        e ∙ ap (λ c. returned c.payload) same,
      )

  -- The nonce was not spent and now is, the record that is returned names the authorization, the entry
  -- holds the record's canonical bytes, and no other entry has changed.
  abbrev pub SpentOnce : Payload → Disk → Disk → ConsumptionRecord → Type 0
  SpentOnce p d e r =
      let digest = nonce_digest host p.nonce in
      (is_consumed d digest ≡ false)
      × (is_consumed e digest ≡ true)
      × (r ≡ record {
        nonce = p.nonce;
        authorization_id = p.authorization_id;
        action_digest = p.action_digest;
      })
      × ((payload : Bytes) × (canonical_bytes host (consumption_value p) ≡ returned payload)
          × (find (consumption_path digest) e ≡ some (file payload)))
      × ((q : Text) → text_eq q (consumption_path digest) ≡ false → find q e ≡ find q d)

  -- Where it returns, the nonce was not spent and is now spent, the record that is returned names the
  -- authorization, the entry holds the record's canonical bytes, and no other entry has changed,
  -- whatever the host refused on the way.
  pub consume_once-returned :
      (answers : Phase → Bool) (authorization : FrozenAuthorization) (d e : Disk)
      (r : ConsumptionRecord)
      → consume_once host load answers authorization d ≡ (e, returned r)
      → SpentOnce authorization.value.payload d e r
  unfolding consume_once is_consumed
  consume_once-returned answers authorization d e r h =
      elim (consume_prepared-inv answers d e (returned r) (prepare host authorization) h) [
        | inl (f, same, e1) ↦ cc
        | inr (call, prepared, ran) ↦
            let (digests, consumption, recorded, written) =
              prepare-inv authorization call prepared in
            let at : At call d false e (done (returned r)) =
              subst (λ t. At call d false t.0 t.1) ran
                (run-At call d host load false answers 68 (d, opening 0) (λ n. cc) refl) in
            let ((unspent, spent, e1), others) = at in
            (
              ap entry_stands (ap (λ g. find (consumption_path g) d) (sym digests) ∙ unspent),
              ap entry_stands (ap (λ g. find (consumption_path g) e) (sym digests) ∙ spent),
              e1 ∙ consumption,
              (call.payload, written, ap (λ g. find (consumption_path g) e) (sym digests) ∙ spent),
              λ q ne. others q (ap (λ g. text_eq q (consumption_path g)) digests ∙ ne),
            )
      ]

  -- Where it raises although the host grants every call, everything is as it was.
  pub consume_once-raised :
      (authorization : FrozenAuthorization) (d e : Disk) (f : StoreFailure)
      → consume_once host load (λ phase. true) authorization d ≡ (e, raised f)
      → (q : Text) → find q e ≡ find q d
  unfolding consume_once
  consume_once-raised authorization d e f h =
      elim (consume_prepared-inv (λ phase. true) d e (raised f) (prepare host authorization) h) [
        | inl (g, same, e1) ↦ λ q. ap (find q) same
        | inr (call, prepared, ran) ↦
            subst (λ t. At call d true t.0 t.1) ran
              (run-At call d host load true (λ phase. true) 68 (d, opening 0) (λ n phase. refl)
                refl)
      ]
