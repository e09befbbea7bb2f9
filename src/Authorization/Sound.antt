-- ===== src/Authorization/Sound.antt =====
-- What a verified authorization shows of the objects that the caller holds.
use verify_run.Base.{
  not-true, ◌≡◌, refl, sym, ◌∙◌, ◌⊎◌, inl, inr, Bool, true, false, not, ◌||◌, Option, none, some,
  Text, codes, text_eq, text_eq_iff,
}
use verify_run.Base.Int.{ℤ}
use verify_run.Base.Attempt.{
  returned, or_raise, returned-bind, returned-require, returned-or_raise, require_inv,
  returned-injective,
}
use verify_run.Authorization.{
  Bytes, Payload, Authorization, EvaluationResult, Host, digest, signing_bytes, decode_signature,
  recompute, canonical_text, instant_at, is_allow, bind, not_yet_valid,
}
use verify_run.Authorization.Registry.{KeyRegistry, Key, find_key, check_key_status, is_status}
use verify_run.Authorization.Verify.{check_signature, check_bindings}
use verify_run.Gate.Document.{result_document}
use verify_run.Instant.{instant}
use verify_run.Rulebook.{LoadedRulebook}
use verify_run.Snapshot.{Snapshot}
use verify_run.Value.{Fields, dict}
use verify_run.Walk.{Outcome, Result}

-- A key that may vouch for what is checked: not revoked, and retired only where history is asked for.
pub Trusted : Text → Bool → Type 0
Trusted status historical =
    (is_status status ≡ true)
    × (text_eq status (codes "revoked") ≡ false)
    × ((text_eq status (codes "retired") ≡ false) ⊎ (historical ≡ true))

pub check_key_status-Trusted :
    (status : Text) (historical : Bool)
    → check_key_status status historical ≡ returned tt
    → Trusted status historical
unfolding check_key_status Trusted
check_key_status-Trusted status historical h =
    let (known, h1) = returned-require (is_status status) _ _ tt h in
    let (kept, h2) = returned-require (not (text_eq status (codes "revoked"))) _ _ tt h1 in
    (
      known,
      not-true _ kept,
      either (text_eq status (codes "retired")) historical
          (require_inv (not (text_eq status (codes "retired")) || historical) _ h2),
    )
  where
    either : (a b : Bool) → (not a || b) ≡ true → (a ≡ false) ⊎ (b ≡ true)
    either false b h = inl refl
    either true b h = inr h

pub instant_at-some : (t : Text) (z : ℤ) → instant_at t ≡ returned z → instant t ≡ some z
unfolding instant_at
instant_at-some t z h = through (instant t) h
  where
    through : (o : Option ℤ) → or_raise not_yet_valid o ≡ returned z → o ≡ some z
    through none h = cc
    through (some y) h = rw (returned-injective h) refl

-- The signature is the one spelling of bytes that the registered key verifies over the payload.
pub record Authentic (host : Host) (keys : KeyRegistry) (historical : Bool) (value : Authorization)
    : Type 0 where
  pub key : Key
  pub signature : Bytes
  pub bytes : Bytes
  pub registered : find_key value.identity keys ≡ some key
  pub trusted : Trusted key.status historical
  pub decoded : host.b64decode value.signature ≡ some signature
  pub spelled : host.b64encode signature ≡ value.signature
  pub signed_bytes : signing_bytes host value.payload ≡ returned bytes
  pub verified : host.verify key.public_key signature bytes ≡ true

pub decode_signature-inv :
    (host : Host) (text : Text) (raw : Bytes)
    → decode_signature host text ≡ returned raw
    → (host.b64decode text ≡ some raw) × (host.b64encode raw ≡ text)
unfolding decode_signature
decode_signature-inv host text raw h =
    let (r, e, h1) = returned-or_raise (host.b64decode text) _ _ raw h in
    let (q, h2) = returned-require (text_eq (host.b64encode r) text) _ _ raw h1 in
    let same : r ≡ raw = returned-injective h2 in
    (rw (sym same) e, rw (sym same) ((text_eq_iff (host.b64encode r) text).0 q))

pub check_signature-Authentic :
    (host : Host) (keys : KeyRegistry) (historical : Bool) (value : Authorization)
    → check_signature host keys historical value ≡ returned tt
    → Authentic host keys historical value
unfolding check_signature
check_signature-Authentic host keys historical value h =
    let (key, registered, h1) = returned-or_raise (find_key value.identity keys) _ _ tt h in
    let (t, trusted, h2) = returned-bind (check_key_status key.status historical) _ tt h1 in
    let (raw, decoded, h3) = returned-bind (decode_signature host value.signature) _ tt h2 in
    let (bytes, signed, h4) = returned-bind (signing_bytes host value.payload) _ tt h3 in
    let (usable, h5) = returned-require (host.usable key.public_key) _ _ tt h4 in
    record {
      key = key;
      signature = raw;
      bytes = bytes;
      registered = registered;
      trusted = check_key_status-Trusted key.status historical trusted;
      decoded = (decode_signature-inv host value.signature raw decoded).0;
      spelled = (decode_signature-inv host value.signature raw decoded).1;
      signed_bytes = signed;
      verified = require_inv (host.verify key.public_key raw bytes) _ h5;
    }

-- Every digest of the payload is that of an object at hand, and those objects come to the ALLOW that the
-- result says.
pub record Bound (host : Host) (p : Payload) (pinned : LoadedRulebook) (candidate : Fields)
    (snapshot : Snapshot) (result : EvaluationResult) (runtime_id : Text) : Type 0 where
  pub recomputed : Result
  pub rulebook : p.rulebook_digest ≡ pinned.digest
  pub action : digest host (dict candidate) ≡ returned p.action_digest
  pub evidence : p.evidence_digest ≡ snapshot.snapshot_digest
  pub evaluated : recompute host pinned candidate snapshot ≡ returned recomputed
  pub same_result : canonical_text (result_document recomputed) ≡ returned result.canonical
  pub allowed : recomputed.outcome ≡ Outcome.allow
  pub runtime : p.runtime_id ≡ runtime_id

bind_inv : (a b : Text) → bind a b ≡ returned tt → a ≡ b
bind_inv a b h = (text_eq_iff a b).0 (require_inv (text_eq a b) _ h)

is_allow_inv : (o : Outcome) → is_allow o ≡ true → o ≡ Outcome.allow
is_allow_inv Outcome.allow h = refl
is_allow_inv Outcome.block h = cc
is_allow_inv Outcome.hold h = cc
is_allow_inv Outcome.error h = cc

pub check_bindings-Bound :
    (host : Host) (p : Payload) (pinned : LoadedRulebook) (candidate : Fields) (snapshot : Snapshot)
    (result : EvaluationResult) (runtime_id : Text)
    → check_bindings host p pinned candidate snapshot result runtime_id ≡ returned tt
    → Bound host p pinned candidate snapshot result runtime_id
unfolding check_bindings
check_bindings-Bound host p pinned candidate snapshot result runtime_id h =
    let (rulebook, h1) = returned-require (text_eq p.rulebook_digest pinned.digest) _ _ tt h in
    let (d, action, h2) = returned-bind (digest host (dict candidate)) _ tt h1 in
    let (same_action, h3) = returned-require (text_eq p.action_digest d) _ _ tt h2 in
    let (evidence, h4) =
      returned-require (text_eq p.evidence_digest snapshot.snapshot_digest) _ _ tt h3 in
    let (r, evaluated, h5) = returned-bind (recompute host pinned candidate snapshot) _ tt h4 in
    let (t, written, h6) = returned-bind (canonical_text (result_document r)) _ tt h5 in
    let (same_result, h7) = returned-require (text_eq t result.canonical) _ _ tt h6 in
    let (allowed, h8) = returned-require (is_allow r.outcome) _ _ tt h7 in
    record {
      recomputed = r;
      rulebook = (text_eq_iff p.rulebook_digest pinned.digest).0 rulebook;
      action = action ∙ sym (rw ((text_eq_iff p.action_digest d).0 same_action) refl);
      evidence = (text_eq_iff p.evidence_digest snapshot.snapshot_digest).0 evidence;
      evaluated = evaluated;
      same_result = written ∙ rw ((text_eq_iff t result.canonical).0 same_result) refl;
      allowed = is_allow_inv r.outcome allowed;
      runtime = bind_inv p.runtime_id runtime_id h8;
    }
