-- ===== src/Authorization.antt =====
-- vfy/authorization.py, and `decode_signature` of vfy/canon.py: what an authorization is, and the
-- checks that issuing and verifying share. Cryptography, base64, UTF-8 and the schemas are parameters.
pub mod Registry
pub mod Unique
pub mod Issue
pub mod Verify
pub mod Sound
pub mod Spending
pub mod Interval
pub mod Permitted
pub mod Issued
pub mod RoundTrip
pub mod Digests
use verify_run.Base.{
  ℕ, Bool, true, false, Option, none, some, List, [], ◌∷◌, ◌++◌, Text, codes, text_eq, map, any,
  not,
}
use verify_run.Base.Int.{ℤ, pos}
use verify_run.Base.Attempt.{Attempt, raised, returned, require, or_raise, ◌>>=◌}
use verify_run.Canon
use verify_run.Canon.{Written, canonicalize, is_surrogate}
use verify_run.Context.{Item, Status}
use verify_run.Expr.Lexer
use verify_run.Instant.{instant}
use verify_run.Rulebook.{LoadedRulebook, RulebookValue}
use verify_run.Snapshot.{Entry, Snapshot}
use verify_run.Value.{Value, str, int, list, dict, Items, cons, nil, Fields, end, field}
use verify_run.Walk.{Outcome, Code, Reason, Result}
use verify_run.Gate
use verify_run.Gate.Document.{result_document}

-- A Python `bytes`.
abbrev pub Bytes : Type 0
Bytes = List ℕ

-- The exceptions. `not_canonical` is what the writer of canonical text raises, `not_a_date_time` the
-- TypeError of `_instant` outside this file, `unfinished` the ValueError that escapes from the gate.
pub data Failure : Type 0 where
  signing_key_invalid signing_key_revoked signing_key_retired signing_key_unknown : Failure
  signature_malformed signature_invalid authorization_schema_invalid : Failure
  outcome_ineligible not_yet_valid expired binding_mismatch nonce_reused : Failure
  not_canonical : Canon.Refusal → Failure
  not_a_date_time unfinished : Failure

-- `(key_id, key_version)`
pub record Identity : Type 0 where
  pub key_id : Text
  pub key_version : ℤ

-- The signed payload: the eight members of an authorization but its signature.
pub record Payload : Type 0 where
  pub authorization_id : Text
  pub nonce : Text
  pub issued_at : Text
  pub expires_at : Text
  pub runtime_id : Text
  pub action_digest : Text
  pub rulebook_digest : Text
  pub evidence_digest : Text

-- An authorization; `alg` is the constant ALGORITHM, which the schema requires.
pub record Authorization : Type 0 where
  pub payload : Payload
  pub identity : Identity
  pub signature : Text

-- `FrozenAuthorization`, with the value that `value()` reads back from its canonical text.
pub record FrozenAuthorization : Type 0 where
  pub canonical : Text
  pub value : Authorization

-- `EvaluationResult`
pub record EvaluationResult : Type 0 where
  pub canonical : Text
  pub outcome : Outcome

-- Code that is not this repository's, and `schema.validate`: for the documents of the gate the failure
-- that it raises.
pub record Host : Type 0 where
  pub encode : Text → Bytes
  pub sha256 : Bytes → Text
  pub b64encode : Bytes → Text
  pub b64decode : Text → Option Bytes
  pub usable : Bytes → Bool
  pub verify : Bytes → Bytes → Bytes → Bool
  pub sign : Bytes → Bytes → Option Bytes
  pub conforms : Authorization → Bool
  pub candidate_failure : Fields → Option Text
  pub snapshot_failure : Snapshot → Option Text
  pub message : Lexer.Refusal → Text
  pub undeclared_message : Text → Text

-- `payload`, as `issue_authorization` makes it and `verify_authorization` reads it.
abbrev pub payload_fields : Payload → Fields → Fields
payload_fields p rest = field (codes "authorization_id") (str p.authorization_id) (
    field (codes "nonce") (str p.nonce) (
      field (codes "issued_at") (str p.issued_at) (
        field (codes "expires_at") (str p.expires_at) (
          field (codes "runtime_id") (str p.runtime_id) (
            field (codes "action_digest") (str p.action_digest) (
              field (codes "rulebook_digest") (str p.rulebook_digest)
                (field (codes "evidence_digest") (str p.evidence_digest) rest)))))))

-- `completed`
abbrev pub completed : Authorization → Value
completed a = dict (
    payload_fields a.payload (
      field (codes "signature")
        (dict (
          field (codes "alg") (str (codes "ed25519")) (
            field (codes "key_id") (str a.identity.key_id) (
              field (codes "key_version") (int a.identity.key_version)
                (field (codes "value") (str a.signature) end)))))
        end))

-- `canon.canonicalize`
abbrev pub as_text : Option Written → Attempt Failure Text
as_text (some (Canon.text t)) = returned t
as_text (some (Canon.refused e)) = raised (not_canonical e)
as_text none = raised unfinished

unfoldable pub canonical_text : Value → Attempt Failure Text
canonical_text v = as_text (canonicalize v)

-- `_freeze`
unfoldable pub freeze : Authorization → Attempt Failure FrozenAuthorization
unfolding canonical_text
freeze a = canonical_text (completed a) >>= λ t. returned (record { canonical = t; value = a })

-- `_instant`
unfoldable pub instant_at : Text → Attempt Failure ℤ
instant_at text = or_raise not_yet_valid (instant text)

-- `_bind`
abbrev pub bind : Text → Text → Attempt Failure (Unit {0})
bind bound expected = require (text_eq bound expected) binding_mismatch

abbrev pub is_allow : Outcome → Bool
is_allow Outcome.allow = true
is_allow _ = false

-- `pinned.value().get("authorization", {}).get("ttl_seconds", DEFAULT_TTL_SECONDS)`
abbrev pub ttl_of : Option ℕ → ℕ
ttl_of (some ttl) = ttl
ttl_of none = 300

-- An item of a snapshot, with its instant read.
abbrev read_item : Entry → Option ℤ → Option Item
read_item e none = none
read_item e (some at) =
    some (record { id = e.id; status = e.status; acquired_at = at; value = e.value })

abbrev and_item : Option Item → Option (List Item) → Option (List Item)
and_item (some i) (some is) = some (i ∷ is)
and_item _ _ = none

unfoldable pub read_items : List Entry → Option (List Item)
read_items [] = some []
read_items (e ∷ es) = and_item (read_item e (instant e.acquired_at)) (read_items es)

module _ (host : Host) where
  -- `canon.digest`
  unfoldable pub digest : Value → Attempt Failure Text
  unfolding canonical_text
  digest v = canonical_text v >>= λ t. returned (codes "sha256:" ++ host.sha256 (host.encode t))

  -- `canon.hex_digest_of_text`
  unfoldable pub hex_digest_of_text : Text → Attempt Failure Text
  hex_digest_of_text t =
      require (not (any is_surrogate t)) (not_canonical Canon.surrogate_not_permitted) >>= λ _.
      returned (host.sha256 (host.encode t))

  -- `signing_bytes`
  unfoldable pub signing_bytes : Payload → Attempt Failure Bytes
  unfolding canonical_text
  signing_bytes p = canonical_text (dict (payload_fields p end)) >>= λ t. returned (host.encode t)

  -- `decode_signature`, with `SignatureMalformed` for its exception.
  unfoldable pub decode_signature : Text → Attempt Failure Bytes
  decode_signature text = or_raise signature_malformed (host.b64decode text) >>= λ raw.
      require (text_eq (host.b64encode raw) text) signature_malformed >>= λ _. returned raw

  -- `gate.evaluate(pinned, candidate, snapshot.value(), registry)`. Where a schema refuses a document,
  -- no date-time of it is read.
  abbrev pub evaluate_read :
      Option Text → Option Text → RulebookValue → Fields → Snapshot → Attempt Failure Result
  evaluate_read none none value candidate snapshot =
      or_raise not_a_date_time (instant value.adopted_at) >>= λ adopted_at.
      or_raise not_a_date_time (read_items snapshot.payload.items) >>= λ items.
      or_raise not_a_date_time (instant snapshot.payload.frozen_at) >>= λ frozen_at.
      or_raise unfinished (
        Gate.evaluate host.message host.undeclared_message none none value adopted_at candidate
          items frozen_at)
  evaluate_read candidate_failure snapshot_failure value candidate snapshot = or_raise unfinished (
      Gate.evaluate host.message host.undeclared_message candidate_failure snapshot_failure value
        (pos 0) candidate [] (pos 0))

  unfoldable pub recompute : LoadedRulebook → Fields → Snapshot → Attempt Failure Result
  recompute pinned candidate snapshot =
      evaluate_read (host.candidate_failure candidate) (host.snapshot_failure snapshot) pinned.value
        candidate snapshot
