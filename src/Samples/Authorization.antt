-- ===== src/Samples/Authorization.antt =====
-- vfy/authorization.py: one registry, and one authorization, issued and verified.
use verify_run.Base.{
  ◌≡◌, refl, sym, ap, ℕ, ◌*◌, ◌≤◌, Bool, true, false, Option, none, some, List, [], ◌∷◌, ◌++◌, Text,
  codes, text_eq, text_eq_refl, text_eq_iff, replicate, arith,
}
use verify_run.Base.Attempt.{returned, raised}
use verify_run.Base.Int.{ℤ, pos, ◌≤ℤ◌, ◌+ℤ◌}
use verify_run.Authorization.{
  Bytes, Identity, Payload, Authorization, FrozenAuthorization, EvaluationResult, Host, recompute,
  signing_key_invalid, canonical_text, completed, ttl_of,
}
use verify_run.Authorization.Registry.{Key, KeyEntry, KeyRegistry, build_key_registry, find_key}
use verify_run.Authorization.Unique.{build_key_registry-one_identity}
use verify_run.Authorization.Issue.{Request, issue_authorization}
use verify_run.Authorization.Verify.{verify_authorization, expected_expiry}
use verify_run.Authorization.Interval.{Within}
use verify_run.Authorization.Spending.{Verified, verify_authorization-Verified}
use verify_run.Authorization.Permitted.{Permitted, verify_authorization-Permitted}
use verify_run.Authorization.RoundTrip.{Lawful, Writable, issue_authorization-verify_authorization}
use verify_run.Gate.Document.{result_document}
use verify_run.Instant.{instant, nanos_per_second}
use verify_run.Instant.Render.{civil_from_days}
use verify_run.Instant.RoundTrip.{second_of}
use verify_run.Samples.Gate.{no_message, candidate, allowed}
use verify_run.Samples.Rulebook.{loaded, snapshot}

abbrev pub signer : Identity
signer = record { key_id = codes "k"; key_version = pos 1 }

abbrev pub public_key : Bytes
public_key = replicate 32 7

abbrev entries : List KeyEntry
entries =
    record { identity = signer; public_key = public_key; status = none }
    ∷ record {
      identity = record { key_id = codes "k"; key_version = pos 2 };
      public_key = replicate 32 8;
      status = some (codes "retired");
    }
    ∷ []

abbrev pub active : Key
active = record { public_key = public_key; status = codes "active" }

abbrev pub keys : KeyRegistry
keys =
    (
      record { key_id = codes "k"; key_version = pos 2 },
      record { public_key = replicate 32 8; status = codes "retired" },
    )
    ∷ (signer, active)
    ∷ []

registers : build_key_registry entries ≡ returned keys
unfolding build_key_registry text_eq
registers = refl

-- One key under two identities is refused.
relabels :
    build_key_registry (
      record { identity = signer; public_key = public_key; status = some (codes "retired") }
      ∷ record {
        identity = record { key_id = codes "l"; key_version = pos 1 };
        public_key = public_key;
        status = none;
      }
      ∷ [])
    ≡ raised signing_key_invalid
unfolding build_key_registry text_eq
relabels = refl

pub finds : find_key signer keys ≡ some active
unfolding find_key text_eq
finds = refl

build_key_registry-one_identity_example : signer ≡ signer
build_key_registry-one_identity_example =
    build_key_registry-one_identity entries keys signer signer active active registers finds finds
      refl

-- Stand-ins: the signature of bytes is the bytes, and nothing is encoded.
abbrev pub host : Host
host = record {
  encode = λ t. t;
  sha256 = λ b. codes "1";
  b64encode = λ b. b;
  b64decode = some;
  usable = λ k. true;
  verify = λ k s b. text_eq s b;
  sign = λ k b. some b;
  conforms = λ a. true;
  candidate_failure = λ c. none;
  snapshot_failure = λ s. none;
  message = no_message;
  undeclared_message = λ t. t;
}

abbrev pub request : Request
request = record {
  authorization_id = codes "a";
  nonce = codes "n";
  runtime_id = codes "r";
  issued_at = codes "2024-01-01T00:00:02.5Z";
  identity = signer;
}

abbrev pub private_key : Bytes
private_key = replicate 32 9

abbrev pub result : EvaluationResult
result = record {
  canonical =
      codes
        "{\"matched_rule\":\"small\",\"outcome\":\"ALLOW\",\"reasons\":[{\"code\":\"rule_allow\",\"message\":\"Small amounts pass.\",\"rule_id\":\"small\"}],\"trace\":[\"0:small:true\"]}";
  outcome = verify_run.Walk.Outcome.allow;
}

abbrev payload_text : Text
payload_text =
    codes
      "{\"action_digest\":\"sha256:1\",\"authorization_id\":\"a\",\"evidence_digest\":\"2\",\"expires_at\":\"2024-01-01T00:01:02Z\",\"issued_at\":\"2024-01-01T00:00:02.5Z\",\"nonce\":\"n\",\"rulebook_digest\":\"sha256:1\",\"runtime_id\":\"r\"}"

abbrev pub issued : Authorization
issued = record {
  payload = record {
    authorization_id = codes "a";
    nonce = codes "n";
    issued_at = codes "2024-01-01T00:00:02.5Z";
    expires_at = codes "2024-01-01T00:01:02Z";
    runtime_id = codes "r";
    action_digest = codes "sha256:1";
    rulebook_digest = codes "sha256:1";
    evidence_digest = codes "2";
  };
  identity = signer;
  signature = payload_text;
}

pub recomputes : recompute host loaded candidate snapshot ≡ returned allowed
unfolding recompute instant verify_run.Instant.match_date_time verify_run.Instant.in_calendar
    verify_run.Instant.month_days verify_run.Authorization.read_items verify_run.Instant.instant_of
    verify_run.Base.Int.◌+ℤ◌ verify_run.Base.Int.times_ℤ verify_run.Base.Int.◌-ℤ◌
    verify_run.Instant.days_from_civil verify_run.Base.Int.div_ℤ verify_run.Base.Digits.value_from
    verify_run.Gate.evaluate verify_run.Gate.prepare_rules verify_run.Base.text_eq
    verify_run.Walk.walk verify_run.Walk.walk_from verify_run.Walk.rule_state
    verify_run.Evaluate.evaluate_node verify_run.Evaluate.evaluate_compare
    verify_run.Decimal.compare_numeric verify_run.Decimal.numeric_parts
    verify_run.Decimal.compare_parts verify_run.Walk.matched verify_run.Walk.trace_entry
    verify_run.Base.Digits.to_digits
recomputes = refl

pub same_text : canonical_text (result_document allowed) ≡ returned result.canonical
unfolding canonical_text verify_run.Canon.canonicalize verify_run.Base.text_lt
same_text = refl

abbrev canonical : Text
canonical =
    codes
      "{\"action_digest\":\"sha256:1\",\"authorization_id\":\"a\",\"evidence_digest\":\"2\",\"expires_at\":\"2024-01-01T00:01:02Z\",\"issued_at\":\"2024-01-01T00:00:02.5Z\",\"nonce\":\"n\",\"rulebook_digest\":\"sha256:1\",\"runtime_id\":\"r\",\"signature\":{\"alg\":\"ed25519\",\"key_id\":\"k\",\"key_version\":1,\"value\":\"{\\\"action_digest\\\":\\\"sha256:1\\\",\\\"authorization_id\\\":\\\"a\\\",\\\"evidence_digest\\\":\\\"2\\\",\\\"expires_at\\\":\\\"2024-01-01T00:01:02Z\\\",\\\"issued_at\\\":\\\"2024-01-01T00:00:02.5Z\\\",\\\"nonce\\\":\\\"n\\\",\\\"rulebook_digest\\\":\\\"sha256:1\\\",\\\"runtime_id\\\":\\\"r\\\"}\"}}"

abbrev pub frozen : FrozenAuthorization
frozen = record { canonical = canonical; value = issued }

issues :
    issue_authorization host loaded candidate snapshot result request private_key ≡ returned frozen
unfolding issue_authorization instant verify_run.Instant.match_date_time
    verify_run.Instant.in_calendar verify_run.Instant.month_days verify_run.Instant.instant_of
    verify_run.Base.Int.◌+ℤ◌ verify_run.Base.Int.times_ℤ verify_run.Base.Int.◌-ℤ◌
    verify_run.Instant.days_from_civil verify_run.Base.Int.div_ℤ verify_run.Base.Digits.value_from
    verify_run.Instant.Render.add_seconds verify_run.Canon.canonicalize verify_run.Base.text_lt
    verify_run.Instant.Render.render_seconds verify_run.Instant.Render.render
    verify_run.Instant.Render.padded verify_run.Base.Digits.to_digits verify_run.Canon.insert
    verify_run.Canon.integer_text verify_run.Canon.object_frames verify_run.Canon.run
    verify_run.Canon.sort verify_run.Canon.string_text verify_run.Instant.Era.year_of
    verify_run.Instant.Render.civil_from_days verify_run.Instant.Render.civil_of_era
issues = refl

pub lawful : Lawful host private_key public_key
lawful = record {
  b64 = λ raw. refl;
  is_usable = refl;
  signs = λ bytes signature e. same bytes signature e;
}
  where
    same : (bytes signature : Bytes) → some bytes ≡ some signature → text_eq signature bytes ≡ true
    same bytes signature e = (text_eq_iff signature bytes).1 (sym (some-injective e))
      where
        some-injective : {a b : Bytes} → some a ≡ some b → a ≡ b
        some-injective {a} p = ap (λ o. elim o [ some x ↦ x | none ↦ a ]) p

-- 2024-01-01T00:00:02.5Z
abbrev pub start : ℤ
start = pos 1704067202500000000

pub starts : instant request.issued_at ≡ some start
unfolding instant verify_run.Instant.match_date_time verify_run.Instant.in_calendar
    verify_run.Instant.month_days verify_run.Instant.instant_of ◌+ℤ◌ verify_run.Base.Int.times_ℤ
    verify_run.Base.Int.◌-ℤ◌ verify_run.Instant.days_from_civil verify_run.Base.Int.div_ℤ
    verify_run.Base.Digits.value_from
starts = refl

abbrev pub time : Text
time = codes "2024-01-01T00:01:01Z"

pub within : Within (some time) start (expected_expiry start 60)
unfolding instant verify_run.Instant.match_date_time verify_run.Instant.in_calendar
    verify_run.Instant.month_days verify_run.Instant.instant_of ◌+ℤ◌ verify_run.Base.Int.times_ℤ
    verify_run.Base.Int.◌-ℤ◌ verify_run.Instant.days_from_civil verify_run.Base.Int.div_ℤ
    verify_run.Base.Digits.value_from expected_expiry
within = (pos 1704067261000000000, refl, omega arith, omega arith)

pub writable : Writable (second_of start 60)
unfolding verify_run.Base.Int.◌+ℤ◌ verify_run.Base.Int.times_ℤ verify_run.Base.Int.◌-ℤ◌
    verify_run.Base.Int.div_ℤ civil_from_days verify_run.Instant.Render.civil_of_era
    verify_run.Instant.Era.year_of
writable = (omega arith, omega arith)

verifies :
    verify_authorization host issued loaded candidate snapshot result
      (codes "r")
      (some time)
      keys
      (some [])
      false
    ≡ returned frozen
verifies =
    issue_authorization-verify_authorization host loaded candidate snapshot result request
      private_key frozen keys active allowed (some time) (some []) start issues finds refl lawful
      recomputes same_text refl starts writable (omega arith) within refl

issue_authorization-verify_authorization_example :
    verify_authorization host issued loaded candidate snapshot result
      (codes "r")
      (some time)
      keys
      (some [])
      false
    ≡ returned frozen
issue_authorization-verify_authorization_example =
    issue_authorization-verify_authorization host loaded candidate snapshot result request
      private_key frozen keys active allowed (some time) (some []) start issues finds refl lawful
      recomputes same_text refl starts writable (omega arith) within refl

verify_authorization-Verified_example :
    Verified host issued loaded candidate snapshot result
      (codes "r")
      (some time)
      keys
      (some [])
      false
      frozen
verify_authorization-Verified_example =
    verify_authorization-Verified host issued loaded candidate snapshot result (codes "r")
      (some time) keys (some []) false frozen verifies

verify_authorization-Permitted_example : Permitted host loaded.value candidate snapshot
verify_authorization-Permitted_example =
    verify_authorization-Permitted host issued loaded candidate snapshot result (codes "r")
      (some time) keys (some []) false frozen verifies
