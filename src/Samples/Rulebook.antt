-- ===== src/Samples/Rulebook.antt =====
-- vfy/rulebook.py: one rulebook, loaded, and a snapshot for it.
use verify_run.Base.{◌≡◌, refl, true, Option, none, some, List, [], ◌∷◌, ◌++◌, Text, codes}
use verify_run.Base.Attempt.{returned, raised}
use verify_run.Base.Int.{pos}
use verify_run.Rulebook.{
  RuleSource, RulebookValue, LoadedRulebook, load_rulebook_bytes, undeclared_evidence_id,
}
use verify_run.Rulebook.Loaded.{Sound, load_rulebook_bytes-Sound, pinned_of}
use verify_run.Snapshot.{Entry, Snapshot, Payload, accepted, build_snapshot, verify_snapshot_value}
use verify_run.Context.{Status}
use verify_run.Value.{str, field, end}
use verify_run.Walk.{RuleOutcome, DefaultOutcome}

abbrev pub allow_small : RuleSource
allow_small = record {
  id = codes "small";
  when = codes "candidate.amount <= \"20\"";
  outcome = RuleOutcome.allow;
  reason = codes "Small amounts pass.";
  requires_evidence = [];
}

abbrev pub value : RulebookValue
value = record {
  rulebook_id = codes "r";
  version = codes "1";
  adopted_at = codes "2024-01-01T00:00:00Z";
  evidence = record { id = codes "build"; max_age_seconds = none; required = true } ∷ [];
  rules = allow_small ∷ [];
  default_outcome = DefaultOutcome.block;
  ttl_seconds = some 60;
  unread = field (codes "description") (str []) end;
}

abbrev pub loaded : LoadedRulebook
loaded = record { canonical = codes "{}"; digest = codes "sha256:1"; value = value }

-- Stand-ins for the reader, the writer and the digest.
abbrev pub load : Text → Option RulebookValue
load _ = some value

abbrev pub write : RulebookValue → Option Text
write _ = some (codes "{}")

abbrev pub hex : Text → Text
hex _ = codes "1"

loads : load_rulebook_bytes load (λ _. true) write hex [] ≡ returned loaded
unfolding load_rulebook_bytes
loads = refl

-- The same rule, requiring evidence that no declaration names.
refuses :
    load_rulebook_bytes
      (λ _. some (record {
        rulebook_id = value.rulebook_id;
        version = value.version;
        adopted_at = value.adopted_at;
        evidence = [];
        rules =
            record {
              id = codes "small";
              when = allow_small.when;
              outcome = RuleOutcome.allow;
              reason = [];
              requires_evidence = codes "build" ∷ [];
            }
            ∷ [];
        default_outcome = value.default_outcome;
        ttl_seconds = none;
        unread = end;
      }))
      (λ _. true)
      write
      hex
      []
    ≡ raised undeclared_evidence_id
unfolding load_rulebook_bytes
refuses = refl

load_rulebook_bytes-Sound_example :
    Sound value
    × (load [] ≡ some value)
    × (true ≡ true)
    × (loaded.digest ≡ codes "sha256:" ++ hex loaded.canonical)
    × (write value ≡ some loaded.canonical)
load_rulebook_bytes-Sound_example =
    load_rulebook_bytes-Sound load (λ _. true) write hex [] loaded loads

abbrev pub frozen_at : Text
frozen_at = codes "2024-01-01T00:00:01Z"

abbrev pub digest : Payload → Text
digest _ = codes "2"

abbrev pub snapshot : Snapshot
snapshot = record {
  payload = record {
    snapshot_id = codes "s";
    rulebook_digest = codes "sha256:1";
    frozen_at = frozen_at;
    items =
        record {
          id = codes "build";
          order = 0;
          status = Status.missing;
          acquired_at = frozen_at;
          value = none;
          value_digest = none;
        }
        ∷ [];
  };
  snapshot_digest = codes "2";
}

builds :
    build_snapshot digest (λ _. true) (pinned_of loaded (pos 0)) (codes "s") (str frozen_at) []
    ≡ accepted snapshot
unfolding build_snapshot verify_run.Instant.instant verify_run.Instant.match_date_time
    verify_run.Instant.in_calendar verify_run.Instant.month_days verify_run.Instant.instant_of
    verify_run.Base.Int.◌+ℤ◌ verify_run.Base.Int.times_ℤ verify_run.Base.Int.◌-ℤ◌
    verify_run.Instant.days_from_civil verify_run.Base.Int.div_ℤ verify_run.Base.Digits.value_from
    verify_run.Snapshot.seen_in
builds = refl
