-- ===== src/Samples/Snapshot.antt =====
-- vfy/snapshot.py: one snapshot, built and accepted.
use verify_run.Base.{◌≡◌, refl, none, some, true, List, [], ◌∷◌, Text, codes, length, text_eq}
use verify_run.Base.Int.{pos}
use verify_run.Base.Digits.{to_digits}
use verify_run.Value.{Value, str, dict, field, end}
use verify_run.Context.{missing, ok}
use verify_run.Snapshot.{accepted, Payload, Snapshot, Pinned, build_snapshot, verify_snapshot_value}
use verify_run.Snapshot.Required.{Distinct}
use verify_run.Snapshot.Valid.{Valid, verify_snapshot_value-Valid}
use verify_run.Snapshot.Accepted.{build_snapshot-verify_snapshot_value}

abbrev pinned : Pinned
pinned = record {
  digest = codes "sha256:1";
  adopted_at = pos 0;
  evidence =
      record { id = codes "build"; max_age_seconds = none; required = true }
      ∷ record { id = codes "review"; max_age_seconds = none; required = true }
      ∷ [];
}

abbrev acquisitions : List Value
acquisitions =
    dict (
      field (codes "id") (str (codes "build")) (
        field (codes "status") (str (codes "ok")) (
          field (codes "acquired_at") (str (codes "2024-01-01T00:00:00Z"))
            (field (codes "value") (Value.bool true) end))))
    ∷ []

-- A stand-in for the digest: the number of items.
abbrev sample_digest : Payload → Text
sample_digest p = to_digits (length p.items)

abbrev frozen_at : Text
frozen_at = codes "2024-01-01T00:00:01Z"

abbrev built : Snapshot
built = record {
  payload = record {
    snapshot_id = codes "s";
    rulebook_digest = codes "sha256:1";
    frozen_at = frozen_at;
    items =
        record {
          id = codes "build";
          order = 0;
          status = ok;
          acquired_at = codes "2024-01-01T00:00:00Z";
          value = some (Value.bool true);
          value_digest = none;
        }
        ∷ record {
          id = codes "review";
          order = 1;
          status = missing;
          acquired_at = frozen_at;
          value = none;
          value_digest = none;
        }
        ∷ [];
  };
  snapshot_digest = codes "2";
}

distinct : Distinct pinned.evidence
unfolding text_eq
distinct = ((refl, tt), (tt, tt))

builds :
    build_snapshot sample_digest (λ _. true) pinned (codes "s") (str frozen_at) acquisitions
    ≡ accepted built
unfolding build_snapshot verify_run.Instant.instant verify_run.Instant.match_date_time
    verify_run.Instant.in_calendar verify_run.Instant.month_days verify_run.Instant.instant_of
    verify_run.Base.Int.◌+ℤ◌ verify_run.Base.Int.times_ℤ verify_run.Base.Int.◌-ℤ◌
    verify_run.Instant.days_from_civil verify_run.Base.Int.div_ℤ verify_run.Base.Digits.value_from
    verify_run.Base.text_eq verify_run.Snapshot.declared verify_run.Snapshot.seen_in to_digits
builds = refl

build_snapshot-verify_snapshot_value_example :
    verify_snapshot_value sample_digest (λ _. true) built pinned ≡ accepted built
build_snapshot-verify_snapshot_value_example =
    build_snapshot-verify_snapshot_value sample_digest (λ _. true) pinned distinct (codes "s")
      (str frozen_at) acquisitions built builds

verifies : verify_snapshot_value sample_digest (λ _. true) built pinned ≡ accepted built
unfolding verify_snapshot_value text_eq to_digits verify_run.Instant.instant
    verify_run.Instant.match_date_time verify_run.Instant.in_calendar verify_run.Instant.month_days
    verify_run.Instant.instant_of verify_run.Base.Int.◌+ℤ◌ verify_run.Base.Int.times_ℤ
    verify_run.Base.Int.◌-ℤ◌ verify_run.Instant.days_from_civil verify_run.Base.Int.div_ℤ
    verify_run.Base.Digits.value_from verify_run.Snapshot.declared verify_run.Snapshot.seen_in
verifies = refl

verify_snapshot_value-Valid_example : (built ≡ built) × Valid sample_digest built pinned
verify_snapshot_value-Valid_example =
    verify_snapshot_value-Valid sample_digest (λ _. true) built pinned built verifies
