-- ===== src/Authorization/Interval.antt =====
-- The interval of an authorization: what `verify_authorization` finds of it, and how long it is.
use verify_run.Base.{◌≡◌, ap, ℕ, ◌+◌, ◌*◌, ◌≤◌, ◌<◌, true, not, Option, none, some, Text, arith}
use verify_run.Base.Int.{
  ℤ, pos, negsuc, pos_part, neg_part, ◌≤ℤ◌, ltb_ℤ, leb_ℤ, eq_ℤ, eq_of_parts, ◌+ℤ◌, times_ℤ, div_ℤ,
  +ℤ_parts,
}
use verify_run.Base.Attempt.{returned, returned-bind, returned-require, require_inv}
use verify_run.Authorization.{Payload, instant_at}
use verify_run.Authorization.Verify.{expected_expiry, check_now, check_interval}
use verify_run.Authorization.Sound.{instant_at-some}
use verify_run.Instant.{instant, nanos_per_second}
use verify_run.Snapshot.{Snapshot}

infix 50 ◌<ℤ◌
abbrev pub ◌<ℤ◌ : ℤ → ℤ → Type 0
a <ℤ b = pos_part a + neg_part b < pos_part b + neg_part a

-- The instant of the check lies in the interval, if there is one.
abbrev pub Within : Option Text → ℤ → ℤ → Type 0
Within none issued expires = Unit
Within (some time) issued expires =
    (now : ℤ) × (instant time ≡ some now) × (issued ≤ℤ now) × (now <ℤ expires)

-- Issued not before the freeze, and expiring when the lifetime of the rulebook says.
pub record Timely (p : Payload) (snapshot : Snapshot) (ttl : ℕ) (time : Option Text) : Type 0 where
  pub issued : ℤ
  pub expires : ℤ
  pub frozen : ℤ
  pub issued_at : instant p.issued_at ≡ some issued
  pub expires_at : instant p.expires_at ≡ some expires
  pub frozen_at : instant snapshot.payload.frozen_at ≡ some frozen
  pub after_freeze : frozen ≤ℤ issued
  pub not_empty : issued <ℤ expires
  pub derived : expires ≡ expected_expiry issued ttl
  pub within : Within time issued expires

not_ltb : (a b : ℤ) → not (ltb_ℤ a b) ≡ true → b ≤ℤ a
not_ltb a b h = ground arith

not_leb : (a b : ℤ) → not (leb_ℤ a b) ≡ true → b <ℤ a
not_leb a b h = ground arith

check_now-Within :
    (time : Option Text) (issued expires : ℤ)
    → check_now time issued expires ≡ returned tt
    → Within time issued expires
unfolding check_now
check_now-Within none issued expires h = tt
check_now-Within (some t) issued expires h =
    let (now, at, h1) = returned-bind (instant_at t) _ tt h in
    let (begun, h2) = returned-require (not (ltb_ℤ now issued)) _ _ tt h1 in
    (
      now,
      instant_at-some t now at,
      not_ltb now issued begun,
      not_leb expires now (require_inv (not (leb_ℤ expires now)) _ h2),
    )

pub check_interval-Timely :
    (p : Payload) (snapshot : Snapshot) (ttl : ℕ) (time : Option Text)
    → check_interval p snapshot ttl time ≡ returned tt
    → Timely p snapshot ttl time
unfolding check_interval
check_interval-Timely p snapshot ttl time h =
    let (issued, i, h1) = returned-bind (instant_at p.issued_at) _ tt h in
    let (expires, e, h2) = returned-bind (instant_at p.expires_at) _ tt h1 in
    let (frozen, f, h3) = returned-bind (instant_at snapshot.payload.frozen_at) _ tt h2 in
    let (after_freeze, h4) = returned-require (not (ltb_ℤ issued frozen)) _ _ tt h3 in
    let (not_empty, h5) = returned-require (not (leb_ℤ expires issued)) _ _ tt h4 in
    let (derived, h6) = returned-require (eq_ℤ expires (expected_expiry issued ttl)) _ _ tt h5 in
    record {
      issued = issued;
      expires = expires;
      frozen = frozen;
      issued_at = instant_at-some p.issued_at issued i;
      expires_at = instant_at-some p.expires_at expires e;
      frozen_at = instant_at-some snapshot.payload.frozen_at frozen f;
      after_freeze = not_ltb issued frozen after_freeze;
      not_empty = not_leb expires issued not_empty;
      derived = eq_ℤ-sound expires (expected_expiry issued ttl) derived;
      within = check_now-Within time issued expires h6;
    }
  where
    eq_ℤ-sound : (a b : ℤ) → eq_ℤ a b ≡ true → a ≡ b
    eq_ℤ-sound a b h = eq_of_parts a b (ground (h, arith))

times_ℤ_parts :
    (z : ℤ) (k : ℕ)
    → pos_part (times_ℤ z k) + neg_part z * k ≡ neg_part (times_ℤ z k) + pos_part z * k
unfolding times_ℤ
times_ℤ_parts (pos n) k = ground arith
times_ℤ_parts (negsuc n) k = ground arith

div_ℤ_low :
    (z : ℤ)
    → pos_part (div_ℤ z nanos_per_second) * nanos_per_second + neg_part z
      ≤ pos_part z + neg_part (div_ℤ z nanos_per_second) * nanos_per_second
unfolding div_ℤ
div_ℤ_low (pos n) = omega arith
div_ℤ_low (negsuc n) = omega arith

div_ℤ_high :
    (z : ℤ)
    → pos_part z + neg_part (div_ℤ z nanos_per_second) * nanos_per_second
      < pos_part (div_ℤ z nanos_per_second) * nanos_per_second + neg_part z + nanos_per_second
unfolding div_ℤ
div_ℤ_high (pos n) = omega arith
div_ℤ_high (negsuc n) = omega arith

-- The expiry is at most the lifetime after the issue, and less than a second short of it.
pub expected_expiry-bounds :
    (issued : ℤ) (ttl : ℕ)
    → (expected_expiry issued ttl ≤ℤ issued +ℤ pos (ttl * nanos_per_second))
      × (issued +ℤ pos (ttl * nanos_per_second)
          <ℤ expected_expiry issued ttl +ℤ pos nanos_per_second)
unfolding expected_expiry
expected_expiry-bounds issued ttl =
    let d : ℤ = div_ℤ issued nanos_per_second in
    let low = div_ℤ_low issued in
    let high = div_ℤ_high issued in
    let sum = +ℤ_parts d (pos ttl) in
    let whole = times_ℤ_parts (d +ℤ pos ttl) nanos_per_second in
    let end = +ℤ_parts issued (pos (ttl * nanos_per_second)) in
    let next = +ℤ_parts (expected_expiry issued ttl) (pos nanos_per_second) in
    (
      omega (arith, low, high, sum, whole, end, next),
      omega (arith, low, high, sum, whole, end, next),
    )

-- Issuing adds the lifetime before it drops the fraction of a second, verifying after: the same.
pub second_of-expected_expiry :
    (issued : ℤ) (ttl : ℕ)
    → times_ℤ (div_ℤ (issued +ℤ pos (ttl * nanos_per_second)) nanos_per_second) nanos_per_second
      ≡ expected_expiry issued ttl
unfolding expected_expiry
second_of-expected_expiry issued ttl = ap (λ z. times_ℤ z nanos_per_second) (eq_of_parts _ _ same)
  where
    same :
        pos_part (div_ℤ (issued +ℤ pos (ttl * nanos_per_second)) nanos_per_second)
          + neg_part (div_ℤ issued nanos_per_second +ℤ pos ttl)
        ≡ pos_part (div_ℤ issued nanos_per_second +ℤ pos ttl)
          + neg_part (div_ℤ (issued +ℤ pos (ttl * nanos_per_second)) nanos_per_second)
    same =
        let later : ℤ = issued +ℤ pos (ttl * nanos_per_second) in
        omega (
          arith,
          div_ℤ_low issued,
          div_ℤ_high issued,
          div_ℤ_low later,
          div_ℤ_high later,
          +ℤ_parts issued (pos (ttl * nanos_per_second)),
          +ℤ_parts (div_ℤ issued nanos_per_second) (pos ttl),
        )
