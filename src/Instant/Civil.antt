-- ===== src/Instant/Civil.antt =====
-- `_days_from_civil` and the calendar of `_add_seconds` are inverse to each other.
use verify_run.Base.{ℕ, ◌+◌, ◌-◌, ◌*◌, ◌/◌, ◌%◌, ◌≤◌, ◌<◌, ◌≡◌, refl, subst, ◌∙◌, ap, arith}
use native.Mathlib.Decide.{dec_lt}
use verify_run.Base.Int.{pos, pos_part, ◌+ℤ◌, ◌-ℤ◌, times_ℤ, div_ℤ}
use verify_run.Instant.{days_from_civil, month_days}
use verify_run.Instant.Era.{
  year_of, days_before, year_of-lt, days_before-le, day_of_year-le, leap_day,
}
use verify_run.Instant.Render.{Civil, civil_of_era, civil_from_days}

-- A month counted from March, and its length in a year that has `long` days in its last month.
abbrev day_number : ℕ → ℕ → ℕ
day_number position day = (153 * position + 2) / 5 + day - 1

abbrev march_count : ℕ → ℕ → ℕ → ℕ → ℕ
march_count era yoe position day =
    era * 146097 + (yoe * 365 + yoe / 4 - yoe / 100 + day_number position day)

-- The year that begins in March `year`, as `_days_from_civil` counts it.
days_from_civil-late :
    (y m d : ℕ)
    → 2 < m
    → days_from_civil y m d ≡ pos (march_count (y / 400) (y % 400) (m - 3) d) -ℤ pos 719468
unfolding days_from_civil ◌+ℤ◌ ◌-ℤ◌ times_ℤ div_ℤ
days_from_civil-late y m d h = ground arith

days_from_civil-early :
    (y m d : ℕ)
    → m ≤ 2
    → days_from_civil (y + 1) m d ≡ pos (march_count (y / 400) (y % 400) (m + 9) d) -ℤ pos 719468
unfolding days_from_civil ◌+ℤ◌ ◌-ℤ◌ times_ℤ div_ℤ
days_from_civil-early y m d h = ground arith

year_sum : (y e k : ℕ) → pos y +ℤ times_ℤ (pos e) 400 +ℤ pos k ≡ pos (e * 400 + y + k)
unfolding ◌+ℤ◌ times_ℤ
year_sum y e k = ground arith

-- The era and the day in it.
cancelled : (n k : ℕ) → pos n -ℤ pos k +ℤ pos k ≡ pos n
unfolding ◌+ℤ◌ ◌-ℤ◌
cancelled n k = ground arith

remainder : (n : ℕ) → pos_part (pos n -ℤ times_ℤ (div_ℤ (pos n) 146097) 146097) ≡ n % 146097
unfolding ◌-ℤ◌ times_ℤ div_ℤ
remainder n = ground arith

days_in_era :
    (n : ℕ) → civil_from_days (pos n -ℤ pos 719468) ≡ civil_of_era (pos (n / 146097)) (n % 146097)
unfolding civil_from_days div_ℤ
days_in_era n = rw cancelled (ap (civil_of_era (pos (n / 146097))) (remainder n))

day_high-late :
    (y doy position : ℕ)
    → doy ≤ 365
    → position ≡ (5 * doy + 2) / 153
    → position < 10
    → doy - (153 * position + 2) / 5 + 1 ≤ month_days y (position + 3)
unfolding month_days
day_high-late y doy position h e k = ground arith

day_high-early :
    (y doy position : ℕ)
    → doy ≤ 365
    → (doy ≡ 365 → (y % 4 ≡ 0) × (y % 100 ≡ 0 → y % 400 ≡ 0))
    → position ≡ (5 * doy + 2) / 153
    → 10 ≤ position
    → doy - (153 * position + 2) / 5 + 1 ≤ month_days y (position - 9)
unfolding month_days
day_high-early y doy position h leap e k = ground arith

-- A date of the calendar, that counts back to day `n` from 0000-03-01.
pub record Dates (n : ℕ) (c : Civil) : Type 0 where
  pub year : ℕ
  pub is_year : c.year ≡ pos year
  pub counts : days_from_civil year c.month c.day ≡ pos n -ℤ pos 719468
  pub month_low : 1 ≤ c.month
  pub month_high : c.month ≤ 12
  pub day_low : 1 ≤ c.day
  pub day_high : c.day ≤ month_days year c.month

module _ (era doe : ℕ) (in_era : doe < 146097) where
  abbrev yoe : ℕ
  yoe = year_of doe

  abbrev doy : ℕ
  doy = doe - days_before yoe

  abbrev position : ℕ
  position = (5 * doy + 2) / 153

  abbrev day : ℕ
  day = doy - (153 * position + 2) / 5 + 1

  abbrev march_year : ℕ
  march_year = era * 400 + yoe

  march_count-lem :
      march_count (march_year / 400) (march_year % 400) position day ≡ era * 146097 + doe
  march_count-lem =
      let y : march_year / 400 ≡ era = omega (arith, year_of-lt doe in_era) in
      let r : march_year % 400 ≡ yoe = omega (arith, year_of-lt doe in_era) in
      rw (y, r)
        (omega (arith, year_of-lt doe in_era, days_before-le doe in_era, day_of_year-le doe in_era))

  next_leap :
      ((yoe + 1) % 4 ≡ 0) × ((yoe + 1) % 100 ≡ 0 → (yoe + 1) % 400 ≡ 0)
      → ((march_year + 1) % 4 ≡ 0) × ((march_year + 1) % 100 ≡ 0 → (march_year + 1) % 400 ≡ 0)
  next_leap h = (omega (arith, h.0), λ e. omega (arith, h.1 (omega arith)))

  Dates-late :
      position < 10
      → Dates
          (era * 146097 + doe)
          (record { year = pos march_year; month = position + 3; day = day })
  Dates-late h = record {
    year = march_year;
    is_year = refl;
    counts =
        let e : position + 3 - 3 ≡ position = omega arith in
        days_from_civil-late march_year (position + 3) day (omega arith)
        ∙ ap (λ k. pos k -ℤ pos 719468)
            (ap (λ k. march_count (march_year / 400) (march_year % 400) k day) e ∙ march_count-lem);
    month_low = omega arith;
    month_high = omega arith;
    day_low = omega arith;
    day_high = day_high-late march_year doy position (day_of_year-le doe in_era) refl h;
  }

  Dates-early :
      10 ≤ position
      → Dates
          (era * 146097 + doe)
          (record { year = pos (march_year + 1); month = position - 9; day = day })
  Dates-early h = record {
    year = march_year + 1;
    is_year = refl;
    counts =
        let e : position - 9 + 9 ≡ position = omega arith in
        days_from_civil-early march_year (position - 9) day
          (omega (arith, day_of_year-le doe in_era))
        ∙ ap (λ k. pos k -ℤ pos 719468)
            (ap (λ k. march_count (march_year / 400) (march_year % 400) k day) e ∙ march_count-lem);
    month_low = omega arith;
    month_high = omega (arith, day_of_year-le doe in_era);
    day_low = omega arith;
    day_high =
        day_high-early (march_year + 1) doy position (day_of_year-le doe in_era)
          (λ full. next_leap (leap_day doe in_era full)) refl h;
  }

  civil_of_era-Dates : Dates (era * 146097 + doe) (civil_of_era (pos era) doe)
  unfolding civil_of_era
  civil_of_era-Dates = elim (dec_lt position 10) [
    | yes h ↦
        let e : civil_of_era (pos era) doe
            ≡ record { year = pos march_year; month = position + 3; day = day } =
          rw year_sum (ground arith) in
        rw e (Dates-late h)
    | no h ↦
        let e : civil_of_era (pos era) doe
            ≡ record { year = pos (march_year + 1); month = position - 9; day = day } =
          rw year_sum (ground (arith, day_of_year-le doe in_era)) in
        rw e (Dates-early (omega arith))
  ]

days_split : (n : ℕ) → n / 146097 * 146097 + n % 146097 ≡ n
days_split n = omega arith

-- For every day from 0000-03-01 on, the calendar of `_add_seconds` shows a date that exists, with a
-- year that is not negative, and `_days_from_civil` counts that date back to the same day.
pub civil_from_days-Dates : (n : ℕ) → Dates n (civil_from_days (pos n -ℤ pos 719468))
civil_from_days-Dates n = rw days_in_era (
    subst (λ k. Dates k (civil_of_era (pos (n / 146097)) (n % 146097))) (days_split n)
      (civil_of_era-Dates (n / 146097) (n % 146097) (omega arith)))
