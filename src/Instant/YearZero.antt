-- ===== src/Instant/YearZero.antt =====
-- `_add_seconds` in front of 0000-03-01. It rounds the era down twice there: the subtraction of 146096 is
-- meant for a division that rounds towards zero.
use verify_run.Base.{
  ℕ, ◌+◌, ◌≤◌, ◌<◌, ◌≡◌, refl, ap, sym, ◌∙◌, Bool, true, ◌&&◌, some, Text, leb, arith, holds_below,
  holds_below_lem,
}
use verify_run.Base.Int.{ℤ, pos, negsuc, ◌+ℤ◌, ◌-ℤ◌, times_ℤ, div_ℤ, eq_ℤ, eq_of_parts}
use verify_run.Instant.{days_from_civil, month_days, instant, nanos_per_second}
use verify_run.Instant.Era.{year_of}
use verify_run.Instant.Render.{
  Civil, civil_of_era, civil_from_days, render, render_seconds, mod_ℤ, add_seconds,
}
use verify_run.Instant.RoundTrip.{second_of, div_mod_ℤ, instant-render_civil}

-- What is shown for day -1 - `n` is a date of the year 0, which `_days_from_civil` counts as `next`.
record Shown (n : ℕ) (next : ℤ) : Type 0 where
  in_year : (civil_from_days (negsuc n)).year ≡ pos 0
  month_low : 1 ≤ (civil_from_days (negsuc n)).month
  month_high : (civil_from_days (negsuc n)).month ≤ 12
  day_low : 1 ≤ (civil_from_days (negsuc n)).day
  day_high : (civil_from_days (negsuc n)).day ≤ month_days 0 (civil_from_days (negsuc n)).month
  counts :
      days_from_civil 0 (civil_from_days (negsuc n)).month (civil_from_days (negsuc n)).day ≡ next

abbrev in_year_zero : Civil → Bool
in_year_zero c =
    eq_ℤ c.year (pos 0)
    && leb 1 c.month
    && leb c.month 12
    && leb 1 c.day
    && leb c.day (month_days 0 c.month)

abbrev shows : Civil → ℤ → Bool
shows c next = in_year_zero c && eq_ℤ (days_from_civil 0 c.month c.day) next

table :
    holds_below 59 (λ k. shows (civil_from_days (negsuc (719469 + k))) (negsuc (719468 + k))) ≡ true
unfolding holds_below civil_from_days civil_of_era days_from_civil month_days year_of ◌+ℤ◌ ◌-ℤ◌
    times_ℤ div_ℤ
table = refl

shown : (k : ℕ) → k < 59 → Shown (719469 + k) (negsuc (719468 + k))
shown k h =
    let row = holds_below_lem _ 59 k h table in
    record {
      in_year = eq_of_parts _ _ (ground (arith, row));
      month_low = ground (arith, row);
      month_high = ground (arith, row);
      day_low = ground (arith, row);
      day_high = ground (arith, row);
      counts = eq_of_parts _ _ (ground (arith, row));
    }

a_day_later :
    (k r : ℕ)
    → times_ℤ (negsuc (719468 + k)) 86400 +ℤ pos r
      ≡ times_ℤ (negsuc (719469 + k)) 86400 +ℤ pos r +ℤ pos 86400
unfolding times_ℤ ◌+ℤ◌ ◌-ℤ◌
a_day_later k r = ground arith

-- Where the sum of an instant and some seconds falls on one of the 59 days from 0000-01-01 to 0000-02-28,
-- the text that `_add_seconds` returns is read back by `_instant` as exactly one day after the whole
-- seconds of the sum.
pub add_seconds-day_late :
    (text : Text) (seconds : ℕ) (start : ℤ) (k : ℕ)
    → k < 59
    → instant text ≡ some start
    → div_ℤ (second_of start seconds) 86400 ≡ negsuc (719469 + k)
    → (t : Text) × (add_seconds text seconds ≡ some t)
      × (instant t ≡ some (times_ℤ (second_of start seconds +ℤ pos 86400) nanos_per_second))
unfolding add_seconds render_seconds
add_seconds-day_late text seconds start k h e day =
    let total : ℤ = second_of start seconds in
    let c : Civil = civil_from_days (negsuc (719469 + k)) in
    let s = shown k h in
    let r : ℕ = mod_ℤ total 86400 in
    let same : c ≡ record { year = pos 0; month = c.month; day = c.day } =
      λ i. record { year = s.in_year i; month = c.month; day = c.day } in
    let later : times_ℤ (negsuc (719468 + k)) 86400 +ℤ pos r ≡ total +ℤ pos 86400 =
      a_day_later k r
      ∙ ap (λ d. times_ℤ d 86400 +ℤ pos r +ℤ pos 86400) (sym day)
      ∙ ap (λ z. z +ℤ pos 86400) (div_mod_ℤ total).0 in
    (
      render_seconds total,
      rw e refl,
      ap (λ d. instant (render (civil_from_days d) r)) day
          ∙ ap (λ d. instant (render d r)) same
          ∙ instant-render_civil 0 c.month c.day r (negsuc (719468 + k)) (omega arith) s.month_low
              s.month_high s.day_low s.day_high s.counts (div_mod_ℤ total).1
          ∙ ap (λ z. some (times_ℤ z nanos_per_second)) later,
    )
