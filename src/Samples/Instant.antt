-- ===== src/Samples/Instant.antt =====
-- vfy/rulebook.py and vfy/authorization.py: instants at concrete texts.
use verify_run.Base.{◌≡◌, refl, some, ◌+◌, ◌<◌, Text, codes, arith}
use verify_run.Base.Int.{ℤ, pos, negsuc, ◌-ℤ◌, ◌+ℤ◌, ◌≤ℤ◌, div_ℤ, times_ℤ}
use verify_run.Instant.{instant, nanos_per_second}
use verify_run.Instant.Render.{civil_from_days, add_seconds}
use verify_run.Instant.Civil.{Dates, civil_from_days-Dates}
use verify_run.Instant.RoundTrip.{second_of, instant-add_seconds}
use verify_run.Instant.YearZero.{add_seconds-day_late}

civil_from_days-Dates_example : Dates 738000 (civil_from_days (pos 738000 -ℤ pos 719468))
civil_from_days-Dates_example = civil_from_days-Dates 738000

abbrev leap_eve : Text
leap_eve = codes "2024-02-28T23:59:30.5+00:00"

abbrev leap_eve_instant : ℤ
leap_eve_instant = pos 1709164770500000000

leap_eve_read : instant leap_eve ≡ some leap_eve_instant
unfolding instant verify_run.Instant.match_date_time verify_run.Instant.in_calendar
    verify_run.Instant.month_days verify_run.Instant.instant_of ◌+ℤ◌ times_ℤ ◌-ℤ◌
    verify_run.Instant.days_from_civil div_ℤ verify_run.Base.Digits.value_from
leap_eve_read = refl

in_range_low : pos 0 ≤ℤ div_ℤ (second_of leap_eve_instant 60) 86400 +ℤ pos 719468
unfolding div_ℤ ◌+ℤ◌
in_range_low = omega arith

in_range_high : (civil_from_days (div_ℤ (second_of leap_eve_instant 60) 86400)).year ≤ℤ pos 9999
unfolding civil_from_days div_ℤ ◌+ℤ◌ verify_run.Instant.Render.civil_of_era times_ℤ
    verify_run.Instant.Era.year_of ◌-ℤ◌
in_range_high = omega arith

instant-add_seconds_example :
    (t : Text) × (add_seconds leap_eve 60 ≡ some t)
    × (instant t ≡ some (times_ℤ (second_of leap_eve_instant 60) nanos_per_second))
instant-add_seconds_example =
    instant-add_seconds leap_eve 60 leap_eve_instant leap_eve_read in_range_low in_range_high

leap_day : add_seconds leap_eve 60 ≡ some (codes "2024-02-29T00:00:30Z")
unfolding add_seconds instant verify_run.Instant.match_date_time verify_run.Instant.in_calendar
    verify_run.Instant.month_days verify_run.Instant.Render.render_seconds
    verify_run.Instant.Render.render civil_from_days verify_run.Instant.Render.civil_of_era ◌+ℤ◌
    times_ℤ div_ℤ verify_run.Instant.instant_of ◌-ℤ◌ verify_run.Instant.days_from_civil
    verify_run.Base.Digits.value_from verify_run.Instant.Era.year_of
    verify_run.Instant.Render.padded verify_run.Base.Digits.to_digits
leap_day = refl

abbrev new_year : Text
new_year = codes "0000-01-01T00:00:00Z"

abbrev new_year_instant : ℤ
new_year_instant = negsuc 62167219199999999999

new_year_read : instant new_year ≡ some new_year_instant
unfolding instant verify_run.Instant.match_date_time verify_run.Instant.in_calendar
    verify_run.Instant.month_days verify_run.Instant.instant_of ◌+ℤ◌ times_ℤ ◌-ℤ◌
    verify_run.Instant.days_from_civil div_ℤ verify_run.Base.Digits.value_from
new_year_read = refl

in_year_zero : 58 < 59
in_year_zero = omega arith

new_year_day : div_ℤ (second_of new_year_instant 60) 86400 ≡ negsuc (719469 + 58)
unfolding div_ℤ ◌+ℤ◌
new_year_day = refl

add_seconds-day_late_example :
    (t : Text) × (add_seconds new_year 60 ≡ some t)
    × (instant t ≡ some (times_ℤ (second_of new_year_instant 60 +ℤ pos 86400) nanos_per_second))
add_seconds-day_late_example =
    add_seconds-day_late new_year 60 new_year_instant 58 in_year_zero new_year_read new_year_day

a_day_late : add_seconds new_year 60 ≡ some (codes "0000-01-02T00:01:00Z")
unfolding add_seconds instant verify_run.Instant.match_date_time verify_run.Instant.in_calendar
    verify_run.Instant.month_days verify_run.Instant.Render.render_seconds
    verify_run.Instant.Render.render civil_from_days verify_run.Instant.Render.civil_of_era ◌+ℤ◌
    times_ℤ div_ℤ verify_run.Instant.instant_of ◌-ℤ◌ verify_run.Instant.days_from_civil
    verify_run.Base.Digits.value_from verify_run.Instant.Era.year_of
    verify_run.Instant.Render.padded verify_run.Base.Digits.to_digits
a_day_late = refl
