-- ===== src/Instant/RoundTrip.antt =====
-- What `_add_seconds` renders, `_instant` reads back.
use verify_run.Base.{
  ℕ, ◌+◌, ◌*◌, ◌/◌, ◌%◌, ◌≤◌, ◌<◌, ◌≡◌, refl, ap, subst, ◌∙◌, true, some, [], ◌∷◌, ◌++◌, Text,
  text_eq, text_eq_iff, arith, holds_below, holds_below_lem,
}
use verify_run.Base.Int.{ℤ, pos, negsuc, pos_part, ◌≤ℤ◌, ◌+ℤ◌, ◌-ℤ◌, times_ℤ, div_ℤ}
use verify_run.Base.Digits.{to_digits, value_from}
use verify_run.Instant.{
  DateTime, zulu, take_two, take_four, match_date_time, in_calendar, month_days, days_from_civil,
  instant_of, instant, nanos_per_second,
}
use verify_run.Instant.Render.{
  Civil, civil_from_days, padded, render, render_seconds, mod_ℤ, add_seconds,
}
use verify_run.Instant.Civil.{Dates, civil_from_days-Dates}

-- The second in which an instant lies, some whole seconds later.
abbrev pub second_of : ℤ → ℕ → ℤ
second_of start seconds = div_ℤ (start +ℤ pos (seconds * nanos_per_second)) nanos_per_second

abbrev two : ℕ → Text
two n = (b'0' + n / 10) ∷ (b'0' + n % 10) ∷ []

padded-two_table : holds_below 100 (λ n. text_eq (padded 2 n) (two n)) ≡ true
unfolding holds_below padded to_digits text_eq
padded-two_table = refl

padded-two : (n : ℕ) → n < 100 → padded 2 n ≡ two n
padded-two n h = (text_eq_iff (padded 2 n) (two n)).0 (holds_below_lem _ 100 n h padded-two_table)

padded-four_table :
    holds_below 10000 (λ n. text_eq (padded 4 n) (two (n / 100) ++ two (n % 100))) ≡ true
unfolding holds_below padded to_digits text_eq
padded-four_table = refl

padded-four : (n : ℕ) → n < 10000 → padded 4 n ≡ two (n / 100) ++ two (n % 100)
padded-four n h =
    (text_eq_iff (padded 4 n) (two (n / 100) ++ two (n % 100))).0
      (holds_below_lem _ 10000 n h padded-four_table)

take_two-two : (n : ℕ) (s : Text) → n < 100 → take_two (two n ++ s) ≡ some (n, s)
unfolding take_two
take_two-two n s h = ground arith

take_two-padded : (n : ℕ) (s : Text) → n < 100 → take_two (padded 2 n ++ s) ≡ some (n, s)
take_two-padded n s h = rw (padded-two n h) (take_two-two n s h)

take_four-padded : (n : ℕ) (s : Text) → n < 10000 → take_four (padded 4 n ++ s) ≡ some (n, s)
unfolding take_four
take_four-padded n s h =
    let first : take_two (two (n / 100) ++ (two (n % 100) ++ s))
        ≡ some (n / 100, two (n % 100) ++ s) =
      take_two-two (n / 100) (two (n % 100) ++ s) (omega arith) in
    let second : take_two (two (n % 100) ++ s) ≡ some (n % 100, s) =
      take_two-two (n % 100) s (omega arith) in
    rw (padded-four n h, first, second) (ground arith)

-- The date and time that a rendered text stands for.
abbrev pub zulu_time : ℕ → ℕ → ℕ → ℕ → DateTime
zulu_time year month day remainder = record {
  year = year;
  month = month;
  day = day;
  hour = remainder / 3600;
  minute = remainder % 3600 / 60;
  second = remainder % 3600 % 60;
  fraction = [];
  zone = zulu;
}

match_date_time-render :
    (y m d remainder : ℕ)
    → y < 10000
    → m < 100
    → d < 100
    → remainder < 86400
    → match_date_time (render (record { year = pos y; month = m; day = d }) remainder)
      ≡ some (zulu_time y m d remainder)
unfolding match_date_time render
match_date_time-render y m d remainder hy hm hd hr = rw (
  take_four-padded y _ hy,
  take_two-padded m _ hm,
  take_two-padded d _ hd,
  take_two-padded (remainder / 3600) _ (omega arith),
  take_two-padded (remainder % 3600 / 60) _ (omega arith),
  take_two-padded (remainder % 3600 % 60) _ (omega arith),
)

-- Python's `//` and `%` on an integer.
pub div_mod_ℤ :
    (z : ℤ) → (times_ℤ (div_ℤ z 86400) 86400 +ℤ pos (mod_ℤ z 86400) ≡ z) × (mod_ℤ z 86400 < 86400)
unfolding times_ℤ div_ℤ ◌+ℤ◌ ◌-ℤ◌
div_mod_ℤ (pos n) = (ground arith, ground arith)
div_mod_ℤ (negsuc n) = (ground arith, ground arith)

shifted : (d : ℤ) (k : ℕ) → pos 0 ≤ℤ d +ℤ pos k → pos (pos_part (d +ℤ pos k)) -ℤ pos k ≡ d
unfolding ◌+ℤ◌ ◌-ℤ◌
shifted d k h = ground arith

whole_seconds :
    (days : ℤ) (r : ℕ) → times_ℤ days 86400 +ℤ pos r -ℤ pos 0 ≡ times_ℤ days 86400 +ℤ pos r
unfolding ◌+ℤ◌ ◌-ℤ◌
whole_seconds days r = ground arith

plus_zero : (z : ℤ) → z +ℤ pos 0 ≡ z
unfolding ◌+ℤ◌
plus_zero z = ground arith

instant_of-zulu :
    (y m d r : ℕ) (days : ℤ)
    → days_from_civil y m d ≡ days
    → instant_of (zulu_time y m d r) ≡ times_ℤ (times_ℤ days 86400 +ℤ pos r) nanos_per_second
unfolding instant_of value_from
instant_of-zulu y m d r days e =
    let t : r / 3600 * 3600 + r % 3600 / 60 * 60 + r % 3600 % 60 ≡ r = omega arith in
    rw (e, t, whole_seconds, plus_zero)

in_calendar-zulu :
    (y m d r : ℕ)
    → 1 ≤ m
    → m ≤ 12
    → 1 ≤ d
    → d ≤ month_days y m
    → r < 86400
    → in_calendar (zulu_time y m d r) ≡ true
unfolding in_calendar
in_calendar-zulu y m d r m1 m2 d1 d2 k = ground arith

year_bound : (z : ℤ) (y : ℕ) → z ≡ pos y → z ≤ℤ pos 9999 → y < 10000
year_bound (pos n) y e h = ground arith
year_bound (negsuc n) y e h = cc

month_days-le : (y m : ℕ) → month_days y m ≤ 31
unfolding month_days
month_days-le y m = ground arith

-- The rendered text of any date of the calendar is read back as the day that is counted for it.
pub instant-render_civil :
    (y m d r : ℕ) (days : ℤ)
    → y < 10000
    → 1 ≤ m
    → m ≤ 12
    → 1 ≤ d
    → d ≤ month_days y m
    → days_from_civil y m d ≡ days
    → r < 86400
    → instant (render (record { year = pos y; month = m; day = d }) r)
      ≡ some (times_ℤ (times_ℤ days 86400 +ℤ pos r) nanos_per_second)
unfolding instant
instant-render_civil y m d r days short m1 m2 d1 d2 counts k = rw (
  match_date_time-render y m d r short (omega arith) (omega (arith, month_days-le y m)) k,
  in_calendar-zulu y m d r m1 m2 d1 d2 k,
  instant_of-zulu y m d r days counts,
)

instant-render :
    (n r : ℕ) (c : Civil) (h : Dates n c)
    → c.year ≤ℤ pos 9999
    → r < 86400
    → instant (render c r)
      ≡ some (times_ℤ (times_ℤ (pos n -ℤ pos 719468) 86400 +ℤ pos r) nanos_per_second)
instant-render n r c h top k =
    let same : c ≡ record { year = pos h.year; month = c.month; day = c.day } =
      λ i. record { year = h.is_year i; month = c.month; day = c.day } in
    ap (λ d. instant (render d r)) same
    ∙ instant-render_civil h.year c.month c.day r _ (year_bound c.year h.year h.is_year top)
        h.month_low h.month_high h.day_low h.day_high h.counts k

-- A count of seconds that is rendered is read back as the same count.
instant-render_seconds :
    (total : ℤ)
    → pos 0 ≤ℤ div_ℤ total 86400 +ℤ pos 719468
    → (civil_from_days (div_ℤ total 86400)).year ≤ℤ pos 9999
    → instant (render_seconds total) ≡ some (times_ℤ total nanos_per_second)
unfolding render_seconds
instant-render_seconds total low high =
    let days : ℤ = div_ℤ total 86400 in
    let e : pos (pos_part (days +ℤ pos 719468)) -ℤ pos 719468 ≡ days = shifted days 719468 low in
    let n : ℕ = pos_part (days +ℤ pos 719468) in
    let dates : Dates n (civil_from_days days) =
      subst (λ d. Dates n (civil_from_days d)) e (civil_from_days-Dates n) in
    instant-render n (mod_ℤ total 86400) (civil_from_days days) dates high (div_mod_ℤ total).1
    ∙ ap (λ d. some (times_ℤ (times_ℤ d 86400 +ℤ pos (mod_ℤ total 86400)) nanos_per_second)) e
    ∙ ap (λ s. some (times_ℤ s nanos_per_second)) (div_mod_ℤ total).0

-- Whatever text in the frozen grammar `_add_seconds` is given, and whatever whole number of seconds,
-- where the sum lies between 0000-03-01 and the end of the year 9999 the text that it returns is
-- read back by `_instant` as the whole seconds of the sum, with no fraction.
pub instant-add_seconds :
    (text : Text) (seconds : ℕ) (start : ℤ)
    → instant text ≡ some start
    → pos 0 ≤ℤ div_ℤ (second_of start seconds) 86400 +ℤ pos 719468
    → (civil_from_days (div_ℤ (second_of start seconds) 86400)).year ≤ℤ pos 9999
    → (t : Text) × (add_seconds text seconds ≡ some t)
      × (instant t ≡ some (times_ℤ (second_of start seconds) nanos_per_second))
unfolding add_seconds
instant-add_seconds text seconds start e low high =
    (render_seconds (second_of start seconds), rw e, instant-render_seconds _ low high)
