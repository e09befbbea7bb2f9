-- ===== src/Instant.antt =====
-- Instants. vfy/schema.py: `_DATE_TIME` and `_is_date_time`; vfy/rulebook.py: `_instant` and
-- `_days_from_civil`; vfy/authorization.py: the calendar arithmetic of `_add_seconds`.
pub mod Era
pub mod Civil
pub mod Render
pub mod RoundTrip
pub mod YearZero
use verify_run.Base.{
  ℕ, zero, suc, ◌+◌, ◌-◌, ◌*◌, ◌/◌, ◌%◌, Bool, true, false, not, ◌&&◌, ◌||◌, Option, none, some, [],
  ◌∷◌, ◌++◌, Text, length, replicate, ltb, leb, ◌==◌, if◌then◌else◌,
}
use verify_run.Base.Digits.{digits_value, to_digits}
use verify_run.Base.Int.{ℤ, pos, negsuc, pos_part, is_negative, ◌+ℤ◌, ◌-ℤ◌, times_ℤ, div_ℤ}

infixl 5 ◌>>=◌
abbrev pub ◌>>=◌ {ℓ κ} : {A : Type ℓ} {B : Type κ} → Option A → (A → Option B) → Option B
some a >>= f = f a
none >>= f = none

-- The last group of `_DATE_TIME`: `Z`, or a sign with hours and minutes.
pub data Offset : Type 0 where
  zulu : Offset
  offset : Bool → ℕ → ℕ → Offset

-- The groups of `_DATE_TIME`, those of digits as numbers; `fraction` without its dot.
pub record DateTime : Type 0 where
  pub year : ℕ
  pub month : ℕ
  pub day : ℕ
  pub hour : ℕ
  pub minute : ℕ
  pub second : ℕ
  pub fraction : Text
  pub zone : Offset

is_digit : ℕ → Bool
is_digit c = leb b'0' c && leb c b'9'

-- `[0-9]{2}` and what stands behind it.
take_two : Text → Option (ℕ × Text)
unfolding is_digit
take_two (c ∷ d ∷ s) =
    if is_digit c && is_digit d then some ((c - b'0') * 10 + (d - b'0'), s) else none
take_two _ = none

-- `[0-9]{4}`
take_four : Text → Option (ℕ × Text)
unfolding take_two
take_four s = do (high, s) ← take_two s; (low, s) ← take_two s; some (high * 100 + low, s)

take_symbol : ℕ → Text → Option Text
take_symbol symbol [] = none
take_symbol symbol (c ∷ s) = if c == symbol then some s else none

-- The digits in front, and what stands behind them.
take_digits : Text → Text × Text
take_digits [] = ([], [])
take_digits (c ∷ s) =
    let (digits, rest) = take_digits s in
    if leb b'0' c && leb c b'9' then (c ∷ digits, rest) else ([], c ∷ s)

-- `(\.[0-9]{1,9})?`
take_fraction : Text → Option (Text × Text)
unfolding take_digits
take_fraction [] = some ([], [])
take_fraction (c ∷ s) =
    let (digits, rest) = take_digits s in
    if c == b'.'
    then (if leb 1 (length digits) && leb (length digits) 9 then some (digits, rest) else none)
    else some ([], c ∷ s)

-- `[0-9]{2}:[0-9]{2}\Z`
take_offset : Bool → Text → Option Offset
unfolding take_two take_symbol
take_offset plus s = do
  (hours, s) ← take_two s
  s ← take_symbol b':' s
  (minutes, s) ← take_two s
  elim s [ [] ↦ some (offset plus hours minutes) | c ∷ t ↦ none ]

-- `(Z|[+-][0-9]{2}:[0-9]{2})\Z`
take_zone : Text → Option Offset
unfolding take_offset
take_zone [] = none
take_zone (c ∷ s) =
    if c == b'Z'
    then elim s [ [] ↦ some zulu | d ∷ t ↦ none ]
    else if c == b'+'
    then take_offset true s
    else if c == b'-'
    then take_offset false s
    else none

-- `_DATE_TIME.match(text)`
unfoldable pub match_date_time : Text → Option DateTime
unfolding take_four take_two take_symbol take_fraction take_zone
match_date_time s = do
  (year, s) ← take_four s
  s ← take_symbol b'-' s
  (month, s) ← take_two s
  s ← take_symbol b'-' s
  (day, s) ← take_two s
  s ← take_symbol b'T' s
  (hour, s) ← take_two s
  s ← take_symbol b':' s
  (minute, s) ← take_two s
  s ← take_symbol b':' s
  (second, s) ← take_two s
  (fraction, s) ← take_fraction s
  zone ← take_zone s
  some (record {
    year = year;
    month = month;
    day = day;
    hour = hour;
    minute = minute;
    second = second;
    fraction = fraction;
    zone = zone;
  })

abbrev pub is_leap : ℕ → Bool
is_leap year = (year % 4 == 0) && (not (year % 100 == 0) || (year % 400 == 0))

-- `limit`: the days of the month, by `_DAYS` and the leap day.
unfoldable pub month_days : ℕ → ℕ → ℕ
month_days year month =
    if month == 2
    then (if is_leap year then 29 else 28)
    else if (month == 4) || (month == 6) || (month == 9) || (month == 11)
    then 30
    else 31

abbrev pub zone_ok : Offset → Bool
zone_ok zulu = true
zone_ok (offset plus hours minutes) = leb hours 23 && leb minutes 59

-- The tests of `_is_date_time` behind the match.
unfoldable pub in_calendar : DateTime → Bool
in_calendar t =
    leb 1 t.month
    && leb t.month 12
    && leb t.hour 23
    && leb t.minute 59
    && leb t.second 59
    && leb 1 t.day
    && leb t.day (month_days t.year t.month)
    && zone_ok t.zone

-- `_days_from_civil`
unfoldable pub days_from_civil : ℕ → ℕ → ℕ → ℤ
days_from_civil year month day =
    let y : ℤ = pos year -ℤ pos (if leb month 2 then 1 else 0) in
    let era : ℤ = div_ℤ (if is_negative y then y -ℤ pos 399 else y) 400 in
    let year_of_era : ℕ = pos_part (y -ℤ times_ℤ era 400) in
    let month_position : ℕ = if ltb 2 month then month - 3 else month + 9 in
    let day_of_year : ℕ = (153 * month_position + 2) / 5 + day - 1 in
    let day_of_era : ℕ = year_of_era * 365 + year_of_era / 4 - year_of_era / 100 + day_of_year in
    times_ℤ era 146097 +ℤ pos day_of_era -ℤ pos 719468

abbrev pub nanos_per_second : ℕ
nanos_per_second = 1000000000

-- `int((fraction[1:] + "000000000")[:9]) if fraction else 0`; the grammar has at most nine digits.
abbrev pub nanoseconds : Text → ℕ
nanoseconds fraction = digits_value (fraction ++ replicate (9 - length fraction) b'0')

abbrev pub offset_seconds : Offset → ℤ
offset_seconds zulu = pos 0
offset_seconds (offset true hours minutes) = pos (hours * 3600 + minutes * 60)
offset_seconds (offset false hours minutes) = pos 0 -ℤ pos (hours * 3600 + minutes * 60)

-- `_instant`, behind its checks.
unfoldable pub instant_of : DateTime → ℤ
instant_of t =
    let seconds : ℤ =
      times_ℤ (days_from_civil t.year t.month t.day) 86400
      +ℤ pos (t.hour * 3600 + t.minute * 60 + t.second)
      -ℤ offset_seconds t.zone in
    times_ℤ seconds nanos_per_second +ℤ pos (nanoseconds t.fraction)

-- `_instant`; `none` is the TypeError for a text outside the frozen grammar.
unfoldable pub instant : Text → Option ℤ
instant s = do t ← match_date_time s; if in_calendar t then some (instant_of t) else none
