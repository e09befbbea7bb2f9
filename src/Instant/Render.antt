-- ===== src/Instant/Render.antt =====
-- vfy/authorization.py: `_add_seconds`, which renders an instant in the frozen grammar.
use verify_run.Base.{
  ℕ, suc, ◌+◌, ◌-◌, ◌*◌, ◌/◌, ◌%◌, Option, some, [], ◌∷◌, ◌++◌, Text, length, replicate, ltb, leb,
  if◌then◌else◌,
}
use verify_run.Base.Digits.{to_digits}
use verify_run.Base.Int.{ℤ, pos, negsuc, pos_part, is_negative, ◌+ℤ◌, ◌-ℤ◌, times_ℤ, div_ℤ}
use verify_run.Instant.{instant, nanos_per_second, ◌>>=◌}
use verify_run.Instant.Era.{year_of}

pub record Civil : Type 0 where
  pub year : ℤ
  pub month : ℕ
  pub day : ℕ

-- The date in an era, behind `day_of_era`.
unfoldable pub civil_of_era : ℤ → ℕ → Civil
civil_of_era era day_of_era =
    let year_of_era : ℕ = year_of day_of_era in
    let day_of_year : ℕ = day_of_era - (365 * year_of_era + year_of_era / 4 - year_of_era / 100) in
    let month_position : ℕ = (5 * day_of_year + 2) / 153 in
    let month : ℕ = if ltb month_position 10 then month_position + 3 else month_position - 9 in
    record {
      year = pos year_of_era +ℤ times_ℤ era 400 +ℤ pos (if leb month 2 then 1 else 0);
      month = month;
      day = day_of_year - (153 * month_position + 2) / 5 + 1;
    }

-- The date of a day counted from 1970-01-01.
unfoldable pub civil_from_days : ℤ → Civil
civil_from_days days =
    let z : ℤ = days +ℤ pos 719468 in
    let era : ℤ = div_ℤ (if is_negative z then z -ℤ pos 146096 else z) 146097 in
    civil_of_era era (pos_part (z -ℤ times_ℤ era 146097))

-- `"%0wd"` of a number that is not negative.
unfoldable pub padded : ℕ → ℕ → Text
padded width n = replicate (width - length (to_digits n)) b'0' ++ to_digits n

-- `"%04d"`
abbrev pub padded_year : ℤ → Text
padded_year (pos n) = padded 4 n
padded_year (negsuc n) = b'-' ∷ padded 3 (suc n)

-- `"%04d-%02d-%02dT%02d:%02d:%02dZ"`, for a day and the seconds in it.
unfoldable pub render : Civil → ℕ → Text
render c remainder =
    padded_year c.year
    ++ (b'-'
        ∷ (padded 2 c.month
            ++ (b'-'
                ∷ (padded 2 c.day
                    ++ (b'T'
                        ∷ (padded 2 (remainder / 3600)
                            ++ (b':'
                                ∷ (padded 2 (remainder % 3600 / 60)
                                    ++ (b':'
                                        ∷ (padded 2 (remainder % 3600 % 60) ++ (b'Z' ∷ [])))))))))))

-- `divmod(total, 86400)[1]`
abbrev pub mod_ℤ : ℤ → ℕ → ℕ
mod_ℤ z k = pos_part (z -ℤ times_ℤ (div_ℤ z k) k)

-- The text for a count of seconds from 1970-01-01.
unfoldable pub render_seconds : ℤ → Text
render_seconds total = render (civil_from_days (div_ℤ total 86400)) (mod_ℤ total 86400)

-- `_add_seconds`
unfoldable pub add_seconds : Text → ℕ → Option Text
add_seconds text seconds = do
  start ← instant text
  some (render_seconds (div_ℤ (start +ℤ pos (seconds * nanos_per_second)) nanos_per_second))
