-- ===== src/Instant/Era.antt =====
-- Years and days within an era of 400 years, which begins on the first of March.
use verify_run.Base.{ℕ, ◌+◌, ◌-◌, ◌*◌, ◌/◌, ◌%◌, ◌≤◌, ◌<◌, ◌≡◌, arith}

unfoldable pub year_of : ℕ → ℕ
year_of doe = (doe - doe / 1460 + doe / 36524 - doe / 146096) / 365

abbrev pub days_before : ℕ → ℕ
days_before yoe = 365 * yoe + yoe / 4 - yoe / 100

pub year_of-lt : (doe : ℕ) → doe < 146097 → year_of doe < 400
unfolding year_of
year_of-lt doe h = omega arith

pub days_before-le : (doe : ℕ) → doe < 146097 → days_before (year_of doe) ≤ doe
unfolding year_of
days_before-le doe h = omega arith

pub day_of_year-le : (doe : ℕ) → doe < 146097 → doe - days_before (year_of doe) ≤ 365
unfolding year_of
day_of_year-le doe h = omega arith

-- The 366th day is there only in front of a leap year.
pub leap_day :
    (doe : ℕ)
    → doe < 146097
    → doe - days_before (year_of doe) ≡ 365
    → ((year_of doe + 1) % 4 ≡ 0) × ((year_of doe + 1) % 100 ≡ 0 → (year_of doe + 1) % 400 ≡ 0)
unfolding year_of
leap_day doe h e = (omega arith, omega arith)
