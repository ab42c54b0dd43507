-- ===== src/Query/Dates/Runs.antt =====
-- crates/goz-core/src/query/dates.rs: 2024-02-15, and the filters of one day.
use goz.Prelude.{◌&&◌, ◌≡◌, refl, not, some, arith}
use goz.Prelude.Int.{ℤ, pos, negsuc, ◌≤ℤ◌, ◌<ℤ◌, ◌+ℤ◌, rem_euclid}
use goz.Output.Filetime.{
  civil_from_days, days_from_civil, year_of_era, days_before, march_month, day_of_month,
  calendar_month,
}
use goz.Query.Dates.{
  Value, period, matches, and, within, compared, after, at_most, before, at_least, first, last,
  civil, local_day, add_months, month_period, calendar_period, week, month, days_in_month, is_leap,
}
use goz.Query.Dates.Filters.{matches-and, matches-compared}
use goz.Query.Dates.Months.{days_in_month-days_from_civil}
use goz.Query.Dates.Weeks.{calendar_period-week}

-- 2024-02-15 in days from 1601.
abbrev february : ℤ
february = pos 154_542

february_date : civil february ≡ (pos 2024, 2, 15)
unfolding civil civil_from_days year_of_era days_before march_month day_of_month calendar_month
february_date = refl

-- The month before it, of 31 days.
january : calendar_period month (negsuc 0) february 0 ≡ some (pos 154_497, pos 154_528)
unfolding calendar_period month_period add_months local_day days_from_civil civil civil_from_days
    year_of_era days_before march_month day_of_month calendar_month
january = refl

leap_february : days_in_month (pos 2024) 2 ≡ 29
unfolding days_in_month is_leap
leap_february = refl

abbrev day : Value
day = period (pos 100) (pos 200)

matches-and_example :
    matches (and (within (pos 1) (pos 5)) (within (pos 3) (pos 9))) (some (pos 4)) ≡ (
      matches (within (pos 1) (pos 5)) (some (pos 4))
      && matches (within (pos 3) (pos 9)) (some (pos 4)))
matches-and_example = matches-and (within (pos 1) (pos 5)) (within (pos 3) (pos 9)) (some (pos 4))

matches-compared_example :
    (matches (compared after day) (some (pos 200))
      ≡ not (matches (compared at_most day) (some (pos 200))))
    × (matches (compared before day) (some (pos 200))
        ≡ not (matches (compared at_least day) (some (pos 200))))
unfolding first last
matches-compared_example =
    matches-compared day (pos 200) (omega arith, omega arith) (omega arith, omega arith)
      (omega arith, omega arith)

calendar_period-week_example :
    (start : ℤ) × (calendar_period week (pos 0) february 6 ≡ some (start, start +ℤ pos 7))
    × (calendar_period week (negsuc 0) february 6 ≡ some (start +ℤ negsuc 6, start))
    × (start ≤ℤ february)
    × (february <ℤ (start +ℤ pos 7))
    × (rem_euclid start 7 ≡ 6)
calendar_period-week_example = calendar_period-week february 6 (omega arith)

days_in_month-days_from_civil_example :
    days_from_civil (pos 2024) 3 1
    ≡ days_from_civil (pos 2024) 2 1 +ℤ pos (days_in_month (pos 2024) 2)
days_in_month-days_from_civil_example =
    days_in_month-days_from_civil 2023 2 (omega arith) (omega arith)
