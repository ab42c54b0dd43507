-- ===== src/Output/Filetime/Runs.antt =====
-- crates/goz-core/src/output/filetime.rs: the last day of February 2000, and the day before 1970.
use goz.Prelude.{arith, ◌≤◌, ◌≡◌, refl}
use goz.Prelude.Int.{pos, negsuc, ◌≤ℤ◌, ◌<ℤ◌, ◌+ℤ◌}
use goz.Output.Filetime.{
  civil_from_days, days_from_civil, year_of_era, days_before, march_month, day_of_month,
  calendar_month, filetime_to_unix_ms, unix_ms_to_filetime,
}
use goz.Output.Filetime.Millis.{unix_ms_to_filetime-filetime_to_unix_ms}
use goz.Output.Filetime.Civil.{days_from_civil-civil_from_days}

leap_day : civil_from_days (pos 11_016) ≡ (pos 2000, 2, 29)
unfolding civil_from_days year_of_era days_before march_month day_of_month calendar_month
leap_day = refl

before_1970 : civil_from_days (negsuc 0) ≡ (pos 1969, 12, 31)
unfolding civil_from_days year_of_era days_before march_month day_of_month calendar_month
before_1970 = refl

days_from_civil-civil_from_days_example :
    (days_from_civil
        (civil_from_days (negsuc 0)).0
        (civil_from_days (negsuc 0)).1
        (civil_from_days (negsuc 0)).2
      ≡ negsuc 0)
    × (1 ≤ (civil_from_days (negsuc 0)).1)
    × ((civil_from_days (negsuc 0)).1 ≤ 12)
    × (1 ≤ (civil_from_days (negsuc 0)).2)
    × ((civil_from_days (negsuc 0)).2 ≤ 31)
days_from_civil-civil_from_days_example = days_from_civil-civil_from_days (negsuc 0)

unix_ms_to_filetime-filetime_to_unix_ms_example :
    (unix_ms_to_filetime (filetime_to_unix_ms (negsuc 9)) ≤ℤ negsuc 9)
    × (negsuc 9 <ℤ (unix_ms_to_filetime (filetime_to_unix_ms (negsuc 9)) +ℤ pos 10_000))
unix_ms_to_filetime-filetime_to_unix_ms_example =
    unix_ms_to_filetime-filetime_to_unix_ms (negsuc 9) (omega arith) (omega arith)
