-- ===== src/Output/Filetime.antt =====
-- crates/goz-core/src/output/filetime.rs: calendar dates and days since 1970. The integers are those
-- of the callers, whose sums stay far inside an i64; a day of the month is at least 1.
pub mod Civil
pub mod Millis
mod Runs
use goz.Prelude.{ℕ, ◌+◌, ◌-◌, ◌*◌, ◌/◌, ◌%◌, Bool, true, false, ltb, leb, if◌then◌else◌}
use goz.Prelude.Int.{ℤ, pos, negsuc, ◌+ℤ◌, mul_ℕ, div_euclid, rem_euclid, saturate}

abbrev pub days_1601_to_1970 : ℕ
days_1601_to_1970 = 134_774

-- Ticks of 100 ns from 1601 to 1970.
abbrev pub filetime_unix_epoch : ℕ
filetime_unix_epoch = 116_444_736_000_000_000

unfoldable pub filetime_to_unix_ms : ℤ → ℤ
filetime_to_unix_ms ft = div_euclid (saturate (ft +ℤ negsuc (filetime_unix_epoch - 1))) 10_000

unfoldable pub unix_ms_to_filetime : ℤ → ℤ
unix_ms_to_filetime ms = saturate (saturate (mul_ℕ ms 10_000) +ℤ pos filetime_unix_epoch)

-- The day and the year within an era of 400 years, which starts in March.
unfoldable pub year_of_era : ℕ → ℕ
year_of_era doe = (doe - doe / 1460 + doe / 36524 - doe / 146096) / 365

-- The days of an era before a year of it.
unfoldable pub days_before : ℕ → ℕ
days_before yoe = 365 * yoe + yoe / 4 - yoe / 100

-- The month counted from March, and the day in it, of a day of the year.
unfoldable pub march_month : ℕ → ℕ
march_month doy = (5 * doy + 2) / 153

unfoldable pub day_of_month : ℕ → ℕ → ℕ
day_of_month doy mp = doy - (153 * mp + 2) / 5 + 1

unfoldable pub calendar_month : ℕ → ℕ
calendar_month mp = if ltb mp 10 then mp + 3 else mp - 9

-- The year, the month and the day.
unfoldable pub civil_from_days : ℤ → ℤ × ℕ × ℕ
civil_from_days days =
    let z = days +ℤ pos 719_468 in
    let era = div_euclid z 146_097 in
    let doe = rem_euclid z 146_097 in
    let yoe = year_of_era doe in
    let y = pos yoe +ℤ mul_ℕ era 400 in
    let doy = doe - days_before yoe in
    let mp = march_month doy in
    let m = calendar_month mp in (if leb m 2 then y +ℤ pos 1 else y, m, day_of_month doy mp)

unfoldable pub days_from_civil : ℤ → ℕ → ℕ → ℤ
days_from_civil year month day =
    let y = if leb month 2 then year +ℤ negsuc 0 else year in
    let era = div_euclid y 400 in
    let yoe = rem_euclid y 400 in
    let mp = (month + 9) % 12 in
    let doy = (153 * mp + 2) / 5 + day - 1 in
    let doe = yoe * 365 + yoe / 4 - yoe / 100 + doy in
    mul_ℕ era 146_097 +ℤ pos doe +ℤ negsuc 719_467

-- The days since 1970 and the seconds of the day that `format_filetime_utc` writes out.
unfoldable pub civil_parts : ℤ → (ℤ × ℕ × ℕ) × ℕ
civil_parts ft =
    let secs = div_euclid ft 10_000_000 in
    let days = div_euclid secs 86_400 in
    (civil_from_days (days +ℤ negsuc (days_1601_to_1970 - 1)), rem_euclid secs 86_400)
