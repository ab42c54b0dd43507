-- ===== src/Output/Filetime/Civil.antt =====
-- crates/goz-core/src/output/filetime.rs: `days_from_civil` and `civil_from_days` undo each other.
use goz.Prelude.{
  ℕ, ◌+◌, ◌-◌, ◌*◌, ◌/◌, ◌%◌, ◌≤◌, ◌<◌, ◌≡◌, inl, inr, refl, ap, ◌∙◌, leb, Bool-cases,
  if◌then◌else◌, arith,
}
use goz.Prelude.Int.{ℤ, pos, negsuc, ◌+ℤ◌, mul_ℕ, div_euclid, rem_euclid}
use goz.Output.Filetime.{
  year_of_era, days_before, march_month, day_of_month, calendar_month, civil_from_days,
  days_from_civil,
}

rem_euclid-lt : (z : ℤ) → rem_euclid z 146_097 < 146_097
rem_euclid-lt (pos n) = omega arith
rem_euclid-lt (negsuc n) = omega arith

-- A number is its quotient times the divisor, and its remainder.
era_lem : (z : ℤ) → mul_ℕ (div_euclid z 146_097) 146_097 +ℤ pos (rem_euclid z 146_097) ≡ z
era_lem (pos n) = ground arith
era_lem (negsuc n) = ground arith

-- The year of an era, and the era, of a year.
div_euclid-year : (r : ℕ) (e : ℤ) → r < 400 → div_euclid (pos r +ℤ mul_ℕ e 400) 400 ≡ e
div_euclid-year r (pos n) h = ground (arith, h)
div_euclid-year r (negsuc n) h = ground (arith, h)

rem_euclid-year : (r : ℕ) (e : ℤ) → r < 400 → rem_euclid (pos r +ℤ mul_ℕ e 400) 400 ≡ r
rem_euclid-year r (pos n) h = ground (arith, h)
rem_euclid-year r (negsuc n) h = ground (arith, h)

one_back : (y : ℤ) → (y +ℤ pos 1) +ℤ negsuc 0 ≡ y
one_back (pos n) = ground arith
one_back (negsuc n) = ground arith

shift_back : (d : ℤ) → (d +ℤ pos 719_468) +ℤ negsuc 719_467 ≡ d
shift_back (pos n) = ground arith
shift_back (negsuc n) = ground arith

-- A day of an era is a day of one of its 400 years.
year_of_era_lem :
    (doe : ℕ)
    → doe < 146_097
    → (year_of_era doe < 400)
      × (days_before (year_of_era doe) ≤ doe)
      × (doe ≤ days_before (year_of_era doe) + 365)
unfolding year_of_era days_before
year_of_era_lem doe h = (omega arith, omega arith, omega arith)

-- A day of a year is a day of one of its months.
march_month_lem :
    (doy : ℕ)
    → doy ≤ 365
    → (march_month doy ≤ 11)
      × ((153 * march_month doy + 2) / 5 + day_of_month doy (march_month doy) - 1 ≡ doy)
      × (1 ≤ day_of_month doy (march_month doy))
      × (day_of_month doy (march_month doy) ≤ 31)
unfolding march_month day_of_month
march_month_lem doy h = (omega arith, omega arith, omega arith, omega arith)

calendar_month_lem :
    (mp : ℕ)
    → mp ≤ 11
    → ((calendar_month mp + 9) % 12 ≡ mp) × (1 ≤ calendar_month mp) × (calendar_month mp ≤ 12)
unfolding calendar_month
calendar_month_lem mp h = (ground (arith, h), ground (arith, h), ground (arith, h))

same_year :
    (y : ℤ) (m : ℕ)
    → (if leb m 2
        then (if leb m 2 then y +ℤ pos 1 else y) +ℤ negsuc 0
        else (if leb m 2 then y +ℤ pos 1 else y))
      ≡ y
same_year y m = elim (Bool-cases (leb m 2)) [ inl e ↦ rw e (one_back y) | inr e ↦ rw e refl ]

-- What `days_from_civil` makes of a year of an era and a day of it.
days_of :
    (era : ℤ) (yoe doy m d mp : ℕ) (year y : ℤ)
    → (if leb m 2 then year +ℤ negsuc 0 else year) ≡ y
    → div_euclid y 400 ≡ era
    → rem_euclid y 400 ≡ yoe
    → (m + 9) % 12 ≡ mp
    → (153 * mp + 2) / 5 + d - 1 ≡ doy
    → days_from_civil year m d
      ≡ mul_ℕ era 146_097 +ℤ pos (yoe * 365 + yoe / 4 - yoe / 100 + doy) +ℤ negsuc 719_467
unfolding days_from_civil
days_of era yoe doy m d mp year y ey ee er em ed = rw (ey, ee, er, em, ed, days_from_civil) refl

-- For every number of days since 1970, the date that `civil_from_days` gives has a month from 1 to 12
-- and a day from 1 to 31, and `days_from_civil` of the date is that number.
pub days_from_civil-civil_from_days :
    (days : ℤ)
    → (days_from_civil (civil_from_days days).0 (civil_from_days days).1 (civil_from_days days).2
        ≡ days)
      × (1 ≤ (civil_from_days days).1)
      × ((civil_from_days days).1 ≤ 12)
      × (1 ≤ (civil_from_days days).2)
      × ((civil_from_days days).2 ≤ 31)
unfolding civil_from_days days_before
days_from_civil-civil_from_days days =
    let z = days +ℤ pos 719_468 in
    let era = div_euclid z 146_097 in
    let doe = rem_euclid z 146_097 in
    let yoe = year_of_era doe in
    let doy = doe - days_before yoe in
    let mp = march_month doy in
    let m = calendar_month mp in
    let d = day_of_month doy mp in
    let y = pos yoe +ℤ mul_ℕ era 400 in
    let (y_lt, le, near) = year_of_era_lem doe (rem_euclid-lt z) in
    let (mp_le, ed, d_lo, d_hi) = march_month_lem doy (omega (arith, near)) in
    let (em, m_lo, m_hi) = calendar_month_lem mp mp_le in
    let whole : yoe * 365 + yoe / 4 - yoe / 100 + doy ≡ doe = omega (arith, le) in
    (
      days_of era yoe doy m d mp (if leb m 2 then y +ℤ pos 1 else y) y (same_year y m)
            (div_euclid-year yoe era y_lt) (rem_euclid-year yoe era y_lt) em ed
          ∙ ap (λ n. mul_ℕ era 146_097 +ℤ pos n +ℤ negsuc 719_467) whole
          ∙ ap (λ w. w +ℤ negsuc 719_467) (era_lem z)
          ∙ shift_back days,
      m_lo,
      m_hi,
      d_lo,
      d_hi,
    )
