-- ===== src/Query/Dates.antt =====
-- crates/goz-core/src/query/dates.rs: the filters of dates and the calendar periods behind them. The
-- text of a `dm:` value is not read here; a unit of the calendar and an operator are constructors.
pub mod Filters
pub mod Weeks
pub mod Months
pub mod Text
mod Runs
use goz.Prelude.{
  ℕ, suc, ◌+◌, ◌-◌, ◌*◌, ◌/◌, ◌%◌, Bool, true, false, not, ◌&&◌, ◌||◌, Option, none, some, ltb, leb,
  ◌==◌, if◌then◌else◌,
}
use goz.Prelude.Int.{
  ℤ, pos, negsuc, ltb_ℤ, ◌+ℤ◌, mul_ℕ, div_euclid, rem_euclid, saturate, checked, i64_max, i64_min,
}
use goz.Output.Filetime.{days_1601_to_1970, civil_from_days, days_from_civil}

abbrev pub leb_ℤ : ℤ → ℤ → Bool
leb_ℤ a b = not (ltb_ℤ b a)

abbrev pub max_ℤ : ℤ → ℤ → ℤ
max_ℤ a b = if ltb_ℤ a b then b else a

abbrev pub min_ℤ : ℤ → ℤ → ℤ
min_ℤ a b = if ltb_ℤ b a then b else a

pub data DateFilter : Type 0 where
  -- min, max
  within : ℤ → ℤ → DateFilter
  unknown : DateFilter

unfoldable pub matches : DateFilter → Option ℤ → Bool
matches (within min max) (some t) = leb_ℤ min t && leb_ℤ t max
matches (within min max) none = false
matches unknown (some t) = false
matches unknown none = true

unfoldable pub and : DateFilter → DateFilter → DateFilter
and (within a b) (within c d) = within (max_ℤ a c) (min_ℤ b d)
and (within a b) unknown = within i64_max i64_min
and unknown (within c d) = within i64_max i64_min
and unknown unknown = unknown

pub data Value : Type 0 where
  -- start, end
  period : ℤ → ℤ → Value
  instant : ℤ → Value

unfoldable pub first : Value → ℤ
first (period start end) = start
first (instant t) = t

unfoldable pub last : Value → ℤ
last (period start end) = end +ℤ negsuc 0
last (instant t) = t

unfoldable pub alone : Value → DateFilter
alone (period start end) = within start (end +ℤ negsuc 0)
alone (instant t) = within t i64_max

-- `>=`, `<=`, `>`, `<` and `=`.
pub data Operator : Type 0 where
  at_least at_most after before equal : Operator

unfoldable pub compared : Operator → Value → DateFilter
compared at_least v = within (first v) i64_max
compared after v = within (saturate (last v +ℤ pos 1)) i64_max
compared at_most v = within i64_min (last v)
compared before v = within i64_min (saturate (first v +ℤ negsuc 0))
compared equal v = alone v

-- `lower..upper`, either side optional; `none` where it runs backwards.
unfoldable pub range_filter : Option Value → Option Value → Option DateFilter
range_filter lower upper =
    let min = elim lower as (λ _. ℤ) [ none ↦ i64_min | some v ↦ first v ] in
    let max = elim upper as (λ _. ℤ) [ none ↦ i64_max | some v ↦ last v ] in
    if ltb_ℤ max min then none else some (within min max)

-- The date of a local day, counted from 1601.
unfoldable pub civil : ℤ → ℤ × ℕ × ℕ
civil day = civil_from_days (day +ℤ negsuc (days_1601_to_1970 - 1))

unfoldable pub local_day : ℤ → ℕ → ℕ → Option ℤ
local_day year month day =
    if leb_ℤ (negsuc 999_999) year && leb_ℤ year (pos 1_000_000)
    then some (days_from_civil year month day +ℤ pos days_1601_to_1970)
    else none

infixl 5 ◌>>=◌ ◌>>◌
abbrev ◌>>=◌ : {A B : Type 0} → Option A → (A → Option B) → Option B
some a >>= f = f a
none >>= f = none

abbrev ◌>>◌ : {A B : Type 0} → Option A → Option B → Option B
m >> k = m >>= λ _. k

-- A month is at least 1.
unfoldable pub add_months : ℤ → ℕ → ℤ → Option (ℤ × ℕ)
add_months year month delta = do
  months ← checked (mul_ℕ year 12)
  index ← checked (months +ℤ pos (month - 1))
  moved ← checked (index +ℤ delta)
  some (div_euclid moved 12, rem_euclid moved 12 + 1)

unfoldable pub is_leap : ℤ → Bool
is_leap year =
    (rem_euclid year 4 == 0) && (not (rem_euclid year 100 == 0) || (rem_euclid year 400 == 0))

unfoldable pub days_in_month : ℤ → ℕ → ℕ
days_in_month year month =
    if month == 2
    then (if is_leap year then 29 else 28)
    else if ((month == 4) || (month == 6)) || ((month == 9) || (month == 11))
    then 30
    else 31

pub data CalendarUnit : Type 0 where
  week month year : CalendarUnit

-- The first day of the week that a day is in. Day 0 was a Monday.
unfoldable pub week_first : ℤ → ℕ → ℤ → ℤ
week_first today week_start offset =
    let into_week = rem_euclid (today +ℤ mul_ℕ (negsuc 0) week_start) 7 in
    (today +ℤ mul_ℕ (negsuc 0) into_week) +ℤ mul_ℕ offset 7

unfoldable pub month_period : ℤ → ℕ → ℤ → Option (ℤ × ℤ)
month_period y m offset = do
  at ← add_months y m offset
  next ← add_months at.0 at.1 (pos 1)
  start ← local_day at.0 at.1 1
  end ← local_day next.0 next.1 1
  some (start, end)

unfoldable pub year_period : ℤ → Option (ℤ × ℤ)
year_period y = do start ← local_day y 1 1; end ← local_day (y +ℤ pos 1) 1 1; some (start, end)

unfoldable pub calendar_period : CalendarUnit → ℤ → ℤ → ℕ → Option (ℤ × ℤ)
calendar_period week offset today week_start =
    let start = week_first today week_start offset in some (start, start +ℤ pos 7)
calendar_period month offset today week_start =
    let date = civil today in month_period date.0 date.1 offset
calendar_period year offset today week_start = year_period ((civil today).0 +ℤ offset)
