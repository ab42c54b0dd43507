-- ===== src/Query/Dates/Text.antt =====
-- crates/goz-core/src/query/dates.rs: the text of a `dm:` value, read against a clock. The zone's clock
-- is the system's: what it answers are arguments.
use goz.Prelude.{
  ℕ, ◌*◌, ◌^◌, not, ◌&&◌, ◌||◌, Option, none, some, List, [], ◌∷◌, ltb, leb, ◌==◌, if◌then◌else◌,
  length, Result, ok, err,
}
use Prim.Native.Nat.{min}
use goz.Prelude.Int.{ℤ, pos, negsuc, ltb_ℤ, ◌+ℤ◌, mul_ℕ, div_euclid, rem_euclid, checked}
use goz.Prelude.Options.{◌>>=◌}
use goz.Prelude.Text.{
  codes, same_text, is_one_of, trim, lowercase, strip_prefix, strip_suffix, or_else, split_dots,
  split, is_ascii_digit, all_codes, split_digits, parse_unsigned,
}
use goz.Query.Error.{QueryError, malformed, date_value}
use goz.Query.Dates.{
  DateFilter, unknown, Value, period, instant, Operator, at_least, at_most, after, before, equal,
  compared, alone, range_filter, civil, local_day, add_months, days_in_month, CalendarUnit, week,
  month, year, calendar_period,
}

pub record LocalClock : Type 0 where
  pub now : ℤ
  pub to_local : ℤ → Option ℤ
  pub to_utc : ℤ → Option ℤ
  pub week_start : ℕ

abbrev pub second : ℕ
second = 10_000_000

abbrev pub day_ticks : ℕ
day_ticks = 86_400 * second

abbrev pub Read : Type 0 → Type 0
Read A = Result A QueryError

abbrev pub refuse : {A : Type 0} → Read A
refuse = err (malformed date_value)

abbrev pub ok_or_refuse : {A : Type 0} → Option A → Read A
ok_or_refuse none = refuse
ok_or_refuse (some a) = ok a

abbrev pub then_read : {A B : Type 0} → Read A → (A → Read B) → Read B
then_read (ok a) f = f a
then_read (err e) f = err e

pub data Duration : Type 0 where
  ticks : ℕ → Duration
  months : ℕ → Duration

-- The seconds of a unit; `some none` for a month and a year.
unfoldable pub unit_seconds : List ℕ → Option (Option ℕ)
unit_seconds u =
    if is_one_of u (codes "sec" ∷ codes "second" ∷ [])
    then some (some 1)
    else if is_one_of u (codes "min" ∷ codes "minute" ∷ [])
    then some (some 60)
    else if same_text u (codes "hour")
    then some (some 3600)
    else if same_text u (codes "day")
    then some (some 86_400)
    else if same_text u (codes "week")
    then some (some 604_800)
    else if is_one_of u (codes "month" ∷ codes "year" ∷ [])
    then some none
    else none

-- `checked_mul` of counts that are not negative.
abbrev pub checked_i64 : ℕ → Read ℕ
checked_i64 n = if ltb n (2 ^ 63) then ok n else refuse

unfoldable pub length_of : ℕ → List ℕ → Option ℕ → Read (Option Duration)
length_of count unit (some seconds) =
    then_read (checked_i64 (count * (seconds * second))) (λ n. ok (some (ticks n)))
length_of count unit none =
    if same_text unit (codes "year")
    then then_read (checked_i64 (count * 12)) (λ n. ok (some (months n)))
    else ok (some (months count))

unfoldable pub counted_unit : List ℕ → List ℕ → Option (Option ℕ) → Read (Option Duration)
counted_unit count unit none = ok none
counted_unit [] unit (some seconds) = ok none
counted_unit (c ∷ count) unit (some seconds) =
    then_read (ok_or_refuse (parse_unsigned (2 ^ 63) (c ∷ count)))
      (λ n. if n == 0 then refuse else length_of n unit seconds)

unfoldable pub duration : List ℕ → Read (Option Duration)
duration lower =
    let parts = split_digits (or_else (strip_prefix (codes "last") lower) lower) in
    let unit = or_else (strip_suffix (codes "s") parts.1) parts.1 in
    counted_unit parts.0 unit (unit_seconds unit)

-- The local day of the clock's instant, and the time into it.
unfoldable pub local_now : LocalClock → Option (ℤ × ℕ)
local_now clock = do
  local ← clock.to_local clock.now
  some (div_euclid local day_ticks, rem_euclid local day_ticks)

unfoldable pub months_back : LocalClock → ℕ → Option ℤ
months_back clock count = do
  today ← local_now clock
  let date = civil today.0
  at ← add_months date.0 date.1 (mul_ℕ (negsuc 0) count)
  day ← local_day at.0 at.1 (min date.2 (days_in_month at.0 at.1))
  midnight ← checked (mul_ℕ day day_ticks)
  local ← checked (midnight +ℤ pos today.1)
  clock.to_utc local

unfoldable pub duration_start : LocalClock → Duration → Option ℤ
duration_start clock (ticks n) = checked (clock.now +ℤ mul_ℕ (negsuc 0) n)
duration_start clock (months n) = months_back clock n

unfoldable pub number : ℕ → List ℕ → Option ℕ
number len part =
    if (length part == len) && all_codes is_ascii_digit part
    then parse_unsigned (2 ^ 32) part
    else none

-- The days from the first of a date's period up to the first after it. `none` where the text has none of
-- the shapes, and an error where it names no real month or day.
abbrev pub Days : Type 0
Days = ℤ × ℤ

unfoldable pub month_days : ℤ → ℕ → Option (Read Days)
month_days y m = if not (leb 1 m && leb m 12) then some refuse else (do
  next ← add_months y m (pos 1)
  start ← local_day y m 1
  end ← local_day next.0 next.1 1
  some (ok (start, end)))

unfoldable pub one_day : ℤ → ℕ → ℕ → Option (Read Days)
one_day y m d =
    if not (leb 1 m && leb m 12) || ((d == 0) || ltb (days_in_month y m) d)
    then some refuse
    else (do start ← local_day y m d; some (ok (start, start +ℤ pos 1)))

unfoldable pub written_parts : List (List ℕ) → Option (Read Days)
written_parts (y ∷ []) = do
  n ← number 4 y
  start ← local_day (pos n) 1 1
  end ← local_day (pos n +ℤ pos 1) 1 1
  some (ok (start, end))
written_parts (y ∷ m ∷ []) = do n ← number 4 y; k ← number 2 m; month_days (pos n) k
written_parts (y ∷ m ∷ d ∷ []) = do
  n ← number 4 y
  k ← number 2 m
  j ← number 2 d
  one_day (pos n) k j
written_parts _ = none

unfoldable pub written_date : List ℕ → Option (Read Days)
written_date lower = written_parts (split 0x2D lower)

unfoldable pub calendar_unit : List ℕ → Option CalendarUnit
calendar_unit unit =
    if same_text unit (codes "week")
    then some week
    else if same_text unit (codes "month")
    then some month
    else if same_text unit (codes "year")
    then some year
    else none

-- The unit after `this` or `last`, and the offset that the word stands for.
unfoldable pub prefixed : List ℕ → Option (List ℕ × ℤ)
prefixed lower = elim (strip_prefix (codes "this") lower) as (λ _. Option (List ℕ × ℤ)) [
  | some unit ↦ some (unit, pos 0)
  | none ↦ elim (strip_prefix (codes "last") lower) as (λ _. Option (List ℕ × ℤ)) [
    | some unit ↦ some (unit, negsuc 0)
    | none ↦ none
  ]
]

unfoldable pub relative : List ℕ → Option (CalendarUnit × ℤ)
relative lower = do p ← prefixed lower; unit ← calendar_unit p.0; some (unit, p.1)

unfoldable pub written_or_refuse : Option (Read Days) → Read Days
written_or_refuse none = refuse
written_or_refuse (some days) = days

unfoldable pub relative_days : LocalClock → CalendarUnit × ℤ → Option Days
relative_days clock p = do today ← local_now clock; calendar_period p.0 p.1 today.0 clock.week_start

unfoldable pub relative_or_written : List ℕ → LocalClock → Option (CalendarUnit × ℤ) → Read Days
relative_or_written lower clock (some p) = ok_or_refuse (relative_days clock p)
relative_or_written lower clock none = written_or_refuse (written_date lower)

unfoldable pub point_days : List ℕ → LocalClock → Read Days
point_days lower clock =
    if same_text lower (codes "today")
    then ok_or_refuse (do today ← local_now clock; some (today.0, today.0 +ℤ pos 1))
    else if same_text lower (codes "yesterday")
    then ok_or_refuse (do today ← local_now clock; some (today.0 +ℤ negsuc 0, today.0))
    else relative_or_written lower clock (relative lower)

unfoldable pub midnight : LocalClock → ℤ → Option ℤ
midnight clock day = do
  t ← checked (mul_ℕ day day_ticks)
  if ltb_ℤ t (pos 0) then none else clock.to_utc t

unfoldable pub day_period : LocalClock → Days → Option Value
day_period clock days = do
  start ← midnight clock days.0
  end ← midnight clock days.1
  some (period start end)

unfoldable pub point_of : List ℕ → LocalClock → Option Duration → Read Value
point_of lower clock (some d) =
    ok_or_refuse (do start ← duration_start clock d; some (instant start))
point_of lower clock none =
    then_read (point_days lower clock) (λ days. ok_or_refuse (day_period clock days))

unfoldable pub point : List ℕ → LocalClock → Read Value
point text clock =
    let lower = lowercase (trim text) in then_read (duration lower) (point_of lower clock)

unfoldable pub side : List ℕ → LocalClock → Read (Option Value)
side text clock = elim (trim text) as (λ _. Read (Option Value)) [
  | [] ↦ ok none
  | c ∷ rest ↦ then_read (point (c ∷ rest) clock) (λ v. ok (some v))
]

-- Two-character operators stand before their one-character prefixes.
unfoldable pub operators : List (List ℕ × Operator)
operators =
    (codes ">=", at_least)
    ∷ (codes "<=", at_most)
    ∷ (codes ">", after)
    ∷ (codes "<", before)
    ∷ (codes "=", equal)
    ∷ []

unfoldable pub with_operator : List (List ℕ × Operator) → List ℕ → LocalClock → Read DateFilter
with_operator [] value clock = then_read (point value clock) (λ v. ok (alone v))
with_operator ((op, o) ∷ ops) value clock = elim (strip_prefix op value) as (λ _. Read DateFilter) [
  | some rest ↦ then_read (point rest clock) (λ v. ok (compared o v))
  | none ↦ with_operator ops value clock
]

unfoldable pub range_of : List ℕ → LocalClock → Option (List ℕ × List ℕ) → Read DateFilter
range_of value clock none = with_operator operators value clock
range_of value clock (some (lower, upper)) =
    then_read (side lower clock)
      (λ a. then_read (side upper clock) (λ b. ok_or_refuse (range_filter a b)))

unfoldable pub date_filter : List ℕ → LocalClock → Read DateFilter
date_filter text clock =
    let value = trim text in
    if same_text (lowercase value) (codes "unknown")
    then ok unknown
    else range_of value clock (split_dots value)
