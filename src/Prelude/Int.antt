-- ===== src/Prelude/Int.antt =====
-- Signed integers over the native numbers, under the library's names (its ℤ stands on unary numbers).
-- Orders go through the two parts of an integer, which are numbers that `omega` reads.
use Prim.Native.Nat.{ℕ, suc, ◌+◌, ◌-◌, ◌*◌, ◌/◌, ◌%◌, ◌≤◌}
use mathlib.Core.Path.{◌≡◌}
use mathlib.Core.Bool.{Bool}
use mathlib.Core.Option.{Option, none, some}
use native.Mathlib.Omega.{arith}
use goz.Prelude.Tests.{ltb, leb, if◌then◌else◌}

-- `negsuc n` is -(n + 1).
pub data ℤ : Type 0 where
  pos : ℕ → ℤ
  negsuc : ℕ → ℤ

abbrev pub pos_part : ℤ → ℕ
pos_part (pos n) = n
pos_part (negsuc n) = 0

abbrev pub neg_part : ℤ → ℕ
neg_part (pos n) = 0
neg_part (negsuc n) = suc n

-- a - b, as an integer.
abbrev pub sub_ℕ : ℕ → ℕ → ℤ
sub_ℕ a b = if leb b a then pos (a - b) else negsuc (b - a - 1)

infix 50 ◌≤ℤ◌ ◌<ℤ◌
abbrev pub ◌≤ℤ◌ : ℤ → ℤ → Type 0
a ≤ℤ b = pos_part a + neg_part b ≤ pos_part b + neg_part a

abbrev pub ◌<ℤ◌ : ℤ → ℤ → Type 0
a <ℤ b = suc (pos_part a + neg_part b) ≤ pos_part b + neg_part a

abbrev pub ltb_ℤ : ℤ → ℤ → Bool
ltb_ℤ a b = ltb (pos_part a + neg_part b) (pos_part b + neg_part a)

pub eq_of_parts : (a b : ℤ) → pos_part a + neg_part b ≡ pos_part b + neg_part a → a ≡ b
eq_of_parts a b h = ground arith

infixl 60 ◌+ℤ◌
abbrev pub ◌+ℤ◌ : ℤ → ℤ → ℤ
a +ℤ b = sub_ℕ (pos_part a + pos_part b) (neg_part a + neg_part b)

-- `a * k`, for a natural `k`.
abbrev pub mul_ℕ : ℤ → ℕ → ℤ
mul_ℕ a k = sub_ℕ (pos_part a * k) (neg_part a * k)

-- `div_euclid` and `rem_euclid` by a positive number: the quotient is rounded down.
abbrev pub div_euclid : ℤ → ℕ → ℤ
div_euclid (pos n) k = pos (n / k)
div_euclid (negsuc n) k = negsuc (n / k)

abbrev pub rem_euclid : ℤ → ℕ → ℕ
rem_euclid (pos n) k = n % k
rem_euclid (negsuc n) k = k - 1 - n % k

-- 2^63: the integers of an i64 go from its opposite up to one below it.
abbrev pub i64_limit : ℕ
i64_limit = 9_223_372_036_854_775_808

abbrev pub i64_max : ℤ
i64_max = pos (i64_limit - 1)

abbrev pub i64_min : ℤ
i64_min = negsuc (i64_limit - 1)

-- What `saturating_add` and its like make of the exact result.
abbrev pub saturate : ℤ → ℤ
saturate (pos n) = if ltb n i64_limit then pos n else i64_max
saturate (negsuc n) = if ltb n i64_limit then negsuc n else i64_min

-- What `checked_add` and its like make of the exact result.
abbrev pub checked : ℤ → Option ℤ
checked (pos n) = if ltb n i64_limit then some (pos n) else none
checked (negsuc n) = if ltb n i64_limit then some (negsuc n) else none
