-- ===== src/Prelude/Bits.antt =====
-- `&` and `|` on words, and flag tests `word & MASK != 0`, from the recursion on binary digits that
-- the native operations stand for.
use Prim.Native.Nat.{
  ℕ, zero, suc, ◌+◌, ◌*◌, ◌/◌, ◌%◌, ◌^◌, ◌≤◌, ◌<◌, min, max, bit_and, bit_or, digits,
  bit_and-bitwise, bit_or-bitwise,
}
use mathlib.Core.Path.{◌≡◌, refl, ap}
use mathlib.Core.Logic.{◌↔◌}
use mathlib.Core.Bool.{Bool, true, false, not, ◌||◌}
use native.Mathlib.Omega.{arith}
use native.Mathlib.Nat.{pow-suc}
use goz.Prelude.Tests.{◌==◌}

-- Any digitwise operation: digits to go beyond those of the first number change nothing.
module _ (z : ℕ → ℕ) (f : ℕ → ℕ → ℕ) where
  same_digits : (n m a b : ℕ) → a ≤ n → a ≤ m → digits z f n a b ≡ digits z f m a b
  same_digits zero zero a b h k = refl
  same_digits zero (suc m) zero b h k = refl
  same_digits zero (suc m) (suc a) b h k = absurd (omega arith)
  same_digits (suc n) zero zero b h k = refl
  same_digits (suc n) zero (suc a) b h k = absurd (omega arith)
  same_digits (suc n) (suc m) zero b h k = refl
  same_digits (suc n) (suc m) (suc a) b h k =
      ap (λ (t : ℕ). t * 2 + f (suc a % 2) (b % 2))
        (same_digits n m (suc a / 2) (b / 2) (omega arith) (omega arith))

  -- The lowest digit, and the operation on the numbers without it.
  lowest_digit :
      ((b : ℕ) → z b ≡ z (b / 2) * 2 + f 0 (b % 2))
      → (a b : ℕ) → digits z f a a b ≡ digits z f (a / 2) (a / 2) (b / 2) * 2 + f (a % 2) (b % 2)
  lowest_digit halves zero b = halves b
  lowest_digit halves (suc a) b =
      ap (λ (t : ℕ). t * 2 + f (suc a % 2) (b % 2))
        (same_digits a (suc a / 2) (suc a / 2) (b / 2) (omega arith) (omega arith))

pub bit_and_digit : (a b : ℕ) → bit_and a b ≡ bit_and (a / 2) (b / 2) * 2 + min (a % 2) (b % 2)
bit_and_digit a b = omega (
  arith,
  bit_and-bitwise a b,
  bit_and-bitwise (a / 2) (b / 2),
  lowest_digit (λ _. 0) min (λ (c : ℕ). omega arith) a b,
)

pub bit_or_digit : (a b : ℕ) → bit_or a b ≡ bit_or (a / 2) (b / 2) * 2 + max (a % 2) (b % 2)
bit_or_digit a b = omega (
  arith,
  bit_or-bitwise a b,
  bit_or-bitwise (a / 2) (b / 2),
  lowest_digit (λ c. c) max (λ (c : ℕ). omega arith) a b,
)

zero-bit_and : (b : ℕ) → bit_and 0 b ≡ 0
zero-bit_and b = omega (arith, bit_and-bitwise 0 b)

and_or_digit :
    (w a b : ℕ)
    → bit_and w (bit_or a b)
      ≡ bit_and (w / 2) (bit_or (a / 2) (b / 2)) * 2 + min (w % 2) (max (a % 2) (b % 2))
and_or_digit w a b =
    let half : bit_or a b / 2 ≡ bit_or (a / 2) (b / 2) = omega (arith, bit_or_digit a b) in
    omega (arith, bit_and_digit w (bit_or a b), bit_or_digit a b, ap (bit_and (w / 2)) half)

-- A word meets `a | b` where it meets `a` or meets `b`.
meets_or :
    (n w a b : ℕ) → w ≤ n → (bit_and w (bit_or a b) ≡ 0) ↔ ((bit_and w a ≡ 0) × (bit_and w b ≡ 0))
meets_or n zero a b h = (λ _. (zero-bit_and a, zero-bit_and b), λ _. zero-bit_and (bit_or a b))
meets_or zero (suc w) a b h = absurd (omega arith)
meets_or (suc n) (suc w) a b h = (
  λ e.
      let ih =
        (meets_or n (suc w / 2) (a / 2) (b / 2) (omega arith)).0
          (omega (arith, and_or_digit (suc w) a b)) in
      (
        omega (arith, and_or_digit (suc w) a b, bit_and_digit (suc w) a, ih.0),
        omega (arith, and_or_digit (suc w) a b, bit_and_digit (suc w) b, ih.1),
      ),
  λ e.
      let ih =
        (meets_or n (suc w / 2) (a / 2) (b / 2) (omega arith)).1
          (omega (arith, bit_and_digit (suc w) a), omega (arith, bit_and_digit (suc w) b)) in
      omega (arith, and_or_digit (suc w) a b, bit_and_digit (suc w) a, bit_and_digit (suc w) b, ih),
)

bit_and-comm_fuel : (n a b : ℕ) → a ≤ n → b ≤ n → bit_and a b ≡ bit_and b a
bit_and-comm_fuel zero zero zero h k = refl
bit_and-comm_fuel zero zero (suc b) h k = absurd (omega arith)
bit_and-comm_fuel zero (suc a) b h k = absurd (omega arith)
bit_and-comm_fuel (suc n) a b h k = omega (
  arith,
  bit_and_digit a b,
  bit_and_digit b a,
  bit_and-comm_fuel n (a / 2) (b / 2) (omega arith) (omega arith),
)

pub bit_and_comm : (a b : ℕ) → bit_and a b ≡ bit_and b a
bit_and_comm a b = bit_and-comm_fuel (a + b) a b (omega arith) (omega arith)

-- `word & mask != 0`
abbrev pub has : ℕ → ℕ → Bool
has w mask = not (bit_and w mask == 0)

-- `word & (a | b) != 0` is a test for either flag.
pub has-bit_or : (w a b : ℕ) → has w (bit_or a b) ≡ has w a || has w b
has-bit_or w a b = let (down, up) = meets_or w w a b (omega arith) in ground (arith, down, up)

-- A flag that is set stays set when flags are added.
pub bit_or-has : (w more mask : ℕ) → has (bit_or w more) mask ≡ has w mask || has more mask
bit_or-has w more mask = ground (
  arith,
  bit_and_comm (bit_or w more) mask,
  bit_and_comm w mask,
  bit_and_comm more mask,
  has-bit_or mask w more,
)

-- The word of `k` ones.
abbrev pub ones : ℕ → ℕ
ones zero = 0
ones (suc k) = ones k * 2 + 1

bit_and-zero : (a : ℕ) → bit_and a 0 ≡ 0
bit_and-zero a = omega (arith, bit_and_comm a 0, zero-bit_and a)

mod_double : (p a : ℕ) → 0 < p → a % (p * 2) ≡ (a / 2 % p) * 2 + a % 2
mod_double p a h = grind arith

pow_pos : (k : ℕ) → 0 < 2 ^ k
pow_pos zero = omega arith
pow_pos (suc k) = omega (arith, pow-suc 2 k, pow_pos k)

-- A mask of `k` ones keeps the remainder by `2 ^ k`.
pub bit_and-ones : (k a : ℕ) → bit_and a (ones k) ≡ a % 2 ^ k
bit_and-ones zero a = omega (arith, bit_and-zero a)
bit_and-ones (suc k) a =
    let half : ones (suc k) / 2 ≡ ones k = omega arith in
    rw (pow-suc 2 k) (
      rw (mod_double (2 ^ k) a (pow_pos k)) (
        omega (
          arith,
          bit_and_digit a (ones (suc k)),
          ap (bit_and (a / 2)) half,
          bit_and-ones k (a / 2),
        )))

zero-bit_or : (b : ℕ) → bit_or 0 b ≡ b
zero-bit_or b = omega (arith, bit_or-bitwise 0 b)

bit_or-zero_fuel : (n a : ℕ) → a ≤ n → bit_or a 0 ≡ a
bit_or-zero_fuel n zero h = zero-bit_or 0
bit_or-zero_fuel zero (suc a) h = absurd (omega arith)
bit_or-zero_fuel (suc n) (suc a) h =
    omega (arith, bit_or_digit (suc a) 0, bit_or-zero_fuel n (suc a / 2) (omega arith))

-- `(q << k) | r` is a sum when `r` fits `k` bits.
pub bit_or_disjoint : (k q r : ℕ) → r < 2 ^ k → bit_or (q * 2 ^ k) r ≡ q * 2 ^ k + r
bit_or_disjoint zero q zero h = omega (arith, bit_or-zero_fuel (q * 1) (q * 1) (omega arith))
bit_or_disjoint zero q (suc r) h = absurd (omega arith)
bit_or_disjoint (suc k) q r h = omega (
  arith,
  bit_or_digit (q * 2 ^ suc k) r,
  ap (λ (t : ℕ). q * t) (pow-suc 2 k),
  ap (λ (t : ℕ). bit_or t (r / 2)) (shifted q k),
  pow-suc 2 k,
  bit_or_disjoint k q (r / 2) (omega (arith, pow-suc 2 k)),
)
  where
    shifted : (q k : ℕ) → q * 2 ^ suc k / 2 ≡ q * 2 ^ k
    shifted q k = omega (arith, ap (λ (t : ℕ). q * t) (pow-suc 2 k))

bit_or-comm_fuel : (n a b : ℕ) → a ≤ n → b ≤ n → bit_or a b ≡ bit_or b a
bit_or-comm_fuel zero zero zero h k = refl
bit_or-comm_fuel zero zero (suc b) h k = absurd (omega arith)
bit_or-comm_fuel zero (suc a) b h k = absurd (omega arith)
bit_or-comm_fuel (suc n) a b h k = omega (
  arith,
  bit_or_digit a b,
  bit_or_digit b a,
  bit_or-comm_fuel n (a / 2) (b / 2) (omega arith) (omega arith),
)

pub bit_or_comm : (a b : ℕ) → bit_or a b ≡ bit_or b a
bit_or_comm a b = bit_or-comm_fuel (a + b) a b (omega arith) (omega arith)

-- A number of `k` bits has no bit `k`.
pub bit_and-above : (k r : ℕ) → r < 2 ^ k → bit_and r (2 ^ k) ≡ 0
bit_and-above zero r h = let e : r ≡ 0 = omega arith in ap (λ t. bit_and t 1) e
bit_and-above (suc k) r h =
    let half : 2 ^ suc k / 2 ≡ 2 ^ k = omega (arith, pow-suc 2 k) in
    omega (
      arith,
      pow-suc 2 k,
      bit_and_digit r (2 ^ suc k),
      ap (bit_and (r / 2)) half,
      bit_and-above k (r / 2) (omega (arith, pow-suc 2 k)),
    )

-- Bit 31 of a word can be set, read and cut off again.
module _ (r : ℕ) (h : r < 0x8000_0000) where
  bit_or_marked : bit_or r 0x8000_0000 ≡ 0x8000_0000 + r
  bit_or_marked = omega (arith, bit_or_comm r 0x8000_0000, bit_or_disjoint 31 1 r h)

  pub has-unmarked : has r 0x8000_0000 ≡ false
  has-unmarked = ground (arith, bit_and-above 31 r h)

  pub unmark : bit_and r 0x7fff_ffff ≡ r
  unmark = omega (arith, bit_and-ones 31 r)

  pub bit_and-marked : bit_and (bit_or r 0x8000_0000) 0x7fff_ffff ≡ r
  bit_and-marked = omega (arith, bit_and-ones 31 (bit_or r 0x8000_0000), bit_or_marked)

pub has-marked : (r : ℕ) → has (bit_or r 0x8000_0000) 0x8000_0000 ≡ true
has-marked r = ground (arith, bit_or-has r 0x8000_0000 0x8000_0000)
