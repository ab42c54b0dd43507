-- ===== src/Output/Csv/Digits.antt =====
-- crates/goz-core/src/output/csv.rs: the decimal digits of a size.
use goz.Prelude.{
  ℕ, zero, suc, ◌+◌, ◌*◌, ◌/◌, ◌%◌, ◌-◌, ◌^◌, ◌<◌, ◌≤◌, ◌≡◌, refl, List, [], ◌∷◌, ◌++◌, All,
  All-append, ltb, Bool-cases, inl, inr, ltb→lt, ltb_false→le, arith,
}
use goz.Output.Csv.{digits_of, to_string}

abbrev pub IsDigit : ℕ → Type 0
IsDigit b = (0x30 ≤ b) × (b ≤ 0x39)

-- The number that a list of digits is, `n` being what stands before them.
abbrev pub value_of : ℕ → List ℕ → ℕ
value_of n [] = n
value_of n (d ∷ digits) = value_of (n * 10 + (d - 0x30)) digits

value_of-append :
    (n : ℕ) (xs : List ℕ) (d : ℕ) → value_of n (xs ++ d ∷ []) ≡ value_of n xs * 10 + (d - 0x30)
value_of-append n [] d = refl
value_of-append n (x ∷ xs) d = value_of-append (n * 10 + (x - 0x30)) xs d

digits_of-IsDigit : (fuel n : ℕ) → All IsDigit (digits_of fuel n)
unfolding digits_of
digits_of-IsDigit zero n = tt
digits_of-IsDigit (suc fuel) n = elim (Bool-cases (ltb n 10)) [
  | inl e ↦ let lt = ltb→lt n 10 e in rw e ((omega arith, omega (arith, lt)), tt)
  | inr e ↦ rw e (
      All-append IsDigit (digits_of fuel (n / 10)) ((0x30 + n % 10) ∷ [])
        (digits_of-IsDigit fuel (n / 10)) ((omega arith, omega arith), tt))
]

-- A number of two digits or more has fuel left.
positive : (fuel n : ℕ) → 10 ≤ n → n < 10 ^ suc fuel → 0 < fuel
positive zero n ge h = absurd (omega (arith, ge, h))
positive (suc fuel) n ge h = omega arith

value_of-digits_of : (fuel n : ℕ) → 0 < fuel → n < 10 ^ fuel → value_of 0 (digits_of fuel n) ≡ n
unfolding digits_of
value_of-digits_of zero n p h = absurd (omega (arith, p))
value_of-digits_of (suc fuel) n p h = elim (Bool-cases (ltb n 10)) [
  | inl e ↦ rw e (omega arith)
  | inr e ↦
      let ge = ltb_false→le n 10 e in
      let power : 10 ^ suc fuel ≡ 10 ^ fuel * 10 = omega arith in
      let more : 0 < fuel = positive fuel n ge h in
      let step = value_of-digits_of fuel (n / 10) more (omega (arith, h, power)) in
      rw (e, value_of-append 0 (digits_of fuel (n / 10)) (0x30 + n % 10), step) (omega arith)
]

pub to_string-IsDigit : (n : ℕ) → All IsDigit (to_string n)
unfolding to_string
to_string-IsDigit n = digits_of-IsDigit 20 n

-- The size cell is the decimal numeral of the size, for every 64-bit size.
pub to_string-value : (n : ℕ) → n < 2 ^ 64 → value_of 0 (to_string n) ≡ n
unfolding to_string
to_string-value n h = value_of-digits_of 20 n (omega arith) (omega (arith, h))
