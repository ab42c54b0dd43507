-- ===== src/Query/Dates/Months.antt =====
-- crates/goz-core/src/query/dates.rs: the length of a month, by the table and by the calendar.
use goz.Prelude.{
  ℕ, zero, suc, ◌+◌, ◌-◌, ◌*◌, ◌/◌, ◌%◌, ◌≤◌, ◌≡◌, refl, sym, ap, ◌∙◌, arith, true, false, inl, inr,
  ◌⊎◌, Bool-cases,
}
use goz.Prelude.Int.{ℤ, pos, negsuc, ◌+ℤ◌, mul_ℕ, div_euclid, rem_euclid}
use goz.Output.Filetime.{days_from_civil}
use goz.Query.Dates.{days_in_month, is_leap}

shift :
    (e : ℤ) (a b d : ℕ)
    → a + d ≡ b
    → e +ℤ pos b +ℤ negsuc 719_467 ≡ (e +ℤ pos a +ℤ negsuc 719_467) +ℤ pos d
shift e a b d h = ground arith

leap_step :
    (n : ℕ)
    → (((suc n % 4 ≡ 0) × (1 ≤ suc n % 100)) ⊎ (suc n % 400 ≡ 0))
    → n / 400 * 146_097 + (n % 400 * 365 + n % 400 / 4 - n % 400 / 100 + 337) + 29
      ≡ suc n / 400 * 146_097 + (suc n % 400 * 365 + suc n % 400 / 4 - suc n % 400 / 100 + 0)
leap_step n (inl h) = omega (arith, h)
leap_step n (inr h) = omega (arith, h)

common_step :
    (n : ℕ)
    → ((1 ≤ suc n % 4) ⊎ ((suc n % 100 ≡ 0) × (1 ≤ suc n % 400)))
    → n / 400 * 146_097 + (n % 400 * 365 + n % 400 / 4 - n % 400 / 100 + 337) + 28
      ≡ suc n / 400 * 146_097 + (suc n % 400 * 365 + suc n % 400 / 4 - suc n % 400 / 100 + 0)
common_step n (inl h) = omega (arith, h)
common_step n (inr h) = omega (arith, h)

shift_era :
    (p a q b d : ℕ)
    → p * 146_097 + a + d ≡ q * 146_097 + b
    → mul_ℕ (pos q) 146_097 +ℤ pos b +ℤ negsuc 719_467
      ≡ (mul_ℕ (pos p) 146_097 +ℤ pos a +ℤ negsuc 719_467) +ℤ pos d
shift_era p a q b d h = ground arith

leap-true :
    (n : ℕ)
    → is_leap (pos (suc n)) ≡ true
    → ((suc n % 4 ≡ 0) × (1 ≤ suc n % 100)) ⊎ (suc n % 400 ≡ 0)
unfolding is_leap
leap-true n e = ground arith

leap-false :
    (n : ℕ)
    → is_leap (pos (suc n)) ≡ false
    → (1 ≤ suc n % 4) ⊎ ((suc n % 100 ≡ 0) × (1 ≤ suc n % 400))
unfolding is_leap
leap-false n e = ground arith

-- A day of a year that starts in March, in the form that `days_from_civil` gives it.
unfoldable start_of : ℕ → ℤ → ℤ
start_of doy y =
    let yoe = rem_euclid y 400 in
    mul_ℕ (div_euclid y 400) 146_097
    +ℤ pos (yoe * 365 + yoe / 4 - yoe / 100 + doy)
    +ℤ negsuc 719_467

year_before : (n : ℕ) → pos (suc n) +ℤ negsuc 0 ≡ pos n
year_before n = ground arith

starts_era :
    (n d : ℕ)
    → n / 400 * 146_097 + (n % 400 * 365 + n % 400 / 4 - n % 400 / 100 + 337) + d
      ≡ suc n / 400 * 146_097 + (suc n % 400 * 365 + suc n % 400 / 4 - suc n % 400 / 100 + 0)
    → start_of 0 (pos (suc n)) ≡ start_of 337 (pos n) +ℤ pos d
unfolding start_of
starts_era n d h =
    shift_era (n / 400) (n % 400 * 365 + n % 400 / 4 - n % 400 / 100 + 337) (suc n / 400)
      (suc n % 400 * 365 + suc n % 400 / 4 - suc n % 400 / 100 + 0) d h

days_from_civil-march : (y : ℤ) → days_from_civil y 3 1 ≡ start_of 0 y
unfolding days_from_civil start_of
days_from_civil-march y = refl

days_from_civil-february : (y : ℤ) → days_from_civil y 2 1 ≡ start_of 337 (y +ℤ negsuc 0)
unfolding days_from_civil start_of
days_from_civil-february y = refl

february :
    (n d : ℕ)
    → n / 400 * 146_097 + (n % 400 * 365 + n % 400 / 4 - n % 400 / 100 + 337) + d
      ≡ suc n / 400 * 146_097 + (suc n % 400 * 365 + suc n % 400 / 4 - suc n % 400 / 100 + 0)
    → days_from_civil (pos (suc n)) 3 1 ≡ days_from_civil (pos (suc n)) 2 1 +ℤ pos d
february n d h =
    days_from_civil-march (pos (suc n))
    ∙ starts_era n d h
    ∙ sym (
        ap (λ z. z +ℤ pos d)
          (days_from_civil-february (pos (suc n)) ∙ ap (start_of 337) (year_before n)))

february_days :
    (n : ℕ)
    → days_from_civil (pos (suc n)) 3 1
      ≡ days_from_civil (pos (suc n)) 2 1 +ℤ pos (days_in_month (pos (suc n)) 2)
unfolding days_in_month
february_days n = elim (Bool-cases (is_leap (pos (suc n)))) [
  | inl e ↦ rw e (february n 29 (leap_step n (leap-true n e)))
  | inr e ↦ rw e (february n 28 (common_step n (leap-false n e)))
]

-- The table of month lengths agrees with the calendar: the first of the next month is as many days after
-- the first of a month as the table says, in every year from 1 on and every month but December.
pub days_in_month-days_from_civil :
    (n m : ℕ)
    → 1 ≤ m
    → m ≤ 11
    → days_from_civil (pos (suc n)) (suc m) 1
      ≡ days_from_civil (pos (suc n)) m 1 +ℤ pos (days_in_month (pos (suc n)) m)
unfolding days_from_civil days_in_month is_leap
days_in_month-days_from_civil n zero lo hi = ground arith
days_in_month-days_from_civil n (suc zero) lo hi = shift _ _ _ _ (omega arith)
days_in_month-days_from_civil n (suc (suc zero)) lo hi = february_days n
days_in_month-days_from_civil n (suc (suc (suc zero))) lo hi = shift _ _ _ _ (omega arith)
days_in_month-days_from_civil n (suc (suc (suc (suc zero)))) lo hi = shift _ _ _ _ (omega arith)
days_in_month-days_from_civil n (suc (suc (suc (suc (suc zero))))) lo hi =
    shift _ _ _ _ (omega arith)
days_in_month-days_from_civil n (suc (suc (suc (suc (suc (suc zero)))))) lo hi =
    shift _ _ _ _ (omega arith)
days_in_month-days_from_civil n (suc (suc (suc (suc (suc (suc (suc zero))))))) lo hi =
    shift _ _ _ _ (omega arith)
days_in_month-days_from_civil n (suc (suc (suc (suc (suc (suc (suc (suc zero)))))))) lo hi =
    shift _ _ _ _ (omega arith)
days_in_month-days_from_civil n (suc (suc (suc (suc (suc (suc (suc (suc (suc zero))))))))) lo hi =
    shift _ _ _ _ (omega arith)
days_in_month-days_from_civil n (suc (suc (suc (suc (suc (suc (suc (suc (suc (suc zero)))))))))) lo
      hi =
    shift _ _ _ _ (omega arith)
days_in_month-days_from_civil n
      (suc (suc (suc (suc (suc (suc (suc (suc (suc (suc (suc zero))))))))))) lo hi =
    shift _ _ _ _ (omega arith)
days_in_month-days_from_civil n
      (suc (suc (suc (suc (suc (suc (suc (suc (suc (suc (suc (suc m)))))))))))) lo hi =
    ground arith
