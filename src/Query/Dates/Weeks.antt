-- ===== src/Query/Dates/Weeks.antt =====
-- crates/goz-core/src/query/dates.rs: this week and the last one.
use goz.Prelude.{ℕ, ◌+◌, ◌≤◌, ◌≡◌, ◌*◌, refl, ap, ◌∙◌, Option, some, arith}
use goz.Prelude.Int.{
  ℤ, pos, negsuc, ◌≤ℤ◌, ◌<ℤ◌, ◌+ℤ◌, mul_ℕ, div_euclid, rem_euclid, pos_part, neg_part,
}
use goz.Query.Dates.{calendar_period, week, week_first}

last_week : (z : ℤ) → z +ℤ negsuc 6 ≡ (z +ℤ pos 0) +ℤ negsuc 6
last_week z = ground arith

week_before : (z : ℤ) → (z +ℤ negsuc 6) +ℤ pos 7 ≡ z +ℤ pos 0
week_before z = ground arith

abbrev days : ℤ → ℤ → Option (ℤ × ℤ)
days a b = some (a, b)

last_pair :
    (z : ℤ)
    → days (z +ℤ negsuc 6) ((z +ℤ negsuc 6) +ℤ pos 7) ≡ days ((z +ℤ pos 0) +ℤ negsuc 6) (z +ℤ pos 0)
last_pair z =
    ap (λ a. days a ((z +ℤ negsuc 6) +ℤ pos 7)) (last_week z)
    ∙ ap (days ((z +ℤ pos 0) +ℤ negsuc 6)) (week_before z)

rem_euclid-lt : (z : ℤ) → rem_euclid z 7 ≤ 6
rem_euclid-lt (pos n) = omega arith
rem_euclid-lt (negsuc n) = omega arith

same_start : (z : ℤ) (r : ℕ) → ((z +ℤ mul_ℕ (negsuc 0) r) +ℤ pos 0) ≤ℤ z
same_start z r = ground arith

near : (z : ℤ) (r : ℕ) → r ≤ 6 → z <ℤ (((z +ℤ mul_ℕ (negsuc 0) r) +ℤ pos 0) +ℤ pos 7)
near z r small = ground arith

rem_parts :
    (z : ℤ)
    → pos_part z + neg_part (div_euclid z 7) * 7
      ≡ neg_part z + pos_part (div_euclid z 7) * 7 + rem_euclid z 7
rem_parts (pos n) = omega arith
rem_parts (negsuc n) = omega arith

rem_unique :
    (z : ℤ) (p n w : ℕ) → w ≤ 6 → pos_part z + n * 7 ≡ neg_part z + p * 7 + w → rem_euclid z 7 ≡ w
rem_unique (pos z) p n w small e = omega arith
rem_unique (negsuc z) p n w small e = omega arith

add_parts :
    (a b : ℤ)
    → pos_part (a +ℤ b) + neg_part a + neg_part b ≡ neg_part (a +ℤ b) + pos_part a + pos_part b
add_parts a b = ground arith

opposite_parts : (w : ℕ) → pos_part (mul_ℕ (negsuc 0) w) + w ≡ neg_part (mul_ℕ (negsuc 0) w)
opposite_parts w = ground arith

-- The equations above, over the parts alone.
sums :
    (z y first today opp_w opp_r q : ℤ) (r w : ℕ)
    → pos_part z + neg_part q * 7 ≡ neg_part z + pos_part q * 7 + r
    → pos_part z + neg_part today + neg_part opp_w ≡ neg_part z + pos_part today + pos_part opp_w
    → pos_part y + neg_part today + neg_part opp_r ≡ neg_part y + pos_part today + pos_part opp_r
    → pos_part first + neg_part y + 0 ≡ neg_part first + pos_part y + 0
    → pos_part opp_w + w ≡ neg_part opp_w
    → pos_part opp_r + r ≡ neg_part opp_r
    → pos_part first + neg_part q * 7 ≡ neg_part first + pos_part q * 7 + w
sums z y first today opp_w opp_r q r w e0 e1 e2 e3 ew er = omega arith

starts :
    (today opp_w opp_r : ℤ) (w : ℕ)
    → w ≤ 6
    → pos_part opp_w + w ≡ neg_part opp_w
    → pos_part opp_r + rem_euclid (today +ℤ opp_w) 7 ≡ neg_part opp_r
    → rem_euclid ((today +ℤ opp_r) +ℤ pos 0) 7 ≡ w
starts today opp_w opp_r w small ew er =
    let q = div_euclid (today +ℤ opp_w) 7 in
    let at = rem_parts (today +ℤ opp_w) in
    let e1 = add_parts today opp_w in
    let e2 = add_parts today opp_r in
    let e3 = add_parts (today +ℤ opp_r) (pos 0) in
    rem_unique ((today +ℤ opp_r) +ℤ pos 0) (pos_part q) (neg_part q) w small (
      sums (today +ℤ opp_w) (today +ℤ opp_r) ((today +ℤ opp_r) +ℤ pos 0) today opp_w opp_r q
        (rem_euclid (today +ℤ opp_w) 7) w at e1 e2 e3 ew er)

-- This week starts on the first day of the week, holds today and lasts seven days; the last week is the
-- seven days before it.
pub calendar_period-week :
    (today : ℤ) (week_start : ℕ)
    → week_start ≤ 6
    → (start : ℤ) × (calendar_period week (pos 0) today week_start ≡ some (start, start +ℤ pos 7))
      × (calendar_period week (negsuc 0) today week_start ≡ some (start +ℤ negsuc 6, start))
      × (start ≤ℤ today)
      × (today <ℤ (start +ℤ pos 7))
      × (rem_euclid start 7 ≡ week_start)
unfolding calendar_period week_first
calendar_period-week today week_start small =
    let r = rem_euclid (today +ℤ mul_ℕ (negsuc 0) week_start) 7 in
    let first = today +ℤ mul_ℕ (negsuc 0) r in
    (
      first +ℤ pos 0,
      refl,
      last_pair first,
      same_start today r,
      near today r (rem_euclid-lt (today +ℤ mul_ℕ (negsuc 0) week_start)),
      starts today (mul_ℕ (negsuc 0) week_start) (mul_ℕ (negsuc 0) r) week_start small
          (opposite_parts week_start) (opposite_parts r),
    )
