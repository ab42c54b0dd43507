-- ===== src/Query/Budget/Sticky.antt =====
-- crates/goz-core/src/query/budget.rs: spent budgets and unlimited ones.
use goz.Prelude.{◌≤◌, ◌≡◌, refl, true, false, none, List, [], ◌∷◌, All, arith}
use goz.Query.Budget.{
  Budget, Moment, unlimited, over, passed, see, check_seen, check, items_per_check, Watch, new,
  settle, tick, ticks,
}

-- The count is between one and the items of a check, so taking one from it does not wrap.
abbrev pub IsValid : Watch → Type 0
IsValid w = (1 ≤ w.left) × (w.left ≤ items_per_check)

pub tick-IsValid : (w : Watch) (m : Moment) → IsValid w → IsValid (tick w m).0
unfolding tick settle
tick-IsValid w m h = ground (arith, h)

-- A watch that has heard that the budget is spent.
abbrev pub HasHeard : Watch → Type 0
HasHeard w = (w.budget.spent ≡ true) × (w.left ≡ 1)

pub tick-HasHeard : (w : Watch) (m : Moment) → (tick w m).1 ≡ true → HasHeard (tick w m).0
unfolding tick settle check check_seen see
tick-HasHeard w m h = ground (arith, h)

pub heard_tick :
    (w : Watch) (m : Moment) → HasHeard w → (HasHeard (tick w m).0) × ((tick w m).1 ≡ true)
unfolding tick settle check check_seen see
heard_tick w m h = ground (arith, h)

pub heard_ticks :
    (w : Watch) (ms : List Moment) → HasHeard w → All (λ answer. answer ≡ true) (ticks w ms)
unfolding ticks
heard_ticks w [] h = tt
heard_ticks w (m ∷ ms) h = let (k, e) = heard_tick w m h in (e, heard_ticks (tick w m).0 ms k)

-- A budget that nothing can spend, and that is not spent.
abbrev IsQuiet : Watch → Type 0
IsQuiet w = (w.budget.spent ≡ false) × (w.budget.cancel ≡ false) × (w.budget.deadline ≡ none)

quiet_over : (b : Budget) (m : Moment) → b.cancel ≡ false → b.deadline ≡ none → over b m ≡ false
unfolding over passed
quiet_over b m c d = rw (c, d, passed) refl

IsQuiet-tick :
    (w : Watch) (m : Moment)
    → IsQuiet w
    → m.spent_elsewhere ≡ false
    → (IsQuiet (tick w m).0) × ((tick w m).1 ≡ false)
unfolding tick settle check check_seen see
IsQuiet-tick w m h k = let q = quiet_over (see w.budget m) m h.1 h.2 in ground (arith, h, k, q)

quiet_ticks :
    (w : Watch) (ms : List Moment)
    → IsQuiet w
    → All (λ m. m.spent_elsewhere ≡ false) ms
    → All (λ answer. answer ≡ false) (ticks w ms)
unfolding ticks
quiet_ticks w [] h k = tt
quiet_ticks w (m ∷ ms) h k =
    let (q, e) = IsQuiet-tick w m h k.0 in (e, quiet_ticks (tick w m).0 ms q k.1)

-- Once one item hears that the budget is spent, every later item of the same watch hears it too,
-- whatever the clock shows and whatever the caller does, so the search tests nothing more.
pub ticks-tick :
    (w : Watch) (m : Moment) (ms : List Moment)
    → (tick w m).1 ≡ true
    → All (λ answer. answer ≡ true) (ticks (tick w m).0 ms)
ticks-tick w m ms h = heard_ticks (tick w m).0 ms (tick-HasHeard w m h)

-- No moment at which no other thread stored anything spends an unlimited budget: a watch on it never
-- answers that it is spent.
pub ticks-unlimited :
    (ms : List Moment)
    → All (λ m. m.spent_elsewhere ≡ false) ms
    → All (λ answer. answer ≡ false) (ticks (new unlimited) ms)
unfolding new unlimited
ticks-unlimited ms h = quiet_ticks (new unlimited) ms (refl, refl, refl) h
