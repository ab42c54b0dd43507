-- ===== src/Query/Budget/Runs.antt =====
-- crates/goz-core/src/query/budget.rs: a search whose caller cancels it.
use goz.Prelude.{
  ℕ, ◌≡◌, refl, true, false, some, [], ◌∷◌, All, get_elem?, replicate, length-replicate, zero, suc,
  arith,
}
use goz.Query.Budget.{
  Moment, Watch, until, new, over, passed, tick, ticks, settle, check, check_seen, see,
}
use goz.Query.Budget.Response.{ticks_response}

abbrev early : Moment
early = record { now = 3; cancelled = false; spent_elsewhere = false }

abbrev cancelled_then : Moment
cancelled_then = record { now = 4; cancelled = true; spent_elsewhere = false }

answers : ticks (new (until 10)) (early ∷ cancelled_then ∷ []) ≡ false ∷ false ∷ []
unfolding ticks tick new until settle check check_seen see over passed
answers = refl

-- The caller cancels for 300 items, of which the watch has counted none.
abbrev counting : Watch
counting = record { budget = until 10; left = 256 }

cancelled_is_over : (n : ℕ) → All (λ m. over counting.budget m ≡ true) (replicate n cancelled_then)
unfolding until over passed
cancelled_is_over zero = tt
cancelled_is_over (suc n) = (refl, cancelled_is_over n)

ticks_response_example : get_elem? (ticks counting (replicate 300 cancelled_then)) 255 ≡ some true
ticks_response_example =
    let len = length-replicate {A = Moment} 300 cancelled_then in
    ticks_response counting (replicate 300 cancelled_then) 255 (omega arith, omega arith)
      (cancelled_is_over 300) (omega arith) (omega (arith, len))
