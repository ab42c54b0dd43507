-- ===== src/Query/Budget/Response.antt =====
-- crates/goz-core/src/query/budget.rs: how soon a search hears that its time is up.
use goz.Prelude.{
  ℕ, zero, suc, ◌+◌, ◌≤◌, ◌<◌, ◌≡◌, refl, ap, ◌∙◌, Bool, true, inl, inr, Bool-cases, some, List, [],
  ◌∷◌, All, length, get_elem?, ◌==◌, ==_iff, arith,
}
use goz.Query.Budget.{Budget, Moment, over, see, check_seen, check, Watch, new, settle, tick, ticks}
use goz.Query.Budget.Sticky.{IsValid, tick-IsValid, tick-HasHeard, heard_ticks}

over-tick : (w : Watch) (m x : Moment) → over (tick w m).0.budget x ≡ over w.budget x
unfolding tick settle check check_seen see over
over-tick w m x = ground arith

over_kept :
    (w : Watch) (m : Moment) (ms : List Moment)
    → All (λ x. over w.budget x ≡ true) ms
    → All (λ x. over (tick w m).0.budget x ≡ true) ms
over_kept w m [] h = tt
over_kept w m (x ∷ ms) h = (over-tick w m x ∙ h.0, over_kept w m ms h.1)

over-see : (b : Budget) (m : Moment) → over (see b m) m ≡ over b m
unfolding over see
over-see b m = refl

-- The last item of a count hears it, and an earlier one takes one from the count.
tick_last : (w : Watch) (m : Moment) → w.left ≡ 1 → over w.budget m ≡ true → (tick w m).1 ≡ true
unfolding tick settle check check_seen
tick_last w m h k = let o = over-see w.budget m ∙ k in ground (arith, h, o)

tick_early : (w : Watch) (m : Moment) → 2 ≤ w.left → (tick w m).0.left + 1 ≡ w.left
unfolding tick
tick_early w m h = ground (arith, h)

get_true :
    (answers : List Bool) (i : ℕ)
    → All (λ a. a ≡ true) answers
    → i < length answers
    → get_elem? answers i ≡ some true
get_true [] i h lt = absurd (omega arith)
get_true (a ∷ answers) zero h lt = ap some h.0
get_true (a ∷ answers) (suc i) h lt = get_true answers i h.1 (omega arith)

length-ticks : (w : Watch) (ms : List Moment) → length (ticks w ms) ≡ length ms
unfolding ticks
length-ticks w [] = refl
length-ticks w (m ∷ ms) = ap suc (length-ticks (tick w m).0 ms)

get_elem?-ticks :
    (w : Watch) (ms : List Moment) (i : ℕ)
    → IsValid w
    → All (λ m. over w.budget m ≡ true) ms
    → w.left ≤ suc i
    → i < length ms
    → get_elem? (ticks w ms) i ≡ some true
unfolding ticks
get_elem?-ticks w [] i v h le lt = absurd (omega arith)
get_elem?-ticks w (m ∷ ms) zero v h le lt = ap some (tick_last w m (omega (arith, v, le)) h.0)
get_elem?-ticks w (m ∷ ms) (suc i) v h le lt = elim (Bool-cases (w.left == 1)) [
  | inl e ↦
      let heard = tick-HasHeard w m (tick_last w m ((==_iff w.left 1).0 e) h.0) in
      let len = length-ticks (tick w m).0 ms in
      get_true (ticks (tick w m).0 ms) i (heard_ticks (tick w m).0 ms heard)
        (omega (arith, len, lt))
  | inr e ↦
      let more : 2 ≤ w.left = ground (arith, v, e) in
      let less = tick_early w m more in
      get_elem?-ticks (tick w m).0 ms i (tick-IsValid w m v) (over_kept w m ms h.1)
        (omega (arith, less, le)) (omega (arith, lt))
]

-- If from some item on the budget is cancelled or past its deadline, the 256th item from there hears
-- that it is spent, and so does every item after it, wherever in its count the watch was.
pub ticks_response :
    (w : Watch) (ms : List Moment) (i : ℕ)
    → IsValid w
    → All (λ m. over w.budget m ≡ true) ms
    → 255 ≤ i
    → i < length ms
    → get_elem? (ticks w ms) i ≡ some true
ticks_response w ms i v h far lt = get_elem?-ticks w ms i v h (omega (arith, v, far)) lt

-- A new watch hears at its first item that the budget is over, and goes on hearing it.
pub ticks-new :
    (b : Budget) (ms : List Moment) (i : ℕ)
    → All (λ m. over b m ≡ true) ms
    → i < length ms
    → get_elem? (ticks (new b) ms) i ≡ some true
unfolding new
ticks-new b ms i h lt = get_elem?-ticks (new b) ms i (omega arith, omega arith) h (omega arith) lt
