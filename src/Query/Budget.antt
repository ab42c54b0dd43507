-- ===== src/Query/Budget.antt =====
-- crates/goz-core/src/query/budget.rs: the budget of a query, and one thread's watch on it.
-- The budget is shared: at each item another thread may have found it spent, its caller may have
-- cancelled it, and the clock shows some instant. A `Moment` says which.
pub mod Sticky
pub mod Response
mod Runs
use goz.Prelude.{
  ℕ, ◌+◌, ◌-◌, Bool, true, false, ◌&&◌, ◌||◌, Option, none, some, List, [], ◌∷◌, leb, ◌==◌,
  if◌then◌else◌,
}

-- `cancel` says whether the budget has a flag by which its caller cancels it.
pub record Budget : Type 0 where
  pub deadline : Option ℕ
  pub cancel : Bool
  pub spent : Bool

pub record Moment : Type 0 where
  pub now : ℕ
  pub cancelled : Bool
  pub spent_elsewhere : Bool

unfoldable pub unlimited : Budget
unlimited = record { deadline = none; cancel = false; spent = false }

unfoldable pub until : ℕ → Budget
until deadline = record { deadline = some deadline; cancel = true; spent = false }

-- `deadline.is_some_and(|d| Instant::now() >= d)`
unfoldable pub passed : Option ℕ → ℕ → Bool
passed none now = false
passed (some d) now = leb d now

unfoldable pub over : Budget → Moment → Bool
over b m = (b.cancel && m.cancelled) || passed b.deadline m.now

-- What the other threads have stored by the moment of a check.
unfoldable pub see : Budget → Moment → Budget
see b m = record b { spent = b.spent || m.spent_elsewhere }

-- `Budget::check`, on the budget as the moment shows it: what it stores, and its answer.
unfoldable pub check_seen : Budget → Moment → Budget × Bool
check_seen b m =
    if b.spent
    then (b, true)
    else if over b m
    then (record b { spent = true }, true)
    else (b, false)

unfoldable pub check : Budget → Moment → Budget × Bool
check b m = check_seen (see b m) m

abbrev pub items_per_check : ℕ
items_per_check = 256

pub record Watch : Type 0 where
  pub budget : Budget
  pub left : ℕ

unfoldable pub new : Budget → Watch
new b = record { budget = b; left = 1 }

-- `Watch::check`
unfoldable pub settle : Budget × Bool → Watch × Bool
settle (b, spent) = (record { budget = b; left = if spent then 1 else items_per_check }, spent)

unfoldable pub tick : Watch → Moment → Watch × Bool
tick w m =
    if w.left - 1 == 0
    then settle (check w.budget m)
    else (record { budget = see w.budget m; left = w.left - 1 }, false)

-- The answers of the ticks at a sequence of moments.
unfoldable pub ticks : Watch → List Moment → List Bool
ticks w [] = []
ticks w (m ∷ ms) = let r = tick w m in r.1 ∷ ticks r.0 ms
