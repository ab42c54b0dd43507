-- ===== src/Query/Dates/Filters.antt =====
-- crates/goz-core/src/query/dates.rs: what a filter accepts.
use goz.Prelude.{suc, ◌+◌, ◌≤◌, ◌≡◌, refl, not, ◌&&◌, Option, none, some, arith}
use goz.Prelude.Int.{ℤ, pos_part, neg_part, i64_limit}
use goz.Query.Dates.{
  DateFilter, within, unknown, matches, and, Value, period, instant, compared, at_least, at_most,
  after, before, first, last,
}

-- Two `dm:` terms in one query accept exactly the dates that both accept, an unknown date among them.
pub matches-and :
    (f g : DateFilter) (t : Option ℤ) → matches (and f g) t ≡ matches f t && matches g t
unfolding matches and
matches-and (within a b) (within c d) (some t) = ground arith
matches-and (within a b) (within c d) none = refl
matches-and (within a b) unknown (some t) = ground arith
matches-and (within a b) unknown none = refl
matches-and unknown (within c d) (some t) = ground arith
matches-and unknown (within c d) none = refl
matches-and unknown unknown (some t) = refl
matches-and unknown unknown none = refl

-- A known date is after a value exactly where it is not at most the value, and before it exactly where
-- it is not at least the value, when the value's ends do not touch the ends of an i64.
pub matches-compared :
    (v : Value) (t : ℤ)
    → (neg_part (first v) + 1 ≤ i64_limit) × (pos_part (first v) + 1 ≤ i64_limit)
    → (neg_part (last v) ≤ i64_limit) × (pos_part (last v) + 2 ≤ i64_limit)
    → (suc (pos_part t) ≤ i64_limit) × (neg_part t ≤ i64_limit)
    → (matches (compared after v) (some t) ≡ not (matches (compared at_most v) (some t)))
      × (matches (compared before v) (some t) ≡ not (matches (compared at_least v) (some t)))
unfolding matches compared first last
matches-compared (instant p) t first_in last_in t_in = (ground arith, ground arith)
matches-compared (period a b) t first_in last_in t_in = (ground arith, ground arith)
