-- ===== src/Index/NameStore/Order/Runs.antt =====
-- crates/goz-core/src/index/store.rs: searching an order of the live name `a` and a dead one for `b`.
use goz.Prelude.{ℕ, zero, suc, ◌+◌, ◌<◌, ◌≤◌, ◌≡◌, refl, some, List, [], ◌∷◌, length, arith}
use goz.Types.{nil}
use goz.Index.NameStore.{NamePair, NameStore, folded_bytes_of, folded_in, slice}
use goz.Index.NameStore.Order.{insertion_point}
use goz.Index.NameStore.Order.Live.{not_both}
use goz.Index.NameStore.Order.Search.{Live, FoldsTo, IsOrdered, Splits, insertion_point-Splits}

abbrev pair_at : ℕ → ℕ → NamePair
pair_at off len = record {
  raw = record { off = 0x8000_0000 + off; len = len };
  folded = record { off = off; len = len };
}

abbrev one_live : NameStore
one_live = record {
  raw = [];
  folded = 0x61 ∷ 0 ∷ 0 ∷ 0 ∷ [];
  pairs = pair_at 0 1 ∷ pair_at 2 1 ∷ [];
  refcount = 1 ∷ 0 ∷ [];
  head = nil ∷ nil ∷ [];
  by_bytes = 0 ∷ [];
  garbage = 2;
  order = 0 ∷ 1 ∷ [];
  rank_of = 0 ∷ 1 ∷ [];
  unranked = [];
  dead_ranked = 1;
}

named : (p : ℕ) → p < 2 → (bytes : List ℕ) × FoldsTo one_live p bytes
unfolding folded_bytes_of folded_in slice
named zero lt = (0x61 ∷ [], (0, refl, refl))
named (suc zero) lt = (0 ∷ [], (1, refl, refl))
named (suc (suc p)) lt = absurd (omega (arith, lt))

only_first : (k : ℕ) → Live one_live k → k ≡ 0
only_first zero l = refl
only_first (suc zero) l = absurd (not_both (1 ∷ 0 ∷ []) (0 ∷ 1 ∷ []) 1 l (1, refl, refl))
only_first (suc (suc k)) (id, n, e, c) = absurd (ground (arith, e))

one_live-IsOrdered : IsOrdered one_live
one_live-IsOrdered = record {
  counted = ((1, refl), ((0, refl), tt));
  named = named;
  ascending = λ j k a b lt lj lk fa fb. absurd (omega (arith, lt, only_first k lk));
}

insertion_point-Splits_example :
    (p : ℕ) × (insertion_point one_live (0x62 ∷ []) ≡ some p)
    × (p ≤ length one_live.order)
    × Splits one_live (0x62 ∷ []) p
insertion_point-Splits_example = insertion_point-Splits one_live (0x62 ∷ []) one_live-IsOrdered
