-- ===== src/Index/FrnMap/Refine/Runs.antt =====
-- crates/goz-core/src/index/store.rs: a record map of few slots that switches its backing twice.
use goz.Prelude.{◌≡◌, refl, List, [], ◌∷◌, arith}
use goz.Index.FrnMap.{
  densify_to, max_key, power_of_two_from, fill, FrnMap, get, sparse, dense, new_dense,
  densify_if_smaller,
}
use goz.Index.FrnMap.Refine.{Call, call_set, call_remove, call_densify, run, updates, get-run}

abbrev calls : List Call
calls =
    call_set 5 70 ∷ call_set 100000 71 ∷ call_set 5 72 ∷ call_remove 100000 ∷ call_densify 6 ∷ []

abbrev four_slots : FrnMap
four_slots = new_dense 4

get-run_example : get (run four_slots calls) 5 ≡ updates (get four_slots) calls 5
unfolding new_dense
get-run_example =
    get-run four_slots calls 5
      (λ e. omega arith, (λ e. omega arith, (λ e. omega arith, (tt, (tt, tt))))) tt

abbrev three_keys : FrnMap
three_keys = sparse ((0, 10) ∷ (1, 11) ∷ (4, 12) ∷ [])

densified : densify_if_smaller 6 three_keys ≡ dense (10 ∷ 11 ∷ 0xffff_ffff ∷ 0xffff_ffff ∷ 12 ∷ [])
unfolding densify_if_smaller densify_to max_key power_of_two_from fill
densified = refl
