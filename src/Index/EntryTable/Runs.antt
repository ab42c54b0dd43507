-- ===== src/Index/EntryTable/Runs.antt =====
-- crates/goz-core/src/index/store.rs: a table of two entries, the first of which dies.
use goz.Prelude.{◌+◌, ◌≡◌, refl, true, false, some, [], ◌∷◌, length, All}
use goz.Types.{nil}
use goz.Index.EntryTable.{
  EntryTable, new, fresh_slot, place, alloc, contains, is_dead, is_tombstone, capacity, iter_live,
  live_from, dir, size_unknown, mtime_unknown,
}
use goz.Index.EntryTable.Reach.{Reached, start, after, allocated, Reached-counted}

abbrev root : EntryTable
root = (alloc new 5 nil 0 dir 0 mtime_unknown nil).0

abbrev two : EntryTable
two = (alloc root 42 0 1 0 size_unknown mtime_unknown nil).0

root-Reached : Reached root
unfolding contains
root-Reached = after start (allocated 5 nil 0 dir 0 mtime_unknown nil refl)

two-Reached : Reached two
unfolding contains
two-Reached = after root-Reached (allocated 42 0 1 0 size_unknown mtime_unknown nil refl)

live_of_two : iter_live two ≡ 0 ∷ 1 ∷ []
unfolding iter_live live_from is_dead contains alloc place fresh_slot new
live_of_two = refl

Reached-counted_example :
    (two.live ≡ length (iter_live two))
    × (two.live + length two.free ≡ capacity two)
    × All (λ i. is_tombstone two i ≡ some true) two.free
Reached-counted_example = Reached-counted two two-Reached

first_is_live : is_tombstone two 0 ≡ some false
unfolding is_tombstone is_dead contains alloc place fresh_slot new
first_is_live = refl
