-- ===== src/Index/Children/Chain/Runs.antt =====
-- crates/goz-core/src/index/volume.rs: a folder with two children, of which one is linked last.
use goz.Prelude.{◌≡◌, ◌≢◌, refl, some, List, [], ◌∷◌, ◌++◌, arith}
use goz.Types.{EntryIdx, nil}
use goz.Index.EntryTable.{Slot, EntryTable, fresh_slot, get_cell, dir, size_unknown, mtime_unknown}
use goz.Index.Children.Chain.Move.{move_child-Children}
use goz.Index.Children.{move_child, link_child, unlink_child}
use goz.Index.Children.Chain.{ParentOf, PrevOf, NextOf, Children}
use goz.Index.Children.Chain.Link.{link_child-Children}
use goz.Index.Children.Chain.Unlink.{unlink_child-Children}

abbrev entry : EntryIdx → Slot
entry parent = fresh_slot 9 parent 0 dir size_unknown mtime_unknown nil

-- Entry 1 is a child of entry 0, and entry 2 has the parent but is not linked.
abbrev one_linked : EntryTable
one_linked = record {
  slots = record (entry nil) { first_child = 1 } ∷ entry 0 ∷ entry 0 ∷ [];
  free = [];
  live = 3;
}

one-Children : Children one_linked 0 (1 ∷ [])
unfolding get_cell fresh_slot
one-Children = (1, 1, refl, (refl, omega arith, refl, refl, nil, refl, (refl, refl)))

second_parent : ParentOf one_linked 2 0
unfolding get_cell fresh_slot
second_parent = refl

link_child-Children_example :
    (t' : EntryTable) × (link_child one_linked 2 ≡ some t')
    × Children t' 0 (2 ∷ 1 ∷ [])
    × ((q : EntryIdx) (ys : List EntryIdx) → q ≢ 0 → Children one_linked q ys → Children t' q ys)
link_child-Children_example =
    link_child-Children one_linked 2 0 (1 ∷ []) second_parent (omega arith) (omega arith)
      one-Children ((omega arith, tt), (tt, tt))

abbrev two_linked : EntryTable
two_linked = record {
  slots =
      record (entry nil) { first_child = 2 }
      ∷ record (entry 0) { prev_child = 2 }
      ∷ record (entry 0) { next_child = 1 }
      ∷ [];
  free = [];
  live = 3;
}

two-Children : Children two_linked 0 (2 ∷ 1 ∷ [])
unfolding get_cell fresh_slot
two-Children = (
  2,
  1,
  refl,
  (
    refl,
    omega arith,
    refl,
    refl,
    1,
    refl,
    (refl, omega arith, refl, refl, nil, refl, (refl, refl)),
  ),
)

unlink_child-Children_example :
    (t' : EntryTable) × (unlink_child two_linked 1 ≡ some t')
    × Children t' 0 ((2 ∷ []) ++ [])
    × PrevOf t' 1 nil
    × NextOf t' 1 nil
    × ((i : EntryIdx) → get_cell (λ s. s.parent) t' i ≡ get_cell (λ s. s.parent) two_linked i)
    × ((q : EntryIdx) (zs : List EntryIdx) → q ≢ 0 → Children two_linked q zs → Children t' q zs)
unlink_child-Children_example =
    unlink_child-Children two_linked 1 0 (2 ∷ []) [] (omega arith) two-Children
      ((omega arith, tt), (tt, tt))

-- Entry 3 is another folder below entry 0, and has one child.
abbrev two_folders : EntryTable
two_folders = record {
  slots =
      record (entry nil) { first_child = 2 }
      ∷ record (entry 0) { prev_child = 2 }
      ∷ record (entry 0) { next_child = 1 }
      ∷ record (entry nil) { first_child = 4 }
      ∷ entry 3
      ∷ [];
  free = [];
  live = 5;
}

first_Children : Children two_folders 0 ([] ++ 2 ∷ 1 ∷ [])
unfolding get_cell fresh_slot
first_Children = (
  2,
  1,
  refl,
  (
    refl,
    omega arith,
    refl,
    refl,
    1,
    refl,
    (refl, omega arith, refl, refl, nil, refl, (refl, refl)),
  ),
)

third_Children : Children two_folders 3 (4 ∷ [])
unfolding get_cell fresh_slot
third_Children = (4, 4, refl, (refl, omega arith, refl, refl, nil, refl, (refl, refl)))

move_child-Children_example :
    (t' : EntryTable) × (move_child two_folders 2 3 ≡ some t')
    × Children t' 0 ([] ++ 1 ∷ [])
    × Children t' 3 (2 ∷ 4 ∷ [])
    × ((r : EntryIdx) (ws : List EntryIdx)
        → r ≢ 0
        → r ≢ 3
        → Children two_folders r ws
        → Children t' r ws)
move_child-Children_example =
    move_child-Children two_folders 2 0 3 [] (1 ∷ []) (4 ∷ []) (omega arith) (omega arith)
      (omega arith) first_Children ((omega arith, tt), (tt, tt)) third_Children (tt, tt)
