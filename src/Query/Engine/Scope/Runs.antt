-- ===== src/Query/Engine/Scope/Runs.antt =====
-- crates/goz-core/src/query/engine.rs: folders in one another, with a memo of an earlier test.
use goz.Prelude.{◌≡◌, refl, true, false, some, [], ◌∷◌, arith}
use goz.Types.{EntryIdx, nil}
use goz.Index.EntryTable.{Slot, EntryTable, fresh_slot, get_cell, dir, size_unknown, mtime_unknown}
use goz.Query.Engine.Scope.{Memo, recall, remember, scope_walk, in_scope_within, in_scope}
use goz.Query.Engine.Scope.Exact.{here, up, Inside, at_root, link, Scoped, in_scope-Scoped}

abbrev folder : EntryIdx → Slot
folder parent = fresh_slot 9 parent 0 dir size_unknown mtime_unknown nil

-- Entry 0 is the root of the volume, and each other entry is in the one before it.
abbrev nested : EntryTable
nested = record { slots = folder nil ∷ folder 0 ∷ folder 1 ∷ folder 2 ∷ []; free = []; live = 4 }

-- An earlier test found that entry 2 is below entry 1.
abbrev earlier : Memo
earlier = (2, true) ∷ []

Inside-two : Inside nested 1 2
unfolding get_cell fresh_slot
Inside-two = up 1 refl (omega arith) (here refl)

in_scope-Scoped_example : Scoped nested 1 3 (in_scope nested 3 1 earlier)
unfolding get_cell fresh_slot
in_scope-Scoped_example =
    in_scope-Scoped nested 1 earlier 2 3 (Inside-two, tt)
      (link 2 (omega arith) refl (omega arith)
        (link 1 (omega arith) refl (omega arith) (at_root refl)))
      (omega arith)

from_memo : in_scope nested 3 1 earlier ≡ some (true, (3, true) ∷ earlier)
unfolding in_scope in_scope_within scope_walk recall remember get_cell fresh_slot
from_memo = refl

upwards : in_scope nested 1 2 [] ≡ some (false, (1, false) ∷ [])
unfolding in_scope in_scope_within scope_walk recall remember get_cell fresh_slot
upwards = refl

-- A walk that the guard ends leaves a refusal for an entry which a walk of its own would accept:
-- with a guard at two links, entry 2 is below entry 0 when it comes first and not after entry 3.
spoiled :
    (in_scope_within 2 nested 2 0 [] ≡ some (true, (1, true) ∷ (2, true) ∷ []))
    × (in_scope_within 2 nested 3 0 [] ≡ some (false, (1, false) ∷ (2, false) ∷ (3, false) ∷ []))
unfolding in_scope_within scope_walk recall remember get_cell fresh_slot
spoiled = (refl, refl)
