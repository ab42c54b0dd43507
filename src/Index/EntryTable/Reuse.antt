-- ===== src/Index/EntryTable/Reuse.antt =====
-- crates/goz-core/src/index/store.rs: which slot an allocation takes, and what it leaves alone.
use goz.Prelude.{
  ℕ, ◌+◌, ◌≡◌, ◌≢◌, refl, sym, ap, ◌∙◌, true, false, some, List, [], ◌∷◌, ◌++◌, length, get_elem?,
  get_elem?-set_self, get_elem?-set_ne, get_elem?-append_left, arith,
}
use goz.Prelude.Int.{ℤ}
use goz.Types.{Frn, EntryIdx}
use goz.Index.EntryTable.{
  NameId, EntryFlags, Slot, EntryTable, fresh_slot, place, alloc, bury, tombstone, is_dead,
  is_tombstone,
}
use mathlib.Core.Option
use goz.Index.EntryTable.Count.{weight, live_count-set, get_elem?-lt}
use goz.Index.EntryTable.Invariant.{IsValid, ne_dead, buried, buried-IsValid, bury-is_dead}
use goz.Index.EntryTable.Reach.{Reached, Reached-IsValid, live_slot, tombstone-buried}

get_elem?-append_last :
    (slots : List Slot) (s : Slot) → get_elem? (slots ++ s ∷ []) (length slots) ≡ some s
get_elem?-append_last [] s = refl
get_elem?-append_last (x ∷ slots) s = get_elem?-append_last slots s

-- Placing a slot: it stands at the index that is returned, which was no live one, and a live slot
-- stays.
place-keeps :
    (free : List EntryIdx) (slots : List Slot) (live : ℕ) (s : Slot) (i : ℕ) (x : Slot)
    → IsValid (record { slots = slots; free = free; live = live })
    → get_elem? slots i ≡ some x
    → is_dead x ≡ false
    → (get_elem? (place free slots live s).0.slots (place free slots live s).1 ≡ some s)
      × ((place free slots live s).1 ≢ i)
      × (get_elem? (place free slots live s).0.slots i ≡ some x)
unfolding place
place-keeps [] slots live s i x v e d = (
  get_elem?-append_last slots s,
  λ same. let lt = get_elem?-lt slots i x e in omega (arith, lt, same),
  get_elem?-append_left slots (s ∷ []) i (get_elem?-lt slots i x e) ∙ e,
)
place-keeps (idx ∷ free) slots live s i x v e d =
    let (y, f, dy) = v.dead.0 in
    let ne : idx ≢ i = λ same. ne_dead slots i x idx e d v.dead.0 (sym same) in
    (
      get_elem?-set_self slots idx s (get_elem?-lt slots idx y f),
      ne,
      get_elem?-set_ne slots idx i s ne ∙ e,
    )

-- In a table that runs of the operations reach, `alloc` stores the new entry, its chains empty, at the
-- index that it returns. That is the index of no live entry, and every live entry stays as it was.
alloc-keeps :
    (t : EntryTable) (frn : Frn) (parent : EntryIdx) (name_id : NameId) (flags : EntryFlags)
    (size : ℕ) (mtime : ℤ) (next_link : EntryIdx) (i : EntryIdx)
    → Reached t
    → is_tombstone t i ≡ some false
    → (get_elem?
          (alloc t frn parent name_id flags size mtime next_link).0.slots
          (alloc t frn parent name_id flags size mtime next_link).1
        ≡ some (fresh_slot frn parent name_id flags size mtime next_link))
      × ((alloc t frn parent name_id flags size mtime next_link).1 ≢ i)
      × (get_elem? (alloc t frn parent name_id flags size mtime next_link).0.slots i
          ≡ get_elem? t.slots i)
unfolding alloc
alloc-keeps t frn parent name_id flags size mtime next_link i r h =
    let (x, e, d) = live_slot t i h in
    let k =
      place-keeps t.free t.slots t.live (fresh_slot frn parent name_id flags size mtime next_link) i
        x (Reached-IsValid t r) e d in
    (k.0, k.1, k.2 ∙ sym e)

-- Burying a live entry of a table that runs of the operations reach succeeds, and lowers the live count
-- by exactly one, which therefore does not pass below zero. The entry is then dead, and the next
-- allocation takes its slot.
tombstone-alloc :
    (t : EntryTable) (idx : EntryIdx) (frn : Frn) (parent : EntryIdx) (name_id : NameId)
    (flags : EntryFlags) (size : ℕ) (mtime : ℤ) (next_link : EntryIdx)
    → Reached t
    → is_tombstone t idx ≡ some false
    → (t' : EntryTable) × (tombstone t idx ≡ some t')
      × (t'.live + 1 ≡ t.live)
      × (is_tombstone t' idx ≡ some true)
      × ((alloc t' frn parent name_id flags size mtime next_link).1 ≡ idx)
unfolding alloc place is_tombstone buried
tombstone-alloc t idx frn parent name_id flags size mtime next_link r h =
    let (s, e, d) = live_slot t idx h in
    let v = Reached-IsValid t r in
    let v' = buried-IsValid t idx s e d v in
    let w : weight (is_dead s) ≡ 1 = ap weight d in
    let w' : weight (is_dead (bury s)) ≡ 0 = ap weight (bury-is_dead s) in
    let c = live_count-set t.slots idx s (bury s) e in
    (
      buried t idx s,
      tombstone-buried t idx s e,
      omega (arith, v.counted, c, w, w'),
      ap (Option.map is_dead) v'.dead.0.1 ∙ ap some v'.dead.0.2,
      refl,
    )
