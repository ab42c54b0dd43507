-- ===== src/Index/EntryTable/Reach.antt =====
-- crates/goz-core/src/index/store.rs: the tables that runs of the operations reach.
use goz.Prelude.{
  ℕ, ◌+◌, ◌≡◌, inl, inr, refl, sym, ap, subst, ◌∙◌, true, false, none, some, Option-cases, length,
  get_elem?, set, All, arith,
}
use goz.Prelude.Int.{ℤ}
use goz.Types.{Frn, EntryIdx}
use goz.Index.EntryTable.{
  NameId, EntryFlags, tombstone_flag, contains, Slot, EntryTable, new, fresh_slot, alloc, tombstone,
  is_dead, is_tombstone, capacity, set_cell, iter_live,
}
use mathlib.Core.Option
use goz.Index.EntryTable.Count.{length-live_from}
use goz.Index.EntryTable.Invariant.{
  IsValid, All-imp, new-IsValid, place-IsValid, buried, buried-IsValid, set_cell-IsValid,
}

-- One call on the table: an allocation whose flags do not say dead, the burial of a slot that is not
-- dead, or a write to a slot that is not dead which leaves it so, as every setter's is.
pub data Step (t : EntryTable) : EntryTable → Type 0 where
  allocated :
      (frn : Frn) (parent : EntryIdx) (name_id : NameId) (flags : EntryFlags) (size : ℕ) (mtime : ℤ)
      (next_link : EntryIdx)
      → contains flags tombstone_flag ≡ false
      → Step t (alloc t frn parent name_id flags size mtime next_link).0
  tombstoned :
      {t' : EntryTable} (idx : EntryIdx)
      → is_tombstone t idx ≡ some false
      → tombstone t idx ≡ some t'
      → Step t t'
  written :
      {t' : EntryTable} (f : Slot → Slot) (idx : EntryIdx)
      → ((s : Slot) → is_dead s ≡ false → is_dead (f s) ≡ false)
      → is_tombstone t idx ≡ some false
      → set_cell f t idx ≡ some t'
      → Step t t'

pub data Reached : EntryTable → Type 0 where
  start : Reached new
  after : {t t' : EntryTable} → Reached t → Step t t' → Reached t'

pub live_slot :
    (t : EntryTable) (idx : EntryIdx)
    → is_tombstone t idx ≡ some false
    → (s : Slot) × (get_elem? t.slots idx ≡ some s) × (is_dead s ≡ false)
unfolding is_tombstone
live_slot t idx h = elim (Option-cases (get_elem? t.slots idx)) [
  | inl e ↦
      let g : none ≡ some false = sym (ap (Option.map is_dead) e) ∙ h in absurd (ground (arith, g))
  | inr (s, e) ↦
      let g : some (is_dead s) ≡ some false = sym (ap (Option.map is_dead) e) ∙ h in
      (s, e, ground (arith, g))
]

pub tombstone-buried :
    (t : EntryTable) (idx : EntryIdx) (s : Slot)
    → get_elem? t.slots idx ≡ some s
    → tombstone t idx ≡ some (buried t idx s)
unfolding tombstone buried
tombstone-buried t idx s e = rw (e, tombstone) refl

set_cell-written :
    (f : Slot → Slot) (t : EntryTable) (idx : EntryIdx) (s : Slot)
    → get_elem? t.slots idx ≡ some s
    → set_cell f t idx ≡ some (record t { slots = set t.slots idx (f s) })
unfolding set_cell
set_cell-written f t idx s e = rw (e, set_cell) refl

some-injective : (a b : EntryTable) → some a ≡ some b → a ≡ b
some-injective a b h = ground (arith, h)

Step-IsValid : (t t' : EntryTable) → Step t t' → IsValid t → IsValid t'
unfolding alloc is_dead fresh_slot
Step-IsValid t _ (allocated frn parent name_id flags size mtime next_link h) v =
    place-IsValid t.free t.slots t.live (fresh_slot frn parent name_id flags size mtime next_link) h
      v
Step-IsValid t t' (tombstoned idx h e) v =
    let (s, at, d) = live_slot t idx h in
    let same = some-injective (buried t idx s) t' (sym (tombstone-buried t idx s at) ∙ e) in
    subst IsValid same (buried-IsValid t idx s at d v)
Step-IsValid t t' (written f idx k h e) v =
    let (s, at, d) = live_slot t idx h in
    let same =
      some-injective (record t { slots = set t.slots idx (f s) }) t'
        (sym (set_cell-written f t idx s at) ∙ e) in
    subst IsValid same (set_cell-IsValid t idx s (f s) at d (k s d) v)

pub Reached-IsValid : (t : EntryTable) → Reached t → IsValid t
Reached-IsValid _ start = new-IsValid
Reached-IsValid t' (after {t} r st) = Step-IsValid t t' st (Reached-IsValid t r)

-- In every table that runs of the operations reach, `live` is the number of entries that `iter_live`
-- yields, the live entries and the free list together are all the slots, and every index of the free
-- list is that of a dead slot.
pub Reached-counted :
    (t : EntryTable)
    → Reached t
    → (t.live ≡ length (iter_live t))
      × (t.live + length t.free ≡ capacity t)
      × All (λ i. is_tombstone t i ≡ some true) t.free
unfolding iter_live capacity is_tombstone
Reached-counted t r =
    let v = Reached-IsValid t r in
    (
      v.counted ∙ sym (length-live_from t.slots 0),
      v.complete,
      All-imp _ _ t.free (λ i h. ap (Option.map is_dead) h.1 ∙ ap some h.2) v.dead,
    )
