-- ===== src/Index/EntryTable.antt =====
-- crates/goz-core/src/index/store.rs: the entry table. Its columns always have one length, so a table
-- is the list of its rows: row `i` holds cell `i` of every column. The free list is a stack, its top
-- first. An index out of range, at which the code panics, is `none`.

pub mod Count
pub mod Invariant
pub mod Reach
pub mod Reuse
mod Runs
use goz.Prelude.{
  ℕ, zero, suc, ◌+◌, ◌-◌, Bool, true, false, not, Option, none, some, List, [], ◌∷◌, ◌++◌, bit_and,
  bit_or, ◌==◌, if◌then◌else◌, length, get_elem?, set,
}
use goz.Prelude.Int.{ℤ, negsuc}
use goz.Types.{Frn, EntryIdx, nil}
use mathlib.Core.Option

abbrev pub NameId : Type 0
NameId = ℕ

abbrev pub EntryFlags : Type 0
EntryFlags = ℕ

abbrev pub dir : EntryFlags
dir = 1

abbrev pub tombstone_flag : EntryFlags
tombstone_flag = 2

abbrev pub lost_found : EntryFlags
lost_found = 4

abbrev pub placeholder : EntryFlags
placeholder = 8

abbrev pub non_unicode_name : EntryFlags
non_unicode_name = 16

unfoldable pub contains : EntryFlags → EntryFlags → Bool
contains flags other = bit_and flags other == other

-- `!other` of a `u8`
unfoldable pub with_flag : EntryFlags → EntryFlags → Bool → EntryFlags
with_flag flags other on = if on then bit_or flags other else bit_and flags (255 - other)

abbrev pub size_unknown : ℕ
size_unknown = 0xffff_ffff_ffff_ffff

-- `i64::MIN`
abbrev pub mtime_unknown : ℤ
mtime_unknown = negsuc 0x7fff_ffff_ffff_ffff

pub record Slot : Type 0 where
  pub frn : Frn
  pub parent : EntryIdx
  pub name_id : NameId
  pub flags : EntryFlags
  pub size : ℕ
  pub mtime : ℤ
  pub next_link : EntryIdx
  pub next_same : EntryIdx
  pub prev_same : EntryIdx
  pub first_child : EntryIdx
  pub next_child : EntryIdx
  pub prev_child : EntryIdx

pub record EntryTable : Type 0 where
  pub slots : List Slot
  pub free : List EntryIdx
  pub live : ℕ

unfoldable pub new : EntryTable
new = record { slots = []; free = []; live = 0 }

-- What `alloc` writes to the cells of a slot: the chains start empty.
unfoldable pub fresh_slot : Frn → EntryIdx → NameId → EntryFlags → ℕ → ℤ → EntryIdx → Slot
fresh_slot frn parent name_id flags size mtime next_link = record {
  frn = frn;
  parent = parent;
  name_id = name_id;
  flags = flags;
  size = size;
  mtime = mtime;
  next_link = next_link;
  next_same = nil;
  prev_same = nil;
  first_child = nil;
  next_child = nil;
  prev_child = nil;
}

-- `alloc` once its arguments are a slot: the top of the free list is used again, else a slot is added.
unfoldable pub place : List EntryIdx → List Slot → ℕ → Slot → EntryTable × EntryIdx
place (idx ∷ free) slots live s =
    (record { slots = set slots idx s; free = free; live = live + 1 }, idx)
place [] slots live s =
    (record { slots = slots ++ s ∷ []; free = []; live = live + 1 }, length slots)

unfoldable pub alloc :
    EntryTable → Frn → EntryIdx → NameId → EntryFlags → ℕ → ℤ → EntryIdx → EntryTable × EntryIdx
alloc t frn parent name_id flags size mtime next_link =
    place t.free t.slots t.live (fresh_slot frn parent name_id flags size mtime next_link)

-- What `tombstone` leaves of a slot.
unfoldable pub bury : Slot → Slot
bury s = record s {
  flags = tombstone_flag;
  parent = nil;
  name_id = nil;
  next_link = nil;
  next_same = nil;
  prev_same = nil;
  first_child = nil;
  next_child = nil;
  prev_child = nil;
}

unfoldable pub tombstone : EntryTable → EntryIdx → Option EntryTable
tombstone t idx = elim (get_elem? t.slots idx) [
  | none ↦ none
  | some s ↦
      some (record { slots = set t.slots idx (bury s); free = idx ∷ t.free; live = t.live - 1 })
]

unfoldable pub is_dead : Slot → Bool
is_dead s = contains s.flags tombstone_flag

unfoldable pub is_tombstone : EntryTable → EntryIdx → Option Bool
is_tombstone t idx = Option.map is_dead (get_elem? t.slots idx)

unfoldable pub capacity : EntryTable → ℕ
capacity t = length t.slots

-- The getters and setters of one cell.
unfoldable pub get_cell : {A : Type 0} → (Slot → A) → EntryTable → EntryIdx → Option A
get_cell f t idx = Option.map f (get_elem? t.slots idx)

unfoldable pub set_cell : (Slot → Slot) → EntryTable → EntryIdx → Option EntryTable
set_cell f t idx = elim (get_elem? t.slots idx) [
  | none ↦ none
  | some s ↦ some (record t { slots = set t.slots idx (f s) })
]

unfoldable pub set_parent : EntryTable → EntryIdx → EntryIdx → Option EntryTable
set_parent t idx parent = set_cell (λ s. record s { parent = parent }) t idx

unfoldable pub set_name_id : EntryTable → EntryIdx → NameId → Option EntryTable
set_name_id t idx id = set_cell (λ s. record s { name_id = id }) t idx

unfoldable pub set_flags : EntryTable → EntryIdx → EntryFlags → Option EntryTable
set_flags t idx flags = set_cell (λ s. record s { flags = flags }) t idx

unfoldable pub set_size : EntryTable → EntryIdx → ℕ → Option EntryTable
set_size t idx size = set_cell (λ s. record s { size = size }) t idx

unfoldable pub set_mtime : EntryTable → EntryIdx → ℤ → Option EntryTable
set_mtime t idx mtime = set_cell (λ s. record s { mtime = mtime }) t idx

unfoldable pub set_next_link : EntryTable → EntryIdx → EntryIdx → Option EntryTable
set_next_link t idx next = set_cell (λ s. record s { next_link = next }) t idx

unfoldable pub set_next_same : EntryTable → EntryIdx → EntryIdx → Option EntryTable
set_next_same t idx next = set_cell (λ s. record s { next_same = next }) t idx

unfoldable pub set_prev_same : EntryTable → EntryIdx → EntryIdx → Option EntryTable
set_prev_same t idx prev = set_cell (λ s. record s { prev_same = prev }) t idx

unfoldable pub set_first_child : EntryTable → EntryIdx → EntryIdx → Option EntryTable
set_first_child t idx child = set_cell (λ s. record s { first_child = child }) t idx

unfoldable pub set_next_child : EntryTable → EntryIdx → EntryIdx → Option EntryTable
set_next_child t idx next = set_cell (λ s. record s { next_child = next }) t idx

unfoldable pub set_prev_child : EntryTable → EntryIdx → EntryIdx → Option EntryTable
set_prev_child t idx prev = set_cell (λ s. record s { prev_child = prev }) t idx

-- The indices, from `base` on, of the slots that are not dead.
unfoldable pub live_from : ℕ → List Slot → List EntryIdx
live_from base [] = []
live_from base (s ∷ slots) =
    let rest = live_from (suc base) slots in if is_dead s then rest else base ∷ rest

unfoldable pub iter_live : EntryTable → List EntryIdx
iter_live t = live_from 0 t.slots
