-- ===== src/Index/Volume.antt =====
-- crates/goz-core/src/index/volume.rs: the state of one volume's index, and commands on it. A command
-- that panics is `none`; so is a loop along a chain that passes more entries than there are slots,
-- which the code would walk for ever.
pub mod Commands
pub mod Paths
pub mod Links
pub mod Apply
pub mod Batch
mod Runs
use goz.Prelude.{
  ℕ, zero, suc, ◌+◌, Bool, true, false, not, Option, none, some, List, [], ◌∷◌, ◌++◌, ◌==◌,
  if◌then◌else◌,
}
use goz.Types.{Frn, EntryIdx, nil, record_number}
use goz.Fold.{Unicode}
use goz.Index.EntryTable.{EntryTable, EntryFlags, Slot, get_cell, contains}
use goz.Index.NameStore.{NameStore}
use goz.Index.FrnMap.{FrnMap}

-- What other crates give: the Unicode tables, and the hash of a folded name.
pub record Host : Type 0 where
  pub unicode : Unicode
  pub dir_key_hash : List ℕ → ℕ

abbrev pub ntfs_root_frn : Frn
ntfs_root_frn = 0x0005_0000_0000_0005

-- `$LostFound`
abbrev pub lost_found_name : List ℕ
lost_found_name = 36 ∷ 76 ∷ 111 ∷ 115 ∷ 116 ∷ 70 ∷ 111 ∷ 117 ∷ 110 ∷ 100 ∷ []

-- `$Placeholder`
abbrev pub placeholder_name : List ℕ
placeholder_name = 36 ∷ 80 ∷ 108 ∷ 97 ∷ 99 ∷ 101 ∷ 104 ∷ 111 ∷ 108 ∷ 100 ∷ 101 ∷ 114 ∷ []

-- `u64::MAX`
abbrev pub lost_found_frn : Frn
lost_found_frn = 0xffff_ffff_ffff_ffff

abbrev pub max_path_hops : ℕ
max_path_hops = 4096

pub record IndexStats : Type 0 where
  pub placeholders_created : ℕ
  pub delete_of_unknown : ℕ
  pub rename_old_seen : ℕ
  pub stale_slots : ℕ
  pub link_reconciles_dropped : ℕ

-- The directories of one parent whose folded names have one hash.
pub record DirRow : Type 0 where
  pub parent : EntryIdx
  pub hash : ℕ
  pub dirs : List EntryIdx

pub record VolumeIndex : Type 0 where
  pub entries : EntryTable
  pub names : NameStore
  pub by_frn : FrnMap
  pub root : EntryIdx
  pub lost_found : EntryIdx
  pub generation : ℕ
  pub stats : IndexStats
  pub dirty : ℕ
  pub dir_children : List DirRow
  pub cycle_suspects : List EntryIdx

abbrev pub Cmd : Type 0 → Type 0
Cmd A = VolumeIndex → Option (A × VolumeIndex)

abbrev pub pure : {A : Type 0} → A → Cmd A
pure a v = some (a, v)

module _ {A B : Type 0} where
  abbrev pub and_then : Option (A × VolumeIndex) → (A → Cmd B) → Option (B × VolumeIndex)
  and_then (some (a, v)) k = k a v
  and_then none k = none

  infixl 5 ◌>>=◌ ◌>>◌
  abbrev pub ◌>>=◌ : Cmd A → (A → Cmd B) → Cmd B
  m >>= k = λ v. and_then (m v) k

  abbrev pub ◌>>◌ : Cmd A → Cmd B → Cmd B
  m >> n = m >>= λ _. n

abbrev pub skip : Cmd (Unit {0})
skip = pure tt

-- `if b { ... }`
abbrev pub when : Bool → Cmd (Unit {0}) → Cmd (Unit {0})
when true m = m
when false m = skip

-- A read that panics at `none`.
abbrev pub read : {A : Type 0} → (VolumeIndex → Option A) → Cmd A
read f v = elim (f v) [ none ↦ none | some a ↦ some (a, v) ]

abbrev pub cell : {A : Type 0} → (Slot → A) → EntryIdx → Cmd A
cell f idx = read (λ v. get_cell f v.entries idx)

-- A change of the entries, of the names, of the rest.
abbrev pub on_entries : (EntryTable → Option EntryTable) → Cmd (Unit {0})
on_entries f v = elim (f v.entries) [ none ↦ none | some t ↦ some (tt, record v { entries = t }) ]

abbrev pub on_names : (NameStore → Option NameStore) → Cmd (Unit {0})
on_names f v = elim (f v.names) [ none ↦ none | some s ↦ some (tt, record v { names = s }) ]

abbrev pub modify : (VolumeIndex → VolumeIndex) → Cmd (Unit {0})
modify f v = some (tt, f v)

-- `self.dirty += 1`
abbrev pub soil : Cmd (Unit {0})
soil = modify (λ v. record v { dirty = v.dirty + 1 })

unfoldable pub has_parent_cycle : VolumeIndex → Bool
has_parent_cycle v = elim v.cycle_suspects [ [] ↦ false | i ∷ is ↦ true ]

unfoldable pub has_orphans : VolumeIndex → Option Bool
has_orphans v = elim (get_cell (λ s. s.first_child) v.entries v.lost_found) [
  | none ↦ none
  | some child ↦ some (not (child == nil))
]

-- The count since the last call, which starts again.
unfoldable pub take_write_count : VolumeIndex → ℕ × VolumeIndex
take_write_count v = (v.dirty, record v { dirty = 0 })
