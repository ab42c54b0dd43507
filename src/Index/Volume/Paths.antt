-- ===== src/Index/Volume/Paths.antt =====
-- crates/goz-core/src/index/volume.rs: lookups by file reference number, and walks to the root.
pub mod Below
pub mod Rooted
pub mod Scope
use goz.Prelude.{
  ℕ, zero, suc, ◌+◌, Bool, true, false, not, ◌&&◌, ◌||◌, Option, none, some, List, [], ◌∷◌, ◌++◌,
  ltb, leb, ◌==◌, if◌then◌else◌, length, map,
}
use goz.Prelude.Options.{◌>>=◌}
use goz.Types.{Frn, EntryIdx, nil, record_number}
use goz.Wtf8.Lossy.{same_bytes}
use goz.Index.EntryTable.{
  EntryTable, Slot, EntryFlags, contains, placeholder, lost_found, get_cell, capacity, is_tombstone,
}
use goz.Index.NameStore.{raw_bytes, folded_bytes_of}
use goz.Index.FrnMap.{FrnMap, get}
use goz.Index.Volume.{Host, VolumeIndex, DirRow, max_path_hops}

-- The outer option is the panic of a map that names no slot.
unfoldable pub head_if : EntryTable → Frn → Option EntryIdx → Option (Option EntryIdx)
head_if t frn none = some none
head_if t frn (some head) = do
  there ← get_cell (λ s. s.frn) t head
  some (if there == frn then some head else none)

unfoldable pub head_of : VolumeIndex → Frn → Option (Option EntryIdx)
head_of v frn = head_if v.entries frn (get v.by_frn (record_number frn))

-- `entry_if_frn`; an out of range index never panics. The view is the index itself.
unfoldable pub entry_if_frn : VolumeIndex → EntryIdx → Frn → Option EntryIdx
entry_if_frn v idx frn = elim (ltb idx (capacity v.entries)) [
  | false ↦ none
  | true ↦ do
    dead ← is_tombstone v.entries idx
    there ← get_cell (λ s. s.frn) v.entries idx
    if dead then none else if there == frn then some idx else none
]

unfoldable pub is_synthetic : VolumeIndex → EntryIdx → Option Bool
is_synthetic v idx = do
  flags ← get_cell (λ s. s.flags) v.entries idx
  some (
      (idx == v.root)
      || ((idx == v.lost_found) || (contains flags placeholder || contains flags lost_found)))

pub data PathStatus : Type 0 where
  in_place in_lost_found cycle_detected removed : PathStatus

-- The first loop of `path_of`: the entries from the start up, and the parent of the last.
unfoldable pub climb : EntryTable → ℕ → EntryIdx → Option (List EntryIdx × EntryIdx)
climb t zero cur = none
climb t (suc zero) cur = do p ← get_cell (λ s. s.parent) t cur; some (cur ∷ [], p)
climb t (suc (suc hops)) cur = do
  p ← get_cell (λ s. s.parent) t cur
  let above = climb t (suc hops) p
  if p == nil then some (cur ∷ [], p) else do up ← above; some (cur ∷ up.0, up.1)

unfoldable pub last_or : EntryIdx → List EntryIdx → EntryIdx
last_or i [] = i
last_or i (j ∷ js) = last_or j js

-- The names of the entries in the order given, a backslash before each but a first one.
unfoldable pub emit_name : List ℕ → List ℕ → List ℕ
emit_name out name = elim out [ [] ↦ name | b ∷ bs ↦ (b ∷ bs) ++ 0x5C ∷ name ]

-- `chain.iter().rev()`: what is above an entry is written first.
unfoldable pub emit : VolumeIndex → List EntryIdx → List ℕ → Option (List ℕ)
emit v [] out = some out
emit v (e ∷ up) out = do
  above ← emit v up out
  if e == v.root then some above else (do
    id ← get_cell (λ s. s.name_id) v.entries e
    name ← raw_bytes v.names id
    some (emit_name above name))

unfoldable pub finish_path :
    VolumeIndex → List EntryIdx × EntryIdx → EntryIdx → List ℕ → Option (PathStatus × List ℕ)
finish_path v (chain, above) idx out = elim (above == nil) [
  | false ↦ some (cycle_detected, out)
  | true ↦ do
    written ← emit v chain out
    some (if last_or idx chain == v.lost_found then in_lost_found else in_place, written)
]

unfoldable pub path_of : VolumeIndex → EntryIdx → List ℕ → Option (PathStatus × List ℕ)
path_of v idx out = do
  dead ← is_tombstone v.entries idx
  let walk = climb v.entries max_path_hops idx
  if dead then some (removed, out) else do chain ← walk; finish_path v chain idx out

-- The loop of `is_at_or_below` with the turns that are left.
unfoldable pub below_within : VolumeIndex → ℕ → EntryIdx → EntryIdx → Option Bool
below_within v zero node ancestor = some false
below_within v (suc hops) node ancestor = do
  let above = get_cell (λ s. s.parent) v.entries node
  if node == ancestor
      then some true
      else if (node == nil) || ((node == v.root) || (node == v.lost_found))
      then some false
      else do p ← above; below_within v hops p ancestor

unfoldable pub is_at_or_below : VolumeIndex → EntryIdx → EntryIdx → Option Bool
is_at_or_below v node ancestor = below_within v max_path_hops node ancestor

-- The row of a key.
unfoldable pub find_row : EntryIdx → ℕ → List DirRow → List EntryIdx
find_row parent hash [] = []
find_row parent hash (row ∷ rows) =
    if (row.parent == parent) && (row.hash == hash) then row.dirs else find_row parent hash rows

-- The first candidate that has the name.
unfoldable pub find_dir : VolumeIndex → List ℕ → List EntryIdx → Option (Option EntryIdx)
find_dir v name [] = some none
find_dir v name (d ∷ dirs) = do
  id ← get_cell (λ s. s.name_id) v.entries d
  bytes ← folded_bytes_of v.names id
  if same_bytes bytes name then some (some d) else find_dir v name dirs

unfoldable pub child_dir : Host → VolumeIndex → EntryIdx → List ℕ → Option (Option EntryIdx)
child_dir h v parent name = find_dir v name (find_row parent (h.dir_key_hash name) v.dir_children)
