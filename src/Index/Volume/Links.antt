-- ===== src/Index/Volume/Links.antt =====
-- crates/goz-core/src/index/volume.rs: the same-name chains, the directory index, and the removal of
-- an entry from all that leads to it.
use goz.Prelude.{
  ℕ, zero, suc, Bool, false, not, ◌&&◌, ◌||◌, none, some, List, [], ◌∷◌, ◌++◌, ◌==◌, if◌then◌else◌,
}
use goz.Types.{EntryIdx, nil}
use goz.Index.EntryTable.{
  NameId, contains, dir, placeholder, capacity, set_next_same, set_prev_same, set_parent,
  set_first_child, tombstone,
}
use goz.Index.NameStore.{chain_head, set_chain_head, release, folded_bytes_of}
use goz.Index.Children.{link_child, unlink_child}
use goz.Index.Volume.{
  Host, DirRow, Cmd, pure, ◌>>=◌, ◌>>◌, when, read, cell, on_entries, on_names, modify, soil,
}

unfoldable pub link_same_name : EntryIdx → NameId → Cmd (Unit {0})
link_same_name idx id = do
  old_head ← read (λ v. chain_head v.names id)
  on_entries (λ t. set_next_same t idx old_head)
  on_entries (λ t. set_prev_same t idx nil)
  when (not (old_head == nil)) (on_entries (λ t. set_prev_same t old_head idx))
  on_names (λ s. set_chain_head s id idx)

unfoldable pub unlink_same_name : EntryIdx → Cmd (Unit {0})
unlink_same_name idx = do
  id ← cell (λ s. s.name_id) idx
  prev ← cell (λ s. s.prev_same) idx
  next ← cell (λ s. s.next_same) idx
  when (prev == nil) (on_names (λ s. set_chain_head s id next))
  when (not (prev == nil)) (on_entries (λ t. set_next_same t prev next))
  when (not (next == nil)) (on_entries (λ t. set_prev_same t next prev))
  on_entries (λ t. set_next_same t idx nil)
  on_entries (λ t. set_prev_same t idx nil)

unfoldable pub mem : EntryIdx → List EntryIdx → Bool
mem i [] = false
mem i (j ∷ js) = (i == j) || mem i js

-- `slot.push(idx)` unless it is there, in the row of the key or in a new one.
unfoldable pub add_dir : EntryIdx → ℕ → EntryIdx → List DirRow → List DirRow
add_dir parent hash idx [] = record { parent = parent; hash = hash; dirs = idx ∷ [] } ∷ []
add_dir parent hash idx (row ∷ rows) =
    if (row.parent == parent) && (row.hash == hash)
    then (if mem idx row.dirs then row else record row { dirs = row.dirs ++ idx ∷ [] }) ∷ rows
    else row ∷ add_dir parent hash idx rows

-- `retain(|&d| d != idx)`
unfoldable pub without : EntryIdx → List EntryIdx → List EntryIdx
without idx [] = []
without idx (d ∷ dirs) = let rest = without idx dirs in if d == idx then rest else d ∷ rest

-- A row that is left empty goes.
unfoldable pub put_row : DirRow → List EntryIdx → List DirRow → List DirRow
put_row row [] rows = rows
put_row row (d ∷ dirs) rows = record row { dirs = d ∷ dirs } ∷ rows

unfoldable pub drop_dir : EntryIdx → ℕ → EntryIdx → List DirRow → List DirRow
drop_dir parent hash idx [] = []
drop_dir parent hash idx (row ∷ rows) =
    if (row.parent == parent) && (row.hash == hash)
    then put_row row (without idx row.dirs) rows
    else row ∷ drop_dir parent hash idx rows

module _ (h : Host) where
  -- The key of a directory, from its current parent and name.
  unfoldable pub dir_key : EntryIdx → Cmd (EntryIdx × ℕ)
  dir_key idx = do
    parent ← cell (λ s. s.parent) idx
    id ← cell (λ s. s.name_id) idx
    name ← read (λ v. folded_bytes_of v.names id)
    pure (parent, h.dir_key_hash name)

  unfoldable pub dir_index_insert : EntryIdx → Cmd (Unit {0})
  dir_index_insert idx = do
    flags ← cell (λ s. s.flags) idx
    root ← read (λ v. some v.root)
    lost_found ← read (λ v. some v.lost_found)
    when
        (contains flags dir
          && not (contains flags placeholder || ((idx == root) || (idx == lost_found))))
        do
          key ← dir_key idx
          modify (λ v. record v { dir_children = add_dir key.0 key.1 idx v.dir_children })

  unfoldable pub dir_index_remove : EntryIdx → Cmd (Unit {0})
  dir_index_remove idx = do
    flags ← cell (λ s. s.flags) idx
    when (contains flags dir) do
      key ← dir_key idx
      modify (λ v. record v { dir_children = drop_dir key.0 key.1 idx v.dir_children })

  -- The loop of `orphan_children`, over the chain from `cur` on.
  unfoldable pub orphan_from : ℕ → EntryIdx → Cmd (Unit {0})
  orphan_from zero cur = when (not (cur == nil)) (λ v. none)
  orphan_from (suc fuel) cur = when (not (cur == nil)) do
    next ← cell (λ s. s.next_child) cur
    dir_index_remove cur
    lost_found ← read (λ v. some v.lost_found)
    on_entries (λ t. set_parent t cur lost_found)
    on_entries (λ t. link_child t cur)
    dir_index_insert cur
    soil
    orphan_from fuel next

  unfoldable pub orphan_children : EntryIdx → Cmd (Unit {0})
  orphan_children parent = do
    first ← cell (λ s. s.first_child) parent
    fuel ← read (λ v. some (capacity v.entries))
    orphan_from fuel first
    on_entries (λ t. set_first_child t parent nil)

  unfoldable pub remove_entry : EntryIdx → Cmd (Unit {0})
  remove_entry idx = do
    dir_index_remove idx
    unlink_same_name idx
    on_entries (λ t. unlink_child t idx)
    orphan_children idx
    id ← cell (λ s. s.name_id) idx
    on_names (λ s. release s id)
    on_entries (λ t. tombstone t idx)
    soil

  -- The loop of `tombstone_chain`.
  unfoldable pub tombstone_from : ℕ → EntryIdx → Cmd (Unit {0})
  tombstone_from zero cur = when (not (cur == nil)) (λ v. none)
  tombstone_from (suc fuel) cur =
      when (not (cur == nil))
        do next ← cell (λ s. s.next_link) cur; remove_entry cur; tombstone_from fuel next

  unfoldable pub tombstone_chain : EntryIdx → Cmd (Unit {0})
  tombstone_chain head = do fuel ← read (λ v. some (capacity v.entries)); tombstone_from fuel head
