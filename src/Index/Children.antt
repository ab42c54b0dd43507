-- ===== src/Index/Children.antt =====
-- crates/goz-core/src/index/volume.rs: the child chain of a directory, doubly linked through the
-- entries, as `link_child` and `unlink_child` change it.
pub mod Cells
pub mod Chain
use goz.Prelude.{ℕ, Bool, true, false, Option, none, some, ◌==◌, if◌then◌else◌}
use goz.Prelude.Options.{◌>>=◌}
use goz.Types.{EntryIdx, nil}
use goz.Index.EntryTable.{
  Slot, EntryTable, get_cell, set_parent, set_first_child, set_next_child, set_prev_child,
}

-- `if i != NIL { ... }`
unfoldable pub unless_nil : EntryIdx → EntryTable → Option EntryTable → Option EntryTable
unless_nil i t write = if i == nil then some t else write

-- `link_child` below the parent that the entry has.
unfoldable pub link_under : EntryTable → EntryIdx → EntryIdx → Option EntryTable
link_under t idx parent = do
  old_head ← get_cell (λ s. s.first_child) t parent
  t1 ← set_next_child t idx old_head
  t2 ← set_prev_child t1 idx nil
  t3 ← unless_nil old_head t2 (set_prev_child t2 old_head idx)
  set_first_child t3 parent idx

-- The root and lost+found have no parent chain.
unfoldable pub link_child : EntryTable → EntryIdx → Option EntryTable
link_child t idx = do
  parent ← get_cell (λ s. s.parent) t idx
  unless_nil parent t (link_under t idx parent)

-- `if prev == NIL { first child of the parent } else { next child of prev }`
unfoldable pub bypass : EntryTable → EntryIdx → EntryIdx → EntryIdx → Option EntryTable
bypass t parent prev next =
    if prev == nil then set_first_child t parent next else set_next_child t prev next

unfoldable pub unlink_under : EntryTable → EntryIdx → EntryIdx → Option EntryTable
unlink_under t idx parent = do
  prev ← get_cell (λ s. s.prev_child) t idx
  next ← get_cell (λ s. s.next_child) t idx
  t1 ← bypass t parent prev next
  t2 ← unless_nil next t1 (set_prev_child t1 next prev)
  t3 ← set_next_child t2 idx nil
  set_prev_child t3 idx nil

unfoldable pub unlink_child : EntryTable → EntryIdx → Option EntryTable
unlink_child t idx = do
  parent ← get_cell (λ s. s.parent) t idx
  unless_nil parent t (unlink_under t idx parent)

-- An entry leaves the chain of its parent, gets another parent, and joins the chain of that.
unfoldable pub move_child : EntryTable → EntryIdx → EntryIdx → Option EntryTable
move_child t idx parent = do
  t1 ← unlink_child t idx
  t2 ← set_parent t1 idx parent
  link_child t2 idx
