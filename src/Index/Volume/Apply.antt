-- ===== src/Index/Volume/Apply.antt =====
-- crates/goz-core/src/index/volume.rs: what one record does to the index.
pub mod Chains
use goz.Prelude.{
  ℕ, zero, suc, ◌+◌, Bool, true, false, not, ◌&&◌, ◌||◌, Option, none, some, List, [], ◌∷◌, ◌++◌,
  ◌==◌, if◌then◌else◌,
}
use goz.Types.{Frn, EntryIdx, nil, record_number}
use goz.Prelude.Int.{ℤ}
use goz.Index.EntryTable.{
  NameId, EntryFlags, Slot, with_flag, contains, dir, placeholder, non_unicode_name, size_unknown,
  mtime_unknown, alloc, set_parent, set_name_id, set_flags,
}
use goz.Index.EntryTable
use goz.Index.NameStore
use goz.Index.NameStore.{intern, release}
use goz.Index.Children.{link_child, move_child}
use goz.Index.FrnMap.{FrnMap, get, set_record, remove}
use goz.Usn.Record.{ParsedUsnRecord, is_dir}
use goz.Index.Volume.{
  Host, VolumeIndex, IndexStats, Cmd, pure, ◌>>=◌, ◌>>◌, skip, when, read, cell, on_entries,
  on_names, modify, soil, placeholder_name, lost_found_name, lost_found_frn,
}
use goz.Index.Volume.Paths.{is_at_or_below}
use goz.Index.Volume.Links.{
  link_same_name, unlink_same_name, mem, dir_index_insert, dir_index_remove, tombstone_chain,
}

pub data UpsertResult : Type 0 where
  done needs_reconcile : UpsertResult

-- `self.entries.alloc`, and `self.by_frn`'s `get` and `set`
unfoldable pub alloc_entry : Frn → EntryIdx → NameId → EntryFlags → ℕ → ℤ → Cmd EntryIdx
alloc_entry frn parent id flags size mtime v =
    let placed = alloc v.entries frn parent id flags size mtime nil in
    some (placed.1, record v { entries = placed.0 })

abbrev pub map_get : ℕ → Cmd (Option EntryIdx)
map_get key = read (λ v. some (get v.by_frn key))

abbrev pub map_set : ℕ → EntryIdx → Cmd (Unit {0})
map_set key idx = modify (λ v. record v { by_frn = set_record v.by_frn key idx })

abbrev pub map_remove : ℕ → Cmd (Unit {0})
map_remove key = modify (λ v. record v { by_frn = remove v.by_frn key })

unfoldable pub note_placeholder : Cmd (Unit {0})
note_placeholder = modify λ v. record v {
  stats = record (v.stats) { placeholders_created = v.stats.placeholders_created + 1 };
}

unfoldable pub note_stale : Cmd (Unit {0})
note_stale =
    modify λ v. record v { stats = record (v.stats) { stale_slots = v.stats.stale_slots + 1 } }

unfoldable pub note_suspect : EntryIdx → Cmd (Unit {0})
note_suspect idx v = some (
  tt,
  if mem idx v.cycle_suspects
      then v
      else record v { cycle_suspects = v.cycle_suspects ++ idx ∷ [] },
)

module _ (h : Host) where
  unfoldable pub intern_name : List ℕ → Cmd NameId
  intern_name name v = elim (intern h.unicode v.names name) [
    | none ↦ none
    | some (s, id) ↦ some (id, record v { names = s })
  ]

  unfoldable pub reclaim_stale_slot : ℕ → EntryIdx → Cmd (Unit {0})
  reclaim_stale_slot key head = do tombstone_chain h head; map_remove key; note_stale

  unfoldable pub make_placeholder : Frn → Cmd EntryIdx
  make_placeholder parent_frn = do
    id ← intern_name placeholder_name
    lost_found ← read (λ v. some v.lost_found)
    idx ←
        alloc_entry parent_frn lost_found id (with_flag dir placeholder true) size_unknown
          mtime_unknown
    link_same_name idx id
    on_entries (λ t. link_child t idx)
    map_set (record_number parent_frn) idx
    note_placeholder
    soil
    pure idx

  -- A record found in the map: the parent itself, or the record's previous tenant.
  unfoldable pub parent_found : Frn → Option EntryIdx → Cmd EntryIdx
  parent_found parent_frn none = make_placeholder parent_frn
  parent_found parent_frn (some idx) = do
    there ← cell (λ s. s.frn) idx
    if there == parent_frn
        then pure idx
        else do reclaim_stale_slot (record_number parent_frn) idx; make_placeholder parent_frn

  unfoldable pub resolve_or_placeholder_parent : Frn → Cmd EntryIdx
  resolve_or_placeholder_parent parent_frn = do
    found ← map_get (record_number parent_frn)
    parent_found parent_frn found

  unfoldable pub resolve_link_parent : Frn → Frn → Cmd EntryIdx
  resolve_link_parent frn parent_frn =
      if not (parent_frn == frn) && (record_number parent_frn == record_number frn)
      then read (λ v. some v.lost_found)
      else resolve_or_placeholder_parent parent_frn

  unfoldable pub rewrite_entry : EntryIdx → EntryIdx → List ℕ → Bool → Bool → Cmd (Unit {0})
  rewrite_entry idx parent_idx name name_lossy is_dir = do
    dir_index_remove h idx
    unlink_same_name idx
    old ← cell (λ s. s.name_id) idx
    on_names (λ s. release s old)
    id ← intern_name name
    on_entries (λ t. set_name_id t idx id)
    link_same_name idx id
    cyclic ← read (λ v. is_at_or_below v parent_idx idx)
    when cyclic (note_suspect idx)
    on_entries (λ t. move_child t idx parent_idx)
    flags ← cell (λ s. s.flags) idx
    on_entries (λ t. set_flags t idx (
        with_flag (with_flag (with_flag flags dir is_dir) non_unicode_name name_lossy) placeholder
          false))
    dir_index_insert h idx
    soil

  -- A first entry of the record.
  unfoldable pub insert_entry : Frn → EntryIdx → List ℕ → Bool → Bool → Cmd (Unit {0})
  insert_entry frn parent_idx name name_lossy is_dir = do
    id ← intern_name name
    idx ←
        alloc_entry frn parent_idx id
          (with_flag (with_flag 0 dir is_dir) non_unicode_name name_lossy) size_unknown
          mtime_unknown
    link_same_name idx id
    on_entries (λ t. link_child t idx)
    map_set (record_number frn) idx
    dir_index_insert h idx
    soil

  -- `if let Some(head) = self.by_frn.get(record) && self.entries.frn(head) != frn`
  unfoldable pub reclaim_other : Frn → Option EntryIdx → Cmd (Unit {0})
  reclaim_other frn none = skip
  reclaim_other frn (some head) = do
    there ← cell (λ s. s.frn) head
    when (not (there == frn)) (reclaim_stale_slot (record_number frn) head)

  unfoldable pub upsert_at :
      Frn → EntryIdx → List ℕ → Bool → Bool → Option EntryIdx → Cmd UpsertResult
  upsert_at frn parent_idx name name_lossy is_dir none = do
    insert_entry frn parent_idx name name_lossy is_dir
    pure done
  upsert_at frn parent_idx name name_lossy is_dir (some head) = do
    next ← cell (λ s. s.next_link) head
    if next == nil
        then (do rewrite_entry head parent_idx name name_lossy is_dir; pure done)
        else pure needs_reconcile

  unfoldable pub upsert_link : Frn → Frn → List ℕ → Bool → Bool → Cmd UpsertResult
  upsert_link frn parent_frn name name_lossy is_dir = do
    tenant ← map_get (record_number frn)
    reclaim_other frn tenant
    parent_idx ← resolve_link_parent frn parent_frn
    head ← map_get (record_number frn)
    upsert_at frn parent_idx name name_lossy is_dir head

  -- An entry of the record, if it is the one with the reference number.
  unfoldable pub delete_found : Frn → Option EntryIdx → Cmd Bool
  delete_found frn none = pure false
  delete_found frn (some head) = do
    there ← cell (λ s. s.frn) head
    if there == frn
        then (do tombstone_chain h head; map_remove (record_number frn); pure true)
        else pure false

  unfoldable pub delete_frn : Frn → Cmd Bool
  delete_frn frn = do found ← map_get (record_number frn); delete_found frn found

  unfoldable pub insert_enum : ParsedUsnRecord → Cmd UpsertResult
  insert_enum rec = upsert_link rec.frn rec.parent_frn rec.name rec.name_lossy (is_dir rec)

  -- The struct before its two roots are linked, and then the links.
  unfoldable pub new : Frn → FrnMap → Option VolumeIndex
  new root_frn frn_map = elim (intern h.unicode NameStore.new []) [
    | none ↦ none
    | some (named, root_name) ↦ elim (intern h.unicode named lost_found_name) [
      | none ↦ none
      | some (names, lf_name) ↦
          let top =
            alloc EntryTable.new root_frn nil root_name dir size_unknown mtime_unknown nil in
          let lost =
            alloc top.0 lost_found_frn nil lf_name (with_flag dir EntryTable.lost_found true)
              size_unknown mtime_unknown nil in
          let start : VolumeIndex = record {
            entries = lost.0;
            names = names;
            by_frn = set_record frn_map (record_number root_frn) top.1;
            root = top.1;
            lost_found = lost.1;
            generation = 0;
            stats = record {
              placeholders_created = 0;
              delete_of_unknown = 0;
              rename_old_seen = 0;
              stale_slots = 0;
              link_reconciles_dropped = 0;
            };
            dirty = 0;
            dir_children = [];
            cycle_suspects = [];
          } in
          elim ((link_same_name top.1 root_name >> link_same_name lost.1 lf_name) start) [
            | none ↦ none
            | some (_, v) ↦ some v
          ]
    ]
  ]
