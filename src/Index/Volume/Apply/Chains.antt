-- ===== src/Index/Volume/Apply/Chains.antt =====
-- crates/goz-core/src/index/volume.rs: the hard links of one file, a chain through its entries.
use goz.Prelude.{
  ℕ, zero, suc, Bool, true, false, not, Option, none, some, List, [], ◌∷◌, ◌==◌, if◌then◌else◌,
}
use goz.Prelude.Bits.{has}
use goz.Prelude.Int.{ℤ}
use goz.Types.{Frn, EntryIdx, nil, record_number}
use goz.Wtf8.Lossy.{same_bytes}
use goz.Layout.{LayoutName, LayoutFile}
use goz.Usn.Record.{file_attribute_directory}
use goz.Index.EntryTable.{
  contains, with_flag, dir, non_unicode_name, size_unknown, mtime_unknown, capacity, is_tombstone,
  set_size, set_mtime, set_next_link,
}
use goz.Index.NameStore.{raw_bytes}
use goz.Index.Children.{link_child}
use goz.Index.Volume.{Host, Cmd, pure, ◌>>=◌, ◌>>◌, skip, when, read, cell, on_entries, soil}
use goz.Index.Volume.Paths.{head_of}
use goz.Index.Volume.Links.{link_same_name, dir_index_insert, remove_entry}
use goz.Index.Volume.Apply.{
  alloc_entry, map_get, map_set, intern_name, reclaim_stale_slot, resolve_link_parent, upsert_link,
  delete_frn,
}

pub record LinkTarget : Type 0 where
  pub parent : EntryIdx
  pub name : List ℕ
  pub lossy : Bool

-- The entries of the chain from `cur` on.
unfoldable pub chain_from : ℕ → EntryIdx → Cmd (List EntryIdx)
chain_from zero cur = if cur == nil then pure [] else λ v. none
chain_from (suc fuel) cur =
    if cur == nil
    then pure []
    else do next ← cell (λ s. s.next_link) cur; rest ← chain_from fuel next; pure (cur ∷ rest)

unfoldable pub chain_of : EntryIdx → Cmd (List EntryIdx)
chain_of head = do fuel ← read (λ v. some (capacity v.entries)); chain_from fuel head

-- The size and date written to the entries of a chain, as `set_stat` and `enrich` do: a directory
-- keeps its size, and a value that is not known is not written.
unfoldable pub stat_entry : Bool → Option ℕ → Option ℤ → EntryIdx → Cmd (Unit {0})
stat_entry is_dir size mtime cur = do
  elim size [ none ↦ skip | some sz ↦ when (not is_dir) (on_entries (λ t. set_size t cur sz)) ]
  elim mtime [ none ↦ skip | some mt ↦ on_entries (λ t. set_mtime t cur mt) ]

unfoldable pub stat_from : Bool → Option ℕ → Option ℤ → ℕ → EntryIdx → Cmd (Unit {0})
stat_from is_dir size mtime zero cur = when (not (cur == nil)) (λ v. none)
stat_from is_dir size mtime (suc fuel) cur = when (not (cur == nil)) do
  stat_entry is_dir size mtime cur
  next ← cell (λ s. s.next_link) cur
  stat_from is_dir size mtime fuel next

unfoldable pub stat_chain : Bool → Option ℕ → Option ℤ → EntryIdx → Cmd (Unit {0})
stat_chain is_dir size mtime head = do
  fuel ← read (λ v. some (capacity v.entries))
  stat_from is_dir size mtime fuel head

unfoldable pub stat_head : ℕ → ℤ → Option EntryIdx → Cmd (Unit {0})
stat_head size mtime none = skip
stat_head size mtime (some head) = do
  flags ← cell (λ s. s.flags) head
  stat_chain (contains flags dir) (some size) (some mtime) head

unfoldable pub set_stat : Frn → ℕ → ℤ → Cmd (Unit {0})
set_stat frn size mtime = do head ← read (λ v. head_of v frn); stat_head size mtime head

-- Whether an entry is the link to `name` in `parent`.
unfoldable pub is_link : EntryIdx → List ℕ → EntryIdx → Cmd Bool
is_link parent name cur = do
  there ← cell (λ s. s.parent) cur
  if there == parent
      then (do
        id ← cell (λ s. s.name_id) cur
        bytes ← read (λ v. raw_bytes v.names id)
        pure (same_bytes bytes name))
      else pure false

-- The loop of `chain_has_link` from `cur` on.
unfoldable pub any_link : EntryIdx → List ℕ → ℕ → EntryIdx → Cmd Bool
any_link parent name zero cur = if cur == nil then pure false else λ v. none
any_link parent name (suc fuel) cur = if cur == nil then pure false else do
  found ← is_link parent name cur
  if found
      then pure true
      else (do next ← cell (λ s. s.next_link) cur; any_link parent name fuel next)

unfoldable pub link_under_head : EntryIdx → List ℕ → Option EntryIdx → Cmd Bool
link_under_head parent name none = pure false
link_under_head parent name (some head) = do
  fuel ← read (λ v. some (capacity v.entries))
  any_link parent name fuel head

unfoldable pub chain_has_link : Frn → EntryIdx → List ℕ → Cmd Bool
chain_has_link frn parent_idx name = do
  head ← read (λ v. head_of v frn)
  link_under_head parent_idx name head

unfoldable pub last_of : EntryIdx → List EntryIdx → EntryIdx
last_of i [] = i
last_of i (j ∷ js) = last_of j js

-- The new link goes to the tail of the record's chain, or becomes its head.
unfoldable pub append_link : Frn → EntryIdx → Option EntryIdx → Cmd (Unit {0})
append_link frn idx none = map_set (record_number frn) idx
append_link frn idx (some head) = do
  chain ← chain_of head
  on_entries (λ t. set_next_link t (last_of head chain) idx)

module _ (h : Host) where
  unfoldable pub add_link : Frn → EntryIdx → List ℕ → Bool → Cmd (Unit {0})
  add_link frn parent_idx name name_lossy = do
    id ← intern_name h name
    idx ←
        alloc_entry frn parent_idx id (with_flag 0 non_unicode_name name_lossy) size_unknown
          mtime_unknown
    link_same_name idx id
    on_entries (λ t. link_child t idx)
    head ← map_get (record_number frn)
    append_link frn idx head
    soil

  -- The chain to keep links of: the record's, unless another file had the record.
  unfoldable pub current_chain : Frn → Option EntryIdx → Cmd (List EntryIdx)
  current_chain frn none = pure []
  current_chain frn (some head) = do
    there ← cell (λ s. s.frn) head
    if there == frn
        then chain_of head
        else (do reclaim_stale_slot h (record_number frn) head; pure [])

  -- A target whose parent was just freed goes under lost+found.
  unfoldable pub live_targets : List LinkTarget → Cmd (List LinkTarget)
  live_targets [] = pure []
  live_targets (target ∷ desired) = do
    dead ← read (λ v. is_tombstone v.entries target.parent)
    lost_found ← read (λ v. some v.lost_found)
    rest ← live_targets desired
    pure ((if dead then record target { parent = lost_found } else target) ∷ rest)

  -- The size and date of the first link.
  unfoldable pub chain_stat : List EntryIdx → Cmd (ℕ × ℤ)
  chain_stat [] = pure (size_unknown, mtime_unknown)
  chain_stat (e ∷ chain) = do
    size ← cell (λ s. s.size) e
    mtime ← cell (λ s. s.mtime) e
    pure (size, mtime)

  -- The first link of the chain that is not used and matches, and the others in their order.
  unfoldable pub take_link :
      EntryIdx → List ℕ → List EntryIdx → Cmd (Option EntryIdx × List EntryIdx)
  take_link parent name [] = pure (none, [])
  take_link parent name (e ∷ unused) = do
    found ← is_link parent name e
    if found
        then pure (some e, unused)
        else (do rest ← take_link parent name unused; pure (rest.0, e ∷ rest.1))

  unfoldable pub new_link : Frn → Bool → ℕ × ℤ → LinkTarget → Cmd EntryIdx
  new_link frn is_dir stat target = do
    id ← intern_name h target.name
    idx ←
        alloc_entry frn target.parent id
          (with_flag (with_flag 0 dir is_dir) non_unicode_name target.lossy) stat.0 stat.1
    link_same_name idx id
    on_entries (λ t. link_child t idx)
    dir_index_insert h idx
    soil
    pure idx

  unfoldable pub keep_or_make : Frn → Bool → ℕ × ℤ → LinkTarget → Option EntryIdx → Cmd EntryIdx
  keep_or_make frn is_dir stat target (some e) = pure e
  keep_or_make frn is_dir stat target none = new_link frn is_dir stat target

  -- The entries of the desired links, and those of the chain that no link matched.
  unfoldable pub match_links :
      Frn → Bool → ℕ × ℤ → List LinkTarget → List EntryIdx → Cmd (List EntryIdx × List EntryIdx)
  match_links frn is_dir stat [] unused = pure ([], unused)
  match_links frn is_dir stat (target ∷ desired) unused = do
    found ← take_link target.parent target.name unused
    e ← keep_or_make frn is_dir stat target found.0
    rest ← match_links frn is_dir stat desired found.1
    pure (e ∷ rest.0, rest.1)

  unfoldable pub remove_all : List EntryIdx → Cmd (Unit {0})
  remove_all [] = skip
  remove_all (e ∷ es) = remove_entry h e >> remove_all es

  unfoldable pub relink : List EntryIdx → Cmd (Unit {0})
  relink [] = skip
  relink (e ∷ []) = on_entries (λ t. set_next_link t e nil)
  relink (e ∷ f ∷ es) = on_entries (λ t. set_next_link t e f) >> relink (f ∷ es)

  -- `kept[0]` panics when nothing is desired.
  unfoldable pub point_head : ℕ → List EntryIdx → Cmd (Unit {0})
  point_head key [] v = none
  point_head key (e ∷ es) v = map_set key e v

  unfoldable pub set_chain_links : Frn → Bool → List LinkTarget → Cmd (Unit {0})
  set_chain_links frn is_dir desired = do
    head ← map_get (record_number frn)
    current ← current_chain frn head
    targets ← live_targets desired
    stat ← chain_stat current
    matched ← match_links frn is_dir stat targets current
    remove_all matched.1
    relink matched.0
    point_head (record_number frn) matched.0

  unfoldable pub is_dir_head : Option EntryIdx → Cmd Bool
  is_dir_head none = pure false
  is_dir_head (some head) = do flags ← cell (λ s. s.flags) head; pure (contains flags dir)

  -- No link at all deletes the file.
  unfoldable pub reconcile_links : Frn → List LinkTarget → Cmd (Unit {0})
  reconcile_links frn [] = delete_frn h frn >> skip
  reconcile_links frn (target ∷ targets) = do
    head ← read (λ v. head_of v frn)
    is_dir ← is_dir_head head
    set_chain_links frn is_dir (target ∷ targets)

  -- The names but the 8.3 aliases.
  unfoldable pub real_names : List LayoutName → List LayoutName
  real_names [] = []
  real_names (n ∷ names) = if n.dos_only then real_names names else n ∷ real_names names

  unfoldable pub targets_of : Frn → List LayoutName → Cmd (List LinkTarget)
  targets_of frn [] = pure []
  targets_of frn (n ∷ names) = do
    parent ← resolve_link_parent h frn n.parent_frn
    rest ← targets_of frn names
    pure (record { parent = parent; name = n.name; lossy = n.name_lossy } ∷ rest)

  -- The names that the chain lacks.
  unfoldable pub add_missing : Frn → List LayoutName → Cmd (Unit {0})
  add_missing frn [] = skip
  add_missing frn (n ∷ names) = do
    parent_idx ← resolve_link_parent h frn n.parent_frn
    there ← chain_has_link frn parent_idx n.name
    when (not there) (add_link frn parent_idx n.name n.name_lossy)
    add_missing frn names

  unfoldable pub enrich_chain : Bool → Option ℕ → Option ℤ → Option EntryIdx → Cmd (Unit {0})
  enrich_chain is_dir size mtime none = skip
  enrich_chain is_dir size mtime (some head) = stat_chain is_dir size mtime head

  -- `enrich` from where the entry exists.
  unfoldable pub enrich_known : LayoutFile → Cmd (Unit {0})
  enrich_known file = do
    let is_dir = has file.attributes file_attribute_directory
    when (not is_dir) (add_missing file.frn (real_names file.names))
    head ← read (λ v. head_of v file.frn)
    enrich_chain is_dir file.size file.mtime_ft head

  unfoldable pub enrich_targets : LayoutFile → List LinkTarget → Cmd (Unit {0})
  enrich_targets file [] = skip
  enrich_targets file (target ∷ targets) = do
    set_chain_links file.frn (has file.attributes file_attribute_directory) (target ∷ targets)
    enrich_known file

  unfoldable pub enrich_head : LayoutFile → Option EntryIdx → Cmd (Unit {0})
  enrich_head file none = do
    targets ← targets_of file.frn (real_names file.names)
    enrich_targets file targets
  enrich_head file (some head) = enrich_known file

  unfoldable pub enrich : LayoutFile → Cmd (Unit {0})
  enrich file = do head ← read (λ v. head_of v file.frn); enrich_head file head

  -- The first real name, unless it names the file as its own parent.
  unfoldable pub upsert_first : LayoutFile → List LayoutName → Cmd (Unit {0})
  upsert_first file [] = skip
  upsert_first file (n ∷ names) = when (not (n.parent_frn == file.frn)) do
    upsert_link h file.frn n.parent_frn n.name n.name_lossy
        (has file.attributes file_attribute_directory)
    skip

  unfoldable pub insert_layout : LayoutFile → Cmd (Unit {0})
  insert_layout file = upsert_first file (real_names file.names) >> enrich file
