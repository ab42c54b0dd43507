-- ===== src/Index/Volume/Batch.antt =====
-- crates/goz-core/src/index/volume.rs: a batch of journal records, and the compaction of the names.
pub mod Unknown
use goz.Prelude.{
  ℕ, zero, suc, ◌+◌, Bool, true, false, not, Option, none, some, List, [], ◌∷◌, ◌++◌, ◌==◌,
  if◌then◌else◌, get_elem?, length,
}
use goz.Types.{Frn, EntryIdx, nil}
use goz.Usn.Record.{ParsedUsnRecord}
use goz.Usn.Ops.{UsnOp, upsert, delete, link_dirty, stat_dirty, rename_old_seen, ops_for}
use goz.Index.EntryTable.{NameId, Slot, capacity, is_tombstone, get_cell, set_name_id}
use goz.Index.NameStore.{should_compact}
use goz.Index.NameStore.Compact.{CompactedNames, plan_compact}
use goz.Index.NameStore.Order.{wants_merge, merge_unranked, install_compacted}
use goz.Index.Volume.{
  Host, VolumeIndex, IndexStats, Cmd, pure, ◌>>=◌, ◌>>◌, skip, when, read, cell, on_entries,
  on_names, modify,
}
use goz.Index.Volume.Paths.{head_of, is_at_or_below}
use goz.Index.Volume.Apply.{UpsertResult, done, needs_reconcile, upsert_link, delete_frn}

-- `DeleteOfUnknown { frn }`
pub data Anomaly : Type 0 where
  delete_of_unknown : Frn → Anomaly

pub record ApplyOutcome : Type 0 where
  pub needs_stat : List Frn
  pub needs_link_reconcile : List Frn
  pub anomalies : List Anomaly
  pub wants_compact : Bool

unfoldable pub no_outcome : ApplyOutcome
no_outcome = record {
  needs_stat = [];
  needs_link_reconcile = [];
  anomalies = [];
  wants_compact = false;
}

unfoldable pub push_reconcile : ApplyOutcome → Frn → ApplyOutcome
push_reconcile out frn = record out { needs_link_reconcile = out.needs_link_reconcile ++ frn ∷ [] }

unfoldable pub after_upsert : ApplyOutcome → Frn → UpsertResult → ApplyOutcome
after_upsert out frn done = out
after_upsert out frn needs_reconcile = push_reconcile out frn

unfoldable pub note_unknown : Cmd (Unit {0})
note_unknown =
    modify λ v. record v {
      stats = record (v.stats) { delete_of_unknown = v.stats.delete_of_unknown + 1 };
    }

unfoldable pub note_rename_old : Cmd (Unit {0})
note_rename_old =
    modify
      λ v. record v { stats = record (v.stats) { rename_old_seen = v.stats.rename_old_seen + 1 } }

-- `retain(|&frn| self.head_of(frn).is_some())`
unfoldable pub still_there : List Frn → Cmd (List Frn)
still_there [] = pure []
still_there (frn ∷ frns) = do
  head ← read (λ v. head_of v frn)
  rest ← still_there frns
  elim head [ none ↦ pure rest | some i ↦ pure (frn ∷ rest) ]

-- The suspects that a cycle still runs through.
unfoldable pub in_cycle : List EntryIdx → Cmd (List EntryIdx)
in_cycle [] = pure []
in_cycle (idx ∷ suspects) = do
  parent ← cell (λ s. s.parent) idx
  below ← read (λ v. is_at_or_below v parent idx)
  rest ← in_cycle suspects
  pure (if below then idx ∷ rest else rest)

unfoldable pub prune_cycle_suspects : Cmd (Unit {0})
prune_cycle_suspects = do
  suspects ← read (λ v. some v.cycle_suspects)
  kept ← in_cycle suspects
  modify (λ v. record v { cycle_suspects = kept })

unfoldable pub note_link_reconciles_dropped : ℕ → Cmd (Unit {0})
note_link_reconciles_dropped n = modify λ v. record v {
  stats = record (v.stats) { link_reconciles_dropped = v.stats.link_reconciles_dropped + n };
}

module _ (h : Host) where
  unfoldable pub apply_op : ApplyOutcome → UsnOp → Cmd ApplyOutcome
  apply_op out (upsert frn parent name name_lossy is_dir) = do
    r ← upsert_link h frn parent name name_lossy is_dir
    pure (after_upsert out frn r)
  apply_op out (delete frn) = do
    found ← delete_frn h frn
    if found then pure out else (do
      note_unknown
      pure (record out { anomalies = out.anomalies ++ delete_of_unknown frn ∷ [] }))
  apply_op out (link_dirty frn) = pure (push_reconcile out frn)
  apply_op out (stat_dirty frn) = pure (record out { needs_stat = out.needs_stat ++ frn ∷ [] })
  apply_op out (rename_old_seen frn) = do note_rename_old; pure out

  unfoldable pub apply_ops : ApplyOutcome → List UsnOp → Cmd ApplyOutcome
  apply_ops out [] = pure out
  apply_ops out (op ∷ ops) = do next ← apply_op out op; apply_ops next ops

  unfoldable pub apply_records : ApplyOutcome → List ParsedUsnRecord → Cmd ApplyOutcome
  apply_records out [] = pure out
  apply_records out (rec ∷ records) = do
    next ← apply_ops out (ops_for rec)
    apply_records next records

  unfoldable pub apply_batch : List ParsedUsnRecord → Cmd ApplyOutcome
  apply_batch records = do
    out ← apply_records no_outcome records
    merge ← read (λ v. some (wants_merge v.names))
    when merge (on_names merge_unranked)
    needs_stat ← still_there out.needs_stat
    prune_cycle_suspects
    modify (λ v. record v { generation = v.generation + 1 })
    wants_compact ← read (λ v. some (should_compact v.names))
    pure (record out { needs_stat = needs_stat; wants_compact = wants_compact })

-- `None` where the buffers are not dirty enough.
unfoldable pub plan_compaction : VolumeIndex → Option (Option CompactedNames)
plan_compaction v = elim (should_compact v.names) [
  | false ↦ some none
  | true ↦ elim (plan_compact v.names) [ none ↦ none | some c ↦ some (some c) ]
]

-- The loop of `apply_compaction` over the slots from `idx` on.
unfoldable pub renumber_from : List NameId → EntryIdx → ℕ → Cmd (Unit {0})
renumber_from remap idx zero = skip
renumber_from remap idx (suc slots) = do
  dead ← read (λ v. is_tombstone v.entries idx)
  when (not dead) do
    id ← cell (λ s. s.name_id) idx
    new_id ← read (λ v. get_elem? remap id)
    on_entries (λ t. set_name_id t idx new_id)
  renumber_from remap (suc idx) slots

unfoldable pub apply_compaction : CompactedNames → Cmd (Unit {0})
apply_compaction plan v = elim (install_compacted v.names plan) [
  | none ↦ none
  | some (names, remap) ↦ renumber_from remap 0 (capacity v.entries) (record v { names = names })
]
