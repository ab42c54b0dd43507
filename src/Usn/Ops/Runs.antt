-- ===== src/Usn/Ops/Runs.antt =====
-- Concrete runs of `ops_for`, and its theorems at concrete records.
use goz.Prelude.{◌≡◌, refl, false, [], ◌∷◌, bit_or}
use goz.Prelude.Int.{pos}
use goz.Usn.Reason
use goz.Usn.Record.{ParsedUsnRecord, is_dir}
use goz.Usn.Ops.{upsert, delete, stat_dirty, ops_for, live_rows}
use goz.Usn.Ops.Table.{Table, ops_for-Table}

abbrev created : ParsedUsnRecord
created = record {
  major_version = 2;
  frn = 7;
  parent_frn = 3;
  usn = pos 100;
  timestamp_ft = pos 0;
  reason = Reason.file_create;
  attributes = 0x20;
  name = 97 ∷ [];
  name_lossy = false;
}

-- A file that is created and never written is re-stated all the same.
created_ops : ops_for created ≡ upsert 7 3 (97 ∷ []) false false ∷ stat_dirty 7 ∷ stat_dirty 3 ∷ []
unfolding ops_for live_rows is_dir
created_ops = refl

deleted_ops :
    ops_for (record created { reason = bit_or Reason.file_create Reason.file_delete })
    ≡ delete 7 ∷ stat_dirty 3 ∷ []
unfolding ops_for
deleted_ops = refl

ops_for-Table_example : Table created
ops_for-Table_example = ops_for-Table created
