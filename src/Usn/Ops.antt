-- ===== src/Usn/Ops.antt =====
-- crates/goz-core/src/usn/ops.rs: a record's accumulated reason bits as idempotent index ops.
pub mod Table
pub mod Accumulate
mod Runs
use goz.Prelude.{ℕ, Bool, true, false, not, ◌&&◌, List, [], ◌∷◌, ◌++◌, bit_or, if◌then◌else◌}
use goz.Prelude.Bits.{has}
use goz.Types.{Frn}
use goz.Usn.Reason
use goz.Usn.Record.{ParsedUsnRecord, is_dir}

pub data UsnOp : Type 0 where
  -- frn, parent, name, name_lossy, is_dir
  upsert : Frn → Frn → List ℕ → Bool → Bool → UsnOp
  delete : Frn → UsnOp
  link_dirty : Frn → UsnOp
  stat_dirty : Frn → UsnOp
  rename_old_seen : Frn → UsnOp

abbrev pub name_changes : ℕ
name_changes = bit_or Reason.file_create (
    bit_or Reason.file_delete
      (bit_or Reason.rename_old_name (bit_or Reason.rename_new_name Reason.hard_link_change)))

abbrev pub names_current : ℕ
names_current = bit_or Reason.rename_new_name Reason.file_create

abbrev pub stat_changes : ℕ
stat_changes = bit_or Reason.file_create (
    bit_or Reason.data_overwrite
      (bit_or Reason.data_extend (bit_or Reason.data_truncation Reason.basic_info_change)))

-- `if test { ops.push(op) }`
abbrev pub push_if : Bool → UsnOp → List UsnOp
push_if true op = op ∷ []
push_if false op = []

-- Rows 2 to 6 of the table, for a record whose file is not deleted.
unfoldable pub live_rows : ParsedUsnRecord → List UsnOp
live_rows r =
    push_if (has r.reason names_current) (upsert r.frn r.parent_frn r.name r.name_lossy (is_dir r))
    ++ (push_if
          (has r.reason Reason.rename_old_name
            && not (has r.reason (bit_or names_current Reason.file_delete)))
          (rename_old_seen r.frn)
        ++ (push_if (has r.reason Reason.hard_link_change) (link_dirty r.frn)
            ++ (push_if (has r.reason stat_changes) (stat_dirty r.frn)
                ++ (push_if (has r.reason name_changes) (stat_dirty r.parent_frn) ++ []))))

unfoldable pub ops_for : ParsedUsnRecord → List UsnOp
ops_for r =
    if has r.reason Reason.file_delete
    then delete r.frn ∷ stat_dirty r.parent_frn ∷ []
    else live_rows r
