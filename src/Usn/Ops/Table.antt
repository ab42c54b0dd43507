-- ===== src/Usn/Ops/Table.antt =====
-- crates/goz-core/src/usn/ops.rs: the decision table of `ops_for`, read off the list of ops.
use goz.Prelude.{
  ℕ, ◌≡◌, Bool, true, false, not, ◌&&◌, ◌||◌, List, [], ◌∷◌, ◌++◌, bit_or, leb, arith,
}
use goz.Prelude.Bits.{has, has-bit_or}
use goz.Types.{Frn}
use goz.Usn.Reason
use goz.Usn.Record.{ParsedUsnRecord, is_dir, file_attribute_directory}
use goz.Usn.Ops.{
  UsnOp, upsert, delete, link_dirty, stat_dirty, rename_old_seen, ops_for, live_rows, names_current,
  stat_changes, name_changes,
}

-- What the ops of each kind say, in order.
pub deletes_in : List UsnOp → List Frn
deletes_in [] = []
deletes_in (delete frn ∷ ops) = frn ∷ deletes_in ops
deletes_in (_ ∷ ops) = deletes_in ops

-- A link of a file: the file, its folder, the name, whether the name is lossy, and whether it is a folder.
abbrev pub Link : Type 0
Link = Frn × (Frn × (List ℕ × (Bool × Bool)))

pub upserts_in : List UsnOp → List Link
upserts_in [] = []
upserts_in (upsert frn parent name lossy folder ∷ ops) =
    (frn, (parent, (name, (lossy, folder)))) ∷ upserts_in ops
upserts_in (_ ∷ ops) = upserts_in ops

pub old_names_in : List UsnOp → List Frn
old_names_in [] = []
old_names_in (rename_old_seen frn ∷ ops) = frn ∷ old_names_in ops
old_names_in (_ ∷ ops) = old_names_in ops

pub link_walks : List UsnOp → List Frn
link_walks [] = []
link_walks (link_dirty frn ∷ ops) = frn ∷ link_walks ops
link_walks (_ ∷ ops) = link_walks ops

-- The files that the ops ask to re-stat, in order.
pub stats : List UsnOp → List Frn
stats [] = []
stats (stat_dirty frn ∷ ops) = frn ∷ stats ops
stats (_ ∷ ops) = stats ops

-- The row of the table that an op belongs to, the folder's re-stat in that of the file's.
abbrev row : UsnOp → ℕ
row (delete frn) = 1
row (upsert frn parent name lossy folder) = 2
row (rename_old_seen frn) = 3
row (link_dirty frn) = 4
row (stat_dirty frn) = 5

pub rows_ascend : ℕ → List UsnOp → Bool
rows_ascend from [] = true
rows_ascend from (op ∷ ops) = leb from (row op) && rows_ascend (row op) ops

abbrev pub when {ℓ} : {A : Type ℓ} → Bool → A → List A
when true a = a ∷ []
when false a = []

-- The decision table of the source, row by row, over the single reason bits: which ops there are, and
-- the files, folders and names that they are about.
pub record Table (r : ParsedUsnRecord) : Type 0 where
  pub in_order : rows_ascend 0 (ops_for r) ≡ true
  pub deletes : deletes_in (ops_for r) ≡ when (has r.reason Reason.file_delete) r.frn
  pub upserts :
      upserts_in (ops_for r)
      ≡ when
          (not (has r.reason Reason.file_delete)
            && (has r.reason Reason.rename_new_name || has r.reason Reason.file_create))
          (
            r.frn,
            (r.parent_frn, (r.name, (r.name_lossy, has r.attributes file_attribute_directory))),
          )
  pub old_names :
      old_names_in (ops_for r)
      ≡ when
          (not (has r.reason Reason.file_delete)
            && (has r.reason Reason.rename_old_name
                && not (has r.reason Reason.rename_new_name || has r.reason Reason.file_create)))
          r.frn
  pub links :
      link_walks (ops_for r)
      ≡ when (not (has r.reason Reason.file_delete) && has r.reason Reason.hard_link_change) r.frn
  pub stat :
      stats (ops_for r)
      ≡ when
          (not (has r.reason Reason.file_delete)
            && (has r.reason Reason.file_create
                || (has r.reason Reason.data_overwrite
                    || (has r.reason Reason.data_extend
                        || (has r.reason Reason.data_truncation
                            || has r.reason Reason.basic_info_change)))))
          r.frn
        ++ when
            (has r.reason Reason.file_create
              || (has r.reason Reason.file_delete
                  || (has r.reason Reason.rename_old_name
                      || (has r.reason Reason.rename_new_name
                          || has r.reason Reason.hard_link_change))))
            r.parent_frn

five_flags :
    (w a b c d e : ℕ)
    → has w (bit_or a (bit_or b (bit_or c (bit_or d e))))
      ≡ has w a || (has w b || (has w c || (has w d || has w e)))
five_flags w a b c d e = simp has-bit_or

-- The masks of several flags, tested flag by flag.
current_flags :
    (w : ℕ) → has w names_current ≡ has w Reason.rename_new_name || has w Reason.file_create
current_flags w = has-bit_or w Reason.rename_new_name Reason.file_create

fresh_flags :
    (w : ℕ)
    → has w (bit_or names_current Reason.file_delete)
      ≡ has w names_current || has w Reason.file_delete
fresh_flags w = has-bit_or w names_current Reason.file_delete

stat_flags :
    (w : ℕ)
    → has w stat_changes
      ≡ has w Reason.file_create
        || (has w Reason.data_overwrite
            || (has w Reason.data_extend
                || (has w Reason.data_truncation || has w Reason.basic_info_change)))
stat_flags w =
    five_flags w Reason.file_create Reason.data_overwrite Reason.data_extend Reason.data_truncation
      Reason.basic_info_change

name_flags :
    (w : ℕ)
    → has w name_changes
      ≡ has w Reason.file_create
        || (has w Reason.file_delete
            || (has w Reason.rename_old_name
                || (has w Reason.rename_new_name || has w Reason.hard_link_change)))
name_flags w =
    five_flags w Reason.file_create Reason.file_delete Reason.rename_old_name Reason.rename_new_name
      Reason.hard_link_change

-- For every record, the ops follow the decision table of the reason bits, in the order of its rows. The file is
-- deleted exactly if FILE_DELETE is set, and then there is no upsert, note or link walk whatever else the
-- bits say. Otherwise there is one upsert exactly on a create or a new name, and it is of the file in its
-- folder with the record's name, lossiness and directory attribute; one note of the file exactly on an old
-- name with neither of these; and one link walk of the file exactly on a link change. The file is
-- re-stated exactly on a create, a change of data or of basic information, unless it is deleted, and after it
-- the folder exactly if a name was added, removed or changed.
pub ops_for-Table : (r : ParsedUsnRecord) → Table r
unfolding ops_for live_rows is_dir deletes_in upserts_in old_names_in link_walks stats rows_ascend
ops_for-Table r = record {
  in_order = ground arith;
  deletes = ground (arith, current_flags r.reason);
  upserts = ground (arith, current_flags r.reason);
  old_names = ground (arith, current_flags r.reason, fresh_flags r.reason);
  links = ground (arith, current_flags r.reason);
  stat = ground (arith, stat_flags r.reason, name_flags r.reason);
}
