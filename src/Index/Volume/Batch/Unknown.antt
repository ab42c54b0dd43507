-- ===== src/Index/Volume/Batch/Unknown.antt =====
-- crates/goz-core/src/index/volume.rs: records that delete a file which the index does not have.
use goz.Prelude.{
  ◌+◌, ◌≡◌, refl, Bool, true, false, Option, none, some, [], ◌∷◌, ◌++◌, ◌==◌, if◌then◌else◌, arith,
}
use goz.Prelude.Options.{>>=-inv}
use goz.Types.{Frn, EntryIdx, record_number}
use goz.Usn.Ops.{delete}
use goz.Index.EntryTable.{get_cell}
use goz.Index.FrnMap.{get}
use goz.Index.Volume.Commands.{cell-some, bind_some}
use goz.Index.Volume.{cell, Host, VolumeIndex}
use goz.Index.Volume.Paths.{head_if, head_of}
use goz.Index.Volume.Apply.{delete_found, delete_frn}
use goz.Index.Volume.Batch.{ApplyOutcome, delete_of_unknown, note_unknown, apply_op}

not_kept : (b : Bool) (i : EntryIdx) → some (if b then some i else none) ≡ some none → b ≡ false
not_kept true i h = absurd (ground (arith, h))
not_kept false i h = refl

delete_found-none :
    (h : Host) (v : VolumeIndex) (frn : Frn) (o : Option EntryIdx)
    → head_if v.entries frn o ≡ some none
    → delete_found h frn o v ≡ some (false, v)
unfolding head_if delete_found
delete_found-none h v frn none e = refl
delete_found-none h v frn (some i) e =
    let (there, c, k) = >>=-inv (get_cell (λ s. s.frn) v.entries i) _ e in
    bind_some (cell (λ s. s.frn) i) _ v there v (cell-some (λ s. s.frn) i v there c)
      (rw (not_kept (there == frn) i k) refl)

-- A delete of a reference number that the index does not have, be it of a stale tenant of the record,
-- changes nothing but the counter of such deletes, and the outcome of the batch names the number.
apply_op-delete :
    (h : Host) (v : VolumeIndex) (out : ApplyOutcome) (frn : Frn)
    → head_of v frn ≡ some none
    → apply_op h out (delete frn) v
      ≡ some (
        record out { anomalies = out.anomalies ++ delete_of_unknown frn ∷ [] },
        record v { stats = record (v.stats) { delete_of_unknown = v.stats.delete_of_unknown + 1 } },
      )
unfolding apply_op head_of delete_frn note_unknown
apply_op-delete h v out frn e =
    rw (delete_found-none h v frn (get v.by_frn (record_number frn)) e, delete_frn) refl
