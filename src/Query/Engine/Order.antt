-- ===== src/Query/Engine/Order.antt =====
-- crates/goz-core/src/query/engine.rs: how a sort compares two candidates. An entry or a name out of
-- range panics, which is `none`.
pub mod Total
pub mod Sorted
pub mod Top
mod Insertion
mod Runs
use goz.Prelude.{
  ℕ, Bool, Option, none, some, List, ltb, leb, ◌==◌, if◌then◌else◌, ◌-◌, ◌++◌, length, take, drop,
}
use goz.Prelude.Options.{◌>>=◌}
use goz.Types.{EntryIdx, SortSpec, SortDir, asc, desc}
use goz.Wtf8.Lossy.{same_bytes}
use goz.Index.EntryTable.{get_cell}
use goz.Index.NameStore.{folded_bytes_of}
use goz.Index.NameStore.Order.{bytes_lt}
use goz.Index.Volume.{VolumeIndex}

pub record Candidate : Type 0 where
  pub idx : EntryIdx
  pub key : ℕ

-- `core::cmp::Ordering`
pub data Ordering : Type 0 where
  less equal greater : Ordering

unfoldable pub reverse : Ordering → Ordering
reverse less = greater
reverse equal = equal
reverse greater = less

-- `a.cmp(&b)` of two numbers
unfoldable pub cmp_num : ℕ → ℕ → Ordering
cmp_num a b = if ltb a b then less else if a == b then equal else greater

-- `a.cmp(b)` of two byte slices
unfoldable pub cmp_bytes : List ℕ → List ℕ → Ordering
cmp_bytes a b = if bytes_lt a b then less else if same_bytes a b then equal else greater

unfoldable pub folded_name : VolumeIndex → EntryIdx → Option (List ℕ)
folded_name v idx = do id ← get_cell (λ s. s.name_id) v.entries idx; folded_bytes_of v.names id

unfoldable pub then_with : Ordering → Option Ordering → Option Ordering
then_with less next = some less
then_with equal next = next
then_with greater next = some greater

-- By the folded name, and then by the entry.
unfoldable pub by_name : VolumeIndex → Candidate → Candidate → Option Ordering
by_name v a b = do
  name ← folded_name v a.idx
  other ← folded_name v b.idx
  then_with (cmp_bytes name other) (some (cmp_num a.idx b.idx))

unfoldable pub directed : SortDir → Ordering → Ordering
directed asc base = base
directed desc base = reverse base

unfoldable pub cmp_candidate : VolumeIndex → SortSpec → Candidate → Candidate → Option Ordering
cmp_candidate v sort a b = do
  base ← then_with (cmp_num a.key b.key) (by_name v a b)
  some (directed sort.dir base)

-- A sort of the standard library: it calls the comparison, which may panic.
abbrev pub Sort : Type 0
Sort = (Candidate → Candidate → Option Ordering) → List Candidate → Option (List Candidate)

-- `select_nth_unstable_by(n, ..)`
abbrev pub Select : Type 0
Select = ℕ → Sort

abbrev pub parallel_sort_min : ℕ
parallel_sort_min = 100_000

module _ (sort_unstable_by : Sort) (par_sort_unstable_by : Sort)
    (select_nth_unstable_by : Select) where
  -- The sort for `len` candidates.
  unfoldable pub sort_of_len : ℕ → Sort
  sort_of_len len cmp cands =
      if leb parallel_sort_min len
      then par_sort_unstable_by cmp cands
      else sort_unstable_by cmp cands

  unfoldable pub order_top : VolumeIndex → List Candidate → SortSpec → ℕ → Option (List Candidate)
  order_top v cands sort end =
      if end == 0
      then some cands
      else if ltb end (length cands)
      then (do
        parted ← select_nth_unstable_by (end - 1) (cmp_candidate v sort) cands
        top ← sort_of_len end (cmp_candidate v sort) (take end parted)
        some (top ++ drop end parted))
      else sort_of_len (length cands) (cmp_candidate v sort) cands
