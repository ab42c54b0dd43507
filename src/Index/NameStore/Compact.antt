-- ===== src/Index/NameStore/Compact.antt =====
-- crates/goz-core/src/index/store.rs: compaction of the interned names.
use goz.Prelude.{
  ℕ, zero, suc, ◌==◌, Option, some, List, [], ◌∷◌, ◌++◌, if◌then◌else◌, length, get_elem?, bit_or,
  true, false,
}
use goz.Prelude.Bits.{has}
use goz.Prelude.Options.{◌>>=◌}
use goz.Types.{EntryIdx, nil}
use goz.Index.EntryTable.{NameId}
use goz.Index.NameStore.{NameRef, NamePair, NameStore, raw_in_folded, slice, raw_bytes_of, push}

pub record CompactedNames : Type 0 where
  pub raw : List ℕ
  pub folded : List ℕ
  pub pairs : List NamePair
  pub refcount : List ℕ
  pub head : List EntryIdx
  pub remap : List NameId

-- The raw reference of a name that is kept, its folded bytes being copied.
unfoldable pub keep_raw : NameStore → NamePair → NameRef → List ℕ → Option (List ℕ × NameRef)
keep_raw s pair folded raw = elim (has pair.raw.off raw_in_folded) [
  | true ↦ some (raw, record { off = bit_or folded.off raw_in_folded; len = folded.len })
  | false ↦ do bytes ← raw_bytes_of s.raw s.folded pair; some (push raw bytes)
]

-- One name of the loop of `plan_compact`; `remap` grows by its new id.
unfoldable pub keep_name :
    NameStore → CompactedNames → NamePair → ℕ → EntryIdx → Option CompactedNames
keep_name s c pair zero head = some (record c { remap = c.remap ++ nil ∷ [] })
keep_name s c pair (suc n) head = do
  bytes ← slice s.folded pair.folded.off pair.folded.len
  let folded = push c.folded bytes
  raw ← keep_raw s pair folded.1 c.raw
  some (record {
    raw = raw.0;
    folded = folded.0;
    pairs = c.pairs ++ record { raw = raw.1; folded = folded.1 } ∷ [];
    refcount = c.refcount ++ suc n ∷ [];
    head = c.head ++ head ∷ [];
    remap = c.remap ++ length c.pairs ∷ [];
  })

-- The loop of `plan_compact` over the ids from `id` on, whose counts are given.
unfoldable pub keep_from : NameStore → CompactedNames → NameId → List ℕ → Option CompactedNames
keep_from s c id [] = some c
keep_from s c id (count ∷ counts) = do
  pair ← get_elem? s.pairs id
  head ← get_elem? s.head id
  next ← keep_name s c pair count head
  keep_from s next (suc id) counts

unfoldable pub plan_compact : NameStore → Option CompactedNames
plan_compact s =
    keep_from s (record { raw = []; folded = []; pairs = []; refcount = []; head = []; remap = [] })
      0 s.refcount

-- The ids under the remap, the dropped ones left out.
unfoldable pub renumber : List NameId → List NameId → Option (List NameId)
renumber remap [] = some []
renumber remap (id ∷ ids) = do
  n ← get_elem? remap id
  rest ← renumber remap ids
  some (if n == nil then rest else n ∷ rest)
