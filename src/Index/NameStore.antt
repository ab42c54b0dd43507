-- ===== src/Index/NameStore.antt =====
-- crates/goz-core/src/index/store.rs: the interned names. The hash table is the list of its ids; two
-- names of one hash are told apart by their bytes, as the table's own test does. A debug assertion
-- that fails, an index out of range and a count that would pass below zero are `none`. How much room
-- a buffer has, which the flag `settled` steers, is left out.
pub mod Compact
pub mod Order
pub mod Slices
pub mod Intern
use goz.Prelude.{
  ℕ, zero, suc, ◌+◌, ◌-◌, ◌*◌, ◌%◌, ◌^◌, ◌≡◌, Bool, true, false, not, ◌&&◌, Option, none, some,
  List, [], ◌∷◌, ◌++◌, ltb, leb, ◌==◌, if◌then◌else◌, length, get_elem?, set, take, drop, replicate,
  bit_and, bit_or,
}
use goz.Prelude.Bits.{has}
use goz.Prelude.Options.{◌>>=◌, ◌>>◌}
use goz.Types.{EntryIdx, nil}
use goz.Fold.{Unicode, fold}
use goz.Wtf8.Lossy.{same_bytes}
use goz.Index.EntryTable.{NameId}

pub record NameRef : Type 0 where
  pub off : ℕ
  pub len : ℕ

-- `1 << 31`
abbrev pub raw_in_folded : ℕ
raw_in_folded = 0x8000_0000

pub record NamePair : Type 0 where
  pub raw : NameRef
  pub folded : NameRef

pub record NameStore : Type 0 where
  pub raw : List ℕ
  pub folded : List ℕ
  pub pairs : List NamePair
  pub refcount : List ℕ
  pub head : List EntryIdx
  pub by_bytes : List NameId
  pub garbage : ℕ
  pub order : List NameId
  pub rank_of : List ℕ
  pub unranked : List NameId
  pub dead_ranked : ℕ

-- `u32::MAX`
abbrev pub unranked_mark : ℕ
unranked_mark = 0xffff_ffff

unfoldable pub new : NameStore
new = record {
  raw = [];
  folded = [];
  pairs = [];
  refcount = [];
  head = [];
  by_bytes = [];
  garbage = 0;
  order = [];
  rank_of = [];
  unranked = [];
  dead_ranked = 0;
}

-- `&buf[off..off + len]`
unfoldable pub slice : List ℕ → ℕ → ℕ → Option (List ℕ)
slice buf off len = if leb (off + len) (length buf) then some (take len (drop off buf)) else none

-- `r.off & !RAW_IN_FOLDED` of a `u32`
unfoldable pub raw_offset : NameRef → ℕ
raw_offset r = bit_and r.off 0x7fff_ffff

-- `raw_bytes_in` once the pair is read
unfoldable pub raw_bytes_of : List ℕ → List ℕ → NamePair → Option (List ℕ)
raw_bytes_of raw folded pair =
    slice (if has pair.raw.off raw_in_folded then folded else raw) (raw_offset pair.raw)
      pair.raw.len

unfoldable pub raw_bytes_in : List NamePair → List ℕ → List ℕ → NameId → Option (List ℕ)
raw_bytes_in pairs raw folded id = do pair ← get_elem? pairs id; raw_bytes_of raw folded pair

unfoldable pub raw_bytes : NameStore → NameId → Option (List ℕ)
raw_bytes s id = raw_bytes_in s.pairs s.raw s.folded id

unfoldable pub folded_in : List NamePair → List ℕ → NameId → Option (List ℕ)
folded_in pairs folded id = do
  pair ← get_elem? pairs id
  slice folded pair.folded.off pair.folded.len

unfoldable pub folded_bytes_of : NameStore → NameId → Option (List ℕ)
folded_bytes_of s id = folded_in s.pairs s.folded id

unfoldable pub chain_head : NameStore → NameId → Option EntryIdx
chain_head s id = get_elem? s.head id

-- A write that panics out of range.
unfoldable pub set_at : List ℕ → ℕ → ℕ → Option (List ℕ)
set_at xs i v = if ltb i (length xs) then some (set xs i v) else none

unfoldable pub set_chain_head : NameStore → NameId → EntryIdx → Option NameStore
set_chain_head s id e = do head ← set_at s.head id e; some (record s { head = head })

-- The id in the table whose bytes are `name`.
unfoldable pub find_name :
    List NamePair → List ℕ → List ℕ → List NameId → List ℕ → Option (Option NameId)
find_name pairs raw folded [] name = some none
find_name pairs raw folded (id ∷ ids) name = do
  let rest = find_name pairs raw folded ids name
  bytes ← raw_bytes_in pairs raw folded id
  if same_bytes bytes name then some (some id) else rest

-- The buffer with the bytes and their NUL, and where they stand.
unfoldable pub push : List ℕ → List ℕ → List ℕ × NameRef
push buf bytes =
    (buf ++ (bytes ++ 0 ∷ []), record { off = length buf % 2 ^ 32; len = length bytes % 2 ^ 16 })

-- The bytes of a name that folds to itself stay in the folded buffer alone.
unfoldable pub push_raw : List ℕ → NameRef → List ℕ → List ℕ → List ℕ × NameRef
push_raw raw folded bytes name =
    if same_bytes bytes name
    then (raw, record { off = bit_or folded.off raw_in_folded; len = folded.len })
    else push raw name

-- A name that is in no table yet, with its folded bytes.
unfoldable pub add_name : NameStore → List ℕ → List ℕ → NameStore × NameId
add_name s bytes name =
    let folded = push s.folded bytes in
    let raw = push_raw s.raw folded.1 bytes name in
    let id = length s.pairs in
    (
      record s {
        raw = raw.0;
        folded = folded.0;
        pairs = s.pairs ++ record { raw = raw.1; folded = folded.1 } ∷ [];
        refcount = s.refcount ++ 1 ∷ [];
        head = s.head ++ nil ∷ [];
        rank_of = s.rank_of ++ unranked_mark ∷ [];
        unranked = s.unranked ++ id ∷ [];
        by_bytes = id ∷ s.by_bytes;
      },
      id,
    )

-- `debug_assert!`
abbrev pub assert : Bool → Option (Unit {0})
assert true = some tt
assert false = none

-- `self.refcount[id as usize] += 1`
unfoldable pub retain : NameStore → NameId → Option NameStore
retain s id = do
  count ← get_elem? s.refcount id
  some (record s { refcount = set s.refcount id (count + 1) })

-- `intern` after the search of the table.
unfoldable pub intern_found :
    Unicode → NameStore → List ℕ → Option NameId → Option (NameStore × NameId)
intern_found u s name (some id) = do s' ← retain s id; some (s', id)
intern_found u s name none = do
  let bytes = fold u name
  assert (leb (length bytes) 0xffff)
  some (add_name s bytes name)

unfoldable pub intern : Unicode → NameStore → List ℕ → Option (NameStore × NameId)
intern u s name = do
  assert (leb (length name) 0xffff)
  found ← find_name s.pairs s.raw s.folded s.by_bytes name
  intern_found u s name found

-- The table without the id.
unfoldable pub erase : NameId → List NameId → List NameId
erase id [] = []
erase id (j ∷ ids) = if j == id then ids else j ∷ erase id ids

-- `for b in &mut buf[off..off + len] { *b = 0 }`
unfoldable pub zero_fill : List ℕ → ℕ → ℕ → Option (List ℕ)
zero_fill buf off len =
    if leb (off + len) (length buf)
    then some (take off buf ++ replicate len 0 ++ drop (off + len) buf)
    else none

-- The raw bytes of a dead name, unless the folded buffer holds them.
unfoldable pub wipe_raw : NameStore → NameRef → Option NameStore
wipe_raw s r = elim (has r.off raw_in_folded) [
  | true ↦ some s
  | false ↦ do
    raw ← zero_fill s.raw r.off r.len
    some (record s { raw = raw; garbage = s.garbage + (r.len + 1) })
]

-- What `release` does once the last reference is dropped.
unfoldable pub bury_name : NameStore → NameId → Option NameStore
bury_name s id = do
  head ← get_elem? s.head id
  assert (head == nil)
  pair ← get_elem? s.pairs id
  raw_bytes_of s.raw s.folded pair
  rank ← get_elem? s.rank_of id
  folded ← zero_fill s.folded pair.folded.off pair.folded.len
  let dead_ranked = if rank == unranked_mark then s.dead_ranked else s.dead_ranked + 1
  wipe_raw
      (record s {
        by_bytes = erase id s.by_bytes;
        dead_ranked = dead_ranked;
        folded = folded;
        garbage = s.garbage + (pair.folded.len + 1);
      })
      pair.raw

unfoldable pub release_counted : NameStore → NameId → ℕ → Option NameStore
release_counted s id zero = none
release_counted s id (suc zero) = bury_name (record s { refcount = set s.refcount id 0 }) id
release_counted s id (suc (suc n)) = some (record s { refcount = set s.refcount id (suc n) })

unfoldable pub release : NameStore → NameId → Option NameStore
release s id = do count ← get_elem? s.refcount id; release_counted s id count

unfoldable pub should_compact : NameStore → Bool
should_compact s =
    let total = length s.raw + length s.folded in ltb 8192 total && ltb total (s.garbage * 4)
