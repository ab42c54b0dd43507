-- ===== src/Index/NameStore/Order.antt =====
-- crates/goz-core/src/index/store.rs: the names in the order of their folded bytes. Sorting by a key
-- that tells any two ids apart has one result, so insertion stands for the standard library's sort.
pub mod Live
pub mod Search
mod Runs
use goz.Prelude.{
  ℕ, zero, suc, ◌+◌, ◌-◌, ◌*◌, ◌/◌, Bool, true, false, not, ◌&&◌, ◌||◌, Option, none, some, List,
  [], ◌∷◌, ◌++◌, ltb, ◌==◌, if◌then◌else◌, length, get_elem?, replicate, drop,
}
use goz.Prelude.Options.{◌>>=◌}
use goz.Wtf8.Lossy.{same_bytes}
use goz.Index.EntryTable.{NameId}
use goz.Index.NameStore.{NameStore, unranked_mark, folded_bytes_of, set_at}
use goz.Index.NameStore.Compact.{CompactedNames, renumber}

-- `a < b` of two byte slices
unfoldable pub bytes_lt : List ℕ → List ℕ → Bool
bytes_lt [] [] = false
bytes_lt [] (b ∷ bs) = true
bytes_lt (a ∷ more) [] = false
bytes_lt (a ∷ more) (b ∷ bs) = ltb a b || ((a == b) && bytes_lt more bs)

abbrev pub Key : Type 0
Key = List ℕ × NameId

unfoldable pub key_lt : Key → Key → Bool
key_lt (a, i) (b, j) = bytes_lt a b || (same_bytes a b && ltb i j)

unfoldable pub insert_key : Key → List Key → List Key
insert_key k [] = k ∷ []
insert_key k (l ∷ keys) = if key_lt k l then k ∷ l ∷ keys else l ∷ insert_key k keys

unfoldable pub sort_keys : List Key → List Key
sort_keys [] = []
sort_keys (k ∷ keys) = insert_key k (sort_keys keys)

unfoldable pub ids_of : List Key → List NameId
ids_of [] = []
ids_of ((bytes, id) ∷ keys) = id ∷ ids_of keys

-- The keys of the ids with a reference, in the order given.
unfoldable pub live_keys : NameStore → List NameId → Option (List Key)
live_keys s [] = some []
live_keys s (id ∷ ids) = do
  count ← get_elem? s.refcount id
  rest ← live_keys s ids
  if count == 0 then some rest else do bytes ← folded_bytes_of s id; some ((bytes, id) ∷ rest)

unfoldable pub count_up : ℕ → ℕ → List ℕ
count_up from zero = []
count_up from (suc n) = from ∷ count_up (suc from) n

-- Whether the last live id had these folded bytes.
unfoldable pub continues : Option (List ℕ) → List ℕ → Bool
continues none bytes = false
continues (some f) bytes = same_bytes f bytes

-- The loop of `rerank`: the position, where the last group starts, and its folded bytes.
unfoldable pub rank_from :
    NameStore → ℕ → ℕ → Option (List ℕ) → List NameId → List ℕ → Option (List ℕ)
rank_from s pos start prev [] ranks = some ranks
rank_from s pos start prev (id ∷ ids) ranks = do
  count ← get_elem? s.refcount id
  if count == 0 then rank_from s (suc pos) start prev ids ranks else (do
    bytes ← folded_bytes_of s id
    let group = if continues prev bytes then start else pos
    marked ← set_at ranks id group
    rank_from s (suc pos) group (some bytes) ids marked)

unfoldable pub rerank : NameStore → Option NameStore
rerank s = do
  ranks ← rank_from s 0 0 none s.order (replicate (length s.rank_of) unranked_mark)
  some (record s { rank_of = ranks })

unfoldable pub build_order : NameStore → Option NameStore
build_order s = do
  keys ← live_keys s (count_up 0 (length s.pairs))
  rerank (record s { order = ids_of (sort_keys keys); unranked = []; dead_ranked = 0 })

-- Past 1024 names, or a thousandth of the ranked ones.
unfoldable pub wants_merge : NameStore → Bool
wants_merge s =
    let tenth = length s.order / 1000 in
    let limit = if ltb tenth 1024 then 1024 else tenth in
    ltb limit (length s.unranked) || ltb limit s.dead_ranked

-- The merge loop; every turn takes one key, so their number is fuel enough.
unfoldable pub merge_keys : ℕ → List Key → List Key → List Key
merge_keys zero old fresh = old ++ fresh
merge_keys (suc fuel) [] fresh = fresh
merge_keys (suc fuel) (o ∷ old) [] = o ∷ old
merge_keys (suc fuel) (o ∷ old) (n ∷ fresh) =
    if key_lt n o then n ∷ merge_keys fuel (o ∷ old) fresh else o ∷ merge_keys fuel old (n ∷ fresh)

unfoldable pub merge_unranked : NameStore → Option NameStore
merge_unranked s = elim (length s.order == 0) [
  | true ↦ build_order s
  | false ↦ do
    fresh ← live_keys s s.unranked
    old ← live_keys s s.order
    let sorted = sort_keys fresh
    let merged = merge_keys (length old + length sorted) old sorted
    rerank (record s { order = ids_of merged; unranked = []; dead_ranked = 0 })
]

-- The first position at or after `pos` that holds a live id, of the ids from `pos` on.
unfoldable pub first_live_from : List ℕ → ℕ → List NameId → Option (Option ℕ)
first_live_from counts pos [] = some none
first_live_from counts pos (id ∷ ids) = do
  count ← get_elem? counts id
  if count == 0 then first_live_from counts (suc pos) ids else some (some pos)

-- `install_compacted`: the order and the waiting ids are renumbered, the table is built again, and the
-- remap is handed back.
unfoldable pub install_compacted : NameStore → CompactedNames → Option (NameStore × List NameId)
install_compacted s c = do
  order ← renumber c.remap s.order
  unranked ← renumber c.remap s.unranked
  installed ← rerank (record {
    raw = c.raw;
    folded = c.folded;
    pairs = c.pairs;
    refcount = c.refcount;
    head = c.head;
    by_bytes = count_up 0 (length c.pairs);
    garbage = 0;
    order = order;
    rank_of = replicate (length c.pairs) unranked_mark;
    unranked = unranked;
    dead_ranked = 0;
  })
  some (installed, c.remap)

unfoldable pub first_live_at : NameStore → ℕ → Option (Option ℕ)
first_live_at s from = first_live_from s.refcount from (drop from s.order)

-- Whether the name at a position of the order folds below `x`.
unfoldable pub folds_below : NameStore → List ℕ → ℕ → Option Bool
folds_below s x p = do
  id ← get_elem? s.order p
  bytes ← folded_bytes_of s id
  some (bytes_lt bytes x)

-- `.filter(|&p| p < hi)`
unfoldable pub before : ℕ → Option ℕ → Option ℕ
before hi none = none
before hi (some p) = if ltb p hi then some p else none

-- What one turn of `insertion_point` makes of `lo` and `hi`.
unfoldable pub narrow : NameStore → List ℕ → ℕ → ℕ → ℕ → Option ℕ → Option (ℕ × ℕ)
narrow s x lo hi mid none = some (lo, mid)
narrow s x lo hi mid (some p) = do
  below ← folds_below s x p
  some (if below then (p + 1, hi) else (lo, mid))

-- Every turn brings `lo` and `hi` closer.
unfoldable pub insertion_from : NameStore → List ℕ → ℕ → ℕ → ℕ → Option ℕ
insertion_from s x zero lo hi = if ltb lo hi then none else some lo
insertion_from s x (suc fuel) lo hi = elim (ltb lo hi) [
  | false ↦ some lo
  | true ↦ do
    let mid = lo + (hi - lo) / 2
    live ← first_live_at s mid
    next ← narrow s x lo hi mid (before hi live)
    insertion_from s x fuel next.0 next.1
]

unfoldable pub insertion_point : NameStore → List ℕ → Option ℕ
insertion_point s x = insertion_from s x (length s.order) 0 (length s.order)

-- The key of an id that waits, from the live id at its insertion point.
unfoldable pub waiting_key : NameStore → List ℕ → ℕ → Option ℕ → Option ℕ
waiting_key s x p none = some (2 * p)
waiting_key s x p (some pos) = do
  id ← get_elem? s.order pos
  bytes ← folded_bytes_of s id
  rank ← get_elem? s.rank_of id
  some (if same_bytes bytes x then 2 * rank + 1 else 2 * p)

unfoldable pub rank_key : NameStore → NameId → Option ℕ
rank_key s id = do
  r ← get_elem? s.rank_of id
  if not (r == unranked_mark) then some (2 * r + 1) else (do
    x ← folded_bytes_of s id
    p ← insertion_point s x
    live ← first_live_at s p
    waiting_key s x p live)
