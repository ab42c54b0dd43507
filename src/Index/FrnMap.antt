-- ===== src/Index/FrnMap.antt =====
-- crates/goz-core/src/index/store.rs: the map from a record number to the head of its chain.
-- The hash map of the sparse backing is an association list; its capacity, which the hash map alone
-- knows, is an argument.
pub mod Laws
pub mod Densify
pub mod Refine
use goz.Prelude.{
  ℕ, zero, suc, ◌+◌, ◌-◌, ◌*◌, ◌/◌, ◌<◌, Bool, true, false, not, Option, none, some, List, [], ◌∷◌,
  ◌++◌, ltb, leb, ◌==◌, if◌then◌else◌, length, get_elem?, set, replicate,
}
use goz.Types.{EntryIdx, nil}

-- The hash map: `get`, `insert` and `remove`.
module _ where
  unfoldable pub lookup : ℕ → List (ℕ × EntryIdx) → Option EntryIdx
  lookup k [] = none
  lookup k ((j, i) ∷ m) = if j == k then some i else lookup k m

  unfoldable pub insert : ℕ → EntryIdx → List (ℕ × EntryIdx) → List (ℕ × EntryIdx)
  insert k i [] = (k, i) ∷ []
  insert k i ((j, o) ∷ m) = if j == k then (k, i) ∷ m else (j, o) ∷ insert k i m

  unfoldable pub delete : ℕ → List (ℕ × EntryIdx) → List (ℕ × EntryIdx)
  delete k [] = []
  delete k ((j, i) ∷ m) = if j == k then delete k m else (j, i) ∷ delete k m

pub data FrnMap : Type 0 where
  dense : List EntryIdx → FrnMap
  sparse : List (ℕ × EntryIdx) → FrnMap

unfoldable pub new_sparse : FrnMap
new_sparse = sparse []

unfoldable pub new_dense : ℕ → FrnMap
new_dense capacity = dense (replicate capacity nil)

-- `.filter(|&i| i != NIL)`
unfoldable pub live : Option EntryIdx → Option EntryIdx
live none = none
live (some i) = if i == nil then none else some i

unfoldable pub get : FrnMap → ℕ → Option EntryIdx
get (dense v) r = live (get_elem? v r)
get (sparse m) r = lookup r m

abbrev pub dense_growth_slack : ℕ
dense_growth_slack = 65536

-- The occupied slots of a dense map with their record numbers, the first slot's being `base`.
unfoldable pub records_from : ℕ → List EntryIdx → List (ℕ × EntryIdx)
records_from base [] = []
records_from base (i ∷ v) =
    let rest = records_from (suc base) v in if i == nil then rest else (base, i) ∷ rest

-- `if r >= v.len() { v.resize(r + 1, NIL) }`
unfoldable pub grow : List EntryIdx → ℕ → List EntryIdx
grow v r = if ltb r (length v) then v else v ++ replicate (r + 1 - length v) nil

unfoldable pub set_in : FrnMap → ℕ → EntryIdx → FrnMap
set_in (dense v) r i = dense (set (grow v r) r i)
set_in (sparse m) r i = sparse (insert r i m)

-- A record number far past the end switches a dense map to the sparse backing.
unfoldable pub widen : FrnMap → ℕ → FrnMap
widen (dense v) r =
    if ltb (length v * 2 + dense_growth_slack) r then sparse (records_from 0 v) else dense v
widen (sparse m) r = sparse m

unfoldable pub set_record : FrnMap → ℕ → EntryIdx → FrnMap
set_record m r i = set_in (widen m r) r i

unfoldable pub remove : FrnMap → ℕ → FrnMap
remove (dense v) r = dense (set v r nil)
remove (sparse m) r = sparse (delete r m)

-- `keys().max()`
unfoldable pub max_key : List (ℕ × EntryIdx) → Option ℕ
max_key [] = none
max_key ((k, i) ∷ m) = elim (max_key m) [ none ↦ some k | some j ↦ some (if ltb j k then k else j) ]

-- The least power of two from `p` on that is not below `n`, by at most `fuel` doublings.
unfoldable pub power_of_two_from : ℕ → ℕ → ℕ → ℕ
power_of_two_from zero p n = p
power_of_two_from (suc fuel) p n =
    let rest = power_of_two_from fuel (p * 2) n in if leb n p then p else rest

-- `for (&record, &idx) in m.iter() { v[record] = idx }`
unfoldable pub fill : List (ℕ × EntryIdx) → List EntryIdx → List EntryIdx
fill [] v = v
fill ((r, i) ∷ m) v = fill m (set v r i)

-- The size of an entry index, and of a bucket with its control byte.
abbrev pub idx_bytes : ℕ
idx_bytes = 4

abbrev pub per_bucket : ℕ
per_bucket = 17

unfoldable pub densify_to : ℕ → List (ℕ × EntryIdx) → Option ℕ → FrnMap
densify_to capacity m none = sparse m
densify_to capacity m (some max) =
    if ltb ((max + 1) * idx_bytes)
      (power_of_two_from (capacity * 8 / 7) 1 (capacity * 8 / 7) * per_bucket)
    then dense (fill m (replicate (max + 1) nil))
    else sparse m

unfoldable pub densify_if_smaller : ℕ → FrnMap → FrnMap
densify_if_smaller capacity (dense v) = dense v
densify_if_smaller capacity (sparse m) = densify_to capacity m (max_key m)
