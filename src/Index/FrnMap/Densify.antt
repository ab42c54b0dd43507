-- ===== src/Index/FrnMap/Densify.antt =====
-- crates/goz-core/src/index/store.rs: `densify_if_smaller`, and the maps on which it may be called.
use goz.Prelude.{
  ℕ, suc, ◌+◌, ◌*◌, ◌/◌, ◌<◌, ◌≡◌, ◌≢◌, inl, inr, refl, sym, ap, ◌∙◌, Bool-cases, Option-cases,
  Option, none, some, List, [], ◌∷◌, ltb, ◌==◌, if◌then◌else◌, length, get_elem?, set, replicate,
  ==_iff, length-set, length-replicate, arith, All,
}
use goz.Types.{EntryIdx, nil}
use goz.Index.FrnMap.{
  lookup, insert, delete, FrnMap, dense, sparse, new_sparse, live, get, dense_growth_slack,
  records_from, set_in, widen, set_record, remove, max_key, power_of_two_from, idx_bytes,
  per_bucket, fill, densify_to, densify_if_smaller,
}
use goz.Index.FrnMap.Laws.{
  lookup-insert, lookup-delete, lookup-records_from_below, live-set, live_nils,
}

-- No record is bound twice and none to the sentinel.
abbrev pub WellKeyed : List (ℕ × EntryIdx) → Type 0
WellKeyed [] = Unit
WellKeyed ((k, i) ∷ m) = (i ≢ nil) × (lookup k m ≡ none) × WellKeyed m

abbrev pub IsValid : FrnMap → Type 0
IsValid (dense v) = Unit
IsValid (sparse m) = WellKeyed m

pub new_sparse-IsValid : IsValid new_sparse
unfolding new_sparse
new_sparse-IsValid = tt

insert-WellKeyed :
    (m : List (ℕ × EntryIdx)) (k : ℕ) (i : EntryIdx)
    → i ≢ nil
    → WellKeyed m
    → WellKeyed (insert k i m)
unfolding insert lookup
insert-WellKeyed [] k i h w = (h, refl, tt)
insert-WellKeyed ((j, o) ∷ m) k i h w =
    let rest = insert-WellKeyed m k i h w.2 in
    let at = lookup-insert m k i j in ground (arith, rest, at)

delete-WellKeyed : (m : List (ℕ × EntryIdx)) (k : ℕ) → WellKeyed m → WellKeyed (delete k m)
unfolding delete
delete-WellKeyed [] k w = tt
delete-WellKeyed ((j, o) ∷ m) k w =
    let rest = delete-WellKeyed m k w.2 in let at = lookup-delete m k j in ground (arith, rest, at)

records_from-WellKeyed : (v : List EntryIdx) (base : ℕ) → WellKeyed (records_from base v)
unfolding records_from
records_from-WellKeyed [] base = tt
records_from-WellKeyed (i ∷ v) base =
    let rest = records_from-WellKeyed v (suc base) in
    let at = lookup-records_from_below v (suc base) base (omega arith) in ground (arith, rest, at)

set_in-IsValid : (m : FrnMap) (r : ℕ) (i : EntryIdx) → i ≢ nil → IsValid m → IsValid (set_in m r i)
unfolding set_in
set_in-IsValid (dense v) r i h w = tt
set_in-IsValid (sparse m) r i h w = insert-WellKeyed m r i h w

widen-IsValid : (m : FrnMap) (r : ℕ) → IsValid m → IsValid (widen m r)
unfolding widen
widen-IsValid (sparse m) r w = w
widen-IsValid (dense v) r w = elim (Bool-cases (ltb (length v * 2 + dense_growth_slack) r)) [
  | inl e ↦ rw e (records_from-WellKeyed v 0)
  | inr e ↦ rw e tt
]

pub set_record-IsValid :
    (m : FrnMap) (r : ℕ) (i : EntryIdx) → i ≢ nil → IsValid m → IsValid (set_record m r i)
unfolding set_record
set_record-IsValid m r i h w = set_in-IsValid (widen m r) r i h (widen-IsValid m r w)

pub remove-IsValid : (m : FrnMap) (r : ℕ) → IsValid m → IsValid (remove m r)
unfolding remove
remove-IsValid (dense v) r w = tt
remove-IsValid (sparse m) r w = delete-WellKeyed m r w

densify_to-IsValid :
    (capacity : ℕ) (m : List (ℕ × EntryIdx)) (max : Option ℕ)
    → WellKeyed m
    → IsValid (densify_to capacity m max)
unfolding densify_to
densify_to-IsValid capacity m none w = w
densify_to-IsValid capacity m (some max) w =
    elim (Bool-cases (
      ltb ((max + 1) * idx_bytes)
        (power_of_two_from (capacity * 8 / 7) 1 (capacity * 8 / 7) * per_bucket))) [
          | inl e ↦ rw e tt
          | inr e ↦ rw e w
        ]

pub densify-IsValid :
    (capacity : ℕ) (m : FrnMap) → IsValid m → IsValid (densify_if_smaller capacity m)
unfolding densify_if_smaller
densify-IsValid capacity (dense v) w = tt
densify-IsValid capacity (sparse m) w = densify_to-IsValid capacity m (max_key m) w

abbrev or_else : Option EntryIdx → Option EntryIdx → Option EntryIdx
or_else none o = o
or_else (some i) o = some i

or_else-none : (o : Option EntryIdx) → or_else o none ≡ o
or_else-none none = refl
or_else-none (some i) = refl

live_get-fill :
    (m : List (ℕ × EntryIdx)) (v : List EntryIdx) (q : ℕ)
    → WellKeyed m
    → All (λ p. p.0 < length v) m
    → live (get_elem? (fill m v) q) ≡ or_else (lookup q m) (live (get_elem? v q))
unfolding fill lookup
live_get-fill [] v q w b = refl
live_get-fill ((r, i) ∷ m) v q w b =
    let len = length-set v r i in
    let step =
      live_get-fill m (set v r i) q w.2 (rw len b.1)
      ∙ ap (or_else (lookup q m)) (live-set v r i q b.0 w.0) in
    elim (Bool-cases (r == q)) [
      | inl e ↦
          let n = ap (λ x. lookup x m) (sym ((==_iff r q).0 e)) ∙ w.1 in
          rw e (
            step
            ∙ ap (λ b. or_else (lookup q m) (if b then some i else live (get_elem? v q))) e
            ∙ ap (λ o. or_else o (some i)) n)
      | inr e ↦
          rw e
            (step ∙ ap (λ b. or_else (lookup q m) (if b then some i else live (get_elem? v q))) e)
    ]

max_key_bound :
    (m : List (ℕ × EntryIdx)) (n : ℕ)
    → ((j : ℕ) → max_key m ≡ some j → j < n)
    → All (λ p. p.0 < n) m
unfolding max_key
max_key_bound [] n h = tt
max_key_bound ((k, i) ∷ m) n h = elim (Option-cases (max_key m)) [
  | inl e ↦ (h k (rw e refl), max_key_bound m n (λ j f. ground (arith, e, f)))
  | inr (j, e) ↦
      let below : (if ltb j k then k else j) < n = h (if ltb j k then k else j) (rw e refl) in
      (ground (arith, below), max_key_bound m n (λ j' f. ground (arith, below, e, f)))
]

get-densify_to :
    (capacity : ℕ) (m : List (ℕ × EntryIdx)) (max : Option ℕ) (q : ℕ)
    → WellKeyed m
    → ((j : ℕ) → max ≡ some j → All (λ p. p.0 < j + 1) m)
    → get (densify_to capacity m max) q ≡ lookup q m
unfolding densify_to get
get-densify_to capacity m none q w h = refl
get-densify_to capacity m (some max) q w h =
    elim (Bool-cases (
      ltb ((max + 1) * idx_bytes)
        (power_of_two_from (capacity * 8 / 7) 1 (capacity * 8 / 7) * per_bucket))) [
          | inl e ↦ rw e (
              live_get-fill m (replicate (max + 1) nil) q w
                (rw (length-replicate {A = ℕ} (max + 1) nil) (h max refl))
              ∙ ap (or_else (lookup q m)) (live_nils (max + 1) q)
              ∙ or_else-none (lookup q m))
          | inr e ↦ rw e
        ]

-- The swap to the dense backing, wherever it is made, changes no entry: `get` gives for every record
-- what it gave before, if the sparse backing binds no record twice and none to the sentinel.
pub get-densify_if_smaller :
    (capacity : ℕ) (m : FrnMap) (q : ℕ)
    → IsValid m
    → get (densify_if_smaller capacity m) q ≡ get m q
unfolding densify_if_smaller get
get-densify_if_smaller capacity (dense v) q w = refl
get-densify_if_smaller capacity (sparse m) q w =
    get-densify_to capacity m (max_key m) q w
      (λ j e. max_key_bound m (j + 1) (λ k f. ground (arith, e, f)))
