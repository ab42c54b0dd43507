-- ===== src/Index/FrnMap/Laws.antt =====
-- crates/goz-core/src/index/store.rs: `set` and `remove` against `get`, on both backings and on the
-- switch from one to the other.
use goz.Prelude.{
  ℕ, zero, suc, ◌+◌, ◌-◌, ◌*◌, ◌<◌, ◌≡◌, ◌≢◌, inl, inr, refl, ap, ◌∙◌, Bool-cases, none, some, List,
  [], ◌∷◌, ltb, ◌==◌, if◌then◌else◌, length, get_elem?, set, replicate, ltb→lt, ltb_false→le,
  get_elem?-append_left, get_elem?-append_right, get_elem?-none, length-append, length-replicate,
  arith,
}
use goz.Types.{EntryIdx, nil}
use goz.Index.FrnMap.{
  lookup, insert, delete, FrnMap, dense, sparse, live, get, dense_growth_slack, records_from, grow,
  set_in, widen, set_record, remove,
}

pub lookup-insert :
    (m : List (ℕ × EntryIdx)) (k : ℕ) (i : EntryIdx) (q : ℕ)
    → lookup q (insert k i m) ≡ (if k == q then some i else lookup q m)
unfolding lookup insert
lookup-insert [] k i q = refl
lookup-insert ((j, o) ∷ m) k i q = ground (arith, lookup-insert m k i q)

pub lookup-delete :
    (m : List (ℕ × EntryIdx)) (k q : ℕ)
    → lookup q (delete k m) ≡ (if k == q then none else lookup q m)
unfolding lookup delete
lookup-delete [] k q = ground arith
lookup-delete ((j, o) ∷ m) k q = ground (arith, lookup-delete m k q)

pub lookup-records_from_below :
    (v : List EntryIdx) (base q : ℕ) → q < base → lookup q (records_from base v) ≡ none
unfolding lookup records_from
lookup-records_from_below [] base q h = refl
lookup-records_from_below (i ∷ v) base q h =
    ground (arith, lookup-records_from_below v (suc base) q)

pub lookup-records_from :
    (v : List EntryIdx) (base j : ℕ)
    → lookup (base + j) (records_from base v) ≡ live (get_elem? v j)
unfolding lookup records_from live
lookup-records_from [] base j = refl
lookup-records_from (i ∷ v) base zero =
    ground (arith, lookup-records_from_below v (suc base) (base + 0))
lookup-records_from (i ∷ v) base (suc j) =
    let step = lookup-records_from v (suc base) j in
    let e : base + suc j ≡ suc base + j = omega arith in ground (arith, step, e)

pub live_nils : (n q : ℕ) → live (get_elem? (replicate n nil) q) ≡ none
unfolding live
live_nils zero q = refl
live_nils (suc n) zero = refl
live_nils (suc n) (suc q) = live_nils n q

-- Growing makes room for the record and shows no entry that was not there.
length-grow : (v : List EntryIdx) (r : ℕ) → r < length (grow v r)
unfolding grow
length-grow v r = elim (Bool-cases (ltb r (length v))) [
  | inl e ↦ rw e (ltb→lt r (length v) e)
  | inr e ↦
      let le = ltb_false→le r (length v) e in
      rw
        (
          e,
          length-append v (replicate (r + 1 - length v) nil),
          length-replicate {A = ℕ} (r + 1 - length v) nil,
        )
        (omega (arith, le))
]

live-grow : (v : List EntryIdx) (r q : ℕ) → live (get_elem? (grow v r) q) ≡ live (get_elem? v q)
unfolding grow live
live-grow v r q = elim (Bool-cases (ltb r (length v))) [
  | inl e ↦ rw e
  | inr e ↦ elim (Bool-cases (ltb q (length v))) [
    | inl f ↦
        rw (e, get_elem?-append_left v (replicate (r + 1 - length v) nil) q (ltb→lt q (length v) f))
    | inr f ↦
        let le = ltb_false→le q (length v) f in
        rw
          (
            e,
            get_elem?-append_right v (replicate (r + 1 - length v) nil) q le,
            live_nils (r + 1 - length v) (q - length v),
            get_elem?-none v q le,
          )
          refl
  ]
]

get-widen : (m : FrnMap) (r q : ℕ) → get (widen m r) q ≡ get m q
unfolding widen get
get-widen (sparse m) r q = refl
get-widen (dense v) r q = elim (Bool-cases (ltb (length v * 2 + dense_growth_slack) r)) [
  | inl e ↦
      let z : q ≡ 0 + q = omega arith in
      rw e (ap (λ k. lookup k (records_from 0 v)) z ∙ lookup-records_from v 0 q)
  | inr e ↦ rw e
]

pub live-set :
    (v : List EntryIdx) (r : ℕ) (i : EntryIdx) (q : ℕ)
    → r < length v
    → i ≢ nil
    → live (get_elem? (set v r i) q) ≡ (if r == q then some i else live (get_elem? v q))
unfolding live
live-set [] r i q h k = absurd (omega arith)
live-set (x ∷ v) zero i zero h k = ground arith
live-set (x ∷ v) zero i (suc q) h k = ground arith
live-set (x ∷ v) (suc r) i zero h k = ground arith
live-set (x ∷ v) (suc r) i (suc q) h k =
    let step = live-set v r i q (omega arith) k in ground (arith, step)

live-clear :
    (v : List EntryIdx) (r q : ℕ)
    → live (get_elem? (set v r nil) q) ≡ (if r == q then none else live (get_elem? v q))
unfolding live
live-clear [] r q = ground arith
live-clear (x ∷ v) zero zero = ground arith
live-clear (x ∷ v) zero (suc q) = ground arith
live-clear (x ∷ v) (suc r) zero = ground arith
live-clear (x ∷ v) (suc r) (suc q) = let step = live-clear v r q in ground (arith, step)

get-set_in :
    (m : FrnMap) (r : ℕ) (i : EntryIdx) (q : ℕ)
    → i ≢ nil
    → get (set_in m r i) q ≡ (if r == q then some i else get m q)
unfolding set_in get
get-set_in (sparse m) r i q h = lookup-insert m r i q
get-set_in (dense v) r i q h =
    live-set (grow v r) r i q (length-grow v r) h
    ∙ ap (λ o. if r == q then some i else o) (live-grow v r q)

-- What `set` binds is what `get` gives for that record, and every other record keeps its entry, on
-- both backings and when a far record switches the dense one to the sparse one. The entry index must
-- not be the sentinel.
pub get-set_record :
    (m : FrnMap) (r : ℕ) (i : EntryIdx) (q : ℕ)
    → i ≢ nil
    → get (set_record m r i) q ≡ (if r == q then some i else get m q)
unfolding set_record
get-set_record m r i q h =
    get-set_in (widen m r) r i q h ∙ ap (λ o. if r == q then some i else o) (get-widen m r q)

-- After `remove` the record has no entry, and every other record keeps its own.
pub get-remove : (m : FrnMap) (r q : ℕ) → get (remove m r) q ≡ (if r == q then none else get m q)
unfolding remove get
get-remove (sparse m) r q = lookup-delete m r q
get-remove (dense v) r q = live-clear v r q
