-- ===== src/Index/NameStore/Order/Search.antt =====
-- crates/goz-core/src/index/store.rs: the binary search of the name order.
use goz.Prelude.{
  ℕ, zero, suc, ◌+◌, ◌-◌, ◌/◌, ◌≤◌, ◌<◌, ◌≡◌, ◌⊎◌, inl, inr, refl, sym, ap, ◌∙◌, true, false,
  Option, none, some, List, ltb, lt→ltb, le→ltb_false, ltb→lt, ltb_false→le, Bool-cases, length,
  get_elem?, arith,
}
use goz.Prelude.Options.{>>=-some}
use goz.Index.NameStore.{NameStore, folded_bytes_of}
use goz.Index.EntryTable.Count.{get_elem?-lt}
use goz.Index.NameStore.Order.{
  bytes_lt, first_live_at, folds_below, before, narrow, insertion_from, insertion_point,
}
use goz.Index.NameStore.Order.Live.{
  bytes_lt_trans, LiveIn, DeadIn, Counted, not_both, first_live_at-cases,
}

abbrev pub Live : NameStore → ℕ → Type 0
Live s p = LiveIn s.refcount s.order p

-- The folded name at a position of the order.
abbrev pub FoldsTo : NameStore → ℕ → List ℕ → Type 0
FoldsTo s p bytes = (id : ℕ) × (get_elem? s.order p ≡ some id) × (folded_bytes_of s id ≡ some bytes)

-- The live names of the order ascend, and each position has a count and a name to read.
pub record IsOrdered (s : NameStore) : Type 0 where
  pub counted : Counted s.refcount s.order
  pub named : (p : ℕ) → p < length s.order → (bytes : List ℕ) × FoldsTo s p bytes
  pub ascending :
      (j k : ℕ) (a b : List ℕ)
      → j < k
      → Live s j
      → Live s k
      → FoldsTo s j a
      → FoldsTo s k b
      → bytes_lt b a ≡ false

-- The folded bytes of every live name before the position are less than `x`, and of none from it on.
abbrev pub Splits : NameStore → List ℕ → ℕ → Type 0
Splits s x p =
    ((j : ℕ) (bytes : List ℕ) → j < p → Live s j → FoldsTo s j bytes → bytes_lt bytes x ≡ true)
    × ((j : ℕ) (bytes : List ℕ) → p ≤ j → Live s j → FoldsTo s j bytes → bytes_lt bytes x ≡ false)

-- The same, as the search reads the names.
abbrev Cuts : NameStore → List ℕ → ℕ → Type 0
Cuts s x p =
    ((j : ℕ) → j < p → Live s j → folds_below s x j ≡ some true)
    × ((j : ℕ) → p ≤ j → Live s j → folds_below s x j ≡ some false)

module _ (s : NameStore) (x : List ℕ) (v : IsOrdered s) where
  below_of :
      (p : ℕ) (bytes : List ℕ) → FoldsTo s p bytes → folds_below s x p ≡ some (bytes_lt bytes x)
  unfolding folds_below
  below_of p bytes (id, e, f) = >>=-some _ _ id e (>>=-some _ _ bytes f refl)

  Live-lt : (p : ℕ) → Live s p → p < length s.order
  Live-lt p (id, n, e, c) = get_elem?-lt s.order p id e

  -- Whether a name of the order folds below `x`, as the search reads it.
  below_cases :
      (p : ℕ)
      → p < length s.order
      → (folds_below s x p ≡ some true) ⊎ (folds_below s x p ≡ some false)
  below_cases p lt =
      let (bytes, f) = v.named p lt in
      let e = below_of p bytes f in
      elim (Bool-cases (bytes_lt bytes x)) [
        | inl b ↦ inl (e ∙ ap some b)
        | inr b ↦ inr (e ∙ ap some b)
      ]

  -- A live name before one that folds below `x` folds below `x` as well.
  below_mono :
      (j k : ℕ)
      → j < k
      → Live s j
      → Live s k
      → folds_below s x k ≡ some true
      → folds_below s x j ≡ some true
  below_mono j k lt lj lk h =
      let (a, fa) = v.named j (Live-lt j lj) in
      let (b, fb) = v.named k (Live-lt k lk) in
      let bx : some (bytes_lt b x) ≡ some true = sym (below_of k b fb) ∙ h in
      let le = v.ascending j k a b lt lj lk fa fb in
      below_of j a fa ∙ ap some (bytes_lt_trans a b x le (ground (arith, bx)))

  -- The bounds that the search keeps.
  Bounds : ℕ → ℕ → Type 0
  Bounds lo hi =
      (lo ≤ hi)
      × (hi ≤ length s.order)
      × ((j : ℕ) → j < lo → Live s j → folds_below s x j ≡ some true)
      × ((j : ℕ) → hi ≤ j → Live s j → folds_below s x j ≡ some false)

  before-some : (hi p : ℕ) → p < hi → before hi (some p) ≡ some p
  unfolding before
  before-some hi p lt = rw (lt→ltb p hi lt) refl

  before-none : (hi p : ℕ) → hi ≤ p → before hi (some p) ≡ none
  unfolding before
  before-none hi p le = rw (le→ltb_false p hi le) refl

  -- Nothing live stands in the upper half that is given up.
  drop_dead :
      (lo hi mid : ℕ)
      → lo ≤ mid
      → mid < hi
      → Bounds lo hi
      → ((j : ℕ) → mid ≤ j → j < hi → DeadIn s.refcount s.order j)
      → Bounds lo mid
  unfolding Bounds
  drop_dead lo hi mid le lt (a, b, low, high) dead = (
    le,
    omega (arith, lt, b),
    low,
    λ j g l. elim (Bool-cases (ltb j hi)) [
      | inl e ↦ absurd (not_both s.refcount s.order j l (dead j g (ltb→lt j hi e)))
      | inr e ↦ high j (ltb_false→le j hi e) l
    ],
  )

  -- Where the first live name from `mid` on does not fold below `x`, none from there on does.
  high_from :
      (mid p : ℕ)
      → Live s p
      → ((j : ℕ) → mid ≤ j → j < p → DeadIn s.refcount s.order j)
      → folds_below s x p ≡ some false
      → (j : ℕ) → mid ≤ j
      → Live s j
      → folds_below s x j ≡ some false
  high_from mid p l dead e j g lj = elim (below_cases j (Live-lt j lj)) [
    | inr f ↦ f
    | inl f ↦ elim (Bool-cases (ltb j p)) [
      | inl lt ↦ absurd (not_both s.refcount s.order j lj (dead j g (ltb→lt j p lt)))
      | inr le ↦ elim (Bool-cases (ltb p j)) [
        | inl lt ↦
            let low = below_mono p j (ltb→lt p j lt) l lj f in absurd (ground (arith, low, e))
        | inr le' ↦
            let same : j ≡ p = omega (arith, ltb_false→le j p le, ltb_false→le p j le') in
            let d = sym f ∙ (ap (folds_below s x) same ∙ e) in absurd (ground (arith, d))
      ]
    ]
  ]

  -- A live position below `hi`, with nothing live between `mid` and it, moves one of the bounds.
  narrow_at :
      (lo hi mid p : ℕ)
      → lo ≤ mid
      → mid ≤ p
      → p < hi
      → Live s p
      → ((j : ℕ) → mid ≤ j → j < p → DeadIn s.refcount s.order j)
      → Bounds lo hi
      → (lo' : ℕ) × (hi' : ℕ) × (narrow s x lo hi mid (some p) ≡ some (lo', hi'))
        × Bounds lo' hi'
        × (hi' - lo' < hi - lo)
  unfolding narrow Bounds
  narrow_at lo hi mid p le on lt l dead (a, b, low, high) = elim (below_cases p (Live-lt p l)) [
    | inl e ↦ (
      p + 1,
      hi,
      >>=-some _ _ true e refl,
      (
        omega (arith, lt),
        b,
        λ j g lj. elim (Bool-cases (ltb j p)) [
          | inl f ↦ below_mono j p (ltb→lt j p f) lj l e
          | inr f ↦
              let same : j ≡ p = omega (arith, g, ltb_false→le j p f) in
              ap (folds_below s x) same ∙ e
        ],
        high,
      ),
      omega (arith, le, on, lt),
    )
    | inr e ↦ (
      lo,
      mid,
      >>=-some _ _ false e refl,
      (le, omega (arith, on, lt, b), low, high_from mid p l dead e),
      omega (arith, le, on, lt),
    )
  ]

  half : (lo hi : ℕ) → lo < hi → (lo ≤ lo + (hi - lo) / 2) × (lo + (hi - lo) / 2 < hi)
  half lo hi lt = (omega (arith, lt), omega (arith, lt))

  -- One turn of the loop keeps the bounds and brings them closer.
  turn :
      (lo hi mid : ℕ)
      → lo ≤ mid
      → mid < hi
      → Bounds lo hi
      → (live : Option ℕ) × (first_live_at s mid ≡ some live)
        × (lo' : ℕ) × (hi' : ℕ) × (narrow s x lo hi mid (before hi live) ≡ some (lo', hi'))
        × Bounds lo' hi'
        × (hi' - lo' < hi - lo)
  unfolding narrow before Bounds
  turn lo hi mid le lt b = elim (first_live_at-cases s mid v.counted) [
    | inr (f, dead) ↦ (
      none,
      f,
      lo,
      mid,
      refl,
      drop_dead lo hi mid le lt b (λ j g h. dead j g (omega (arith, h, b.1))),
      omega (arith, le, lt),
    )
    | inl (p, f, on, l, dead) ↦ elim (Bool-cases (ltb p hi)) [
      | inl e ↦
          let (lo', hi', n, b', closer) = narrow_at lo hi mid p le on (ltb→lt p hi e) l dead b in
          (
            some p,
            f,
            lo',
            hi',
            ap (narrow s x lo hi mid) (before-some hi p (ltb→lt p hi e)) ∙ n,
            b',
            closer,
          )
      | inr e ↦
          let le' = ltb_false→le p hi e in
          (
            some p,
            f,
            lo,
            mid,
            ap (narrow s x lo hi mid) (before-none hi p le'),
            drop_dead lo hi mid le lt b (λ j g h. dead j g (omega (arith, h, le'))),
            omega (arith, le, lt),
          )
    ]
  ]

  insertion_from_stop :
      (fuel lo hi : ℕ) → ltb lo hi ≡ false → insertion_from s x (suc fuel) lo hi ≡ some lo
  unfolding insertion_from
  insertion_from_stop fuel lo hi e = rw (e, insertion_from) refl

  insertion_from_step :
      (fuel lo hi : ℕ) (live : Option ℕ) (lo' hi' p : ℕ)
      → ltb lo hi ≡ true
      → first_live_at s (lo + (hi - lo) / 2) ≡ some live
      → narrow s x lo hi (lo + (hi - lo) / 2) (before hi live) ≡ some (lo', hi')
      → insertion_from s x fuel lo' hi' ≡ some p
      → insertion_from s x (suc fuel) lo hi ≡ some p
  unfolding insertion_from
  insertion_from_step fuel lo hi live lo' hi' p e f n i =
      rw (e, insertion_from) (>>=-some _ _ live f (>>=-some _ _ (lo', hi') n i))

  insertion_from_lem :
      (fuel lo hi : ℕ)
      → hi - lo ≤ fuel
      → Bounds lo hi
      → (p : ℕ) × (insertion_from s x fuel lo hi ≡ some p) × (p ≤ length s.order) × Cuts s x p
  unfolding insertion_from Bounds
  insertion_from_lem zero lo hi en b =
      let closed : ltb lo hi ≡ false = le→ltb_false lo hi (omega (arith, en)) in
      let same : lo ≡ hi = omega (arith, en, b.0) in
      (
        lo,
        rw closed refl,
        omega (arith, b.0, b.1),
        (b.2, λ j g l. b.3 j (omega (arith, g, same)) l),
      )
  insertion_from_lem (suc fuel) lo hi en b = elim (Bool-cases (ltb lo hi)) [
    | inl e ↦
        let lt = ltb→lt lo hi e in
        let (le, up) = half lo hi lt in
        let (live, f, lo', hi', n, b', closer) = turn lo hi (lo + (hi - lo) / 2) le up b in
        let (p, i, r, sp) = insertion_from_lem fuel lo' hi' (omega (arith, en, closer)) b' in
        (p, insertion_from_step fuel lo hi live lo' hi' p e f n i, r, sp)
    | inr e ↦
        let same : lo ≡ hi = omega (arith, b.0, ltb_false→le lo hi e) in
        (
          lo,
          insertion_from_stop fuel lo hi e,
          omega (arith, b.0, b.1),
          (b.2, λ j g l. b.3 j (omega (arith, g, same)) l),
        )
  ]

  Cuts-Splits : (p : ℕ) → Cuts s x p → Splits s x p
  Cuts-Splits p (low, high) = (
    λ j bytes lt l f.
        let e : some (bytes_lt bytes x) ≡ some true = sym (below_of j bytes f) ∙ low j lt l in
        ground (arith, e),
    λ j bytes le l f.
        let e : some (bytes_lt bytes x) ≡ some false = sym (below_of j bytes f) ∙ high j le l in
        ground (arith, e),
  )

-- In an order whose live names ascend, the binary search ends at a position that splits the live
-- names, however many dead ones stand between them: the folded bytes of each before it are less than
-- `x`, and those of none from it on are.
pub insertion_point-Splits :
    (s : NameStore) (x : List ℕ)
    → IsOrdered s
    → (p : ℕ) × (insertion_point s x ≡ some p) × (p ≤ length s.order) × Splits s x p
unfolding insertion_point Bounds
insertion_point-Splits s x v =
    let (p, found, le, cuts) =
      insertion_from_lem s x v (length s.order) 0 (length s.order) (omega arith) (
        omega arith,
        omega arith,
        λ j lt l. absurd (omega (arith, lt)),
        λ j le l. absurd (omega (arith, le, Live-lt s x v j l)),
      ) in
    (p, found, le, Cuts-Splits s x v p cuts)
