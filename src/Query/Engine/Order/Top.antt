-- ===== src/Query/Engine/Order/Top.antt =====
-- crates/goz-core/src/query/engine.rs: the page that `order_top` sorts, against a sort of all candidates.
use goz.Prelude.{
  All, ℕ, zero, suc, ◌-◌, ◌≤◌, ◌<◌, ◌≡◌, refl, sym, ap, ◌∙◌, subst, ◌++◌, false, Option, some, List,
  [], ◌∷◌, ltb, leb, ◌==◌, lt→ltb, le→ltb_false, ltb→lt, ltb_false→le, arith, Bool-cases, inl, inr,
  length, take, drop, take-append, take-append-drop, length-take,
}
use mathlib.Core.List.{Mem, Perm, not-mem-nil, mem-append_left, mem-append_right, forall_mem-cons}
use mathlib.Core.List.Perm
use goz.Prelude.Options.{>>=-some}
use goz.Types.{EntryIdx, SortSpec}
use goz.Index.Volume.{VolumeIndex}
use goz.Query.Engine.Order.{
  Candidate, Ordering, folded_name, cmp_candidate, Sort, Select, parallel_sort_min, sort_of_len,
  order_top,
}
use goz.Query.Engine.Order.Total.{IsOrder, ordering, ordering-IsOrder, cmp_candidate-ordering}
use goz.Query.Engine.Order.Sorted.{
  Ascends, Agrees, Sorts, Selects, Perm-length, Ascends-unique, parts-whole,
}

All-mem :
    (P : Candidate → Type 0) (cands : List Candidate)
    → ((a : Candidate) → IsProp (P a))
    → All P cands
    → (a : Candidate) → Mem a cands
    → P a
All-mem P [] prop h = λ a m. absurd (not-mem-nil m)
All-mem P (c ∷ cands) prop (h, hs) = (forall_mem-cons prop).1 (h, All-mem P cands prop hs)

Agrees-part :
    (cmp : Candidate → Candidate → Option Ordering) (f : Candidate → Candidate → Ordering)
    (part whole : List Candidate)
    → ((a : Candidate) → Mem a part → Mem a whole)
    → Agrees cmp f whole
    → Agrees cmp f part
Agrees-part cmp f part whole within agrees = λ a b m n. agrees a b (within a m) (within b n)

-- All the candidates, the first `end` of them as in the sorted ones.
abbrev pub Page : List Candidate → ℕ → Option (List Candidate) → Option (List Candidate) → Type 0
Page cands end ordered sorted =
    (out : List Candidate) × (whole : List Candidate) × (ordered ≡ some out)
    × (sorted ≡ some whole)
    × Perm out cands
    × (take end out ≡ take end whole)

module _ (ser : Sort) (par : Sort) (select : Select) (ser_h : Sorts ser) (par_h : Sorts par)
    (select_h : Selects select) where
  sort_of_len-Sorts : (len : ℕ) → Sorts (sort_of_len ser par select len)
  unfolding sort_of_len
  sort_of_len-Sorts len cmp f cands h agrees = elim (Bool-cases (leb parallel_sort_min len)) [
    | inl many ↦ rw (many, sort_of_len) (par_h cmp f cands h agrees)
    | inr few ↦ rw (few, sort_of_len) (ser_h cmp f cands h agrees)
  ]

  module _ (cmp : Candidate → Candidate → Option Ordering) (f : Candidate → Candidate → Ordering)
      (h : IsOrder f) (cands : List Candidate) (agrees : Agrees cmp f cands) where
    -- Any two sorts give the same list.
    one_sorted :
        (len : ℕ) (whole : List Candidate)
        → Perm whole cands
        → Ascends f whole
        → sort_of_len ser par select len cmp cands ≡ some whole
    one_sorted len whole p s =
        let (out, at, q, t) = sort_of_len-Sorts len cmp f cands h agrees in
        at ∙ ap some (Ascends-unique f h out whole t s (Perm.trans q (Perm.symm p)))

    -- The candidates up to the last of the page, selected and sorted, are the first of them all.
    selected :
        (end : ℕ) (whole : List Candidate)
        → Perm whole cands
        → Ascends f whole
        → suc end < length cands
        → (parted top : List Candidate) × (select end cmp cands ≡ some parted)
          × (sort_of_len ser par select (suc end) cmp (take (suc end) parted) ≡ some top)
          × Perm (top ++ drop (suc end) parted) cands
          × (take (suc end) (top ++ drop (suc end) parted) ≡ take (suc end) whole)
    selected end whole p s lt =
        let (parted, at, q, cut) = select_h end cmp f cands h agrees (omega (arith, lt)) in
        let front = take (suc end) parted in
        let back = drop (suc end) parted in
        let both : Perm (front ++ back) cands =
          subst (λ x. Perm x cands) (sym (take-append-drop (suc end) parted)) q in
        let (top, at_top, qt, st) = sort_of_len-Sorts (suc end) cmp f front h (
          Agrees-part cmp f front cands (λ a m. (Perm.mem_iff both).0 (mem-append_left back m))
            agrees) in
        let (rest, at_rest, qr, sr) = sort_of_len-Sorts (suc end) cmp f back h (
          Agrees-part cmp f back cands (λ a m. (Perm.mem_iff both).0 (mem-append_right front m))
            agrees) in
        let one : top ++ rest ≡ whole =
          parts-whole f h top rest front back whole st sr s qt qr (Perm.trans p (Perm.symm both))
            cut in
        let len : length top ≡ suc end =
          omega (arith, Perm-length qt, length-take (suc end) parted, Perm-length q, lt) in
        (
          parted,
          top,
          at,
          at_top,
          Perm.trans (Perm.append qt Perm.rfl) both,
          take-append top back (suc end) len
              ∙ sym (take-append top rest (suc end) len)
              ∙ ap (take (suc end)) one,
        )

  module _ (v : VolumeIndex) (sort : SortSpec) (name : EntryIdx → List ℕ) (cands : List Candidate)
      (named : All (λ a. folded_name v a.idx ≡ some (name a.idx)) cands) where
    names-Agrees : Agrees (cmp_candidate v sort) (ordering name sort.dir) cands
    names-Agrees =
        let each =
          All-mem (λ a. folded_name v a.idx ≡ some (name a.idx)) cands (λ a. hlevel) named in
        λ a b m n. cmp_candidate-ordering v sort name a b (each a m) (each b n)

    order_top_part :
        (end : ℕ) (parted top : List Candidate)
        → suc end < length cands
        → select end (cmp_candidate v sort) cands ≡ some parted
        → sort_of_len ser par select (suc end) (cmp_candidate v sort) (take (suc end) parted)
          ≡ some top
        → order_top ser par select v cands sort (suc end) ≡ some (top ++ drop (suc end) parted)
    unfolding order_top
    order_top_part end parted top lt at at_top =
        let some_end : (suc end == 0) ≡ false = ground arith in
        let before : suc end - 1 ≡ end = omega arith in
        rw (some_end, lt→ltb _ _ lt, before, order_top)
          (>>=-some _ _ parted at (>>=-some _ _ top at_top refl))

    order_top_all :
        (end : ℕ) (whole : List Candidate)
        → length cands ≤ suc end
        → sort_of_len ser par select (length cands) (cmp_candidate v sort) cands ≡ some whole
        → order_top ser par select v cands sort (suc end) ≡ some whole
    unfolding order_top
    order_top_all end whole le at =
        let some_end : (suc end == 0) ≡ false = ground arith in
        rw (some_end, le→ltb_false _ _ le, order_top) at

    Page-sorted :
        (end : ℕ) (whole : List Candidate)
        → ser (cmp_candidate v sort) cands ≡ some whole
        → Perm whole cands
        → Ascends (ordering name sort.dir) whole
        → Page cands end
            (order_top ser par select v cands sort end)
            (ser (cmp_candidate v sort) cands)
    unfolding order_top
    Page-sorted zero whole at p s = (cands, whole, refl, at, Perm.rfl, refl)
    Page-sorted (suc end) whole at p s =
        let cmp = cmp_candidate v sort in
        let f = ordering name sort.dir in
        let h = ordering-IsOrder name sort.dir in
        elim (Bool-cases (ltb (suc end) (length cands))) [
          | inl short ↦
              let lt = ltb→lt _ _ short in
              let (parted, top, chosen, sorted, q, same) =
                selected cmp f h cands names-Agrees end whole p s lt in
              (
                top ++ drop (suc end) parted,
                whole,
                order_top_part end parted top lt chosen sorted,
                at,
                q,
                same,
              )
          | inr long ↦
              let le = ltb_false→le _ _ long in
              let sorted = one_sorted cmp f h cands names-Agrees (length cands) whole p s in
              (whole, whole, order_top_all end whole le sorted, at, p, refl)
        ]

    -- With sorts and a selection that do what the standard library documents, and an index that names
    -- every candidate: `order_top` gives all the candidates again, and the first `end` of them are those
    -- that a sort of them all puts first, in the same order.
    pub order_top-Page :
        (end : ℕ)
        → Page cands end
            (order_top ser par select v cands sort end)
            (ser (cmp_candidate v sort) cands)
    order_top-Page end =
        let f = ordering name sort.dir in
        let h = ordering-IsOrder name sort.dir in
        let (whole, at, p, s) = ser_h (cmp_candidate v sort) f cands h names-Agrees in
        Page-sorted end whole at p s
