-- ===== src/Index/Children/Chain/Unlink.antt =====
-- crates/goz-core/src/index/volume.rs: `unlink_child` on a chain.
use goz.Prelude.{
  ◌≡◌, ◌≢◌, refl, sym, subst, ◌∙◌, some, List, [], ◌∷◌, ◌++◌, All, All-append_left,
  All-append_right, arith,
}
use goz.Prelude.Options.{>>=-some}
use goz.Types.{EntryIdx, nil}
use goz.Index.EntryTable.{
  Slot, EntryTable, get_cell, set_next_child, set_prev_child, set_first_child,
}
use goz.Index.EntryTable.Invariant.{All-imp}
use goz.Index.Children.{unless_nil, bypass, unlink_under, unlink_child}
use goz.Index.Children.Cells.{set_cell-Wrote, get_cell_keep, get_cell_hit}
use goz.Index.Children.Chain.{
  ParentOf, PrevOf, NextOf, Seg, Children, NoDup, Seg-Plain, Seg-elsewhere, Seg-last_next, Seg-join,
  Seg-split,
}
use goz.Index.Children.Chain.Quiet.{Quiet, Quiet-trans, Quiet-child, Quiet-first, Children-Quiet}
use goz.Index.Children.Chain.Link.{unless_nil-write, link_head}

-- What holds of every entry of a segment holds of its last one, which is an entry with the parent.
last_holds :
    (P : EntryIdx → Type 0) (t : EntryTable) (p prev cur x : EntryIdx) (xs : List EntryIdx)
    (last stop : EntryIdx)
    → All P (x ∷ xs)
    → Seg t p prev cur (x ∷ xs) last stop
    → P last × (last ≢ nil) × ParentOf t last p
last_holds P t p prev cur x [] last stop h (e, ne, pa, pr, next, nx, (el, es)) =
    (subst P el h.0, λ z. ne (el ∙ z), subst (λ i. ParentOf t i p) el pa)
last_holds P t p prev cur x (y ∷ ys) last stop h (e, ne, pa, pr, next, nx, rest) =
    last_holds P t p x next y ys last stop h.1 rest

pub NoDup-split :
    (xs ys : List EntryIdx)
    → NoDup (xs ++ ys)
    → NoDup xs × NoDup ys × All (λ x. All (λ y. x ≢ y) ys) xs
NoDup-split [] ys h = (tt, h, tt)
NoDup-split (x ∷ xs) ys h =
    let r = NoDup-split xs ys h.1 in
    (
      (All-append_left (λ y. x ≢ y) xs ys h.0, r.0),
      r.1,
      (All-append_right (λ y. x ≢ y) xs ys h.0, r.2),
    )

bypass-first :
    (t : EntryTable) (p prev next : EntryIdx)
    → prev ≡ nil
    → bypass t p prev next ≡ set_first_child t p next
unfolding bypass
bypass-first t p prev next e = ground (arith, e)

bypass-next :
    (t : EntryTable) (p prev next : EntryIdx)
    → prev ≢ nil
    → bypass t p prev next ≡ set_next_child t prev next
unfolding bypass
bypass-next t p prev next ne = ground (arith, ne)

-- The entries before lead past the entry to those after.
bypass_lem :
    (t : EntryTable) (p first idx m n : EntryIdx) (xs ys : List EntryIdx) (l last : EntryIdx)
    → NoDup xs
    → All (λ x. All (λ y. x ≢ y) (idx ∷ ys)) xs
    → get_cell (λ s. s.first_child) t p ≡ some first
    → Seg t p nil first xs l m
    → Seg t p idx n ys last nil
    → (t' : EntryTable) × (bypass t p l n ≡ some t')
      × (first' : EntryIdx) × (get_cell (λ s. s.first_child) t' p ≡ some first')
      × Seg t' p nil first' xs l n
      × Seg t' p idx n ys last nil
      × Quiet p t t'
unfolding set_first_child set_next_child
bypass_lem t p first idx m n [] ys l last nd out fi (el, em) r =
    let f : Slot → Slot = λ s. record s { first_child = n } in
    let (t', e, w) = set_cell-Wrote (λ s. s.first_child) f p t first fi in
    (
      t',
      bypass-first t p l n (sym el) ∙ e,
      n,
      get_cell_hit (λ s. s.first_child) f p t t' w n (λ s. refl),
      (el, refl),
      Seg-Plain f p t t' w (λ s. (refl, refl, refl)) p idx n ys last nil r,
      Quiet-first n p t t' w,
    )
bypass_lem t p first idx m n (x ∷ xs) ys l last nd out fi a r =
    let f : Slot → Slot = λ s. record s { next_child = n } in
    let (lo, ln, lp) = last_holds (λ z. All (λ y. z ≢ y) (idx ∷ ys)) t p nil first x xs l m out a in
    let (t', e, w) = set_cell-Wrote (λ s. s.parent) f l t p lp in
    (
      t',
      bypass-next t p l n ln ∙ e,
      first,
      get_cell_keep (λ s. s.first_child) f l t t' w (λ s. refl) p ∙ fi,
      Seg-last_next n t t' p nil first x xs l m w nd a,
      Seg-elsewhere f l t t' w p idx n ys last nil lo.1 r,
      Quiet-child f p l t t' (λ s. refl) (λ s. refl) lp w,
    )

unlink_child_run :
    (t t1 t2 t3 t4 : EntryTable) (idx p prev next : EntryIdx)
    → ParentOf t idx p
    → p ≢ nil
    → PrevOf t idx prev
    → NextOf t idx next
    → bypass t p prev next ≡ some t1
    → unless_nil next t1 (set_prev_child t1 next prev) ≡ some t2
    → set_next_child t2 idx nil ≡ some t3
    → set_prev_child t3 idx nil ≡ some t4
    → unlink_child t idx ≡ some t4
unfolding unlink_child unlink_under
unlink_child_run t t1 t2 t3 t4 idx p prev next pa ne pr nx e1 e2 e3 e4 = >>=-some _ _ p pa (
    unless_nil-write p t (unlink_under t idx p) ne
    ∙ >>=-some _ _ prev pr
        (>>=-some _ _ next nx (>>=-some _ _ t1 e1 (>>=-some _ _ t2 e2 (>>=-some _ _ t3 e3 e4)))))

-- Taking an entry out of the chain of its parent `p` succeeds, wherever it stands in the chain: the
-- children of `p` are then those before it and those after it, in their order, and the entry's own
-- links are empty. No parent changes, and the children of every other parent stay as they were.
pub unlink_child-Children :
    (t : EntryTable) (idx p : EntryIdx) (xs ys : List EntryIdx)
    → p ≢ nil
    → Children t p (xs ++ idx ∷ ys)
    → NoDup (xs ++ idx ∷ ys)
    → (t' : EntryTable) × (unlink_child t idx ≡ some t')
      × Children t' p (xs ++ ys)
      × PrevOf t' idx nil
      × NextOf t' idx nil
      × ((i : EntryIdx) → get_cell (λ s. s.parent) t' i ≡ get_cell (λ s. s.parent) t i)
      × ((q : EntryIdx) (zs : List EntryIdx) → q ≢ p → Children t q zs → Children t' q zs)
unfolding set_next_child set_prev_child
unlink_child-Children t idx p xs ys np (first, last, fi, h) nd =
    let (l, m, a, (em, ni, pa, pr, n, nx, r)) = Seg-split t p nil first xs (idx ∷ ys) last nil h in
    let (ndx, ndy, out) = NoDup-split xs (idx ∷ ys) nd in
    let (t1, e1, first', fi1, a1, r1, q1) =
      bypass_lem t p first idx m n xs ys l last ndx out fi a r in
    let apart = All-imp _ _ xs (λ x g. g.1) out in
    let before = All-imp _ _ xs (λ x g. λ same. g.0 (sym same)) out in
    let (t2, e2, l2, r2, q2, kn, kf, kp, ks) = link_head t1 l p idx n ys last ndy.1 r1 in
    let a2 = ks nil first' xs l n apart a1 in
    let q12 = Quiet-trans p t t1 t2 q1 q2 in
    let pa2 = q12.parents idx ∙ pa in
    let fn : Slot → Slot = λ s. record s { next_child = nil } in
    let fp : Slot → Slot = λ s. record s { prev_child = nil } in
    let (t3, e3, w3) = set_cell-Wrote (λ s. s.parent) fn idx t2 p pa2 in
    let q3 = Quiet-child fn p idx t2 t3 (λ s. refl) (λ s. refl) pa2 w3 in
    let pa3 = q3.parents idx ∙ pa2 in
    let (t4, e4, w4) = set_cell-Wrote (λ s. s.parent) fp idx t3 p pa3 in
    let q4 = Quiet-child fp p idx t3 t4 (λ s. refl) (λ s. refl) pa3 w4 in
    let q = Quiet-trans p t t3 t4 (Quiet-trans p t t2 t3 q12 q3) q4 in
    let a3 = Seg-elsewhere fn idx t2 t3 w3 p nil first' xs l n before a2 in
    let a4 = Seg-elsewhere fp idx t3 t4 w4 p nil first' xs l n before a3 in
    let r3 = Seg-elsewhere fn idx t2 t3 w3 p l n ys l2 nil ndy.0 r2 in
    let r4 = Seg-elsewhere fp idx t3 t4 w4 p l n ys l2 nil ndy.0 r3 in
    let fi4 =
      get_cell_keep (λ s. s.first_child) fp idx t3 t4 w4 (λ s. refl) p
      ∙ (get_cell_keep (λ s. s.first_child) fn idx t2 t3 w3 (λ s. refl) p ∙ (kf p ∙ fi1)) in
    (
      t4,
      unlink_child_run t t1 t2 t3 t4 idx p l n pa np pr nx e1 e2 e3 e4,
      (first', l2, fi4, Seg-join t4 p nil first' xs ys l n l2 nil a4 r4),
      get_cell_hit (λ s. s.prev_child) fp idx t3 t4 w4 nil (λ s. refl),
      get_cell_keep (λ s. s.next_child) fp idx t3 t4 w4 (λ s. refl) idx
          ∙ get_cell_hit (λ s. s.next_child) fn idx t2 t3 w3 nil (λ s. refl),
      q.parents,
      λ q' zs ne k. Children-Quiet p q' zs t t4 ne q k,
    )
