-- ===== src/Index/Children/Chain/Move.antt =====
-- crates/goz-core/src/index/volume.rs: an entry that changes its parent, as in a rename.
use goz.Prelude.{◌≡◌, ◌≢◌, refl, sym, ◌∙◌, some, List, ◌∷◌, ◌++◌, All, All-append}
use goz.Prelude.Options.{>>=-some}
use goz.Types.{EntryIdx, nil}
use goz.Index.EntryTable.{Slot, EntryTable, set_parent}
use goz.Index.EntryTable.Invariant.{All-imp}
use goz.Index.Children.{move_child}
use goz.Index.Children.Cells.{Wrote, set_cell-Wrote, get_cell_keep, get_cell_hit}
use goz.Index.Children.Chain.{ParentOf, Children, NoDup, Seg-elsewhere, Seg-split, Seg-other_parent}
use goz.Index.Children.Chain.Link.{link_child-Children}
use goz.Index.Children.Chain.Unlink.{unlink_child-Children, NoDup-split}

-- The children of a parent stay when an entry that is none of them gets another parent.
Children-elsewhere :
    (f : Slot → Slot) (i : EntryIdx) (t t' : EntryTable) (q : EntryIdx) (xs : List EntryIdx)
    → Wrote f i t t'
    → ((s : Slot) → (f s).first_child ≡ s.first_child)
    → All (λ x. i ≢ x) xs
    → Children t q xs
    → Children t' q xs
Children-elsewhere f i t t' q xs w k out (first, last, e, h) = (
  first,
  last,
  get_cell_keep (λ s. s.first_child) f i t t' w k q ∙ e,
  Seg-elsewhere f i t t' w q nil first xs last nil out h,
)

-- The parent and the number of an entry that stands in a chain.
on_chain :
    (t : EntryTable) (idx p : EntryIdx) (xs ys : List EntryIdx)
    → Children t p (xs ++ idx ∷ ys)
    → (idx ≢ nil) × ParentOf t idx p
on_chain t idx p xs ys (first, last, e, h) =
    let (l, m, a, (em, ni, pa, pr, n, nx, rest)) =
      Seg-split t p nil first xs (idx ∷ ys) last nil h in
    (ni, pa)

-- Giving an entry that stands in the chain of `p` another parent `q` succeeds. The children of `p`
-- are then the others, in their order, those of `q` are the entry and then the children that it had,
-- and the children of every third parent stay as they were.
pub move_child-Children :
    (t : EntryTable) (idx p q : EntryIdx) (xs ys zs : List EntryIdx)
    → p ≢ nil
    → q ≢ nil
    → q ≢ p
    → Children t p (xs ++ idx ∷ ys)
    → NoDup (xs ++ idx ∷ ys)
    → Children t q zs
    → NoDup zs
    → (t' : EntryTable) × (move_child t idx q ≡ some t')
      × Children t' p (xs ++ ys)
      × Children t' q (idx ∷ zs)
      × ((r : EntryIdx) (ws : List EntryIdx) → r ≢ p → r ≢ q → Children t r ws → Children t' r ws)
unfolding move_child set_parent
move_child-Children t idx p q xs ys zs np nq ne cp nd cq ndz =
    let (ni, pa) = on_chain t idx p xs ys cp in
    let (ndx, ndy, apart) = NoDup-split xs (idx ∷ ys) nd in
    let before = All-imp _ _ xs (λ x g. λ same. g.0 (sym same)) apart in
    let out = All-append (λ x. idx ≢ x) xs ys before ndy.0 in
    let strange = λ (r : EntryIdx). λ (ws : List EntryIdx). λ (nr : r ≢ p).
      λ (c : Children t r ws). Seg-other_parent t p r idx nil c.0 ws c.1 nil pa nr c.3 in
    let f : Slot → Slot = λ s. record s { parent = q } in
    let (t1, e1, cp1, pr1, nx1, pars1, others1) = unlink_child-Children t idx p xs ys np cp nd in
    let (t2, e2, w2) = set_cell-Wrote (λ s. s.parent) f idx t1 p (pars1 idx ∙ pa) in
    let kept2 = λ (r : EntryIdx). λ (ws : List EntryIdx).
      λ (g : All (λ x. idx ≢ x) ws). Children-elsewhere f idx t1 t2 r ws w2 (λ s. refl) g in
    let (t3, e3, cq3, others3) =
      link_child-Children t2 idx q zs (get_cell_hit (λ s. s.parent) f idx t1 t2 w2 q (λ s. refl)) nq
        ni (kept2 q zs (strange q zs ne cq) (others1 q zs ne cq)) (strange q zs ne cq, ndz) in
    (
      t3,
      >>=-some _ _ t1 e1 (>>=-some _ _ t2 e2 e3),
      others3 p (xs ++ ys) (λ same. ne (sym same)) (kept2 p (xs ++ ys) out cp1),
      cq3,
      λ r ws nr nrq c. others3 r ws nrq (kept2 r ws (strange r ws nr c) (others1 r ws nr c)),
    )
