-- ===== src/Index/Children/Chain/Link.antt =====
-- crates/goz-core/src/index/volume.rs: `link_child` on a chain.
use goz.Prelude.{◌≡◌, ◌≢◌, refl, sym, ap, subst, ◌∙◌, some, List, [], ◌∷◌, All, arith}
use goz.Prelude.Options.{>>=-some}
use goz.Types.{EntryIdx, nil}
use goz.Index.EntryTable.{
  Slot, EntryTable, get_cell, set_next_child, set_prev_child, set_first_child,
}
use goz.Index.Children.{unless_nil, link_under, link_child}
use goz.Index.Children.Cells.{Wrote, set_cell-Wrote, get_cell_ne, get_cell_keep, get_cell_hit}
use goz.Index.Children.Chain.{
  ParentOf, PrevOf, NextOf, Seg, Children, NoDup, Seg-Plain, Seg-elsewhere, Seg-first_prev,
}
use goz.Index.EntryTable.Invariant.{All-imp}
use goz.Index.Children.Chain.Quiet.{
  Quiet, Quiet-refl, Quiet-trans, Quiet-child, Quiet-first, Children-Quiet,
}

pub unless_nil-nil : (i : EntryIdx) (t : EntryTable) (w : _) → i ≡ nil → unless_nil i t w ≡ some t
unfolding unless_nil
unless_nil-nil i t w e = ground (arith, e)

pub unless_nil-write : (i : EntryIdx) (t : EntryTable) (w : _) → i ≢ nil → unless_nil i t w ≡ w
unfolding unless_nil
unless_nil-write i t w ne = ground (arith, ne)

-- What the four writes of `link_under` come to.
link_child_run :
    (t t1 t2 t3 t4 : EntryTable) (idx p first : EntryIdx)
    → ParentOf t idx p
    → p ≢ nil
    → get_cell (λ s. s.first_child) t p ≡ some first
    → set_next_child t idx first ≡ some t1
    → set_prev_child t1 idx nil ≡ some t2
    → unless_nil first t2 (set_prev_child t2 first idx) ≡ some t3
    → set_first_child t3 p idx ≡ some t4
    → link_child t idx ≡ some t4
unfolding link_child link_under
link_child_run t t1 t2 t3 t4 idx p first pa ne e0 e1 e2 e3 e4 = >>=-some _ _ p pa (
    unless_nil-write p t (link_under t idx p) ne
    ∙ >>=-some _ _ first e0 (>>=-some _ _ t1 e1 (>>=-some _ _ t2 e2 (>>=-some _ _ t3 e3 e4))))

-- The head of the rest of a chain gets another predecessor, if there is one.
pub link_head :
    (t : EntryTable) (idx p prev first : EntryIdx) (xs : List EntryIdx) (last : EntryIdx)
    → NoDup xs
    → Seg t p prev first xs last nil
    → (t' : EntryTable) × (unless_nil first t (set_prev_child t first idx) ≡ some t')
      × (l : EntryIdx) × Seg t' p idx first xs l nil
      × Quiet p t t'
      × ((j : EntryIdx) → get_cell (λ s. s.next_child) t' j ≡ get_cell (λ s. s.next_child) t j)
      × ((j : EntryIdx) → get_cell (λ s. s.first_child) t' j ≡ get_cell (λ s. s.first_child) t j)
      × ((j : EntryIdx)
          → All (λ x. j ≢ x) xs
          → get_cell (λ s. s.prev_child) t' j ≡ get_cell (λ s. s.prev_child) t j)
      × ((before cur : EntryIdx) (zs : List EntryIdx) (l m : EntryIdx)
          → All (λ z. All (λ x. z ≢ x) xs) zs
          → Seg t p before cur zs l m
          → Seg t' p before cur zs l m)
unfolding set_prev_child
link_head t idx p prev first [] last nd (e, d) = (
  t,
  unless_nil-nil first t _ d,
  idx,
  (refl, d),
  Quiet-refl p t,
  λ j. refl,
  λ j. refl,
  λ j out. refl,
  λ before cur zs l m out h. h,
)
link_head t idx p prev first (y ∷ ys) last nd h =
    let (e, ne, pa, pr, next, nx, rest) = h in
    let f : Slot → Slot = λ s. record s { prev_child = idx } in
    let there = ap (get_cell (λ s. s.parent) t) e ∙ pa in
    let (t', d, w) = set_cell-Wrote (λ s. s.parent) f first t p there in
    let wy = subst (λ i. Wrote f i t t') e w in
    (
      t',
      unless_nil-write first t _ (λ z. ne (sym e ∙ z)) ∙ d,
      last,
      Seg-first_prev idx y t t' wy p prev first ys last nil nd.0 h,
      Quiet-child f p first t t' (λ s. refl) (λ s. refl) there w,
      get_cell_keep (λ s. s.next_child) f first t t' w (λ s. refl),
      get_cell_keep (λ s. s.first_child) f first t t' w (λ s. refl),
      λ j out. get_cell_ne (λ s. s.prev_child) f first t t' w j (λ z. out.0 (sym z ∙ e)),
      λ before cur zs l m out k.
          Seg-elsewhere f y t t' wy p before cur zs l m
            (All-imp _ _ zs (λ z g. λ same. g.0 (sym same)) out) k,
    )

-- Pushing an entry that has the parent `p` and is not yet in the chain of `p` succeeds: the children
-- of `p` are then the entry and the children that it had, in their order. The children of every other
-- parent stay as they were.
pub link_child-Children :
    (t : EntryTable) (idx p : EntryIdx) (xs : List EntryIdx)
    → ParentOf t idx p
    → p ≢ nil
    → idx ≢ nil
    → Children t p xs
    → NoDup (idx ∷ xs)
    → (t' : EntryTable) × (link_child t idx ≡ some t')
      × Children t' p (idx ∷ xs)
      × ((q : EntryIdx) (ys : List EntryIdx) → q ≢ p → Children t q ys → Children t' q ys)
unfolding set_next_child set_prev_child set_first_child
link_child-Children t idx p xs pa np ni (first, last, fi, h) nd =
    let fn : Slot → Slot = λ s. record s { next_child = first } in
    let fp : Slot → Slot = λ s. record s { prev_child = nil } in
    let ff : Slot → Slot = λ s. record s { first_child = idx } in
    let (t1, e1, w1) = set_cell-Wrote (λ s. s.parent) fn idx t p pa in
    let q1 = Quiet-child fn p idx t t1 (λ s. refl) (λ s. refl) pa w1 in
    let pa1 = q1.parents idx ∙ pa in
    let (t2, e2, w2) = set_cell-Wrote (λ s. s.parent) fp idx t1 p pa1 in
    let q2 = Quiet-child fp p idx t1 t2 (λ s. refl) (λ s. refl) pa1 w2 in
    let h1 = Seg-elsewhere fn idx t t1 w1 p nil first xs last nil nd.0 h in
    let h2 = Seg-elsewhere fp idx t1 t2 w2 p nil first xs last nil nd.0 h1 in
    let (t3, e3, l, h3, q3, kn, kf, kp, ks) = link_head t2 idx p nil first xs last nd.1 h2 in
    let fi3 =
      kf p
      ∙ (get_cell_keep (λ s. s.first_child) fp idx t1 t2 w2 (λ s. refl) p
          ∙ (get_cell_keep (λ s. s.first_child) fn idx t t1 w1 (λ s. refl) p ∙ fi)) in
    let (t4, e4, w4) = set_cell-Wrote (λ s. s.first_child) ff p t3 first fi3 in
    let q4 = Quiet-first idx p t3 t4 w4 in
    let q12 = Quiet-trans p t t1 t2 q1 q2 in
    let q = Quiet-trans p t t3 t4 (Quiet-trans p t t2 t3 q12 q3) q4 in
    let nx2 : NextOf t2 idx first =
      get_cell_keep (λ s. s.next_child) fp idx t1 t2 w2 (λ s. refl) idx
      ∙ get_cell_hit (λ s. s.next_child) fn idx t t1 w1 first (λ s. refl) in
    let pr2 : PrevOf t2 idx nil =
      get_cell_hit (λ s. s.prev_child) fp idx t1 t2 w2 nil (λ s. refl) in
    let pr4 =
      get_cell_keep (λ s. s.prev_child) ff p t3 t4 w4 (λ s. refl) idx ∙ (kp idx nd.0 ∙ pr2) in
    let nx4 = get_cell_keep (λ s. s.next_child) ff p t3 t4 w4 (λ s. refl) idx ∙ (kn idx ∙ nx2) in
    let h4 = Seg-Plain ff p t3 t4 w4 (λ s. (refl, refl, refl)) p idx first xs l nil h3 in
    (
      t4,
      link_child_run t t1 t2 t3 t4 idx p first pa np fi e1 e2 e3 e4,
      (
        idx,
        l,
        get_cell_hit (λ s. s.first_child) ff p t3 t4 w4 idx (λ s. refl),
        (refl, ni, q.parents idx ∙ pa, pr4, first, nx4, h4),
      ),
      λ q' ys ne k. Children-Quiet p q' ys t t4 ne q k,
    )
