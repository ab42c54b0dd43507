-- ===== src/Index/Children/Chain/Quiet.antt =====
-- crates/goz-core/src/index/volume.rs: writes below one parent, which leave the other parents alone.
use goz.Prelude.{◌≡◌, ◌≢◌, refl, sym, ◌∙◌, List}
use goz.Types.{EntryIdx, nil}
use goz.Index.EntryTable.{Slot, EntryTable, get_cell}
use goz.Index.Children.Cells.{Wrote, get_cell_ne, get_cell_keep}
use goz.Index.Children.Chain.{ParentOf, Seg, Children, Seg-Plain, Seg-elsewhere, Seg-other_parent}

-- From `t` to `t'` no parent changes, nor any chain but that of `p`.
pub record Quiet (p : EntryIdx) (t t' : EntryTable) : Type 0 where
  pub segs :
      (q prev cur : EntryIdx) (xs : List EntryIdx) (last stop : EntryIdx)
      → q ≢ p
      → Seg t q prev cur xs last stop
      → Seg t' q prev cur xs last stop
  pub firsts :
      (q : EntryIdx)
      → q ≢ p
      → get_cell (λ s. s.first_child) t' q ≡ get_cell (λ s. s.first_child) t q
  pub parents : (i : EntryIdx) → get_cell (λ s. s.parent) t' i ≡ get_cell (λ s. s.parent) t i

pub Quiet-refl : (p : EntryIdx) (t : EntryTable) → Quiet p t t
Quiet-refl p t = record {
  segs = λ q prev cur xs last stop ne h. h;
  firsts = λ q ne. refl;
  parents = λ i. refl;
}

pub Quiet-trans : (p : EntryIdx) (t u v : EntryTable) → Quiet p t u → Quiet p u v → Quiet p t v
Quiet-trans p t u v a b = record {
  segs = λ q prev cur xs last stop ne h.
      b.segs q prev cur xs last stop ne (a.segs q prev cur xs last stop ne h);
  firsts = λ q ne. b.firsts q ne ∙ a.firsts q ne;
  parents = λ i. b.parents i ∙ a.parents i;
}

-- A child's links.
pub Quiet-child :
    (f : Slot → Slot) (p i : EntryIdx) (t t' : EntryTable)
    → ((s : Slot) → (f s).parent ≡ s.parent)
    → ((s : Slot) → (f s).first_child ≡ s.first_child)
    → ParentOf t i p
    → Wrote f i t t'
    → Quiet p t t'
Quiet-child f p i t t' kp kf pi w = record {
  segs = λ q prev cur xs last stop ne h.
      Seg-elsewhere f i t t' w q prev cur xs last stop
        (Seg-other_parent t p q i prev cur xs last stop pi ne h) h;
  firsts = λ q ne. get_cell_keep (λ s. s.first_child) f i t t' w kf q;
  parents = λ j. get_cell_keep (λ s. s.parent) f i t t' w kp j;
}

-- The head of the chain.
pub Quiet-first :
    (c p : EntryIdx) (t t' : EntryTable)
    → Wrote (λ s. record s { first_child = c }) p t t'
    → Quiet p t t'
Quiet-first c p t t' w =
    let f : Slot → Slot = λ s. record s { first_child = c } in
    record {
      segs = λ q prev cur xs last stop ne h.
          Seg-Plain f p t t' w (λ s. (refl, refl, refl)) q prev cur xs last stop h;
      firsts = λ q ne. get_cell_ne (λ s. s.first_child) f p t t' w q (λ same. ne (sym same));
      parents = λ j. get_cell_keep (λ s. s.parent) f p t t' w (λ s. refl) j;
    }

pub Children-Quiet :
    (p q : EntryIdx) (xs : List EntryIdx) (t t' : EntryTable)
    → q ≢ p
    → Quiet p t t'
    → Children t q xs
    → Children t' q xs
Children-Quiet p q xs t t' ne k (first, last, e, h) =
    (first, last, k.firsts q ne ∙ e, k.segs q nil first xs last nil ne h)
