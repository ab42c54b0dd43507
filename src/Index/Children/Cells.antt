-- ===== src/Index/Children/Cells.antt =====
-- crates/goz-core/src/index/store.rs: reading the cells of entries after one cell was written.
use goz.Prelude.{
  ℕ, ◌≡◌, ◌≢◌, ◌⊎◌, inl, inr, refl, sym, ap, ◌∙◌, Option, none, some, get_elem?, set,
  get_elem?-set_self, get_elem?-set_ne, arith,
}
use goz.Types.{EntryIdx}
use goz.Index.EntryTable.{Slot, EntryTable, get_cell, set_cell}
use goz.Index.EntryTable.Count.{get_elem?-lt}
use mathlib.Core.Option

-- `t'` is `t` with the slot at `i` changed by `f`.
abbrev pub Wrote : (Slot → Slot) → EntryIdx → EntryTable → EntryTable → Type 0
Wrote f i t t' = (s : Slot) × (get_elem? t.slots i ≡ some s) × (t'.slots ≡ set t.slots i (f s))

cell_slot :
    {A : Type 0} (g : Slot → A) (o : Option Slot) (a : A)
    → Option.map g o ≡ some a
    → (s : Slot) × (o ≡ some s)
cell_slot g none a h = absurd (ground (arith, h))
cell_slot g (some s) a h = (s, refl)

eq_or_ne : (i j : ℕ) → (i ≡ j) ⊎ (i ≢ j)
eq_or_ne i j = ground arith

module _ {A : Type 0} (g : Slot → A) (f : Slot → Slot) (i : EntryIdx) (t : EntryTable) where
  -- A slot that can be read can be written.
  pub set_cell-Wrote :
      (a : A)
      → get_cell g t i ≡ some a
      → (t' : EntryTable) × (set_cell f t i ≡ some t') × Wrote f i t t'
  unfolding get_cell set_cell
  set_cell-Wrote a h =
      let (s, e) = cell_slot g (get_elem? t.slots i) a h in
      (record t { slots = set t.slots i (f s) }, rw (e, set_cell) refl, (s, e, refl))

  module _ (t' : EntryTable) (w : Wrote f i t t') where
    pub get_cell_ne : (j : EntryIdx) → i ≢ j → get_cell g t' j ≡ get_cell g t j
    unfolding get_cell
    get_cell_ne j ne =
        let (s, e, d) = w in
        ap (λ slots. Option.map g (get_elem? slots j)) d
        ∙ ap (Option.map g) (get_elem?-set_ne t.slots i j (f s) ne)

    wrote_self : get_elem? t'.slots i ≡ some (f w.0)
    wrote_self =
        let (s, e, d) = w in
        ap (λ slots. get_elem? slots i) d
        ∙ get_elem?-set_self t.slots i (f s) (get_elem?-lt t.slots i s e)

    pub get_cell_hit : (a : A) → ((s : Slot) → g (f s) ≡ a) → get_cell g t' i ≡ some a
    unfolding get_cell
    get_cell_hit a k = ap (Option.map g) wrote_self ∙ ap some (k w.0)

    -- A cell that the write does not touch.
    pub get_cell_keep :
        ((s : Slot) → g (f s) ≡ g s) → (j : EntryIdx) → get_cell g t' j ≡ get_cell g t j
    unfolding get_cell
    get_cell_keep k j = elim (eq_or_ne i j) [
      | inl same ↦
          rw (sym same)
            (ap (Option.map g) wrote_self ∙ ap some (k w.0) ∙ sym (ap (Option.map g) w.1))
      | inr ne ↦ get_cell_ne j ne
    ]
