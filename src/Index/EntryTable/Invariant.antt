-- ===== src/Index/EntryTable/Invariant.antt =====
-- crates/goz-core/src/index/store.rs: what every table built by the operations is.
use goz.Prelude.{
  ℕ, ◌+◌, ◌-◌, ◌≡◌, ◌≢◌, refl, sym, ap, ◌∙◌, Bool, true, false, some, List, [], ◌∷◌, ◌++◌, length,
  get_elem?, set, All, length-set, length-append, get_elem?-set_self, get_elem?-set_ne,
  get_elem?-append_left, arith,
}
use goz.Types.{EntryIdx}
use goz.Index.EntryTable.{contains, Slot, EntryTable, new, place, bury, is_dead}
use goz.Index.EntryTable.Count.{weight, live_count, live_count-append, live_count-set, get_elem?-lt}

abbrev NoDup : List ℕ → Type 0
NoDup [] = Unit
NoDup (x ∷ xs) = All (λ y. x ≢ y) xs × NoDup xs

-- Index `i` is that of a slot whose deadness is `b`.
abbrev pub Holds : List Slot → Bool → ℕ → Type 0
Holds slots b i = (s : Slot) × (get_elem? slots i ≡ some s) × (is_dead s ≡ b)

-- The free list names dead slots, none twice, and as many as there are; `live` counts the others.
pub record IsValid (t : EntryTable) : Type 0 where
  pub dead : All (Holds t.slots true) t.free
  pub distinct : NoDup t.free
  pub counted : t.live ≡ live_count t.slots
  pub complete : t.live + length t.free ≡ length t.slots

pub new-IsValid : IsValid new
unfolding new
new-IsValid = record { dead = tt; distinct = tt; counted = refl; complete = omega arith }

module _ (P Q : ℕ → Type 0) where
  pub All-imp : (xs : List ℕ) → ((x : ℕ) → P x → Q x) → All P xs → All Q xs
  All-imp [] f h = tt
  All-imp (x ∷ xs) f h = (f x h.0, All-imp xs f h.1)

  All-both : (xs : List ℕ) → All P xs → All Q xs → All (λ x. P x × Q x) xs
  All-both [] h k = tt
  All-both (x ∷ xs) h k = ((h.0, k.0), All-both xs h.1 k.1)

-- A write elsewhere, or at the end, leaves a slot as it was.
pub Holds-set :
    (slots : List Slot) (i j : ℕ) (s : Slot) (b : Bool)
    → i ≢ j
    → Holds slots b j
    → Holds (set slots i s) b j
Holds-set slots i j s b ne (x, e, d) = (x, get_elem?-set_ne slots i j s ne ∙ e, d)

pub Holds-append :
    (slots : List Slot) (s : Slot) (b : Bool) (j : ℕ)
    → Holds slots b j
    → Holds (slots ++ s ∷ []) b j
Holds-append slots s b j (x, e, d) =
    (x, get_elem?-append_left slots (s ∷ []) j (get_elem?-lt slots j x e) ∙ e, d)

-- A dead slot is not one that is not dead.
pub ne_dead :
    (slots : List Slot) (i : ℕ) (s : Slot) (j : ℕ)
    → get_elem? slots i ≡ some s
    → is_dead s ≡ false
    → Holds slots true j
    → i ≢ j
ne_dead slots i s j e d (x, f, dx) same =
    let g : some s ≡ some x = sym e ∙ ap (get_elem? slots) same ∙ f in ground (arith, g, d, dx)

pub place-IsValid :
    (free : List EntryIdx) (slots : List Slot) (live : ℕ) (s : Slot)
    → is_dead s ≡ false
    → IsValid (record { slots = slots; free = free; live = live })
    → IsValid (place free slots live s).0
unfolding place
place-IsValid [] slots live s d v = record {
  dead = tt;
  distinct = tt;
  counted =
      let w : weight (is_dead s) ≡ 1 = ap weight d in
      omega (arith, live_count-append slots s, v.counted, w);
  complete = omega (arith, length-append slots (s ∷ []), v.complete);
}
place-IsValid (idx ∷ free) slots live s d v =
    let (x, e, dx) = v.dead.0 in
    record {
      dead =
          All-imp _ _ free (λ j h. Holds-set slots idx j s true h.0 h.1)
            (All-both _ _ free v.distinct.0 v.dead.1);
      distinct = v.distinct.1;
      counted =
          let w : weight (is_dead s) ≡ 1 = ap weight d in
          let w' : weight (is_dead x) ≡ 0 = ap weight dx in
          omega (arith, live_count-set slots idx x s e, v.counted, w, w');
      complete = omega (arith, length-set slots idx s, v.complete);
    }

pub bury-is_dead : (s : Slot) → is_dead (bury s) ≡ true
unfolding is_dead bury contains
bury-is_dead s = refl

-- What `tombstone` makes of a table at a slot that is not dead.
unfoldable pub buried : EntryTable → EntryIdx → Slot → EntryTable
buried t idx s = record { slots = set t.slots idx (bury s); free = idx ∷ t.free; live = t.live - 1 }

pub buried-IsValid :
    (t : EntryTable) (idx : EntryIdx) (s : Slot)
    → get_elem? t.slots idx ≡ some s
    → is_dead s ≡ false
    → IsValid t
    → IsValid (buried t idx s)
unfolding buried
buried-IsValid t idx s e d v =
    let w : weight (is_dead s) ≡ 1 = ap weight d in
    let w' : weight (is_dead (bury s)) ≡ 0 = ap weight (bury-is_dead s) in
    let c = live_count-set t.slots idx s (bury s) e in
    let others = All-imp _ _ t.free (λ j h. ne_dead t.slots idx s j e d h) v.dead in
    record {
      dead = (
        (
          bury s,
          get_elem?-set_self t.slots idx (bury s) (get_elem?-lt t.slots idx s e),
          bury-is_dead s,
        ),
        All-imp _ _ t.free (λ j h. Holds-set t.slots idx j (bury s) true h.0 h.1)
            (All-both _ _ t.free others v.dead),
      );
      distinct = (others, v.distinct);
      counted = omega (arith, c, v.counted, w, w');
      complete = omega (arith, length-set t.slots idx (bury s), v.complete, c, v.counted, w, w');
    }

pub set_cell-IsValid :
    (t : EntryTable) (idx : EntryIdx) (s s' : Slot)
    → get_elem? t.slots idx ≡ some s
    → is_dead s ≡ false
    → is_dead s' ≡ false
    → IsValid t
    → IsValid (record t { slots = set t.slots idx s' })
set_cell-IsValid t idx s s' e d d' v =
    let w : weight (is_dead s) ≡ 1 = ap weight d in
    let w' : weight (is_dead s') ≡ 1 = ap weight d' in
    record {
      dead =
          All-imp _ _ t.free
            (λ j h. Holds-set t.slots idx j s' true (ne_dead t.slots idx s j e d h) h) v.dead;
      distinct = v.distinct;
      counted = omega (arith, live_count-set t.slots idx s s' e, v.counted, w, w');
      complete = omega (arith, length-set t.slots idx s', v.complete);
    }
