-- ===== src/Index/EntryTable/Count.antt =====
-- crates/goz-core/src/index/store.rs: how many slots are not dead, and how writes change that.
use goz.Prelude.{
  ℕ, zero, suc, ◌+◌, ◌<◌, ◌≡◌, inl, inr, refl, Bool, true, false, some, List, [], ◌∷◌, ◌++◌,
  Bool-cases, length, get_elem?, set, arith,
}
use goz.Index.EntryTable.{Slot, is_dead, live_from}

abbrev pub weight : Bool → ℕ
weight true = 0
weight false = 1

abbrev pub live_count : List Slot → ℕ
live_count [] = 0
live_count (s ∷ slots) = weight (is_dead s) + live_count slots

pub length-live_from :
    (slots : List Slot) (base : ℕ) → length (live_from base slots) ≡ live_count slots
unfolding live_from
length-live_from [] base = refl
length-live_from (s ∷ slots) base = elim (Bool-cases (is_dead s)) [
  | inl e ↦ rw e (omega (arith, length-live_from slots (suc base)))
  | inr e ↦ rw e (omega (arith, length-live_from slots (suc base)))
]

pub live_count-append :
    (slots : List Slot) (s : Slot)
    → live_count (slots ++ s ∷ []) ≡ live_count slots + weight (is_dead s)
live_count-append [] s = omega arith
live_count-append (x ∷ slots) s = omega (arith, live_count-append slots s)

pub live_count-set :
    (slots : List Slot) (i : ℕ) (s s' : Slot)
    → get_elem? slots i ≡ some s
    → live_count (set slots i s') + weight (is_dead s) ≡ live_count slots + weight (is_dead s')
live_count-set [] i s s' h = ground (arith, h)
live_count-set (x ∷ slots) zero s s' h = let e : x ≡ s = ground (arith, h) in rw e (omega arith)
live_count-set (x ∷ slots) (suc i) s s' h = omega (arith, live_count-set slots i s s' h)

pub get_elem?-lt :
    {A : Type 0} (xs : List A) (i : ℕ) (a : A) → get_elem? xs i ≡ some a → i < length xs
get_elem?-lt [] i a h = ground (arith, h)
get_elem?-lt (x ∷ xs) zero a h = omega arith
get_elem?-lt (x ∷ xs) (suc i) a h = omega (arith, get_elem?-lt xs i a h)
