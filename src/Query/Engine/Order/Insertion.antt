-- ===== src/Query/Engine/Order/Insertion.antt =====
-- crates/goz-core/src/query/engine.rs: a sort and a selection for the tests, which do what the standard
-- library documents of its own.
use goz.Prelude.{
  suc, ◌≡◌, refl, sym, ap, ◌∙◌, subst, Option, none, some, List, [], ◌∷◌, ◌++◌, arith, ◌⊎◌, inl,
  inr, take, drop, take-append-drop,
}
use mathlib.Core.HLevel.{¬_prop}
use mathlib.Core.List.{
  Mem, Perm, Pairwise, mem-cons_self, mem-cons_of_mem, Pairwise-append, Pairwise-singleton,
  forall_mem-cons,
}
use mathlib.Core.List.Pairwise
use mathlib.Core.List.Perm
use goz.Query.Engine.Order.{Candidate, Ordering, less, equal, greater, reverse, Sort, Select}
use goz.Query.Engine.Order.Total.{IsOrder}
use goz.Query.Engine.Order.Sorted.{NotAbove, Ascends, Sorts, Selects}

abbrev Order : Type 0
Order = Candidate → Candidate → Ordering

place : Ordering → Candidate → Candidate → List Candidate → List Candidate → List Candidate
place greater a b l rest = b ∷ rest
place _ a b l rest = a ∷ b ∷ l

unfoldable insert_by : Order → Candidate → List Candidate → List Candidate
insert_by f a [] = a ∷ []
insert_by f a (b ∷ l) = place (f a b) a b l (insert_by f a l)

unfoldable sort_by : Order → List Candidate → List Candidate
sort_by f [] = []
sort_by f (a ∷ l) = insert_by f a (sort_by f l)

place-Perm :
    (o : Ordering) (a b : Candidate) (l rest : List Candidate)
    → Perm rest (a ∷ l)
    → Perm (place o a b l rest) (a ∷ b ∷ l)
unfolding place
place-Perm less a b l rest p = Perm.rfl
place-Perm equal a b l rest p = Perm.rfl
place-Perm greater a b l rest p = Perm.trans (Perm.cons b p) (Perm.swap a b l)

insert_by-Perm : (f : Order) (a : Candidate) (l : List Candidate) → Perm (insert_by f a l) (a ∷ l)
unfolding insert_by
insert_by-Perm f a [] = Perm.rfl
insert_by-Perm f a (b ∷ l) = place-Perm (f a b) a b l (insert_by f a l) (insert_by-Perm f a l)

sort_by-Perm : (f : Order) (l : List Candidate) → Perm (sort_by f l) l
unfolding sort_by
sort_by-Perm f [] = Perm.rfl
sort_by-Perm f (a ∷ l) =
    Perm.trans (insert_by-Perm f a (sort_by f l)) (Perm.cons a (sort_by-Perm f l))

Ordering-cases : (o : Ordering) → (o ≡ less) ⊎ ((o ≡ equal) ⊎ (o ≡ greater))
Ordering-cases less = inl refl
Ordering-cases equal = inr (inl refl)
Ordering-cases greater = inr (inr refl)

module _ (f : Order) (h : IsOrder f) where
  less-NotAbove : (a b c : Candidate) → f a b ≡ less → NotAbove f b c → NotAbove f a c
  less-NotAbove a b c e n d = elim (Ordering-cases (f b c)) [
    | inl m ↦ absurd (ground (arith, h.trans a b c e m, d))
    | inr (inl m) ↦
        let at : f a b ≡ greater = subst (λ x. f a x ≡ greater) (sym (h.same b c m)) d in
        absurd (ground (arith, e, at))
    | inr (inr m) ↦ n m
  ]

  NotAbove-trans : (a b c : Candidate) → NotAbove f a b → NotAbove f b c → NotAbove f a c
  NotAbove-trans a b c n m = elim (Ordering-cases (f a b)) [
    | inl e ↦ less-NotAbove a b c e m
    | inr (inl e) ↦ subst (λ x. NotAbove f x c) (sym (h.same a b e)) m
    | inr (inr e) ↦ absurd (n e)
  ]

  turned : (a b : Candidate) → f a b ≡ greater → NotAbove f b a
  unfolding reverse
  turned a b e d =
      let flipped : f b a ≡ less = h.flip a b ∙ ap reverse e in ground (arith, d, flipped)

  below-cons :
      (a b : Candidate) (l : List Candidate)
      → NotAbove f a b
      → ((x : Candidate) → Mem x l → NotAbove f a x)
      → (x : Candidate) → Mem x (b ∷ l)
      → NotAbove f a x
  below-cons a b l n below = (forall_mem-cons (λ x. ¬_prop)).1 (n, below)

  front-Ascends :
      (a b : Candidate) (l : List Candidate)
      → NotAbove f a b
      → Ascends f (b ∷ l)
      → Ascends f (a ∷ b ∷ l)
  front-Ascends a b l n (Pairwise.cons below s) =
      Pairwise.cons (below-cons a b l n (λ x m. NotAbove-trans a b x n (below x m)))
        (Pairwise.cons below s)

  place-Ascends :
      (o : Ordering) (a b : Candidate) (l rest : List Candidate)
      → f a b ≡ o
      → Ascends f (b ∷ l)
      → Ascends f rest
      → Perm rest (a ∷ l)
      → Ascends f (place o a b l rest)
  unfolding place
  place-Ascends less a b l rest e s t p = front-Ascends a b l (λ d. ground (arith, e, d)) s
  place-Ascends equal a b l rest e s t p = front-Ascends a b l (λ d. ground (arith, e, d)) s
  place-Ascends greater a b l rest e (Pairwise.cons below s) t p =
      Pairwise.cons (λ x m. below-cons b a l (turned a b e) below x ((Perm.mem_iff p).0 m)) t

  insert_by-Ascends :
      (a : Candidate) (l : List Candidate) → Ascends f l → Ascends f (insert_by f a l)
  unfolding insert_by
  insert_by-Ascends a [] s = Pairwise-singleton _ a
  insert_by-Ascends a (b ∷ l) s =
      place-Ascends (f a b) a b l (insert_by f a l) refl s
        (insert_by-Ascends a l (Pairwise.of_cons s)) (insert_by-Perm f a l)

  sort_by-Ascends : (l : List Candidate) → Ascends f (sort_by f l)
  unfolding sort_by
  sort_by-Ascends [] = Pairwise.nil
  sort_by-Ascends (a ∷ l) = insert_by-Ascends a (sort_by f l) (sort_by-Ascends l)

-- Two orders that agree on the candidates sort them alike.
insert_by-eq :
    (f g : Order) (a : Candidate) (l : List Candidate)
    → ((b : Candidate) → Mem b l → g a b ≡ f a b)
    → insert_by g a l ≡ insert_by f a l
unfolding insert_by
insert_by-eq f g a [] e = refl
insert_by-eq f g a (b ∷ l) e =
    ap (λ o. place o a b l (insert_by g a l)) (e b mem-cons_self)
    ∙ ap (place (f a b) a b l) (insert_by-eq f g a l (λ c m. e c (mem-cons_of_mem b m)))

sort_by-eq :
    (f g : Order) (l : List Candidate)
    → ((a b : Candidate) → Mem a l → Mem b l → g a b ≡ f a b)
    → sort_by g l ≡ sort_by f l
unfolding sort_by
sort_by-eq f g [] e = refl
sort_by-eq f g (a ∷ l) e =
    ap (insert_by g a)
      (sort_by-eq f g l (λ b c m n. e b c (mem-cons_of_mem a m) (mem-cons_of_mem a n)))
    ∙ insert_by-eq f g a (sort_by f l)
        (λ b m. e a b mem-cons_self (mem-cons_of_mem a ((Perm.mem_iff (sort_by-Perm f l)).0 m)))

answer : Option Ordering → Ordering
answer none = equal
answer (some o) = o

pub insertion : Sort
insertion cmp cands = some (sort_by (λ a b. answer (cmp a b)) cands)

pub insertion_select : Select
insertion_select n cmp cands = insertion cmp cands

pub insertion-Sorts : Sorts insertion
unfolding insertion answer
insertion-Sorts cmp f cands h agrees = (
  sort_by f cands,
  ap some (sort_by-eq f (λ a b. answer (cmp a b)) cands (λ a b m n. ap answer (agrees a b m n))),
  sort_by-Perm f cands,
  sort_by-Ascends f h cands,
)

pub insertion_select-Selects : Selects insertion_select
unfolding insertion_select
insertion_select-Selects n cmp f cands h agrees lt =
    let (out, at, p, s) = insertion-Sorts cmp f cands h agrees in
    let parts : Ascends f (take (suc n) out ++ drop (suc n) out) =
      subst (Ascends f) (sym (take-append-drop (suc n) out)) s in
    let cut = (Pairwise-append (λ a b. ¬_prop)).0 parts in (out, at, p, λ a m b k. cut.2 a m b k)
