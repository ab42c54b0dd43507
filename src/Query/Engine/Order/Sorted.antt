-- ===== src/Query/Engine/Order/Sorted.antt =====
-- crates/goz-core/src/query/engine.rs: what the standard library documents of its sorts, and why an order
-- of candidates has one result.
use goz.Prelude.{
  ℕ, suc, ◌<◌, ◌≡◌, ◌≢◌, refl, ap, ◌∙◌, subst, ◌++◌, Option, some, List, [], ◌∷◌, arith, length,
  take, drop,
}
use mathlib.Core.HLevel.{¬_prop}
use mathlib.Core.Logic.{∥∥₁_elim}
use mathlib.Core.List.{Mem, Perm, Permᴰ, Pairwise, mem-cons_self, Pairwise-append, forall_mem-cons}
use mathlib.Core.List.Pairwise
use mathlib.Core.List.Perm
use native.Mathlib.Nat.{ℕ_set}
use goz.Query.Engine.Order.{Candidate, Ordering, less, equal, greater, reverse, Sort, Select}
use goz.Query.Engine.Order.Total.{IsOrder}

same_length : {out cands : List Candidate} → Permᴰ out cands → length out ≡ length cands
same_length Permᴰ.nil = refl
same_length (Permᴰ.swap _ _) = omega arith
same_length (Permᴰ.cons _ d) = omega (arith, same_length d)
same_length (Permᴰ.trans d e) = omega (arith, same_length d, same_length e)

pub Perm-length : {out cands : List Candidate} → Perm out cands → length out ≡ length cands
Perm-length p = ∥∥₁_elim p (ℕ_set _ _) same_length

-- Neighbours that do not compare greater, in an order of candidates.
abbrev pub NotAbove : (Candidate → Candidate → Ordering) → Candidate → Candidate → Type 0
NotAbove f a b = f a b ≢ greater

abbrev pub Ascends : (Candidate → Candidate → Ordering) → List Candidate → Type 0
Ascends f = Pairwise (NotAbove f)

-- The comparison of a sort does not panic on these candidates, and gives the order.
abbrev pub Agrees :
    (Candidate → Candidate → Option Ordering)
    → (Candidate → Candidate → Ordering)
    → List Candidate
    → Type 0
Agrees cmp f cands = (a b : Candidate) → Mem a cands → Mem b cands → cmp a b ≡ some (f a b)

-- What the standard library documents of a sort by a total order: it rearranges, and the result ascends.
abbrev pub Sorts : Sort → Type 0
Sorts sort =
    (cmp : Candidate → Candidate → Option Ordering) (f : Candidate → Candidate → Ordering)
    (cands : List Candidate)
    → IsOrder f
    → Agrees cmp f cands
    → (out : List Candidate) × (sort cmp cands ≡ some out) × Perm out cands × Ascends f out

-- What it documents of `select_nth_unstable_by`: it rearranges, and nothing up to the place `n` is above
-- what comes after it.
abbrev pub Selects : Select → Type 0
Selects select =
    (n : ℕ) (cmp : Candidate → Candidate → Option Ordering) (f : Candidate → Candidate → Ordering)
    (cands : List Candidate)
    → IsOrder f
    → Agrees cmp f cands
    → n < length cands
    → (out : List Candidate) × (select n cmp cands ≡ some out)
      × Perm out cands
      × ((a : Candidate)
          → Mem a (take (suc n) out)
          → (b : Candidate) → Mem b (drop (suc n) out)
          → NotAbove f a b)

module _ (f : Candidate → Candidate → Ordering) (h : IsOrder f) where
  antisym : (a b : Candidate) → NotAbove f a b → NotAbove f b a → a ≡ b
  unfolding reverse
  antisym a b n m = h.same a b (between (f a b) n (subst (λ o. o ≢ greater) (h.flip a b) m))
    where
      between : (o : Ordering) → o ≢ greater → reverse o ≢ greater → o ≡ equal
      between less n m = absurd (m refl)
      between equal n m = refl
      between greater n m = absurd (n refl)

  NotAbove-self : (a : Candidate) → NotAbove f a a
  unfolding reverse
  NotAbove-self a e = absurd (turned (f a a) e (h.flip a a))
    where
      turned : (o : Ordering) → o ≡ greater → o ≡ reverse o → ⊥
      turned less e d = ground (arith, e)
      turned equal e d = ground (arith, e)
      turned greater e d = ground (arith, d)

  first_below :
      {a : Candidate} {l : List Candidate}
      → Ascends f (a ∷ l)
      → (x : Candidate) → Mem x (a ∷ l)
      → NotAbove f a x
  first_below {a} (Pairwise.cons below rest) =
      (forall_mem-cons (λ x. ¬_prop)).1 (NotAbove-self a, below)

  heads_same :
      {a b : Candidate} {l r : List Candidate}
      → Ascends f (a ∷ l)
      → Ascends f (b ∷ r)
      → Perm (a ∷ l) (b ∷ r)
      → a ≡ b
  heads_same {a} {b} sl sr p =
      antisym a b (first_below sl b ((Perm.mem_iff p).1 mem-cons_self))
        (first_below sr a ((Perm.mem_iff p).0 mem-cons_self))

  -- There is one way to put candidates in order.
  pub Ascends-unique : (l r : List Candidate) → Ascends f l → Ascends f r → Perm l r → l ≡ r
  Ascends-unique [] r sl sr p = Perm.nil-eq p
  Ascends-unique (a ∷ l) [] sl sr p = Perm.eq-nil p
  Ascends-unique (a ∷ l) (b ∷ r) sl sr p =
      let first = heads_same sl sr p in
      let moved : Perm (b ∷ l) (b ∷ r) = subst (λ x. Perm (x ∷ l) (b ∷ r)) first p in
      let rest =
        Ascends-unique l r (Pairwise.of_cons sl) (Pairwise.of_cons sr) (Perm.cons_inv moved) in
      ap (λ x. x ∷ l) first ∙ ap (◌∷◌ b) rest

  -- Two ascending parts, the second not below the first, are all of it in order.
  pub parts-whole :
      (top rest part1 part2 whole : List Candidate)
      → Ascends f top
      → Ascends f rest
      → Ascends f whole
      → Perm top part1
      → Perm rest part2
      → Perm whole (part1 ++ part2)
      → ((a : Candidate) → Mem a part1 → (b : Candidate) → Mem b part2 → NotAbove f a b)
      → top ++ rest ≡ whole
  parts-whole top rest part1 part2 whole st sr sw pt pr pw cut =
      Ascends-unique (top ++ rest) whole
        ((Pairwise-append (λ a b. ¬_prop)).1
          (st, sr, λ a m b n. cut a ((Perm.mem_iff pt).0 m) b ((Perm.mem_iff pr).0 n)))
        sw (Perm.trans (Perm.append pt pr) (Perm.symm pw))
