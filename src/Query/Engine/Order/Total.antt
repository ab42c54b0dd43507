-- ===== src/Query/Engine/Order/Total.antt =====
-- crates/goz-core/src/query/engine.rs: the order of candidates is total.
use goz.Prelude.{ℕ, ◌≡◌, refl, sym, ap, ◌∙◌, subst, some, List, [], ◌∷◌, arith, ◌⊎◌, inl, inr}
use goz.Prelude.Options.{>>=-some}
use goz.Types.{EntryIdx, SortSpec, SortDir, asc, desc}
use goz.Wtf8.Lossy.{same_bytes}
use goz.Index.NameStore.Slices.{same_bytes_eq}
use goz.Index.NameStore.Order.{bytes_lt}
use goz.Index.NameStore.Order.Live.{bytes_lt_trans}
use goz.Index.Volume.{VolumeIndex}
use goz.Query.Engine.Order.{
  Candidate, Ordering, less, equal, greater, reverse, cmp_num, cmp_bytes, folded_name, then_with,
  by_name, directed, cmp_candidate,
}

reverse_twice : (o : Ordering) → reverse (reverse o) ≡ o
unfolding reverse
reverse_twice less = refl
reverse_twice equal = refl
reverse_twice greater = refl

-- A comparison that tells any two values apart and is an order.
pub record IsOrder {A : Type 0} (cmp : A → A → Ordering) : Type 0 where
  pub flip : (a b : A) → cmp b a ≡ reverse (cmp a b)
  pub same : (a b : A) → cmp a b ≡ equal → a ≡ b
  pub trans : (a b c : A) → cmp a b ≡ less → cmp b c ≡ less → cmp a c ≡ less

cmp_num-IsOrder : IsOrder cmp_num
unfolding cmp_num reverse
cmp_num-IsOrder = record {
  flip = λ a b. ground arith;
  same = λ a b e. ground (arith, e);
  trans = λ a b c e d. ground (arith, e, d);
}

cmp_bytes_flip : (a b : List ℕ) → cmp_bytes b a ≡ reverse (cmp_bytes a b)
unfolding cmp_bytes bytes_lt same_bytes reverse
cmp_bytes_flip [] [] = refl
cmp_bytes_flip [] (y ∷ b) = refl
cmp_bytes_flip (x ∷ a) [] = refl
cmp_bytes_flip (x ∷ a) (y ∷ b) = ground (arith, cmp_bytes_flip a b)

cmp_bytes_same : (a b : List ℕ) → cmp_bytes a b ≡ equal → a ≡ b
unfolding cmp_bytes
cmp_bytes_same a b e = same_bytes_eq a b (ground (arith, e))

cmp_bytes_trans :
    (a b c : List ℕ) → cmp_bytes a b ≡ less → cmp_bytes b c ≡ less → cmp_bytes a c ≡ less
unfolding cmp_bytes reverse
cmp_bytes_trans a b c e d =
    let turned = cmp_bytes_flip a b in
    let step = bytes_lt_trans a b c in ground (arith, e, d, turned, step)

cmp_bytes-IsOrder : IsOrder cmp_bytes
cmp_bytes-IsOrder = record { flip = cmp_bytes_flip; same = cmp_bytes_same; trans = cmp_bytes_trans }

-- One comparison, and another where it sees no difference.
abbrev lex : Ordering → Ordering → Ordering
lex less next = less
lex equal next = next
lex greater next = greater

lex-reverse : (o p : Ordering) → lex (reverse o) (reverse p) ≡ reverse (lex o p)
unfolding reverse
lex-reverse less p = refl
lex-reverse equal p = refl
lex-reverse greater p = refl

lex_equal : (o p : Ordering) → lex o p ≡ equal → (o ≡ equal) × (p ≡ equal)
lex_equal less p e = absurd (ground (arith, e))
lex_equal equal p e = (refl, e)
lex_equal greater p e = absurd (ground (arith, e))

lex_less : (o p : Ordering) → lex o p ≡ less → (o ≡ less) ⊎ ((o ≡ equal) × (p ≡ less))
lex_less less p e = inl refl
lex_less equal p e = inr (refl, e)
lex_less greater p e = absurd (ground (arith, e))

module _ {A : Type 0} {B : Type 0} (f : A → A → Ordering) (g : B → B → Ordering) where
  abbrev both : A × B → A × B → Ordering
  both a b = lex (f a.0 b.0) (g a.1 b.1)

  both_same : IsOrder f → IsOrder g → (a b : A × B) → both a b ≡ equal → a ≡ b
  both_same hf hg a b e =
      let (d, c) = lex_equal (f a.0 b.0) (g a.1 b.1) e in
      ap (λ x. (x, a.1)) (hf.same a.0 b.0 d) ∙ ap (λ y. (b.0, y)) (hg.same a.1 b.1 c)

  both_trans :
      IsOrder f → IsOrder g → (a b c : A × B) → both a b ≡ less → both b c ≡ less → both a c ≡ less
  both_trans hf hg a b c e d = elim (lex_less _ _ e) [
    | inl l ↦ elim (lex_less _ _ d) [
      | inl m ↦ rw (hf.trans a.0 b.0 c.0 l m) refl
      | inr (m, n) ↦
          let at : f a.0 c.0 ≡ less = subst (λ x. f a.0 x ≡ less) (hf.same b.0 c.0 m) l in
          rw at refl
    ]
    | inr (l, k) ↦
        let back : b.0 ≡ a.0 = sym (hf.same a.0 b.0 l) in
        elim (lex_less _ _ d) [
          | inl m ↦ let at : f a.0 c.0 ≡ less = subst (λ x. f x c.0 ≡ less) back m in rw at refl
          | inr (m, n) ↦
              let at : f a.0 c.0 ≡ equal = subst (λ x. f x c.0 ≡ equal) back m in
              rw at (hg.trans a.1 b.1 c.1 k n)
        ]
  ]

  both-IsOrder : IsOrder f → IsOrder g → IsOrder both
  both-IsOrder hf hg = record {
    flip = λ a b. rw (hf.flip a.0 b.0, hg.flip a.1 b.1) (lex-reverse (f a.0 b.0) (g a.1 b.1));
    same = both_same hf hg;
    trans = both_trans hf hg;
  }

module _ {A : Type 0} (f : A → A → Ordering) (h : IsOrder f) where
  reversed_trans :
      (a b c : A) → reverse (f a b) ≡ less → reverse (f b c) ≡ less → reverse (f a c) ≡ less
  reversed_trans a b c e d = sym (h.flip a c) ∙ h.trans c b a (h.flip b c ∙ d) (h.flip a b ∙ e)

  reversed_same : (a b : A) → reverse (f a b) ≡ equal → a ≡ b
  reversed_same a b e = sym (h.same b a (h.flip a b ∙ e))

  directed-IsOrder : (dir : SortDir) → IsOrder (λ a b. directed dir (f a b))
  unfolding directed
  directed-IsOrder asc = record { flip = h.flip; same = h.same; trans = h.trans }
  directed-IsOrder desc = record {
    flip = λ a b. ap reverse (h.flip a b);
    same = reversed_same;
    trans = reversed_trans;
  }

-- What a candidate is ordered by: its key, its folded name and its entry.
abbrev Rank : Type 0
Rank = ℕ × (List ℕ × EntryIdx)

abbrev rank_cmp : Rank → Rank → Ordering
rank_cmp = both cmp_num (both cmp_bytes cmp_num)

rank_cmp-IsOrder : IsOrder rank_cmp
rank_cmp-IsOrder =
    both-IsOrder cmp_num (both cmp_bytes cmp_num) cmp_num-IsOrder
      (both-IsOrder cmp_bytes cmp_num cmp_bytes-IsOrder cmp_num-IsOrder)

abbrev rank_of : (EntryIdx → List ℕ) → Candidate → Rank
rank_of name a = (a.key, (name a.idx, a.idx))

-- The order in which `cmp_candidate` puts candidates, given their names.
unfoldable pub ordering : (EntryIdx → List ℕ) → SortDir → Candidate → Candidate → Ordering
ordering name dir a b = directed dir (rank_cmp (rank_of name a) (rank_of name b))

rank_inj : (name : EntryIdx → List ℕ) (a b : Candidate) → rank_of name a ≡ rank_of name b → a ≡ b
rank_inj name a b e =
    let k : a.key ≡ b.key = ap (λ r. r.0) e in
    let i : a.idx ≡ b.idx = ap (λ r. r.1.1) e in
    ap (λ z. record a { key = z }) k ∙ ap (λ z. record b { idx = z }) i

pub ordering-IsOrder : (name : EntryIdx → List ℕ) (dir : SortDir) → IsOrder (ordering name dir)
unfolding ordering
ordering-IsOrder name dir =
    let h = directed-IsOrder rank_cmp rank_cmp-IsOrder dir in
    record {
      flip = λ a b. h.flip (rank_of name a) (rank_of name b);
      same = λ a b e. rank_inj name a b (h.same (rank_of name a) (rank_of name b) e);
      trans = λ a b c e d. h.trans (rank_of name a) (rank_of name b) (rank_of name c) e d;
    }

then_with-lex : (o p : Ordering) → then_with o (some p) ≡ some (lex o p)
unfolding then_with
then_with-lex less p = refl
then_with-lex equal p = refl
then_with-lex greater p = refl

pub cmp_candidate-ordering :
    (v : VolumeIndex) (sort : SortSpec) (name : EntryIdx → List ℕ) (a b : Candidate)
    → folded_name v a.idx ≡ some (name a.idx)
    → folded_name v b.idx ≡ some (name b.idx)
    → cmp_candidate v sort a b ≡ some (ordering name sort.dir a b)
unfolding cmp_candidate by_name ordering
cmp_candidate-ordering v sort name a b ea eb =
    let names : by_name v a b
        ≡ some (lex (cmp_bytes (name a.idx) (name b.idx)) (cmp_num a.idx b.idx)) =
      >>=-some _ _ _ ea (>>=-some _ _ _ eb (then_with-lex _ _)) in
    >>=-some _ _ _ (ap (then_with (cmp_num a.key b.key)) names ∙ then_with-lex _ _) refl
