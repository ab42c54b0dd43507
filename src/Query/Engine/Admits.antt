-- ===== src/Query/Engine/Admits.antt =====
-- crates/goz-core/src/query/engine.rs: a volume that a path term cannot match.
use goz.Prelude.{
  ℕ, suc, ◌+◌, ◌-◌, ◌≤◌, ◌≡◌, refl, ◌∙◌, sym, subst, true, false, none, some, inl, inr, List, [],
  ◌∷◌, ◌++◌, length, take, ◌==◌, ltb, arith, Option-cases, length-append, drop-append, take-append,
  take_all, if◌then◌else◌,
}
use Prim.Native.Nat.{min}
use goz.Prelude.Text.{has_code}
use goz.Query.Wildcard.Literals.{Within}
use goz.Query.Engine.{position, overlaps, admits_at, term_admits}
use goz.Index.NameStore.Slices.{same_bytes_refl}
use goz.Query.Engine.Pieces.{Spot, right, left, across, spot, has_code-append}

-- How often a byte stands in a text.
abbrev pub count_of : ℕ → List ℕ → ℕ
count_of b [] = 0
count_of b (c ∷ bytes) = if c == b then suc (count_of b bytes) else count_of b bytes

count_of-append : (b : ℕ) (x y : List ℕ) → count_of b (x ++ y) ≡ count_of b x + count_of b y
count_of-append b [] y = omega arith
count_of-append b (c ∷ x) y = ground (arith, count_of-append b x y)

position-count : (b : ℕ) (x : List ℕ) (k : ℕ) → position b x ≡ some k → 1 ≤ count_of b x
unfolding position
position-count b [] k h = absurd (ground (arith, h))
position-count b (c ∷ x) k h = elim (Option-cases (position b x)) [
  | inl e ↦ ground (arith, h, e)
  | inr (j, e) ↦ ground (arith, h, position-count b x j e)
]

none-counted : (b : ℕ) (x : List ℕ) → count_of b x ≡ 0 → has_code b x ≡ false
unfolding has_code
none-counted b [] h = refl
none-counted b (c ∷ x) h = ground (arith, h, none-counted b x)

position-free : (b : ℕ) (x : List ℕ) → has_code b x ≡ false → position b x ≡ none
unfolding position has_code
position-free b [] h = refl
position-free b (c ∷ x) h = ground (arith, h, position-free b x)

position-left :
    (b : ℕ) (x y : List ℕ) (k : ℕ) → position b x ≡ some k → position b (x ++ y) ≡ some k
unfolding position
position-left b [] y k h = absurd (ground (arith, h))
position-left b (c ∷ x) y k h = elim (Option-cases (position b x)) [
  | inl e ↦ ground (arith, h, e)
  | inr (j, e) ↦ ground (arith, h, e, position-left b x y j e)
]

position-right :
    (b : ℕ) (x y : List ℕ) (k : ℕ)
    → has_code b x ≡ false
    → position b y ≡ some k
    → position b (x ++ y) ≡ some (length x + k)
unfolding position has_code
position-right b [] y k free h = ground (arith, h)
position-right b (c ∷ x) y k free h =
    ground (arith, free, position-right b x y k (ground (arith, free)) h)

position-none : (b : ℕ) (x : List ℕ) → position b x ≡ none → has_code b x ≡ false
unfolding position has_code
position-none b [] h = refl
position-none b (c ∷ x) h = elim (Option-cases (position b x)) [
  | inl e ↦ ground (arith, h, position-none b x e)
  | inr (j, e) ↦ absurd (ground (arith, h, e))
]

-- A byte of the first part that the second does not hold is found in the first.
position-first :
    (b : ℕ) (x y : List ℕ) (k : ℕ)
    → has_code b y ≡ false
    → position b (x ++ y) ≡ some k
    → position b x ≡ some k
position-first b x y k free h = elim (Option-cases (position b x)) [
  | inl e ↦
      let nowhere =
        position-free b (x ++ y)
          (ground (arith, free, position-none b x e, has_code-append b x y)) in
      absurd (ground (arith, h, nowhere))
  | inr (j, e) ↦ e ∙ sym (position-left b x y j e) ∙ h
]

-- A term that lies over `p`, the end of the prefix.
admits-across :
    (a p term : List ℕ) (k n : ℕ)
    → count_of 0x3A (a ++ p) ≤ 1
    → position 0x3A p ≡ some k
    → position 0x3A term ≡ some k
    → min (length p) (length term) ≡ n
    → take n term ≡ take n p
    → term_admits term (a ++ p) ≡ true
unfolding term_admits admits_at overlaps
admits-across a p term k n few at at_term len same =
    let free =
      none-counted 0x3A a
        (omega (arith, few, count_of-append 0x3A a p, position-count 0x3A p k at)) in
    let start : length a + k - k ≡ length a = omega arith in
    let not_before : ltb (length a + k) k ≡ false = ground arith in
    let whole : min (length (a ++ p) - length a) (length term) ≡ n =
      omega (arith, len, length-append a p) in
    rw
      (
        at_term,
        position-right 0x3A a p k free at,
        not_before,
        start,
        whole,
        drop-append a p (length a) refl,
        same,
      )
      (same_bytes_refl (take n p))

Spot-admits :
    (prefix rest term : List ℕ) (k : ℕ)
    → count_of 0x3A prefix ≤ 1
    → has_code 0x3A rest ≡ false
    → position 0x3A term ≡ some k
    → Spot prefix rest term
    → term_admits term prefix ≡ true
Spot-admits prefix rest term k few free at (right (a, b, e)) =
    let f = subst (λ z. has_code 0x3A z ≡ false) e free in
    let clear : has_code 0x3A term ≡ false =
      ground (arith, f, has_code-append 0x3A a (term ++ b), has_code-append 0x3A term b) in
    absurd (ground (arith, at, position-free 0x3A term clear))
Spot-admits prefix rest term k few free at (left (a, b, e)) =
    let few_in = subst (λ z. count_of 0x3A z ≤ 1) e few in
    rw e (
      admits-across a (term ++ b) term k (length term) few_in (position-left 0x3A term b k at) at
        (omega (arith, length-append term b))
        (take_all (length term) term (omega arith) ∙ sym (take-append term b (length term) refl)))
Spot-admits prefix rest term k few free at (across a x d b c p q r) =
    let few_in = subst (λ z. count_of 0x3A z ≤ 1) p few in
    let f = subst (λ z. has_code 0x3A z ≡ false) r free in
    let clear : has_code 0x3A d ≡ false = ground (arith, f, has_code-append 0x3A d b) in
    let at_both = subst (λ z. position 0x3A z ≡ some k) q at in
    let part = length (c ∷ x) in
    rw (p, q)
      (admits-across a (c ∷ x) ((c ∷ x) ++ d) k part few_in
        (position-first 0x3A (c ∷ x) d k clear at_both) at_both
        (omega (arith, length-append (c ∷ x) d))
        (take-append (c ∷ x) d part refl ∙ sym (take_all part (c ∷ x) (omega arith))))

-- Where the mount prefix holds at most one colon and the rest of a full path holds none, a path term
-- that stands in the path is one that the volume admits: a volume that is passed over has no match.
pub term_admits-Within :
    (prefix rest term : List ℕ)
    → count_of 0x3A prefix ≤ 1
    → has_code 0x3A rest ≡ false
    → Within term (prefix ++ rest)
    → term_admits term prefix ≡ true
unfolding term_admits admits_at
term_admits-Within prefix rest term few free w = elim (Option-cases (position 0x3A term)) [
  | inl e ↦ rw e refl
  | inr (k, e) ↦ Spot-admits prefix rest term k few free e (spot prefix rest term w)
]
