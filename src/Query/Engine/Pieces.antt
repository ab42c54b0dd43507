-- ===== src/Query/Engine/Pieces.antt =====
-- crates/goz-core/src/query/engine.rs: where a piece of text stands in a text of two parts.
use goz.Prelude.{
  ℕ, ◌-◌, ◌≡◌, refl, ap, ◌∙◌, sym, true, false, ◌||◌, none, some, ◌⊎◌, inl, inr, List, [], ◌∷◌,
  ◌++◌, length, take, drop, arith, Bool-cases, Option-cases, length-append, drop-append,
  take-append-drop,
}
use goz.Prelude.Text.{has_code}
use goz.Query.Wildcard.Literals.{Within}
use goz.Query.Engine.{starts_with, holds, ends_with, last_position, ends_open}
use goz.Index.NameStore.Slices.{same_bytes_refl, same_bytes_eq}

pub starts_with_sound :
    (text piece : List ℕ) → starts_with text piece ≡ true → (b : List ℕ) × (text ≡ piece ++ b)
unfolding starts_with
starts_with_sound text [] h = (text, refl)
starts_with_sound [] (p ∷ piece) h = absurd (ground (arith, h))
starts_with_sound (c ∷ text) (p ∷ piece) h =
    let same : c ≡ p = ground (arith, h) in
    let (b, e) = starts_with_sound text piece (ground (arith, h)) in
    (b, ap (λ a. a ∷ text) same ∙ ap (◌∷◌ p) e)

pub starts_with-append : (piece b : List ℕ) → starts_with (piece ++ b) piece ≡ true
unfolding starts_with
starts_with-append [] b = refl
starts_with-append (p ∷ piece) b = ground (arith, starts_with-append piece b)

pub holds_sound : (text piece : List ℕ) → holds text piece ≡ true → Within piece text
unfolding holds
holds_sound [] piece h = let (b, e) = starts_with_sound [] piece h in ([], b, e)
holds_sound (c ∷ text) piece h = elim (Bool-cases (starts_with (c ∷ text) piece)) [
  | inl k ↦ let (b, e) = starts_with_sound (c ∷ text) piece k in ([], b, e)
  | inr k ↦
      let (a, b, e) = holds_sound text piece (ground (arith, h, k)) in (c ∷ a, b, ap (◌∷◌ c) e)
]

holds-start : (piece b : List ℕ) → holds (piece ++ b) piece ≡ true
unfolding holds starts_with
holds-start [] [] = refl
holds-start [] (c ∷ b) = ground (arith, starts_with-append [] (c ∷ b))
holds-start (p ∷ piece) b = ground (arith, starts_with-append (p ∷ piece) b)

holds-append : (a piece b : List ℕ) → holds (a ++ (piece ++ b)) piece ≡ true
unfolding holds
holds-append [] piece b = holds-start piece b
holds-append (c ∷ a) piece b = ground (arith, holds-append a piece b)

pub holds_complete : (text piece : List ℕ) → Within piece text → holds text piece ≡ true
holds_complete text piece (a, b, e) = rw e (holds-append a piece b)

-- Two ways to write a list: one first part goes on where the other ends.
split_at :
    (a c b d : List ℕ)
    → a ++ b ≡ c ++ d
    → ((e : List ℕ) × (a ≡ c ++ e) × (d ≡ e ++ b)) ⊎ ((e : List ℕ) × (c ≡ a ++ e) × (b ≡ e ++ d))
split_at [] c b d h = inr (c, refl, h)
split_at (x ∷ a) [] b d h = inl (x ∷ a, refl, sym h)
split_at (x ∷ a) (y ∷ c) b d h =
    let same : x ≡ y = ground (arith, h) in
    elim (split_at a c b d (ground (arith, h))) [
      | inl (e, p, q) ↦ inl (e, ap (λ z. z ∷ a) same ∙ ap (◌∷◌ y) p, q)
      | inr (e, p, q) ↦ inr (e, ap (λ z. z ∷ c) (sym same) ∙ ap (◌∷◌ x) p, q)
    ]

pub has_code-append : (c : ℕ) (a b : List ℕ) → has_code c (a ++ b) ≡ (has_code c a || has_code c b)
unfolding has_code
has_code-append c [] b = refl
has_code-append c (x ∷ a) b = ground (arith, has_code-append c a b)

last_position-none : (c : ℕ) (t : List ℕ) → last_position c t ≡ none → has_code c t ≡ false
unfolding last_position has_code
last_position-none c [] h = refl
last_position-none c (x ∷ t) h = elim (Option-cases (last_position c t)) [
  | inl e ↦ ground (arith, h, e, last_position-none c t e)
  | inr (i, e) ↦ absurd (ground (arith, h, e))
]

pub last_position-some :
    (c : ℕ) (t : List ℕ) (i : ℕ) → last_position c t ≡ some i → has_code c t ≡ true
unfolding last_position has_code
last_position-some c [] i h = absurd (ground (arith, h))
last_position-some c (x ∷ t) i h = elim (Option-cases (last_position c t)) [
  | inl e ↦ ground (arith, h, e)
  | inr (j, e) ↦ ground (arith, last_position-some c t j e)
]

last_position-free : (c : ℕ) (t : List ℕ) → has_code c t ≡ false → last_position c t ≡ none
unfolding last_position has_code
last_position-free c [] h = refl
last_position-free c (x ∷ t) h = ground (arith, h, last_position-free c t)

-- A part that ends with a separator, and then one without a separator.
pub last_separator :
    (e d : List ℕ)
    → ends_open e ≡ true
    → has_code 0x5C d ≡ false
    → last_position 0x5C (e ++ d) ≡ some (length e - 1)
unfolding last_position ends_open
last_separator [] d closed free = absurd (ground (arith, closed))
last_separator (c ∷ []) d closed free = ground (arith, closed, last_position-free 0x5C d free)
last_separator (c ∷ x ∷ e) d closed free = ground (arith, last_separator (x ∷ e) d closed free)

pub ends_open-append :
    (a : List ℕ) (c : ℕ) (e : List ℕ) → ends_open (a ++ c ∷ e) ≡ true → ends_open (c ∷ e) ≡ true
unfolding ends_open
ends_open-append [] c e h = h
ends_open-append (x ∷ []) c e h = h
ends_open-append (x ∷ y ∷ a) c e h = ends_open-append (y ∷ a) c e h

pub ends_with-append : (a e : List ℕ) → ends_with (a ++ e) e ≡ true
unfolding ends_with
ends_with-append a e =
    let len = length-append a e in
    let cut : drop (length (a ++ e) - length e) (a ++ e) ≡ e =
      drop-append a e (length (a ++ e) - length e) (omega (arith, len)) in
    rw cut (ground (arith, len, same_bytes_refl e))

pub ends_with_sound : (text e : List ℕ) → ends_with text e ≡ true → (p : List ℕ) × (text ≡ p ++ e)
unfolding ends_with
ends_with_sound text e h =
    let n = length text - length e in
    let same = same_bytes_eq (drop n text) e (ground (arith, h)) in
    (take n text, sym (take-append-drop n text) ∙ ap (◌++◌ (take n text)) same)

-- Where a piece of two parts stands: in the second, in the first, or over the border.
pub data Spot (before name term : List ℕ) : Type 0 where
  right : Within term name → Spot before name term
  left : Within term before → Spot before name term
  across :
      (a e d b : List ℕ) (c : ℕ)
      → before ≡ a ++ c ∷ e
      → term ≡ (c ∷ e) ++ d
      → name ≡ d ++ b
      → Spot before name term

after_start :
    (before name term a b e : List ℕ)
    → before ≡ a ++ e
    → term ++ b ≡ e ++ name
    → Spot before name term
after_start before name term a b [] p q = right ([], b, sym q)
after_start before name term a b (c ∷ e) p q = elim (split_at term (c ∷ e) b name q) [
  | inl (d, f, g) ↦ across a e d b c p f g
  | inr (d, f, g) ↦ left (a, d, p ∙ ap (◌++◌ a) f)
]

pub spot : (before name term : List ℕ) → Within term (before ++ name) → Spot before name term
spot before name term (a, b, h) = elim (split_at a before (term ++ b) name (sym h)) [
  | inl (e, p, q) ↦ right (e, b, q)
  | inr (e, p, q) ↦ after_start before name term a b e p q
]
