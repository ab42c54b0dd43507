-- ===== src/Query/Engine/Needs.antt =====
-- crates/goz-core/src/query/engine.rs: the needs of a folder's path terms, against a search of the whole
-- path.
use goz.Prelude.{
  ℕ, ◌+◌, ◌-◌, ◌≡◌, refl, ap, ◌∙◌, sym, subst, Bool, true, false, none, some, inl, inr, List, ◌∷◌,
  ◌++◌, length, take, drop, arith, Bool-cases, Option-cases, append_assoc, drop-append, take-append,
  take-append-drop,
}
use goz.Prelude.Text.{has_code}
use goz.Query.Wildcard.Literals.{Within}
use goz.Query.Engine.{
  starts_with, holds, ends_with, last_position, ends_open, need_of, need_after, held,
}
use goz.Query.Engine.Pieces.{
  starts_with_sound, starts_with-append, holds_sound, holds_complete, has_code-append,
  last_position-some, last_separator, ends_open-append, ends_with-append, ends_with_sound, spot,
  left, right, across,
}

bool_iff : (a b : Bool) → (a ≡ true → b ≡ true) → (b ≡ true → a ≡ true) → a ≡ b
bool_iff true true f g = refl
bool_iff true false f g = sym (f refl)
bool_iff false true f g = g refl
bool_iff false false f g = refl

Within-right : (before name term : List ℕ) → Within term name → Within term (before ++ name)
Within-right before name term (a, b, e) =
    (before ++ a, b, ap (◌++◌ before) e ∙ sym (append_assoc before a (term ++ b)))

Within-left : (before name term : List ℕ) → Within term before → Within term (before ++ name)
Within-left before name term (a, b, e) = (
  a,
  b ++ name,
  ap (λ z. z ++ name) e ∙ append_assoc a (term ++ b) name ∙ ap (◌++◌ a) (append_assoc term b name),
)

no_separator :
    (name term : List ℕ)
    → has_code 0x5C name ≡ false
    → Within term name
    → has_code 0x5C term ≡ false
no_separator name term free (a, b, e) =
    let f = subst (λ z. has_code 0x5C z ≡ false) e free in
    ground (arith, f, has_code-append 0x5C a (term ++ b), has_code-append 0x5C term b)

-- The last separator of a piece over the border ends its first part.
over_position :
    (before name term a e d b : List ℕ) (c : ℕ)
    → ends_open before ≡ true
    → has_code 0x5C name ≡ false
    → before ≡ a ++ c ∷ e
    → term ≡ (c ∷ e) ++ d
    → name ≡ d ++ b
    → last_position 0x5C term ≡ some (length e)
over_position before name term a e d b c ends free p q r =
    let f = subst (λ z. has_code 0x5C z ≡ false) r free in
    let free_d : has_code 0x5C d ≡ false = ground (arith, f, has_code-append 0x5C d b) in
    let first_ends = ends_open-append a c e (subst (λ z. ends_open z ≡ true) p ends) in
    let len : length (c ∷ e) - 1 ≡ length e = omega arith in
    rw q (last_separator (c ∷ e) d first_ends free_d ∙ ap some len)

module _ (before name term : List ℕ) (ends : ends_open before ≡ true)
    (free : has_code 0x5C name ≡ false) (absent : holds before term ≡ false) where
  found-right : last_position 0x5C term ≡ none → Within term (before ++ name) → Within term name
  found-right e w = elim (spot before name term w) [
    | right v ↦ v
    | left v ↦ absurd (ground (arith, absent, holds_complete before term v))
    | across a x d b c p q r ↦
        absurd (ground (arith, e, over_position before name term a x d b c ends free p q r))
  ]

  found-start :
      (i : ℕ)
      → last_position 0x5C term ≡ some i
      → Within term (before ++ name)
      → (ends_with before (take (i + 1) term) ≡ true)
        × (starts_with name (drop (i + 1) term) ≡ true)
  found-start i e w = elim (spot before name term w) [
    | right v ↦
        absurd (ground (arith, last_position-some 0x5C term i e, no_separator name term free v))
    | left v ↦ absurd (ground (arith, absent, holds_complete before term v))
    | across a x d b c p q r ↦
        let at : length x ≡ i =
          ground (arith, e, over_position before name term a x d b c ends free p q r) in
        let here : length (c ∷ x) ≡ i + 1 = omega (arith, at) in
        (
          rw (p, q, take-append (c ∷ x) d (i + 1) here) (ends_with-append a (c ∷ x)),
          rw (q, r, drop-append (c ∷ x) d (i + 1) here) (starts_with-append d b),
        )
  ]

  start-found :
      (i : ℕ)
      → ends_with before (take (i + 1) term) ≡ true
      → starts_with name (drop (i + 1) term) ≡ true
      → Within term (before ++ name)
  start-found i h k =
      let (p, e) = ends_with_sound before (take (i + 1) term) h in
      let (q, f) = starts_with_sound name (drop (i + 1) term) k in
      let t = take (i + 1) term in
      let u = drop (i + 1) term in
      (
        p,
        q,
        ap (λ z. z ++ name) e
            ∙ ap (◌++◌ (p ++ t)) f
            ∙ append_assoc p t (u ++ q)
            ∙ ap (◌++◌ p)
                (sym (append_assoc t u q) ∙ ap (λ z. z ++ q) (take-append-drop (i + 1) term)),
      )

  start-held :
      (i : ℕ)
      → last_position 0x5C term ≡ some i
      → held (need_after before term (some i)) name term ≡ holds (before ++ name) term
  unfolding held need_after
  start-held i e = elim (Bool-cases (ends_with before (take (i + 1) term))) [
    | inl h ↦
        rw (h, held)
          (bool_iff (starts_with name (drop (i + 1) term)) (holds (before ++ name) term)
            (λ k. holds_complete (before ++ name) term (start-found i h k))
            (λ k. (found-start i e (holds_sound (before ++ name) term k)).1))
    | inr h ↦
        rw (h, held)
          (bool_iff false (holds (before ++ name) term) (λ k. absurd (ground (arith, k)))
            (λ k. ground (arith, h, found-start i e (holds_sound (before ++ name) term k))))
  ]

  within-held : last_position 0x5C term ≡ none → holds name term ≡ holds (before ++ name) term
  within-held e =
      bool_iff (holds name term) (holds (before ++ name) term)
        (λ k.
          holds_complete (before ++ name) term
            (Within-right before name term (holds_sound name term k)))
        (λ k. holds_complete name term (found-right e (holds_sound (before ++ name) term k)))

  absent-held :
      held (need_after before term (last_position 0x5C term)) name term
      ≡ holds (before ++ name) term
  unfolding need_after held
  absent-held = elim (Option-cases (last_position 0x5C term)) [
    | inl e ↦ rw e (within-held e)
    | inr (i, e) ↦ rw e (start-held i e)
  ]

-- Below a folder whose part of the path ends with a separator, a name without one has what its need of a
-- path term asks exactly if the term stands in the whole path. So no search of the whole path is needed.
pub need_of-held :
    (before name term : List ℕ)
    → ends_open before ≡ true
    → has_code 0x5C name ≡ false
    → held (need_of before term) name term ≡ holds (before ++ name) term
unfolding need_of held
need_of-held before name term ends free = elim (Bool-cases (holds before term)) [
  | inl e ↦ rw e (
      sym (
        holds_complete (before ++ name) term
          (Within-left before name term (holds_sound before term e))))
  | inr e ↦ rw (e, ends) (absent-held before name term ends free e)
]
