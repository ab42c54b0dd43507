-- ===== src/Index/NameStore/Order/Live.antt =====
-- crates/goz-core/src/index/store.rs: the live ids of the name order, and the order of byte strings.
use goz.Prelude.{
  ℕ, zero, suc, ◌+◌, ◌-◌, ◌≤◌, ◌<◌, ◌≡◌, ◌⊎◌, inl, inr, refl, sym, ap, ◌∙◌, true, false, none, some,
  List, [], ◌∷◌, ◌==◌, length, get_elem?, drop, length-drop, All, arith,
}
use goz.Prelude.Options.{>>=-some}
use goz.Index.EntryTable.{NameId}
use goz.Index.NameStore.{NameStore}
use goz.Index.NameStore.Order.{bytes_lt, first_live_from, first_live_at}

-- What is not above a string below `x` is below `x` too.
pub bytes_lt_trans :
    (a b x : List ℕ) → bytes_lt b a ≡ false → bytes_lt b x ≡ true → bytes_lt a x ≡ true
unfolding bytes_lt
bytes_lt_trans a b [] h k = absurd (no_less b k)
  where
    no_less : (b : List ℕ) → bytes_lt b [] ≡ true → ⊥
    no_less [] e = ground (arith, e)
    no_less (y ∷ b) e = ground (arith, e)
bytes_lt_trans [] b (z ∷ x) h k = refl
bytes_lt_trans (y ∷ a) [] (z ∷ x) h k = absurd (ground (arith, h))
bytes_lt_trans (y ∷ a) (w ∷ b) (z ∷ x) h k =
    let step = bytes_lt_trans a b x in ground (arith, h, k, step)

-- Position `k` of the ids holds one with references, or one without.
abbrev pub LiveIn : List ℕ → List NameId → ℕ → Type 0
LiveIn counts ids k =
    (id : NameId) × (n : ℕ) × (get_elem? ids k ≡ some id) × (get_elem? counts id ≡ some (suc n))

abbrev pub DeadIn : List ℕ → List NameId → ℕ → Type 0
DeadIn counts ids k = (id : NameId) × (get_elem? ids k ≡ some id) × (get_elem? counts id ≡ some 0)

pub not_both :
    (counts : List ℕ) (ids : List NameId) (k : ℕ) → LiveIn counts ids k → DeadIn counts ids k → ⊥
not_both counts ids k (id, n, e, c) (jd, e', c') =
    let same : id ≡ jd = ground (arith, e, e') in
    let d = sym c ∙ ap (get_elem? counts) same ∙ c' in ground (arith, d)

-- Every id has a count.
abbrev pub Counted : List ℕ → List NameId → Type 0
Counted counts ids = All (λ id. (n : ℕ) × (get_elem? counts id ≡ some n)) ids

first_live_from-cases :
    (counts : List ℕ) (pos : ℕ) (ids : List NameId)
    → Counted counts ids
    → ((k : ℕ) × (first_live_from counts pos ids ≡ some (some (pos + k)))
        × LiveIn counts ids k
        × ((j : ℕ) → j < k → DeadIn counts ids j))
      ⊎ ((first_live_from counts pos ids ≡ some none)
          × ((j : ℕ) → j < length ids → DeadIn counts ids j))
unfolding first_live_from
first_live_from-cases counts pos [] h = inr (refl, λ j lt. absurd (omega arith))
first_live_from-cases counts pos (id ∷ ids) ((suc n, e), rest) =
    let here : pos ≡ pos + 0 = omega arith in
    let some_left : (suc n == 0) ≡ false = ground arith in
    inl (
      zero,
      >>=-some _ _ (suc n) e (rw some_left (ap (λ p. some (some p)) here)),
      (id, n, refl, e),
      λ j lt. absurd (omega arith),
    )
first_live_from-cases counts pos (id ∷ ids) ((zero, e), rest) =
    elim (first_live_from-cases counts (suc pos) ids rest) [
      | inl (k, f, l, d) ↦
          let on : suc pos + k ≡ pos + suc k = omega arith in
          inl (
            suc k,
            >>=-some _ _ zero e (f ∙ ap (λ p. some (some p)) on),
            l,
            dead_next counts id ids k e d,
          )
      | inr (f, d) ↦ inr (>>=-some _ _ zero e f, dead_next counts id ids (length ids) e d)
    ]
  where
    dead_next :
        (counts : List ℕ) (id : NameId) (ids : List NameId) (k : ℕ)
        → get_elem? counts id ≡ some 0
        → ((j : ℕ) → j < k → DeadIn counts ids j)
        → (j : ℕ) → j < suc k
        → DeadIn counts (id ∷ ids) j
    dead_next counts id ids k e d zero lt = (id, refl, e)
    dead_next counts id ids k e d (suc j) lt = d j (omega (arith, lt))

get_elem?-drop :
    {A : Type 0} (n : ℕ) (xs : List A) (k : ℕ) → get_elem? (drop n xs) k ≡ get_elem? xs (n + k)
get_elem?-drop zero xs k = ap (get_elem? xs) (omega arith)
get_elem?-drop (suc n) [] k = refl
get_elem?-drop (suc n) (x ∷ xs) k =
    let on : suc (n + k) ≡ suc n + k = omega arith in
    get_elem?-drop n xs k ∙ ap (get_elem? (x ∷ xs)) on

Counted-drop :
    (counts : List ℕ) (n : ℕ) (ids : List NameId) → Counted counts ids → Counted counts (drop n ids)
Counted-drop counts zero ids h = h
Counted-drop counts (suc n) [] h = tt
Counted-drop counts (suc n) (id ∷ ids) h = Counted-drop counts n ids h.1

DeadIn-drop :
    (counts : List ℕ) (n : ℕ) (ids : List NameId) (j : ℕ)
    → n ≤ j
    → DeadIn counts (drop n ids) (j - n)
    → DeadIn counts ids j
DeadIn-drop counts n ids j le (id, e, c) =
    let at : n + (j - n) ≡ j = omega (arith, le) in
    (id, ap (get_elem? ids) (sym at) ∙ (sym (get_elem?-drop n ids (j - n)) ∙ e), c)

-- The first live position from `n` on, with nothing live between, or nothing live at all.
pub first_live_at-cases :
    (s : NameStore) (n : ℕ)
    → Counted s.refcount s.order
    → ((p : ℕ) × (first_live_at s n ≡ some (some p))
        × (n ≤ p)
        × LiveIn s.refcount s.order p
        × ((j : ℕ) → n ≤ j → j < p → DeadIn s.refcount s.order j))
      ⊎ ((first_live_at s n ≡ some none)
          × ((j : ℕ) → n ≤ j → j < length s.order → DeadIn s.refcount s.order j))
unfolding first_live_at
first_live_at-cases s n h =
    elim (first_live_from-cases s.refcount n (drop n s.order)
      (Counted-drop s.refcount n s.order h)) [
        | inl (k, f, (id, m, e, c), d) ↦ inl (
          n + k,
          f,
          omega arith,
          (id, m, sym (get_elem?-drop n s.order k) ∙ e, c),
          λ j le lt. DeadIn-drop s.refcount n s.order j le (d (j - n) (omega (arith, le, lt))),
        )
        | inr (f, d) ↦ inr (
          f,
          λ j le lt.
              DeadIn-drop s.refcount n s.order j le
                (d (j - n) (omega (arith, le, lt, length-drop n s.order))),
        )
      ]
