-- ===== src/Query/Engine/Keys.antt =====
-- crates/goz-core/src/query/engine.rs: the order of the keys, and the pages.
use goz.Prelude.{
  ℕ, suc, ◌+◌, ◌-◌, ◌≤◌, ◌<◌, ◌≡◌, ap, ◌∙◌, sym, none, some, List, ◌++◌, length, take, drop, ltb,
  arith, inl, inr, take-append-drop, drop-drop, length-drop, length-take, take_all, drop_all,
  Bool-cases, leb,
}
use Prim.Native.Nat.{min}
use goz.Prelude.Int.{ℤ, pos, negsuc, pos_part, neg_part, ltb_ℤ, i64_limit}
use goz.Types.{SortDir, asc, desc}
use goz.Query.Engine.{unknown_last, mtime_key, flipped, flip_some, page_bounds, page_end, page_of}

-- A date that is known: above the least i64, which stands for an unknown one.
abbrev pub IsKnown : ℤ → Type 0
IsKnown t = (suc (pos_part t) ≤ i64_limit) × (suc (neg_part t) ≤ i64_limit)

-- In both directions a known date's key orders as the date does. An unknown date's key is above every
-- known one ascending and below every known one descending, where the comparison is reversed.
pub mtime_key-order :
    (a b : ℤ) (dir : SortDir)
    → IsKnown a
    → IsKnown b
    → (ltb (mtime_key (some a) dir) (mtime_key (some b) dir) ≡ ltb_ℤ a b)
      × (mtime_key (some a) asc < mtime_key none asc)
      × (mtime_key none desc < mtime_key (some a) desc)
unfolding mtime_key unknown_last flip_some flipped
mtime_key-order (pos a) (pos b) asc h k = (ground arith, omega arith, omega arith)
mtime_key-order (pos a) (negsuc b) asc h k = (ground arith, omega arith, omega arith)
mtime_key-order (negsuc a) (pos b) asc h k = (ground arith, omega arith, omega arith)
mtime_key-order (negsuc a) (negsuc b) asc h k = (ground arith, omega arith, omega arith)
mtime_key-order (pos a) (pos b) desc h k = (ground arith, omega arith, omega arith)
mtime_key-order (pos a) (negsuc b) desc h k = (ground arith, omega arith, omega arith)
mtime_key-order (negsuc a) (pos b) desc h k = (ground arith, omega arith, omega arith)
mtime_key-order (negsuc a) (negsuc b) desc h k = (ground arith, omega arith, omega arith)

module _ {ℓ} {A : Type ℓ} where
  drop_past : (xs : List A) (n : ℕ) → drop (min n (length xs)) xs ≡ drop n xs
  drop_past xs n = elim (Bool-cases (leb n (length xs))) [
    | inl e ↦ ap (λ k. drop k xs) (ground (arith, e))
    | inr e ↦
        drop_all (min n (length xs)) xs (ground (arith, e))
        ∙ sym (drop_all n xs (ground (arith, e)))
  ]

  take_past : (xs : List A) (n : ℕ) → take (min n (length xs)) xs ≡ take n xs
  take_past xs n = elim (Bool-cases (leb n (length xs))) [
    | inl e ↦ ap (λ k. take k xs) (ground (arith, e))
    | inr e ↦
        take_all (min n (length xs)) xs (ground (arith, e))
        ∙ sym (take_all n xs (ground (arith, e)))
  ]

  page_of-none : (xs : List A) (offset : ℕ) → page_of xs offset none ≡ drop offset xs
  unfolding page_of page_bounds page_end
  page_of-none xs offset =
      let s = min offset (length xs) in
      take_all (length xs - s) (drop s xs) (omega (arith, length-drop s xs)) ∙ drop_past xs offset

  page_of-some :
      (xs : List A) (offset limit : ℕ)
      → page_of xs offset (some limit) ≡ take limit (drop offset xs)
  unfolding page_of page_bounds page_end
  page_of-some xs offset limit =
      let s = min offset (length xs) in
      let len = length-drop s xs in
      let e : min (s + limit) (length xs) - s ≡ min limit (length (drop s xs)) =
        omega (arith, len) in
      ap (λ k. take k (drop s xs)) e
      ∙ take_past (drop s xs) limit
      ∙ ap (take limit) (drop_past xs offset)

  -- The page of a limit and the rest after it are what the offset leaves of the candidates, in their
  -- order, and the page holds no more than the limit.
  pub page_of-append :
      (xs : List A) (offset limit : ℕ)
      → (page_of xs offset (some limit) ++ page_of xs (offset + limit) none ≡ drop offset xs)
        × (length (page_of xs offset (some limit)) ≤ limit)
  page_of-append xs offset limit = (
    rw (page_of-some xs offset limit, page_of-none xs (offset + limit))
        (ap (◌++◌ (take limit (drop offset xs))) (sym (drop-drop offset limit xs))
          ∙ take-append-drop limit (drop offset xs)),
    rw (page_of-some xs offset limit) (omega (arith, length-take limit (drop offset xs))),
  )
