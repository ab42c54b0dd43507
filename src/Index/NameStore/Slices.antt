-- ===== src/Index/NameStore/Slices.antt =====
-- crates/goz-core/src/index/store.rs: slices of a buffer that grows at its end.
use goz.Prelude.{
  ℕ, ◌+◌, ◌≤◌, ◌≡◌, inl, inr, refl, sym, ap, ◌∙◌, true, some, List, [], ◌∷◌, ◌++◌, leb, Bool-cases,
  length, take, drop, length-append, drop-append_le, take-append_le, take-append, drop-append,
  length-drop, arith,
}
use goz.Wtf8.Lossy.{same_bytes}
use goz.Index.NameStore.{slice}

pub same_bytes_refl : (a : List ℕ) → same_bytes a a ≡ true
unfolding same_bytes
same_bytes_refl [] = refl
same_bytes_refl (x ∷ a) = ground (arith, same_bytes_refl a)

pub same_bytes_eq : (a b : List ℕ) → same_bytes a b ≡ true → a ≡ b
unfolding same_bytes
same_bytes_eq [] [] h = refl
same_bytes_eq [] (y ∷ b) h = absurd (ground (arith, h))
same_bytes_eq (x ∷ a) [] h = absurd (ground (arith, h))
same_bytes_eq (x ∷ a) (y ∷ b) h =
    let e : x ≡ y = ground (arith, h) in
    let d : same_bytes a b ≡ true = ground (arith, h) in rw (e, same_bytes_eq a b d) refl

-- What a slice of `buf` gives, the same slice of `buf'` gives.
abbrev pub Grows : List ℕ → List ℕ → Type 0
Grows buf buf' =
    (off len : ℕ) (bytes : List ℕ)
    → slice buf off len ≡ some bytes
    → slice buf' off len ≡ some bytes

leb_le : (a b : ℕ) → leb a b ≡ true → a ≤ b
leb_le a b h = ground (arith, h)

le_leb : (a b : ℕ) → a ≤ b → leb a b ≡ true
le_leb a b h = ground (arith, h)

slice_in :
    (buf : List ℕ) (off len : ℕ)
    → off + len ≤ length buf
    → slice buf off len ≡ some (take len (drop off buf))
unfolding slice
slice_in buf off len h = rw (le_leb (off + len) (length buf) h) refl

pub slice-bound :
    (buf : List ℕ) (off len : ℕ) (bytes : List ℕ)
    → slice buf off len ≡ some bytes
    → off + len ≤ length buf
unfolding slice
slice-bound buf off len bytes h = elim (Bool-cases (leb (off + len) (length buf))) [
  | inl e ↦ leb_le (off + len) (length buf) e
  | inr e ↦ absurd (ground (arith, h, e))
]

pub Grows-append : (buf more : List ℕ) → Grows buf (buf ++ more)
Grows-append buf more off len bytes h =
    let b = slice-bound buf off len bytes h in
    let long : off + len ≤ length (buf ++ more) = omega (arith, length-append buf more, b) in
    let room : len ≤ length (drop off buf) = omega (arith, length-drop off buf, b) in
    slice_in (buf ++ more) off len long
    ∙ ap (λ xs. some (take len xs)) (drop-append_le buf more off (omega (arith, b)))
    ∙ ap some (take-append_le (drop off buf) more len room)
    ∙ (sym (slice_in buf off len b) ∙ h)

pub slice-append :
    (buf bytes more : List ℕ)
    → slice (buf ++ (bytes ++ more)) (length buf) (length bytes) ≡ some bytes
slice-append buf bytes more =
    let long : length buf + length bytes ≤ length (buf ++ (bytes ++ more)) =
      omega (arith, length-append buf (bytes ++ more), length-append bytes more) in
    slice_in (buf ++ (bytes ++ more)) (length buf) (length bytes) long
    ∙ ap (λ xs. some (take (length bytes) xs)) (drop-append buf (bytes ++ more) (length buf) refl)
    ∙ ap some (take-append bytes more (length bytes) refl)
