-- ===== src/Fold/Ascii.antt =====
-- crates/goz-core/src/fold.rs: the fold of a name in ASCII.
use goz.Prelude.{
  ℕ, suc, ◌+◌, ◌<◌, ◌≤◌, ◌≡◌, ◌⊎◌, inl, inr, refl, ap, ◌∙◌, Bool, true, false, ◌&&◌, List, [], ◌∷◌,
  ltb, leb, if◌then◌else◌, length, All, arith, Bool-cases,
}
use goz.Fold.{Unicode, is_ascii, to_ascii_lowercase, lower_ascii, fold_into, fold}
mod Runs

-- A byte that no ASCII capital is.
abbrev pub IsNotCapital : ℕ → Type 0
IsNotCapital b = (b < 0x41) ⊎ (0x5A < b)

to_ascii_lowercase-IsNotCapital : (b : ℕ) → IsNotCapital (to_ascii_lowercase b)
unfolding to_ascii_lowercase
to_ascii_lowercase-IsNotCapital b = ground arith

to_ascii_lowercase-lt : (b : ℕ) → ltb b 0x80 ≡ true → ltb (to_ascii_lowercase b) 0x80 ≡ true
unfolding to_ascii_lowercase
to_ascii_lowercase-lt b h = ground arith

to_ascii_lowercase_twice :
    (b : ℕ) → to_ascii_lowercase (to_ascii_lowercase b) ≡ to_ascii_lowercase b
unfolding to_ascii_lowercase
to_ascii_lowercase_twice b = ground arith

lower_ascii-is_ascii :
    (bytes : List ℕ) → is_ascii bytes ≡ true → is_ascii (lower_ascii bytes) ≡ true
unfolding is_ascii lower_ascii
lower_ascii-is_ascii [] h = refl
lower_ascii-is_ascii (b ∷ bytes) h =
    let first : ltb b 0x80 ≡ true = ground (arith, h) in
    let rest : is_ascii bytes ≡ true = ground (arith, h) in
    rw (to_ascii_lowercase-lt b first) (lower_ascii-is_ascii bytes rest)

lower_ascii_twice : (bytes : List ℕ) → lower_ascii (lower_ascii bytes) ≡ lower_ascii bytes
unfolding lower_ascii
lower_ascii_twice [] = refl
lower_ascii_twice (b ∷ bytes) = rw (to_ascii_lowercase_twice b, lower_ascii_twice bytes) refl

length-lower_ascii : (bytes : List ℕ) → length (lower_ascii bytes) ≡ length bytes
unfolding lower_ascii
length-lower_ascii [] = refl
length-lower_ascii (b ∷ bytes) = ap suc (length-lower_ascii bytes)

lower_ascii-IsNotCapital : (bytes : List ℕ) → All IsNotCapital (lower_ascii bytes)
unfolding lower_ascii
lower_ascii-IsNotCapital [] = tt
lower_ascii-IsNotCapital (b ∷ bytes) =
    (to_ascii_lowercase-IsNotCapital b, lower_ascii-IsNotCapital bytes)

pub fold-lower_ascii :
    (u : Unicode) (bytes : List ℕ) → is_ascii bytes ≡ true → fold u bytes ≡ lower_ascii bytes
unfolding fold fold_into
fold-lower_ascii u bytes h = rw (h, fold_into) refl

-- The fold of a name in ASCII, whatever the Unicode tables are, has the name's length and no capital
-- letter, and folding it again changes nothing.
fold_ascii :
    (u : Unicode) (bytes : List ℕ)
    → is_ascii bytes ≡ true
    → (length (fold u bytes) ≡ length bytes)
      × All IsNotCapital (fold u bytes)
      × (fold u (fold u bytes) ≡ fold u bytes)
fold_ascii u bytes h =
    let e = fold-lower_ascii u bytes h in
    rw e (
      length-lower_ascii bytes,
      lower_ascii-IsNotCapital bytes,
      fold-lower_ascii u (lower_ascii bytes) (lower_ascii-is_ascii bytes h)
          ∙ lower_ascii_twice bytes,
    )
