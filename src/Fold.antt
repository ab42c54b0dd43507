-- ===== src/Fold.antt =====
-- crates/goz-core/src/fold.rs: case folding of WTF-8 names. The Unicode tables, which the crate
-- unicode_normalization and the standard library hold, are parameters.
pub mod Ascii
use goz.Prelude.{
  ℕ, ◌+◌, ◌/◌, ◌%◌, ◌^◌, Bool, true, false, ◌&&◌, ◌||◌, Option, none, some, List, [], ◌∷◌, ◌++◌,
  ltb, leb, if◌then◌else◌, bit_or,
}
use goz.Wtf8.{continuation, code_points, is_high, is_low}

-- `decompose_canonical` of one scalar, all that `char::to_lowercase` yields, and `nfc` of a run.
pub record Unicode : Type 0 where
  pub decompose_canonical : ℕ → List ℕ
  pub to_lowercase : ℕ → List ℕ
  pub nfc : List ℕ → List ℕ

-- `[u8]::is_ascii`
unfoldable pub is_ascii : List ℕ → Bool
is_ascii [] = true
is_ascii (b ∷ bytes) = ltb b 0x80 && is_ascii bytes

-- `u8::to_ascii_lowercase`
unfoldable pub to_ascii_lowercase : ℕ → ℕ
to_ascii_lowercase b = if leb 0x41 b && leb b 0x5A then b + 0x20 else b

unfoldable pub lower_ascii : List ℕ → List ℕ
lower_ascii [] = []
lower_ascii (b ∷ bytes) = to_ascii_lowercase b ∷ lower_ascii bytes

unfoldable pub encode : ℕ → List ℕ → List ℕ
unfolding continuation
encode cp out =
    if ltb cp 0x80
    then out ++ (cp % 2 ^ 8) ∷ []
    else if ltb cp 0x800
    then out ++ bit_or 0xC0 (cp / 2 ^ 6 % 2 ^ 8) ∷ continuation cp ∷ []
    else if ltb cp 0x10000
    then out ++ bit_or 0xE0 (cp / 2 ^ 12 % 2 ^ 8) ∷ continuation (cp / 2 ^ 6) ∷ continuation cp ∷ []
    else out
      ++ bit_or 0xF0 (cp / 2 ^ 18 % 2 ^ 8)
        ∷ continuation (cp / 2 ^ 12)
        ∷ continuation (cp / 2 ^ 6)
        ∷ continuation cp
        ∷ []

unfoldable pub encode_all : List ℕ → List ℕ → List ℕ
encode_all [] out = out
encode_all (c ∷ cs) out = encode_all cs (encode c out)

-- `char::from_u32(cp).is_some()`
unfoldable pub is_char : ℕ → Bool
is_char cp = if is_high cp || is_low cp then false else ltb cp 0x110000

unfoldable pub first_or : ℕ → List ℕ → ℕ
first_or c [] = c
first_or c (l ∷ ls) = l

module _ (u : Unicode) where
  unfoldable pub lower_char : ℕ → ℕ
  lower_char c = first_or c (u.to_lowercase c)

  unfoldable pub lower_all : List ℕ → List ℕ
  lower_all [] = []
  lower_all (c ∷ cs) = lower_char c ∷ lower_all cs

  -- An empty run composes to nothing.
  unfoldable pub compose_into : List ℕ → List ℕ → List ℕ
  compose_into [] out = out
  compose_into (c ∷ run) out = encode_all (u.nfc (c ∷ run)) out

  -- The loop of `fold_non_ascii` with the run so far, and the composition of the last run.
  unfoldable pub fold_from : List ℕ → List ℕ → List ℕ → List ℕ
  fold_from [] run out = compose_into run out
  fold_from (cp ∷ cps) run out = elim (is_char cp) [
    | true ↦ fold_from cps (run ++ lower_all (u.decompose_canonical cp)) out
    | false ↦ fold_from cps [] (encode cp (compose_into run out))
  ]

  unfoldable pub fold_non_ascii : List ℕ → List ℕ → List ℕ
  fold_non_ascii bytes out = fold_from (code_points bytes) [] out

  unfoldable pub fold_into : List ℕ → List ℕ → List ℕ
  fold_into bytes out =
      if is_ascii bytes then out ++ lower_ascii bytes else fold_non_ascii bytes out

  unfoldable pub fold : List ℕ → List ℕ
  fold bytes = fold_into bytes []
