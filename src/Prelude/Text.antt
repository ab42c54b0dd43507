-- ===== src/Prelude/Text.antt =====
-- Text as the list of its code points, with what the program uses of Rust's `str` and `char`.
use Prim.Native.Nat.{ℕ, ◌+◌, ◌-◌, ◌*◌}
use Prim.Native.Char.{code}
use Prim.Native.String.{String}
use mathlib.Core.Bool.{Bool, true, false, ◌&&◌, ◌||◌}
use mathlib.Core.Option.{Option, none, some, map}
use mathlib.Core.List.{List, [], ◌∷◌}
use goz.Prelude.Tests.{ltb, leb, ◌==◌, if◌then◌else◌}

-- The code points of a literal.
abbrev pub codes : String → List ℕ
codes String.[] = []
codes (String.◌∷◌ c s) = code c ∷ codes s

unfoldable pub same_text : List ℕ → List ℕ → Bool
same_text [] [] = true
same_text (a ∷ s) (b ∷ t) = (a == b) && same_text s t
same_text _ _ = false

unfoldable pub is_one_of : List ℕ → List (List ℕ) → Bool
is_one_of s [] = false
is_one_of s (t ∷ ts) = same_text s t || is_one_of s ts

unfoldable pub has_code : ℕ → List ℕ → Bool
has_code c [] = false
has_code c (a ∷ s) = (a == c) || has_code c s

-- `char::is_whitespace`: the code points with the property White_Space.
unfoldable pub is_whitespace : ℕ → Bool
is_whitespace c =
    (leb 0x09 c && leb c 0x0D)
    || has_code c (0x20 ∷ 0x85 ∷ 0xA0 ∷ 0x1680 ∷ 0x2028 ∷ 0x2029 ∷ 0x202F ∷ 0x205F ∷ 0x3000 ∷ [])
    || (leb 0x2000 c && leb c 0x200A)

unfoldable pub trim_start : List ℕ → List ℕ
trim_start [] = []
trim_start (c ∷ s) = elim (is_whitespace c) [ true ↦ trim_start s | false ↦ c ∷ s ]

unfoldable pub reversed : List ℕ → List ℕ → List ℕ
reversed [] out = out
reversed (c ∷ s) out = reversed s (c ∷ out)

unfoldable pub trim : List ℕ → List ℕ
trim s = reversed (trim_start (reversed (trim_start s) [])) []

-- `to_ascii_lowercase`
unfoldable pub lowercase : List ℕ → List ℕ
lowercase [] = []
lowercase (c ∷ s) = (if leb 0x41 c && leb c 0x5A then c + 0x20 else c) ∷ lowercase s

unfoldable pub strip_prefix : List ℕ → List ℕ → Option (List ℕ)
strip_prefix [] s = some s
strip_prefix (p ∷ ps) [] = none
strip_prefix (p ∷ ps) (c ∷ s) = elim (c == p) [ true ↦ strip_prefix ps s | false ↦ none ]

unfoldable pub strip_suffix : List ℕ → List ℕ → Option (List ℕ)
strip_suffix suffix s =
    map (λ rest. reversed rest []) (strip_prefix (reversed suffix []) (reversed s []))

unfoldable pub or_else {ℓ} : {A : Type ℓ} → Option A → A → A
or_else none a = a
or_else (some b) a = b

-- `split_once("..")`: before and after the first `..`.
unfoldable pub split_dots : List ℕ → Option (List ℕ × List ℕ)
split_dots [] = none
split_dots (a ∷ []) = none
split_dots (a ∷ b ∷ s) = elim ((a == 0x2E) && (b == 0x2E)) [
  | true ↦ some ([], s)
  | false ↦ map (λ r. (a ∷ r.0, r.1)) (split_dots (b ∷ s))
]

-- The first piece, and the pieces after it.
unfoldable pub split_from : ℕ → List ℕ → List ℕ × List (List ℕ)
split_from c [] = ([], [])
split_from c (a ∷ s) =
    let rest = split_from c s in if a == c then ([], rest.0 ∷ rest.1) else (a ∷ rest.0, rest.1)

-- `split(c)`
unfoldable pub split : ℕ → List ℕ → List (List ℕ)
split c s = let r = split_from c s in r.0 ∷ r.1

unfoldable pub is_ascii_digit : ℕ → Bool
is_ascii_digit c = leb 0x30 c && leb c 0x39

unfoldable pub is_ascii_alphabetic : ℕ → Bool
is_ascii_alphabetic c = (leb 0x41 c && leb c 0x5A) || (leb 0x61 c && leb c 0x7A)

unfoldable pub all_codes : (ℕ → Bool) → List ℕ → Bool
all_codes p [] = true
all_codes p (c ∷ s) = p c && all_codes p s

-- What a leading run of digits is, and what follows it.
unfoldable pub split_digits : List ℕ → List ℕ × List ℕ
split_digits [] = ([], [])
split_digits (c ∷ s) =
    let rest = split_digits s in if is_ascii_digit c then (c ∷ rest.0, rest.1) else ([], c ∷ s)

unfoldable pub digits_value : ℕ → List ℕ → ℕ
digits_value n [] = n
digits_value n (c ∷ s) = digits_value (n * 10 + (c - 0x30)) s

-- `parse` of an unsigned number below `limit`: digits, at least one, with a `+` allowed before them.
unfoldable pub parse_digits : ℕ → List ℕ → Option ℕ
parse_digits limit [] = none
parse_digits limit (c ∷ s) =
    if all_codes is_ascii_digit (c ∷ s) && ltb (digits_value 0 (c ∷ s)) limit
    then some (digits_value 0 (c ∷ s))
    else none

unfoldable pub parse_unsigned : ℕ → List ℕ → Option ℕ
parse_unsigned limit s = parse_digits limit (or_else (strip_prefix (0x2B ∷ []) s) s)
