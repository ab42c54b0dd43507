-- ===== src/Wtf8/Runs.antt =====
-- Concrete runs of the WTF-8 codec, and its theorems at concrete inputs.
use goz.Prelude.{ℕ, ◌≡◌, refl, List, [], ◌∷◌, true, arith}
use goz.Wtf8.{
  from_utf16, from_utf16_loop, to_utf16, code_points, code_points_from, next, encode_code_point,
  is_high, is_low, join_surrogates, lead, continue_with, least,
}
use goz.Wtf8.RoundTrip.{to_utf16-from_utf16}

-- "a", a lone high surrogate, and U+1F600 as a surrogate pair.
abbrev mixed : List ℕ
mixed = 0x61 ∷ 0xD800 ∷ 0xD83D ∷ 0xDE00 ∷ []

mixed_bytes :
    from_utf16 mixed [] ≡ (0x61 ∷ 0xED ∷ 0xA0 ∷ 0x80 ∷ 0xF0 ∷ 0x9F ∷ 0x98 ∷ 0x80 ∷ [], true)
unfolding from_utf16 from_utf16_loop encode_code_point is_high is_low join_surrogates
mixed_bytes = refl

-- A byte that no sequence starts with, and a sequence that is cut, are replaced one byte at a time.
malformed : code_points (0xFF ∷ 0x62 ∷ 0xE2 ∷ 0x82 ∷ []) ≡ 0xFFFD ∷ 0x62 ∷ 0xFFFD ∷ 0xFFFD ∷ []
unfolding code_points code_points_from next lead continue_with least
malformed = refl

to_utf16-from_utf16_example : to_utf16 (from_utf16 mixed []).0 ≡ mixed
to_utf16-from_utf16_example = to_utf16-from_utf16 mixed (omega arith)
