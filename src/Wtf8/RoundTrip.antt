-- ===== src/Wtf8/RoundTrip.antt =====
-- crates/goz-core/src/wtf8.rs: from UTF-16 to bytes and back.
use goz.Prelude.{
  ℕ, ◌+◌, ◌-◌, ◌*◌, ◌^◌, ◌≤◌, ◌<◌, ◌≡◌, refl, sym, ap, ◌∙◌, Bool, true, false, List, [], ◌∷◌, ◌++◌,
  ◌&&◌, ◌||◌, Bool-cases, inl, inr, All, arith,
}
use goz.Prelude.Bits.{bit_and-ones, bit_or_disjoint}
use goz.Wtf8.{
  is_high, is_low, join_surrogates, encode_code_point, from_utf16_loop, from_utf16,
  code_points_from, code_points, units_of, to_utf16_loop, to_utf16,
}
use goz.Wtf8.Decode.{encode_code_point-append, code_points_from-encode}
use mathlib.Core.List.{append_assoc, append-nil}

abbrev pub IsUnit : ℕ → Type 0
IsUnit u = u < 2 ^ 16

-- The code points that `from_utf16` encodes: a surrogate pair is one, any other unit stands alone.
unfoldable pub scalars : List ℕ → List ℕ
scalars [] = []
scalars (u ∷ []) = u ∷ []
scalars (u ∷ v ∷ rest) = elim (is_high u && is_low v) [
  | true ↦ join_surrogates u v ∷ scalars rest
  | false ↦ u ∷ scalars (v ∷ rest)
]

unfoldable pub encoded : List ℕ → List ℕ
encoded [] = []
encoded (c ∷ cs) = encode_code_point c [] ++ encoded cs

pub is_surrogate : ℕ → Bool
is_surrogate c = is_high c || is_low c

pub any_surrogate : List ℕ → Bool
any_surrogate [] = false
any_surrogate (c ∷ cs) = is_surrogate c || any_surrogate cs

join_surrogates_lem :
    (u v : ℕ)
    → is_high u && is_low v ≡ true
    → join_surrogates u v ≡ 0x10000 + (u - 0xD800) * 1024 + (v - 0xDC00)
unfolding join_surrogates is_high is_low
join_surrogates_lem u v h =
    ap (λ (t : ℕ). 0x10000 + t) (bit_or_disjoint 10 (u - 0xD800) (v - 0xDC00) (ground arith))
    ∙ omega arith

units_of-join :
    (u v : ℕ) → is_high u && is_low v ≡ true → units_of (join_surrogates u v) ≡ u ∷ v ∷ []
unfolding units_of is_high is_low
units_of-join u v h =
    rw (join_surrogates_lem u v h)
      (ground (arith, bit_and-ones 10 (0x10000 + (u - 0xD800) * 1024 + (v - 0xDC00) - 0x10000)))

join-not_surrogate :
    (u v : ℕ) → is_high u && is_low v ≡ true → is_surrogate (join_surrogates u v) ≡ false
unfolding is_surrogate is_high is_low
join-not_surrogate u v h = rw (join_surrogates_lem u v h) (ground arith)

join-le : (u v : ℕ) → is_high u && is_low v ≡ true → join_surrogates u v ≤ 0x10FFFF
unfolding is_high is_low
join-le u v h = rw (join_surrogates_lem u v h) (ground arith)

append_encoded :
    (out cs : List ℕ) (c : ℕ)
    → encode_code_point c out ++ encoded cs ≡ out ++ (encode_code_point c [] ++ encoded cs)
append_encoded out cs c =
    ap (λ t. t ++ encoded cs) (encode_code_point-append c out)
    ∙ append_assoc out (encode_code_point c []) (encoded cs)

both {ℓ κ} :
    {A : Type ℓ} {B : Type κ} {a a' : A} {b b' : B}
    → a ≡ a'
    → b ≡ b'
    → ◌≡◌ {A = A × B} (a, b) (a', b')
both p q = λ i. (p i, q i)

pub from_utf16_loop-encoded :
    (units out : List ℕ) (lone : Bool)
    → from_utf16_loop units out lone
      ≡ (out ++ encoded (scalars units), lone || any_surrogate (scalars units))
unfolding from_utf16_loop scalars encoded any_surrogate is_surrogate
from_utf16_loop-encoded [] out lone = both (sym (append-nil out)) (ground arith)
from_utf16_loop-encoded (u ∷ []) out lone =
    both
      (encode_code_point-append u out ∙ ap (◌++◌ out) (sym (append-nil (encode_code_point u []))))
      (ground arith)
from_utf16_loop-encoded (u ∷ v ∷ rest) out lone = elim (Bool-cases (is_high u && is_low v)) [
  | inl pair ↦
      rw (pair, from_utf16_loop, scalars)
        (from_utf16_loop-encoded rest (encode_code_point (join_surrogates u v) out) lone
          ∙ both (append_encoded out (scalars rest) (join_surrogates u v))
              (ground (arith, join-not_surrogate u v pair)))
  | inr alone ↦
      rw (alone, from_utf16_loop, scalars)
        (from_utf16_loop-encoded (v ∷ rest) (encode_code_point u out)
            (lone || (is_high u || is_low u))
          ∙ both (append_encoded out (scalars (v ∷ rest)) u) (ground arith))
]

code_points_from-encoded :
    (cs : List ℕ) → All (λ c. c ≤ 0x10FFFF) cs → code_points_from 0 (encoded cs) ≡ cs
unfolding encoded
code_points_from-encoded [] h = unfold code_points_from in refl
code_points_from-encoded (c ∷ cs) (h, hs) =
    code_points_from-encode c (encoded cs) h ∙ ap (◌∷◌ c) (code_points_from-encoded cs hs)

scalars-le : (units : List ℕ) → All IsUnit units → All (λ c. c ≤ 0x10FFFF) (scalars units)
unfolding scalars
scalars-le [] h = tt
scalars-le (u ∷ []) h = (omega arith, tt)
scalars-le (u ∷ v ∷ rest) (hu, (hv, hs)) = elim (Bool-cases (is_high u && is_low v)) [
  | inl pair ↦ rw (pair, scalars) (join-le u v pair, scalars-le rest hs)
  | inr alone ↦ rw (alone, scalars) (omega arith, scalars-le (v ∷ rest) (hv, hs))
]

units_of-unit : (u : ℕ) → IsUnit u → units_of u ≡ u ∷ []
unfolding units_of
units_of-unit u h = ground arith

to_utf16_loop-scalars : (units : List ℕ) → All IsUnit units → to_utf16_loop (scalars units) ≡ units
unfolding scalars to_utf16_loop
to_utf16_loop-scalars [] h = refl
to_utf16_loop-scalars (u ∷ []) h = ap (λ t. t ++ []) (units_of-unit u h.0)
to_utf16_loop-scalars (u ∷ v ∷ rest) (hu, (hv, hs)) = elim (Bool-cases (is_high u && is_low v)) [
  | inl pair ↦
      rw (pair, scalars, units_of-join u v pair)
        (ap (λ t. u ∷ v ∷ t) (to_utf16_loop-scalars rest hs))
  | inr alone ↦
      rw (alone, scalars, units_of-unit u hu)
        (ap (◌∷◌ u) (to_utf16_loop-scalars (v ∷ rest) (hv, hs)))
]

code_points-from_utf16 :
    (units : List ℕ) → All IsUnit units → code_points (from_utf16 units []).0 ≡ scalars units
unfolding code_points from_utf16
code_points-from_utf16 units h =
    ap (λ r. code_points_from 0 r.0) (from_utf16_loop-encoded units [] false)
    ∙ code_points_from-encoded (scalars units) (scalars-le units h)

-- Every sequence of UTF-16 units, lone surrogates included, comes back unchanged from its WTF-8 bytes.
pub to_utf16-from_utf16 :
    (units : List ℕ) → All IsUnit units → to_utf16 (from_utf16 units []).0 ≡ units
unfolding to_utf16
to_utf16-from_utf16 units h =
    ap to_utf16_loop (code_points-from_utf16 units h) ∙ to_utf16_loop-scalars units h

-- `from_utf16` only appends to its output, and it reports a lone surrogate exactly if the bytes that it
-- writes hold the encoding of a surrogate, that is, if they are not UTF-8.
from_utf16-surrogate :
    (units out : List ℕ)
    → All IsUnit units
    → ((from_utf16 units out).0 ≡ out ++ (from_utf16 units []).0)
      × ((from_utf16 units out).1 ≡ any_surrogate (code_points (from_utf16 units []).0))
from_utf16-surrogate units out h = (
  unfold from_utf16 in
      ap (λ r. r.0) (from_utf16_loop-encoded units out false)
      ∙ sym (ap (λ r. out ++ r.0) (from_utf16_loop-encoded units [] false)),
  unfold from_utf16 in
      ap (λ r. r.1) (from_utf16_loop-encoded units out false)
      ∙ ap any_surrogate (sym (code_points-from_utf16 units h)),
)
