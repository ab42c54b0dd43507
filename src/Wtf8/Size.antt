-- ===== src/Wtf8/Size.antt =====
-- crates/goz-core/src/wtf8.rs: how many bytes a name takes.
use goz.Prelude.{
  ℕ, ◌*◌, ◌≤◌, ap, false, ◌&&◌, List, [], ◌∷◌, Bool-cases, inl, inr, All, length, length-append,
  arith,
}
use goz.Wtf8.{is_high, is_low, join_surrogates, encode_code_point, from_utf16}
use goz.Wtf8.RoundTrip.{IsUnit, scalars, encoded, from_utf16_loop-encoded}

length-code : (cp : ℕ) → length (encode_code_point cp []) ≤ 4
unfolding encode_code_point
length-code cp = ground arith

length-unit : (u : ℕ) → IsUnit u → length (encode_code_point u []) ≤ 3
unfolding encode_code_point
length-unit u h = ground arith

length-encoded :
    (units : List ℕ) → All IsUnit units → length (encoded (scalars units)) ≤ 3 * length units
unfolding scalars encoded
length-encoded [] h = omega arith
length-encoded (u ∷ []) h =
    omega (arith, length-append (encode_code_point u []) [], length-unit u h.0)
length-encoded (u ∷ v ∷ rest) (hu, (hv, hs)) = elim (Bool-cases (is_high u && is_low v)) [
  | inl pair ↦
      rw (pair, scalars)
        (omega (
          arith,
          length-append (encode_code_point (join_surrogates u v) []) (encoded (scalars rest)),
          length-code (join_surrogates u v),
          length-encoded rest hs,
        ))
  | inr alone ↦
      rw (alone, scalars)
        (omega (
          arith,
          length-append (encode_code_point u []) (encoded (scalars (v ∷ rest))),
          length-unit u hu,
          length-encoded (v ∷ rest) (hv, hs),
        ))
]

-- A name of `n` UTF-16 units takes at most `3 * n` bytes.
pub length-from_utf16 :
    (units : List ℕ) → All IsUnit units → length (from_utf16 units []).0 ≤ 3 * length units
unfolding from_utf16
length-from_utf16 units h =
    omega
      (arith, ap (λ r. length r.0) (from_utf16_loop-encoded units [] false), length-encoded units h)
