-- ===== src/Wtf8/Decode.antt =====
-- crates/goz-core/src/wtf8.rs: the iterator of code points over what the encoder wrote.
use goz.Prelude.{
  ℕ, suc, ◌+◌, ◌*◌, ◌/◌, ◌%◌, ◌^◌, ◌≤◌, ◌<◌, ◌≡◌, refl, ap, ◌∙◌, true, List, [], ◌∷◌, ◌++◌, ltb,
  ◌==◌, ==_iff, check_below, check_below_sound, Bool-cases, inl, inr, bit_and, bit_or, arith,
}
use goz.Prelude.Bits.{bit_and-ones, bit_or_disjoint}
use goz.Wtf8.{continuation, encode_code_point, lead, continue_with, least, next, code_points_from}

continuation_lem : (x : ℕ) → continuation x ≡ 128 + x % 64
unfolding continuation
continuation_lem x =
    ap (bit_or 0x80) (bit_and-ones 6 x) ∙ bit_or_disjoint 6 2 (x % 64) (omega arith)

marks_table : check_below 64 (λ r. bit_and (128 + r) 0xC0 == 0x80) ≡ true
unfolding check_below
marks_table = refl

continuation_mark : (x : ℕ) → bit_and (continuation x) 0xC0 ≡ 0x80
continuation_mark x =
    rw (continuation_lem x)
      ((==_iff _ _).0 (check_below_sound 64 _ (x % 64) marks_table (omega arith)))

continuation_payload : (x : ℕ) → bit_and (continuation x) 0x3F ≡ x % 64
continuation_payload x = rw (continuation_lem x) (bit_and-ones 6 (128 + x % 64) ∙ omega arith)

continue_step :
    (k cp x : ℕ) (bytes : List ℕ)
    → continue_with (suc k) cp (continuation x ∷ bytes) ≡ continue_with k (cp * 64 + x % 64) bytes
unfolding continue_with
continue_step k cp x bytes =
    rw (continuation_mark x, continuation_payload x, bit_or_disjoint 6 cp (x % 64) (omega arith))

lead_two : (h : ℕ) → h < 32 → lead (bit_or 0xC0 h) ≡ (2, h)
unfolding lead
lead_two h lt = rw (bit_or_disjoint 6 3 h (omega arith)) (ground (arith, bit_and-ones 5 (192 + h)))

lead_three : (h : ℕ) → h < 16 → lead (bit_or 0xE0 h) ≡ (3, h)
unfolding lead
lead_three h lt =
    rw (bit_or_disjoint 5 7 h (omega arith)) (ground (arith, bit_and-ones 4 (224 + h)))

lead_four : (h : ℕ) → h < 8 → lead (bit_or 0xF0 h) ≡ (4, h)
unfolding lead
lead_four h lt =
    rw (bit_or_disjoint 4 15 h (omega arith)) (ground (arith, bit_and-ones 3 (240 + h)))

next_one : (cp : ℕ) (rest : List ℕ) → cp < 0x80 → next (cp % 2 ^ 8) rest ≡ (cp, 1)
unfolding next lead continue_with least
next_one cp rest h = ground arith

next_two :
    (cp : ℕ) (rest : List ℕ)
    → 0x80 ≤ cp
    → cp < 0x800
    → next (bit_or 0xC0 (cp / 2 ^ 6 % 2 ^ 8)) (continuation cp ∷ rest) ≡ (cp, 2)
unfolding next least continue_with
next_two cp rest low high =
    rw (lead_two (cp / 2 ^ 6 % 2 ^ 8) (omega arith), continue_step 0 (cp / 2 ^ 6 % 2 ^ 8) cp rest)
      (ground arith)

next_three :
    (cp : ℕ) (rest : List ℕ)
    → 0x800 ≤ cp
    → cp < 0x10000
    → next (bit_or 0xE0 (cp / 2 ^ 12 % 2 ^ 8)) (continuation (cp / 2 ^ 6) ∷ continuation cp ∷ rest)
      ≡ (cp, 3)
unfolding next least continue_with
next_three cp rest low high =
    let h : ℕ = cp / 2 ^ 12 % 2 ^ 8 in
    rw
      (
        lead_three h (omega arith),
        continue_step 1 h (cp / 2 ^ 6) (continuation cp ∷ rest),
        continue_step 0 (h * 64 + cp / 2 ^ 6 % 64) cp rest,
      )
      (ground arith)

next_four :
    (cp : ℕ) (rest : List ℕ)
    → 0x10000 ≤ cp
    → cp ≤ 0x10FFFF
    → next
        (bit_or 0xF0 (cp / 2 ^ 18 % 2 ^ 8))
        (continuation (cp / 2 ^ 12) ∷ continuation (cp / 2 ^ 6) ∷ continuation cp ∷ rest)
      ≡ (cp, 4)
unfolding next least continue_with
next_four cp rest low high =
    let h : ℕ = cp / 2 ^ 18 % 2 ^ 8 in
    rw
      (
        lead_four h (omega arith),
        continue_step 2 h (cp / 2 ^ 12) (continuation (cp / 2 ^ 6) ∷ continuation cp ∷ rest),
        continue_step 1 (h * 64 + cp / 2 ^ 12 % 64) (cp / 2 ^ 6) (continuation cp ∷ rest),
        continue_step 0 ((h * 64 + cp / 2 ^ 12 % 64) * 64 + cp / 2 ^ 6 % 64) cp rest,
      )
      (ground arith)

pub encode_code_point-append :
    (cp : ℕ) (out : List ℕ) → encode_code_point cp out ≡ out ++ encode_code_point cp []
unfolding encode_code_point
encode_code_point-append cp out = ground arith

-- Reading back one encoded code point, whatever follows it.
pub code_points_from-encode :
    (cp : ℕ) (rest : List ℕ)
    → cp ≤ 0x10FFFF
    → code_points_from 0 (encode_code_point cp [] ++ rest) ≡ cp ∷ code_points_from 0 rest
unfolding encode_code_point code_points_from
code_points_from-encode cp rest h = elim (Bool-cases (ltb cp 0x80)) [
  | inl a ↦ rw (a, next_one cp rest (ground arith))
  | inr a ↦ elim (Bool-cases (ltb cp 0x800)) [
    | inl b ↦ rw (a, b) (rw (next_two cp rest (ground arith) (ground arith)))
    | inr b ↦ elim (Bool-cases (ltb cp 0x10000)) [
      | inl c ↦ rw (a, b, c) (rw (next_three cp rest (ground arith) (ground arith)))
      | inr c ↦ rw (a, b, c) (rw (next_four cp rest (ground arith) h))
    ]
  ]
]
