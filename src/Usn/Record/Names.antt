-- ===== src/Usn/Record/Names.antt =====
-- crates/goz-core/src/usn/record.rs: how long the names are that come out of a buffer.
use goz.Prelude.{
  ℕ, zero, suc, ◌+◌, ◌-◌, ◌*◌, ◌≤◌, ◌≡◌, refl, sym, subst, ◌∙◌, inl, inr, Bool, Option, none, some,
  List, [], ◌∷◌, ◌++◌, Result, ok, err, ◌>>=◌, Result-cases, Bool-cases, leb, ◌==◌, length, take,
  drop, All, All-append, All-take, All-drop, length-take, arith,
}
use goz.Prelude.Bytes.{IsByte, from_le_bytes}
use goz.Wtf8.RoundTrip.{IsUnit}
use goz.Wtf8.Size.{length-from_utf16}
use goz.Usn.Record.{
  ParsedUsnRecord, WalkError, Gathered, SkipCounts, common_size, leading_value_len, field,
  checked_add, gather, walk_step, walk_from, walk_records, no_skips, utf16_units, extract_name,
  parse_v2, parse_v3, v2_size, v3_size,
}
use goz.Usn.Record.Walk.{walk_from_ends, walk_from_fails, walk_from_stops, walk_from_goes_on}

-- 255 UTF-16 units, the longest NTFS component, take at most 765 bytes.
abbrev pub IsShort : ParsedUsnRecord → Type 0
IsShort r = length r.name ≤ 765

utf16_units_lem :
    (bytes : List ℕ)
    → All IsByte bytes
    → All IsUnit (utf16_units bytes) × (2 * length (utf16_units bytes) ≤ length bytes)
unfolding utf16_units from_le_bytes
utf16_units_lem [] h = (tt, omega arith)
utf16_units_lem (a ∷ []) h = (tt, omega arith)
utf16_units_lem (a ∷ b ∷ rest) (ha, (hb, hs)) =
    let (units, short) = utf16_units_lem rest hs in ((omega arith, units), omega arith)

extract_name_short :
    (bytes : List ℕ) (name_off name_len min_off offset : ℕ) (name : List ℕ) (lossy : Bool)
    → All IsByte bytes
    → extract_name bytes name_off name_len min_off offset ≡ ok (name, lossy)
    → length name ≤ 765
unfolding extract_name checked_add
extract_name_short bytes name_off name_len min_off offset name lossy b e =
    let span : List ℕ = take (name_off + name_len - name_off) (drop name_off bytes) in
    let (units, half) =
      utf16_units_lem span (All-take IsByte _ _ (All-drop IsByte name_off bytes b)) in
    ground (
      arith,
      half,
      length-take (name_off + name_len - name_off) (drop name_off bytes),
      length-from_utf16 (utf16_units span) units,
    )

parse_v2-IsShort :
    (bytes : List ℕ) (offset : ℕ) (r : ParsedUsnRecord)
    → All IsByte bytes
    → parse_v2 bytes offset ≡ ok r
    → IsShort r
unfolding parse_v2
parse_v2-IsShort bytes offset r b e =
    elim (Result-cases (extract_name bytes (field 58 2 bytes) (field 56 2 bytes) v2_size offset)) [
      | inl ((name, lossy), got) ↦
          ground (arith, extract_name_short bytes _ _ v2_size offset name lossy b got)
      | inr (x, failed) ↦ ground arith
    ]

parse_v3-IsShort :
    (bytes : List ℕ) (offset : ℕ) (r : ParsedUsnRecord)
    → All IsByte bytes
    → parse_v3 bytes offset ≡ ok r
    → IsShort r
unfolding parse_v3
parse_v3-IsShort bytes offset r b e =
    elim (Result-cases (extract_name bytes (field 74 2 bytes) (field 72 2 bytes) v3_size offset)) [
      | inl ((name, lossy), got) ↦
          ground (arith, extract_name_short bytes _ _ v3_size offset name lossy b got)
      | inr (x, failed) ↦ ground arith
    ]

abbrev AllShort : Gathered → Type 0
AllShort (records, skipped) = All IsShort records

pushed_short :
    (parsed : Result ParsedUsnRecord WalkError) (rs : List ParsedUsnRecord) (sk : SkipCounts)
    (g' : Gathered)
    → ((r : ParsedUsnRecord) → parsed ≡ ok r → IsShort r)
    → All IsShort rs
    → (parsed >>= (λ r. ok (rs ++ r ∷ [], sk))) ≡ ok g'
    → AllShort g'
pushed_short (err x) rs sk g' short h e = cc
pushed_short (ok r) rs sk g' short h e =
    let same : (rs ++ r ∷ [], sk) ≡ g' = cc in
    subst AllShort same (All-append IsShort rs (r ∷ []) h (short r refl, tt))

gather_short :
    (version : ℕ) (bytes : List ℕ) (off : ℕ) (g g' : Gathered)
    → All IsByte bytes
    → AllShort g
    → gather version bytes off g ≡ ok g'
    → AllShort g'
unfolding gather
gather_short version bytes off (rs, sk) g' b h e = elim (Bool-cases (version == 2)) [
  | inl two ↦
      pushed_short (parse_v2 bytes off) rs sk g' (λ r. parse_v2-IsShort bytes off r b) h
        (rw (two, gather) at e)
  | inr other ↦ elim (Bool-cases (version == 3)) [
    | inl three ↦
        pushed_short (parse_v3 bytes off) rs sk g' (λ r. parse_v3-IsShort bytes off r b) h
          (rw (other, three, gather) at e)
    | inr skip ↦ let same : g'.0 ≡ rs = ground arith in rw same h
  ]
]

walk_step_gathers :
    (buf : List ℕ) (off : ℕ) (g g' : Gathered) (next : Option ℕ)
    → walk_step buf off g ≡ ok (g', next)
    → gather (field (off + 4) 2 buf) (take (off + field off 4 buf - off) (drop off buf)) off g
      ≡ ok g'
unfolding walk_step checked_add
walk_step_gathers buf off g g' next e = ground arith

walk_step_short :
    (buf : List ℕ) (off : ℕ) (g g' : Gathered) (next : Option ℕ)
    → All IsByte buf
    → AllShort g
    → walk_step buf off g ≡ ok (g', next)
    → AllShort g'
walk_step_short buf off g g' next b h e =
    gather_short _ _ off g g' (All-take IsByte _ _ (All-drop IsByte off buf b)) h
      (walk_step_gathers buf off g g' next e)

walk_from_short :
    (fuel : ℕ) (buf : List ℕ) (off : ℕ) (g g' : Gathered)
    → All IsByte buf
    → AllShort g
    → walk_from fuel buf off g ≡ some (ok g')
    → AllShort g'
walk_from_short zero buf off g g' b h e = unfold walk_from in cc
walk_from_short (suc fuel) buf off g g' b h e =
    elim (Bool-cases (leb (off + common_size) (length buf))) [
      | inr over ↦
          let same : g ≡ g' = cc (walk_from_ends fuel buf off g over) in subst AllShort same h
      | inl more ↦ elim (Result-cases (walk_step buf off g)) [
        | inr (x, failed) ↦ cc (walk_from_fails fuel buf off g x more failed)
        | inl ((g1, none), got) ↦
            let same : g1 ≡ g' = cc (walk_from_stops fuel buf off g g1 more got) in
            subst AllShort same (walk_step_short buf off g g1 none b h got)
        | inl ((g1, some off'), got) ↦
            walk_from_short fuel buf off' g1 g' b (walk_step_short buf off g g1 (some off') b h got)
              (sym (walk_from_goes_on fuel buf off g off' g1 more got) ∙ e)
      ]
    ]

-- However a buffer is corrupted, the names of the records that the walk returns are at most 765 bytes
-- long, the size of 255 UTF-16 units, so they are far below the name store's limit of 64 KiB.
pub walk_records-IsShort :
    (buf : List ℕ) (records : List ParsedUsnRecord) (skipped : SkipCounts)
    → All IsByte buf
    → walk_records buf ≡ some (ok (records, skipped))
    → All IsShort records
unfolding walk_records
walk_records-IsShort buf records skipped b e =
    walk_from_short _ buf leading_value_len ([], no_skips) (records, skipped) b tt e
