-- ===== src/Usn/Record/RoundTrip.antt =====
-- crates/goz-core/src/usn/record.rs: journal buffers of well-formed version 2 records.
use goz.Prelude.{
  ℕ, zero, suc, ◌+◌, ◌-◌, ◌*◌, ◌/◌, ◌%◌, ◌^◌, ◌≤◌, ◌<◌, ◌≡◌, refl, sym, ap, subst, ◌∙◌, some, List,
  [], ◌∷◌, ◌++◌, ok, length, take, drop, replicate, map, All, length-append, length-replicate,
  take-append, drop-append, drop-drop, length-drop, take-append_le, drop-append_le, le→ltb_false,
  arith,
}
use goz.Prelude.Bytes.{to_le_bytes, from_le_bytes, from_le_bytes-to_le_bytes, length-to_le_bytes}
use goz.Usn.Record.{
  ParsedUsnRecord, field, to_i64, v2_size, leading_value_len, no_skips, gather, checked_add,
  checked_next_multiple_of_eight, walk_step, walk_from, walk_records, walk_journal_buffer,
}
use goz.Usn.Record.Walk.{walk_from_ends, walk_from_goes_on}
use goz.Usn.Record.Layout.{
  Written, Fits, write_v2, record_length, length-write_v2, read_back, parse_v2-write_v2,
}
use mathlib.Core.List.{append_assoc, append-nil}
use mathlib.Core.Option

-- Records start at multiples of eight.
abbrev pub padding : Written → ℕ
padding w = (record_length w + 7) / 8 * 8 - record_length w

unfoldable pub padded : Written → List ℕ
padded w = write_v2 w ++ replicate (padding w) 0

unfoldable pub write_records : List Written → List ℕ
write_records [] = []
write_records (w ∷ ws) = padded w ++ write_records ws

length_read : (w : Written) → length w.units ≤ 255 → field 0 4 (write_v2 w) ≡ record_length w
unfolding write_v2 to_le_bytes
length_read w h = from_le_bytes-to_le_bytes 4 (record_length w) (omega arith)

version_read : (w : Written) → field 4 2 (write_v2 w) ≡ 2
unfolding write_v2 to_le_bytes from_le_bytes
version_read w = refl

-- A field that lies in the first record of a buffer.
field-append :
    (offset width : ℕ) (front rest : List ℕ)
    → offset + width ≤ length front
    → field offset width (front ++ rest) ≡ field offset width front
field-append offset width front rest h =
    ap (λ t. from_le_bytes (take width t)) (drop-append_le front rest offset (omega arith))
    ∙ ap from_le_bytes
        (take-append_le (drop offset front) rest width (omega (arith, length-drop offset front)))

module _ (pre rest : List ℕ) (w : Written) (fits : Fits w) (off : ℕ) (here : length pre ≡ off) where
  abbrev laid : List ℕ
  laid = pre ++ (write_v2 w ++ rest)

  at_record : drop off laid ≡ write_v2 w ++ rest
  at_record = drop-append pre (write_v2 w ++ rest) off here

  field_here :
      (offset width : ℕ)
      → offset + width ≤ v2_size
      → field (off + offset) width laid ≡ field offset width (write_v2 w)
  field_here offset width h =
      ap (λ t. from_le_bytes (take width t))
        (sym (drop-drop off offset laid) ∙ ap (drop offset) at_record)
      ∙ field-append offset width (write_v2 w) rest (omega (arith, length-write_v2 w))

  length_here : field off 4 laid ≡ record_length w
  length_here =
      ap (λ t. from_le_bytes (take 4 t)) at_record
      ∙ field-append 0 4 (write_v2 w) rest (omega (arith, length-write_v2 w))
      ∙ length_read w fits.name_fits

  version_here : field (off + 4) 2 laid ≡ 2
  version_here = field_here 4 2 (omega arith) ∙ version_read w

  slice_here : take (off + record_length w - off) (drop off laid) ≡ write_v2 w
  slice_here =
      ap (take (off + record_length w - off)) at_record
      ∙ take-append (write_v2 w) rest (off + record_length w - off)
          (omega (arith, length-write_v2 w))

  gather_here :
      (records : List ParsedUsnRecord)
      → gather 2 (write_v2 w) off (records, no_skips) ≡ ok (records ++ read_back w ∷ [], no_skips)
  unfolding gather
  gather_here records = rw (parse_v2-write_v2 w fits off)

  length-laid : length laid ≡ off + record_length w + length rest
  length-laid = omega (
    arith,
    length-append pre (write_v2 w ++ rest),
    length-append (write_v2 w) rest,
    length-write_v2 w,
  )

  walk_step-write_v2 :
      (records : List ParsedUsnRecord)
      → length laid < 2 ^ 63
      → walk_step laid off (records, no_skips)
        ≡ ok ((records ++ read_back w ∷ [], no_skips), some ((off + record_length w + 7) / 8 * 8))
  unfolding walk_step
  walk_step-write_v2 records h =
      rw
        (
          length_here,
          added,
          le→ltb_false (length laid) (off + record_length w) (omega (arith, length-laid)),
          version_here,
          slice_here,
          gather_here records,
          rounded,
        )
        (ground arith)
    where
      added : checked_add off (record_length w) ≡ some (off + record_length w)
      added = unfold checked_add in ground (arith, length-laid)

      rounded :
          checked_next_multiple_of_eight (off + record_length w)
          ≡ some ((off + record_length w + 7) / 8 * 8)
      rounded = unfold checked_next_multiple_of_eight in ground (arith, length-laid)

length-padded : (w : Written) → length (padded w) ≡ (record_length w + 7) / 8 * 8
unfolding padded
length-padded w = omega (
  arith,
  length-append (write_v2 w) (replicate (padding w) 0),
  length-write_v2 w,
  length-replicate {A = ℕ} (padding w) 0,
)

-- The walk from the start of a record, with the buffer's part before it and the records from there on.
record At (buf pre : List ℕ) (off : ℕ) (ws : List Written) : Type 0 where
  here : length pre ≡ off
  aligned : off % 8 ≡ 0
  whole : buf ≡ pre ++ write_records ws
  small : length buf < 2 ^ 63
  fit : All Fits ws

next-At :
    (buf pre : List ℕ) (off : ℕ) (w : Written) (ws : List Written)
    → At buf pre off (w ∷ ws)
    → At buf (pre ++ padded w) ((off + record_length w + 7) / 8 * 8) ws
unfolding write_records
next-At buf pre off w ws a = record {
  here = omega (arith, length-append pre (padded w), length-padded w, a.here, a.aligned);
  aligned = omega arith;
  whole = a.whole ∙ sym (append_assoc pre (padded w) (write_records ws));
  small = a.small;
  fit = a.fit.1;
}

split_record :
    (buf pre : List ℕ) (off : ℕ) (w : Written) (ws : List Written)
    → At buf pre off (w ∷ ws)
    → buf ≡ pre ++ (write_v2 w ++ (replicate (padding w) 0 ++ write_records ws))
unfolding write_records padded
split_record buf pre off w ws a =
    a.whole ∙ ap (◌++◌ pre) (append_assoc (write_v2 w) (replicate (padding w) 0) (write_records ws))

end_reached : (buf pre : List ℕ) (off : ℕ) → At buf pre off [] → length buf ≡ off
unfolding write_records
end_reached buf pre off a = omega (arith, ap length a.whole, length-append pre [], a.here)

record_inside :
    (buf pre : List ℕ) (off : ℕ) (w : Written) (ws : List Written)
    → At buf pre off (w ∷ ws)
    → off + record_length w ≤ length buf
record_inside buf pre off w ws a =
    let rest : List ℕ = replicate (padding w) 0 ++ write_records ws in
    omega (
      arith,
      ap length (split_record buf pre off w ws a),
      length-append pre (write_v2 w ++ rest),
      length-append (write_v2 w) rest,
      length-write_v2 w,
      a.here,
    )

step-At :
    (buf pre : List ℕ) (off : ℕ) (w : Written) (ws : List Written) (records : List ParsedUsnRecord)
    → At buf pre off (w ∷ ws)
    → walk_step buf off (records, no_skips)
      ≡ ok ((records ++ read_back w ∷ [], no_skips), some ((off + record_length w + 7) / 8 * 8))
step-At buf pre off w ws records a =
    let rest : List ℕ = replicate (padding w) 0 ++ write_records ws in
    let split = split_record buf pre off w ws a in
    rw split (
      walk_step-write_v2 pre rest w a.fit.0 off a.here records
        (subst (λ b. length b < 2 ^ 63) split a.small))

walk_from-write_all :
    (ws : List Written) (fuel : ℕ) (buf pre : List ℕ) (off : ℕ) (records : List ParsedUsnRecord)
    → At buf pre off ws
    → length buf - off < fuel
    → walk_from fuel buf off (records, no_skips) ≡ some (ok (records ++ map read_back ws, no_skips))
walk_from-write_all ws zero buf pre off records a h = absurd (omega arith)
walk_from-write_all [] (suc fuel) buf pre off records a h =
    walk_from_ends fuel buf off (records, no_skips) (ground (arith, end_reached buf pre off a))
    ∙ ap (λ t. some (ok (t, no_skips))) (sym (append-nil records))
walk_from-write_all (w ∷ ws) (suc fuel) buf pre off records a h =
    let inside = record_inside buf pre off w ws a in
    let off' : ℕ = (off + record_length w + 7) / 8 * 8 in
    walk_from_goes_on fuel buf off (records, no_skips) off' (records ++ read_back w ∷ [], no_skips)
      (ground arith) (step-At buf pre off w ws records a)
    ∙ walk_from-write_all ws fuel buf (pre ++ padded w) off' (records ++ read_back w ∷ [])
        (next-At buf pre off w ws a) (omega arith)
    ∙ ap (λ t. some (ok (t, no_skips))) (append_assoc records (read_back w ∷ []) (map read_back ws))

unfoldable pub journal_buffer : ℕ → List Written → List ℕ
journal_buffer usn ws = to_le_bytes leading_value_len usn ++ write_records ws

length-journal_buffer :
    (usn : ℕ) (ws : List Written) → leading_value_len ≤ length (journal_buffer usn ws)
unfolding journal_buffer to_le_bytes
length-journal_buffer usn ws = omega arith

leading_value :
    (usn : ℕ) (ws : List Written) → usn < 2 ^ 64 → field 0 8 (journal_buffer usn ws) ≡ usn
unfolding journal_buffer to_le_bytes
leading_value usn ws h = from_le_bytes-to_le_bytes 8 usn (omega arith)

walk_records-write_records :
    (usn : ℕ) (ws : List Written)
    → All Fits ws
    → length (journal_buffer usn ws) < 2 ^ 63
    → walk_records (journal_buffer usn ws) ≡ some (ok (map read_back ws, no_skips))
unfolding walk_records
walk_records-write_records usn ws f small =
    walk_from-write_all ws _ (journal_buffer usn ws) (to_le_bytes leading_value_len usn)
      leading_value_len []
      (record {
        here = length-to_le_bytes leading_value_len usn;
        aligned = refl;
        whole = unfold journal_buffer in refl;
        small = small;
        fit = f;
      })
      (omega arith)

-- A journal buffer is the next USN followed by padded version 2 records. Whatever the records' values
-- are, as long as they fit their fields and the names have at most 255 units, the walk returns the next
-- USN and every record with its values, in order, and skips nothing.
pub walk_journal_buffer-write_records :
    (usn : ℕ) (ws : List Written)
    → usn < 2 ^ 64
    → All Fits ws
    → length (journal_buffer usn ws) < 2 ^ 63
    → walk_journal_buffer (journal_buffer usn ws)
      ≡ some (ok (record { next_usn = to_i64 usn; records = map read_back ws; skipped = no_skips }))
unfolding walk_journal_buffer
walk_journal_buffer-write_records usn ws u f small =
    rw
      (
        le→ltb_false _ _ (length-journal_buffer usn ws),
        walk_records-write_records usn ws f small,
        Option.map,
      )
      (cc (leading_value usn ws u))
