-- ===== src/Usn/Record/Runs.antt =====
-- Concrete buffers, and the theorems of the record walk at concrete inputs.
use goz.Prelude.{
  ℕ, true, ◌≡◌, ◌≢◌, refl, some, none, List, [], ◌∷◌, ◌++◌, ok, err, length, All, replicate, arith,
}
use goz.Prelude.Int.{pos}
use goz.Prelude.Bytes.{IsByte, to_le_bytes, from_le_bytes}
use goz.Wtf8.{from_utf16, from_utf16_loop, is_high, is_low, encode_code_point}
use goz.Usn.Record.{
  ParsedUsnRecord, parse_v2, extract_name, utf16_units, zero_record_length, to_i64, no_skips,
  walk_records, walk_from, walk_step, gather, checked_add, checked_next_multiple_of_eight,
  walk_journal_buffer,
}
use goz.Usn.Record.Walk.{walk_records-ne-none}
use goz.Usn.Record.Names.{IsShort, walk_records-IsShort}
use goz.Usn.Record.Layout.{Written, write_v2, unit_bytes, read_back}
use goz.Usn.Record.RoundTrip.{
  journal_buffer, write_records, padded, walk_journal_buffer-write_records,
}

-- A record of length 0 is refused at its offset.
zero_length : walk_records (to_le_bytes 8 7 ++ replicate 8 0) ≡ some (err (zero_record_length 8))
unfolding walk_records walk_from walk_step to_le_bytes from_le_bytes
zero_length = refl

abbrev created : Written
created = record {
  minor_version = 0;
  frn = 0x0005_0000_0000_002A;
  parent_frn = 0x0005_0000_0000_0005;
  usn = 4096;
  timestamp = 0;
  reason = 0x100;
  source_info = 0;
  security_id = 0;
  file_attributes = 0x20;
  units = 0x61 ∷ 0xD800 ∷ [];
}

created_small : length (journal_buffer 4200 (created ∷ created ∷ [])) ≡ 136
unfolding journal_buffer write_records padded write_v2 unit_bytes to_le_bytes
created_small = refl

walk_journal_buffer-write_records_example :
    walk_journal_buffer (journal_buffer 4200 (created ∷ created ∷ []))
    ≡ some (
        ok (record {
          next_usn = to_i64 4200;
          records = read_back created ∷ read_back created ∷ [];
          skipped = no_skips;
        }))
walk_journal_buffer-write_records_example =
    walk_journal_buffer-write_records 4200 (created ∷ created ∷ []) (omega arith) (omega arith)
      (omega (arith, created_small))

walk_records-ne-none_example : walk_records (1 ∷ 2 ∷ 3 ∷ []) ≢ none
walk_records-ne-none_example = walk_records-ne-none (1 ∷ 2 ∷ 3 ∷ [])

-- A record of an unknown version is skipped.
abbrev skippable : List ℕ
skippable = replicate 8 0 ++ (8 ∷ 0 ∷ 0 ∷ 0 ∷ 9 ∷ 0 ∷ 0 ∷ 0 ∷ [])

skippable_walk : walk_records skippable ≡ some (ok ([], record { v4 = 0; unknown_version = 1 }))
unfolding walk_records walk_from walk_step gather checked_add checked_next_multiple_of_eight
    from_le_bytes
skippable_walk = refl

one_created : List ℕ
one_created = journal_buffer 4200 (created ∷ [])

-- The name is `a` and a lone surrogate.
abbrev seen : ParsedUsnRecord
seen = record {
  major_version = 2;
  frn = 0x0005_0000_0000_002A;
  parent_frn = 0x0005_0000_0000_0005;
  usn = pos 4096;
  timestamp_ft = pos 0;
  reason = 0x100;
  attributes = 0x20;
  name = 0x61 ∷ 0xED ∷ 0xA0 ∷ 0x80 ∷ [];
  name_lossy = true;
}

one_created_walk : walk_records one_created ≡ some (ok (seen ∷ [], no_skips))
unfolding one_created walk_records walk_from walk_step gather checked_add
    checked_next_multiple_of_eight from_le_bytes journal_buffer write_records padded write_v2
    unit_bytes to_le_bytes parse_v2 extract_name utf16_units to_i64 from_utf16 from_utf16_loop
    is_high is_low encode_code_point
one_created_walk = refl

one_created_bytes : All IsByte one_created
unfolding one_created journal_buffer write_records padded write_v2 unit_bytes to_le_bytes
one_created_bytes = omega arith

walk_records-IsShort_example : All IsShort (seen ∷ [])
walk_records-IsShort_example =
    walk_records-IsShort one_created (seen ∷ []) no_skips one_created_bytes one_created_walk
