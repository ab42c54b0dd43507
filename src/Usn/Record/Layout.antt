-- ===== src/Usn/Record/Layout.antt =====
-- The documented layout of a version 2 journal record, as a writer: what NTFS puts into a buffer that
-- crates/goz-core/src/usn/record.rs reads.
use goz.Prelude.{
  ℕ, ◌+◌, ◌-◌, ◌*◌, ◌/◌, ◌%◌, ◌^◌, ◌≤◌, ◌<◌, ◌≡◌, refl, ap, ◌∙◌, List, [], ◌∷◌, ◌++◌, ok, length,
  take, drop, All, take_all, le→ltb_false, arith,
}
use goz.Prelude.Bytes.{to_le_bytes, from_le_bytes, from_le_bytes-to_le_bytes}
use goz.Wtf8.{from_utf16}
use goz.Wtf8.RoundTrip.{IsUnit}
use goz.Usn.Record.{
  ParsedUsnRecord, field, to_i64, v2_size, utf16_units, extract_name, parse_v2, checked_add,
}

-- The values of a record, the two signed ones as bit patterns, with the name in UTF-16 units.
pub record Written : Type 0 where
  pub minor_version : ℕ
  pub frn : ℕ
  pub parent_frn : ℕ
  pub usn : ℕ
  pub timestamp : ℕ
  pub reason : ℕ
  pub source_info : ℕ
  pub security_id : ℕ
  pub file_attributes : ℕ
  pub units : List ℕ

pub record Fits (w : Written) : Type 0 where
  pub frn_fits : w.frn < 256 ^ 8
  pub parent_fits : w.parent_frn < 256 ^ 8
  pub usn_fits : w.usn < 256 ^ 8
  pub timestamp_fits : w.timestamp < 256 ^ 8
  pub reason_fits : w.reason < 256 ^ 4
  pub attributes_fit : w.file_attributes < 256 ^ 4
  pub units_fit : All IsUnit w.units
  pub name_fits : length w.units ≤ 255

unfoldable pub unit_bytes : List ℕ → List ℕ
unit_bytes [] = []
unit_bytes (u ∷ us) = to_le_bytes 2 u ++ unit_bytes us

abbrev pub record_length : Written → ℕ
record_length w = v2_size + 2 * length w.units

unfoldable pub write_v2 : Written → List ℕ
write_v2 w =
    to_le_bytes 4 (record_length w)
    ++ (to_le_bytes 2 2
        ++ (to_le_bytes 2 w.minor_version
            ++ (to_le_bytes 8 w.frn
                ++ (to_le_bytes 8 w.parent_frn
                    ++ (to_le_bytes 8 w.usn
                        ++ (to_le_bytes 8 w.timestamp
                            ++ (to_le_bytes 4 w.reason
                                ++ (to_le_bytes 4 w.source_info
                                    ++ (to_le_bytes 4 w.security_id
                                        ++ (to_le_bytes 4 w.file_attributes
                                            ++ (to_le_bytes 2 (2 * length w.units)
                                                ++ (to_le_bytes 2 v2_size
                                                    ++ unit_bytes w.units))))))))))))

-- The record that the reader is to return.
unfoldable pub read_back : Written → ParsedUsnRecord
read_back w = record {
  major_version = 2;
  frn = w.frn;
  parent_frn = w.parent_frn;
  usn = to_i64 w.usn;
  timestamp_ft = to_i64 w.timestamp;
  reason = w.reason;
  attributes = w.file_attributes;
  name = (from_utf16 w.units []).0;
  name_lossy = (from_utf16 w.units []).1;
}

length-unit_bytes : (us : List ℕ) → length (unit_bytes us) ≡ 2 * length us
unfolding unit_bytes to_le_bytes
length-unit_bytes [] = refl
length-unit_bytes (u ∷ us) = omega (arith, length-unit_bytes us)

pub length-write_v2 : (w : Written) → length (write_v2 w) ≡ record_length w
unfolding write_v2 to_le_bytes
length-write_v2 w = omega (arith, length-unit_bytes w.units)

utf16_units-unit_bytes : (us : List ℕ) → All IsUnit us → utf16_units (unit_bytes us) ≡ us
unfolding utf16_units unit_bytes to_le_bytes from_le_bytes
utf16_units-unit_bytes [] h = refl
utf16_units-unit_bytes (u ∷ us) (h, hs) =
    let low : u % 256 + 256 * (u / 256 % 256 + 0) ≡ u = omega arith in
    rw low (ap (◌∷◌ u) (utf16_units-unit_bytes us hs))

module _ (w : Written) (fits : Fits w) where
  frn_read : field 8 8 (write_v2 w) ≡ w.frn
  unfolding write_v2 to_le_bytes
  frn_read = from_le_bytes-to_le_bytes 8 w.frn fits.frn_fits

  parent_read : field 16 8 (write_v2 w) ≡ w.parent_frn
  unfolding write_v2 to_le_bytes
  parent_read = from_le_bytes-to_le_bytes 8 w.parent_frn fits.parent_fits

  usn_read : field 24 8 (write_v2 w) ≡ w.usn
  unfolding write_v2 to_le_bytes
  usn_read = from_le_bytes-to_le_bytes 8 w.usn fits.usn_fits

  timestamp_read : field 32 8 (write_v2 w) ≡ w.timestamp
  unfolding write_v2 to_le_bytes
  timestamp_read = from_le_bytes-to_le_bytes 8 w.timestamp fits.timestamp_fits

  reason_read : field 40 4 (write_v2 w) ≡ w.reason
  unfolding write_v2 to_le_bytes
  reason_read = from_le_bytes-to_le_bytes 4 w.reason fits.reason_fits

  attributes_read : field 52 4 (write_v2 w) ≡ w.file_attributes
  unfolding write_v2 to_le_bytes
  attributes_read = from_le_bytes-to_le_bytes 4 w.file_attributes fits.attributes_fit

  name_length_read : field 56 2 (write_v2 w) ≡ 2 * length w.units
  unfolding write_v2 to_le_bytes
  name_length_read =
      from_le_bytes-to_le_bytes 2 (2 * length w.units) (omega (arith, fits.name_fits))

  name_offset_read : field 58 2 (write_v2 w) ≡ v2_size
  unfolding write_v2 to_le_bytes
  name_offset_read = from_le_bytes-to_le_bytes 2 v2_size (omega arith)

  name_bytes : drop v2_size (write_v2 w) ≡ unit_bytes w.units
  unfolding write_v2 to_le_bytes
  name_bytes = refl

  span_read : utf16_units (take (record_length w - v2_size) (drop v2_size (write_v2 w))) ≡ w.units
  span_read =
      ap utf16_units (
        take_all (record_length w - v2_size) (drop v2_size (write_v2 w))
          (omega (arith, ap length name_bytes, length-unit_bytes w.units))
        ∙ name_bytes)
      ∙ utf16_units-unit_bytes w.units fits.units_fit

  name_read :
      (offset : ℕ)
      → extract_name (write_v2 w) v2_size (2 * length w.units) v2_size offset
        ≡ ok (from_utf16 w.units [])
  unfolding extract_name checked_add
  name_read offset = ground (arith, span_read, length-write_v2 w, fits.name_fits)

  pub parse_v2-write_v2 : (offset : ℕ) → parse_v2 (write_v2 w) offset ≡ ok (read_back w)
  unfolding parse_v2 read_back
  parse_v2-write_v2 offset = rw (
    le→ltb_false (length (write_v2 w)) v2_size (omega (arith, length-write_v2 w)),
    name_offset_read,
    name_length_read,
    name_read offset,
    frn_read,
    parent_read,
    usn_read,
    timestamp_read,
    reason_read,
    attributes_read,
  )
