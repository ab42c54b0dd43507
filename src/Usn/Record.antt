-- ===== src/Usn/Record.antt =====
-- crates/goz-core/src/usn/record.rs: the records of a journal or enumeration buffer.
-- A buffer is a list of bytes. `usize` is 64 bits wide.
pub mod Walk
pub mod Names
pub mod Layout
pub mod RoundTrip
mod Runs
use goz.Prelude.{
  ℕ, zero, suc, ◌+◌, ◌-◌, ◌*◌, ◌/◌, ◌%◌, ◌^◌, Bool, true, false, not, Option, none, some, List, [],
  ◌∷◌, ◌++◌, Result, ok, err, ◌>>=◌, ltb, leb, ◌==◌, if◌then◌else◌, length, take, drop,
}
use goz.Prelude.Bits.{has}
use goz.Prelude.Bytes.{from_le_bytes}
use goz.Prelude.Int.{ℤ, pos, negsuc}
use goz.Types.{Frn, max_name_utf16_bytes}
use goz.Wtf8.{from_utf16}
use mathlib.Core.Option

abbrev pub file_attribute_directory : ℕ
file_attribute_directory = 0x10

abbrev pub leading_value_len : ℕ
leading_value_len = 8

pub record ParsedUsnRecord : Type 0 where
  pub major_version : ℕ
  pub frn : Frn
  pub parent_frn : Frn
  pub usn : ℤ
  pub timestamp_ft : ℤ
  pub reason : ℕ
  pub attributes : ℕ
  pub name : List ℕ
  pub name_lossy : Bool

unfoldable pub is_dir : ParsedUsnRecord → Bool
is_dir r = has r.attributes file_attribute_directory

-- Each error carries the offset of the record that it is about.
pub data WalkError : Type 0 where
  zero_record_length record_overrun truncated_header malformed_name : ℕ → WalkError

pub record SkipCounts : Type 0 where
  pub v4 : ℕ
  pub unknown_version : ℕ

-- The little-endian field of `width` bytes at `offset` of a header.
abbrev pub field : ℕ → ℕ → List ℕ → ℕ
field offset width bytes = from_le_bytes (take width (drop offset bytes))

-- A 64-bit pattern read as an `i64`.
unfoldable pub to_i64 : ℕ → ℤ
to_i64 n = if ltb n (2 ^ 63) then pos n else negsuc (2 ^ 64 - 1 - n)

-- `usize::checked_add` and `usize::checked_next_multiple_of(8)`
unfoldable pub checked_add : ℕ → ℕ → Option ℕ
checked_add a b = if ltb (a + b) (2 ^ 64) then some (a + b) else none

unfoldable pub checked_next_multiple_of_eight : ℕ → Option ℕ
checked_next_multiple_of_eight n =
    let rounded = (n + 7) / 8 * 8 in if ltb rounded (2 ^ 64) then some rounded else none

abbrev ok_or {ℓ κ} : {A : Type ℓ} {E : Type κ} → Option A → E → Result A E
ok_or none e = err e
ok_or (some a) e = ok a

-- The sizes of `RawCommonHeader`, `RawV2` and `RawV3`.
abbrev pub common_size : ℕ
common_size = 8

abbrev pub v2_size : ℕ
v2_size = 60

abbrev pub v3_size : ℕ
v3_size = 76

-- `as_chunks::<2>()` with `u16::from_le_bytes`; a last odd byte is dropped.
unfoldable pub utf16_units : List ℕ → List ℕ
utf16_units [] = []
utf16_units (a ∷ []) = []
utf16_units (a ∷ b ∷ rest) = from_le_bytes (a ∷ b ∷ []) ∷ utf16_units rest

unfoldable pub extract_name : List ℕ → ℕ → ℕ → ℕ → ℕ → Result (List ℕ × Bool) WalkError
extract_name bytes name_off name_len min_name_off offset =
    if not (name_len % 2 == 0)
    then err (malformed_name offset)
    else if ltb max_name_utf16_bytes name_len
    then err (malformed_name offset)
    else if ltb name_off min_name_off
    then err (malformed_name offset)
    else do
      span_end ← ok_or (checked_add name_off name_len) (malformed_name offset)
      if ltb (length bytes) span_end
          then err (malformed_name offset)
          else ok (from_utf16 (utf16_units (take (span_end - name_off) (drop name_off bytes))) [])

-- The fields of `RawV2`, in order: length 4, major 2, minor 2, frn 8, parent 8, usn 8, timestamp 8,
-- reason 4, source 4, security 4, attributes 4, name length 2, name offset 2.
unfoldable pub parse_v2 : List ℕ → ℕ → Result ParsedUsnRecord WalkError
parse_v2 bytes offset = if ltb (length bytes) v2_size then err (truncated_header offset) else do
  (name, lossy) ← extract_name bytes (field 58 2 bytes) (field 56 2 bytes) v2_size offset
  ok (record {
    major_version = 2;
    frn = field 8 8 bytes;
    parent_frn = field 16 8 bytes;
    usn = to_i64 (field 24 8 bytes);
    timestamp_ft = to_i64 (field 32 8 bytes);
    reason = field 40 4 bytes;
    attributes = field 52 4 bytes;
    name = name;
    name_lossy = lossy;
  })

-- `RawV3` has 16-byte references, of which the low halves are read.
unfoldable pub parse_v3 : List ℕ → ℕ → Result ParsedUsnRecord WalkError
parse_v3 bytes offset = if ltb (length bytes) v3_size then err (truncated_header offset) else do
  (name, lossy) ← extract_name bytes (field 74 2 bytes) (field 72 2 bytes) v3_size offset
  ok (record {
    major_version = 3;
    frn = field 8 8 bytes;
    parent_frn = field 24 8 bytes;
    usn = to_i64 (field 40 8 bytes);
    timestamp_ft = to_i64 (field 48 8 bytes);
    reason = field 56 4 bytes;
    attributes = field 68 4 bytes;
    name = name;
    name_lossy = lossy;
  })

-- What the walk has gathered: the records, in order, and the counts of skipped ones.
abbrev pub Gathered : Type 0
Gathered = List ParsedUsnRecord × SkipCounts

-- The `match` on the major version, for the record's bytes at `off`.
unfoldable pub gather : ℕ → List ℕ → ℕ → Gathered → Result Gathered WalkError
gather version bytes off (records, skipped) =
    if version == 2
    then parse_v2 bytes off >>= (λ r. ok (records ++ r ∷ [], skipped))
    else if version == 3
    then parse_v3 bytes off >>= (λ r. ok (records ++ r ∷ [], skipped))
    else if version == 4
    then ok (records, record skipped { v4 = skipped.v4 + 1 })
    else ok (records, record skipped { unknown_version = skipped.unknown_version + 1 })

-- One round of the loop of `walk_records` at `off`: the offset of the next record, if the walk goes on.
unfoldable pub walk_step : List ℕ → ℕ → Gathered → Result (Gathered × Option ℕ) WalkError
walk_step buf off g =
    let rec_len = field off 4 buf in
    if rec_len == 0 then err (zero_record_length off) else do
      end ← ok_or (checked_add off rec_len) (record_overrun off)
      if ltb (length buf) end
          then err (record_overrun off)
          else (gather (field (off + 4) 2 buf) (take (end - off) (drop off buf)) off g
              >>= (λ g'. ok (g', checked_next_multiple_of_eight end)))

-- The loop takes fuel; `none` says that the fuel ran out.
unfoldable pub walk_from : ℕ → List ℕ → ℕ → Gathered → Option (Result Gathered WalkError)
walk_from zero buf off g = none
walk_from (suc fuel) buf off g = elim (leb (off + common_size) (length buf)) [
  | false ↦ some (ok g)
  | true ↦ elim (walk_step buf off g) [
    | err e ↦ some (err e)
    | ok (g', none) ↦ some (ok g')
    | ok (g', some off') ↦ walk_from fuel buf off' g'
  ]
]

abbrev pub no_skips : SkipCounts
no_skips = record { v4 = 0; unknown_version = 0 }

unfoldable pub walk_records : List ℕ → Option (Result Gathered WalkError)
walk_records buf = walk_from (length buf + 1) buf leading_value_len ([], no_skips)

pub record EnumWalk : Type 0 where
  pub next_start_frn : ℕ
  pub records : List ParsedUsnRecord
  pub skipped : SkipCounts

pub record JournalWalk : Type 0 where
  pub next_usn : ℤ
  pub records : List ParsedUsnRecord
  pub skipped : SkipCounts

abbrev enum_walk : ℕ → Result Gathered WalkError → Result EnumWalk WalkError
enum_walk frn (ok (records, skipped)) =
    ok (record { next_start_frn = frn; records = records; skipped = skipped })
enum_walk frn (err e) = err e

abbrev journal_walk : ℤ → Result Gathered WalkError → Result JournalWalk WalkError
journal_walk usn (ok (records, skipped)) =
    ok (record { next_usn = usn; records = records; skipped = skipped })
journal_walk usn (err e) = err e

unfoldable pub walk_enum_buffer : List ℕ → Option (Result EnumWalk WalkError)
walk_enum_buffer buf =
    if ltb (length buf) leading_value_len
    then some (err (truncated_header 0))
    else Option.map (enum_walk (field 0 8 buf)) (walk_records buf)

unfoldable pub walk_journal_buffer : List ℕ → Option (Result JournalWalk WalkError)
walk_journal_buffer buf =
    if ltb (length buf) leading_value_len
    then some (err (truncated_header 0))
    else Option.map (journal_walk (to_i64 (field 0 8 buf))) (walk_records buf)
