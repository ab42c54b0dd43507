-- ===== src/Layout/Parse.antt =====
-- crates/goz-core/src/layout/parse.rs: the walk of one FILE_LAYOUT buffer. The views of the structures
-- are read field by field; a `what` text of an error is a constructor.
pub mod Ends
pub mod Total
mod Runs
use goz.Prelude.{
  ℕ, zero, suc, ◌+◌, ◌-◌, ◌/◌, ◌%◌, ◌^◌, Bool, true, false, not, ◌&&◌, ◌||◌, Option, none, some,
  List, [], ◌∷◌, ◌++◌, ltb, leb, ◌==◌, if◌then◌else◌, length, take, drop, Result, ok, err,
}
use goz.Prelude.Bits.{has}
use goz.Prelude.Int.{ℤ, pos_part}
use goz.Types.{Frn, max_name_utf16_bytes}
use goz.Wtf8.{from_utf16}
use goz.Wtf8.Lossy.{same_bytes}
use goz.Usn.Record.{field, to_i64, checked_add, utf16_units}
use goz.Layout.{LayoutName, LayoutFile}

abbrev pub file_layout_name_entry_primary : ℕ
file_layout_name_entry_primary = 1

abbrev pub file_layout_name_entry_dos : ℕ
file_layout_name_entry_dos = 2

abbrev pub file_attribute_directory : ℕ
file_attribute_directory = 0x10

-- `::$DATA`
abbrev pub unnamed_data_identifier : List ℕ
unnamed_data_identifier =
    0x3A ∷ 0 ∷ 0x3A ∷ 0 ∷ 0x24 ∷ 0 ∷ 0x44 ∷ 0 ∷ 0x41 ∷ 0 ∷ 0x54 ∷ 0 ∷ 0x41 ∷ 0 ∷ []

abbrev pub info_entry_legacy_len : ℕ
info_entry_legacy_len = 56

-- The sizes of `RawOutputHeader`, `RawFileEntry`, `RawNameEntry`, `RawInfoPrefix`, `RawStreamEntry`.
abbrev pub header_size : ℕ
header_size = 16

abbrev pub file_size : ℕ
file_size = 40

abbrev pub name_size : ℕ
name_size = 24

abbrev pub info_size : ℕ
info_size = 24

abbrev pub stream_size : ℕ
stream_size = 48

-- What was read or followed.
pub data What : Type 0 where
  output_header first_file_offset file_entry next_file_offset : What
  first_name_offset name_entry file_name file_name_length next_name_offset : What
  extra_info_offset info_entry : What
  first_stream_offset stream_entry stream_identifier stream_identifier_length : What
  next_stream_offset : What

pub data LayoutWalkError : Type 0 where
  -- what, offset, need, len
  truncated : What → ℕ → ℕ → ℕ → LayoutWalkError
  -- what, offset, len
  offset_out_of_bounds : What → ℕ → ℕ → LayoutWalkError
  -- what, offset, rel, min
  offset_cycle : What → ℕ → ℕ → ℕ → LayoutWalkError
  -- what, offset, len
  odd_utf16_length : What → ℕ → ℕ → LayoutWalkError
  -- what, offset, len, max
  name_too_long : What → ℕ → ℕ → ℕ → LayoutWalkError
  -- count, max, len
  too_many_names : ℕ → ℕ → ℕ → LayoutWalkError

-- `none` says that a loop ran out of fuel.
abbrev pub Walk : Type 0 → Type 0
Walk A = Option (Result A LayoutWalkError)

abbrev pub give : {A : Type 0} → A → Walk A
give a = some (ok a)

abbrev pub refuse : {A : Type 0} → LayoutWalkError → Walk A
refuse e = some (err e)

infixl 5 ◌>>=◌ ◌>>◌
abbrev pub ◌>>=◌ : {A B : Type 0} → Walk A → (A → Walk B) → Walk B
some (ok a) >>= f = f a
some (err e) >>= f = some (err e)
none >>= f = none

abbrev pub ◌>>◌ : {A B : Type 0} → Walk A → Walk B → Walk B
m >> k = m >>= λ _. k

-- The bytes up to `end`, which is `none` where the sum overflows.
unfoldable pub read_to : List ℕ → ℕ → ℕ → What → Option ℕ → Walk (List ℕ)
read_to buf offset need what none = refuse (truncated what offset need (length buf))
read_to buf offset need what (some end) =
    if ltb (length buf) end
    then refuse (truncated what offset need (length buf))
    else give (take (end - offset) (drop offset buf))

unfoldable pub read_bytes : List ℕ → ℕ → ℕ → What → Walk (List ℕ)
read_bytes buf offset need what =
    if need == 0
    then give []
    else if leb (length buf) offset
    then refuse (offset_out_of_bounds what offset (length buf))
    else read_to buf offset need what (checked_add offset need)

unfoldable pub follow_to : List ℕ → What → Option ℕ → Walk ℕ
follow_to buf what none = refuse (offset_out_of_bounds what (2 ^ 64 - 1) (length buf))
follow_to buf what (some abs) =
    if leb (length buf) abs then refuse (offset_out_of_bounds what abs (length buf)) else give abs

unfoldable pub follow_offset : List ℕ → ℕ → ℕ → ℕ → What → Walk ℕ
follow_offset buf base rel min_rel what =
    if ltb rel min_rel
    then refuse (offset_cycle what base rel min_rel)
    else follow_to buf what (checked_add base rel)

unfoldable pub is_unnamed_data_identifier : List ℕ → Bool
is_unnamed_data_identifier identifier =
    (length identifier == 0) || same_bytes identifier unnamed_data_identifier

-- The fields of a name entry, in order: next 4, flags 4, parent 8, length 4, reserved 4. What is
-- checked of the length of the name, and the name with the offset of the next.
unfoldable pub check_name_length : ℕ → ℕ → Walk (Unit {0})
check_name_length name_off name_len =
    if ltb max_name_utf16_bytes name_len
    then refuse (name_too_long file_name name_off name_len max_name_utf16_bytes)
    else if not (name_len % 2 == 0)
    then refuse (odd_utf16_length file_name_length name_off name_len)
    else give tt

unfoldable pub read_name : List ℕ → ℕ → Walk (LayoutName × ℕ)
read_name buf name_off = do
  raw ← read_bytes buf name_off name_size name_entry
  let name_len = field 16 4 raw
  check_name_length name_off name_len
  name_bytes ← read_bytes buf (name_off + name_size) name_len file_name
  let name = from_utf16 (utf16_units name_bytes) []
  let flags = field 4 4 raw
  give (
    record {
      parent_frn = field 8 8 raw;
      name = name.0;
      name_lossy = name.1;
      dos_only =
          has flags file_layout_name_entry_dos && not (has flags file_layout_name_entry_primary);
    },
    field 0 4 raw,
  )

unfoldable pub names_from : ℕ → List ℕ → ℕ → List LayoutName → Walk (List LayoutName)
names_from zero buf name_off names = none
names_from (suc fuel) buf name_off names = do
  entry ← read_name buf name_off
  elim (entry.1 == 0) [
    | true ↦ give (names ++ entry.0 ∷ [])
    | false ↦ do
      next ← follow_offset buf name_off entry.1 name_size next_name_offset
      names_from fuel buf next (names ++ entry.0 ∷ [])
  ]

-- `if offset != 0 { follow it; ... }`
unfoldable pub parse_names : List ℕ → ℕ → ℕ → Walk (List LayoutName)
parse_names buf entry_off rel = elim (rel == 0) [
  | true ↦ give []
  | false ↦ do
    name_off ← follow_offset buf entry_off rel file_size first_name_offset
    names_from (length buf) buf name_off []
]

-- The last write time is the third field of eight bytes; `declared` is what the entry says of its
-- length.
unfoldable pub parse_info : List ℕ → ℕ → ℕ → ℕ → Walk (Option ℤ)
parse_info buf entry_off rel declared = elim (rel == 0) [
  | true ↦ give none
  | false ↦ do
    info_off ← follow_offset buf entry_off rel file_size extra_info_offset
    let available = if declared == 0 then info_entry_legacy_len else declared
    elim (leb info_size available) [
      | false ↦ give none
      | true ↦ do
        info ← read_bytes buf info_off info_size info_entry
        give (some (to_i64 (field 16 8 info)))
    ]
]

-- The fields of a stream entry, in order: version 4, next 4, flags 4, extents 4, allocation 8, end of
-- file 8, information 4, type 4, attributes 4, identifier length 4. The size so far and the next.
unfoldable pub read_stream : List ℕ → Bool → ℕ → Option ℕ → Walk (Option ℕ × ℕ)
read_stream buf is_dir stream_off size = do
  raw ← read_bytes buf stream_off stream_size stream_entry
  let id_len = field 44 4 raw
  if not (id_len % 2 == 0)
      then refuse (odd_utf16_length stream_identifier_length stream_off id_len)
      else (do
        identifier ← read_bytes buf (stream_off + stream_size) id_len stream_identifier
        let found =
            not is_dir
            && (elim size as (λ _. Bool) [ none ↦ true | some n ↦ false ]
                && is_unnamed_data_identifier identifier)
        give (if found then some (pos_part (to_i64 (field 24 8 raw))) else size, field 4 4 raw))

unfoldable pub streams_from : ℕ → List ℕ → Bool → ℕ → Option ℕ → Walk (Option ℕ)
streams_from zero buf is_dir stream_off size = none
streams_from (suc fuel) buf is_dir stream_off size = do
  entry ← read_stream buf is_dir stream_off size
  elim (entry.1 == 0) [
    | true ↦ give entry.0
    | false ↦ do
      next ← follow_offset buf stream_off entry.1 stream_size next_stream_offset
      streams_from fuel buf is_dir next entry.0
  ]

unfoldable pub parse_streams : List ℕ → Bool → ℕ → ℕ → Walk (Option ℕ)
parse_streams buf is_dir entry_off rel = elim (rel == 0) [
  | true ↦ give none
  | false ↦ do
    stream_off ← follow_offset buf entry_off rel file_size first_stream_offset
    streams_from (length buf) buf is_dir stream_off none
]

-- The fields of a file entry, in order: version 4, next 4, flags 4, attributes 4, reference 8, names 4,
-- streams 4, information 4, its length 4.
unfoldable pub parse_file : List ℕ → ℕ → List ℕ → Walk LayoutFile
parse_file buf entry_off entry = do
  let attributes = field 12 4 entry
  names ← parse_names buf entry_off (field 24 4 entry)
  mtime_ft ← parse_info buf entry_off (field 32 4 entry) (field 36 4 entry)
  size ← parse_streams buf (has attributes file_attribute_directory) entry_off (field 28 4 entry)
  give (record {
    frn = field 16 8 entry;
    attributes = attributes;
    size = size;
    mtime_ft = mtime_ft;
    names = names;
  })

unfoldable pub max_names : List ℕ → ℕ
max_names buf = length buf / name_size

unfoldable pub check_names : List ℕ → ℕ → Walk (Unit {0})
check_names buf names =
    if ltb (max_names buf) names
    then refuse (too_many_names names (max_names buf) (length buf))
    else give tt

unfoldable pub files_from : ℕ → List ℕ → ℕ → List LayoutFile → ℕ → Walk (List LayoutFile)
files_from zero buf entry_off files names = none
files_from (suc fuel) buf entry_off files names = do
  entry ← read_bytes buf entry_off file_size file_entry
  file ← parse_file buf entry_off entry
  check_names buf (names + length file.names)
  elim (field 4 4 entry == 0) [
    | true ↦ give (files ++ file ∷ [])
    | false ↦ do
      next ← follow_offset buf entry_off (field 4 4 entry) file_size next_file_offset
      files_from fuel buf next (files ++ file ∷ []) (names + length file.names)
  ]

unfoldable pub walk_layout_buffer : List ℕ → Walk (List LayoutFile)
walk_layout_buffer buf = if length buf == 0 then give [] else do
  header ← read_bytes buf 0 header_size output_header
  elim (field 0 4 header == 0) [
    | true ↦ give []
    | false ↦ do
      entry_off ← follow_offset buf 0 (field 4 4 header) header_size first_file_offset
      files_from (length buf) buf entry_off [] 0
  ]
