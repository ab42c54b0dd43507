-- ===== src/Proto/Binary.antt =====
-- crates/goz-core/src/proto/binary.rs: the binary encoding of a results page. A `Reader` is the bytes
-- from its position on; a position in a slice and a 32-bit length do not overflow `usize`, so the
-- error is always that the bytes are truncated. Text is a list of UTF-8 bytes.
pub mod Reading
pub mod Patch
pub mod RoundTrip
mod Runs
use goz.Prelude.{
  ℕ, zero, suc, ◌+◌, ◌-◌, ◌^◌, Bool, true, false, Option, none, some, List, [], ◌∷◌, ◌++◌, Result,
  ok, err, ◌>>=◌, bit_or, bit_and, ltb, if◌then◌else◌, length, take, drop, get_elem?, set,
}
use goz.Prelude.Bits.{has}
use goz.Prelude.Bytes.{to_le_bytes, from_le_bytes}
use goz.Prelude.Int.{ℤ, pos, negsuc}
use goz.Usn.Record.{to_i64}
use goz.Wtf8.{to_utf16}
use goz.Wtf8.Lossy.{is_utf8, to_string_lossy}
use mathlib.Core.Option

abbrev pub resp_tag_results : ℕ
resp_tag_results = 1

abbrev pub flag_more : ℕ
flag_more = 1

abbrev pub flag_volumes_incomplete : ℕ
flag_volumes_incomplete = 2

abbrev pub flag_metadata_pending : ℕ
flag_metadata_pending = 4

abbrev pub flag_total_size : ℕ
flag_total_size = 8

abbrev pub iflag_is_dir : ℕ
iflag_is_dir = 1

abbrev pub iflag_has_size : ℕ
iflag_has_size = 2

abbrev pub iflag_has_mtime : ℕ
iflag_has_mtime = 4

pub record ResultItem : Type 0 where
  pub path : List ℕ
  pub path_u16 : Option (List ℕ)
  pub size : Option ℕ
  pub mtime_ft : Option ℤ
  pub is_dir : Bool

pub record QueryResults : Type 0 where
  pub total : ℕ
  pub items : List ResultItem
  pub more : Bool
  pub volumes_incomplete : Bool
  pub metadata_pending : Bool
  pub generation : ℕ
  pub total_size : Option ℕ

pub data BinError : Type 0 where
  truncated : BinError

abbrev pub is_some {ℓ} : {A : Type ℓ} → Option A → Bool
is_some none = false
is_some (some a) = true

-- `if test { flags |= flag }`
abbrev pub or_if : Bool → ℕ → ℕ → ℕ
or_if true flag flags = bit_or flags flag
or_if false flag flags = flags

unfoldable pub page_flags : Bool → Bool → Bool → Option ℕ → ℕ
page_flags more incomplete pending total_size = or_if (is_some total_size) flag_total_size (
    or_if pending flag_metadata_pending
      (or_if incomplete flag_volumes_incomplete (or_if more flag_more 0)))

-- `i64::to_le_bytes` by its bit pattern.
unfoldable pub of_i64 : ℤ → ℕ
of_i64 (pos n) = n
of_i64 (negsuc n) = 2 ^ 64 - 1 - n

abbrev pub optional_u64 : Option ℕ → List ℕ
optional_u64 none = []
optional_u64 (some n) = to_le_bytes 8 n

unfoldable pub push_results_header : List ℕ → ℕ → ℕ → Bool → Bool → Bool → Option ℕ → ℕ → List ℕ
push_results_header out total generation more incomplete pending total_size count =
    out
    ++ resp_tag_results ∷ to_le_bytes 8 total
    ++ (to_le_bytes 8 generation
        ++ (page_flags more incomplete pending total_size ∷ to_le_bytes 4 count
            ++ optional_u64 total_size))

unfoldable pub item_flags : Bool → Option ℕ → Option ℤ → ℕ
item_flags is_dir size mtime =
    or_if (is_some mtime) iflag_has_mtime
      (or_if (is_some size) iflag_has_size (or_if is_dir iflag_is_dir 0))

-- `as u32` is the lowest four bytes.
unfoldable pub push_item : List ℕ → List ℕ → Bool → Option ℕ → Option ℤ → List ℕ
push_item out raw_path is_dir size mtime =
    out
    ++ (to_le_bytes 4 (length raw_path)
        ++ (raw_path
            ++ (item_flags is_dir size mtime ∷ optional_u64 size
                ++ optional_u64 (Option.map of_i64 mtime))))

-- `Reader`
module _ where
  unfoldable pub read_u8 : List ℕ → Result (ℕ × List ℕ) BinError
  read_u8 [] = err truncated
  read_u8 (b ∷ bytes) = ok (b, bytes)

  unfoldable pub read_bytes : ℕ → List ℕ → Result (List ℕ × List ℕ) BinError
  read_bytes n bytes =
      if ltb (length bytes) n then err truncated else ok (take n bytes, drop n bytes)

  -- `u32` and `u64`, of four and eight bytes.
  unfoldable pub read_number : ℕ → List ℕ → Result (ℕ × List ℕ) BinError
  read_number width bytes = read_bytes width bytes >>= (λ r. ok (from_le_bytes r.0, r.1))

  -- `.then(|| r.u64()).transpose()?`
  unfoldable pub read_optional : Bool → List ℕ → Result (Option ℕ × List ℕ) BinError
  read_optional true bytes = read_number 8 bytes >>= (λ r. ok (some r.0, r.1))
  read_optional false bytes = ok (none, bytes)

unfoldable pub item_of : List ℕ → Option ℕ → Option ℤ → Bool → ResultItem
item_of path size mtime is_dir = record {
  path = to_string_lossy path;
  path_u16 = if is_utf8 path then none else some (to_utf16 path);
  size = size;
  mtime_ft = mtime;
  is_dir = is_dir;
}

unfoldable pub read_item : List ℕ → Result (ResultItem × List ℕ) BinError
read_item bytes = do
  (plen, a) ← read_number 4 bytes
  (path, b) ← read_bytes plen a
  (iflags, c) ← read_u8 b
  (size, d) ← read_optional (has iflags iflag_has_size) c
  (mtime, e) ← read_optional (has iflags iflag_has_mtime) d
  ok (item_of path size (Option.map to_i64 mtime) (has iflags iflag_is_dir), e)

unfoldable pub read_items : ℕ → List ℕ → Result (List ResultItem × List ℕ) BinError
read_items zero bytes = ok ([], bytes)
read_items (suc count) bytes = do
  (item, a) ← read_item bytes
  (items, b) ← read_items count a
  ok (item ∷ items, b)

unfoldable pub decode_results_payload : List ℕ → Result QueryResults BinError
decode_results_payload body = do
  (total, a) ← read_number 8 body
  (generation, b) ← read_number 8 a
  (flags, c) ← read_u8 b
  (count, d) ← read_number 4 c
  (total_size, e) ← read_optional (has flags flag_total_size) d
  (items, rest) ← read_items count e
  ok (record {
    total = total;
    items = items;
    more = has flags flag_more;
    volumes_incomplete = has flags flag_volumes_incomplete;
    metadata_pending = has flags flag_metadata_pending;
    generation = generation;
    total_size = total_size;
  })
