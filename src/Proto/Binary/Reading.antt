-- ===== src/Proto/Binary/Reading.antt =====
-- crates/goz-core/src/proto/binary.rs: each read of a `Reader` against one write.
use goz.Prelude.{
  ℕ, ◌^◌, ◌<◌, ◌≡◌, refl, Bool, true, false, Option, none, some, List, ◌++◌, ok, length,
  le→ltb_false, take-append, drop-append, length-append, arith,
}
use goz.Prelude.Bits.{has}
use goz.Prelude.Bytes.{to_le_bytes, from_le_bytes-to_le_bytes, length-to_le_bytes}
use goz.Prelude.Int.{ℤ, pos, negsuc}
use goz.Usn.Record.{to_i64}
use goz.Proto.Binary.{
  read_bytes, read_number, read_optional, optional_u64, is_some, item_flags, page_flags, of_i64,
  or_if, iflag_is_dir, iflag_has_size, iflag_has_mtime, flag_more, flag_volumes_incomplete,
  flag_metadata_pending, flag_total_size,
}

pub read_bytes-append :
    (n : ℕ) (xs rest : List ℕ) → length xs ≡ n → read_bytes n (xs ++ rest) ≡ ok (xs, rest)
unfolding read_bytes
read_bytes-append n xs rest h =
    let enough = le→ltb_false (length (xs ++ rest)) n (omega (arith, length-append xs rest, h)) in
    rw (enough, take-append xs rest n h, drop-append xs rest n h) refl

pub read_number-to_le_bytes :
    (width v : ℕ) (rest : List ℕ)
    → v < 256 ^ width
    → read_number width (to_le_bytes width v ++ rest) ≡ ok (v, rest)
unfolding read_number
read_number-to_le_bytes width v rest h =
    rw
      (
        read_bytes-append width (to_le_bytes width v) rest (length-to_le_bytes width v),
        from_le_bytes-to_le_bytes width v h,
      )
      refl

abbrev pub FitsU64 : Option ℕ → Type 0
FitsU64 none = Unit
FitsU64 (some n) = n < 2 ^ 64

pub read_optional-optional_u64 :
    (o : Option ℕ) (rest : List ℕ)
    → FitsU64 o
    → read_optional (is_some o) (optional_u64 o ++ rest) ≡ ok (o, rest)
unfolding read_optional
read_optional-optional_u64 none rest h = refl
read_optional-optional_u64 (some n) rest h =
    rw (read_number-to_le_bytes 8 n rest (omega (arith, h))) refl

pub has-item_flags :
    (is_dir : Bool) (size : Option ℕ) (mtime : Option ℤ)
    → (has (item_flags is_dir size mtime) iflag_is_dir ≡ is_dir)
      × (has (item_flags is_dir size mtime) iflag_has_size ≡ is_some size)
      × (has (item_flags is_dir size mtime) iflag_has_mtime ≡ is_some mtime)
unfolding item_flags
has-item_flags false none none = (refl, refl, refl)
has-item_flags false none (some m) = (refl, refl, refl)
has-item_flags false (some n) none = (refl, refl, refl)
has-item_flags false (some n) (some m) = (refl, refl, refl)
has-item_flags true none none = (refl, refl, refl)
has-item_flags true none (some m) = (refl, refl, refl)
has-item_flags true (some n) none = (refl, refl, refl)
has-item_flags true (some n) (some m) = (refl, refl, refl)

flag_bits :
    (more incomplete pending sized : Bool)
    → let flags = or_if sized flag_total_size (
        or_if pending flag_metadata_pending
          (or_if incomplete flag_volumes_incomplete (or_if more flag_more 0))) in
      (has flags flag_more ≡ more)
      × (has flags flag_volumes_incomplete ≡ incomplete)
      × (has flags flag_metadata_pending ≡ pending)
      × (has flags flag_total_size ≡ sized)
flag_bits false false false false = (refl, refl, refl, refl)
flag_bits false false false true = (refl, refl, refl, refl)
flag_bits false false true false = (refl, refl, refl, refl)
flag_bits false false true true = (refl, refl, refl, refl)
flag_bits false true false false = (refl, refl, refl, refl)
flag_bits false true false true = (refl, refl, refl, refl)
flag_bits false true true false = (refl, refl, refl, refl)
flag_bits false true true true = (refl, refl, refl, refl)
flag_bits true false false false = (refl, refl, refl, refl)
flag_bits true false false true = (refl, refl, refl, refl)
flag_bits true false true false = (refl, refl, refl, refl)
flag_bits true false true true = (refl, refl, refl, refl)
flag_bits true true false false = (refl, refl, refl, refl)
flag_bits true true false true = (refl, refl, refl, refl)
flag_bits true true true false = (refl, refl, refl, refl)
flag_bits true true true true = (refl, refl, refl, refl)

pub has-page_flags :
    (more incomplete pending : Bool) (total_size : Option ℕ)
    → (has (page_flags more incomplete pending total_size) flag_more ≡ more)
      × (has (page_flags more incomplete pending total_size) flag_volumes_incomplete ≡ incomplete)
      × (has (page_flags more incomplete pending total_size) flag_metadata_pending ≡ pending)
      × (has (page_flags more incomplete pending total_size) flag_total_size ≡ is_some total_size)
unfolding page_flags
has-page_flags more incomplete pending total_size =
    flag_bits more incomplete pending (is_some total_size)

-- A signed number of 64 bits.
abbrev pub IsI64 : ℤ → Type 0
IsI64 (pos n) = n < 2 ^ 63
IsI64 (negsuc n) = n < 2 ^ 63

pub to_i64-of_i64 : (z : ℤ) → IsI64 z → to_i64 (of_i64 z) ≡ z
unfolding to_i64 of_i64
to_i64-of_i64 (pos n) h = ground (arith, h)
to_i64-of_i64 (negsuc n) h = ground (arith, h)

pub of_i64-lt : (z : ℤ) → IsI64 z → of_i64 z < 2 ^ 64
unfolding of_i64
of_i64-lt (pos n) h = omega (arith, h)
of_i64-lt (negsuc n) h = omega (arith, h)
