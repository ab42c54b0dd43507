-- ===== src/Types.antt =====
-- crates/goz-core/src/types.rs: the identifiers and small enums that cross module boundaries.
mod Runs
use goz.Prelude.{
  ℕ, ◌+◌, ◌*◌, ◌/◌, ◌%◌, ◌^◌, ◌<◌, ◌≡◌, refl, ap, Bool, true, false, List, [], ◌∷◌, bit_and, arith,
}
use goz.Prelude.Bits.{bit_and-ones}

-- `Frn(pub u64)`: a 48-bit record number and a 16-bit sequence number.
abbrev pub Frn : Type 0
Frn = ℕ

abbrev pub IsU64 : ℕ → Type 0
IsU64 n = n < 2 ^ 64

unfoldable pub record_number : Frn → ℕ
record_number frn = bit_and frn 0x0000_FFFF_FFFF_FFFF

-- `(self.0 >> 48) as u16`
unfoldable pub sequence : Frn → ℕ
sequence frn = frn / 2 ^ 48 % 2 ^ 16

pub record_number_lem : (frn : Frn) → record_number frn ≡ frn % 2 ^ 48
unfolding record_number
record_number_lem frn = bit_and-ones 48 frn

-- The record number fits 48 bits and the sequence number 16, and together they are the file
-- reference number: so two numbers that share a record, as when NTFS reuses the slot, are equal only
-- if their sequence numbers are.
record_number-sequence :
    (frn : Frn)
    → IsU64 frn
    → (record_number frn < 2 ^ 48)
      × (sequence frn < 2 ^ 16)
      × (sequence frn * 2 ^ 48 + record_number frn ≡ frn)
unfolding sequence
record_number-sequence frn h = rw (record_number_lem frn) (omega arith, omega arith, omega arith)

-- The most bytes that an NTFS name component takes in UTF-16.
abbrev pub max_name_utf16_bytes : ℕ
max_name_utf16_bytes = 510

abbrev pub EntryIdx : Type 0
EntryIdx = ℕ

-- `u32::MAX`: no entry.
abbrev pub nil : EntryIdx
nil = 0xffff_ffff

pub data SortKey : Type 0 where
  name path size date_modified : SortKey

pub data SortDir : Type 0 where
  asc desc : SortDir

pub record SortSpec : Type 0 where
  pub key : SortKey
  pub dir : SortDir

unfoldable pub default_dir : SortKey → SortDir
default_dir name = asc
default_dir path = asc
default_dir size = desc
default_dir date_modified = desc

unfoldable pub default_for : SortKey → SortSpec
unfolding default_dir
default_for key = record { key = key; dir = default_dir key }

pub data EsColumn : Type 0 where
  size date_modified : EsColumn

-- The text of a failure is a list of characters.
pub data VolumePhase : Type 0 where
  bootstrapping live rescanning snapshot offline : VolumePhase
  failed : List ℕ → VolumePhase

unfoldable pub is_complete : VolumePhase → Bool
is_complete live = true
is_complete snapshot = true
is_complete _ = false
