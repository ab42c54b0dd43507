-- ===== src/Proto/Binary/Patch.antt =====
-- crates/goz-core/src/proto/binary.rs: a page's header is fixed up after its rows, and a page encoded
-- whole.
use goz.Prelude.{
  ℕ, zero, suc, ◌-◌, ◌%◌, ◌^◌, ◌≡◌, refl, Bool, Option, none, some, List, [], ◌∷◌, ◌++◌,
  if◌then◌else◌, length, get_elem?, set, bit_and, bit_or, arith,
}
use goz.Prelude.Bytes.{to_le_bytes}
use goz.Prelude.Options.{◌>>=◌}
use goz.Wtf8.{from_utf16}
use goz.Proto.Binary.{
  ResultItem, QueryResults, flag_more, page_flags, push_results_header, push_item,
}

-- `page[at..at + n].copy_from_slice(bytes)`, which panics out of range.
unfoldable pub overwrite : List ℕ → ℕ → List ℕ → Option (List ℕ)
overwrite page zero [] = some page
overwrite [] zero (b ∷ bytes) = none
overwrite (p ∷ page) zero (b ∷ bytes) = do rest ← overwrite page zero bytes; some (b ∷ rest)
overwrite [] (suc at) bytes = none
overwrite (p ∷ page) (suc at) bytes = do rest ← overwrite page at bytes; some (p ∷ rest)

-- `1 + 8 + 8`: the tag, the total and the generation come before the flags.
abbrev pub flags_at : ℕ
flags_at = 17

unfoldable pub patch_flags : Bool → ℕ → ℕ
patch_flags more flags = if more then bit_or flags flag_more else bit_and flags (255 - flag_more)

unfoldable pub patch_results_header : List ℕ → Bool → ℕ → Option (List ℕ)
patch_results_header page more count = do
  flags ← get_elem? page flags_at
  overwrite (set page flags_at (patch_flags more flags)) (suc flags_at) (to_le_bytes 4 count)

unfoldable pub raw_path_bytes : ResultItem → List ℕ
raw_path_bytes item = elim item.path_u16 [ some units ↦ (from_utf16 units []).0 | none ↦ item.path ]

unfoldable pub push_all : List ResultItem → List ℕ → List ℕ
push_all [] out = out
push_all (it ∷ items) out =
    push_all items (push_item out (raw_path_bytes it) it.is_dir it.size it.mtime_ft)

unfoldable pub encode_results_payload : QueryResults → List ℕ → List ℕ
encode_results_payload page out = push_all page.items (
    push_results_header out page.total page.generation page.more page.volumes_incomplete
      page.metadata_pending page.total_size (length page.items % 2 ^ 32))

patch_flags-page_flags :
    (old more incomplete pending : Bool) (total_size : Option ℕ)
    → patch_flags more (page_flags old incomplete pending total_size)
      ≡ page_flags more incomplete pending total_size
unfolding patch_flags page_flags
patch_flags-page_flags old more incomplete pending total_size = ground arith

-- Patching the header of a page gives the page that the header would have begun with, had the flag and
-- the count been known when it was written; the other flags and all that follows stay.
pub patch_results_header-push_results_header :
    (total generation : ℕ) (old more incomplete pending : Bool) (total_size : Option ℕ)
    (guess count : ℕ) (rest : List ℕ)
    → patch_results_header
        (push_results_header [] total generation old incomplete pending total_size guess ++ rest)
        more
        count
      ≡ some
          (push_results_header [] total generation more incomplete pending total_size count ++ rest)
unfolding patch_results_header push_results_header to_le_bytes overwrite
patch_results_header-push_results_header t g old more incomplete pending total_size c d rest =
    rw (patch_flags-page_flags old more incomplete pending total_size) refl
