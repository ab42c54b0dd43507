-- ===== src/Proto/Binary/Runs.antt =====
-- crates/goz-core/src/proto/binary.rs: a page of a file and of a folder whose name is not Unicode.
use goz.Proto.Binary.Patch.{patch_results_header, patch_results_header-push_results_header}
use goz.Prelude.{◌≡◌, refl, true, false, none, some, [], ◌∷◌, ◌++◌, ok, drop, arith}
use goz.Prelude.Int.{negsuc}
use goz.Wtf8.Lossy.{is_utf8, to_string_lossy, same_bytes, push_chars, to_char}
use goz.Wtf8.{
  code_points, code_points_from, next, lead, continue_with, least, encode_code_point, is_high,
  is_low, to_utf16, to_utf16_loop, units_of,
}
use goz.Proto.Binary.{push_results_header, decode_results_payload}
use goz.Proto.Binary.RoundTrip.{Pushed, push_items, decode_results_payload-push_items}

abbrev file : Pushed
file = record { raw_path = 0x61 ∷ []; is_dir = false; size = some 7; mtime = some (negsuc 0) }

-- The name is a lone surrogate.
abbrev folder : Pushed
folder = record { raw_path = 0xED ∷ 0xA0 ∷ 0x80 ∷ []; is_dir = true; size = none; mtime = none }

folder_name : to_string_lossy folder.raw_path ≡ 0xEF ∷ 0xBF ∷ 0xBD ∷ []
unfolding to_string_lossy is_utf8 same_bytes push_chars to_char code_points code_points_from next
    lead continue_with least encode_code_point is_high is_low
folder_name = refl

decode_results_payload-push_items_example :
    decode_results_payload (
      drop 1 (
        push_items (push_results_header [] 2 0 true false true (some 7) 2) (file ∷ folder ∷ [])
        ++ []))
    ≡ ok (record {
      total = 2;
      items =
          record {
            path = 0x61 ∷ [];
            path_u16 = none;
            size = some 7;
            mtime_ft = some (negsuc 0);
            is_dir = false;
          }
          ∷ record {
            path = 0xEF ∷ 0xBF ∷ 0xBD ∷ [];
            path_u16 = some (0xD800 ∷ []);
            size = none;
            mtime_ft = none;
            is_dir = true;
          }
          ∷ [];
      more = true;
      volumes_incomplete = false;
      metadata_pending = true;
      generation = 0;
      total_size = some 7;
    })
unfolding to_string_lossy is_utf8 same_bytes push_chars to_char code_points code_points_from next
    lead continue_with least encode_code_point is_high is_low to_utf16 to_utf16_loop units_of
decode_results_payload-push_items_example =
    decode_results_payload-push_items 2 0 true false true (some 7) (file ∷ folder ∷ []) []
      (omega arith) (omega arith) (omega arith) (omega arith)
      ((omega arith, omega arith, omega arith), ((omega arith, tt, tt), tt))

patch_results_header-push_results_header_example :
    patch_results_header
      (push_results_header [] 5 7 true false true (some 9) 3 ++ 1 ∷ 2 ∷ [])
      false
      2
    ≡ some (push_results_header [] 5 7 false false true (some 9) 2 ++ 1 ∷ 2 ∷ [])
patch_results_header-push_results_header_example =
    patch_results_header-push_results_header 5 7 true false false true (some 9) 3 2 (1 ∷ 2 ∷ [])
