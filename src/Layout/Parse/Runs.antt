-- ===== src/Layout/Parse/Runs.antt =====
-- crates/goz-core/src/layout/parse.rs: a buffer that holds one file with one name.
use goz.Prelude.{ℕ, ◌/◌, ◌≤◌, ◌≡◌, refl, false, none, List, [], ◌∷◌, ◌++◌, length, replicate}
use goz.Prelude.Bytes.{from_le_bytes}
use goz.Wtf8.{from_utf16, from_utf16_loop, encode_code_point, is_high, is_low}
use goz.Usn.Record.{checked_add, utf16_units}
use goz.Layout.{LayoutFile}
use goz.Layout.Parse.{
  give, walk_layout_buffer, read_bytes, read_to, follow_offset, follow_to, files_from, parse_file,
  parse_names, parse_info, parse_streams, names_from, read_name, check_name_length, check_names,
  max_names,
}
use goz.Layout.Parse.Ends.{Ends, walk_layout_buffer-Ends}
use goz.Layout.Parse.Total.{total_names, total_names-walk_layout_buffer}

abbrev zeros : ℕ → List ℕ
zeros n = replicate n 0

-- The header, the file entry and the name entry with its name, `A`.
abbrev buffer : List ℕ
buffer =
    (1 ∷ 0 ∷ 0 ∷ 0 ∷ 16 ∷ zeros 11)
    ++ ((1 ∷ zeros 11) ++ (0x20 ∷ 0 ∷ 0 ∷ 0 ∷ 9 ∷ zeros 7) ++ (40 ∷ zeros 15))
    ++ ((0 ∷ 0 ∷ 0 ∷ 0 ∷ 1 ∷ 0 ∷ 0 ∷ 0 ∷ 5 ∷ zeros 7) ++ (2 ∷ zeros 7) ++ (0x41 ∷ 0 ∷ []))

abbrev file : LayoutFile
file = record {
  frn = 9;
  attributes = 0x20;
  size = none;
  mtime_ft = none;
  names = record { parent_frn = 5; name = 0x41 ∷ []; name_lossy = false; dos_only = false } ∷ [];
}

buffer_walk : walk_layout_buffer buffer ≡ give (file ∷ [])
unfolding walk_layout_buffer read_bytes read_to follow_offset follow_to files_from parse_file
    parse_names parse_info parse_streams names_from read_name check_name_length check_names
    max_names checked_add utf16_units from_utf16 from_utf16_loop encode_code_point is_high is_low
    from_le_bytes
buffer_walk = refl

walk_layout_buffer-Ends_example : Ends (walk_layout_buffer buffer)
walk_layout_buffer-Ends_example = walk_layout_buffer-Ends buffer

total_names-walk_layout_buffer_example : total_names (file ∷ []) ≤ length buffer / 24
total_names-walk_layout_buffer_example =
    total_names-walk_layout_buffer buffer (file ∷ []) buffer_walk
