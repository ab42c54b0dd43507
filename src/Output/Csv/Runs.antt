-- ===== src/Output/Csv/Runs.antt =====
-- crates/goz-core/src/output/csv.rs: a page of one file and one folder.
use goz.Prelude.{
  ◌≡◌, refl, inl, true, false, none, some, [], ◌∷◌, ◌++◌, length, if◌then◌else◌, drop, arith,
}
use goz.Types.{size, date_modified}
use goz.Output.Csv.{
  Row, CsvOptions, to_string, digits_of, write_csv, write_csv_row, write_cells, write_path,
  write_quoted, double_quotes, cell, size_cell, mtime_cell, file_size, needs_quoting,
}
use goz.Output.Csv.Read.{read_records}
use goz.Output.Csv.Page.{page, read_records-write_csv}

-- The path is a quote and a comma.
abbrev file : Row
file = record { path = 0x22 ∷ 0x2C ∷ []; size = some 120; mtime = some (0x39 ∷ []); is_dir = false }

abbrev folder : Row
folder = record { path = 0x61 ∷ []; size = some 5; mtime = none; is_dir = true }

abbrev options : CsvOptions
options = record {
  separator = 0x2C;
  bom = true;
  header = true;
  double_quote = false;
  columns = size ∷ date_modified ∷ [];
}

file_bytes :
    write_csv_row options file []
    ≡ 0x31 ∷ 0x32 ∷ 0x30 ∷ 0x2C ∷ 0x39 ∷ 0x2C ∷ 0x22 ∷ 0x22 ∷ 0x22 ∷ 0x2C ∷ 0x22 ∷ 0x0D ∷ 0x0A ∷ []
unfolding write_csv_row write_cells write_path write_quoted double_quotes cell size_cell mtime_cell
    file_size to_string digits_of needs_quoting
file_bytes = refl

read_records-write_csv_example :
    read_records 0x2C 2
      (length (page options (file ∷ folder ∷ [])))
      (drop (if true then 3 else 0) (write_csv options (file ∷ folder ∷ []) [] ++ []))
    ≡ some (page options (file ∷ folder ∷ []), [])
unfolding mtime_cell
read_records-write_csv_example =
    read_records-write_csv options (file ∷ folder ∷ []) [] (inl refl)
      (ground arith, (ground arith, tt))
