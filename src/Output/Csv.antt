-- ===== src/Output/Csv.antt =====
-- crates/goz-core/src/output/csv.rs and the `Row` of output/mod.rs: the CSV bytes of a results page.
-- Text is a list of bytes.
pub mod Read
pub mod Digits
pub mod RoundTrip
pub mod Page
mod Runs
use goz.Prelude.{
  ℕ, zero, suc, ◌+◌, ◌/◌, ◌%◌, Bool, true, false, ◌||◌, Option, none, some, List, [], ◌∷◌, ◌++◌,
  ◌==◌, ltb, if◌then◌else◌,
}
use goz.Types.{EsColumn, size, date_modified}

pub record Row : Type 0 where
  pub path : List ℕ
  pub size : Option ℕ
  pub mtime : Option (List ℕ)
  pub is_dir : Bool

unfoldable pub file_size : Row → Option ℕ
file_size row = if row.is_dir then none else row.size

pub record CsvOptions : Type 0 where
  pub separator : ℕ
  pub bom : Bool
  pub header : Bool
  pub double_quote : Bool
  pub columns : List EsColumn

unfoldable pub default_options : CsvOptions
default_options = record {
  separator = 0x2C;
  bom = true;
  header = true;
  double_quote = true;
  columns = [];
}

abbrev pub quote : ℕ
quote = 0x22

abbrev pub cr : ℕ
cr = 0x0D

abbrev pub lf : ℕ
lf = 0x0A

-- `size.to_string()`: the decimal digits of a `u64`, which has twenty at most.
unfoldable pub digits_of : ℕ → ℕ → List ℕ
digits_of zero n = []
digits_of (suc fuel) n =
    let rest = digits_of fuel (n / 10) in
    if ltb n 10 then (0x30 + n) ∷ [] else rest ++ (0x30 + n % 10) ∷ []

unfoldable pub to_string : ℕ → List ℕ
to_string n = digits_of 20 n

unfoldable pub column_display_name : EsColumn → List ℕ
column_display_name size = 0x53 ∷ 0x69 ∷ 0x7A ∷ 0x65 ∷ []
column_display_name date_modified =
    0x44 ∷ 0x61 ∷ 0x74 ∷ 0x65 ∷ 0x20 ∷ 0x4D ∷ 0x6F ∷ 0x64 ∷ 0x69 ∷ 0x66 ∷ 0x69 ∷ 0x65 ∷ 0x64 ∷ []

-- `Filename`
abbrev pub filename : List ℕ
filename = 0x46 ∷ 0x69 ∷ 0x6C ∷ 0x65 ∷ 0x6E ∷ 0x61 ∷ 0x6D ∷ 0x65 ∷ []

unfoldable pub needs_quoting : List ℕ → ℕ → Bool
needs_quoting [] separator = false
needs_quoting (b ∷ field) separator =
    (b == separator || (b == quote || (b == cr || b == lf))) || needs_quoting field separator

-- The bytes of a field between the quotes.
unfoldable pub double_quotes : List ℕ → List ℕ
double_quotes [] = []
double_quotes (b ∷ field) =
    let rest = double_quotes field in if b == quote then quote ∷ b ∷ rest else b ∷ rest

unfoldable pub write_quoted : List ℕ → List ℕ → List ℕ
write_quoted field out = (out ++ quote ∷ []) ++ (double_quotes field ++ quote ∷ [])

-- An empty cell stands for what is not known.
unfoldable pub size_cell : Option ℕ → List ℕ
size_cell none = []
size_cell (some n) = to_string n

unfoldable pub mtime_cell : Option (List ℕ) → List ℕ
mtime_cell none = []
mtime_cell (some text) = text

unfoldable pub cell : EsColumn → Row → List ℕ
cell size row = size_cell (file_size row)
cell date_modified row = mtime_cell row.mtime

unfoldable pub write_cells : ℕ → List EsColumn → Row → List ℕ → List ℕ
write_cells separator [] row out = out
write_cells separator (col ∷ columns) row out =
    write_cells separator columns row ((out ++ cell col row) ++ separator ∷ [])

unfoldable pub write_path : CsvOptions → List ℕ → List ℕ → List ℕ
write_path opts path out =
    if opts.double_quote || needs_quoting path opts.separator
    then write_quoted path out
    else out ++ path

unfoldable pub write_csv_row : CsvOptions → Row → List ℕ → List ℕ
write_csv_row opts row out =
    write_path opts row.path (write_cells opts.separator opts.columns row out) ++ cr ∷ lf ∷ []

unfoldable pub write_header : ℕ → List EsColumn → List ℕ → List ℕ
write_header separator [] out = out ++ (filename ++ cr ∷ lf ∷ [])
write_header separator (col ∷ columns) out =
    write_header separator columns ((out ++ column_display_name col) ++ separator ∷ [])

unfoldable pub write_csv_preamble : CsvOptions → List ℕ → List ℕ
write_csv_preamble opts out =
    let marked = if opts.bom then out ++ 0xEF ∷ 0xBB ∷ 0xBF ∷ [] else out in
    if opts.header then write_header opts.separator opts.columns marked else marked

unfoldable pub write_rows : CsvOptions → List Row → List ℕ → List ℕ
write_rows opts [] out = out
write_rows opts (row ∷ rows) out = write_rows opts rows (write_csv_row opts row out)

unfoldable pub write_csv : CsvOptions → List Row → List ℕ → List ℕ
write_csv opts rows out = write_rows opts rows (write_csv_preamble opts out)
