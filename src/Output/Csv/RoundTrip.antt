-- ===== src/Output/Csv/RoundTrip.antt =====
-- crates/goz-core/src/output/csv.rs: the rows, read by a reader of RFC 4180 records.
use goz.Prelude.{
  append_assoc, ℕ, suc, ◌≡◌, inl, inr, refl, sym, ap, ◌∙◌, Bool, true, false, ◌||◌, Option, none,
  some, List, [], ◌∷◌, ◌++◌, All, length, Bool-cases, ◌==◌, arith,
}
use goz.Types.{EsColumn, size, date_modified}
use goz.Output.Csv.{
  Row, file_size, CsvOptions, quote, cr, lf, to_string, column_display_name, filename,
  needs_quoting, double_quotes, write_quoted, size_cell, mtime_cell, cell, write_cells, write_path,
  write_csv_row, write_header, write_rows,
}
use goz.Output.Csv.Digits.{IsDigit, to_string-IsDigit}
use goz.Output.Csv.Read.{
  read_field, read_records, join_text, IsSeparator, IsPlain, read_field-plain,
  read_quoted-double_quotes, read_record-text,
}

-- What a row's record is: its cells, then its path.
abbrev pub cells : List EsColumn → Row → List (List ℕ)
cells [] row = []
cells (col ∷ columns) row = cell col row ∷ cells columns row

abbrev pub record_of : CsvOptions → Row → List (List ℕ)
record_of opts row = cells opts.columns row ++ row.path ∷ []

-- The date text is one that the caller may write without quotes.
abbrev pub PlainDate : ℕ → Row → Type 0
PlainDate separator row = All (IsPlain separator) (mtime_cell row.mtime)

digit-IsPlain :
    (separator : ℕ) (ds : List ℕ)
    → IsSeparator separator
    → All IsDigit ds
    → All (IsPlain separator) ds
digit-IsPlain separator [] s h = tt
digit-IsPlain separator (d ∷ ds) s h =
    let k = h.0 in (ground (arith, s, k), digit-IsPlain separator ds s h.1)

size_cell-IsPlain :
    (separator : ℕ) (n : Option ℕ) → IsSeparator separator → All (IsPlain separator) (size_cell n)
unfolding size_cell
size_cell-IsPlain separator none s = tt
size_cell-IsPlain separator (some n) s =
    digit-IsPlain separator (to_string n) s (to_string-IsDigit n)

cell-IsPlain :
    (separator : ℕ) (col : EsColumn) (row : Row)
    → IsSeparator separator
    → PlainDate separator row
    → All (IsPlain separator) (cell col row)
unfolding cell
cell-IsPlain separator size row s h = size_cell-IsPlain separator (file_size row) s
cell-IsPlain separator date_modified row s h = h

cells-IsPlain :
    (separator : ℕ) (columns : List EsColumn) (row : Row)
    → IsSeparator separator
    → PlainDate separator row
    → All (All (IsPlain separator)) (cells columns row)
cells-IsPlain separator [] row s h = tt
cells-IsPlain separator (col ∷ columns) row s h =
    (cell-IsPlain separator col row s h, cells-IsPlain separator columns row s h)

or_false : (a b : Bool) → (a || b) ≡ false → (a ≡ false) × (b ≡ false)
or_false false b h = (refl, h)
or_false true b h = ground (arith, h)

needs_quoting-false :
    (field : List ℕ) (separator : ℕ)
    → needs_quoting field separator ≡ false
    → All (IsPlain separator) field
unfolding needs_quoting
needs_quoting-false [] separator h = tt
needs_quoting-false (b ∷ field) separator h =
    let (x, y) =
      or_false (b == separator || (b == quote || (b == cr || b == lf)))
        (needs_quoting field separator) h in
    (ground (arith, x), needs_quoting-false field separator y)

write_cells-join :
    (separator : ℕ) (columns : List EsColumn) (row : Row) (out rest : List ℕ)
    → write_cells separator columns row out ++ rest
      ≡ out ++ join_text separator (cells columns row) rest
unfolding write_cells
write_cells-join separator [] row out rest = refl
write_cells-join separator (col ∷ columns) row out rest =
    write_cells-join separator columns row ((out ++ cell col row) ++ separator ∷ []) rest
    ∙ append_assoc (out ++ cell col row) (separator ∷ [])
        (join_text separator (cells columns row) rest)
    ∙ append_assoc out (cell col row) (separator ∷ join_text separator (cells columns row) rest)

write_path-append :
    (opts : CsvOptions) (path out : List ℕ)
    → write_path opts path out ≡ out ++ write_path opts path []
unfolding write_path write_quoted
write_path-append opts path out =
    elim (Bool-cases (opts.double_quote || needs_quoting path opts.separator)) [
      | inl e ↦ rw e (append_assoc out (quote ∷ []) (double_quotes path ++ quote ∷ []))
      | inr e ↦ rw e refl
    ]

read_field-path :
    (opts : CsvOptions) (path rest : List ℕ)
    → IsSeparator opts.separator
    → read_field opts.separator (write_path opts path [] ++ cr ∷ lf ∷ rest)
      ≡ some (path, cr ∷ lf ∷ rest)
unfolding write_path write_quoted read_field
read_field-path opts path rest s =
    elim (Bool-cases (opts.double_quote || needs_quoting path opts.separator)) [
      | inl e ↦ rw e (
          rw (append_assoc (double_quotes path) (quote ∷ []) (cr ∷ lf ∷ rest))
            (read_quoted-double_quotes path cr (lf ∷ rest) (λ same. omega arith)))
      | inr e ↦ rw e (
          read_field-plain opts.separator path cr (lf ∷ rest) s
            (needs_quoting-false path opts.separator
              (or_false opts.double_quote (needs_quoting path opts.separator) e).1)
            (inr refl))
    ]

write_csv_row-join :
    (opts : CsvOptions) (row : Row) (out rest : List ℕ)
    → write_csv_row opts row out ++ rest
      ≡ out
        ++ join_text opts.separator
            (cells opts.columns row)
            (write_path opts row.path [] ++ cr ∷ lf ∷ rest)
unfolding write_csv_row
write_csv_row-join opts row out rest =
    let written = write_cells opts.separator opts.columns row out in
    ap (λ w. (w ++ cr ∷ lf ∷ []) ++ rest) (write_path-append opts row.path written)
    ∙ append_assoc (written ++ write_path opts row.path []) (cr ∷ lf ∷ []) rest
    ∙ append_assoc written (write_path opts row.path []) (cr ∷ lf ∷ rest)
    ∙ write_cells-join opts.separator opts.columns row out
        (write_path opts row.path [] ++ cr ∷ lf ∷ rest)

length-cells : (columns : List EsColumn) (row : Row) → length (cells columns row) ≡ length columns
length-cells [] row = refl
length-cells (col ∷ columns) row = ap suc (length-cells columns row)

-- The rows as they are written, before what follows them.
abbrev pub rows_text : CsvOptions → List Row → List ℕ → List ℕ
rows_text opts [] rest = rest
rows_text opts (row ∷ rows) rest =
    join_text opts.separator (cells opts.columns row)
      (write_path opts row.path [] ++ cr ∷ lf ∷ rows_text opts rows rest)

pub write_rows-join :
    (opts : CsvOptions) (rows : List Row) (out rest : List ℕ)
    → write_rows opts rows out ++ rest ≡ out ++ rows_text opts rows rest
unfolding write_rows
write_rows-join opts [] out rest = refl
write_rows-join opts (row ∷ rows) out rest =
    write_rows-join opts rows (write_csv_row opts row out) rest
    ∙ write_csv_row-join opts row out (rows_text opts rows rest)

abbrev pub records : CsvOptions → List Row → List (List (List ℕ))
records opts [] = []
records opts (row ∷ rows) = record_of opts row ∷ records opts rows

pub read_records-rows_text :
    (opts : CsvOptions) (rows : List Row) (rest : List ℕ)
    → IsSeparator opts.separator
    → All (PlainDate opts.separator) rows
    → read_records opts.separator
        (length opts.columns)
        (length (records opts rows))
        (rows_text opts rows rest)
      ≡ some (records opts rows, rest)
unfolding read_records
read_records-rows_text opts [] rest s h = refl
read_records-rows_text opts (row ∷ rows) rest s h =
    let first =
      read_record-text opts.separator (cells opts.columns row) row.path
        (write_path opts row.path []) (rows_text opts rows rest) s
        (cells-IsPlain opts.separator opts.columns row s h.0)
        (read_field-path opts row.path (rows_text opts rows rest) s) in
    let len = length-cells opts.columns row in
    let others = read_records-rows_text opts rows rest s h.1 in
    rw (sym len) (rw first (rw others refl))

abbrev pub names : List EsColumn → List (List ℕ)
names [] = []
names (col ∷ columns) = column_display_name col ∷ names columns

pub length-names : (columns : List EsColumn) → length (names columns) ≡ length columns
length-names [] = refl
length-names (col ∷ columns) = ap suc (length-names columns)

column_display_name-IsPlain :
    (separator : ℕ) (col : EsColumn)
    → IsSeparator separator
    → All (IsPlain separator) (column_display_name col)
unfolding column_display_name
column_display_name-IsPlain separator size s = ground (arith, s)
column_display_name-IsPlain separator date_modified s = ground (arith, s)

pub names-IsPlain :
    (separator : ℕ) (columns : List EsColumn)
    → IsSeparator separator
    → All (All (IsPlain separator)) (names columns)
names-IsPlain separator [] s = tt
names-IsPlain separator (col ∷ columns) s =
    (column_display_name-IsPlain separator col s, names-IsPlain separator columns s)

pub filename-IsPlain : (separator : ℕ) → IsSeparator separator → All (IsPlain separator) filename
filename-IsPlain separator s = ground (arith, s)

pub write_header-join :
    (separator : ℕ) (columns : List EsColumn) (out rest : List ℕ)
    → write_header separator columns out ++ rest
      ≡ out ++ join_text separator (names columns) (filename ++ cr ∷ lf ∷ rest)
unfolding write_header
write_header-join separator [] out rest = append_assoc out (filename ++ cr ∷ lf ∷ []) rest
write_header-join separator (col ∷ columns) out rest =
    let tail = join_text separator (names columns) (filename ++ cr ∷ lf ∷ rest) in
    write_header-join separator columns ((out ++ column_display_name col) ++ separator ∷ []) rest
    ∙ append_assoc (out ++ column_display_name col) (separator ∷ []) tail
    ∙ append_assoc out (column_display_name col) (separator ∷ tail)
