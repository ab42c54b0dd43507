-- ===== src/Output/Csv/Page.antt =====
-- crates/goz-core/src/output/csv.rs: a whole page, with its byte order mark and header.
use goz.Prelude.{
  ℕ, ◌≡◌, refl, sym, ap, ◌∙◌, Bool, true, false, some, List, [], ◌∷◌, ◌++◌, All, length, inr,
  if◌then◌else◌, drop,
}
use goz.Output.Csv.{Row, CsvOptions, cr, lf, filename, write_header, write_csv_preamble, write_csv}
use goz.Output.Csv.Read.{read_records, join_text, IsSeparator, read_record-text, read_field-plain}
use goz.Output.Csv.RoundTrip.{
  PlainDate, rows_text, records, names, write_rows-join, read_records-rows_text, length-names,
  names-IsPlain, filename-IsPlain, write_header-join,
}

-- The records of a page: the header, if there is one, and one for each row.
abbrev pub page_with : Bool → CsvOptions → List Row → List (List (List ℕ))
page_with true opts rows = (names opts.columns ++ filename ∷ []) ∷ records opts rows
page_with false opts rows = records opts rows

abbrev pub page : CsvOptions → List Row → List (List (List ℕ))
page opts rows = page_with opts.header opts rows

abbrev mark : Bool → List ℕ
mark bom = if bom then 0xEF ∷ 0xBB ∷ 0xBF ∷ [] else []

abbrev header_text : Bool → CsvOptions → List ℕ → List ℕ
header_text true opts tail =
    join_text opts.separator (names opts.columns) (filename ++ cr ∷ lf ∷ tail)
header_text false opts tail = tail

preamble_with :
    (header : Bool) (opts : CsvOptions) (out tail : List ℕ)
    → (if header then write_header opts.separator opts.columns out else out) ++ tail
      ≡ out ++ header_text header opts tail
preamble_with true opts out tail = write_header-join opts.separator opts.columns out tail
preamble_with false opts out tail = refl

write_csv-join :
    (opts : CsvOptions) (rows : List Row) (rest : List ℕ)
    → write_csv opts rows [] ++ rest
      ≡ mark opts.bom ++ header_text opts.header opts (rows_text opts rows rest)
unfolding write_csv write_csv_preamble
write_csv-join opts rows rest =
    write_rows-join opts rows (write_csv_preamble opts []) rest
    ∙ preamble_with opts.header opts (mark opts.bom) (rows_text opts rows rest)

drop-mark : (bom : Bool) (bytes : List ℕ) → drop (if bom then 3 else 0) (mark bom ++ bytes) ≡ bytes
drop-mark true bytes = refl
drop-mark false bytes = refl

read_records-header_text :
    (header : Bool) (opts : CsvOptions) (rows : List Row) (rest : List ℕ)
    → IsSeparator opts.separator
    → All (PlainDate opts.separator) rows
    → read_records opts.separator
        (length opts.columns)
        (length (page_with header opts rows))
        (header_text header opts (rows_text opts rows rest))
      ≡ some (page_with header opts rows, rest)
unfolding read_records
read_records-header_text true opts rows rest s h =
    let tail = rows_text opts rows rest in
    let others = read_records-rows_text opts rows rest s h in
    let first =
      read_record-text opts.separator (names opts.columns) filename filename tail s
        (names-IsPlain opts.separator opts.columns s)
        (read_field-plain opts.separator filename cr (lf ∷ tail) s
          (filename-IsPlain opts.separator s) (inr refl)) in
    rw (sym (length-names opts.columns)) (rw first (rw others refl))
read_records-header_text false opts rows rest s h = read_records-rows_text opts rows rest s h

-- However the options choose the columns, the quoting, the header and the byte order mark, a reader of
-- RFC 4180 records, given the number of columns, gets from the bytes of a page exactly the header
-- names, if there is a header, and then one record for each row: its cells in the order of the columns,
-- then its path, whatever bytes the path has. The separator is a comma or a tab, and the date text has
-- no separator, quote or line end.
pub read_records-write_csv :
    (opts : CsvOptions) (rows : List Row) (rest : List ℕ)
    → IsSeparator opts.separator
    → All (PlainDate opts.separator) rows
    → read_records opts.separator
        (length opts.columns)
        (length (page opts rows))
        (drop (if opts.bom then 3 else 0) (write_csv opts rows [] ++ rest))
      ≡ some (page opts rows, rest)
read_records-write_csv opts rows rest s h =
    ap
      (λ b.
        read_records opts.separator (length opts.columns) (length (page opts rows))
          (drop (if opts.bom then 3 else 0) b))
      (write_csv-join opts rows rest)
    ∙ ap (read_records opts.separator (length opts.columns) (length (page opts rows)))
        (drop-mark opts.bom (header_text opts.header opts (rows_text opts rows rest)))
    ∙ read_records-header_text opts.header opts rows rest s h
