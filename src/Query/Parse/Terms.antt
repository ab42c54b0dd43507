-- ===== src/Query/Parse/Terms.antt =====
-- crates/goz-core/src/query/parse.rs: the tokens of a query to its terms and filters.
use goz.Prelude.{
  ℕ, ◌+◌, Bool, true, false, not, ◌&&◌, ◌||◌, Option, none, some, List, [], ◌∷◌, ◌++◌, ltb, ◌==◌,
  if◌then◌else◌, length, take, drop, ok, err,
}
use goz.Prelude.Text.{
  codes, same_text, is_one_of, has_code, lowercase, or_else, split, all_codes, is_ascii_alphabetic,
}
use goz.Fold.{Unicode, fold, encode_all}
use goz.Query.Error.{
  malformed, case_value, matchpath_value, too_many_terms, unknown_function, no_clock,
}
use goz.Query.Dates.{DateFilter, and}
use goz.Query.Dates.Text.{LocalClock, Read, date_filter, then_read}
use goz.Query.Wildcard.{compile}
use goz.Query.Parse.{
  Kind, file, folder, Filters, ParsedQuery, is_empty_list, term_count, max_query_terms,
  case_directive, match_path_directive, Token, tokenize, parse_size,
}

-- The last answer of a directive among the tokens with a colon.
unfoldable pub last_directive : (List ℕ → Option Bool) → List Token → Bool → Bool
last_directive directive [] default = default
last_directive directive (t ∷ ts) default =
    last_directive directive ts (elim t.func_colon as (λ _. Bool) [
      | none ↦ default
      | some colon ↦ or_else (directive t.text) default
    ])

unfoldable pub no_filters : Filters
no_filters = record { ext = none; size = none; kind = none; date = none }

unfoldable pub empty_query : Bool → ParsedQuery
empty_query match_case = record {
  name_terms = [];
  path_terms = [];
  wildcards = [];
  path_wildcards = [];
  filters = no_filters;
  match_case = match_case;
}

-- `as_bytes` of a text.
unfoldable pub utf8 : List ℕ → List ℕ
utf8 text = encode_all text []

-- `text.replace('/', "\\")`
unfoldable pub with_backslashes : List ℕ → List ℕ
with_backslashes [] = []
with_backslashes (c ∷ s) = (if c == 0x2F then 0x5C else c) ∷ with_backslashes s

-- `trim_start_matches('.')`
unfoldable pub trim_dots : List ℕ → List ℕ
trim_dots [] = []
trim_dots (c ∷ s) = elim (c == 0x2E) [ true ↦ trim_dots s | false ↦ c ∷ s ]

unfoldable pub nonempty : List (List ℕ) → List (List ℕ)
nonempty [] = []
nonempty ([] ∷ parts) = nonempty parts
nonempty ((c ∷ part) ∷ parts) = (c ∷ part) ∷ nonempty parts

-- What stands before the colon of a token.
pub data Function : Type 0 where
  ext_of size_of date_of path_of file_of folder_of matchpath_of case_of : Function
  -- a name that goz does not know
  other : Function
  -- no function: a drive letter, or a colon in plain text
  plain : Function

unfoldable pub function_of : List ℕ → Function
function_of func =
    if same_text func (codes "ext")
    then ext_of
    else if same_text func (codes "size")
    then size_of
    else if is_one_of func (codes "dm" ∷ codes "datemodified" ∷ codes "date-modified" ∷ [])
    then date_of
    else if same_text func (codes "path")
    then path_of
    else if same_text func (codes "file")
    then file_of
    else if is_one_of func (codes "folder" ∷ codes "dir" ∷ [])
    then folder_of
    else if same_text func (codes "matchpath")
    then matchpath_of
    else if same_text func (codes "case")
    then case_of
    else if length func == 1
    then plain
    else if ltb 1 (length func) && all_codes is_ascii_alphabetic func
    then other
    else plain

unfoldable pub set_ext : ParsedQuery → List (List ℕ) → ParsedQuery
set_ext q exts =
    if is_empty_list exts then q else record q { filters = record q.filters { ext = some exts } }

unfoldable pub add_date : Option DateFilter → DateFilter → DateFilter
add_date none date = date
add_date (some d) date = and d date

unfoldable pub set_kind : ParsedQuery → Kind → ParsedQuery
set_kind q k = record q { filters = record q.filters { kind = some k } }

abbrev pub some_clock : Option LocalClock → Read LocalClock
some_clock none = err no_clock
some_clock (some clock) = ok clock

module _ (u : Unicode) where
  unfoldable pub fold_term : Bool → List ℕ → List ℕ
  fold_term match_case s = if match_case then s else fold u s

  unfoldable pub push_path : ParsedQuery → List ℕ → Bool → ParsedQuery
  push_path q text wildcard =
      let path = fold_term q.match_case (utf8 (with_backslashes text)) in
      if wildcard
      then record q { path_wildcards = q.path_wildcards ++ compile path ∷ [] }
      else record q { path_terms = q.path_terms ++ path ∷ [] }

  unfoldable pub push_name : ParsedQuery → List ℕ → Bool → ParsedQuery
  push_name q text wildcard =
      let name = fold_term q.match_case (utf8 text) in
      if wildcard
      then record q { wildcards = q.wildcards ++ compile name ∷ [] }
      else record q { name_terms = q.name_terms ++ name ∷ [] }

  unfoldable pub push_text_term : ParsedQuery → List ℕ → Bool → Bool → ParsedQuery
  push_text_term q text quoted as_path =
      let is_path = as_path || (has_code 0x5C text || has_code 0x2F text) in
      let wildcard = (has_code 0x2A text || has_code 0x3F text) && (is_path || not quoted) in
      if is_empty_list text
      then q
      else if is_path
      then push_path q text wildcard
      else push_name q text wildcard

  unfoldable pub fold_all : List (List ℕ) → List (List ℕ)
  fold_all [] = []
  fold_all (part ∷ parts) = fold u (utf8 (trim_dots part)) ∷ fold_all parts

  -- What a function does with its value.
  unfoldable pub apply_function :
      Function → ParsedQuery → Token → List ℕ → List ℕ → Bool → Option LocalClock → Read ParsedQuery
  apply_function ext_of q tok func value match_path clock =
      ok (set_ext q (fold_all (nonempty (split 0x3B value))))
  apply_function size_of q tok func value match_path clock =
      then_read (parse_size value)
        (λ range. ok (record q { filters = record q.filters { size = some range } }))
  apply_function date_of q tok func value match_path clock = then_read (some_clock clock) (λ c.
      then_read (date_filter value c) (λ date.
        ok
          (record q { filters = record q.filters { date = some (add_date q.filters.date date) } })))
  apply_function path_of q tok func value match_path clock =
      ok (push_text_term q value tok.quoted true)
  apply_function file_of q tok func value match_path clock =
      ok (push_text_term (set_kind q file) value tok.quoted match_path)
  apply_function folder_of q tok func value match_path clock =
      ok (push_text_term (set_kind q folder) value tok.quoted match_path)
  apply_function matchpath_of q tok func value match_path clock = err (malformed matchpath_value)
  apply_function case_of q tok func value match_path clock = err (malformed case_value)
  apply_function other q tok func value match_path clock =
      err (unknown_function (func ++ 0x3A ∷ []))
  apply_function plain q tok func value match_path clock =
      ok (push_text_term q tok.text tok.quoted match_path)

  unfoldable pub is_directive : List ℕ → Bool
  is_directive text = elim (case_directive text) as (λ _. Bool) [
    | some b ↦ true
    | none ↦ elim (match_path_directive text) as (λ _. Bool) [ some b ↦ true | none ↦ false ]
  ]

  unfoldable pub take_token : ParsedQuery → Token → Bool → Option LocalClock → Read ParsedQuery
  take_token q tok match_path clock = elim tok.func_colon as (λ _. Read ParsedQuery) [
    | none ↦ ok (push_text_term q tok.text tok.quoted match_path)
    | some colon ↦
        if is_directive tok.text
        then ok q
        else (let func = take colon tok.text in
            apply_function (function_of (lowercase func)) q tok func (drop (colon + 1) tok.text)
              match_path clock)
  ]

  unfoldable pub take_tokens :
      List Token → ParsedQuery → Bool → Option LocalClock → Read ParsedQuery
  take_tokens [] q match_path clock = ok q
  take_tokens (t ∷ ts) q match_path clock =
      then_read (take_token q t match_path clock) (λ r. take_tokens ts r match_path clock)

  unfoldable pub check_terms : ParsedQuery → Read ParsedQuery
  check_terms q =
      if ltb max_query_terms (term_count q) then err (too_many_terms (term_count q)) else ok q

  unfoldable pub parse_tokens : List Token → Bool → Option LocalClock → Read ParsedQuery
  parse_tokens tokens match_case clock =
      let start = empty_query (last_directive case_directive tokens match_case) in
      let match_path = last_directive match_path_directive tokens false in
      then_read (take_tokens tokens start match_path clock) check_terms

  unfoldable pub parse : List ℕ → Bool → Option LocalClock → Read ParsedQuery
  parse input match_case clock =
      then_read (tokenize input) (λ tokens. parse_tokens tokens match_case clock)

  unfoldable pub parse_query_with_case : List ℕ → Bool → Read ParsedQuery
  parse_query_with_case input match_case = parse input match_case none

  unfoldable pub parse_query : List ℕ → Read ParsedQuery
  parse_query input = parse_query_with_case input false

  unfoldable pub parse_query_at : List ℕ → Bool → LocalClock → Read ParsedQuery
  parse_query_at input match_case clock = parse input match_case (some clock)
