-- ===== src/Query/Parse.antt =====
-- crates/goz-core/src/query/parse.rs: the text of a query, as code points, to its terms and filters. A
-- place in a token counts code points, where the code counts bytes; it only says where to cut.
pub mod Tokens
pub mod Terms
pub mod Quoted
mod Runs
use goz.Prelude.{
  ℕ, zero, suc, ◌+◌, ◌-◌, ◌*◌, ◌^◌, Bool, true, false, not, ◌&&◌, ◌||◌, Option, none, some, List,
  [], ◌∷◌, ◌++◌, ltb, leb, ◌==◌, if◌then◌else◌, length, take, drop, map, Result, ok, err,
}
use goz.Prelude.Text.{
  codes, same_text, is_one_of, has_code, is_whitespace, trim, lowercase, strip_prefix, strip_suffix,
  or_else, split_dots, split, all_codes, is_ascii_alphabetic, parse_unsigned,
}
use goz.Fold.{Unicode, fold, encode_all}
use goz.Query.Error.{
  QueryError, unsupported_operator, malformed, size_value, case_value, matchpath_value,
  too_many_terms, unknown_function, no_clock,
}
use goz.Query.Dates.{DateFilter, and}
use goz.Query.Dates.Text.{LocalClock, Read, date_filter, then_read}
use goz.Query.Wildcard.{Wildcard, compile}

pub data Kind : Type 0 where
  file folder : Kind

pub record SizeRange : Type 0 where
  pub min : ℕ
  pub max : ℕ

unfoldable pub contains : SizeRange → ℕ → Bool
contains r n = leb r.min n && leb n r.max

pub record Filters : Type 0 where
  pub ext : Option (List (List ℕ))
  pub size : Option SizeRange
  pub kind : Option Kind
  pub date : Option DateFilter

pub record ParsedQuery : Type 0 where
  pub name_terms : List (List ℕ)
  pub path_terms : List (List ℕ)
  pub wildcards : List Wildcard
  pub path_wildcards : List Wildcard
  pub filters : Filters
  pub match_case : Bool

unfoldable pub is_empty_list {ℓ} : {A : Type ℓ} → List A → Bool
is_empty_list [] = true
is_empty_list (a ∷ as_) = false

unfoldable pub is_text_empty : ParsedQuery → Bool
is_text_empty q =
    (is_empty_list q.name_terms && is_empty_list q.path_terms)
    && (is_empty_list q.wildcards && is_empty_list q.path_wildcards)

abbrev pub max_query_terms : ℕ
max_query_terms = 256

unfoldable pub count_ext : Option (List (List ℕ)) → ℕ
count_ext none = 0
count_ext (some exts) = length exts

unfoldable pub term_count : ParsedQuery → ℕ
term_count q =
    length q.name_terms
    + length q.path_terms
    + length q.wildcards
    + length q.path_wildcards
    + count_ext q.filters.ext

unfoldable pub case_directive : List ℕ → Option Bool
case_directive text =
    if is_one_of (lowercase text) (codes "case:" ∷ codes "case:1" ∷ [])
    then some true
    else if same_text (lowercase text) (codes "case:0")
    then some false
    else none

unfoldable pub match_path_directive : List ℕ → Option Bool
match_path_directive text =
    if is_one_of (lowercase text) (codes "matchpath:" ∷ codes "matchpath:1" ∷ [])
    then some true
    else if same_text (lowercase text) (codes "matchpath:0")
    then some false
    else none

pub record Token : Type 0 where
  pub text : List ℕ
  pub quoted : Bool
  pub func_colon : Option ℕ

-- The locals of `tokenize`.
pub record Scan : Type 0 where
  pub tokens : List Token
  pub cur : List ℕ
  pub in_quotes : Bool
  pub token_quoted : Bool
  pub func_colon : Option ℕ
  pub has_content : Bool

unfoldable pub scan_start : Scan
scan_start = record {
  tokens = [];
  cur = [];
  in_quotes = false;
  token_quoted = false;
  func_colon = none;
  has_content = false;
}

unfoldable pub token_of : Scan → Token
token_of s = record { text = s.cur; quoted = s.token_quoted; func_colon = s.func_colon }

unfoldable pub end_token : Scan → Scan
end_token s =
    if s.has_content
    then record {
      tokens = s.tokens ++ token_of s ∷ [];
      cur = [];
      in_quotes = s.in_quotes;
      token_quoted = false;
      func_colon = none;
      has_content = false;
    }
    else s

unfoldable pub is_none {ℓ} : {A : Type ℓ} → Option A → Bool
is_none none = true
is_none (some a) = false

unfoldable pub push_char : Scan → ℕ → Scan
push_char s c = record s {
  func_colon =
      if (c == 0x3A) && (not s.token_quoted && is_none s.func_colon)
      then some (length s.cur)
      else s.func_colon;
  cur = s.cur ++ c ∷ [];
  has_content = true;
}

unfoldable pub scan_char : Scan → ℕ → Read Scan
scan_char s c =
    if s.in_quotes
    then ok
        (if c == 0x22 then record s { in_quotes = false } else record s { cur = s.cur ++ c ∷ [] })
    else if c == 0x22
    then ok (record s { in_quotes = true; token_quoted = true; has_content = true })
    else if (c == 0x7C) || (c == 0x21)
    then err (unsupported_operator c)
    else if is_whitespace c
    then ok (end_token s)
    else ok (push_char s c)

unfoldable pub scan_all : List ℕ → Scan → Read Scan
scan_all [] s = ok s
scan_all (c ∷ cs) s = then_read (scan_char s c) (scan_all cs)

unfoldable pub tokenize : List ℕ → Read (List Token)
tokenize input = then_read (scan_all input scan_start) (λ s. ok (end_token s).tokens)

abbrev pub kb : ℕ
kb = 1024

abbrev pub mb : ℕ
mb = 1024 * kb

abbrev pub gb : ℕ
gb = 1024 * mb

abbrev pub tb : ℕ
tb = 1024 * gb

abbrev pub u64_max : ℕ
u64_max = 2 ^ 64 - 1

-- The suffixes, longest first, with what they multiply by.
unfoldable pub size_units : List (List ℕ × ℕ)
size_units =
    (codes "tb", tb) ∷ (codes "gb", gb) ∷ (codes "mb", mb) ∷ (codes "kb", kb) ∷ (codes "b", 1) ∷ []

unfoldable pub number_and_unit : List (List ℕ × ℕ) → List ℕ → List ℕ × ℕ
number_and_unit [] lower = (lower, 1)
number_and_unit ((suffix, mult) ∷ more) lower =
    elim (strip_suffix suffix lower) as (λ _. List ℕ × ℕ) [
      | some n ↦ (n, mult)
      | none ↦ number_and_unit more lower
    ]

-- `checked_mul`
unfoldable pub times : ℕ → Option ℕ → Option ℕ
times mult none = none
times mult (some n) = if ltb (n * mult) (2 ^ 64) then some (n * mult) else none

unfoldable pub parse_bytes : List ℕ → Option ℕ
parse_bytes s =
    let parts = number_and_unit size_units (lowercase (trim s)) in
    times parts.1 (parse_unsigned (2 ^ 64) (trim parts.0))

abbrev pub between : ℕ → ℕ → SizeRange
between min max = record { min = min; max = max }

unfoldable pub size_names : List (List ℕ × SizeRange)
size_names =
    (codes "empty", between 0 0)
    ∷ (codes "tiny", between 0 (10 * kb))
    ∷ (codes "small", between (10 * kb) (100 * kb))
    ∷ (codes "medium", between (100 * kb) mb)
    ∷ (codes "large", between mb (16 * mb))
    ∷ (codes "huge", between (16 * mb) (128 * mb))
    ∷ (codes "gigantic", between (128 * mb) u64_max)
    ∷ []

unfoldable pub named_size : List (List ℕ × SizeRange) → List ℕ → Option SizeRange
named_size [] lower = none
named_size ((name, range) ∷ more) lower =
    if same_text lower name then some range else named_size more lower

abbrev pub bytes_or_refuse : Option ℕ → Read ℕ
bytes_or_refuse none = err (malformed size_value)
bytes_or_refuse (some n) = ok n

-- One side of a range, `other` where it is left out.
unfoldable pub size_side : ℕ → List ℕ → Read ℕ
size_side other text =
    if is_empty_list (trim text) then ok other else bytes_or_refuse (parse_bytes text)

unfoldable pub size_range : List ℕ × List ℕ → Read SizeRange
size_range (lo, hi) =
    then_read (size_side 0 lo)
      (λ min. then_read (size_side u64_max hi) (λ max. ok (between min max)))

-- A comparison with `n`. `n.saturating_add(1)` stops at the largest number.
unfoldable pub size_operators : List (List ℕ × (ℕ → SizeRange))
size_operators =
    (codes ">=", λ n. between n u64_max)
    ∷ (codes "<=", λ n. between 0 n)
    ∷ (codes ">", λ n. between (if ltb n u64_max then n + 1 else u64_max) u64_max)
    ∷ (codes "<", λ n. between 0 (n - 1))
    ∷ []

unfoldable pub compared_size : List (List ℕ × (ℕ → SizeRange)) → List ℕ → Read SizeRange
compared_size [] v =
    then_read (bytes_or_refuse (parse_bytes (or_else (strip_prefix (codes "=") v) v)))
      (λ n. ok (between n n))
compared_size ((op, range) ∷ more) v = elim (strip_prefix op v) as (λ _. Read SizeRange) [
  | some rest ↦ then_read (bytes_or_refuse (parse_bytes rest)) (λ n. ok (range n))
  | none ↦ compared_size more v
]

unfoldable pub unnamed_size : List ℕ → Option (List ℕ × List ℕ) → Read SizeRange
unnamed_size v (some sides) = size_range sides
unnamed_size v none = compared_size size_operators v

unfoldable pub size_or : List ℕ → Option SizeRange → Read SizeRange
size_or v (some range) = ok range
size_or v none = unnamed_size v (split_dots v)

unfoldable pub parse_size : List ℕ → Read SizeRange
parse_size value = let v = trim value in size_or v (named_size size_names (lowercase v))
