-- ===== src/Query/Parse/Runs.antt =====
-- crates/goz-core/src/query/parse.rs: small queries.
use goz.Prelude.{◌≡◌, refl, ◌↔◌, false, true, none, some, [], ◌∷◌, ◌++◌, ok, arith}
use goz.Prelude.Text.{
  codes, has_code, same_text, trim, trim_start, reversed, is_whitespace, lowercase, strip_prefix,
  strip_suffix, or_else, split_dots, all_codes, is_ascii_digit, digits_value, parse_digits,
  parse_unsigned,
}
use goz.Fold.{Unicode}
use goz.Query.Parse.{
  tokenize, scan_all, scan_char, scan_start, end_token, token_of, push_char, is_none, is_empty_list,
  parse_size, size_or, named_size, size_names, unnamed_size, compared_size, size_operators, between,
  parse_bytes, number_and_unit, size_units, times, u64_max,
}
use goz.Query.Parse.Tokens.{IsOk, has_operator, quote_all, tokenize-IsOk}
use goz.Query.Parse.Terms.{parse}
use goz.Query.Parse.Quoted.{names, terms_of, parse-quote_all}

-- `ext:rs "a b"`
two_tokens :
    tokenize (codes "ext:rs " ++ quote_all (codes "a b" ∷ []))
    ≡ ok (
        record { text = codes "ext:rs"; quoted = false; func_colon = some 3 }
        ∷ record { text = codes "a b"; quoted = true; func_colon = none }
        ∷ [])
unfolding tokenize scan_all scan_char scan_start end_token token_of push_char is_none is_whitespace
    has_code
two_tokens = refl

above_two_kb : parse_size (codes ">2kb") ≡ ok (between 2049 u64_max)
unfolding parse_size size_or named_size size_names unnamed_size compared_size size_operators
    parse_bytes number_and_unit size_units times trim trim_start reversed is_whitespace has_code
    lowercase same_text strip_prefix strip_suffix split_dots parse_unsigned parse_digits or_else
    all_codes is_ascii_digit digits_value
above_two_kb = refl

tokenize-IsOk_example :
    IsOk (tokenize (codes "a | b")) ↔ (has_operator false (codes "a | b") ≡ false)
tokenize-IsOk_example = tokenize-IsOk (codes "a | b")

-- Code points that stay as they are.
abbrev plain : Unicode
plain = record { decompose_canonical = λ c. c ∷ []; to_lowercase = λ c. c ∷ []; nfc = λ run. run }

parse-quote_all_example :
    parse plain (quote_all (codes "a*|b" ∷ codes "x:" ∷ [])) false none
    ≡ ok (names plain false none (terms_of plain false none (codes "a*|b" ∷ codes "x:" ∷ [])))
unfolding has_code is_empty_list
parse-quote_all_example =
    parse-quote_all plain false none (codes "a*|b" ∷ codes "x:" ∷ [])
      ((refl, refl, refl, refl), ((refl, refl, refl, refl), tt)) (omega arith)
