-- ===== src/Query/Parse/Quoted.antt =====
-- crates/goz-core/src/query/parse.rs: a search for texts in quotes.
use goz.Prelude.{
  ℕ, ◌≤◌, ◌≡◌, refl, sym, ap, ◌∙◌, Bool, true, false, List, [], ◌∷◌, ◌++◌, arith, append_assoc, All,
  ok, length,
}
use mathlib.Core.List.{append-nil}
use goz.Prelude.Text.{has_code}
use goz.Fold.{Unicode, fold}
use goz.Query.Dates.Text.{then_read, LocalClock}
use goz.Prelude.{Option, none}
use goz.Query.Parse.{
  ParsedQuery, is_empty_list, term_count, count_ext, case_directive, match_path_directive,
}
use goz.Query.Parse.Tokens.{quote_all, quoted_tokens, tokenize-quote_all}
use goz.Query.Parse.Terms.{
  last_directive, empty_query, no_filters, utf8, push_name, push_text_term, take_token, take_tokens,
  check_terms, parse_tokens, parse, fold_term,
}

-- A text that quotes keep whole: not empty, and without a quote or a separator.
abbrev IsName : List ℕ → Type 0
IsName t =
    (has_code 0x22 t ≡ false)
    × (has_code 0x5C t ≡ false)
    × (has_code 0x2F t ≡ false)
    × (is_empty_list t ≡ false)

last_directive_lem :
    (directive : List ℕ → Option Bool) (ts : List (List ℕ)) (default : Bool)
    → last_directive directive (quoted_tokens ts) default ≡ default
unfolding last_directive
last_directive_lem directive [] default = refl
last_directive_lem directive (t ∷ ts) default = last_directive_lem directive ts default

All-quotes : (ts : List (List ℕ)) → All IsName ts → All (λ t. has_code 0x22 t ≡ false) ts
All-quotes [] h = tt
All-quotes (t ∷ ts) ((a, b, c, d), hs) = (a, All-quotes ts hs)

module _ (u : Unicode) (match_case : Bool) (clock : Option LocalClock) where
  -- The bytes to search for: as written where case counts, and else folded.
  abbrev searched : Bool → List ℕ → List ℕ
  searched true t = utf8 t
  searched false t = fold u (utf8 t)

  abbrev pub terms_of : List (List ℕ) → List (List ℕ)
  terms_of [] = []
  terms_of (t ∷ ts) = searched match_case t ∷ terms_of ts

  fold_term-searched : (b : Bool) (t : List ℕ) → fold_term u b (utf8 t) ≡ searched b t
  unfolding fold_term
  fold_term-searched true t = refl
  fold_term-searched false t = refl

  abbrev pub names : List (List ℕ) → ParsedQuery
  names terms = record {
    name_terms = terms;
    path_terms = [];
    wildcards = [];
    path_wildcards = [];
    filters = record { ext = none; size = none; kind = none; date = none };
    match_case = match_case;
  }

  length-terms_of : (ts : List (List ℕ)) → length (terms_of ts) ≡ length ts
  length-terms_of [] = refl
  length-terms_of (t ∷ ts) = omega (arith, length-terms_of ts)

  push_quoted :
      (t : List ℕ) (terms : List (List ℕ))
      → IsName t
      → push_text_term u (names terms) t true false ≡ names (terms ++ searched match_case t ∷ [])
  unfolding push_text_term push_name
  push_quoted t terms (a, b, c, d) =
      let same = fold_term-searched match_case t in ground (arith, a, b, c, d, same)

  take_quoted :
      (ts terms : List (List ℕ))
      → All IsName ts
      → take_tokens u (quoted_tokens ts) (names terms) false clock
        ≡ ok (names (terms ++ terms_of ts))
  unfolding take_tokens take_token
  take_quoted [] terms h = ap (λ w. ok (names w)) (sym (append-nil terms))
  take_quoted (t ∷ ts) terms (h, hs) =
      ap (λ q. take_tokens u (quoted_tokens ts) q false clock) (push_quoted t terms h)
      ∙ take_quoted ts (terms ++ searched match_case t ∷ []) hs
      ∙ ap (λ w. ok (names w)) (append_assoc terms (searched match_case t ∷ []) (terms_of ts))

  few_names :
      (terms : List (List ℕ)) → length terms ≤ 256 → check_terms u (names terms) ≡ ok (names terms)
  unfolding check_terms term_count count_ext
  few_names terms few = ground (arith, few)

  parse_quoted :
      (ts : List (List ℕ))
      → All IsName ts
      → length ts ≤ 256
      → parse_tokens u (quoted_tokens ts) match_case clock ≡ ok (names (terms_of ts))
  unfolding parse_tokens empty_query no_filters
  parse_quoted ts h few =
      rw
        (
          last_directive_lem case_directive ts match_case,
          last_directive_lem match_path_directive ts false,
        )
        (ap (λ r. then_read r (check_terms u)) (take_quoted ts [] h)
          ∙ few_names (terms_of ts) (omega (arith, length-terms_of ts)))

  -- A query of at most 256 texts in quotes, none of them empty and none with a separator, searches the
  -- names for just these texts: no operator, wildcard, function or space in them is read, and they are
  -- folded unless case counts.
  pub parse-quote_all :
      (ts : List (List ℕ))
      → All IsName ts
      → length ts ≤ 256
      → parse u (quote_all ts) match_case clock ≡ ok (names (terms_of ts))
  unfolding parse
  parse-quote_all ts h few =
      ap (λ r. then_read r (λ tokens. parse_tokens u tokens match_case clock))
        (tokenize-quote_all ts (All-quotes ts h))
      ∙ parse_quoted ts h few
