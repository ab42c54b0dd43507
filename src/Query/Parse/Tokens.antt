-- ===== src/Query/Parse/Tokens.antt =====
-- crates/goz-core/src/query/parse.rs: which queries the tokenizer takes, and what it makes of quotes.
use goz.Prelude.{
  ℕ, ◌≡◌, refl, ap, subst, ◌∙◌, ◌↔◌, Bool, true, false, not, ◌&&◌, ◌||◌, none, List, [], ◌∷◌, ◌++◌,
  ◌==◌, arith, if◌then◌else◌, append_assoc, All, ok, err,
}
use mathlib.Core.List.{append-nil}
use goz.Prelude.Text.{is_whitespace, has_code}
use goz.Query.Dates.Text.{Read, then_read}
use goz.Query.Parse.{
  Token, Scan, scan_start, scan_char, scan_all, end_token, token_of, push_char, tokenize,
}

abbrev pub IsOk : {A : Type 0} → Read A → Type 0
IsOk (ok a) = Unit
IsOk (err e) = ⊥

-- Whether `|` or `!` stands outside quotes; `quoted` says whether a quote is open.
abbrev pub has_operator : Bool → List ℕ → Bool
has_operator quoted [] = false
has_operator quoted (c ∷ cs) =
    (not quoted && ((c == 0x7C) || (c == 0x21)))
    || has_operator (if c == 0x22 then not quoted else quoted) cs

-- A step goes on with the quotes as they then are, or meets an operator.
abbrev Step : Scan → ℕ → Read Scan → Type 0
Step s c (ok r) =
    (r.in_quotes ≡ (if c == 0x22 then not s.in_quotes else s.in_quotes))
    × ((not s.in_quotes && ((c == 0x7C) || (c == 0x21))) ≡ false)
Step s c (err e) = (not s.in_quotes && ((c == 0x7C) || (c == 0x21))) ≡ true

scan_char_lem : (s : Scan) (c : ℕ) → Step s c (scan_char s c)
unfolding scan_char end_token push_char
scan_char_lem s c = ground arith

abbrev Takes : List ℕ → Scan → Type 0
Takes cs s = IsOk (scan_all cs s) ↔ (has_operator s.in_quotes cs ≡ false)

-- What the rest of the input then says.
step-Takes :
    (r : Read Scan) (s : Scan) (c : ℕ) (cs : List ℕ)
    → Step s c r
    → ((t : Scan) → Takes cs t)
    → IsOk (then_read r (scan_all cs)) ↔ (has_operator s.in_quotes (c ∷ cs) ≡ false)
step-Takes (ok r) s c cs (e, free) rest =
    rw free (subst (λ b. IsOk (scan_all cs r) ↔ (has_operator b cs ≡ false)) e (rest r))
step-Takes (err e) s c cs met rest = rw met (λ a. absurd a, λ e. absurd (ground (arith, e)))

scan_all-Takes : (cs : List ℕ) (s : Scan) → Takes cs s
unfolding scan_all
scan_all-Takes [] s = (λ a. refl, λ e. tt)
scan_all-Takes (c ∷ cs) s =
    step-Takes (scan_char s c) s c cs (scan_char_lem s c) (scan_all-Takes cs)

done-IsOk : (r : Read Scan) → IsOk (then_read r (λ s. ok (end_token s).tokens)) ↔ IsOk r
done-IsOk (ok s) = (λ a. tt, λ a. tt)
done-IsOk (err e) = (λ a. a, λ a. a)

-- The tokenizer takes a query exactly if neither `|` nor `!` stands in it outside quotes.
pub tokenize-IsOk : (input : List ℕ) → IsOk (tokenize input) ↔ (has_operator false input ≡ false)
unfolding tokenize scan_start
tokenize-IsOk input =
    let (a, b) = done-IsOk (scan_all input scan_start) in
    let (c, d) = scan_all-Takes input scan_start in (λ h. c (a h), λ e. b (d e))

-- Each text in quotes, with a space after it.
abbrev pub quote_all : List (List ℕ) → List ℕ
quote_all [] = []
quote_all (t ∷ ts) = 0x22 ∷ (t ++ 0x22 ∷ 0x20 ∷ quote_all ts)

abbrev pub quoted_tokens : List (List ℕ) → List Token
quoted_tokens [] = []
quoted_tokens (t ∷ ts) = record { text = t; quoted = true; func_colon = none } ∷ quoted_tokens ts

abbrev inside : List Token → List ℕ → Scan
inside tokens cur = record {
  tokens = tokens;
  cur = cur;
  in_quotes = true;
  token_quoted = true;
  func_colon = none;
  has_content = true;
}

abbrev between_tokens : List Token → Scan
between_tokens tokens = record scan_start { tokens = tokens }

-- The text up to the closing quote.
scan_text :
    (t rest cur : List ℕ) (tokens : List Token)
    → has_code 0x22 t ≡ false
    → scan_all (t ++ 0x22 ∷ 0x20 ∷ rest) (inside tokens cur)
      ≡ scan_all rest (
          between_tokens
            (tokens ++ record { text = cur ++ t; quoted = true; func_colon = none } ∷ []))
unfolding scan_all scan_char end_token token_of is_whitespace has_code scan_start
scan_text [] rest cur tokens h = rw (append-nil cur) refl
scan_text (c ∷ t) rest cur tokens h =
    let plain : (c == 0x22) ≡ false = ground (arith, h) in
    rw plain (
      scan_text t rest (cur ++ c ∷ []) tokens (ground (arith, h))
      ∙ ap
          (λ w.
            scan_all rest (
              between_tokens
                (tokens ++ record { text = w; quoted = true; func_colon = none } ∷ [])))
          (append_assoc cur (c ∷ []) t))

scan_quoted :
    (ts : List (List ℕ)) (tokens : List Token)
    → All (λ t. has_code 0x22 t ≡ false) ts
    → scan_all (quote_all ts) (between_tokens tokens)
      ≡ ok (between_tokens (tokens ++ quoted_tokens ts))
unfolding scan_all scan_char scan_start
scan_quoted [] tokens h = rw (append-nil tokens) refl
scan_quoted (t ∷ ts) tokens (h, hs) =
    scan_text t (quote_all ts) [] tokens h
    ∙ scan_quoted ts (tokens ++ record { text = t; quoted = true; func_colon = none } ∷ []) hs
    ∙ ap (λ w. ok (between_tokens w))
        (append_assoc tokens (record { text = t; quoted = true; func_colon = none } ∷ [])
          (quoted_tokens ts))

-- Texts written in quotes come back as the tokens of the query, whatever stands in them but a quote, and
-- none of them has a function.
pub tokenize-quote_all :
    (ts : List (List ℕ))
    → All (λ t. has_code 0x22 t ≡ false) ts
    → tokenize (quote_all ts) ≡ ok (quoted_tokens ts)
unfolding tokenize end_token scan_start
tokenize-quote_all ts h = ap (λ r. then_read r (λ s. ok (end_token s).tokens)) (scan_quoted ts [] h)
