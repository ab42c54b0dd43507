-- ===== src/Query/Engine/Runs.antt =====
-- crates/goz-core/src/query/engine.rs: a volume at `C:\` and small queries.
use goz.Prelude.{◌<◌, ◌≡◌, refl, true, false, none, some, [], ◌∷◌, ◌++◌, ltb, arith}
use goz.Prelude.Int.{pos, negsuc, ltb_ℤ}
use goz.Prelude.Text.{codes, has_code}
use goz.Types.{asc, desc}
use goz.Wtf8.Lossy.{same_bytes}
use goz.Query.Wildcard.{lit, any_run, of_tokens, encode_wtf8, longest_literal, longest_from, longer}
use goz.Query.Wildcard.Meaning.{Matches, done, same, stop, more}
use goz.Query.Wildcard.Literals.{Within}
use goz.Query.Parse.{ParsedQuery}
use goz.Query.Parse.Terms.{empty_query, no_filters}
use goz.Query.Engine.{
  mtime_key, term_admits, need_of, held, holds, holds_all, starts_with, ends_open, prefilter,
  consider, consider_terms, consider_wildcards, consider_literal, consider_ext, length_or_zero,
  admits_at, overlaps, position,
}
use goz.Query.Engine.Keys.{mtime_key-order}
use goz.Query.Engine.Needs.{need_of-held}
use goz.Query.Engine.Admits.{term_admits-Within}
use goz.Query.Engine.Prefilter.{prefilter-Within}

mtime_key-order_example :
    (ltb (mtime_key (some (negsuc 3)) desc) (mtime_key (some (pos 5)) desc)
      ≡ ltb_ℤ (negsuc 3) (pos 5))
    × (mtime_key (some (negsuc 3)) asc < mtime_key none asc)
    × (mtime_key none desc < mtime_key (some (negsuc 3)) desc)
mtime_key-order_example =
    mtime_key-order (negsuc 3) (pos 5) desc (omega arith, omega arith) (omega arith, omega arith)

-- The term `b\rep` below `C:\a\b\`.
need_of-held_example :
    held (need_of (codes "C:\\a\\b\\") (codes "b\\rep")) (codes "report") (codes "b\\rep")
    ≡ holds (codes "C:\\a\\b\\" ++ codes "report") (codes "b\\rep")
unfolding ends_open has_code
need_of-held_example = need_of-held (codes "C:\\a\\b\\") (codes "report") (codes "b\\rep") refl refl

other_drive : term_admits (codes "D:\\a") (codes "C:\\") ≡ false
unfolding term_admits admits_at position overlaps same_bytes
other_drive = refl

term_admits-Within_example : term_admits (codes ":\\a") (codes "C:\\") ≡ true
unfolding has_code
term_admits-Within_example =
    term_admits-Within (codes "C:\\") (codes "ab") (codes ":\\a") (omega arith) refl
      (codes "C", codes "b", refl)

-- `re *.c`
abbrev query : ParsedQuery
query = record (empty_query false) {
  name_terms = codes "re" ∷ [];
  wildcards = of_tokens (any_run ∷ lit b'.' ∷ lit b'c' ∷ lit b'c' ∷ []) ∷ [];
}

ends_cc : Matches (any_run ∷ lit b'.' ∷ lit b'c' ∷ lit b'c' ∷ []) (codes "re.cc")
ends_cc = more (more (stop (same (same (same done)))))

prefilter-Within_example : Within (codes ".cc") (codes "re.cc")
unfolding empty_query no_filters of_tokens encode_wtf8 holds_all holds starts_with prefilter
    consider consider_terms consider_wildcards consider_literal consider_ext length_or_zero
    longest_literal longest_from longer
prefilter-Within_example =
    prefilter-Within query (codes "re.cc") (codes "re.cc") (codes ".cc") false refl refl
      (ends_cc, tt) (λ ext e. absurd (ground (arith, e))) refl
