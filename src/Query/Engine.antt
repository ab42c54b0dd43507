-- ===== src/Query/Engine.antt =====
-- crates/goz-core/src/query/engine.rs: what a query asks of a candidate, the keys that order candidates,
-- and the page that is cut out of them. `memmem` finds a piece where one stands; its search is not
-- modelled.
pub mod Scope
pub mod Order
pub mod Keys
pub mod Pieces
pub mod Admits
pub mod Needs
pub mod Prefilter
mod Runs
use goz.Prelude.{
  ℕ, zero, suc, ◌+◌, ◌-◌, ◌*◌, ◌^◌, Bool, true, false, not, ◌&&◌, ◌||◌, Option, none, some, List,
  [], ◌∷◌, ◌++◌, ltb, leb, ◌==◌, if◌then◌else◌, length, take, drop,
}
use Prim.Native.Nat.{min}
use goz.Prelude.Int.{ℤ, pos, negsuc, i64_limit}
use goz.Types.{SortDir, asc, desc}
use goz.Fold.{Unicode, fold, fold_into}
use goz.Wtf8.Lossy.{same_bytes}
use goz.Query.Wildcard.{
  Wildcard, Checks, Answer, matches_decoded, longest_literal, leading_literal, trailing_literal,
  separator_free_literals,
}
use goz.Query.Parse.{Kind, file, folder, SizeRange, contains, Filters, ParsedQuery}

unfoldable pub kind_matches : Option Kind → Bool → Bool
kind_matches none is_dir = true
kind_matches (some file) is_dir = not is_dir
kind_matches (some folder) is_dir = is_dir

unfoldable pub size_matches : SizeRange → Option ℕ → Bool
size_matches range none = false
size_matches range (some s) = contains range s

-- The bytes after the last dot.
unfoldable pub after_last_dot : List ℕ → Option (List ℕ) → Option (List ℕ)
after_last_dot [] found = found
after_last_dot (b ∷ bytes) found = after_last_dot bytes (if b == 0x2E then some bytes else found)

unfoldable pub any_same : List (List ℕ) → List ℕ → Bool
any_same [] bytes = false
any_same (e ∷ exts) bytes = same_bytes e bytes || any_same exts bytes

unfoldable pub ext_among : Unicode → List (List ℕ) → Option (List ℕ) → Bool
ext_among u exts none = false
ext_among u exts (some ext) = any_same exts (fold_into u ext [])

unfoldable pub ext_matches : Unicode → Option (List (List ℕ)) → List ℕ → Bool
ext_matches u none name = true
ext_matches u (some exts) name = ext_among u exts (after_last_dot name none)

unfoldable pub starts_with : List ℕ → List ℕ → Bool
starts_with text [] = true
starts_with [] (p ∷ piece) = false
starts_with (c ∷ text) (p ∷ piece) = (c == p) && starts_with text piece

-- `find(piece).is_some()`
unfoldable pub holds : List ℕ → List ℕ → Bool
holds [] piece = starts_with [] piece
holds (c ∷ text) piece = starts_with (c ∷ text) piece || holds text piece

unfoldable pub ends_with : List ℕ → List ℕ → Bool
ends_with text piece =
    leb (length piece) (length text) && same_bytes (drop (length text - length piece) text) piece

unfoldable pub holds_all : List ℕ → List (List ℕ) → Bool
holds_all text [] = true
holds_all text (t ∷ ts) = holds text t && holds_all text ts

unfoldable pub next_wildcard : Answer → (Checks → Answer) → Answer
next_wildcard none next = none
next_wildcard (some (true, c)) next = next c
next_wildcard (some (false, c)) next = some (false, c)

-- `text` is decoded once for them all.
unfoldable pub wildcards_match : List Wildcard → List ℕ → Checks → Answer
wildcards_match [] text c = some (true, c)
wildcards_match (w ∷ ws) text c = next_wildcard (matches_decoded w text c) (wildcards_match ws text)

-- `name_matches`, on the bytes and the code points that the query's case picks, and the raw name.
unfoldable pub name_matches : Unicode → ParsedQuery → List ℕ → List ℕ → List ℕ → Checks → Answer
name_matches u q hay points raw c =
    if not (holds_all hay q.name_terms)
    then some (false, c)
    else next_wildcard (wildcards_match q.wildcards points c)
        (λ c1. some (ext_matches u q.filters.ext raw, c1))

-- A `u64` that a sort key is.
abbrev pub key_max : ℕ
key_max = 2 ^ 64 - 1

unfoldable pub unknown_last : Option ℕ → SortDir → ℕ
unknown_last (some k) asc = k
unknown_last (some k) desc = k + 1
unknown_last none asc = key_max
unknown_last none desc = 0

unfoldable pub size_key : Option ℕ → SortDir → ℕ
size_key size dir = unknown_last size dir

-- `((t as u64) ^ (1 << 63)) - 1`: flipping the sign bit adds 2^63.
unfoldable pub flipped : ℤ → ℕ
flipped (pos n) = n + i64_limit - 1
flipped (negsuc n) = i64_limit - 1 - n - 1

unfoldable pub flip_some : Option ℤ → Option ℕ
flip_some none = none
flip_some (some t) = some (flipped t)

unfoldable pub mtime_key : Option ℤ → SortDir → ℕ
mtime_key mtime dir = unknown_last (flip_some mtime) dir

unfoldable pub page_end : ℕ → ℕ → Option ℕ → ℕ
page_end n start none = n
page_end n start (some l) = min (start + l) n

unfoldable pub page_bounds : ℕ → ℕ → Option ℕ → ℕ × ℕ
page_bounds n offset limit = let start = min offset n in (start, page_end n start limit)

-- The candidates of the page.
unfoldable pub page_of {ℓ} : {A : Type ℓ} → List A → ℕ → Option ℕ → List A
page_of candidates offset limit =
    let bounds = page_bounds (length candidates) offset limit in
    take (bounds.1 - bounds.0) (drop bounds.0 candidates)

-- Where the first byte `b` stands.
unfoldable pub position : ℕ → List ℕ → Option ℕ
position b [] = none
position b (c ∷ bytes) =
    let rest = position b bytes in
    if c == b then some 0 else elim rest as (λ _. Option ℕ) [ none ↦ none | some i ↦ some (suc i) ]

-- The overlap of a term that would start at `start` of the prefix.
unfoldable pub overlaps : List ℕ → List ℕ → ℕ → Bool
overlaps term prefix start =
    let overlap = min (length prefix - start) (length term) in
    same_bytes (take overlap term) (take overlap (drop start prefix))

unfoldable pub admits_at : List ℕ → List ℕ → Option ℕ → Option ℕ → Bool
admits_at term prefix none colon = true
admits_at term prefix (some k) none = false
admits_at term prefix (some k) (some c) = if ltb c k then false else overlaps term prefix (c - k)

unfoldable pub term_admits : List ℕ → List ℕ → Bool
term_admits term prefix = admits_at term prefix (position 0x3A term) (position 0x3A prefix)

-- What a path term needs of a name.
pub data Need : Type 0 where
  nothing : Need
  start : ℕ → Need
  within_name : Need
  never : Need
  whole : Need

-- Where the last byte `b` stands.
unfoldable pub last_position : ℕ → List ℕ → Option ℕ
last_position b [] = none
last_position b (c ∷ bytes) = elim (last_position b bytes) as (λ _. Option ℕ) [
  | some i ↦ some (suc i)
  | none ↦ if c == b then some 0 else none
]

-- `before_name.last() == Some(&b'\\')`
unfoldable pub ends_open : List ℕ → Bool
ends_open [] = false
ends_open (c ∷ []) = c == 0x5C
ends_open (c ∷ d ∷ bytes) = ends_open (d ∷ bytes)

unfoldable pub need_after : List ℕ → List ℕ → Option ℕ → Need
need_after before_name term none = within_name
need_after before_name term (some i) =
    if ends_with before_name (take (i + 1) term) then start (i + 1) else never

-- What `decide_needs` pushes for a term, where the budget is not spent.
unfoldable pub need_of : List ℕ → List ℕ → Need
need_of before_name term =
    if holds before_name term
    then nothing
    else if not (ends_open before_name)
    then whole
    else need_after before_name term (last_position 0x5C term)

-- Whether a name has what its term needs; a term for the whole path is left to the search there.
unfoldable pub held : Need → List ℕ → List ℕ → Bool
held nothing name term = true
held (start i) name term = starts_with name (drop i term)
held within_name name term = holds name term
held never name term = false
held whole name term = true

-- A prefilter that is considered: the longest so far, and whether it is a name term.
abbrev pub Prefilter : Type 0
Prefilter = Option (List ℕ) × Bool

unfoldable pub length_or_zero : Option (List ℕ) → ℕ
length_or_zero none = 0
length_or_zero (some bytes) = length bytes

unfoldable pub consider : Prefilter → List ℕ → Bool → Prefilter
consider best cand is_name_term =
    if ltb (length_or_zero best.0) (length cand) then (some cand, is_name_term) else best

unfoldable pub consider_terms : List (List ℕ) → Prefilter → Prefilter
consider_terms [] best = best
consider_terms (t ∷ ts) best = consider_terms ts (consider best t true)

unfoldable pub consider_literal : Option (List ℕ) → Prefilter → Prefilter
consider_literal none best = best
consider_literal (some lit) best = consider best lit false

unfoldable pub consider_wildcards : List Wildcard → Prefilter → Prefilter
consider_wildcards [] best = best
consider_wildcards (w ∷ ws) best = consider_wildcards ws (consider_literal (longest_literal w) best)

unfoldable pub consider_ext : Option (List (List ℕ)) → Prefilter → Prefilter
consider_ext (some ((e ∷ ext) ∷ [])) best = consider best (0x2E ∷ e ∷ ext) false
consider_ext _ best = best

unfoldable pub prefilter : ParsedQuery → Prefilter
prefilter q =
    consider_ext q.filters.ext
      (consider_wildcards q.wildcards (consider_terms q.name_terms (none, false)))
