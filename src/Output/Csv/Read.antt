-- ===== src/Output/Csv/Read.antt =====
-- A reader of RFC 4180 records, by which crates/goz-core/src/output/csv.rs is judged.
use goz.Prelude.{
  ℕ, zero, suc, ◌≡◌, ◌≢◌, ◌⊎◌, inl, inr, refl, All, length, Bool-cases, arith, eq→==, ==_iff, false,
  ◌||◌, Option, none, some, List, [], ◌∷◌, ◌++◌, ◌==◌, if◌then◌else◌,
}
use goz.Output.Csv.{quote, cr, lf, double_quotes}
use mathlib.Core.Option

-- What follows an opening quote, to the quote that closes it: two quotes stand for one.
unfoldable pub read_quoted : List ℕ → Option (List ℕ × List ℕ)
read_quoted [] = none
read_quoted (b ∷ []) = if b == quote then some ([], []) else none
read_quoted (b ∷ c ∷ bytes) =
    let inside = Option.map (λ r. (b ∷ r.0, r.1)) (read_quoted (c ∷ bytes)) in
    let doubled = Option.map (λ r. (quote ∷ r.0, r.1)) (read_quoted bytes) in
    if b == quote then (if c == quote then doubled else some ([], c ∷ bytes)) else inside

-- Up to the separator or the end of the line.
unfoldable pub read_plain : ℕ → List ℕ → List ℕ × List ℕ
read_plain separator [] = ([], [])
read_plain separator (b ∷ bytes) =
    let r = read_plain separator bytes in
    if b == separator || b == cr then ([], b ∷ bytes) else (b ∷ r.0, r.1)

unfoldable pub read_field : ℕ → List ℕ → Option (List ℕ × List ℕ)
read_field separator [] = some ([], [])
read_field separator (b ∷ bytes) =
    if b == quote then read_quoted bytes else some (read_plain separator (b ∷ bytes))

unfoldable pub skip : ℕ → List ℕ → Option (List ℕ)
skip b [] = none
skip b (c ∷ bytes) = if c == b then some bytes else none

infixl 5 ◌>>=◌
abbrev pub ◌>>=◌ {ℓ κ} : {A : Type ℓ} {B : Type κ} → Option A → (A → Option B) → Option B
none >>= f = none
some a >>= f = f a

-- A record of `n` fields before the last one.
unfoldable pub read_record : ℕ → ℕ → List ℕ → Option (List (List ℕ) × List ℕ)
read_record separator zero bytes = do
  (field, a) ← read_field separator bytes
  b ← skip cr a
  c ← skip lf b
  some (field ∷ [], c)
read_record separator (suc n) bytes = do
  (field, a) ← read_field separator bytes
  b ← skip separator a
  (fields, c) ← read_record separator n b
  some (field ∷ fields, c)

unfoldable pub read_records : ℕ → ℕ → ℕ → List ℕ → Option (List (List (List ℕ)) × List ℕ)
read_records separator n zero bytes = some ([], bytes)
read_records separator n (suc k) bytes = do
  (fields, a) ← read_record separator n bytes
  (records, b) ← read_records separator n k a
  some (fields ∷ records, b)

-- The fields as they are written, each before a separator.
abbrev pub join_text : ℕ → List (List ℕ) → List ℕ → List ℕ
join_text separator [] rest = rest
join_text separator (field ∷ fields) rest = field ++ separator ∷ join_text separator fields rest

abbrev pub IsSeparator : ℕ → Type 0
IsSeparator separator = (separator ≡ 0x2C) ⊎ (separator ≡ 0x09)

-- A byte that stands for itself in a field without quotes.
abbrev pub IsPlain : ℕ → ℕ → Type 0
IsPlain separator b = (b ≢ separator) × (b ≢ quote) × (b ≢ cr) × (b ≢ lf)

read_plain-append :
    (separator : ℕ) (field : List ℕ) (stop : ℕ) (rest : List ℕ)
    → All (IsPlain separator) field
    → (stop ≡ separator) ⊎ (stop ≡ cr)
    → read_plain separator (field ++ stop ∷ rest) ≡ (field, stop ∷ rest)
unfolding read_plain
read_plain-append separator [] stop rest h k = ground (arith, k)
read_plain-append separator (b ∷ field) stop rest h k =
    let step = read_plain-append separator field stop rest h.1 k in
    let p = h.0 in rw step (ground (arith, p))

pub read_field-plain :
    (separator : ℕ) (field : List ℕ) (stop : ℕ) (rest : List ℕ)
    → IsSeparator separator
    → All (IsPlain separator) field
    → (stop ≡ separator) ⊎ (stop ≡ cr)
    → read_field separator (field ++ stop ∷ rest) ≡ some (field, stop ∷ rest)
unfolding read_field
read_field-plain separator [] stop rest s h k =
    let step = read_plain-append separator [] stop rest h k in rw step (ground (arith, s, k))
read_field-plain separator (b ∷ field) stop rest s h k =
    let step = read_plain-append separator (b ∷ field) stop rest h k in
    let p = h.0 in rw step (ground (arith, p))

read_quoted-other :
    (b : ℕ) (bytes : List ℕ)
    → (b == quote) ≡ false
    → read_quoted (b ∷ bytes) ≡ Option.map (λ r. (b ∷ r.0, r.1)) (read_quoted bytes)
unfolding read_quoted
read_quoted-other b [] h = rw h refl
read_quoted-other b (c ∷ bytes) h = rw h refl

read_quoted-close :
    (stop : ℕ) (rest : List ℕ)
    → stop ≢ quote
    → read_quoted (quote ∷ stop ∷ rest) ≡ some ([], stop ∷ rest)
unfolding read_quoted
read_quoted-close stop rest h = ground (arith, h)

read_quoted-pair :
    (bytes : List ℕ)
    → read_quoted (quote ∷ quote ∷ bytes) ≡ Option.map (λ r. (quote ∷ r.0, r.1)) (read_quoted bytes)
unfolding read_quoted
read_quoted-pair bytes = refl

pub read_quoted-double_quotes :
    (field : List ℕ) (stop : ℕ) (rest : List ℕ)
    → stop ≢ quote
    → read_quoted (double_quotes field ++ quote ∷ stop ∷ rest) ≡ some (field, stop ∷ rest)
unfolding double_quotes
read_quoted-double_quotes [] stop rest h = read_quoted-close stop rest h
read_quoted-double_quotes (b ∷ field) stop rest h =
    let step = read_quoted-double_quotes field stop rest h in
    elim (Bool-cases (b == quote)) [
      | inl e ↦
          rw ((==_iff b quote).0 e)
            (rw (read_quoted-pair (double_quotes field ++ quote ∷ stop ∷ rest), step) refl)
      | inr e ↦
          rw (e, read_quoted-other b (double_quotes field ++ quote ∷ stop ∷ rest) e, step) refl
    ]

pub read_record-text :
    (separator : ℕ) (fields : List (List ℕ)) (last last_text rest : List ℕ)
    → IsSeparator separator
    → All (All (IsPlain separator)) fields
    → read_field separator (last_text ++ cr ∷ lf ∷ rest) ≡ some (last, cr ∷ lf ∷ rest)
    → read_record separator
        (length fields)
        (join_text separator fields (last_text ++ cr ∷ lf ∷ rest))
      ≡ some (fields ++ last ∷ [], rest)
unfolding read_record skip
read_record-text separator [] last last_text rest s h k = rw k refl
read_record-text separator (field ∷ fields) last last_text rest s h k =
    let tail = join_text separator fields (last_text ++ cr ∷ lf ∷ rest) in
    let first = read_field-plain separator field separator tail s h.0 (inl refl) in
    let others = read_record-text separator fields last last_text rest s h.1 k in
    rw (first, eq→== separator separator refl, others) refl
