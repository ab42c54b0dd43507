-- ===== src/Layout/Parse/Total.antt =====
-- crates/goz-core/src/layout/parse.rs: how many names the walk of a buffer can give.
use goz.Prelude.{
  ℕ, zero, suc, ◌+◌, ◌/◌, ◌≤◌, ◌≡◌, inl, inr, refl, sym, true, false, none, some, List, [], ◌∷◌,
  ◌++◌, ◌==◌, Bool-cases, length, ok, err, arith,
}
use goz.Usn.Record.{field}
use goz.Layout.{LayoutFile}
use goz.Layout.Parse.{
  Walk, give, ◌>>=◌, read_bytes, follow_offset, parse_file, max_names, check_names, files_from,
  walk_layout_buffer, file_size, header_size, output_header, first_file_offset, file_entry,
  next_file_offset,
}

-- The names of all the files.
abbrev pub total_names : List LayoutFile → ℕ
total_names [] = 0
total_names (file ∷ files) = length file.names + total_names files

total_names-snoc :
    (files : List LayoutFile) (file : LayoutFile)
    → total_names (files ++ file ∷ []) ≡ total_names files + length file.names
total_names-snoc [] file = omega arith
total_names-snoc (f ∷ files) file = omega (arith, total_names-snoc files file)

-- A walk that gives a value went through its first step.
bind_inv :
    {A B : Type 0} (w : Walk A) (f : A → Walk B) (b : B)
    → (w >>= f) ≡ give b
    → (a : A) × (w ≡ give a) × (f a ≡ give b)
bind_inv none f b h = absurd (ground (arith, h))
bind_inv (some (ok a)) f b h = (a, refl, h)
bind_inv (some (err e)) f b h = absurd (ground (arith, h))

give_injective : {A : Type 0} (a b : A) → give a ≡ give b → a ≡ b
give_injective a b h = ground (arith, h)

check_names-le : (buf : List ℕ) (n : ℕ) → check_names buf n ≡ give tt → n ≤ max_names buf
unfolding check_names
check_names-le buf n h = ground (arith, h)

-- The end of a turn: the files are given, or the loop goes on with them.
next_file-le :
    (buf : List ℕ) (off : ℕ) (files : List LayoutFile) (names : ℕ) (out : List LayoutFile) (rel : ℕ)
    (go_on : ℕ → Walk (List LayoutFile))
    → total_names files ≤ max_names buf
    → ((next : ℕ) → go_on next ≡ give out → total_names out ≤ max_names buf)
    → (elim (rel == 0) as (λ _. Walk (List LayoutFile)) [
      | true ↦ give files
      | false ↦ follow_offset buf off rel file_size next_file_offset >>= go_on
    ])
      ≡ give out
    → total_names out ≤ max_names buf
next_file-le buf off files names out rel go_on fits later h = elim (Bool-cases (rel == 0)) [
  | inl z ↦ let same : files ≡ out = give_injective files out (rw z at h) in rw (sym same) fits
  | inr z ↦
      let (next, k, h') =
        bind_inv (follow_offset buf off rel file_size next_file_offset) go_on out (rw z at h) in
      later next h'
]

files_from-le :
    (fuel : ℕ) (buf : List ℕ) (off : ℕ) (files : List LayoutFile) (names : ℕ)
    (out : List LayoutFile)
    → total_names files ≡ names
    → files_from fuel buf off files names ≡ give out
    → total_names out ≤ max_names buf
unfolding files_from
files_from-le zero buf off files names out t h = absurd (ground (arith, h))
files_from-le (suc fuel) buf off files names out t h =
    let (entry, e, h1) = bind_inv (read_bytes buf off file_size file_entry) _ out h in
    let (file, f, h2) = bind_inv (parse_file buf off entry) _ out h1 in
    let (u, g, h3) = bind_inv (check_names buf (names + length file.names)) _ out h2 in
    let fits = check_names-le buf (names + length file.names) g in
    let all : total_names (files ++ file ∷ []) ≡ names + length file.names =
      omega (arith, total_names-snoc files file, t) in
    next_file-le buf off (files ++ file ∷ []) names out (field 4 4 entry)
      (λ next. files_from fuel buf next (files ++ file ∷ []) (names + length file.names))
      (omega (arith, all, fits))
      (λ next. files_from-le fuel buf next (files ++ file ∷ []) (names + length file.names) out all)
      h3

-- The files that the walk of a buffer gives have together no more names than entries of 24 bytes fit
-- the buffer, so chains that are shared cannot make the names grow with its square.
pub total_names-walk_layout_buffer :
    (buf : List ℕ) (files : List LayoutFile)
    → walk_layout_buffer buf ≡ give files
    → total_names files ≤ length buf / 24
unfolding walk_layout_buffer max_names
total_names-walk_layout_buffer buf files h = elim (Bool-cases (length buf == 0)) [
  | inl z ↦
      let same : [] ≡ files = give_injective [] files (rw z at h) in rw (sym same) (omega arith)
  | inr z ↦
      let (header, e, h1) =
        bind_inv (read_bytes buf 0 header_size output_header) _ files (rw z at h) in
      elim (Bool-cases (field 0 4 header == 0)) [
        | inl y ↦
            let same : [] ≡ files = give_injective [] files (rw y at h1) in
            rw (sym same) (omega arith)
        | inr y ↦
            let (off, f, h2) =
              bind_inv (follow_offset buf 0 (field 4 4 header) header_size first_file_offset) _
                files (rw y at h1) in
            files_from-le (length buf) buf off [] 0 files refl h2
      ]
]
