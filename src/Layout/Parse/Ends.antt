-- ===== src/Layout/Parse/Ends.antt =====
-- crates/goz-core/src/layout/parse.rs: the walk of any buffer ends.
use goz.Prelude.{
  ℕ, zero, suc, ◌+◌, ◌%◌, ◌≤◌, ◌<◌, ◌≡◌, inl, inr, refl, Bool, true, false, not, Option, none, some,
  List, [], ◌∷◌, ◌++◌, ltb, leb, ◌==◌, if◌then◌else◌, Bool-cases, length, Result, ok, err, arith,
}
use goz.Types.{max_name_utf16_bytes}
use goz.Usn.Record.{field, checked_add}
use goz.Layout.{LayoutName, LayoutFile}
use goz.Layout.Parse.{
  What, LayoutWalkError, Walk, give, ◌>>=◌, output_header, first_file_offset, file_entry,
  next_file_offset, first_name_offset, next_name_offset, extra_info_offset, info_entry,
  first_stream_offset, stream_entry, stream_identifier, next_stream_offset, info_size,
  info_entry_legacy_len, max_names, read_to, read_bytes, follow_to, follow_offset, name_entry,
  file_name, check_name_length, read_name, names_from, parse_names, parse_info, read_stream,
  streams_from, parse_streams, parse_file, check_names, files_from, walk_layout_buffer, name_size,
  file_size, header_size, stream_size,
}

-- The walk comes to a value or an error.
abbrev pub Ends : {A : Type 0} → Walk A → Type 0
Ends {A} w = (r : Result A LayoutWalkError) × (w ≡ some r)

if-Ends : {A : Type 0} (b : Bool) (w u : Walk A) → Ends w → Ends u → Ends (if b then w else u)
if-Ends true w u h k = h
if-Ends false w u h k = k

bind-Ends :
    {A B : Type 0} (w : Walk A) (f : A → Walk B)
    → Ends w
    → ((a : A) → w ≡ give a → Ends (f a))
    → Ends (w >>= f)
bind-Ends none f (r, e) k = absurd (ground (arith, e))
bind-Ends (some (ok a)) f h k = k a refl
bind-Ends (some (err e)) f h k = (err e, refl)

read_to-Ends :
    (buf : List ℕ) (offset need : ℕ) (what : What) (end : Option ℕ)
    → Ends (read_to buf offset need what end)
unfolding read_to
read_to-Ends buf offset need what none = (err _, refl)
read_to-Ends buf offset need what (some end) =
    if-Ends (ltb (length buf) end) _ _ (err _, refl) (ok _, refl)

read_bytes-Ends :
    (buf : List ℕ) (offset need : ℕ) (what : What) → Ends (read_bytes buf offset need what)
unfolding read_bytes
read_bytes-Ends buf offset need what =
    if-Ends (need == 0) _ _ (ok [], refl)
      (if-Ends (leb (length buf) offset) _ _ (err _, refl)
        (read_to-Ends buf offset need what (checked_add offset need)))

follow_to-Ends : (buf : List ℕ) (what : What) (abs : Option ℕ) → Ends (follow_to buf what abs)
unfolding follow_to
follow_to-Ends buf what none = (err _, refl)
follow_to-Ends buf what (some abs) = if-Ends (leb (length buf) abs) _ _ (err _, refl) (ok _, refl)

follow_offset-Ends :
    (buf : List ℕ) (base rel min : ℕ) (what : What) → Ends (follow_offset buf base rel min what)
unfolding follow_offset
follow_offset-Ends buf base rel min what =
    if-Ends (ltb rel min) _ _ (err _, refl) (follow_to-Ends buf what (checked_add base rel))

-- An offset that is followed lies in the buffer, past the structure that names it.
follow_offset-lt :
    (buf : List ℕ) (base rel min : ℕ) (what : What) (abs : ℕ)
    → follow_offset buf base rel min what ≡ give abs
    → (base + min ≤ abs) × (abs < length buf)
unfolding follow_offset follow_to checked_add
follow_offset-lt buf base rel min what abs h = (ground (arith, h), ground (arith, h))

read_name-Ends : (buf : List ℕ) (off : ℕ) → Ends (read_name buf off)
unfolding read_name check_name_length
read_name-Ends buf off = bind-Ends _ _ (read_bytes-Ends buf off name_size name_entry) λ raw e.
    bind-Ends _ _
      (if-Ends (ltb max_name_utf16_bytes (field 16 4 raw)) _ _ (err _, refl)
        (if-Ends (not (field 16 4 raw % 2 == 0)) _ _ (err _, refl) (ok _, refl)))
      λ u e'.
        bind-Ends _ _ (read_bytes-Ends buf (off + name_size) (field 16 4 raw) file_name)
          λ bytes e''. (ok _, refl)

names_from-Ends :
    (fuel : ℕ) (buf : List ℕ) (off : ℕ) (names : List LayoutName)
    → off < length buf
    → length buf ≤ off + fuel
    → Ends (names_from fuel buf off names)
unfolding names_from
names_from-Ends zero buf off names lt le = absurd (omega (arith, lt, le))
names_from-Ends (suc fuel) buf off names lt le = bind-Ends _ _ (read_name-Ends buf off) λ entry e.
    elim (Bool-cases (entry.1 == 0)) [
      | inl z ↦ rw z (ok _, refl)
      | inr z ↦ rw z (
          bind-Ends _ _ (follow_offset-Ends buf off entry.1 name_size next_name_offset) λ next f.
            let (on, inside) = follow_offset-lt buf off entry.1 name_size next_name_offset next f in
            names_from-Ends fuel buf next (names ++ entry.0 ∷ []) inside (omega (arith, le, on)))
    ]

parse_names-Ends : (buf : List ℕ) (off rel : ℕ) → Ends (parse_names buf off rel)
unfolding parse_names
parse_names-Ends buf off rel = elim (Bool-cases (rel == 0)) [
  | inl z ↦ rw (z, parse_names) (ok _, refl)
  | inr z ↦
      rw (z, parse_names)
        (bind-Ends _ _ (follow_offset-Ends buf off rel file_size first_name_offset) λ next f.
          let (on, inside) = follow_offset-lt buf off rel file_size first_name_offset next f in
          names_from-Ends (length buf) buf next [] inside (omega arith))
]

parse_info-Ends : (buf : List ℕ) (off rel declared : ℕ) → Ends (parse_info buf off rel declared)
unfolding parse_info
parse_info-Ends buf off rel declared = elim (Bool-cases (rel == 0)) [
  | inl z ↦ rw (z, parse_info) (ok _, refl)
  | inr z ↦
      rw (z, parse_info)
        (bind-Ends _ _ (follow_offset-Ends buf off rel file_size extra_info_offset) λ next f.
          elim (Bool-cases
            (leb info_size (if declared == 0 then info_entry_legacy_len else declared))) [
              | inl b ↦ rw b (
                  bind-Ends _ _ (read_bytes-Ends buf next info_size info_entry)
                    λ info g. (ok _, refl))
              | inr b ↦ rw b (ok _, refl)
            ])
]

read_stream-Ends :
    (buf : List ℕ) (is_dir : Bool) (off : ℕ) (size : Option ℕ)
    → Ends (read_stream buf is_dir off size)
unfolding read_stream
read_stream-Ends buf is_dir off size =
    bind-Ends _ _ (read_bytes-Ends buf off stream_size stream_entry) λ raw e.
      if-Ends (not (field 44 4 raw % 2 == 0)) _ _ (err _, refl)
        (bind-Ends _ _ (read_bytes-Ends buf (off + stream_size) (field 44 4 raw) stream_identifier)
          λ id f. (ok _, refl))

streams_from-Ends :
    (fuel : ℕ) (buf : List ℕ) (is_dir : Bool) (off : ℕ) (size : Option ℕ)
    → off < length buf
    → length buf ≤ off + fuel
    → Ends (streams_from fuel buf is_dir off size)
unfolding streams_from
streams_from-Ends zero buf is_dir off size lt le = absurd (omega (arith, lt, le))
streams_from-Ends (suc fuel) buf is_dir off size lt le =
    bind-Ends _ _ (read_stream-Ends buf is_dir off size) λ entry e.
      elim (Bool-cases (entry.1 == 0)) [
        | inl z ↦ rw z (ok _, refl)
        | inr z ↦ rw z (
            bind-Ends _ _ (follow_offset-Ends buf off entry.1 stream_size next_stream_offset)
              λ next f.
                let (on, inside) =
                  follow_offset-lt buf off entry.1 stream_size next_stream_offset next f in
                streams_from-Ends fuel buf is_dir next entry.0 inside (omega (arith, le, on)))
      ]

parse_streams-Ends :
    (buf : List ℕ) (is_dir : Bool) (off rel : ℕ) → Ends (parse_streams buf is_dir off rel)
unfolding parse_streams
parse_streams-Ends buf is_dir off rel = elim (Bool-cases (rel == 0)) [
  | inl z ↦ rw (z, parse_streams) (ok _, refl)
  | inr z ↦
      rw (z, parse_streams)
        (bind-Ends _ _ (follow_offset-Ends buf off rel file_size first_stream_offset) λ next f.
          let (on, inside) = follow_offset-lt buf off rel file_size first_stream_offset next f in
          streams_from-Ends (length buf) buf is_dir next none inside (omega arith))
]

parse_file-Ends : (buf : List ℕ) (off : ℕ) (entry : List ℕ) → Ends (parse_file buf off entry)
unfolding parse_file
parse_file-Ends buf off entry =
    bind-Ends _ _ (parse_names-Ends buf off (field 24 4 entry)) λ names e.
      bind-Ends _ _ (parse_info-Ends buf off (field 32 4 entry) (field 36 4 entry)) λ mtime f.
        bind-Ends _ _ (parse_streams-Ends buf _ off (field 28 4 entry)) λ size g. (ok _, refl)

files_from-Ends :
    (fuel : ℕ) (buf : List ℕ) (off : ℕ) (files : List LayoutFile) (names : ℕ)
    → off < length buf
    → length buf ≤ off + fuel
    → Ends (files_from fuel buf off files names)
unfolding files_from check_names
files_from-Ends zero buf off files names lt le = absurd (omega (arith, lt, le))
files_from-Ends (suc fuel) buf off files names lt le =
    bind-Ends _ _ (read_bytes-Ends buf off file_size file_entry) λ entry e.
      bind-Ends _ _ (parse_file-Ends buf off entry) λ file f.
        bind-Ends _ _
          (if-Ends (ltb (max_names buf) (names + length file.names)) _ _ (err _, refl) (ok _, refl))
          λ u g. elim (Bool-cases (field 4 4 entry == 0)) [
            | inl z ↦ rw z (ok _, refl)
            | inr z ↦ rw z (
                bind-Ends _ _
                  (follow_offset-Ends buf off (field 4 4 entry) file_size next_file_offset)
                  λ next k.
                    let (on, inside) =
                      follow_offset-lt buf off (field 4 4 entry) file_size next_file_offset next
                        k in
                    files_from-Ends fuel buf next (files ++ file ∷ []) (names + length file.names)
                      inside (omega (arith, le, on)))
          ]

-- The walk of any buffer ends, in files or in an error, within as many turns of each of its loops as
-- the buffer has bytes: no chain of offsets, however it is damaged, makes it run on.
pub walk_layout_buffer-Ends : (buf : List ℕ) → Ends (walk_layout_buffer buf)
unfolding walk_layout_buffer
walk_layout_buffer-Ends buf =
    if-Ends (length buf == 0) _ _ (ok [], refl)
      (bind-Ends _ _ (read_bytes-Ends buf 0 header_size output_header) λ header e.
        elim (Bool-cases (field 0 4 header == 0)) [
          | inl z ↦ rw z (ok _, refl)
          | inr z ↦ rw z (
              bind-Ends _ _
                (follow_offset-Ends buf 0 (field 4 4 header) header_size first_file_offset)
                λ next f.
                  let (on, inside) =
                    follow_offset-lt buf 0 (field 4 4 header) header_size first_file_offset next
                      f in
                  files_from-Ends (length buf) buf next [] 0 inside (omega arith))
        ])
