-- ===== src/Proto/Binary/RoundTrip.antt =====
-- crates/goz-core/src/proto/binary.rs: decoding a page that the daemon pushed.
use goz.Prelude.{
  ℕ, ◌^◌, ◌<◌, ◌≡◌, refl, sym, ap, ◌∙◌, Bool, Option, none, some, List, [], ◌∷◌, ◌++◌, ok, All,
  true, false, if◌then◌else◌, length, drop, append_assoc, arith,
}
use goz.Prelude.Bytes.{to_le_bytes}
use goz.Prelude.Int.{ℤ}
use goz.Usn.Record.{to_i64}
use goz.Wtf8.{to_utf16}
use goz.Wtf8.Lossy.{is_utf8, to_string_lossy}
use goz.Proto.Binary.{
  ResultItem, resp_tag_results, page_flags, of_i64, optional_u64, is_some, push_results_header,
  item_flags, push_item, read_u8, item_of, read_item, read_items, decode_results_payload,
}
use goz.Proto.Binary.Reading.{
  read_bytes-append, read_number-to_le_bytes, FitsU64, read_optional-optional_u64, has-item_flags,
  has-page_flags, IsI64, to_i64-of_i64, of_i64-lt,
}
use mathlib.Core.Option

-- What the daemon knows of an item.
pub record Pushed : Type 0 where
  pub raw_path : List ℕ
  pub is_dir : Bool
  pub size : Option ℕ
  pub mtime : Option ℤ

abbrev FitsI64 : Option ℤ → Type 0
FitsI64 none = Unit
FitsI64 (some z) = IsI64 z

-- The path has a 32-bit length, the size and the date have 64 bits.
abbrev pub Fits : Pushed → Type 0
Fits p = (length p.raw_path < 2 ^ 32) × FitsU64 p.size × FitsI64 p.mtime

unfoldable pub push_items : List ℕ → List Pushed → List ℕ
push_items out [] = out
push_items out (p ∷ ps) = push_items (push_item out p.raw_path p.is_dir p.size p.mtime) ps

abbrev units_unless : Bool → List ℕ → Option (List ℕ)
units_unless true path = none
units_unless false path = some (to_utf16 path)

-- What the client is to learn of an item: the path as text, which is lossy unless the bytes are UTF-8,
-- in that case its UTF-16 units as well, and everything else as the daemon knows it.
abbrev learned : Pushed → ResultItem
learned p = record {
  path = to_string_lossy p.raw_path;
  path_u16 = units_unless (is_utf8 p.raw_path) p.raw_path;
  size = p.size;
  mtime_ft = p.mtime;
  is_dir = p.is_dir;
}

abbrev items_of : List Pushed → List ResultItem
items_of [] = []
items_of (p ∷ ps) = learned p ∷ items_of ps

item_of-learned : (p : Pushed) → item_of p.raw_path p.size p.mtime p.is_dir ≡ learned p
unfolding item_of
item_of-learned p = ap (λ units. record (learned p) { path_u16 = units }) (go (is_utf8 p.raw_path))
  where
    go : (b : Bool) → (if b then none else some (to_utf16 p.raw_path)) ≡ units_unless b p.raw_path
    go true = refl
    go false = refl

-- The bytes of an item and of a page's items, before what follows them.
abbrev item_text : Pushed → List ℕ → List ℕ
item_text p rest =
    to_le_bytes 4 (length p.raw_path)
    ++ (p.raw_path
        ++ (item_flags p.is_dir p.size p.mtime
            ∷ (optional_u64 p.size ++ (optional_u64 (Option.map of_i64 p.mtime) ++ rest))))

abbrev items_text : List Pushed → List ℕ → List ℕ
items_text [] rest = rest
items_text (p ∷ ps) rest = item_text p (items_text ps rest)

push_item-text :
    (out : List ℕ) (p : Pushed) (rest : List ℕ)
    → push_item out p.raw_path p.is_dir p.size p.mtime ++ rest ≡ out ++ item_text p rest
unfolding push_item
push_item-text out p rest =
    let n = to_le_bytes 4 (length p.raw_path) in
    let f = item_flags p.is_dir p.size p.mtime in
    let s = optional_u64 p.size in
    let m = optional_u64 (Option.map of_i64 p.mtime) in
    append_assoc out (n ++ (p.raw_path ++ (f ∷ s ++ m))) rest
    ∙ ap (◌++◌ out) (
        append_assoc n (p.raw_path ++ (f ∷ s ++ m)) rest
        ∙ ap (◌++◌ n) (
            append_assoc p.raw_path (f ∷ s ++ m) rest
            ∙ ap (λ t. p.raw_path ++ (f ∷ t)) (append_assoc s m rest)))

push_items-text :
    (out : List ℕ) (ps : List Pushed) (rest : List ℕ)
    → push_items out ps ++ rest ≡ out ++ items_text ps rest
unfolding push_items
push_items-text out [] rest = refl
push_items-text out (p ∷ ps) rest =
    push_items-text (push_item out p.raw_path p.is_dir p.size p.mtime) ps rest
    ∙ push_item-text out p (items_text ps rest)

is_some-map : (o : Option ℤ) → is_some (Option.map of_i64 o) ≡ is_some o
is_some-map none = refl
is_some-map (some z) = refl

map-of_i64-FitsU64 : (o : Option ℤ) → FitsI64 o → FitsU64 (Option.map of_i64 o)
map-of_i64-FitsU64 none h = tt
map-of_i64-FitsU64 (some z) h = of_i64-lt z h

map-to_i64 : (o : Option ℤ) → FitsI64 o → Option.map to_i64 (Option.map of_i64 o) ≡ o
map-to_i64 none h = refl
map-to_i64 (some z) h = ap some (to_i64-of_i64 z h)

read_item-text :
    (p : Pushed) (rest : List ℕ) → Fits p → read_item (item_text p rest) ≡ ok (learned p, rest)
unfolding read_item read_u8
read_item-text p rest h =
    let date = Option.map of_i64 p.mtime in
    let after_size = optional_u64 date ++ rest in
    let after_path = item_flags p.is_dir p.size p.mtime ∷ (optional_u64 p.size ++ after_size) in
    let bits = has-item_flags p.is_dir p.size p.mtime in
    rw
      (
        read_number-to_le_bytes 4 (length p.raw_path) (p.raw_path ++ after_path)
            (omega (arith, h.0)),
        read_bytes-append (length p.raw_path) p.raw_path after_path refl,
        bits.1,
        read_optional-optional_u64 p.size after_size h.1,
        bits.2,
        sym (is_some-map p.mtime),
        read_optional-optional_u64 date rest (map-of_i64-FitsU64 p.mtime h.2),
        map-to_i64 p.mtime h.2,
        bits.0,
        item_of-learned p,
      )
      refl

read_items-text :
    (ps : List Pushed) (rest : List ℕ)
    → All Fits ps
    → read_items (length ps) (items_text ps rest) ≡ ok (items_of ps, rest)
unfolding read_items
read_items-text [] rest h = refl
read_items-text (p ∷ ps) rest h =
    rw (read_item-text p (items_text ps rest) h.0, read_items-text ps rest h.1) refl

-- A header's bytes behind the tag, before what follows them.
abbrev header_text : ℕ → ℕ → ℕ → ℕ → Option ℕ → List ℕ → List ℕ
header_text total generation flags count total_size rest =
    to_le_bytes 8 total
    ++ (to_le_bytes 8 generation
        ++ (flags ∷ (to_le_bytes 4 count ++ (optional_u64 total_size ++ rest))))

push_results_header-text :
    (total generation : ℕ) (more incomplete pending : Bool) (total_size : Option ℕ) (count : ℕ)
    (rest : List ℕ)
    → push_results_header [] total generation more incomplete pending total_size count ++ rest
      ≡ resp_tag_results
        ∷ header_text total generation
            (page_flags more incomplete pending total_size)
            count
            total_size
            rest
unfolding push_results_header
push_results_header-text total generation more incomplete pending total_size count rest =
    let a = to_le_bytes 8 total in
    let b = to_le_bytes 8 generation in
    let f = page_flags more incomplete pending total_size in
    let c = to_le_bytes 4 count in
    let d = optional_u64 total_size in
    ap (◌∷◌ resp_tag_results) (
      append_assoc a (b ++ (f ∷ c ++ d)) rest
      ∙ ap (◌++◌ a)
          (append_assoc b (f ∷ c ++ d) rest ∙ ap (λ t. b ++ (f ∷ t)) (append_assoc c d rest)))

-- Whatever a page's header says and whatever items it has, their paths any bytes shorter than 4 GiB,
-- decoding the bytes that the pushes made, behind the tag, gives back the header's fields and, in
-- order, each item's size, date and kind as they were pushed, with its path as text and, where its bytes
-- are not UTF-8, as UTF-16 units too; bytes behind the page do not matter. Totals, sizes and dates fit 64
-- bits and the number of items 32.
pub decode_results_payload-push_items :
    (total generation : ℕ) (more incomplete pending : Bool) (total_size : Option ℕ)
    (ps : List Pushed) (rest : List ℕ)
    → total < 2 ^ 64
    → generation < 2 ^ 64
    → FitsU64 total_size
    → length ps < 2 ^ 32
    → All Fits ps
    → decode_results_payload (
        drop 1 (
          push_items
            (push_results_header [] total generation more incomplete pending total_size (length ps))
            ps
          ++ rest))
      ≡ ok (record {
        total = total;
        items = items_of ps;
        more = more;
        volumes_incomplete = incomplete;
        metadata_pending = pending;
        generation = generation;
        total_size = total_size;
      })
unfolding decode_results_payload read_u8
decode_results_payload-push_items total generation more incomplete pending total_size ps rest ht hg
      hs hc hp =
    let flags = page_flags more incomplete pending total_size in
    let items = items_text ps rest in
    let bits = has-page_flags more incomplete pending total_size in
    let header =
      push_results_header [] total generation more incomplete pending total_size (length ps) in
    let text =
      push_items-text header ps rest
      ∙ push_results_header-text total generation more incomplete pending total_size (length ps)
          items in
    let counted = to_le_bytes 4 (length ps) ++ (optional_u64 total_size ++ items) in
    rw
      (
        text,
        read_number-to_le_bytes 8 total (to_le_bytes 8 generation ++ (flags ∷ counted))
            (omega (arith, ht)),
        read_number-to_le_bytes 8 generation (flags ∷ counted) (omega (arith, hg)),
        read_number-to_le_bytes 4 (length ps) (optional_u64 total_size ++ items)
            (omega (arith, hc)),
        bits.3,
        read_optional-optional_u64 total_size items hs,
        read_items-text ps rest hp,
        bits.0,
        bits.1,
        bits.2,
      )
      refl
