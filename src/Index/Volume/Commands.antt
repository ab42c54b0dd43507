-- ===== src/Index/Volume/Commands.antt =====
-- crates/goz-core/src/index/volume.rs: a command whose first step is known.
use goz.Prelude.{◌≡◌, refl, Option, some}
use goz.Types.{EntryIdx}
use goz.Index.EntryTable.{Slot, get_cell}
use goz.Index.Volume.{VolumeIndex, Cmd, ◌>>=◌, and_then, read, cell}

pub read_some :
    {A : Type 0} (f : VolumeIndex → Option A) (v : VolumeIndex) (a : A)
    → f v ≡ some a
    → read f v ≡ some (a, v)
read_some f v a e = rw (e, read) refl

pub bind_some :
    {A B : Type 0} (m : Cmd A) (k : A → Cmd B) (v : VolumeIndex) (a : A) (v' : VolumeIndex)
    {r : Option (B × VolumeIndex)}
    → m v ≡ some (a, v')
    → k a v' ≡ r
    → (m >>= k) v ≡ r
bind_some m k v a v' e d = rw (e, and_then) d

pub cell-some :
    {A : Type 0} (f : Slot → A) (i : EntryIdx) (v : VolumeIndex) (a : A)
    → get_cell f v.entries i ≡ some a
    → cell f i v ≡ some (a, v)
cell-some f i v a e = read_some (λ w. get_cell f w.entries i) v a e
