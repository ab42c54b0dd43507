-- ===== src/Daemon/Pulse/Runs.antt =====
-- crates/goz-daemon/src/pulse.rs: a tail that rebuilds once and returns.
use goz.Prelude.{◌≡◌, refl, List, [], ◌∷◌, arith}
use goz.Daemon.Pulse.{
  Store, beats, enters_busy, leaves_busy, retires, beat, load, stored, new, pack, tag_busy,
}
use goz.Daemon.Pulse.Life.{last_seen, load-stored}

abbrev life : List Store
life = beats 100 ∷ enters_busy 101 ∷ leaves_busy 160 ∷ retires ∷ []

busy_word : pack tag_busy 101 ≡ 0x4000_0000_0000_0065
unfolding pack
busy_word = refl

load-stored_example : load (stored (new 99) life) ≡ last_seen (beat 99) life
load-stored_example =
    load-stored 99 life (omega arith) (omega arith, (omega arith, (omega arith, (tt, tt))))
