-- ===== src/Daemon/Pulse/Life.antt =====
-- crates/goz-daemon/src/pulse.rs: what a supervisor reads through the life of a tail.
use goz.Prelude.{ℕ, ◌^◌, ◌<◌, ◌≡◌, List, [], ◌∷◌, All}
use goz.Daemon.Pulse.{
  Pulse, beat, busy, retired, load, Store, beats, enters_busy, leaves_busy, retires, store, stored,
  new,
}
use goz.Daemon.Pulse.Word.{load-beat, load-busy, load-retired}

abbrev pub seen : Store → Pulse
seen (beats secs) = beat secs
seen (enters_busy secs) = busy secs
seen (leaves_busy secs) = beat secs
seen retires = retired

-- What a tail that has said `p` says after a sequence of stores.
abbrev pub last_seen : Pulse → List Store → Pulse
last_seen p [] = p
last_seen p (s ∷ rest) = last_seen (seen s) rest

-- The instants fit 62 bits, as the seconds of about 146 billion years do.
abbrev pub Fits : Store → Type 0
Fits (beats secs) = secs < 2 ^ 62
Fits (enters_busy secs) = secs < 2 ^ 62
Fits (leaves_busy secs) = secs < 2 ^ 62
Fits retires = Unit

load-store : (s : Store) → Fits s → load (store s) ≡ seen s
unfolding store
load-store (beats secs) h = load-beat secs h
load-store (enters_busy secs) h = load-busy secs h
load-store (leaves_busy secs) h = load-beat secs h
load-store retires h = load-retired

load-stored_from :
    (word : ℕ) (p : Pulse) (ss : List Store)
    → load word ≡ p
    → All Fits ss
    → load (stored word ss) ≡ last_seen p ss
unfolding stored
load-stored_from word p [] e h = e
load-stored_from word p (s ∷ ss) e h = load-stored_from (store s) (seen s) ss (load-store s h.0) h.1

-- Whenever a supervisor reads the word, it sees exactly what the tail stored last: the instant of its
-- last beat, that it has been busy since some instant, or that it has retired, and before any store
-- the instant at which it was made. Instants are below 2 ^ 62.
pub load-stored :
    (start : ℕ) (ss : List Store)
    → start < 2 ^ 62
    → All Fits ss
    → load (stored (new start) ss) ≡ last_seen (beat start) ss
unfolding new
load-stored start ss hs h = load-stored_from (new start) (beat start) ss (load-beat start hs) h
