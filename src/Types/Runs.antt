-- ===== src/Types/Runs.antt =====
-- The identifiers at concrete values.
use goz.Prelude.{◌≡◌, refl}
use goz.Types.{Frn, sequence}

-- Record 42, in its fifth use.
abbrev fifth_use : Frn
fifth_use = 0x0005_0000_0000_002A

fifth_use-sequence : sequence fifth_use ≡ 5
unfolding sequence
fifth_use-sequence = refl
