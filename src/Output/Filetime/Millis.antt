-- ===== src/Output/Filetime/Millis.antt =====
-- crates/goz-core/src/output/filetime.rs: milliseconds since 1970 and FILETIME ticks.
use goz.Prelude.{suc, ◌+◌, ◌*◌, ◌≤◌, ◌≡◌, arith}
use goz.Prelude.Int.{ℤ, pos, negsuc, pos_part, neg_part, ◌≤ℤ◌, ◌<ℤ◌, ◌+ℤ◌, saturate, i64_limit}
use goz.Output.Filetime.{filetime_unix_epoch, filetime_to_unix_ms, unix_ms_to_filetime}

saturate-inner : (z : ℤ) → suc (pos_part z) ≤ i64_limit → neg_part z ≤ i64_limit → saturate z ≡ z
saturate-inner z below above = ground arith

-- Milliseconds since 1970 whose ticks fit an i64 come back from a FILETIME as they were.
filetime_to_unix_ms-unix_ms_to_filetime :
    (ms : ℤ)
    → suc (pos_part ms * 10_000 + filetime_unix_epoch) ≤ i64_limit
    → neg_part ms * 10_000 ≤ i64_limit
    → filetime_to_unix_ms (unix_ms_to_filetime ms) ≡ ms
unfolding filetime_to_unix_ms unix_ms_to_filetime
filetime_to_unix_ms-unix_ms_to_filetime (pos n) below above = ground arith
filetime_to_unix_ms-unix_ms_to_filetime (negsuc n) below above = ground arith

-- A FILETIME more than the epoch and a millisecond above the least i64 comes back, through
-- milliseconds, at most a millisecond earlier and never later.
pub unix_ms_to_filetime-filetime_to_unix_ms :
    (ft : ℤ)
    → suc (pos_part ft) ≤ i64_limit
    → neg_part ft + filetime_unix_epoch + 10_000 ≤ i64_limit
    → (unix_ms_to_filetime (filetime_to_unix_ms ft) ≤ℤ ft)
      × (ft <ℤ (unix_ms_to_filetime (filetime_to_unix_ms ft) +ℤ pos 10_000))
unfolding filetime_to_unix_ms unix_ms_to_filetime
unix_ms_to_filetime-filetime_to_unix_ms (pos n) below above = (ground arith, ground arith)
unix_ms_to_filetime-filetime_to_unix_ms (negsuc n) below above = (ground arith, ground arith)
