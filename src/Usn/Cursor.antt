-- ===== src/Usn/Cursor.antt =====
-- crates/goz-core/src/usn/cursor.rs: replay the journal from a saved cursor, or rescan the volume.
mod Runs
use goz.Prelude.{ℕ, ◌≡◌, ◌≢◌, ◌↔◌, ◌⊎◌, inl, inr, Bool, not, ◌==◌, if◌then◌else◌, arith}
use goz.Prelude.Int.{ℤ, ◌≤ℤ◌, ◌<ℤ◌, ltb_ℤ}

pub record SavedCursor : Type 0 where
  pub journal_id : ℕ
  pub next_usn : ℤ

pub record JournalInfo : Type 0 where
  pub journal_id : ℕ
  pub first_usn : ℤ
  pub next_usn : ℤ
  pub lowest_valid_usn : ℤ
  pub max_usn : ℤ

pub data RescanReason : Type 0 where
  journal_id_changed cursor_purged journal_not_active journal_delete_in_progress entry_deleted_error
        restamp_discontinuity parser_anomaly no_cursor reads_kept_failing volume_reattached :
      RescanReason

pub data Resync : Type 0 where
  in_sync : Resync
  full_rescan : RescanReason → Resync

unfoldable pub validate_cursor : SavedCursor → JournalInfo → Resync
validate_cursor saved live =
    if not (saved.journal_id == live.journal_id)
    then full_rescan journal_id_changed
    else if ltb_ℤ saved.next_usn live.first_usn
    then full_rescan cursor_purged
    else if ltb_ℤ saved.next_usn live.lowest_valid_usn
    then full_rescan restamp_discontinuity
    else if ltb_ℤ live.next_usn saved.next_usn
    then full_rescan restamp_discontinuity
    else in_sync

-- The cursor lies in the window of records that the journal can still replay.
abbrev pub Replayable : SavedCursor → JournalInfo → Type 0
Replayable saved live =
    (saved.journal_id ≡ live.journal_id)
    × (live.first_usn ≤ℤ saved.next_usn)
    × (live.lowest_valid_usn ≤ℤ saved.next_usn)
    × (saved.next_usn ≤ℤ live.next_usn)

-- A cursor is taken as in sync exactly if it names the live journal and lies between both lower
-- limits and the next USN; so a purged, restamped or future cursor is never replayed.
validate_cursor-in_sync :
    (saved : SavedCursor) (live : JournalInfo)
    → (validate_cursor saved live ≡ in_sync) ↔ Replayable saved live
unfolding validate_cursor
validate_cursor-in_sync saved live = (λ e. ground arith, λ h. ground arith)

-- Why a rescan is decided: another journal comes first, then a purge, then a discontinuity.
abbrev pub Explains : SavedCursor → JournalInfo → RescanReason → Type 0
Explains saved live journal_id_changed = saved.journal_id ≢ live.journal_id
Explains saved live cursor_purged =
    (saved.journal_id ≡ live.journal_id) × (saved.next_usn <ℤ live.first_usn)
Explains saved live restamp_discontinuity =
    (saved.journal_id ≡ live.journal_id)
    × (live.first_usn ≤ℤ saved.next_usn)
    × ((saved.next_usn <ℤ live.lowest_valid_usn) ⊎ (live.next_usn <ℤ saved.next_usn))
Explains saved live _ = ⊥

-- A rescan is decided for a reason exactly if that reason explains it: the reason names the first
-- condition that fails, and no reason outside these three is ever given.
validate_cursor-full_rescan :
    (saved : SavedCursor) (live : JournalInfo) (r : RescanReason)
    → (validate_cursor saved live ≡ full_rescan r) ↔ Explains saved live r
unfolding validate_cursor
validate_cursor-full_rescan saved live journal_id_changed = (λ e. ground arith, λ h. ground arith)
validate_cursor-full_rescan saved live cursor_purged = (λ e. ground arith, λ h. ground arith)
validate_cursor-full_rescan saved live restamp_discontinuity =
    (λ e. ground arith, λ h. ground arith)
validate_cursor-full_rescan saved live _ = (λ e. ground arith, λ h. absurd h)
