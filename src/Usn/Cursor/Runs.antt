-- ===== src/Usn/Cursor/Runs.antt =====
-- Concrete cursors: one that the journal can replay and one that it has purged.
use goz.Prelude.{ℕ, ◌≡◌, refl}
use goz.Prelude.Int.{pos}
use goz.Usn.Cursor.{SavedCursor, JournalInfo, in_sync, validate_cursor}

abbrev journal : JournalInfo
journal = record {
  journal_id = 7;
  first_usn = pos 100;
  next_usn = pos 900;
  lowest_valid_usn = pos 50;
  max_usn = pos 100000;
}

abbrev saved_at : ℕ → SavedCursor
saved_at usn = record { journal_id = 7; next_usn = pos usn }

replayed : validate_cursor (saved_at 100) journal ≡ in_sync
unfolding validate_cursor
replayed = refl
