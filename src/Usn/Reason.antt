-- ===== src/Usn/Reason.antt =====
-- crates/goz-core/src/usn/record.rs: the reason bits of a record.
use goz.Prelude.{ℕ}

abbrev pub data_overwrite : ℕ
data_overwrite = 0x0000_0001

abbrev pub data_extend : ℕ
data_extend = 0x0000_0002

abbrev pub data_truncation : ℕ
data_truncation = 0x0000_0004

abbrev pub file_create : ℕ
file_create = 0x0000_0100

abbrev pub file_delete : ℕ
file_delete = 0x0000_0200

abbrev pub rename_old_name : ℕ
rename_old_name = 0x0000_1000

abbrev pub rename_new_name : ℕ
rename_new_name = 0x0000_2000

abbrev pub basic_info_change : ℕ
basic_info_change = 0x0000_8000

abbrev pub hard_link_change : ℕ
hard_link_change = 0x0001_0000

abbrev pub close : ℕ
close = 0x8000_0000
