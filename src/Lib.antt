-- ===== src/Lib.antt =====
-- goz: a verification library for the core of the file search, crates/goz-core, and for parts of its
-- daemon, crates/goz-daemon.
--
-- The program keeps an index of every name on an NTFS volume. A bootstrap reads the volume once,
-- then the records of the USN journal keep the index current; a client asks over a pipe, in frames.
-- A journal buffer is walked into records (usn/record.rs), whose names come as UTF-16 and are kept as
-- WTF-8 (wtf8.rs); each record's reason bits become index operations (usn/ops.rs); a saved cursor
-- decides whether the journal can be replayed at all (usn/cursor.rs); the index keeps its entries in a
-- table, their names once each, and finds entries by record number (index/store.rs), and the volume
-- index applies the operations to those stores (index/volume.rs). Names are compared folded (fold.rs).
-- A query is read into terms, wildcards and filters (query/parse.rs, query/dates.rs); the engine picks a
-- literal to search the names for and decides what each candidate still has to show
-- (query/engine.rs), all on a budget of time (query/budget.rs). The results travel as binary pages in
-- frames (proto/binary.rs, proto/frame.rs) and the client writes them, as CSV for one (output/csv.rs).
--
-- Files, and the code each is about (a path is below crates/goz-core/src unless it starts with
-- crates):
--   Prelude       shared names, Boolean tests, lists, little-endian bytes, bit masks, integers
--   Types         types.rs: Frn::record_number, Frn::sequence, SortSpec::default_for, VolumePhase
--   Wtf8          wtf8.rs: from_utf16, encode_code_point, CodePoints::next, to_utf16
--   Proto.Frame   proto/frame.rs: encode_frame, FrameDecoder::{new, feed, is_empty, next_frame}
--   Usn.Cursor    usn/cursor.rs: validate_cursor
--   Usn.Reason    usn/record.rs: the USN_REASON constants
--   Usn.Record    usn/record.rs: walk_enum_buffer, walk_journal_buffer, walk_records, parse_v2,
--                 parse_v3, extract_name
--   Usn.Ops       usn/ops.rs: ops_for
--   Index.FrnMap  index/store.rs: FrnMap::{sparse, dense, get, set, remove, densify_if_smaller}
--   Index.NameStore  index/store.rs: NameStore::{intern, release, raw_bytes, folded_bytes_of,
--                 should_compact}, with Compact (plan_compact) and Order (build_order, merge_unranked,
--                 rerank, rank_key, insertion_point, install_compacted)
--   Index.Children  index/volume.rs: link_child, unlink_child, move_child
--   Index.Volume  index/volume.rs: VolumeIndex and its commands; Paths (path_of, head_of, child_dir,
--                 is_at_or_below), Links (the same-name chains, the directory index, remove_entry),
--                 Apply (upsert_link, rewrite_entry, delete_frn), Apply.Chains (hard links: enrich,
--                 reconcile_links, set_stat), Batch (apply_batch, apply_compaction)
--   Layout        layout/parse.rs: LayoutFile, LayoutName
--   Layout.Parse  layout/parse.rs: walk_layout_buffer, parse_file, follow_offset, read_bytes
--   Fold          fold.rs: fold, fold_into
--   Proto.Binary  proto/binary.rs: push_results_header, patch_results_header, push_item,
--                 encode_results_payload, Reader, decode_results_payload;
--                 proto/types.rs: QueryResults, ResultItem
--   Wtf8.Lossy    wtf8.rs: to_string_lossy
--   Index.EntryTable  index/store.rs: EntryFlags, EntryTable::{alloc, tombstone, is_tombstone, iter_live}
--                 and its setters
--   Output.Csv    output/csv.rs: write_csv, write_csv_preamble, write_csv_row, write_quoted;
--                 output/mod.rs: Row
--   Output.Filetime  output/filetime.rs: civil_from_days, days_from_civil,
--                 filetime_to_unix_ms, unix_ms_to_filetime
--   Query.Dates   query/dates.rs: DateFilter::{matches, and}, Value, alone, date_filter, civil,
--                 local_day, add_months, days_in_month, calendar_period
--   Query.Dates.Text  query/dates.rs: date_filter, point, duration, written_date
--   Query.Wildcard  query/parse.rs: Wildcard::{compile, matches_decoded, matches, glob_match,
--                 longest_literal, separator_free_literals, leading_literal, trailing_literal}
--   Query.Parse   query/parse.rs: tokenize, parse_size, parse_bytes; Terms (parse, push_text_term)
--   Query.Engine  query/engine.rs: name_matches, term_admits, the prefilter of CompiledQuery::new,
--                 the needs of decide_needs, size_key, mtime_key, page_bounds;
--                 Scope (in_scope with its memo), Order (cmp_candidate, order_top)
--   Query.Budget  query/budget.rs: Budget::check, Watch::tick
--   Daemon.Pulse  crates/goz-daemon/src/pulse.rs: pack, TailPulse and its guards
--   Daemon.Registry  crates/goz-daemon/src/volume_state.rs: VolumeRegistry::{add, remove},
--                 VolumeState::mount_prefix
--
-- Each file's definitions are followed, in the modules below it, by their properties; a module Runs
-- holds concrete inputs.
--
-- Conventions. Bytes, code units and unsigned integers are natural numbers, and a hypothesis says
-- which are in range where that matters; a cut to a width is written out as a remainder. Signed
-- 64-bit integers are Prelude.Int.ℤ. A struct that a method changes is passed in and handed back. A
-- `Result` is ok or err, a panic of `expect` is none. usize has 64 bits.
--
-- Fuel. Usn.Record.walk_from takes one unit for each record and starts with one more than the bytes
-- of the buffer, since every record that is not refused moves the offset on; with that much it never
-- runs out. Index.FrnMap.power_of_two_from takes as many doublings as the number it must reach.
-- Query.Wildcard.glob_from has a turn for each token at each place of the text: the last `*` only moves
-- on, and a pass after it takes one turn for each token.
-- Layout.Parse's loops have as many turns as the buffer has bytes; each offset that is followed moves on
-- by at least the size of a structure, so they do not run out.
-- Index.Volume's loops along a chain (links of one file, children of a folder) take as many steps as
-- there are slots, which a chain without repetition cannot pass; the walks to the root stop at 4096
-- hops, as in the code. Index.NameStore.Order.merge_keys takes one unit for each key, and
-- insertion_from one for each position.
-- Output.Csv.digits_of takes one unit for each digit: twenty are enough for 64 bits.
--
-- Not modelled. Allocation and capacities (a hash map's capacity is an argument of
-- densify_if_smaller), serde, the Windows calls of crates/goz-winfs, the threads and
-- pipes of crates/goz-daemon, and the text of error messages.
-- The zone's clock of query/dates.rs is a parameter (Query.Dates.Text.LocalClock). Of query/engine.rs the
-- scans over threads, the caches of folder paths and memmem are not modelled; the sorts and the
-- selection of the standard library are parameters of Query.Engine.Order.
-- The Unicode tables behind Fold and the hash of a folded name are parameters (Fold.Unicode,
-- Index.Volume.Host), because other crates hold them. Debug assertions of NameStore are part of its
-- model: where one fails the model gives none; those of EntryTable::tombstone are left out. Slot indices
-- and reference counts are unbounded numbers where the code has 32 bits.
pub mod Prelude
pub mod Types
pub mod Wtf8
pub mod Fold
pub mod Proto
pub mod Layout
pub mod Usn
pub mod Index
pub mod Output
pub mod Query
pub mod Daemon
