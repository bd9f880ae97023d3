-- ===== src/Lib.antt =====
-- Verification of woodshed, an append-only log store: a manifest that records which segments there
-- are, segment files that hold the entries as checksummed frames, an index of some of their
-- offsets, and a scan and a recovery that run when a store is opened.
--
-- The files and what they model (paths from the repository's root):
-- - Hash and Yatlv: the crates `xxhash_rust` and `yatlv` as records of operations and laws; File:
--   what is used of `std::fs::File`. Every definition that hashes or codes takes them as instances.
-- - Frame (src/frame.rs): Format (the header and `FrameBuffer::write`), Cursor (`FrameCursor`),
--   Scanner (`FrameScanner`, `FrameReader`), Summary (`scan_all`); the theorems are in
--   Summary/Verdict, Split, Repair, Bounds, Unique, Partial, Seek, After, AfterFirst and Payload.
-- - State (src/state.rs): `StoreState::apply` as `apply`, and one function for each operation; View
--   and Invariant have the laws, Codec the encoding of `ManifestOp`, Codec/RoundTrip its round trip.
-- - Index (src/index.rs): `SegmentIndex` and `EntryIndex`; Index/Floor says what `find` finds, and
--   Cut and Truncated what it finds after `truncate_end`.
-- - Files (src/files.rs): the directory as a record of the manifest's bytes and the segments' bytes by
--   id; Files/Names has the names `segment_path` and `parse_segment_path`, Names/RoundTrip their laws.
-- - Manifest (src/manifest.rs): `write_op` and `replay`; Manifest/Replay has the round trip.
-- - Issue (src/issue.rs), Scan (src/scan.rs): the issues, and the phases of `scan`; Scan/Segments and
--   Scan/Clean have the scan of files that hold what was written, Scan/Damaged of one where a segment
--   is not as it was written (torn in Scan/Torn and Scan/TornStore, of another size in Scan/Lost),
--   Scan/Stray of one with a file too many or without the file of a dead segment; Manifest/Held has
--   the manifest's file.
-- - Recovery (src/recovery.rs): `attempt_recovery` and its fix-ups; Policy says what it may do, Torn
--   what becomes of a torn manifest, Single what it does where there is one issue.
-- - Store (src/store.rs): the record `Store`, the manifest's entries and `do_rollover`; Write
--   (`StoreWriter`), Truncate (`truncate_start` as `truncate_head`, `truncate_end` as `truncate_tail`,
--   `delete_dead_segments`, `write_metadata`), Open (`open`, `open_or_create`, `recover`), Read (`scan`,
--   `StoreReader`). Batch, Rollover, RollWrite, Logged, Tail, Rollback, Survivors, Head, Cleanup and
--   Reader say what one method does.
-- - Store as a whole: Consistent says when a store and its disk agree; Keeps/ follows this through
--   each method (Order and Keeps/Split are about the order of the live segments), Create and Reopen
--   through `open_or_create` and `open`. Log is the abstract view, the
--   frames of the live segments as one list; Calls has a client's calls as one function `run`, what
--   each makes of the log (`LogStep`), when it is allowed, and what calls reach; Refines/ relates the
--   two, and Tracked the last entry ids of the store and its seals to the frames. Drain is
--   a client that calls `next` to the end; ScanFrom, ScanExact and ReadBack say what it reads, with the
--   order of the ids in Rising, where a scan stops in a file in Sought, and the index
--   of a store that was just opened in Indexed and Locate. Torn and Crash have the store whose last
--   batch was written in part, and Crash's children crashes in a rollover (Orphan) and in a deletion
--   (Deleted), and a cut of the active segment after any calls (Reached); Lost has the
--   store where a sealed segment's file is not as its seal says, Missing the one without the active
--   segment's file.
-- - Tests: concrete parameters, runs, and the theorems at concrete inputs.
--
-- How the code is translated: a method that may fail is an action that gives a result and the new
-- state (of a scanner, of the disk, or of the store with the disk), so that what it changed before it
-- failed stays changed. A panic is a failure of its own. Numbers are natural numbers; the cuts to 32
-- bits, the wrap of a segment id and the widths of the codec's fields are written out. The loops of
-- the scanner run on fuel of two more than the bytes that are left, since each round but the last
-- reads a header, and `StoreReader::next` on one round for each segment, since it only goes forward.
--
-- Not modelled: durability (`sync_all`), metrics and logging, the texts of
-- errors, and the errors of the operating system other than a missing or an existing file.
pub mod Base
pub mod Hash
pub mod File
pub mod Frame
pub mod Yatlv
pub mod State
pub mod Index
pub mod Files
pub mod Manifest
pub mod Issue
pub mod Scan
pub mod Recovery
pub mod Store
pub mod Tests
