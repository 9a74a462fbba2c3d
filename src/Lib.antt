-- ===== src/Lib.antt =====
-- A model of bigcp, a resumable bulk copier for Windows, and the theorems about it.
--
-- The program walks a source tree, decides for every object whether the destination already has it
-- (the classifier), copies what it must through temporaries, and records its progress in a journal,
-- so that an interrupted run can go on. Counters account for every object that was discovered. The
-- crate crates/core/src holds this logic; crates/win/src wraps the Win32 calls and computes paths,
-- endpoint kinds and allocated ranges.
--
-- Files, and the code that they model:
--
-- - Base: shared names. Tests (Boolean tests, `if`), Lists, Results (`Result` and `?`), Int
--   (`i64`), Bits (masks), Bytes (strings as lists of bytes, their order), TreeMap (`BTreeMap` as
--   an association list in the order of its keys, with the laws of insert, get and retain), Store
--   (a file as a function from offsets, written at an offset).
-- - Win.Types: the data types of crates/win/src/metadata.rs, volume.rs and endpoint.rs, and the
--   attribute masks of file.rs. Win.Path: crates/win/src/path.rs and endpoint.rs
--   (`absolute_extended`, `final_path`, `display_path`, `is_same_or_descendant_with`,
--   `classify_endpoint`) and `wide_null` of util.rs; its children prove. Win.Sparse:
--   `query_allocated_ranges` and `validated_range` of crates/win/src/sparse.rs. Win.Ea:
--   `from_pairs` and `parse_ea_records` of crates/win/src/ea.rs.
-- - Policy: crates/core/src/filesystem.rs, what of an object's metadata a destination can hold and
--   how two times are compared. Policy.Laws relates projection and comparison.
-- - Classify: crates/core/src/classify.rs and the snapshots of model.rs. Classify.Laws has the
--   decision table that the code implements, Classify.Rerun what it means for a later run.
-- - Errors: crates/core/src/error.rs and `is_cloud_file_error` of crates/win/src/util.rs.
-- - Profile: crates/core/src/devprofile.rs, the choice of chunk, workers and transport. Data has
--   the options and device facts that it reads, Sides the preference of one device, Choice the
--   whole `select_copy_profile`.
-- - Counters: the outcomes and the accounting of crates/core/src/model.rs.
-- - Transport: crates/core/src/transport.rs. Pipeline is `transfer_pipelined`, whose reader, hasher
--   and writer are step functions on the shared channels; Kept has its invariant, a child for each
--   thread, Ordered what follows for a transfer, Hang what a cancellation can do. Burst is
--   `BurstBuffer`.
-- - Engine: crates/core/src/engine.rs. Routing is `route_streams`, the promotion test and the
--   choice of `copy_file`; Segments is `segment_plan` and the threads of `copy_streamed_segmented`;
--   Transfer is `StreamBuffers` and `transfer_segment`, over both transports above; Checkpoints is
--   `CheckpointCursor` and the loop of `copy_streamed`, over `transfer_segment` and Journal.Handle;
--   Resume is `resume_unnamed`, which a later run of `copy_streamed` begins with.
-- - Coordinator: parts of crates/core/src/copy.rs. Folders is `record_folder_outcome` and
--   `reconcile_folders` with the summary of report.rs, Breaker the circuit breaker and
--   `completed_exit`, Dispatch is `worker_dispatch` with its threshold of promotion.
-- - Journal: crates/core/src/journal.rs. Its children follow the code: Codec (`encode_record`,
--   `crc_matches`), Reader (`read_bounded_record`), Replay (`apply_loaded_line`,
--   `harvest_reclaimable`), Loader (`load_state`), Handle (`append`, `begin_job`), Compact
--   (`compact`, with `write_atomic_bytes` of crates/core/src/artifact.rs and `publish_artifact` of
--   crates/win/src/file.rs), Open (`open`), Keys (`path_key`, `key_to_path`), Temps (the lookups,
--   `take_reclaimable_temp`), Kept (what every reachable journal keeps to). Samples has a stand-in
--   for the JSON crate at which the theorems are run.
--
-- The parts interact so: the classifier reads the policy and the types of Win; the journal reports
-- the errors of Errors and saturates its counts as Counters does; the journal's loader reads lines
-- through Reader, trusts them by Codec, and replays them by Replay, as `append` later updates the
-- same hints. The coordinator sends a file to a worker by Dispatch, and the worker routes it by
-- Engine.Routing. A checkpoint that the loop of Engine.Checkpoints appends is what Engine.Resume
-- gets from the journal in a later run, whose copy begins with the prefix that was taken up.
--
-- State is passed explicitly. An operation that calls the operating system takes what each call
-- answers as an argument (`AppendIo`, `PublishIo`, `CompactIo`, `OpenIo`, `NameCall`, `Answer`, and the list of
-- buffers that a reader gets), and the theorems hold for all answers. The journal's file is the
-- list of its bytes; a failed write leaves any beginning of what was written.
--
-- Threads are step functions on the state that they share, one step for each access to it or call
-- of the system, and a run is a list of steps that names the thread and gives the call's answer: a
-- schedule. The theorems hold for all schedules. A call that has not returned when its list is at
-- its end gives `none`.
--
-- Numbers: a `u64`, `u32` or `usize` is a natural number, with the saturation or the checked
-- addition of the code written out; a FILETIME is an integer. A path is its list of UTF-16 units.
-- Errors carry the code's context and what the code reads of them; the kinds of `io::Error` that
-- the program does not tell apart are one.
--
-- Loops are recursion on what they consume. Three run on a bound. `load_loop` runs on fuel, which
-- `load_state` sets to one more than the bytes and buffers of the reader: each round takes at least
-- one byte. `parse_loop` runs on one more than the bytes of the payload, of which each record takes
-- eight. `query_loop` runs on the list of the filesystem's answers, of which one for each byte of
-- the file is enough: each round gets at least one byte further or ends. The loop of
-- `copy_streamed` and that of `resume_unnamed` likewise run on a list of rounds, of which one for
-- each byte is enough.
--
-- Parameters: serde_json and crc32c (`Json`, with `JsonLaws`: a text that was written has no
-- control characters, parses back to its record, and cut short does not parse), hex (`Hex`,
-- `HexLaw`: decoding undoes encoding), the digests of xxhash_rust (a function of the bytes; the
-- resume theorem assumes that two given prefixes do not collide), the constants of windows_sys
-- (attribute bits, cloud error codes), the ordinal case mapping of Windows, and whether a path's
-- parent is a given directory.
--
-- Not modelled: of the engine the small-file path, the sparse and named-stream loops and the
-- publication of a temporary; of the coordinator the walk of the tree and the extras; the worker
-- pool, verification, the audit log, reports, the options, the command line and the terminal
-- interface; the Win32 calls themselves; failed allocations, panics of a thread, and the counters
-- of actual I/O in a transfer.
pub mod Base
pub mod Win
pub mod Policy
pub mod Classify
pub mod Errors
pub mod Counters
pub mod Journal
pub mod Profile
pub mod Transport
pub mod Engine
pub mod Coordinator
