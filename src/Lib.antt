-- ===== src/Lib.antt =====
-- Renamewright plans batch renames, checks them against the rules of Windows names, and carries them
-- out under a journal that survives a crash. This library models the crate that holds the logic,
-- crates/renamewright-core, and of crates/renamewright-platform the journal's file format, its writer
-- and the executor.
--
-- A caller hands the planner a list of sources, a compiled rule pipeline, overrides for single names
-- and a validation environment that lists what the platform found stale, occupied or unavailable. The
-- planner applies the rules to each name, validates the result, blocks the rows that must not be
-- renamed, and gives a plan. A plan that can be applied is turned into a two-phase schedule, every
-- source to a temporary name and then to its final one, and the execution writes a record in front of
-- and behind each step, as the platform's executor does it: it renames step by step, and on a failure
-- or a cancellation undoes what it did, or stops where only a recovery can tell. The platform's writer
-- encodes each record as a frame with a checksum and appends it to a file. After a crash the frames are
-- decoded and the records replayed to a status that says what to do next.
--
-- Files and sources:
-- Common: shared names, the Boolean tests, machine-width arithmetic, lists and results.
-- Text: Rust's `str` and `OsString`, as the crate uses them.
-- Model: crates/renamewright-core/src/model.rs. Source has the sources and the environment, Diagnostic,
--   Row and Plan the types of those names with `PlanRow::new`, `PlanRow::block` and `RenamePlan::new`;
--   Counters and Blocking have their laws.
-- Windows: crates/renamewright-core/src/windows.rs; Valid, Reserved and Key have its laws.
-- Rules: crates/renamewright-core/src/rules.rs. Types has the rules and errors, Compile
--   `RulePipeline::compile`, Apply `RulePipeline::apply_rule`, Text and Regex the text operations they
--   call; Literal, Parts, Whitespace, Outputs, Bounds, Checks, Decimal,
--   References, Grammar, Expansion and Rewriting have their laws.
-- Planner: crates/renamewright-core/src/planner.rs. Overrides, Sequence, Row, Marks and Build have the
--   functions in the order of a plan's building, Polling the `should_cancel` closure; Advance, Follow,
--   Indexed, Groups, Sound, Duplicates, Stable, Unique, Guards, Budget, Plans, Decisions, Cancel,
--   Validation, Ordinals, Values and Ordering have the laws.
-- Execution: crates/renamewright-core/src/execution.rs. Schedule has `build_two_phase_schedule`, Journal
--   the records and statuses, Replay `replay_journal` and the functions it calls; the modules below
--   Schedule and Replay have the laws.
-- Codec: crates/renamewright-platform/src/journal.rs, from `encode_journal` to `PayloadCursor`. Cursor has
--   the reads and writes of numbers, Entry the fields of an entry, Record `encode_record` and
--   `decode_record`, Frame the frames, whole journals and `inspect_journal`. Stored says which values a
--   schema version holds; Reads, Fields, Entries, Records, Passes, Frames, Local, Failures, Chain,
--   Inspect, Journals and Torn have the laws.
-- Writer: the same file's `DurableAppender`. Resume has `AuthorizedJournal` and the functions of
--   `JournalWriter` that open files; Durable, Crash and Reopen have the laws.
-- Executor: crates/renamewright-platform/src/executor.rs. Executor has the plan and the
--   traits, Steps the state of a run, Rollback `start_rollback` and `continue_rollback`, Forward
--   `continue_forward` and `execute_with_journal`, Start the journal's writer as an `ExecutionJournal` and
--   `execute_frozen_plan`. Follow says what it is for a run to follow the replay of its journal; Numbered,
--   Undoing, Advances, Loops, Frozen and Outcome have the laws, Crash those of the journal's file.
-- Tests: the theorems at concrete inputs.
--
-- Representation. A `str` is the list of its code points, and an `OsString` the list of its characters
-- and of the chunks that are no Unicode; lengths in bytes are those of the encoding. Positions in a text
-- count characters, where the source counts bytes: it only ever cuts at the positions of characters. A
-- `u64` or `usize` is a native number, `usize` having 64 bits; checked, saturating and wrapping arithmetic
-- is written out with its bound. Maps and sets are association lists and lists, read only by lookup.
--
-- Fuel. The expansion of a regular expression's replacement takes the length of the replacement as
-- fuel, since every round drops a dollar sign; the digits of a number take 20, enough for every `u64`.
-- Decoding a journal and splitting a name into its chunks take the number of bytes, since a round takes
-- at least one. The batches of a run take the number of steps. All other loops are structural.
--
-- Parameters. The regular expression engine, the Unicode normal forms and the Unicode case mappings are
-- the record `Libraries`; no law assumes anything of them. The polls of the planner are a stream of
-- answers. The CRC of the journal is a `Hasher`; where a law assumes something of it, it is that the
-- result is a `u32`. A writer's sink is a `JournalSink`, and `SinkLaws` says what a law assumes of it:
-- a write that succeeds appends its bytes, one that fails some of them, and a sync keeps the contents.
-- What the operating system answers about a file is an argument. The executor's file system is an
-- `ExecutionFileSystem`, of which only the law of the journal's file assumes something, the width of
-- identities,
-- its answers to `should_cancel` are a function of the number of calls so far, and its journal is an
-- `ExecutionJournal`; `JournalLaws` says that an append that succeeds adds its record and one that
-- fails adds none.
--
-- Not modelled: error texts, accessors that return a field, the sharing of strings, the wide names of
-- the Windows build in the journal, the opening of a file itself, the rest of
-- crates/renamewright-platform (the freezing of a plan, the native file systems, recovery, undo, the
-- ledger and the inspection of sources), and the crates renamewright-application, renamewright-app and
-- renamewright-windows-native, which run sessions and draw windows around this logic.
pub mod Common
pub mod Text
pub mod Model
pub mod Windows
pub mod Rules
pub mod Planner
pub mod Execution
pub mod Codec
pub mod Writer
pub mod Executor
pub mod Tests
