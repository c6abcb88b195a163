-- ===== src/Execution.antt =====
-- The execution protocol (crates/renamewright-core/src/execution.rs): the schedule of steps, the
-- records of the journal, and the replay of a journal to a status.
pub mod Schedule
pub mod Journal
pub mod Replay
