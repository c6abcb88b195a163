-- ===== src/Planner.antt =====
-- The planner (crates/renamewright-core/src/planner.rs): overrides, sequence values, rows, the marks
-- that block rows, and the plan, with the laws of each.
pub mod Overrides
pub mod Validation
pub mod Sequence
pub mod Ordinals
pub mod Values
pub mod Ordering
pub mod Row
pub mod Budget
pub mod Polling
pub mod Marks
pub mod Build
pub mod Advance
pub mod Follow
pub mod Stable
pub mod Unique
pub mod Guards
pub mod Plans
pub mod Decisions
pub mod Cancel
pub mod Indexed
pub mod Groups
pub mod Sound
pub mod Duplicates
