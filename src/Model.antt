-- ===== src/Model.antt =====
-- The planning model (crates/renamewright-core/src/model.rs): one module for each family of types,
-- and the laws of blocking and of the plan's counters.
pub mod Source
pub mod Diagnostic
pub mod Row
pub mod Plan
pub mod Blocking
pub mod Counters
