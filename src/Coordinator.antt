-- ===== src/Coordinator.antt =====
-- crates/core/src/copy.rs: the coordinator of a run.
pub mod Folders
pub mod Breaker
pub mod Dispatch
