-- ===== src/Engine.antt =====
-- crates/core/src/engine.rs: the copy of one file.
pub mod Segments
pub mod Routing
pub mod Transfer
pub mod Checkpoints
pub mod Resume
