-- ===== src/Transport.antt =====
-- crates/core/src/transport.rs: the mechanics of moving bytes from a source to a destination.
pub mod Pipeline
pub mod Burst
