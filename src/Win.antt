-- ===== src/Win.antt =====
-- The crate crates/win: the types that its callers read, and the parts of it that compute.
pub mod Types
pub mod Path
pub mod Sparse
pub mod Ea
