-- ===== src/Profile.antt =====
-- crates/core/src/devprofile.rs: the choice of buffers, workers and transport from what is known of
-- the two devices, with `TuneOptions` of options.rs, `TransportProfile` of transport.rs and
-- `DeviceInfo` of crates/win/src/device.rs. A `usize` has 64 bits.
pub mod Data
pub mod Sides
pub mod Choice
pub mod Steps
pub mod Budget
mod Examples
