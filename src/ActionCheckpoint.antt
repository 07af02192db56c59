-- ===== src/ActionCheckpoint.antt =====
-- crates/ntd-runtime/src/action_checkpoint.rs: the TAF97 checkpoint of an action fabric's state.
pub mod Format
pub mod Actions
pub mod Outputs
pub mod Plans
pub mod Payload
pub mod Fabric
pub mod Written
pub mod RoundTrip
mod Tests
