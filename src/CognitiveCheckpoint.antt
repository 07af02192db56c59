-- ===== src/CognitiveCheckpoint.antt =====
-- crates/ntd-runtime/src/checkpoint.rs: the SIK97 checkpoint of a cognitive state.
pub mod Format
pub mod Entries
pub mod Records
pub mod RecordTrips
pub mod Payload
pub mod Checkpoint
pub mod Written
pub mod RoundTrip
mod Tests
