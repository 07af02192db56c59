-- ===== src/Wire.antt =====
-- The byte formats that the checkpoints share: a cursor over bytes with its readers, the `push_*`
-- writers, the header of a frame, and what makes a reader undo a writer. The Rust files keep their
-- own copy of these helpers (crates/ntd-runtime/src/action_checkpoint.rs is the one mapped), so the
-- error type is a parameter.
pub mod Cursor
pub mod Push
pub mod Trips
pub mod RoundTrip
pub mod Maps
pub mod Frame
pub mod Writes
