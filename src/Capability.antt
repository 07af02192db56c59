-- ===== src/Capability.antt =====
-- crates/ntd-runtime/src/capability.rs: what an action may do and who may do it. `Descriptor` has
-- the descriptors, the grants and their check, `Action` the typed actions and their validation,
-- `Registry` the registry of descriptors.
pub mod Descriptor
pub mod Action
pub mod Authority
pub mod Registry
mod Tests
