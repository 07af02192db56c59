-- ===== src/MobileShell.antt =====
-- crates/ntd-mobile-shell: the states of a session that survives its process, and what the platform
-- is told to do for it.
pub mod Continuity
pub mod Scheduler
mod Tests
