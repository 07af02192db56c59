-- ===== src/ActionFabric.antt =====
-- crates/ntd-runtime/src/action_fabric.rs: the fabric that turns a task graph into a plan of typed
-- actions and executes the plan under authority, verification, suspension and rollback.
-- `Types` has the data, `Prepare`, `Execute` and `Rollback` the operations, `Validate` the check of a
-- restored state, and the other children what holds of them.
pub mod PlanStatus
pub mod Types
pub mod Access
pub mod Frame
pub mod Move
pub mod Endings
pub mod Refinement
pub mod Validate
pub mod Validity
pub mod Checks
pub mod StatusChecks
pub mod Preservation
pub mod StateChecks
pub mod Safety
pub mod Guarantees
pub mod Fresh
pub mod Planning
pub mod Undo
pub mod Prepare
pub mod Execute
pub mod Rollback
pub mod Commit
pub mod Reachable
pub mod Committed
pub mod Fixtures
mod Tests
