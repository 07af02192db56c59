-- ===== src/Lib.antt =====
-- A verification library for the Rust workspace of NTD97, whose runtime turns goals into typed
-- actions on a device and executes neural graphs.
--
-- The parts and their interaction. A `TaskGraph` (crates/ntd-core) names capabilities. A
-- `CapabilityRegistry` (crates/ntd-runtime/src/capability.rs) holds their descriptors and accepts or
-- refuses typed actions; an `AuthorityGrant` says which descriptors the caller may use. The
-- `ActionFabric` (crates/ntd-runtime/src/action_fabric.rs) prepares a plan from a graph and its
-- payloads, executes it action by action on the adapters registered for the capabilities, asks a
-- verifier about the outputs, and rolls plans back. `validate_fabric_state` decides which restored
-- states it takes, and crates/ntd-runtime/src/action_checkpoint.rs writes such a state to bytes and
-- reads it back. The `CognitiveRuntime` (crates/ntd-runtime/src/cognition.rs) moves tasks under goals
-- forward, with a planner, an executor and a verifier, and stores what happens in a `SovereignMemory`
-- (crates/ntd-runtime/src/memory.rs). Apart from these, a `Graph` (crates/ntd-ir) describes a computation, which
-- `GraphExecutor` (crates/ntd-runtime/src/executor.rs) runs on a tensor provider. The mobile shell
-- (crates/ntd-mobile-shell) stores a session in a `MobileContinuityBundle` and chooses what the
-- platform has to do for it.
--
-- The files.
--   Prelude      names of the libraries passed on; results with `?` as bind; lists over the native
--                numbers; `String` as its code points, `BTreeMap` and `BTreeSet` as ascending lists;
--                checked and saturating operations on machine words of 32 and 64 bits; UTF-8;
--                decimal numbers of at most 20 digits, which hold every u64.
--   Wire         the byte cursor and the `push_*` writers of action_checkpoint.rs, of which the other
--                formats of the repository keep copies: Cursor, Push, Maps (the loop that reads a map
--                with ascending keys), Frame (the header). Trips, RoundTrip and Writes hold proofs.
--   Core         crates/ntd-core/src/lib.rs.
--   Capability   capability.rs: Descriptor (domains, scopes, grants, descriptors, normalize), Action
--                (TypedAction and its validate), Registry (register, descriptor, validate_action).
--                Authority, Registry/NormalForm, Registry/Laws and Tests hold proofs.
--   ActionFabric action_fabric.rs: Types and PlanStatus (the data), Access (action_mut,
--                set_plan_status, finish_plan, advance_cursor), Prepare (prepare_plan), Execute
--                (execute_next, apply_adapter_result, rollback_current_if_possible), Rollback
--                (rollback_plan), Validate (validate_fabric_state, from_state, register_adapter).
--                A method is a function from the fabric to the fabric left and a result: an error
--                keeps what was written before it. Move is the state machine of one action; Frame,
--                Endings, Refinement, Validity, Checks, StatusChecks, Preservation, StateChecks,
--                Safety, Guarantees, Commit, Committed, Fresh, Planning, Reachable, Undo and
--                Tests hold proofs; Fixtures has the data of Tests.
--   ActionCheckpoint  action_checkpoint.rs: Format (errors, constants), Actions, Outputs, Plans,
--                Payload (with the round trip of each) and Fabric (encode_action_fabric_checkpoint,
--                decode_action_fabric_checkpoint). Written, RoundTrip and Tests hold proofs.
--   Memory       memory.rs: the data in the file itself, Store (from_parts, store, get, forget) and
--                Retrieve. Laws, Recall and Tests hold proofs.
--   Cognition    cognition.rs: the data in the file itself, Actions (methods that keep their changes
--                on an error), State (the methods of CognitiveState), Validate, Runtime (the other
--                methods of CognitiveRuntime), Advance, with Budget for choose_reasoning_budget of
--                lib.rs and Reasoning for reasoning.rs. WellFormed, Soundness, Keeping, Additions, External,
--                Advancing, Cycle, Guarantees and Tests hold proofs.
--   CognitiveCheckpoint  checkpoint.rs of ntd-runtime: Format, Entries (the loops over maps), Records
--                (goals, tasks, facts, memories, deltas), Payload and Checkpoint
--                (encode_cognitive_checkpoint, decode_cognitive_checkpoint). RecordTrips, Written,
--                RoundTrip and Tests hold proofs.
--   Ir           crates/ntd-ir/src/lib.rs; Ir/Laws holds proofs.
--   Executor     executor.rs: execute_with_resolver with its reference counts. Uses (the counts),
--                Values (the values held), Missing (the steps that can miss one), Liveness (the
--                invariant between two nodes), Complete and Tests hold proofs.
--   MobileShell  Continuity (crates/ntd-mobile-shell/src/continuity.rs: states, retry window, bundle)
--                and Scheduler (scheduler.rs: choose_platform_directive, and ResourceSnapshot of
--                crates/ntd-runtime/src/mobile.rs). Scheduler/Policy, Scheduler/Window and Tests
--                hold proofs.
--
-- Parameters. The adapters and the verifier are traits of the source, given here as records of
-- functions on a state of their own (one type of states for all adapters, each capability having its
-- own state); nothing is assumed of them. Tensors, the provider and the resolver of the executor are
-- given in the same way, and so are the planner, the executor, the verifier and the hook of cognition
-- and the probe of reasoning. `f32` is a record of the operations used, and
-- `char::is_alphanumeric`, which reads Unicode's tables, a function. All loops of the source run over finite collections and are structural
-- recursion here, so no fuel is needed.
--
-- Bounds. Numbers are unbounded naturals; the additions that the source checks or saturates are
-- written out with the bounds of u32, u64 and usize. That a plan's actions fit into a vector is a
-- hypothesis where the saturating cursor needs it; a prepared plan meets it. `usize` has 64 bits, so
-- the conversions between it and u64 succeed. The reservations of `with_capacity` are not modelled.
--
-- Not modelled: the format of the continuity bundle, the assistant
-- and generation, the PC fabric, capsules, backups, model import, the validation tool and the Android
-- bridge. `TypedAction` payloads are data without meaning, as they are for the fabric.
pub mod Prelude
pub mod Core
pub mod Capability
pub mod ActionFabric
pub mod Ir
pub mod Executor
pub mod Wire
pub mod ActionCheckpoint
pub mod Memory
pub mod Cognition
pub mod CognitiveCheckpoint
pub mod MobileShell
