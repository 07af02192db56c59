-- ===== src/ActionFabric/Types.antt =====
-- crates/ntd-runtime/src/action_fabric.rs: identifiers, statuses, plans, the fabric's state, the
-- adapter and verifier interfaces, reports and errors.
use ntd.Prelude.{ℕ, Text, Bool, List, [], Option, Result, ok, err, ◌==◌, if◌then◌else◌}
use ntd.Prelude.BTreeMap.{BTreeMap}
use ntd.Core.{CapabilityId, SideEffectClass}
use ntd.Capability.Descriptor.{CapabilityDescriptor, CapabilityError}
use ntd.Capability.Action.{Bytes, TypedAction, ActionOutput}
use ntd.Capability.Registry.{CapabilityRegistry}
use ntd.ActionFabric.PlanStatus.{ActionPlanStatus}

-- `struct ActionId(pub u64)`
abbrev pub ActionId : Type 0
ActionId = ℕ

-- `struct ActionPlanId(pub u64)`
abbrev pub ActionPlanId : Type 0
ActionPlanId = ℕ

pub data ActionStatus : Type 0 where
  prepared running suspended retryable committed rolled_back failed : ActionStatus

-- `#[repr(u8)]`; the derived equality compares these.
abbrev pub status_tag : ActionStatus → ℕ
status_tag prepared = 1
status_tag running = 2
status_tag suspended = 3
status_tag retryable = 4
status_tag committed = 5
status_tag rolled_back = 6
status_tag failed = 7

abbrev pub status_eq : ActionStatus → ActionStatus → Bool
status_eq a b = status_tag a == status_tag b

pub record PlannedAction : Type 0 where
  pub id : ActionId
  pub node_id : ℕ
  pub capability : CapabilityId
  pub capability_version : ℕ
  pub side_effect : SideEffectClass
  pub verification_required : Bool
  pub action : TypedAction
  pub status : ActionStatus
  pub attempts : ℕ
  pub output : Option ActionOutput
  pub resume_token : Option Bytes
  pub rollback_token : Option Bytes
  pub last_error : Option Text

pub record ActionPlanState : Type 0 where
  pub id : ActionPlanId
  pub task_id : ℕ
  pub cursor : ℕ
  pub status : ActionPlanStatus
  pub actions : List PlannedAction

pub record ActionFabricState : Type 0 where
  pub next_plan_id : ℕ
  pub next_action_id : ℕ
  pub plans : BTreeMap ℕ ActionPlanState

abbrev pub default_state : ActionFabricState
default_state = record { next_plan_id = 1; next_action_id = 1; plans = [] }

pub data AdapterResult : Type 0 where
  completed : (output : ActionOutput) (rollback_token : Option Bytes) → AdapterResult
  suspended : (resume_token : Bytes) (note : Text) → AdapterResult
  retryable : (reason : Text) (resume_token : Option Bytes) → AdapterResult

pub data ActionVerification : Type 0 where
  accept : ActionVerification
  retry : (reason : Text) → ActionVerification
  reject : (reason : Text) → ActionVerification

-- `trait CapabilityAdapter`: the methods of an adapter whose state is an `A`.
pub record CapabilityAdapter (A : Type 0) : Type 0 where
  pub execute : A → ActionId → TypedAction → A × Result Text AdapterResult
  pub resume : A → ActionId → TypedAction → Bytes → A × Result Text AdapterResult
  pub rollback : A → ActionId → TypedAction → Bytes → A × Result Text (Unit {0})

-- `trait ActionVerifier`: the method of a verifier whose state is a `V`.
pub record ActionVerifier (V : Type 0) : Type 0 where
  pub verify : V → CapabilityDescriptor → TypedAction → ActionOutput → V × ActionVerification

pub record ActionStepReport : Type 0 where
  pub plan_id : ActionPlanId
  pub action_id : Option ActionId
  pub action_status : Option ActionStatus
  pub plan_status : ActionPlanStatus
  pub cursor : ℕ
  pub summary : Text

pub data ActionFabricError : Type 0 where
  capability_error : CapabilityError → ActionFabricError
  duplicate_adapter : CapabilityId → ActionFabricError
  missing_adapter : CapabilityId → ActionFabricError
  missing_plan : ActionPlanId → ActionFabricError
  missing_action_payload : ℕ → ActionFabricError
  unexpected_action_payload : ℕ → ActionFabricError
  side_effect_mismatch : ℕ → SideEffectClass → SideEffectClass → ActionFabricError
  verification_contract_mismatch : ℕ → ActionFabricError
  non_resumable_suspension : CapabilityId → ActionFabricError
  adapter_failure : CapabilityId → Text → ActionFabricError
  rollback_failure : CapabilityId → Text → ActionFabricError
  rollback_unavailable : ActionId → ActionFabricError
  terminal_plan : ActionPlanStatus → ActionFabricError
  invalid_action_status : ℕ → ActionFabricError
  invalid_plan_status : ℕ → ActionFabricError
  invalid_state : ActionFabricError
  overflow : ActionFabricError

unfoldable pub action_status_try_from : ℕ → Result ActionFabricError ActionStatus
action_status_try_from value =
    if value == 1
    then ok prepared
    else if value == 2
    then ok running
    else if value == 3
    then ok ActionStatus.suspended
    else if value == 4
    then ok ActionStatus.retryable
    else if value == 5
    then ok committed
    else if value == 6
    then ok rolled_back
    else if value == 7
    then ok failed
    else err (invalid_action_status value)

unfoldable pub plan_status_try_from : ℕ → Result ActionFabricError ActionPlanStatus
plan_status_try_from value =
    if value == 1
    then ok ActionPlanStatus.ready
    else if value == 2
    then ok ActionPlanStatus.suspended
    else if value == 3
    then ok ActionPlanStatus.completed
    else if value == 4
    then ok ActionPlanStatus.failed
    else if value == 5
    then ok ActionPlanStatus.rolled_back
    else err (invalid_plan_status value)

-- The fabric, over the states `A` of its adapters.
pub record ActionFabric (A : Type 0) : Type 0 where
  pub registry : CapabilityRegistry
  pub adapters : BTreeMap Text A
  pub state : ActionFabricState
