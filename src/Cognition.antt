-- ===== src/Cognition.antt =====
-- crates/ntd-runtime/src/cognition.rs: the cognitive state, its tasks and goals, directives and
-- errors, and the interfaces of the planner, the executor, the verifier and the activation hook.
pub mod Actions
pub mod State
pub mod Validate
pub mod Runtime
pub mod WellFormed
pub mod Soundness
pub mod Keeping
pub mod Additions
pub mod External
pub mod Budget
pub mod Advance
pub mod Advancing
pub mod Cycle
pub mod Reasoning
pub mod Guarantees
mod Tests
use ntd.Prelude.{ℕ, Bool, Text, List, [], Option, Result, ok, err, ◌==◌, if◌then◌else◌}
use ntd.Prelude.BTreeMap.{BTreeMap}
use ntd.Core.{Intent, TaskGraph, ReasoningBudget}
use ntd.Memory.{MemoryKind, MemoryQuery, MemoryError, SovereignMemory, memory_new}

-- `struct CognitiveIdentity(pub [u8; 16])`
abbrev pub CognitiveIdentity : Type 0
CognitiveIdentity = List ℕ

pub data GoalStatus : Type 0 where
  active completed paused failed : GoalStatus

pub record Goal : Type 0 where
  pub id : ℕ
  pub objective : Text
  pub completion_criteria : List Text
  pub status : GoalStatus
  pub created_tick : ℕ
  pub updated_tick : ℕ

pub data TaskStatus : Type 0 where
  planned running completed failed paused : TaskStatus

pub record CognitiveTask : Type 0 where
  pub id : ℕ
  pub goal_id : Option ℕ
  pub intent : Intent
  pub graph : TaskGraph
  pub status : TaskStatus
  pub steps_taken : ℕ
  pub verification_failures : ℕ
  pub last_observation : Option Text
  pub created_tick : ℕ
  pub updated_tick : ℕ

pub record WorldFact : Type 0 where
  pub key : Text
  pub value : Text
  pub revision : ℕ
  pub updated_tick : ℕ

pub record LearnedDelta : Type 0 where
  pub id : ℕ
  pub namespace : Text
  pub generation : ℕ
  pub payload : List ℕ
  pub active : Bool

pub record CognitiveState : Type 0 where
  pub identity : CognitiveIdentity
  pub tick : ℕ
  pub next_goal_id : ℕ
  pub next_task_id : ℕ
  pub next_delta_id : ℕ
  pub goals : BTreeMap ℕ Goal
  pub tasks : BTreeMap ℕ CognitiveTask
  pub world : BTreeMap Text WorldFact
  pub memory : SovereignMemory
  pub deltas : BTreeMap ℕ LearnedDelta

abbrev pub state_new : CognitiveIdentity → CognitiveState
state_new identity = record {
  identity = identity;
  tick = 0;
  next_goal_id = 1;
  next_task_id = 1;
  next_delta_id = 1;
  goals = [];
  tasks = [];
  world = [];
  memory = memory_new;
  deltas = [];
}

pub data CognitiveDirective : Type 0 where
  recall : (query : MemoryQuery) → CognitiveDirective
  record_memory :
      (kind : MemoryKind) (content : Text) (tags : List Text) (importance : ℕ) → CognitiveDirective
  update_world : (key value : Text) → CognitiveDirective
  work : (instruction : Text) → CognitiveDirective
  complete : (summary : Text) → CognitiveDirective

pub record CognitiveObservation : Type 0 where
  pub summary : Text
  pub evidence : List Text

abbrev pub observation_new : Text → CognitiveObservation
observation_new summary = record { summary = summary; evidence = [] }

pub data VerificationDecision : Type 0 where
  accept : VerificationDecision
  retry : (reason : Text) → VerificationDecision
  reject : (reason : Text) → VerificationDecision

pub record CognitiveContext : Type 0 where
  pub state : CognitiveState
  pub task : CognitiveTask
  pub budget : ReasoningBudget
  pub iteration : ℕ

-- `trait CognitivePlanner`, `CognitiveExecutor`, `CognitiveVerifier` and `DeltaActivationHook`: the
-- methods of agents whose states are a `P`, an `X`, a `V` and an `H`.
pub record CognitivePlanner (P : Type 0) : Type 0 where
  pub plan : P → CognitiveContext → P × Result Text CognitiveDirective

pub record CognitiveExecutor (X : Type 0) : Type 0 where
  pub execute : X → CognitiveDirective → CognitiveContext → X × Result Text CognitiveObservation

pub record CognitiveVerifier (V : Type 0) : Type 0 where
  pub verify :
      V → CognitiveDirective → CognitiveObservation → CognitiveContext → V × VerificationDecision

pub record DeltaActivationHook (H : Type 0) : Type 0 where
  pub activate : H → LearnedDelta → H × Result Text (Unit {0})

pub record CognitiveCycleReport : Type 0 where
  pub task_id : ℕ
  pub budget : ReasoningBudget
  pub iterations : ℕ
  pub status : TaskStatus
  pub verification_failures : ℕ
  pub last_observation : Option Text

pub data CognitiveError : Type 0 where
  empty_objective : CognitiveError
  empty_world_key : CognitiveError
  empty_delta_namespace : CognitiveError
  invalid_step_budget : CognitiveError
  missing_goal : ℕ → CognitiveError
  missing_task : ℕ → CognitiveError
  missing_delta : ℕ → CognitiveError
  invalid_goal_status : ℕ → CognitiveError
  invalid_task_status : ℕ → CognitiveError
  planner_error : Text → CognitiveError
  executor_error : Text → CognitiveError
  memory_error : MemoryError → CognitiveError
  overflow : CognitiveError

unfoldable pub goal_status_try_from : ℕ → Result CognitiveError GoalStatus
goal_status_try_from value =
    if value == 1
    then ok GoalStatus.active
    else if value == 2
    then ok GoalStatus.completed
    else if value == 3
    then ok GoalStatus.paused
    else if value == 4
    then ok GoalStatus.failed
    else err (invalid_goal_status value)

unfoldable pub task_status_try_from : ℕ → Result CognitiveError TaskStatus
task_status_try_from value =
    if value == 1
    then ok TaskStatus.planned
    else if value == 2
    then ok TaskStatus.running
    else if value == 3
    then ok TaskStatus.completed
    else if value == 4
    then ok TaskStatus.failed
    else if value == 5
    then ok TaskStatus.paused
    else err (invalid_task_status value)

-- `matches!(status, TaskStatus::Completed | TaskStatus::Failed)`
abbrev pub is_terminal : TaskStatus → Bool
is_terminal TaskStatus.completed = Bool.true
is_terminal TaskStatus.failed = Bool.true
is_terminal _ = Bool.false
