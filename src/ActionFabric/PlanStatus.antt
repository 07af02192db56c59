-- ===== src/ActionFabric/PlanStatus.antt =====
-- crates/ntd-runtime/src/action_fabric.rs: the status of a plan.
use ntd.Prelude.{ℕ, Bool, ◌==◌}

pub data ActionPlanStatus : Type 0 where
  ready suspended completed failed rolled_back : ActionPlanStatus

-- `#[repr(u8)]`; the derived equality compares these.
abbrev pub plan_status_tag : ActionPlanStatus → ℕ
plan_status_tag ready = 1
plan_status_tag suspended = 2
plan_status_tag completed = 3
plan_status_tag failed = 4
plan_status_tag rolled_back = 5

abbrev pub plan_status_eq : ActionPlanStatus → ActionPlanStatus → Bool
plan_status_eq a b = plan_status_tag a == plan_status_tag b
