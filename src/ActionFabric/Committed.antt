-- ===== src/ActionFabric/Committed.antt =====
-- What an accepted state says of the actions before a plan's cursor.
use ntd.Prelude.{ℕ, ◌<◌, ◌≡◌, ◌≢◌, some, ok, get_elem?, AllAt-get, >>-eq-ok, nat_ord, arith}
use ntd.ActionFabric.PlanStatus.{rolled_back}
use ntd.ActionFabric.Types.{
  ActionFabric, ActionPlanState, PlannedAction, ActionStatus, ActionPlanId,
}
use ntd.ActionFabric.Access.{find_plan}
use ntd.ActionFabric.Validate.{check_action, check_contract, check_position, validate_fabric_state}
use ntd.ActionFabric.Validity.{validate-IsValid}
use ntd.ActionFabric.StateChecks.{found-PlanOk}

check_position-committed :
    (p : ActionPlanState) (k : ℕ) (a : PlannedAction)
    → check_position p k a ≡ ok tt
    → p.status ≢ rolled_back
    → k < p.cursor
    → a.status ≡ ActionStatus.committed
unfolding check_position
check_position-committed p k a h live before = ground (arith, live)

-- In a state that `validate_fabric_state` accepts, every action before the cursor of a plan that is
-- not rolled back is committed.
pub validate-committed :
    {A : Type 0} (f : ActionFabric A) (id : ActionPlanId) (p : ActionPlanState) (k : ℕ)
    (a : PlannedAction)
    → validate_fabric_state f.registry f.state ≡ ok tt
    → find_plan id f ≡ some p
    → get_elem? p.actions k ≡ some a
    → p.status ≢ rolled_back
    → k < p.cursor
    → a.status ≡ ActionStatus.committed
unfolding find_plan check_action
validate-committed f id p k a valid found here live before =
    let plan =
      found-PlanOk f.registry f.state id p (validate-IsValid f.registry f.state valid) found in
    let checked =
      AllAt-get (λ i x. check_action f.registry p i x ≡ ok tt) 0 k k p.actions plan.actions_ok here
        (omega arith) in
    check_position-committed p k a (>>-eq-ok (check_contract f.registry a) _ checked).1 live before
