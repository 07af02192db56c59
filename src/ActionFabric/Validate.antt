-- ===== src/ActionFabric/Validate.antt =====
-- crates/ntd-runtime/src/action_fabric.rs: `validate_fabric_state`, the check of a state that comes
-- from a checkpoint, with the fabric's constructors and `register_adapter`.
use ntd.Prelude.{
  ℕ, suc, Bool, true, false, ◌||◌, ◌&&◌, not, leb, ltb, ◌==◌, max, Option, none, some, is_some,
  is_none, List, [], ◌∷◌, Result, ok, err, ◌>>=◌, ◌>>◌, map_err, refuse, get_elem?, length, all,
  if◌then◌else◌, nat_ord, text_ord,
}
use ntd.Prelude.BTreeMap
use ntd.Prelude.BTreeMap.{BTreeMap}
use ntd.Prelude.BTreeSet
use ntd.Prelude.BTreeSet.{BTreeSet}
use ntd.Core.{CapabilityId, side_effect_eq}
use ntd.Capability.Registry.{CapabilityRegistry, validate_action, descriptor}
use ntd.ActionFabric.PlanStatus.{ActionPlanStatus, plan_status_eq}
use ntd.ActionFabric.Types.{
  ActionFabric, ActionFabricState, ActionPlanState, PlannedAction, ActionStatus, ActionFabricError,
  capability_error, duplicate_adapter, invalid_state, status_eq, default_state,
}

-- An action against the descriptor of its capability.
unfoldable pub check_contract :
    CapabilityRegistry → PlannedAction → Result ActionFabricError (Unit {0})
check_contract registry a = do
  d ← map_err capability_error (validate_action registry a.capability a.action)
  refuse
      (not (d.version == a.capability_version) || not (side_effect_eq d.side_effect a.side_effect))
      invalid_state
  refuse (d.verification_required && not a.verification_required) invalid_state
  refuse (is_some a.resume_token && not d.resumable) invalid_state
  refuse (is_some a.rollback_token && not d.rollback_supported) invalid_state

-- The status of an action against its place before or behind the cursor.
unfoldable pub check_position :
    ActionPlanState → ℕ → PlannedAction → Result ActionFabricError (Unit {0})
check_position p index a = do
  refuse
      (ltb index p.cursor
        && not (plan_status_eq p.status ActionPlanStatus.rolled_back)
        && not (status_eq a.status ActionStatus.committed))
      invalid_state
  refuse (ltb p.cursor index && not (status_eq a.status ActionStatus.prepared)) invalid_state

-- The checks on one action behind the one of its identifier.
unfoldable pub check_action :
    CapabilityRegistry → ActionPlanState → ℕ → PlannedAction → Result ActionFabricError (Unit {0})
check_action registry p index a = do check_contract registry a; check_position p index a

-- The loop over the actions of a plan, with `action_ids` and `max_action_id`.
unfoldable pub check_actions :
    CapabilityRegistry
    → ActionPlanState
    → ℕ
    → BTreeSet ℕ
    → ℕ
    → List PlannedAction
    → Result ActionFabricError (BTreeSet ℕ × ℕ)
unfolding check_action
check_actions registry p index ids max_id [] = ok (ids, max_id)
check_actions registry p index ids max_id (a ∷ rest) = do
  refuse (a.id == 0 || BTreeSet.contains a.id ids) invalid_state
  check_action registry p index a
  check_actions registry p (suc index) (BTreeSet.insert a.id ids) (max max_id a.id) rest

abbrev pub is_open : ActionStatus → Bool
is_open ActionStatus.prepared = true
is_open ActionStatus.retryable = true
is_open ActionStatus.running = true
is_open _ = false

abbrev pub is_abandoned : ActionStatus → Bool
is_abandoned ActionStatus.failed = true
is_abandoned ActionStatus.rolled_back = true
is_abandoned _ = false

-- The match on the plan's status where the cursor stands at an action: is it refused?
abbrev pub mismatches : ActionPlanStatus → PlannedAction → Bool
mismatches ActionPlanStatus.suspended a =
    not (status_eq a.status ActionStatus.suspended) || is_none a.resume_token
mismatches ActionPlanStatus.ready a = not (is_open a.status)
mismatches ActionPlanStatus.failed a = not (is_abandoned a.status)
mismatches _ a = false

abbrev pub mismatches_at : ActionPlanStatus → Option PlannedAction → Bool
mismatches_at status none = false
mismatches_at status (some a) = mismatches status a

unfoldable pub check_status : ActionPlanState → Result ActionFabricError (Unit {0})
check_status p = do
  refuse
      (plan_status_eq p.status ActionPlanStatus.completed
        && (not (p.cursor == length p.actions)
            || not (all (λ a. status_eq a.status ActionStatus.committed) p.actions)))
      invalid_state
  refuse (mismatches_at p.status (get_elem? p.actions p.cursor)) invalid_state

-- The loop over the plans.
unfoldable pub check_plans :
    CapabilityRegistry → BTreeSet ℕ → ℕ → BTreeMap ℕ ActionPlanState → Result ActionFabricError ℕ
unfolding check_actions check_status
check_plans registry ids max_id [] = ok max_id
check_plans registry ids max_id ((key, p) ∷ rest) = do
  refuse (not (key == p.id) || p.id == 0 || p.task_id == 0 || ltb (length p.actions) p.cursor)
      invalid_state
  seen ← check_actions registry p 0 ids max_id p.actions
  check_status p
  check_plans registry seen.0 seen.1 rest

abbrev pub reaches : ℕ → Option ℕ → Bool
reaches next none = false
reaches next (some id) = leb next id

unfoldable pub validate_fabric_state :
    CapabilityRegistry → ActionFabricState → Result ActionFabricError (Unit {0})
unfolding check_plans
validate_fabric_state registry s = do
  refuse (s.next_plan_id == 0 || s.next_action_id == 0) invalid_state
  refuse (reaches s.next_plan_id (BTreeMap.last_key s.plans)) invalid_state
  max_id ← check_plans registry [] 0 s.plans
  refuse (leb s.next_action_id max_id) invalid_state

module _ {A : Type 0} where
  unfoldable pub fabric_new : CapabilityRegistry → ActionFabric A
  fabric_new registry = record { registry = registry; adapters = []; state = default_state }

  unfoldable pub from_state :
      CapabilityRegistry → ActionFabricState → Result ActionFabricError (ActionFabric A)
  unfolding validate_fabric_state
  from_state registry s =
      validate_fabric_state registry s
      >> ok (record { registry = registry; adapters = []; state = s })

  unfoldable pub register_adapter :
      CapabilityId → A → ActionFabric A → ActionFabric A × Result ActionFabricError (Unit {0})
  register_adapter capability adapter f = elim (descriptor f.registry capability) [
    | err e ↦ (f, err (capability_error e))
    | ok _ ↦
        if BTreeMap.contains_key capability f.adapters
        then (f, err (duplicate_adapter capability))
        else (record f { adapters = BTreeMap.insert capability adapter f.adapters }, ok tt)
  ]
