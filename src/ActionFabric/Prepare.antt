-- ===== src/ActionFabric/Prepare.antt =====
-- crates/ntd-runtime/src/action_fabric.rs: `prepare_plan`.
use ntd.Prelude.{
  ℕ, suc, Bool, ◌||◌, ◌&&◌, not, ◌==◌, none, List, [], ◌∷◌, Result, ok, err, ◌>>=◌, ◌>>◌, map_err,
  ok_or, refuse, length, is_empty, nat_ord,
}
use ntd.Prelude.Words.{checked_add_u64, try_u64}
use ntd.Prelude.BTreeMap
use ntd.Prelude.BTreeMap.{BTreeMap}
use ntd.Prelude.BTreeSet
use ntd.Prelude.BTreeSet.{BTreeSet}
use ntd.Core.{ActionNode, TaskGraph, side_effect_eq}
use ntd.Capability.Action.{TypedAction}
use ntd.Capability.Registry.{CapabilityRegistry, validate_action}
use ntd.ActionFabric.PlanStatus.{ActionPlanStatus}
use ntd.ActionFabric.Types.{
  ActionFabric, ActionFabricState, ActionPlanState, PlannedAction, ActionStatus, ActionPlanId,
  ActionFabricError, capability_error, missing_action_payload, unexpected_action_payload,
  side_effect_mismatch, verification_contract_mismatch, invalid_state, overflow,
}

-- An entry of `validated`.
pub record ValidatedNode : Type 0 where
  pub node : ActionNode
  pub action : TypedAction
  pub capability_version : ℕ
  pub verification_required : Bool

-- One round of the loop, behind the check for a repeated node.
unfoldable pub validate_node :
    CapabilityRegistry
    → ActionNode
    → BTreeMap ℕ TypedAction
    → Result ActionFabricError ValidatedNode
validate_node registry node payloads = do
  action ← ok_or (BTreeMap.get node.id payloads) (missing_action_payload node.id)
  d ← map_err capability_error (validate_action registry node.capability action)
  refuse (not (side_effect_eq node.side_effect d.side_effect))
      (side_effect_mismatch node.id node.side_effect d.side_effect)
  refuse (d.verification_required && not node.verification_required)
      (verification_contract_mismatch node.id)
  ok (record {
    node = node;
    action = action;
    capability_version = d.version;
    verification_required = node.verification_required || d.verification_required;
  })

-- The loop over the nodes, with `seen_nodes`: the validated nodes and the payloads left.
unfoldable pub validate_nodes :
    CapabilityRegistry
    → BTreeSet ℕ
    → BTreeMap ℕ TypedAction
    → List ActionNode
    → Result ActionFabricError (List ValidatedNode × BTreeMap ℕ TypedAction)
unfolding validate_node
validate_nodes registry seen payloads [] = ok ([], payloads)
validate_nodes registry seen payloads (node ∷ rest) = do
  refuse (BTreeSet.contains node.id seen) invalid_state
  v ← validate_node registry node payloads
  r ← validate_nodes registry (BTreeSet.insert node.id seen) (BTreeMap.remove node.id payloads) rest
  ok (v ∷ r.0, r.1)

abbrev pub refuse_left : BTreeMap ℕ TypedAction → Result ActionFabricError (Unit {0})
refuse_left [] = ok tt
refuse_left ((unexpected, _) ∷ _) = err (unexpected_action_payload unexpected)

abbrev pub planned : ℕ → ValidatedNode → PlannedAction
planned id v = record {
  id = id;
  node_id = v.node.id;
  capability = v.node.capability;
  capability_version = v.capability_version;
  side_effect = v.node.side_effect;
  verification_required = v.verification_required;
  action = v.action;
  status = ActionStatus.prepared;
  attempts = 0;
  output = none;
  resume_token = none;
  rollback_token = none;
  last_error = none;
}

-- The loop that numbers the actions, from the given offset on.
unfoldable pub number_actions :
    ℕ → ℕ → List ValidatedNode → Result ActionFabricError (List PlannedAction)
number_actions first offset [] = ok []
number_actions first offset (v ∷ rest) = do
  o ← ok_or (try_u64 offset) overflow
  id ← ok_or (checked_add_u64 first o) overflow
  actions ← number_actions first (suc offset) rest
  ok (planned id v ∷ actions)

abbrev pub new_plan : ℕ → ℕ → List PlannedAction → ActionPlanState
new_plan id task_id actions = record {
  id = id;
  task_id = task_id;
  cursor = 0;
  status = ActionPlanStatus.ready;
  actions = actions;
}

-- Nothing is written before the last check has passed: the new state, or the error.
unfoldable pub prepare :
    CapabilityRegistry
    → ActionFabricState
    → ℕ
    → TaskGraph
    → BTreeMap ℕ TypedAction
    → Result ActionFabricError (ActionFabricState × ActionPlanId)
unfolding validate_nodes number_actions
prepare registry s task_id graph payloads = do
  refuse (task_id == 0 || is_empty graph.actions) invalid_state
  r ← validate_nodes registry [] payloads graph.actions
  refuse_left r.1
  next_plan_id ← ok_or (checked_add_u64 s.next_plan_id 1) overflow
  action_count ← ok_or (try_u64 (length r.0)) overflow
  next_action_id ← ok_or (checked_add_u64 s.next_action_id action_count) overflow
  actions ← number_actions s.next_action_id 0 r.0
  ok (
    record {
      next_plan_id = next_plan_id;
      next_action_id = next_action_id;
      plans = BTreeMap.insert s.next_plan_id (new_plan s.next_plan_id task_id actions) s.plans;
    },
    s.next_plan_id,
  )

module _ {A : Type 0} where
  unfoldable pub prepare_plan :
      ℕ
      → TaskGraph
      → BTreeMap ℕ TypedAction
      → ActionFabric A
      → ActionFabric A × Result ActionFabricError ActionPlanId
  unfolding prepare
  prepare_plan task_id graph payloads f = elim (prepare f.registry f.state task_id graph payloads) [
    | err e ↦ (f, err e)
    | ok r ↦ (record f { state = r.0 }, ok r.1)
  ]
