-- ===== src/ActionFabric/Tests.antt =====
-- The theorems about the fabric, applied to the plan of two actions of `Fixtures`.
use ntd.Prelude.{
  ℕ, ◌+◌, Text, codes, ◌≡◌, ◌≢◌, ◌≤◌, refl, subst, true, false, Option, none, some, some-injective,
  List, [], ◌∷◌, Result, ok, err, length, Bool-cases, nat_ord, text_ord, ◌==◌, inl, inr, arith,
  get_elem?, map, ◌⊎◌,
}
use ntd.Prelude.BTreeMap
use ntd.Prelude.BTreeMap.{BTreeMap}
use ntd.Prelude.Words.{usize_max}
use ntd.Core.{read_only, TaskGraph}
use ntd.Capability.Descriptor.{
  CapabilityDescriptor, AuthorityGrant, grant_new, with_scope, permits, web, file,
  missing_authority,
}
use ntd.Capability.Action.{
  TypedAction, web_search, file_write, ActionOutput, output_text, text_value,
}
use ntd.Capability.Registry.{validate_action, descriptor}
use ntd.ActionFabric.PlanStatus.{ActionPlanStatus}
use ntd.ActionFabric.Types.{
  ActionFabric, ActionPlanState, PlannedAction, ActionStatus, capability_error, ActionStepReport,
}
use ntd.ActionFabric.Access.{find_plan}
use ntd.ActionFabric.Execute.{execute_next, admit}
use ntd.ActionFabric.Prepare.{prepare_plan}
use ntd.ActionFabric.Rollback.{rollback_plan, rolled_back_note}
use ntd.ActionFabric.Validate.{validate_fabric_state}
use ntd.ActionFabric.Endings.{Moved}
use ntd.ActionFabric.Refinement.{execute_next-Moved}
use ntd.ActionFabric.Safety.{Fits, execute_next-validate}
use ntd.ActionFabric.Guarantees.{
  Authorized, Untouched, execute_next-Authorized, execute_next_frame, execute_next_keeps_final,
}
use ntd.ActionFabric.Commit.{AcceptedOutput, execute_next-AcceptedOutput}
use ntd.ActionFabric.Planning.{prepare_plan-validate}
use ntd.ActionFabric.Committed.{validate-committed}
use ntd.ActionFabric.Reachable.{
  Reachable, created, registers, prepares, executes, IsSound, Reachable-IsSound,
}
use ntd.ActionFabric.Validate.{fabric_new, register_adapter}
use ntd.ActionFabric.Undo.{undone, find_plan-rollback_plan}
use ntd.ActionFabric.Fixtures.{
  search_id, write_id, write_descriptor, registry_two, found_output, searched, to_write, plan_two,
  fabric_two, completing, accepting, may_write,
}

fabric_two_valid : validate_fabric_state fabric_two.registry fabric_two.state ≡ ok tt
unfolding validate_fabric_state ntd.Prelude.BTreeSet.contains
    ntd.ActionFabric.Validate.check_contract validate_action ntd.Capability.Action.validate
    ntd.Prelude.is_blank BTreeMap.get ntd.Prelude.text_eq ntd.Capability.Action.domain
    ntd.ActionFabric.Validate.check_position ntd.Prelude.BTreeSet.insert
fabric_two_valid = refl

fabric_two_found : find_plan 1 fabric_two ≡ some plan_two
unfolding find_plan BTreeMap.get
fabric_two_found = refl

to_write_admitted : admit registry_two may_write to_write ≡ ok write_descriptor
unfolding admit validate_action permits ntd.Capability.Action.validate ntd.Prelude.is_blank
    BTreeMap.get ntd.Prelude.text_eq ntd.Capability.Action.domain
    ntd.Capability.Descriptor.permits_scopes ntd.Prelude.BTreeSet.contains
    ntd.Capability.Descriptor.permits_side_effect
to_write_admitted = refl

fabric_two-Fits : Fits fabric_two
unfolding find_plan BTreeMap.get
fabric_two-Fits id p h = elim (Bool-cases (id == 1)) [
  | inl e ↦
      subst (λ (q : ActionPlanState). length q.actions ≤ usize_max)
        (some-injective plan_two p (rw e at h)) (omega arith)
  | inr e ↦ absurd (some-none (rw e at h))
]
  where
    some-none : ◌≢◌ {A = Option ActionPlanState} none (some p)
    some-none e = cc

-- After the write has been executed.
abbrev after_write : ActionFabric ℕ
after_write = (execute_next completing accepting 1 may_write 0 fabric_two).0.0

execute_next-Moved_example :
    Moved completing accepting fabric_two 1 plan_two fabric_two_found to_write refl write_descriptor
      0 after_write
execute_next-Moved_example =
    execute_next-Moved completing accepting fabric_two 1 plan_two fabric_two_found to_write refl
      write_descriptor 0 may_write refl to_write_admitted

execute_next-validate_example : validate_fabric_state after_write.registry after_write.state ≡ ok tt
execute_next-validate_example =
    execute_next-validate completing accepting 1 may_write 0 fabric_two fabric_two-Fits
      fabric_two_valid

-- The empty grant has no scope for files: the call is refused.
write_not_permitted :
    (execute_next completing accepting 1 grant_new 0 fabric_two).0.1
    ≡ err (capability_error (missing_authority (codes "files")))
unfolding execute_next permits ntd.Capability.Descriptor.permits_scopes BTreeMap.get
    ntd.Prelude.BTreeSet.contains validate_action ntd.Capability.Action.validate
    ntd.Prelude.is_blank ntd.Prelude.text_eq ntd.Capability.Action.domain
write_not_permitted = refl

execute_next-Authorized_example :
    Authorized 1 grant_new fabric_two
    ⊎ (let r = execute_next completing accepting 1 grant_new 0 fabric_two in
        Untouched fabric_two 0 r.0.0 r.1)
execute_next-Authorized_example =
    execute_next-Authorized completing accepting 1 grant_new 0 fabric_two

execute_next_frame_example :
    (find_plan 2 after_write ≡ find_plan 2 fabric_two)
    × (after_write.registry ≡ fabric_two.registry)
    × (after_write.state.next_plan_id ≡ 2)
    × (after_write.state.next_action_id ≡ 3)
execute_next_frame_example =
    execute_next_frame completing accepting 1 may_write 0 fabric_two 2
      (λ e. absurd (omega (arith, e)))

execute_next_keeps_final_example :
    (q : ActionPlanState) × (find_plan 1 after_write ≡ some q)
    × (get_elem? q.actions 0 ≡ some searched)
execute_next_keeps_final_example =
    execute_next_keeps_final completing accepting 1 may_write 0 fabric_two plan_two 0 searched
      fabric_two_found refl refl

abbrev written : PlannedAction
written = record to_write {
  status = ActionStatus.committed;
  attempts = 1;
  output = some found_output;
  rollback_token = some (0 ∷ []);
}

abbrev plan_written : ActionPlanState
plan_written = record plan_two {
  cursor = 2;
  status = ActionPlanStatus.completed;
  actions = searched ∷ written ∷ [];
}

after_write_found : find_plan 1 after_write ≡ some plan_written
unfolding find_plan execute_next BTreeMap.get validate_action ntd.Capability.Action.validate
    ntd.Prelude.is_blank ntd.Prelude.text_eq ntd.Capability.Action.domain permits
    ntd.Capability.Descriptor.permits_scopes ntd.Prelude.BTreeSet.contains
    ntd.Capability.Descriptor.permits_side_effect ntd.ActionFabric.Access.update_action
    ntd.ActionFabric.Access.set_plan_status BTreeMap.replace ntd.ActionFabric.Access.find_adapter
    ntd.ActionFabric.Access.with_adapter ntd.ActionFabric.Access.advance_cursor
after_write_found = refl

execute_next-AcceptedOutput_example :
    (d : CapabilityDescriptor) × (validate_action registry_two write_id to_write.action ≡ ok d)
    × AcceptedOutput accepting 0 d to_write written
execute_next-AcceptedOutput_example =
    execute_next-AcceptedOutput completing accepting 1 may_write 0 fabric_two plan_two plan_written
      to_write written fabric_two_found refl refl refl after_write_found refl refl

-- A graph of one more search.
abbrev graph_one : TaskGraph
graph_one = record {
  actions =
      record {
        id = 20;
        capability = search_id;
        side_effect = read_only;
        verification_required = true;
      }
      ∷ [];
}

abbrev after_prepare : ActionFabric ℕ
after_prepare = (prepare_plan 6 graph_one ((20, web_search (codes "r") 1) ∷ []) fabric_two).0

prepare_plan-validate_example :
    (validate_fabric_state after_prepare.registry after_prepare.state ≡ ok tt)
    × BTreeMap.Sorted after_prepare.state.plans
prepare_plan-validate_example =
    prepare_plan-validate 6 graph_one ((20, web_search (codes "r") 1) ∷ []) fabric_two (tt, tt)
      fabric_two_valid

abbrev fabric_written : ActionFabric ℕ
fabric_written = record {
  registry = registry_two;
  adapters = (search_id, 1) ∷ (write_id, 1) ∷ [];
  state = record { next_plan_id = 2; next_action_id = 3; plans = (1, plan_written) ∷ [] };
}

abbrev plan_reverted : ActionPlanState
plan_reverted = record plan_written {
  status = ActionPlanStatus.rolled_back;
  actions = searched ∷ record written { status = ActionStatus.rolled_back } ∷ [];
}

abbrev fabric_reverted : ActionFabric ℕ
fabric_reverted = record {
  registry = registry_two;
  adapters = (search_id, 1) ∷ (write_id, 2) ∷ [];
  state = record { next_plan_id = 2; next_action_id = 3; plans = (1, plan_reverted) ∷ [] };
}

abbrev reverted_report : ActionStepReport
reverted_report = record {
  plan_id = 1;
  action_id = none;
  action_status = none;
  plan_status = ActionPlanStatus.rolled_back;
  cursor = 2;
  summary = rolled_back_note;
}

fabric_written_reverts :
    rollback_plan completing 1 fabric_written ≡ (fabric_reverted, ok reverted_report)
unfolding rollback_plan BTreeMap.get descriptor ntd.Prelude.text_eq
    ntd.ActionFabric.Access.find_adapter ntd.ActionFabric.Access.update_action
    ntd.ActionFabric.Access.with_adapter ntd.ActionFabric.Access.finish_plan BTreeMap.replace
fabric_written_reverts = refl

fabric_written_found : find_plan 1 fabric_written ≡ some plan_written
unfolding find_plan BTreeMap.get
fabric_written_found = refl

find_plan-rollback_plan_example :
    find_plan 1 fabric_reverted
    ≡ some (record plan_written {
      status = ActionPlanStatus.rolled_back;
      actions = map undone plan_written.actions;
    })
find_plan-rollback_plan_example =
    find_plan-rollback_plan completing 1 fabric_written fabric_reverted plan_written reverted_report
      fabric_written_found fabric_written_reverts

abbrev fabric_registered : ActionFabric ℕ
fabric_registered = (register_adapter search_id 0 (fabric_new registry_two)).0

abbrev fabric_prepared : ActionFabric ℕ
fabric_prepared =
    (prepare_plan 6 graph_one ((20, web_search (codes "r") 1) ∷ []) fabric_registered).0

abbrev fabric_executed : ActionFabric ℕ
fabric_executed = (execute_next completing accepting 1 may_write 0 fabric_prepared).0.0

fabric_executed-Reachable : Reachable completing accepting fabric_executed
fabric_executed-Reachable = executes 1 may_write 0 fabric_prepared (
    prepares 6 graph_one ((20, web_search (codes "r") 1) ∷ []) fabric_registered
      (registers search_id 0 (fabric_new registry_two) (created registry_two)))

Reachable-IsSound_example : IsSound fabric_executed
Reachable-IsSound_example =
    Reachable-IsSound completing accepting fabric_executed fabric_executed-Reachable

validate-committed_example : searched.status ≡ ActionStatus.committed
validate-committed_example =
    validate-committed fabric_two 1 plan_two 0 searched fabric_two_valid fabric_two_found refl
      (λ e. absurd (not_rolled_back e)) (omega arith)
  where
    not_rolled_back : ActionPlanStatus.ready ≢ ActionPlanStatus.rolled_back
    not_rolled_back e = cc
