-- ===== src/ActionFabric/Rollback.antt =====
-- crates/ntd-runtime/src/action_fabric.rs: `rollback_plan`.
use ntd.Prelude.{
  ℕ, suc, Text, codes, Bool, ◌||◌, not, none, some, List, [], ◌∷◌, ok, err, map_err, ok_or,
  if◌then◌else◌,
}
use ntd.Core.{read_only, side_effect_eq}
use ntd.Capability.Action.{Bytes}
use ntd.Capability.Registry.{descriptor}
use ntd.ActionFabric.PlanStatus.{ActionPlanStatus}
use ntd.ActionFabric.Types.{
  PlannedAction, ActionStatus, ActionPlanId, CapabilityAdapter, ActionStepReport, capability_error,
  missing_plan, rollback_failure, rollback_unavailable, status_eq,
}
use ntd.ActionFabric.Access.{
  Fab, ◌>>=◌, ◌>>◌, lift, find_plan, update_action, finish_plan, with_adapter, find_adapter,
}

unfoldable pub rolled_back_note : Text
rolled_back_note = codes "all known side effects rolled back"

-- The actions that the loop passes over.
unfoldable pub skips_rollback : PlannedAction → Bool
skips_rollback a =
    side_effect_eq a.side_effect read_only
    || status_eq a.status ActionStatus.prepared
    || status_eq a.status ActionStatus.rolled_back

module _ {A : Type 0} (adapter : CapabilityAdapter A) (id : ActionPlanId) where
  -- The token of an action whose capability can be rolled back.
  unfoldable pub rollback_token_of : PlannedAction → Fab A Bytes
  rollback_token_of a f =
      (lift (map_err capability_error (descriptor f.registry a.capability)) >>= λ d. lift (
          if not d.rollback_supported
          then err (rollback_unavailable a.id)
          else ok_or a.rollback_token (rollback_unavailable a.id)))
        f

  unfoldable pub call_rollback : PlannedAction → Bytes → Fab A (Unit {0})
  call_rollback a token = find_adapter a.capability >>= λ s.
      let (s', result) = adapter.rollback s a.id a.action token in
      λ f. (with_adapter a.capability s' f, map_err (rollback_failure a.capability) result)

  -- One round of the loop.
  unfoldable pub rollback_action : ℕ → PlannedAction → Fab A (Unit {0})
  unfolding skips_rollback rollback_token_of call_rollback
  rollback_action index a =
      if skips_rollback a
      then lift (ok tt)
      else (rollback_token_of a >>= λ token.
          call_rollback a token
          >> (update_action id index (λ b. record b { status = ActionStatus.rolled_back }) >>= λ _.
              lift (ok tt)))

  -- `snapshots.iter().enumerate().rev()`: the last action comes first.
  unfoldable pub rollback_actions : ℕ → List PlannedAction → Fab A (Unit {0})
  unfolding rollback_action
  rollback_actions index [] = lift (ok tt)
  rollback_actions index (a ∷ rest) = rollback_actions (suc index) rest >> rollback_action index a

  unfoldable pub report_rollback : Fab A ActionStepReport
  report_rollback f = elim (find_plan id f) [
    | none ↦ (f, err (missing_plan id))
    | some p ↦ (
      f,
      ok (record {
        plan_id = id;
        action_id = none;
        action_status = none;
        plan_status = p.status;
        cursor = p.cursor;
        summary = rolled_back_note;
      }),
    )
  ]

  unfoldable pub rollback_plan : Fab A ActionStepReport
  unfolding find_plan rollback_actions report_rollback
  rollback_plan f = elim (find_plan id f) [
    | none ↦ (f, err (missing_plan id))
    | some p ↦
        (rollback_actions 0 p.actions
            >> finish_plan id ActionPlanStatus.rolled_back
            >> report_rollback)
          f
  ]
