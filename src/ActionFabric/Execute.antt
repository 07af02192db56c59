-- ===== src/ActionFabric/Execute.antt =====
-- crates/ntd-runtime/src/action_fabric.rs: `execute_next`, `apply_adapter_result` and
-- `rollback_current_if_possible`. The adapters and the verifier are the interfaces of `Types`.
use ntd.Prelude.{
  ℕ, Text, codes, Bool, true, false, ◌&&◌, not, Option, none, some, is_some, Result, ok, err,
  ◌>>=◌ as ◌>>=ᵣ◌, ◌>>◌ as ◌>>ᵣ◌, map_err, refuse, get_elem?, if◌then◌else◌,
}
use ntd.Prelude.Words.{saturating_add_u32}
use ntd.Capability.Descriptor.{CapabilityDescriptor, AuthorityGrant, permits}
use ntd.Capability.Action.{Bytes, ActionOutput}
use ntd.Capability.Registry.{CapabilityRegistry, validate_action}
use ntd.ActionFabric.PlanStatus.{ActionPlanStatus}
use ntd.ActionFabric.Types.{
  ActionFabric, PlannedAction, ActionStatus, ActionId, ActionPlanId, AdapterResult, completed,
  suspended, retryable, ActionVerification, accept, retry, reject, CapabilityAdapter,
  ActionVerifier, ActionStepReport, ActionFabricError, capability_error, missing_plan,
  terminal_plan, non_resumable_suspension, rollback_failure, invalid_state,
}
use ntd.ActionFabric.Access.{
  Fab, ◌>>=◌, ◌>>◌, lift, find_plan, update_action, set_plan_status, finish_plan, advance_cursor,
  with_adapter, find_adapter,
}

unfoldable pub exhausted_note : Text
exhausted_note = codes "plan already exhausted"

unfoldable pub suspension_note : Text
suspension_note = codes "adapter attempted unsupported suspension"

unfoldable pub resume_state_note : Text
resume_state_note = codes "adapter returned resume state for non-resumable capability"

abbrev pub is_terminal : ActionPlanStatus → Bool
is_terminal ActionPlanStatus.completed = true
is_terminal ActionPlanStatus.failed = true
is_terminal ActionPlanStatus.rolled_back = true
is_terminal _ = false

abbrev pub is_paused : ActionStatus → Bool
is_paused ActionStatus.suspended = true
is_paused ActionStatus.retryable = true
is_paused _ = false

abbrev pub is_final : ActionStatus → Bool
is_final ActionStatus.committed = true
is_final ActionStatus.rolled_back = true
is_final ActionStatus.failed = true
is_final _ = false

-- `use_resume`
unfoldable pub uses_resume : PlannedAction → Bool
uses_resume a = is_paused a.status && is_some a.resume_token

-- The checks between the snapshot of the action and the first write.
unfoldable pub admit :
    CapabilityRegistry
    → AuthorityGrant
    → PlannedAction
    → Result ActionFabricError CapabilityDescriptor
unfolding uses_resume
admit registry authority a =
    map_err capability_error (validate_action registry a.capability a.action) >>=ᵣ λ d.
    map_err capability_error (permits authority d)
    >>ᵣ refuse (uses_resume a && not d.resumable) (non_resumable_suspension a.capability)
    >>ᵣ refuse (is_final a.status) invalid_state
    >>ᵣ ok d

abbrev pub step_report :
    ActionPlanId → ActionId → ActionStatus → ActionPlanStatus → ℕ → Text → ActionStepReport
step_report plan_id action_id status plan_status cursor summary = record {
  plan_id = plan_id;
  action_id = some action_id;
  action_status = some status;
  plan_status = plan_status;
  cursor = cursor;
  summary = summary;
}

unfoldable pub exhausted_report : ActionPlanId → ℕ → ActionStepReport
exhausted_report id cursor = record {
  plan_id = id;
  action_id = none;
  action_status = none;
  plan_status = ActionPlanStatus.completed;
  cursor = cursor;
  summary = exhausted_note;
}

-- `descriptor.rollback_supported.then_some(rollback_token).flatten()`
abbrev pub supported_token : CapabilityDescriptor → Option Bytes → Option Bytes
supported_token d token = if d.rollback_supported then token else none

-- `as_deref().ok_or(InvalidState)?` on the token, where the action is resumed.
abbrev pub resume_argument : Bool → Option Bytes → Result ActionFabricError (Option Bytes)
resume_argument true none = err invalid_state
resume_argument true (some token) = ok (some token)
resume_argument false _ = ok none

module _ {A V : Type 0} (adapter : CapabilityAdapter A) (verifier : ActionVerifier V) where
  module _ (id : ActionPlanId) (cursor : ℕ) (snapshot : PlannedAction)
      (d : CapabilityDescriptor) where
    unfoldable pub rollback_current_if_possible : Option Bytes → Fab A Bool
    rollback_current_if_possible none f = (f, ok false)
    rollback_current_if_possible (some token) f =
        if not d.rollback_supported
        then (f, ok false)
        else ((find_adapter snapshot.capability >>= λ a.
              let (a', result) = adapter.rollback a snapshot.id snapshot.action token in
              λ g.
                (lift (map_err (rollback_failure snapshot.capability) result)
                    >> (update_action id cursor (λ b. record b { rollback_token = some token })
                        >>= λ _. lift (ok true)))
                  (with_adapter snapshot.capability a' g))
            f)

    -- `AdapterResult::Suspended`
    unfoldable pub on_suspended : Bytes → Text → Fab A ActionStepReport
    on_suspended token note =
        if not d.resumable
        then (update_action id cursor
              (λ a. record a { status = ActionStatus.failed; last_error = some suspension_note })
            >>= λ _.
                finish_plan id ActionPlanStatus.failed
                >> lift (err (non_resumable_suspension snapshot.capability)))
        else (update_action id cursor (λ a. record a {
          status = ActionStatus.suspended;
          resume_token = some token;
          last_error = some note;
        })
            >>= λ action_id.
                set_plan_status id ActionPlanStatus.suspended
                >> lift (
                    ok (
                      step_report id action_id ActionStatus.suspended ActionPlanStatus.suspended
                        cursor note)))

    -- `AdapterResult::Retryable`
    unfoldable pub on_retryable : Text → Option Bytes → Fab A ActionStepReport
    on_retryable reason token =
        if is_some token && not d.resumable
        then (update_action id cursor
              (λ a. record a { status = ActionStatus.failed; last_error = some resume_state_note })
            >>= λ _.
                finish_plan id ActionPlanStatus.failed
                >> lift (err (non_resumable_suspension snapshot.capability)))
        else (update_action id cursor (λ a. record a {
          status = ActionStatus.retryable;
          resume_token = token;
          last_error = some reason;
        })
            >>= λ action_id.
                set_plan_status id ActionPlanStatus.ready
                >> lift (
                    ok (
                      step_report id action_id ActionStatus.retryable ActionPlanStatus.ready cursor
                        reason)))

    -- `AdapterResult::Completed`, by the verdict.
    unfoldable pub on_verified :
        ActionOutput → Option Bytes → ActionVerification → Fab A ActionStepReport
    unfolding rollback_current_if_possible
    on_verified output token accept =
        update_action id cursor (λ a. record a {
          status = ActionStatus.committed;
          output = some output;
          resume_token = none;
          rollback_token = supported_token d token;
          last_error = none;
        })
        >>= λ action_id. advance_cursor id >>= λ next.
            lift (ok (step_report id action_id ActionStatus.committed next.1 next.0 output.summary))
    on_verified output token (retry reason) =
        update_action id cursor (λ a. record a {
          status = ActionStatus.retryable;
          output = some output;
          resume_token = none;
          rollback_token = supported_token d token;
          last_error = some reason;
        })
        >>= λ action_id.
            set_plan_status id ActionPlanStatus.ready
            >> lift (
                ok (
                  step_report id action_id ActionStatus.retryable ActionPlanStatus.ready cursor
                    reason))
    on_verified output token (reject reason) = rollback_current_if_possible token >>= λ rolled_back.
        let status = if rolled_back then ActionStatus.rolled_back else ActionStatus.failed in
        update_action id cursor
          (λ a. record a { output = some output; last_error = some reason; status = status })
        >>= λ action_id.
            finish_plan id ActionPlanStatus.failed
            >> lift (ok (step_report id action_id status ActionPlanStatus.failed cursor reason))

    -- The adapter refused the call.
    unfoldable pub on_adapter_error : Text → Fab A ActionStepReport
    on_adapter_error reason =
        update_action id cursor (λ a. record a {
          status = ActionStatus.retryable;
          last_error = some reason;
          resume_token = none;
        })
        >>= λ action_id.
            set_plan_status id ActionPlanStatus.ready
            >> lift (
                ok (
                  step_report id action_id ActionStatus.retryable ActionPlanStatus.ready cursor
                    reason))

    -- What the verifier says of an output, where it is asked.
    unfoldable pub verdict : V → ActionOutput → V × ActionVerification
    verdict v output =
        if snapshot.verification_required
        then verifier.verify v d snapshot.action output
        else (v, accept)

    unfoldable pub apply_adapter_result :
        AdapterResult
        → V
        → ActionFabric A
        → (ActionFabric A × Result ActionFabricError ActionStepReport) × V
    unfolding on_suspended on_retryable on_verified verdict
    apply_adapter_result (suspended token note) v f = (on_suspended token note f, v)
    apply_adapter_result (retryable reason token) v f = (on_retryable reason token f, v)
    apply_adapter_result (completed output token) v f =
        let (v', verification) = verdict v output in (on_verified output token verification f, v')

    unfoldable pub on_called :
        Result Text AdapterResult
        → V
        → ActionFabric A
        → (ActionFabric A × Result ActionFabricError ActionStepReport) × V
    unfolding apply_adapter_result on_adapter_error
    on_called (ok result) v f = apply_adapter_result result v f
    on_called (err reason) v f = (on_adapter_error reason f, v)

    -- The call of `resume`, with the token, or of `execute`.
    unfoldable pub call : A → Option Bytes → A × Result Text AdapterResult
    call a (some token) = adapter.resume a snapshot.id snapshot.action token
    call a none = adapter.execute a snapshot.id snapshot.action

    -- The first writes and the look-up of the adapter.
    unfoldable pub start : Fab A (A × Option Bytes)
    start =
        update_action id cursor (λ a. record a {
          status = ActionStatus.running;
          attempts = saturating_add_u32 a.attempts 1;
        })
        >>= λ _.
            set_plan_status id ActionPlanStatus.ready >> find_adapter snapshot.capability >>= λ a.
            lift (resume_argument (uses_resume snapshot) snapshot.resume_token) >>= λ argument.
            lift (ok (a, argument))

    unfoldable pub run_started :
        V
        → ActionFabric A × Result ActionFabricError (A × Option Bytes)
        → (ActionFabric A × Result ActionFabricError ActionStepReport) × V
    unfolding on_called call
    run_started v (f, err e) = ((f, err e), v)
    run_started v (f, ok (a, argument)) =
        let (a', result) = call a argument in
        on_called result v (with_adapter snapshot.capability a' f)

  unfoldable pub execute_action :
      ActionPlanId
      → ℕ
      → PlannedAction
      → AuthorityGrant
      → V
      → ActionFabric A
      → (ActionFabric A × Result ActionFabricError ActionStepReport) × V
  unfolding admit start run_started
  execute_action id cursor a authority v f = elim (admit f.registry authority a) [
    | err e ↦ ((f, err e), v)
    | ok d ↦ run_started id cursor a d v (start id cursor a d f)
  ]

  unfoldable pub execute_next :
      ActionPlanId
      → AuthorityGrant
      → V
      → ActionFabric A
      → (ActionFabric A × Result ActionFabricError ActionStepReport) × V
  unfolding find_plan execute_action exhausted_report
  execute_next id authority v f = elim (find_plan id f) [
    | none ↦ ((f, err (missing_plan id)), v)
    | some p ↦
        if is_terminal p.status
        then ((f, err (terminal_plan p.status)), v)
        else elim (get_elem? p.actions p.cursor) [
          | none ↦ (
            (finish_plan id ActionPlanStatus.completed >> lift (ok (exhausted_report id p.cursor)))
                f,
            v,
          )
          | some a ↦ execute_action id p.cursor a authority v f
        ]
  ]
