-- ===== src/ActionFabric/Move.antt =====
-- The state machine of the action at a plan's cursor: what one call of `execute_next` may do to the
-- action, to the plan's status and to its cursor, as a relation.
use ntd.Prelude.{ℕ, Text, ◌≡◌, true, false, Option, none, some, is_some}
use ntd.Prelude.Words.{saturating_add_u32}
use ntd.Capability.Descriptor.{CapabilityDescriptor}
use ntd.Capability.Action.{Bytes, ActionOutput}
use ntd.ActionFabric.PlanStatus.{ActionPlanStatus, ready, suspended, failed}
use ntd.ActionFabric.Types.{ActionPlanState, PlannedAction, ActionStatus, ActionVerifier, accept}
use ntd.ActionFabric.Access.{advanced}
use ntd.ActionFabric.Execute.{supported_token}
use ntd.ActionFabric.Frame.{plan_at}

-- The action once it has been started.
abbrev pub begun : PlannedAction → PlannedAction
begun a = record a { status = ActionStatus.running; attempts = saturating_add_u32 a.attempts 1 }

module _ {V : Type 0} (verifier : ActionVerifier V) (v : V) where
  -- The verifier has accepted the output, if the action wants to be verified.
  abbrev pub Accepted : CapabilityDescriptor → PlannedAction → ActionOutput → Type 0
  Accepted d a output =
      a.verification_required ≡ true → (verifier.verify v d a.action output).1 ≡ accept

  abbrev pub committed :
      CapabilityDescriptor → PlannedAction → ActionOutput → Option Bytes → PlannedAction
  committed d a output token = record a {
    status = ActionStatus.committed;
    attempts = saturating_add_u32 a.attempts 1;
    output = some output;
    resume_token = none;
    rollback_token = supported_token d token;
    last_error = none;
  }

  -- For an action `a` under the cursor of the plan `p`, with its capability's descriptor `d`.
  pub data Move (d : CapabilityDescriptor) (a : PlannedAction) (p : ActionPlanState)
      : PlannedAction → ActionPlanStatus → ℕ → Type 0 where
    stalls : Move d a p (begun a) ready p.cursor
    errs :
        (reason : Text)
        → Move d a p
            (record a {
              status = ActionStatus.retryable;
              attempts = saturating_add_u32 a.attempts 1;
              last_error = some reason;
              resume_token = none;
            })
            ready
            p.cursor
    suspends :
        (token : Bytes) (note : Text)
        → d.resumable ≡ true
        → Move d a p
            (record a {
              status = ActionStatus.suspended;
              attempts = saturating_add_u32 a.attempts 1;
              resume_token = some token;
              last_error = some note;
            })
            suspended
            p.cursor
    breaks :
        (note : Text)
        → d.resumable ≡ false
        → Move d a p
            (record a {
              status = ActionStatus.failed;
              attempts = saturating_add_u32 a.attempts 1;
              last_error = some note;
            })
            failed
            p.cursor
    retries :
        (reason : Text) (token : Option Bytes)
        → (is_some token ≡ true → d.resumable ≡ true)
        → Move d a p
            (record a {
              status = ActionStatus.retryable;
              attempts = saturating_add_u32 a.attempts 1;
              resume_token = token;
              last_error = some reason;
            })
            ready
            p.cursor
    commits :
        (output : ActionOutput) (token : Option Bytes)
        → Accepted d a output
        → Move d a p
            (committed d a output token)
            (advanced (plan_at p (committed d a output token) ready p.cursor)).status
            (advanced (plan_at p (committed d a output token) ready p.cursor)).cursor
    repeats :
        (output : ActionOutput) (token : Option Bytes) (reason : Text)
        → Move d a p
            (record a {
              status = ActionStatus.retryable;
              attempts = saturating_add_u32 a.attempts 1;
              output = some output;
              resume_token = none;
              rollback_token = supported_token d token;
              last_error = some reason;
            })
            ready
            p.cursor
    rejects :
        (output : ActionOutput) (reason : Text)
        → Move d a p
            (record a {
              status = ActionStatus.failed;
              attempts = saturating_add_u32 a.attempts 1;
              output = some output;
              last_error = some reason;
            })
            failed
            p.cursor
    reverts :
        (output : ActionOutput) (token : Bytes) (reason : Text)
        → d.rollback_supported ≡ true
        → Move d a p
            (record a {
              status = ActionStatus.rolled_back;
              attempts = saturating_add_u32 a.attempts 1;
              output = some output;
              rollback_token = some token;
              last_error = some reason;
            })
            failed
            p.cursor
