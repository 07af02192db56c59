-- ===== src/ActionFabric/Refinement.antt =====
-- `execute_next` refines the state machine of `Move`: once an action is admitted, what it leaves of
-- the fabric is the fabric with that action, the plan's status and cursor moved by one `Move`, and
-- with other adapter states.
use ntd.Prelude.{
  Text, ◌≡◌, refl, ap, ◌∙◌, inl, inr, false, Option, none, some, Result, ok, err, get_elem?,
  Bool-cases, Option-cases, Result-cases, arith, text_ord, nat_ord, ◌>>=◌,
}
use ntd.Prelude.BTreeMap
use ntd.Prelude.BTreeMap.{BTreeMap}
use ntd.Capability.Descriptor.{CapabilityDescriptor, AuthorityGrant}
use ntd.Capability.Action.{Bytes, ActionOutput}
use ntd.ActionFabric.PlanStatus.{ready}
use ntd.ActionFabric.Types.{
  ActionFabric, ActionPlanState, PlannedAction, ActionPlanId, ActionVerifier, CapabilityAdapter,
  ActionVerification, accept, retry, reject, AdapterResult, completed, retryable, missing_adapter,
}
use ntd.ActionFabric.Types
use ntd.ActionFabric.Access.{find_plan}
use ntd.ActionFabric.Execute.{
  on_verified, verdict, on_called, call, start, run_started, execute_action, execute_next,
  is_terminal, admit, rollback_current_if_possible, resume_argument, uses_resume,
}
use ntd.ActionFabric.Frame.{
  fabric_at, fabric_at_start, update_action-fabric_at, set_plan_status-fabric_at,
  with_adapter-fabric_at, find_adapter-fabric_at,
}
use ntd.ActionFabric.Move.{begun, Accepted, stalls}
use ntd.ActionFabric.Endings.{
  Moved, on_adapter_error-Moved, on_suspended-Moved, on_retryable-Moved, Accepted-Moved,
  retry-Moved, reject_kept-Moved, reject_supported-Moved,
}

module _ {A V : Type 0} (adapter : CapabilityAdapter A) (verifier : ActionVerifier V)
    (f : ActionFabric A) (id : ActionPlanId) (p : ActionPlanState) (found : find_plan id f ≡ some p)
    (a : PlannedAction) (current : get_elem? p.actions p.cursor ≡ some a) (d : CapabilityDescriptor)
    (v : V) where
  verified-Moved :
      (m : BTreeMap Text A) (output : ActionOutput) (token : Option Bytes)
      (verdict : ActionVerification)
      → (verdict ≡ accept → Accepted verifier v d a output)
      → Moved adapter verifier f id p found a current d v
          (on_verified adapter verifier id p.cursor a d output token verdict
            (fabric_at f id p m (begun a) ready p.cursor)).0
  unfolding rollback_current_if_possible
  verified-Moved m output token accept h =
      Accepted-Moved adapter verifier f id p found a current d v m output token (h refl)
  verified-Moved m output token (retry reason) h =
      retry-Moved adapter verifier f id p found a current d v m output token reason
  verified-Moved m output none (reject reason) h =
      reject_kept-Moved adapter verifier f id p found a current d v m output none reason refl
  verified-Moved m output (some token) (reject reason) h = elim (Bool-cases d.rollback_supported) [
    | inl e ↦
        reject_supported-Moved adapter verifier f id p found a current d v m output token reason e
    | inr e ↦
        reject_kept-Moved adapter verifier f id p found a current d v m output (some token) reason
          (rw e refl)
  ]

  on_called-Moved :
      (m : BTreeMap Text A) (result : Result Text AdapterResult)
      → Moved adapter verifier f id p found a current d v
          (on_called adapter verifier id p.cursor a d result v
            (fabric_at f id p m (begun a) ready p.cursor)).0.0
  unfolding on_called verdict
  on_called-Moved m (err reason) =
      on_adapter_error-Moved adapter verifier f id p found a current d v m reason
  on_called-Moved m (ok (Types.suspended token note)) =
      on_suspended-Moved adapter verifier f id p found a current d v m token note
  on_called-Moved m (ok (retryable reason token)) =
      on_retryable-Moved adapter verifier f id p found a current d v m reason token
  on_called-Moved m (ok (completed output token)) =
      verified-Moved m output token (verdict adapter verifier id p.cursor a d v output).1
        (ground arith)

  start_missing :
      BTreeMap.get a.capability f.adapters ≡ none
      → start adapter verifier id p.cursor a d f
        ≡ (fabric_at f id p f.adapters (begun a) ready p.cursor, err (missing_adapter a.capability))
  unfolding start
  start_missing h =
      ap (start adapter verifier id p.cursor a d) (fabric_at_start f id p found a current)
      ∙ simp (
        update_action-fabric_at f id p found a current,
        set_plan_status-fabric_at f id p found a current,
        find_adapter-fabric_at f id p,
        h,
      )

  start_found :
      (s : A)
      → BTreeMap.get a.capability f.adapters ≡ some s
      → start adapter verifier id p.cursor a d f ≡ (
        fabric_at f id p f.adapters (begun a) ready p.cursor,
        resume_argument (uses_resume a) a.resume_token >>= λ argument. ok (s, argument),
      )
  unfolding start
  start_found s h =
      ap (start adapter verifier id p.cursor a d) (fabric_at_start f id p found a current)
      ∙ simp
          (
            update_action-fabric_at f id p found a current,
            set_plan_status-fabric_at f id p found a current,
            find_adapter-fabric_at f id p,
            h,
          )
          (ground arith)

  run_started-Moved :
      Moved adapter verifier f id p found a current d v
        (run_started adapter verifier id p.cursor a d v
          (start adapter verifier id p.cursor a d f)).0.0
  unfolding run_started
  run_started-Moved = elim (Option-cases (BTreeMap.get a.capability f.adapters)) [
    | inl h ↦ rw (start_missing h) (record {
      adapters = f.adapters;
      action = _;
      status = ready;
      cursor = p.cursor;
      here = refl;
      move = stalls;
    })
    | inr (s, h) ↦ elim (Result-cases (resume_argument (uses_resume a) a.resume_token)) [
      | inl (argument, k) ↦
          rw (start_found s h, k, with_adapter-fabric_at f id p)
            (on_called-Moved
              (BTreeMap.replace a.capability (call adapter verifier id p.cursor a d s argument).0
                f.adapters)
              _)
      | inr (e, k) ↦
          rw (start_found s h, k)
            (record {
              adapters = f.adapters;
              action = _;
              status = ready;
              cursor = p.cursor;
              here = refl;
              move = stalls;
            })
    ]
  ]

  -- An admitted action of a plan that is not terminal is moved by one step of the state machine.
  pub execute_next-Moved :
      (authority : AuthorityGrant)
      → is_terminal p.status ≡ false
      → admit f.registry authority a ≡ ok d
      → Moved adapter verifier f id p found a current d v
          (execute_next adapter verifier id authority v f).0.0
  unfolding execute_next execute_action
  execute_next-Moved authority open' h =
      rw (found, execute_next) (rw (open', current) (rw (h, execute_action) run_started-Moved))
