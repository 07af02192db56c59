-- ===== src/ActionFabric/Endings.antt =====
-- The ways in which a call of `execute_next` ends, each as one `Move` of the action: behind each, the
-- fabric is the one of the start with the action, the plan's status and cursor moved, and with other
-- adapter states.
use ntd.Prelude.{
  ℕ, Text, ◌≡◌, inl, inr, true, false, not, ◌&&◌, Option, some, is_some, ok, get_elem?, Bool-cases,
  Option-cases, Result-cases, arith, text_ord, nat_ord,
}
use ntd.Prelude.BTreeMap
use ntd.Prelude.BTreeMap.{BTreeMap}
use ntd.Capability.Descriptor.{CapabilityDescriptor}
use ntd.Capability.Action.{Bytes, ActionOutput}
use ntd.ActionFabric.PlanStatus.{ActionPlanStatus, ready, suspended, failed}
use ntd.ActionFabric.Types.{
  ActionFabric, ActionPlanState, PlannedAction, ActionPlanId, ActionVerifier, CapabilityAdapter,
  accept, retry, reject,
}
use ntd.ActionFabric.Access.{find_plan, finish_plan}
use ntd.ActionFabric.Execute.{
  on_suspended, on_retryable, on_verified, on_adapter_error, rollback_current_if_possible,
  suspension_note, resume_state_note,
}
use ntd.ActionFabric.Frame.{
  fabric_at, update_action-fabric_at, set_plan_status-fabric_at, advance_cursor-fabric_at,
  with_adapter-fabric_at, find_adapter-fabric_at,
}
use ntd.ActionFabric.Move.{
  Move, begun, Accepted, stalls, errs, suspends, breaks, retries, commits, repeats, rejects,
  reverts,
}

module _ {A V : Type 0} (adapter : CapabilityAdapter A) (verifier : ActionVerifier V)
    (f : ActionFabric A) (id : ActionPlanId) (p : ActionPlanState) (found : find_plan id f ≡ some p)
    (a : PlannedAction) (current : get_elem? p.actions p.cursor ≡ some a) (d : CapabilityDescriptor)
    (v : V) where
  -- The fabric `g` is the one of the start after a move.
  pub record Moved (g : ActionFabric A) : Type 0 where
    pub adapters : BTreeMap Text A
    pub action : PlannedAction
    pub status : ActionPlanStatus
    pub cursor : ℕ
    pub here : g ≡ fabric_at f id p adapters action status cursor
    pub move : Move verifier v d a p action status cursor

  pub on_adapter_error-Moved :
      (m : BTreeMap Text A) (reason : Text)
      → Moved
          (on_adapter_error adapter verifier id p.cursor a d reason
            (fabric_at f id p m (begun a) ready p.cursor)).0
  unfolding on_adapter_error
  on_adapter_error-Moved m reason = record {
    adapters = m;
    action = _;
    status = ready;
    cursor = p.cursor;
    here = simp (
      update_action-fabric_at f id p found a current,
      set_plan_status-fabric_at f id p found a current,
    );
    move = errs reason;
  }

  pub on_suspended-Moved :
      (m : BTreeMap Text A) (token : Bytes) (note : Text)
      → Moved
          (on_suspended adapter verifier id p.cursor a d token note
            (fabric_at f id p m (begun a) ready p.cursor)).0
  unfolding on_suspended finish_plan
  on_suspended-Moved m token note = elim (Bool-cases d.resumable) [
    | inl e ↦ record {
      adapters = m;
      action = _;
      status = suspended;
      cursor = p.cursor;
      here = rw e (
          simp (
            update_action-fabric_at f id p found a current,
            set_plan_status-fabric_at f id p found a current,
          ));
      move = suspends token note e;
    }
    | inr e ↦ record {
      adapters = m;
      action = _;
      status = failed;
      cursor = p.cursor;
      here = rw e (
          simp (
            update_action-fabric_at f id p found a current,
            set_plan_status-fabric_at f id p found a current,
          ));
      move = breaks suspension_note e;
    }
  ]

  pub on_retryable-Moved :
      (m : BTreeMap Text A) (reason : Text) (token : Option Bytes)
      → Moved
          (on_retryable adapter verifier id p.cursor a d reason token
            (fabric_at f id p m (begun a) ready p.cursor)).0
  unfolding on_retryable finish_plan
  on_retryable-Moved m reason token = elim (Bool-cases (is_some token && not d.resumable)) [
    | inl e ↦ record {
      adapters = m;
      action = _;
      status = failed;
      cursor = p.cursor;
      here = rw e (
          simp (
            update_action-fabric_at f id p found a current,
            set_plan_status-fabric_at f id p found a current,
          ));
      move = breaks resume_state_note (ground arith);
    }
    | inr e ↦ record {
      adapters = m;
      action = _;
      status = ready;
      cursor = p.cursor;
      here = rw e (
          simp (
            update_action-fabric_at f id p found a current,
            set_plan_status-fabric_at f id p found a current,
          ));
      move = retries reason token (ground arith);
    }
  ]

  pub Accepted-Moved :
      (m : BTreeMap Text A) (output : ActionOutput) (token : Option Bytes)
      → Accepted verifier v d a output
      → Moved
          (on_verified adapter verifier id p.cursor a d output token accept
            (fabric_at f id p m (begun a) ready p.cursor)).0
  unfolding on_verified
  Accepted-Moved m output token h = record {
    adapters = m;
    action = _;
    status = _;
    cursor = _;
    here = simp (
      update_action-fabric_at f id p found a current,
      advance_cursor-fabric_at f id p found a current,
    );
    move = commits output token h;
  }

  pub retry-Moved :
      (m : BTreeMap Text A) (output : ActionOutput) (token : Option Bytes) (reason : Text)
      → Moved
          (on_verified adapter verifier id p.cursor a d output token
            (retry reason)
            (fabric_at f id p m (begun a) ready p.cursor)).0
  unfolding on_verified
  retry-Moved m output token reason = record {
    adapters = m;
    action = _;
    status = ready;
    cursor = p.cursor;
    here = simp (
      update_action-fabric_at f id p found a current,
      set_plan_status-fabric_at f id p found a current,
    );
    move = repeats output token reason;
  }

  pub reject_kept-Moved :
      (m : BTreeMap Text A) (output : ActionOutput) (token : Option Bytes) (reason : Text)
      → rollback_current_if_possible adapter verifier id p.cursor a d token
          (fabric_at f id p m (begun a) ready p.cursor)
        ≡ (fabric_at f id p m (begun a) ready p.cursor, ok false)
      → Moved
          (on_verified adapter verifier id p.cursor a d output token
            (reject reason)
            (fabric_at f id p m (begun a) ready p.cursor)).0
  unfolding on_verified finish_plan
  reject_kept-Moved m output token reason h = record {
    adapters = m;
    action = _;
    status = failed;
    cursor = p.cursor;
    here = simp (
      h,
      update_action-fabric_at f id p found a current,
      set_plan_status-fabric_at f id p found a current,
    );
    move = rejects output reason;
  }

  pub reject_supported-Moved :
      (m : BTreeMap Text A) (output : ActionOutput) (token : Bytes) (reason : Text)
      → d.rollback_supported ≡ true
      → Moved
          (on_verified adapter verifier id p.cursor a d output
            (some token)
            (reject reason)
            (fabric_at f id p m (begun a) ready p.cursor)).0
  unfolding on_verified finish_plan
  reject_supported-Moved m output token reason e =
      elim (Option-cases (BTreeMap.get a.capability m)) [
        | inl h ↦ record {
          adapters = m;
          action = _;
          status = ready;
          cursor = p.cursor;
          here = rw e (simp (find_adapter-fabric_at f id p, h));
          move = stalls;
        }
        | inr (s, h) ↦ elim (Result-cases (adapter.rollback s a.id a.action token).1) [
          | inl (u, k) ↦ record {
            adapters = BTreeMap.replace a.capability (adapter.rollback s a.id a.action token).0 m;
            action = _;
            status = failed;
            cursor = p.cursor;
            here = rw e (
                simp (
                  find_adapter-fabric_at f id p,
                  h,
                  k,
                  with_adapter-fabric_at f id p,
                  update_action-fabric_at f id p found a current,
                  set_plan_status-fabric_at f id p found a current,
                ));
            move = reverts output token reason e;
          }
          | inr (why, k) ↦ record {
            adapters = BTreeMap.replace a.capability (adapter.rollback s a.id a.action token).0 m;
            action = _;
            status = ready;
            cursor = p.cursor;
            here = rw e (simp (find_adapter-fabric_at f id p, h, k, with_adapter-fabric_at f id p));
            move = stalls;
          }
        ]
      ]
