-- ===== src/ActionFabric/Preservation.antt =====
-- One `Move`, and so one call of `execute_next`, keeps a state that `validate_fabric_state` accepts.
use ntd.Prelude.{
  ℕ, ◌≤◌, ◌<◌, ◌≡◌, refl, nat_ord, subst, false, some, ok, length, >>-eq-ok, length-set, get_elem?,
  set, arith, AllAt-set, AllAt-get, get_elem?-lt,
}
use ntd.Prelude.Words.{usize_max}
use ntd.Capability.Descriptor.{CapabilityDescriptor}
use ntd.Capability.Registry.{CapabilityRegistry, validate_action}
use ntd.ActionFabric.PlanStatus.{ActionPlanStatus, ready, suspended, failed}
use ntd.ActionFabric.Types.{ActionPlanState, PlannedAction, ActionVerifier}
use ntd.ActionFabric.Access.{advanced}
use ntd.ActionFabric.Execute.{is_terminal}
use ntd.ActionFabric.Frame.{plan_at}
use ntd.ActionFabric.Move.{
  Move, stalls, errs, suspends, breaks, retries, commits, repeats, rejects, reverts,
}
use ntd.ActionFabric.Checks.{Move-cursor, Move-check_action, check_action_other}
use ntd.ActionFabric.StatusChecks.{check_status_stay, check_status_commit}
use ntd.ActionFabric.Validate.{check_action, check_contract, check_status}
use ntd.ActionFabric.Validity.{PlanOk, ActionsOk}

module _ {V : Type 0} (verifier : ActionVerifier V) (v : V) (registry : CapabilityRegistry)
    (d : CapabilityDescriptor) (a : PlannedAction) (p : ActionPlanState) (key : ℕ)
    (valid : validate_action registry a.capability a.action ≡ ok d)
    (current : get_elem? p.actions p.cursor ≡ some a) (open' : is_terminal p.status ≡ false)
    (sized : length p.actions ≤ usize_max) (plan_ok : PlanOk registry key p) where
  room : p.cursor < usize_max
  room = omega (arith, get_elem?-lt p.actions p.cursor current)

  contract : check_contract registry a ≡ ok tt
  unfolding check_action
  contract =
      (>>-eq-ok (check_contract registry a) _ (
        AllAt-get (λ i b. check_action registry p i b ≡ ok tt) 0 p.cursor p.cursor p.actions
          plan_ok.actions_ok current (omega arith))).0

  Move-ActionsOk :
      {b : PlannedAction} {s : ActionPlanStatus} {i : ℕ}
      → Move verifier v d a p b s i
      → ActionsOk registry (plan_at p b s i) 0 (set p.actions p.cursor b)
  Move-ActionsOk {b} {s} {i} m =
      AllAt-set 0 p.cursor p.actions b plan_ok.actions_ok
        (λ j x ne.
          check_action_other registry p b s i j x open'
            (Move-cursor verifier v registry d a p valid room contract m) (λ e. ne (omega arith)))
        (subst (λ j. check_action registry (plan_at p b s i) j b ≡ ok tt) (omega arith)
          (Move-check_action verifier v registry d a p valid room contract m))

  Move-check_status :
      {b : PlannedAction} {s : ActionPlanStatus} {i : ℕ}
      → Move verifier v d a p b s i
      → check_status (plan_at p b s i) ≡ ok tt
  unfolding advanced
  Move-check_status stalls = check_status_stay p a _ ready current (λ e. cc) refl
  Move-check_status (errs reason) = check_status_stay p a _ ready current (λ e. cc) refl
  Move-check_status (suspends token note h) =
      check_status_stay p a _ suspended current (λ e. cc) refl
  Move-check_status (breaks note h) = check_status_stay p a _ failed current (λ e. cc) refl
  Move-check_status (retries reason token h) = check_status_stay p a _ ready current (λ e. cc) refl
  Move-check_status (commits output token h) =
      check_status_commit registry p a _ plan_ok.actions_ok
        (Move-ActionsOk (commits output token h)) current room
  Move-check_status (repeats output token reason) =
      check_status_stay p a _ ready current (λ e. cc) refl
  Move-check_status (rejects output reason) = check_status_stay p a _ failed current (λ e. cc) refl
  Move-check_status (reverts output token reason h) =
      check_status_stay p a _ failed current (λ e. cc) refl

  pub Move-PlanOk :
      {b : PlannedAction} {s : ActionPlanStatus} {i : ℕ}
      → Move verifier v d a p b s i
      → PlanOk registry key (plan_at p b s i)
  Move-PlanOk {b} {s} {i} m = record {
    header = ground (
      arith,
      length-set p.actions p.cursor b,
      get_elem?-lt p.actions p.cursor current,
      Move-cursor verifier v registry d a p valid room contract m,
      plan_ok.header,
    );
    actions_ok = Move-ActionsOk m;
    status_ok = Move-check_status m;
  }
