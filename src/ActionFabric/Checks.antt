-- ===== src/ActionFabric/Checks.antt =====
-- One `Move` keeps every check that `validate_fabric_state` makes on the plan.
use ntd.Prelude.{
  ℕ, suc, ◌+◌, ◌≤◌, ◌<◌, ◌≡◌, ◌≢◌, refl, ◌⊎◌, inl, inr, true, false, List, [], ◌∷◌, ok, length,
  >>-eq-ok, all, arith,
}
use ntd.Prelude.Words.{usize_max}
use ntd.Capability.Descriptor.{CapabilityDescriptor}
use ntd.Capability.Registry.{CapabilityRegistry, validate_action}
use ntd.ActionFabric.PlanStatus.{ActionPlanStatus}
use ntd.ActionFabric.Types.{ActionPlanState, PlannedAction, ActionStatus, ActionVerifier, status_eq}
use ntd.ActionFabric.Access.{advanced}
use ntd.ActionFabric.Execute.{is_terminal}
use ntd.ActionFabric.Frame.{plan_at}
use ntd.ActionFabric.Move.{
  Move, stalls, errs, suspends, breaks, retries, commits, repeats, rejects, reverts,
}
use ntd.ActionFabric.Validate.{check_action, check_contract, check_position}
use ntd.ActionFabric.Validity.{ActionsOk}

module _ {V : Type 0} (verifier : ActionVerifier V) (v : V) (registry : CapabilityRegistry)
    (d : CapabilityDescriptor) (a : PlannedAction) (p : ActionPlanState)
    (valid : validate_action registry a.capability a.action ≡ ok d) (room : p.cursor < usize_max)
    (contract : check_contract registry a ≡ ok tt) where
  -- The moved action passes its own checks.
  Move-check_contract :
      {b : PlannedAction} {s : ActionPlanStatus} {i : ℕ}
      → Move verifier v d a p b s i
      → check_contract registry b ≡ ok tt
  unfolding check_contract
  Move-check_contract stalls = ground arith
  Move-check_contract (errs reason) = ground arith
  Move-check_contract (suspends token note h) = ground arith
  Move-check_contract (breaks note h) = ground arith
  Move-check_contract (retries reason token h) = ground arith
  Move-check_contract (commits output token h) = ground arith
  Move-check_contract (repeats output token reason) = ground arith
  Move-check_contract (rejects output reason) = ground arith
  Move-check_contract (reverts output token reason h) = ground arith

  Move-check_position :
      {b : PlannedAction} {s : ActionPlanStatus} {i : ℕ}
      → Move verifier v d a p b s i
      → check_position (plan_at p b s i) p.cursor b ≡ ok tt
  unfolding check_position advanced
  Move-check_position stalls = ground arith
  Move-check_position (errs reason) = ground arith
  Move-check_position (suspends token note h) = ground arith
  Move-check_position (breaks note h) = ground arith
  Move-check_position (retries reason token h) = ground arith
  Move-check_position (commits output token h) = ground arith
  Move-check_position (repeats output token reason) = ground arith
  Move-check_position (rejects output reason) = ground arith
  Move-check_position (reverts output token reason h) = ground arith

  pub Move-check_action :
      {b : PlannedAction} {s : ActionPlanStatus} {i : ℕ}
      → Move verifier v d a p b s i
      → check_action registry (plan_at p b s i) p.cursor b ≡ ok tt
  unfolding check_action
  Move-check_action m = rw (Move-check_contract m) (Move-check_position m)

  -- The cursor stays, or goes on by one.
  pub Move-cursor :
      {b : PlannedAction} {s : ActionPlanStatus} {i : ℕ}
      → Move verifier v d a p b s i
      → (i ≡ p.cursor) ⊎ (i ≡ p.cursor + 1)
  unfolding advanced
  Move-cursor stalls = inl refl
  Move-cursor (errs reason) = inl refl
  Move-cursor (suspends token note _) = inl refl
  Move-cursor (breaks note _) = inl refl
  Move-cursor (retries reason token _) = inl refl
  Move-cursor (commits output token _) = inr (omega arith)
  Move-cursor (repeats output token reason) = inl refl
  Move-cursor (rejects output reason) = inl refl
  Move-cursor (reverts output token reason _) = inl refl

check_position_other :
    (p : ActionPlanState) (b : PlannedAction) (s : ActionPlanStatus) (i j : ℕ) (x : PlannedAction)
    → is_terminal p.status ≡ false
    → (i ≡ p.cursor) ⊎ (i ≡ p.cursor + 1)
    → j ≢ p.cursor
    → check_position p j x ≡ ok tt
    → check_position (plan_at p b s i) j x ≡ ok tt
unfolding check_position
check_position_other p b s i j x open' near ne h = ground arith

-- An action away from the cursor passes its checks also when the cursor goes on by at most one.
pub check_action_other :
    (registry : CapabilityRegistry) (p : ActionPlanState) (b : PlannedAction) (s : ActionPlanStatus)
    (i j : ℕ) (x : PlannedAction)
    → is_terminal p.status ≡ false
    → (i ≡ p.cursor) ⊎ (i ≡ p.cursor + 1)
    → j ≢ p.cursor
    → check_action registry p j x ≡ ok tt
    → check_action registry (plan_at p b s i) j x ≡ ok tt
unfolding check_action
check_action_other registry p b s i j x open' near ne h =
    let (contract, place) = >>-eq-ok (check_contract registry x) _ h in
    rw contract (check_position_other p b s i j x open' near ne place)

-- A plan whose cursor lies behind actions that passed their checks has committed them.
pub all-committed :
    (registry : CapabilityRegistry) (p : ActionPlanState) (i : ℕ) (xs : List PlannedAction)
    → ActionsOk registry p i xs
    → i + length xs ≤ p.cursor
    → p.status ≢ ActionPlanStatus.rolled_back
    → all (λ a. status_eq a.status ActionStatus.committed) xs ≡ true
unfolding check_action check_position
all-committed registry p i [] h le ne = refl
all-committed registry p i (x ∷ xs) h le ne =
    let (_, place) = >>-eq-ok (check_contract registry x) _ h.0 in
    let rest = all-committed registry p (suc i) xs h.1 (omega arith) ne in ground arith
