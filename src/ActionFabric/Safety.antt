-- ===== src/ActionFabric/Safety.antt =====
-- What `execute_next` keeps, on every branch: the state stays one that `validate_fabric_state`
-- accepts, and all but the one plan stays as it was.
use ntd.Prelude.{
  ℕ, ◌≤◌, ◌≡◌, refl, sym, ap, subst, inl, inr, false, none, some, ok, length, get_elem?, Bool-cases,
  Option-cases, Result-cases, arith, nat_ord,
}
use ntd.Prelude.Words.{usize_max}
use ntd.Capability.Descriptor.{CapabilityDescriptor, AuthorityGrant, permits}
use ntd.Capability.Registry.{CapabilityRegistry, validate_action}
use ntd.ActionFabric.PlanStatus.{ActionPlanStatus, completed}
use ntd.ActionFabric.Types.{
  ActionFabric, ActionPlanState, PlannedAction, ActionPlanId, CapabilityAdapter, ActionVerifier,
}
use ntd.ActionFabric.Access.{find_plan, finish_plan, with_plan, set_plan_status_found}
use ntd.ActionFabric.Execute.{execute_next, execute_action, admit, is_terminal}
use ntd.ActionFabric.Frame.{fabric_at, plan_at}
use ntd.ActionFabric.Move.{
  Move, stalls, errs, suspends, breaks, retries, commits, repeats, rejects, reverts,
}
use ntd.ActionFabric.Endings.{Moved}
use ntd.ActionFabric.Refinement.{execute_next-Moved}
use ntd.ActionFabric.Validate.{validate_fabric_state}
use ntd.ActionFabric.Validity.{IsValid, validate-IsValid, IsValid-validate}
use ntd.ActionFabric.Preservation.{Move-PlanOk}
use ntd.ActionFabric.StatusChecks.{exhausted-PlanOk}
use ntd.ActionFabric.StateChecks.{action_ids-set, replace-IsValid, found-PlanOk}

-- What an admitted action has passed.
pub admit_ok :
    (registry : CapabilityRegistry) (authority : AuthorityGrant) (a : PlannedAction)
    (d : CapabilityDescriptor)
    → admit registry authority a ≡ ok d
    → (validate_action registry a.capability a.action ≡ ok d) × (permits authority d ≡ ok tt)
unfolding admit
admit_ok registry authority a d h = ground arith

-- The actions of each plan fit into a vector.
abbrev pub Fits : {A : Type 0} → ActionFabric A → Type 0
Fits f =
    (id : ActionPlanId) (p : ActionPlanState)
    → find_plan id f ≡ some p
    → length p.actions ≤ usize_max

module _ {A V : Type 0} (adapter : CapabilityAdapter A) (verifier : ActionVerifier V)
    (id : ActionPlanId) (authority : AuthorityGrant) (v : V) (f : ActionFabric A) where
  -- How a call can end.
  pub data Outcome (g : ActionFabric A) : Type 0 where
    unchanged : g ≡ f → Outcome g
    exhausts :
        (p : ActionPlanState)
        → find_plan id f ≡ some p
        → is_terminal p.status ≡ false
        → get_elem? p.actions p.cursor ≡ none
        → g ≡ with_plan id (record p { status = completed }) f
        → Outcome g
    steps :
        (p : ActionPlanState) (found : find_plan id f ≡ some p) (a : PlannedAction)
        (current : get_elem? p.actions p.cursor ≡ some a) (d : CapabilityDescriptor)
        → is_terminal p.status ≡ false
        → admit f.registry authority a ≡ ok d
        → Moved adapter verifier f id p found a current d v g
        → Outcome g

  pub execute_next-Outcome : Outcome (execute_next adapter verifier id authority v f).0.0
  unfolding execute_next execute_action finish_plan
  execute_next-Outcome = elim (Option-cases (find_plan id f)) [
    | inl missing ↦ unchanged (rw (missing, execute_next))
    | inr (p, found) ↦ elim (Bool-cases (is_terminal p.status)) [
      | inl ended ↦ unchanged (rw (found, execute_next) (rw ended))
      | inr open' ↦ elim (Option-cases (get_elem? p.actions p.cursor)) [
        | inl at_end ↦ exhausts p found open' at_end (
            rw (found, execute_next)
              (rw (open', at_end) (simp (set_plan_status_found id completed p f found))))
        | inr (a, current) ↦ elim (Result-cases (admit f.registry authority a)) [
          | inl (d, admitted) ↦ steps p found a current d open' admitted (
              execute_next-Moved adapter verifier f id p found a current d v authority open'
                admitted)
          | inr (e, refused) ↦
              unchanged
                (rw (found, execute_next) (rw (open', current) (rw (refused, execute_action))))
        ]
      ]
    ]
  ]

  Move-id :
      {d : CapabilityDescriptor} {a : PlannedAction} {p : ActionPlanState} {b : PlannedAction}
      {s : ActionPlanStatus} {i : ℕ}
      → Move verifier v d a p b s i
      → b.id ≡ a.id
  Move-id stalls = refl
  Move-id (errs reason) = refl
  Move-id (suspends token note h) = refl
  Move-id (breaks note h) = refl
  Move-id (retries reason token h) = refl
  Move-id (commits output token h) = refl
  Move-id (repeats output token reason) = refl
  Move-id (rejects output reason) = refl
  Move-id (reverts output token reason h) = refl

  Outcome-registry : {g : ActionFabric A} → Outcome g → g.registry ≡ f.registry
  unfolding fabric_at with_plan
  Outcome-registry (unchanged e) = ap (λ (h : ActionFabric A). h.registry) e
  Outcome-registry (exhausts p found open' at_end e) = ap (λ (h : ActionFabric A). h.registry) e
  Outcome-registry (steps p found a current d open' admitted m) =
      ap (λ (h : ActionFabric A). h.registry) m.here

  Outcome-IsValid :
      {g : ActionFabric A}
      → Fits f
      → IsValid f.registry f.state
      → Outcome g
      → IsValid f.registry g.state
  unfolding fabric_at with_plan find_plan
  Outcome-IsValid fits valid (unchanged e) =
      subst (λ (h : ActionFabric A). IsValid f.registry h.state) (sym e) valid
  Outcome-IsValid fits valid (exhausts p found open' at_end e) =
      subst (λ (h : ActionFabric A). IsValid f.registry h.state) (sym e)
        (replace-IsValid f.registry f.state id p (record p { status = completed }) valid found
          (exhausted-PlanOk f.registry id p (found-PlanOk f.registry f.state id p valid found) open'
            at_end)
          refl)
  Outcome-IsValid fits valid (steps p found a current d open' admitted m) =
      subst (λ (h : ActionFabric A). IsValid f.registry h.state) (sym m.here)
        (replace-IsValid f.registry f.state id p (plan_at p m.action m.status m.cursor) valid found
          (Move-PlanOk verifier v f.registry d a p id (admit_ok f.registry authority a d admitted).0
            current open' (fits id p found) (found-PlanOk f.registry f.state id p valid found)
            m.move)
          (action_ids-set p.actions p.cursor m.action current (Move-id m.move)))

  -- If `validate_fabric_state` accepts the fabric's state and each plan's actions fit into a vector,
  -- it accepts the state that `execute_next` leaves, whether the call succeeds or fails.
  pub execute_next-validate :
      Fits f
      → validate_fabric_state f.registry f.state ≡ ok tt
      → let g = (execute_next adapter verifier id authority v f).0.0 in
        validate_fabric_state g.registry g.state ≡ ok tt
  execute_next-validate fits valid = rw (Outcome-registry execute_next-Outcome) (
      IsValid-validate f.registry _
        (Outcome-IsValid fits (validate-IsValid f.registry f.state valid) execute_next-Outcome))
