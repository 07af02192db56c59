-- ===== src/ActionFabric/Guarantees.antt =====
-- What `execute_next` promises its callers: no effect without authority, nothing changed but the one
-- plan, and no change to an action that is committed.
use ntd.Prelude.{
  ℕ, ◌≡◌, ◌≢◌, ◌⊎◌, inl, inr, refl, sym, ap, ◌∙◌, subst, true, false, ◌==◌, Bool-cases, Option,
  none, some, Option-cases, ok, Result-cases, [], get_elem?, get_elem?-set_ne, some-injective, List,
  nat_ord, arith,
}
use ntd.Prelude.BTreeMap.{get-replace, get-replace_self}
use ntd.Capability.Authority.{covers, allows, permits-covers}
use ntd.Capability.Descriptor.{CapabilityDescriptor, AuthorityGrant}
use ntd.Capability.Registry.{CapabilityRegistry, validate_action}
use ntd.ActionFabric.PlanStatus.{completed}
use ntd.ActionFabric.Types.{
  ActionFabric, ActionPlanState, PlannedAction, ActionPlanId, CapabilityAdapter, ActionVerifier,
}
use ntd.ActionFabric.Access.{find_plan, finish_plan, with_plan, set_plan_status_found}
use ntd.ActionFabric.Execute.{execute_next, execute_action, admit, is_terminal, is_final}
use ntd.ActionFabric.Frame.{fabric_at, plan_at}
use ntd.ActionFabric.Safety.{Outcome, unchanged, exhausts, steps, execute_next-Outcome, admit_ok}

admit_open :
    (registry : CapabilityRegistry) (authority : AuthorityGrant) (a : PlannedAction)
    (d : CapabilityDescriptor)
    → admit registry authority a ≡ ok d
    → is_final a.status ≡ false
unfolding admit
admit_open registry authority a d h = ground arith

same_plan : {o : Option ActionPlanState} {p q : ActionPlanState} → o ≡ some p → o ≡ some q → p ≡ q
same_plan {p = p} {q = q} h k = some-injective p q (sym h ∙ k)

final_elsewhere :
    (xs : List PlannedAction) (c k : ℕ) {a x : PlannedAction}
    → get_elem? xs c ≡ some a
    → get_elem? xs k ≡ some x
    → is_final x.status ≡ true
    → is_final a.status ≡ false
    → c ≢ k
final_elsewhere xs c k {a} {x} h l final open' e =
    let y : a ≡ x = same_action h (rw e l) in cc (ap (λ (b : PlannedAction). is_final b.status) y)
  where
    same_action : {o : Option PlannedAction} → o ≡ some a → o ≡ some x → a ≡ x
    same_action i j = some-injective a x (sym i ∙ j)

-- The authority permits the action under the cursor of the plan: the action is valid under its
-- capability's registered descriptor, of which the grant holds every scope and allows the effect.
pub record Authorized {A : Type 0} (id : ActionPlanId) (authority : AuthorityGrant)
    (f : ActionFabric A) : Type 0 where
  pub plan : ActionPlanState
  pub found : find_plan id f ≡ some plan
  pub action : PlannedAction
  pub current : get_elem? plan.actions plan.cursor ≡ some action
  pub contract : CapabilityDescriptor
  pub valid : validate_action f.registry action.capability action.action ≡ ok contract
  pub covered : covers authority contract.required_scopes ≡ true
  pub allowed : allows authority contract.side_effect ≡ true

abbrev pub actions_of : Option ActionPlanState → List PlannedAction
actions_of none = []
actions_of (some p) = p.actions

-- Neither the adapters nor the verifier have moved, and each plan has the actions that it had.
abbrev pub Untouched : {A V : Type 0} → ActionFabric A → V → ActionFabric A → V → Type 0
Untouched f v g v' =
    (g.adapters ≡ f.adapters)
    × (v' ≡ v)
    × ((j : ActionPlanId) → actions_of (find_plan j g) ≡ actions_of (find_plan j f))

admit-Authorized :
    {A : Type 0} (id : ActionPlanId) (authority : AuthorityGrant) (f : ActionFabric A)
    (p : ActionPlanState) (a : PlannedAction) (d : CapabilityDescriptor)
    → find_plan id f ≡ some p
    → get_elem? p.actions p.cursor ≡ some a
    → admit f.registry authority a ≡ ok d
    → Authorized id authority f
admit-Authorized id authority f p a d found current h =
    let (valid, permitted) = admit_ok f.registry authority a d h in
    let (covered, allowed) = (permits-covers authority d).0 permitted in
    record {
      plan = p;
      found = found;
      action = a;
      current = current;
      contract = d;
      valid = valid;
      covered = covered;
      allowed = allowed;
    }

actions_of-with_plan :
    {A : Type 0} (id j : ActionPlanId) (f : ActionFabric A) (p q : ActionPlanState)
    → find_plan id f ≡ some p
    → q.actions ≡ p.actions
    → actions_of (find_plan j (with_plan id q f)) ≡ actions_of (find_plan j f)
unfolding find_plan with_plan
actions_of-with_plan id j f p q found same = elim (Bool-cases (j == id)) [
  | inl e ↦
      let here : j ≡ id = ground arith in
      rw (here, get-replace_self id q f.state.plans found, found) same
  | inr e ↦ rw (get-replace id j q f.state.plans, e) refl
]

module _ {A V : Type 0} (adapter : CapabilityAdapter A) (verifier : ActionVerifier V)
    (id : ActionPlanId) (authority : AuthorityGrant) (v : V) (f : ActionFabric A) where
  -- Without authority there is no effect. Either the plan's next action is one that the authority
  -- permits, or `execute_next` moves neither the adapters nor the verifier and changes no action.
  pub execute_next-Authorized :
      Authorized id authority f
      ⊎ (let r = execute_next adapter verifier id authority v f in Untouched f v r.0.0 r.1)
  unfolding execute_next execute_action finish_plan
  execute_next-Authorized = elim (Option-cases (find_plan id f)) [
    | inl missing ↦ inr (rw (missing, execute_next) (refl, refl, λ j. refl))
    | inr (p, found) ↦ elim (Bool-cases (is_terminal p.status)) [
      | inl ended ↦ inr (rw (found, execute_next) (rw ended (refl, refl, λ j. refl)))
      | inr open' ↦ elim (Option-cases (get_elem? p.actions p.cursor)) [
        | inl at_end ↦ inr (
            rw (found, execute_next)
              (rw (open', at_end)
                (rw (set_plan_status_found id completed p f found) (
                  refl,
                  refl,
                  λ j. actions_of-with_plan id j f p (record p { status = completed }) found refl,
                ))))
        | inr (a, current) ↦ elim (Result-cases (admit f.registry authority a)) [
          | inl (d, admitted) ↦ inl (admit-Authorized id authority f p a d found current admitted)
          | inr (e, refused) ↦ inr (
              rw (found, execute_next)
                (rw (open', current) (rw (refused, execute_action) (refl, refl, λ j. refl))))
        ]
      ]
    ]
  ]

  Outcome-frame :
      {g : ActionFabric A} (j : ActionPlanId)
      → j ≢ id
      → Outcome adapter verifier id authority v f g
      → (find_plan j g ≡ find_plan j f)
        × (g.registry ≡ f.registry)
        × (g.state.next_plan_id ≡ f.state.next_plan_id)
        × (g.state.next_action_id ≡ f.state.next_action_id)
  unfolding find_plan with_plan fabric_at
  Outcome-frame j ne (unchanged e) = rw e (refl, refl, refl, refl)
  Outcome-frame j ne (exhausts p found open' at_end e) =
      rw e (get-replace id j _ f.state.plans ∙ ground arith, refl, refl, refl)
  Outcome-frame j ne (steps p found a current d open' admitted m) =
      rw m.here (get-replace id j _ f.state.plans ∙ ground arith, refl, refl, refl)

  -- `execute_next` leaves every other plan, the registry and both identifier counters as they were.
  pub execute_next_frame :
      (j : ActionPlanId)
      → j ≢ id
      → let g = (execute_next adapter verifier id authority v f).0.0 in
        (find_plan j g ≡ find_plan j f)
        × (g.registry ≡ f.registry)
        × (g.state.next_plan_id ≡ f.state.next_plan_id)
        × (g.state.next_action_id ≡ f.state.next_action_id)
  execute_next_frame j ne =
      Outcome-frame j ne (execute_next-Outcome adapter verifier id authority v f)

  -- The action of the plan `j` at position `k`.
  Outcome-keeps :
      {g : ActionFabric A} (p : ActionPlanState) (k : ℕ) (x : PlannedAction)
      → find_plan id f ≡ some p
      → get_elem? p.actions k ≡ some x
      → is_final x.status ≡ true
      → Outcome adapter verifier id authority v f g
      → (q : ActionPlanState) × (find_plan id g ≡ some q) × (get_elem? q.actions k ≡ some x)
  unfolding find_plan with_plan fabric_at
  Outcome-keeps p k x found at_k final (unchanged e) = (p, rw e found, at_k)
  Outcome-keeps p k x found at_k final (exhausts p' found' open' at_end e) = (
    record p' { status = completed },
    rw e (get-replace_self id _ f.state.plans found),
    subst (λ (r : ActionPlanState). get_elem? r.actions k ≡ some x) (same_plan found found') at_k,
  )
  Outcome-keeps p k x found at_k final (steps p' found' a current d open' admitted m) = (
    plan_at p' m.action m.status m.cursor,
    rw m.here (get-replace_self id _ f.state.plans found),
    (let at_k' =
          subst (λ (r : ActionPlanState). get_elem? r.actions k ≡ some x) (same_plan found found')
            at_k in
        get_elem?-set_ne p'.actions p'.cursor k m.action (
          final_elsewhere p'.actions p'.cursor k current at_k' final
            (admit_open f.registry authority a d admitted))
        ∙ at_k'),
  )

  -- An action that is committed, rolled back or failed is not altered by `execute_next`: it stands
  -- where it stood, with its output, tokens and attempts.
  pub execute_next_keeps_final :
      (p : ActionPlanState) (k : ℕ) (x : PlannedAction)
      → find_plan id f ≡ some p
      → get_elem? p.actions k ≡ some x
      → is_final x.status ≡ true
      → let g = (execute_next adapter verifier id authority v f).0.0 in
        (q : ActionPlanState) × (find_plan id g ≡ some q) × (get_elem? q.actions k ≡ some x)
  execute_next_keeps_final p k x found at_k final =
      Outcome-keeps p k x found at_k final (execute_next-Outcome adapter verifier id authority v f)
