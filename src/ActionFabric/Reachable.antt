-- ===== src/ActionFabric/Reachable.antt =====
-- The fabrics that a program can build up, and what all of them keep.
use ntd.Prelude.{
  ℕ, ◌+◌, ◌≤◌, ◌≡◌, refl, sym, ◌∙◌, subst, inl, inr, ◌==◌, some, some-injective, ok, length,
  length-set, Bool-cases, Result-cases, nat_ord, arith, text_ord,
}
use ntd.Prelude.BTreeMap
use ntd.Prelude.BTreeMap.{BTreeMap, Sorted, replace-Sorted, get-replace, get-insert}
use ntd.Prelude.Words.{usize_max}
use ntd.Core.{CapabilityId, TaskGraph}
use ntd.Capability.Descriptor.{AuthorityGrant}
use ntd.Capability.Action.{TypedAction}
use ntd.Capability.Registry.{CapabilityRegistry, descriptor}
use ntd.ActionFabric.PlanStatus.{completed}
use ntd.ActionFabric.Types.{
  ActionFabric, ActionFabricState, ActionPlanState, ActionPlanId, CapabilityAdapter, ActionVerifier,
}
use ntd.ActionFabric.Access.{find_plan, with_plan}
use ntd.ActionFabric.Frame.{fabric_at, plan_at}
use ntd.ActionFabric.Execute.{execute_next}
use ntd.ActionFabric.Prepare.{new_plan, prepare, prepare_plan}
use ntd.ActionFabric.Validate.{validate_fabric_state, fabric_new, register_adapter}
use ntd.ActionFabric.Validity.{validate-IsValid}
use ntd.ActionFabric.Safety.{
  Fits, Outcome, unchanged, exhausts, steps, execute_next-Outcome, execute_next-validate,
}
use ntd.ActionFabric.Planning.{prepare_plan-validate, prepare-Prepared}

-- A plan is put in the place of another, with as many actions.
replace-Fits :
    {A : Type 0} (f : ActionFabric A) (id : ActionPlanId) (p q : ActionPlanState)
    → find_plan id f ≡ some p
    → length q.actions ≡ length p.actions
    → Fits f
    → Fits (with_plan id q f)
unfolding find_plan with_plan
replace-Fits f id p q found same fits j r h = elim (Bool-cases (j == id)) [
  | inl e ↦
      let same_plan : q ≡ r =
        some-injective q r (sym (get-replace id j q f.state.plans ∙ rw e (rw found refl)) ∙ h) in
      subst (λ (x : ActionPlanState). length x.actions ≤ usize_max) same_plan
        (omega (arith, same, fits id p found))
  | inr e ↦ fits j r (sym (get-replace id j q f.state.plans ∙ rw e refl) ∙ h)
]

insert-Fits :
    {A : Type 0} (f : ActionFabric A) (id n : ℕ) (q : ActionPlanState)
    → length q.actions ≤ usize_max
    → Fits f
    → Fits (record f {
      state = record {
        next_plan_id = id + 1;
        next_action_id = n;
        plans = BTreeMap.insert id q f.state.plans;
      };
    })
unfolding find_plan
insert-Fits f id n q small fits j r h = elim (Bool-cases (j == id)) [
  | inl e ↦
      subst (λ (x : ActionPlanState). length x.actions ≤ usize_max)
        (some-injective q r (sym (get-insert id j q f.state.plans ∙ rw e refl) ∙ h)) small
  | inr e ↦ fits j r (sym (get-insert id j q f.state.plans ∙ rw e refl) ∙ h)
]

module _ {A V : Type 0} (adapter : CapabilityAdapter A) (verifier : ActionVerifier V) where
  -- Built from an empty fabric by registering adapters, preparing plans and executing them, the
  -- calls that fail included.
  pub data Reachable : ActionFabric A → Type 0 where
    created : (registry : CapabilityRegistry) → Reachable (fabric_new registry)
    registers :
        (capability : CapabilityId) (a : A) (f : ActionFabric A)
        → Reachable f
        → Reachable (register_adapter capability a f).0
    prepares :
        (task_id : ℕ) (graph : TaskGraph) (payloads : BTreeMap ℕ TypedAction) (f : ActionFabric A)
        → Reachable f
        → Reachable (prepare_plan task_id graph payloads f).0
    executes :
        (id : ActionPlanId) (authority : AuthorityGrant) (v : V) (f : ActionFabric A)
        → Reachable f
        → Reachable (execute_next adapter verifier id authority v f).0.0

-- What the state of each keeps.
pub record IsSound {A : Type 0} (f : ActionFabric A) : Type 0 where
  pub valid : validate_fabric_state f.registry f.state ≡ ok tt
  pub sorted : Sorted f.state.plans
  pub fits : Fits f

register_adapter-IsSound :
    {A : Type 0} (capability : CapabilityId) (a : A) (f : ActionFabric A)
    → IsSound f
    → IsSound (register_adapter capability a f).0
unfolding register_adapter find_plan
register_adapter-IsSound capability a f s = elim (Result-cases (descriptor f.registry capability)) [
  | inr (e, k) ↦ rw (k, register_adapter) s
  | inl (d, k) ↦ elim (Bool-cases (BTreeMap.contains_key capability f.adapters)) [
    | inl c ↦ rw (k, register_adapter) (rw c s)
    | inr c ↦
        rw (k, register_adapter)
          (rw c (record { valid = s.valid; sorted = s.sorted; fits = s.fits }))
  ]
]

prepare_plan-IsSound :
    {A : Type 0} (task_id : ℕ) (graph : TaskGraph) (payloads : BTreeMap ℕ TypedAction)
    (f : ActionFabric A)
    → IsSound f
    → IsSound (prepare_plan task_id graph payloads f).0
unfolding prepare_plan
prepare_plan-IsSound task_id graph payloads f s =
    let (v, o) = prepare_plan-validate task_id graph payloads f s.sorted s.valid in
    record { valid = v; sorted = o; fits = fits }
  where
    fits : Fits (prepare_plan task_id graph payloads f).0
    fits = elim (Result-cases (prepare f.registry f.state task_id graph payloads)) [
      | inr (e, h) ↦ rw (h, prepare_plan) s.fits
      | inl (r, h) ↦
          let w =
            prepare-Prepared f.registry f.state task_id graph payloads
              (validate-IsValid f.registry f.state s.valid) h in
          rw (h, prepare_plan)
            (subst (λ (q : ActionFabricState × ActionPlanId). Fits (record f { state = q.0 }))
              w.result
              (insert-Fits f f.state.next_plan_id (f.state.next_action_id + length w.vs)
                (new_plan f.state.next_plan_id task_id w.actions) w.bounded s.fits))
    ]

module _ {A V : Type 0} (adapter : CapabilityAdapter A) (verifier : ActionVerifier V)
    (id : ActionPlanId) (authority : AuthorityGrant) (v : V) (f : ActionFabric A) where
  Outcome-Fits :
      {g : ActionFabric A}
      → Fits f
      → Outcome adapter verifier id authority v f g
      → Sorted f.state.plans
      → Fits g × Sorted g.state.plans
  unfolding fabric_at with_plan find_plan
  Outcome-Fits fits (unchanged e) o = rw e (fits, o)
  Outcome-Fits fits (exhausts p found open' at_end e) o = rw e (
    replace-Fits f id p (record p { status = completed }) found refl fits,
    replace-Sorted id _ f.state.plans o,
  )
  Outcome-Fits fits (steps p found a current d open' admitted m) o = rw m.here (
    replace-Fits f id p (plan_at p m.action m.status m.cursor) found
        (length-set p.actions p.cursor m.action) fits,
    replace-Sorted id _ f.state.plans o,
  )

  execute_next-IsSound : IsSound f → IsSound (execute_next adapter verifier id authority v f).0.0
  execute_next-IsSound s =
      let (fits, o) =
        Outcome-Fits s.fits (execute_next-Outcome adapter verifier id authority v f) s.sorted in
      record {
        valid = execute_next-validate adapter verifier id authority v f s.fits s.valid;
        sorted = o;
        fits = fits;
      }

fabric_new-IsSound :
    {A : Type 0} (registry : CapabilityRegistry) → IsSound {A = A} (fabric_new registry)
unfolding fabric_new validate_fabric_state find_plan BTreeMap.get
fabric_new-IsSound registry = record { valid = refl; sorted = tt; fits = λ id p h. cc }

-- Whatever sequence of registrations, preparations and executions built a fabric from an empty one,
-- `validate_fabric_state` accepts its state, its plans lie in the order of their keys and the actions
-- of each fit into a vector. Calls that fail are included; `rollback_plan` is not among them.
pub Reachable-IsSound :
    {A V : Type 0} (adapter : CapabilityAdapter A) (verifier : ActionVerifier V)
    (f : ActionFabric A)
    → Reachable adapter verifier f
    → IsSound f
Reachable-IsSound adapter verifier _ (created registry) = fabric_new-IsSound registry
Reachable-IsSound adapter verifier _ (registers capability a f r) =
    register_adapter-IsSound capability a f (Reachable-IsSound adapter verifier f r)
Reachable-IsSound adapter verifier _ (prepares task_id graph payloads f r) =
    prepare_plan-IsSound task_id graph payloads f (Reachable-IsSound adapter verifier f r)
Reachable-IsSound adapter verifier _ (executes id authority v f r) =
    execute_next-IsSound adapter verifier id authority v f (Reachable-IsSound adapter verifier f r)
