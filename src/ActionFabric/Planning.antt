-- ===== src/ActionFabric/Planning.antt =====
-- `prepare_plan` keeps a state that `validate_fabric_state` accepts, and the order of its plans.
use ntd.Prelude.{
  ℕ, ◌+◌, ◌≤◌, ◌≡◌, refl, sym, ap, ◌∙◌, subst, false, ◌||◌, ◌==◌, List, [], ◌∷◌, ◌++◌, ok,
  refuse-eq-ok, >>=-eq-ok, >>-eq-ok, length, ok-injective, arith, nat_ord, ok_or, is_empty,
  Result-cases, inl, inr, append-nil, append_assoc,
}
use ntd.Prelude.BTreeMap
use ntd.Prelude.BTreeMap.{
  BTreeMap, Sorted, Below, Below-insert, Sorted-Below, append-Sorted, last_key-append,
}
use ntd.Prelude.BTreeSet
use ntd.Prelude.Words.{checked_add_u64, try_u64, usize_max}
use ntd.Core.{TaskGraph}
use ntd.Capability.Action.{TypedAction}
use ntd.Capability.Registry.{CapabilityRegistry}
use ntd.ActionFabric.Types.{
  ActionFabric, ActionFabricState, ActionPlanState, PlannedAction, ActionPlanId, invalid_state,
  overflow,
}
use ntd.ActionFabric.Prepare.{
  ValidatedNode, validate_nodes, refuse_left, number_actions, new_plan, prepare, prepare_plan,
}
use ntd.ActionFabric.Validate.{check_status, validate_fabric_state, reaches}
use ntd.ActionFabric.Validity.{
  PlanOk, PlansOk, IsValid, NewIds-append, added, action_ids, all_ids, max_of, max_of-append,
  validate-IsValid, IsValid-validate,
}
use ntd.ActionFabric.Fresh.{
  Numbered, number_actions-Numbered, validate_nodes-Contracts, checked_add_ok, try_u64_ok,
  contains-added,
}

try_u64_fits : (n : ℕ) {m : ℕ} → ok_or (try_u64 n) overflow ≡ ok m → n ≤ usize_max
try_u64_fits n h = ground arith

all_ids-append :
    (plans : BTreeMap ℕ ActionPlanState) (k : ℕ) (p : ActionPlanState)
    → all_ids (plans ++ (k, p) ∷ []) ≡ all_ids plans ++ action_ids p.actions
all_ids-append [] k p = append-nil (action_ids p.actions)
all_ids-append ((j, q) ∷ rest) k p =
    ap (λ is. action_ids q.actions ++ is) (all_ids-append rest k p)
    ∙ sym (append_assoc (action_ids q.actions) (all_ids rest) (action_ids p.actions))

abbrev pub prepared_state :
    ActionFabricState → ℕ → List PlannedAction → ℕ → ℕ → ActionFabricState × ActionPlanId
prepared_state s task_id actions next_plan_id next_action_id = (
  record {
    next_plan_id = next_plan_id;
    next_action_id = next_action_id;
    plans = BTreeMap.insert s.next_plan_id (new_plan s.next_plan_id task_id actions) s.plans;
  },
  s.next_plan_id,
)

module _ (registry : CapabilityRegistry) where
  PlansOk-append :
      (plans : BTreeMap ℕ ActionPlanState) (k : ℕ) (p : ActionPlanState)
      → PlansOk registry plans
      → PlanOk registry k p
      → PlansOk registry (plans ++ (k, p) ∷ [])
  PlansOk-append [] k p h o = (o, tt)
  PlansOk-append ((j, q) ∷ rest) k p h o = (h.0, PlansOk-append rest k p h.1 o)

  module _ (s : ActionFabricState) (task_id : ℕ) (vs : List ValidatedNode)
      (actions : List PlannedAction) (valid : IsValid registry s) (sorted : Sorted s.plans)
      (task_pos : (task_id == 0) ≡ false)
      (numbered : Numbered registry
        (new_plan s.next_plan_id task_id actions)
        s.next_action_id
        0
        vs
        actions) where
    new_check_status : check_status (new_plan s.next_plan_id task_id actions) ≡ ok tt
    unfolding check_status
    new_check_status = rw numbered.first_open

    new-PlanOk : PlanOk registry s.next_plan_id (new_plan s.next_plan_id task_id actions)
    new-PlanOk = record {
      header = (let p = valid.positive in ground arith);
      actions_ok = numbered.oks;
      status_ok = new_check_status;
    }

    plans-Below : Below s.next_plan_id s.plans
    plans-Below = Sorted-Below s.next_plan_id s.plans sorted (λ k e.
        let b = subst (λ o. reaches s.next_plan_id o ≡ false) e valid.last_below in ground arith)

    inserted :
        BTreeMap.insert s.next_plan_id (new_plan s.next_plan_id task_id actions) s.plans
        ≡ s.plans ++ (s.next_plan_id, new_plan s.next_plan_id task_id actions) ∷ []
    inserted = Below-insert s.next_plan_id _ s.plans plans-Below

    -- The state that `prepare` returns.
    prepared-IsValid : IsValid registry (record {
      next_plan_id = s.next_plan_id + 1;
      next_action_id = s.next_action_id + length vs;
      plans = BTreeMap.insert s.next_plan_id (new_plan s.next_plan_id task_id actions) s.plans;
    })
    unfolding BTreeSet.contains
    prepared-IsValid = rw inserted (record {
      positive = (let p = valid.positive in ground arith);
      last_below = rw (last_key-append s.next_plan_id _ s.plans) (ground arith);
      plans_ok = PlansOk-append s.plans s.next_plan_id _ valid.plans_ok new-PlanOk;
      ids_new =
          rw (all_ids-append s.plans s.next_plan_id (new_plan s.next_plan_id task_id actions)) (
            NewIds-append [] (all_ids s.plans) (action_ids actions) valid.ids_new (
              numbered.news (added [] (all_ids s.plans)) (λ j le.
                contains-added j 0 [] (all_ids s.plans) (let b = valid.ids_below in ground arith)
                  refl)));
      ids_below =
          rw
            (
              all_ids-append s.plans s.next_plan_id (new_plan s.next_plan_id task_id actions),
              max_of-append 0 (all_ids s.plans) (action_ids actions),
            )
            (let b = valid.ids_below in
              let t = numbered.top (max_of 0 (all_ids s.plans)) (ground arith) in ground arith);
    })

    prepared-Sorted :
        Sorted (BTreeMap.insert s.next_plan_id (new_plan s.next_plan_id task_id actions) s.plans)
    prepared-Sorted = rw inserted (append-Sorted s.next_plan_id _ s.plans sorted plans-Below)

  -- What a successful `prepare` has passed through.
  pub record Prepared (s : ActionFabricState) (task_id : ℕ) (r : ActionFabricState × ActionPlanId)
      : Type 0 where
    pub vs : List ValidatedNode
    pub actions : List PlannedAction
    pub task_pos : (task_id == 0) ≡ false
    pub numbered :
        Numbered registry (new_plan s.next_plan_id task_id actions) s.next_action_id 0 vs actions
    pub bounded : length actions ≤ usize_max
    pub result :
        prepared_state s task_id actions (s.next_plan_id + 1) (s.next_action_id + length vs) ≡ r

  pub prepare-Prepared :
      (s : ActionFabricState) (task_id : ℕ) (graph : TaskGraph) (payloads : BTreeMap ℕ TypedAction)
      {r : ActionFabricState × ActionPlanId}
      → IsValid registry s
      → prepare registry s task_id graph payloads ≡ ok r
      → Prepared s task_id r
  unfolding prepare
  prepare-Prepared s task_id graph payloads valid h =
      let (args, h₁) = refuse-eq-ok (task_id == 0 || is_empty graph.actions) invalid_state _ h in
      let (w, e₁, h₂) = >>=-eq-ok (validate_nodes registry [] payloads graph.actions) _ h₁ in
      let (_, h₃) = >>-eq-ok (refuse_left w.1) _ h₂ in
      let (next_plan_id, e₂, h₄) =
        >>=-eq-ok (ok_or (checked_add_u64 s.next_plan_id 1) overflow) _ h₃ in
      let (count, e₃, h₅) = >>=-eq-ok (ok_or (try_u64 (length w.0)) overflow) _ h₄ in
      let (next_action_id, e₄, h₆) =
        >>=-eq-ok (ok_or (checked_add_u64 s.next_action_id count) overflow) _ h₅ in
      let (actions, e₅, h₇) = >>=-eq-ok (number_actions s.next_action_id 0 w.0) _ h₆ in
      let numbered =
        number_actions-Numbered registry (new_plan s.next_plan_id task_id actions) s.next_action_id
          0 w.0 refl (let p = valid.positive in ground arith)
          (validate_nodes-Contracts registry [] payloads graph.actions e₁) e₅ in
      record {
        vs = w.0;
        actions = actions;
        task_pos = ground arith;
        numbered = numbered;
        bounded = omega (arith, numbered.sized, try_u64_fits (length w.0) e₃);
        result =
            ap (λ n. prepared_state s task_id actions n (s.next_action_id + length w.0))
              (sym (checked_add_ok s.next_plan_id 1 overflow e₂))
            ∙ ap (prepared_state s task_id actions next_plan_id) (
                sym (
                  checked_add_ok s.next_action_id count overflow e₄
                  ∙ ap (λ n. s.next_action_id + n) (try_u64_ok (length w.0) overflow e₃)))
            ∙ ok-injective h₇;
      }

  prepare-IsValid :
      (s : ActionFabricState) (task_id : ℕ) (graph : TaskGraph) (payloads : BTreeMap ℕ TypedAction)
      {r : ActionFabricState × ActionPlanId}
      → IsValid registry s
      → Sorted s.plans
      → prepare registry s task_id graph payloads ≡ ok r
      → IsValid registry r.0 × Sorted r.0.plans
  prepare-IsValid s task_id graph payloads valid sorted h =
      let w = prepare-Prepared s task_id graph payloads valid h in
      subst (λ (q : ActionFabricState × ActionPlanId). IsValid registry q.0 × Sorted q.0.plans)
        w.result
        (
          prepared-IsValid s task_id w.vs w.actions valid sorted w.task_pos w.numbered,
          prepared-Sorted s task_id w.vs w.actions valid sorted w.task_pos w.numbered,
        )

-- If `validate_fabric_state` accepts the fabric's state, whose plans lie in the order of their keys,
-- the same holds of what `prepare_plan` leaves, whether the call succeeds or fails.
pub prepare_plan-validate :
    {A : Type 0} (task_id : ℕ) (graph : TaskGraph) (payloads : BTreeMap ℕ TypedAction)
    (f : ActionFabric A)
    → Sorted f.state.plans
    → validate_fabric_state f.registry f.state ≡ ok tt
    → let g = (prepare_plan task_id graph payloads f).0 in
      (validate_fabric_state g.registry g.state ≡ ok tt) × Sorted g.state.plans
unfolding prepare_plan
prepare_plan-validate task_id graph payloads f sorted valid =
    elim (Result-cases (prepare f.registry f.state task_id graph payloads)) [
      | inl (r, e) ↦
          let (v, o) =
            prepare-IsValid f.registry f.state task_id graph payloads
              (validate-IsValid f.registry f.state valid) sorted e in
          rw (e, prepare_plan) (IsValid-validate f.registry r.0 v, o)
      | inr (e, h) ↦ rw (h, prepare_plan) (valid, sorted)
    ]
