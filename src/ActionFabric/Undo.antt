-- ===== src/ActionFabric/Undo.antt =====
-- `rollback_plan`: how a rollback that succeeds marks the plan and its actions.
use ntd.Prelude.{
  ℕ, suc, ◌≡◌, refl, sym, ap, ◌∙◌, true, false, some, List, [], ◌∷◌, ◌++◌, map, Result, ok, err,
  length, get_elem?, set, set_self, get_elem?-append, set-append, length-snoc, Bool-cases, inl, inr,
  arith, append_assoc, if◌then◌else◌, nat_ord, text_ord,
}
use ntd.Prelude.BTreeMap.{get-replace_self}
use ntd.Capability.Action.{Bytes}
use ntd.ActionFabric.PlanStatus.{ActionPlanStatus}
use ntd.ActionFabric.Types.{
  ActionFabric, ActionPlanState, PlannedAction, ActionStatus, ActionPlanId, CapabilityAdapter,
  ActionStepReport, ActionFabricError,
}
use ntd.ActionFabric.Access.{
  Fab, proceed, ◌>>=◌, ◌>>◌, find_plan, with_plan, update_action, set_plan_status_found,
  finish_plan, with_adapter, find_adapter, lift,
}
use ntd.ActionFabric.Rollback.{
  skips_rollback, rollback_token_of, call_rollback, rollback_action, rollback_actions,
  report_rollback, rollback_plan,
}

-- The action behind a rollback.
abbrev pub undone : PlannedAction → PlannedAction
undone a = if skips_rollback a then a else record a { status = ActionStatus.rolled_back }

proceed-eq-ok :
    {A X Y : Type 0} (k : X → Fab A Y) (r : ActionFabric A × Result ActionFabricError X)
    {g : ActionFabric A} {y : Y}
    → proceed k r ≡ (g, ok y)
    → (x : X) × (r.1 ≡ ok x) × (k x r.0 ≡ (g, ok y))
proceed-eq-ok k (f, ok x) h = (x, refl, h)
proceed-eq-ok k (f, err e) h = cc (ap (λ (r : ActionFabric _ × Result ActionFabricError _). r.1) h)

module _ {A : Type 0} (adapter : CapabilityAdapter A) (id : ActionPlanId) where
  find_plan-update_action :
      (index : ℕ) (g : PlannedAction → PlannedAction) (f : ActionFabric A) (p : ActionPlanState)
      (a : PlannedAction)
      → find_plan id f ≡ some p
      → get_elem? p.actions index ≡ some a
      → find_plan id (update_action id index g f).0
        ≡ some (record p { actions = set p.actions index (g a) })
  unfolding update_action find_plan with_plan
  find_plan-update_action index g f p a found current =
      rw (found, update_action)
        (rw (current, update_action) (get-replace_self id _ f.state.plans found))

  find_plan-with_plan :
      (f : ActionFabric A) (p q : ActionPlanState)
      → find_plan id f ≡ some p
      → find_plan id (with_plan id q f) ≡ some q
  unfolding find_plan with_plan
  find_plan-with_plan f p q found = get-replace_self id q f.state.plans found

  rollback_token_of-state :
      (a : PlannedAction) (f : ActionFabric A) → (rollback_token_of adapter id a f).0 ≡ f
  unfolding rollback_token_of
  rollback_token_of-state a f = ground arith

  call_rollback-state :
      (a : PlannedAction) (token : Bytes) (f : ActionFabric A)
      → find_plan id (call_rollback adapter id a token f).0 ≡ find_plan id f
  unfolding call_rollback find_adapter find_plan with_adapter
  call_rollback-state a token f = ground arith

  mark : ℕ → Fab A (Unit {0})
  mark index = update_action id index (λ b. record b { status = ActionStatus.rolled_back }) >>= λ _.
      lift (ok tt)

  revert_with : ℕ → PlannedAction → Bytes → Fab A (Unit {0})
  unfolding mark
  revert_with index a token = call_rollback adapter id a token >> mark index

  revert : ℕ → PlannedAction → Fab A (Unit {0})
  unfolding revert_with
  revert index a = rollback_token_of adapter id a >>= revert_with index a

  rollback_action_skips :
      (index : ℕ) (a : PlannedAction) (f : ActionFabric A)
      → skips_rollback a ≡ true
      → rollback_action adapter id index a f ≡ (f, ok tt)
  unfolding rollback_action
  rollback_action_skips index a f e = rw (e, rollback_action)

  rollback_action_reverts :
      (index : ℕ) (a : PlannedAction) (f : ActionFabric A)
      → skips_rollback a ≡ false
      → rollback_action adapter id index a f ≡ revert index a f
  unfolding rollback_action revert
  rollback_action_reverts index a f e = rw (e, rollback_action)

  find_plan-revert :
      (index : ℕ) (a : PlannedAction) (f g : ActionFabric A) (p : ActionPlanState)
      → revert index a f ≡ (g, ok tt)
      → find_plan id f ≡ some p
      → get_elem? p.actions index ≡ some a
      → find_plan id g
        ≡ some (record p {
          actions = set p.actions index (record a { status = ActionStatus.rolled_back });
        })
  unfolding revert
  find_plan-revert index a f g p h found current =
      let (token, e₁, h₁) =
        proceed-eq-ok (revert_with index a) (rollback_token_of adapter id a f) h in
      let f₁ = (rollback_token_of adapter id a f).0 in
      let (_, e₂, h₂) = proceed-eq-ok (λ _. mark index) (call_rollback adapter id a token f₁) h₁ in
      let f₂ = (call_rollback adapter id a token f₁).0 in
      let (_, e₃, h₃) =
        proceed-eq-ok (λ _. lift (ok tt))
          (update_action id index (λ b. record b { status = ActionStatus.rolled_back }) f₂) h₂ in
      ap (find_plan id)
        (sym (ap (λ (r : ActionFabric A × Result ActionFabricError (Unit {0})). r.0) h₃))
      ∙ find_plan-update_action index (λ b. record b { status = ActionStatus.rolled_back }) f₂ p a
          (call_rollback-state a token f₁ ∙ ap (find_plan id) (rollback_token_of-state a f) ∙ found)
          current

  find_plan-rollback_action :
      (index : ℕ) (a : PlannedAction) (f g : ActionFabric A) (p : ActionPlanState)
      → rollback_action adapter id index a f ≡ (g, ok tt)
      → find_plan id f ≡ some p
      → get_elem? p.actions index ≡ some a
      → find_plan id g ≡ some (record p { actions = set p.actions index (undone a) })
  find_plan-rollback_action index a f g p h found current = elim (Bool-cases (skips_rollback a)) [
    | inl skip ↦
        rw (skip, set_self p.actions index current)
          (ap (find_plan id) (
              sym (
                ap (λ (r : ActionFabric A × Result ActionFabricError (Unit {0})). r.0)
                  (sym (rollback_action_skips index a f skip) ∙ h)))
            ∙ found)
    | inr act ↦ rw act (
        find_plan-revert index a f g p (sym (rollback_action_reverts index a f act) ∙ h) found
          current)
  ]

  -- The loop, from the end of the list to its head.
  find_plan-rollback_actions :
      (before rest : List PlannedAction) (f g : ActionFabric A) (p : ActionPlanState)
      → rollback_actions adapter id (length before) rest f ≡ (g, ok tt)
      → find_plan id f ≡ some p
      → p.actions ≡ before ++ rest
      → find_plan id g ≡ some (record p { actions = before ++ map undone rest })
  unfolding rollback_actions
  find_plan-rollback_actions before [] f g p h found e =
      ap (find_plan id)
        (sym (ap (λ (r : ActionFabric A × Result ActionFabricError (Unit {0})). r.0) h))
      ∙ found
      ∙ ap (λ as'. some (record p { actions = as' })) e
  find_plan-rollback_actions before (a ∷ rest) f g p h found e =
      let (_, e₁, h₁) =
        proceed-eq-ok (λ _. rollback_action adapter id (length before) a)
          (rollback_actions adapter id (suc (length before)) rest f) h in
      let f₁ = (rollback_actions adapter id (suc (length before)) rest f).0 in
      let ih =
        find_plan-rollback_actions (before ++ a ∷ []) rest f f₁ p
          (rw (length-snoc before a) (λ i. (f₁, e₁ i))) found
          (e ∙ sym (append_assoc before (a ∷ []) rest)) in
      find_plan-rollback_action (length before) a f₁ g
        (record p { actions = (before ++ a ∷ []) ++ map undone rest }) h₁ ih
        (rw (append_assoc before (a ∷ []) (map undone rest))
          (get_elem?-append before a (map undone rest)))
      ∙ ap (λ as'. some (record p { actions = as' }))
          (ap (λ xs. set xs (length before) (undone a))
              (append_assoc before (a ∷ []) (map undone rest))
            ∙ set-append before a (undone a) (map undone rest))

  report_rollback-state : (f : ActionFabric A) → (report_rollback adapter id f).0 ≡ f
  unfolding report_rollback
  report_rollback-state f = ground arith

  revert_all : List PlannedAction → Fab A (Unit {0})
  revert_all actions =
      rollback_actions adapter id 0 actions >> finish_plan id ActionPlanStatus.rolled_back

  rollback_plan-revert_all :
      (f : ActionFabric A) (p : ActionPlanState)
      → find_plan id f ≡ some p
      → rollback_plan adapter id f ≡ (revert_all p.actions >> report_rollback adapter id) f
  unfolding rollback_plan revert_all
  rollback_plan-revert_all f p found = rw (found, rollback_plan)

  find_plan-finish_plan :
      (f g : ActionFabric A) (p : ActionPlanState) (status : ActionPlanStatus)
      → find_plan id f ≡ some p
      → (finish_plan id status f).0 ≡ g
      → find_plan id g ≡ some (record p { status = status })
  unfolding finish_plan
  find_plan-finish_plan f g p status found e =
      ap (find_plan id) (
        sym e
        ∙ ap (λ (r : ActionFabric A × Result ActionFabricError (Unit {0})). r.0)
            (set_plan_status_found id status p f found))
      ∙ find_plan-with_plan f p (record p { status = status }) found

  -- When `rollback_plan` succeeds, the plan is rolled back: every action that is neither read-only
  -- nor prepared nor rolled back already is now rolled back, in its place and with its other fields
  -- as they were, and all other actions and the cursor are as they were.
  pub find_plan-rollback_plan :
      (f g : ActionFabric A) (p : ActionPlanState) (report : ActionStepReport)
      → find_plan id f ≡ some p
      → rollback_plan adapter id f ≡ (g, ok report)
      → find_plan id g
        ≡ some (record p { status = ActionPlanStatus.rolled_back; actions = map undone p.actions })
  unfolding revert_all
  find_plan-rollback_plan f g p report found h =
      let (_, e₁, h₁) =
        proceed-eq-ok (λ _. report_rollback adapter id) (revert_all p.actions f)
          (sym (rollback_plan-revert_all f p found) ∙ h) in
      let f₁ = (revert_all p.actions f).0 in
      let (_, e₂, h₂) =
        proceed-eq-ok (λ _. finish_plan id ActionPlanStatus.rolled_back)
          (rollback_actions adapter id 0 p.actions f) {g = f₁} {y = tt} (λ i. (f₁, e₁ i)) in
      let f₂ = (rollback_actions adapter id 0 p.actions f).0 in
      let after = find_plan-rollback_actions [] p.actions f f₂ p (λ i. (f₂, e₂ i)) found refl in
      ap (find_plan id) (
        sym (ap (λ (r : ActionFabric A × Result ActionFabricError ActionStepReport). r.0) h₁)
        ∙ report_rollback-state f₁)
      ∙ find_plan-finish_plan f₂ f₁ (record p { actions = map undone p.actions })
          ActionPlanStatus.rolled_back after
          (ap (λ (r : ActionFabric A × Result ActionFabricError (Unit {0})). r.0) h₂)
