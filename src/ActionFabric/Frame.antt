-- ===== src/ActionFabric/Frame.antt =====
-- The accesses of `Access`, on a fabric in which one action of one plan is at work: each of them
-- yields such a fabric again.
use ntd.Prelude.{
  ℕ, ◌≡◌, refl, sym, ap, ok_or, set_self, ◌∙◌, some, ok, get_elem?, set, get_elem?-set_self,
  set-set, Text, nat_ord, text_ord,
}
use ntd.Prelude.BTreeMap
use ntd.Prelude.BTreeMap.{BTreeMap, replace_self, get-replace_self, replace-replace}
use ntd.Core.{CapabilityId}
use ntd.ActionFabric.PlanStatus.{ActionPlanStatus}
use ntd.ActionFabric.Types.{
  ActionFabric, ActionPlanState, PlannedAction, ActionPlanId, missing_adapter,
}
use ntd.ActionFabric.Access.{
  find_plan, with_plan, update_action, set_plan_status, advance_cursor, advanced, with_adapter,
  find_adapter,
}

-- The plan with another action at the cursor, another status and another cursor.
abbrev pub plan_at : ActionPlanState → PlannedAction → ActionPlanStatus → ℕ → ActionPlanState
plan_at p a status cursor = record p {
  actions = set p.actions p.cursor a;
  status = status;
  cursor = cursor;
}

module _ {A : Type 0} (f : ActionFabric A) (id : ActionPlanId) (p : ActionPlanState) where
  -- The fabric with other adapter states and that plan.
  unfoldable pub fabric_at : BTreeMap Text A → PlannedAction → ActionPlanStatus → ℕ → ActionFabric A
  fabric_at m a status cursor = record f {
    adapters = m;
    state = record f.state {
      plans = BTreeMap.replace id (plan_at p a status cursor) f.state.plans;
    };
  }

  with_plan-fabric_at :
      (m : BTreeMap Text A) (a b : PlannedAction) (s t : ActionPlanStatus) (i j : ℕ)
      → with_plan id (plan_at p b t j) (fabric_at m a s i) ≡ fabric_at m b t j
  unfolding with_plan fabric_at
  with_plan-fabric_at m a b s t i j =
      ap (λ plans. record f { adapters = m; state = record f.state { plans = plans } })
        (replace-replace id (plan_at p a s i) (plan_at p b t j) f.state.plans)

  pub with_adapter-fabric_at :
      (c : CapabilityId) (b : A) (m : BTreeMap Text A) (a : PlannedAction) (s : ActionPlanStatus)
      (i : ℕ)
      → with_adapter c b (fabric_at m a s i) ≡ fabric_at (BTreeMap.replace c b m) a s i
  unfolding with_adapter fabric_at
  with_adapter-fabric_at c b m a s i = refl

  pub find_adapter-fabric_at :
      (c : CapabilityId) (m : BTreeMap Text A) (a : PlannedAction) (s : ActionPlanStatus) (i : ℕ)
      → find_adapter c (fabric_at m a s i)
        ≡ (fabric_at m a s i, ok_or (BTreeMap.get c m) (missing_adapter c))
  unfolding find_adapter fabric_at
  find_adapter-fabric_at c m a s i = refl

  module _ (found : find_plan id f ≡ some p) (a₀ : PlannedAction)
      (current : get_elem? p.actions p.cursor ≡ some a₀) where
    find_plan-fabric_at :
        (m : BTreeMap Text A) (a : PlannedAction) (s : ActionPlanStatus) (i : ℕ)
        → find_plan id (fabric_at m a s i) ≡ some (plan_at p a s i)
    unfolding find_plan fabric_at
    find_plan-fabric_at m a s i = get-replace_self id (plan_at p a s i) f.state.plans found

    -- Before the first write.
    pub fabric_at_start : f ≡ fabric_at f.adapters a₀ p.status p.cursor
    unfolding fabric_at find_plan
    fabric_at_start =
        ap (λ plans. record f { state = record f.state { plans = plans } })
          (sym (
            ap (λ q. BTreeMap.replace id q f.state.plans)
              (ap (λ actions. record p { actions = actions }) (set_self p.actions p.cursor current))
            ∙ replace_self id p f.state.plans found))

    pub update_action-fabric_at :
        (g : PlannedAction → PlannedAction) (m : BTreeMap Text A) (a : PlannedAction)
        (s : ActionPlanStatus)
        → update_action id p.cursor g (fabric_at m a s p.cursor)
          ≡ (fabric_at m (g a) s p.cursor, ok a.id)
    unfolding update_action
    update_action-fabric_at g m a s =
        rw (find_plan-fabric_at m a s p.cursor, update_action)
          (rw (get_elem?-set_self p.actions p.cursor a current, update_action)
            (rw (set-set p.actions p.cursor a (g a))
              (rw (with_plan-fabric_at m a (g a) s s p.cursor p.cursor))))

    pub set_plan_status-fabric_at :
        (t : ActionPlanStatus) (m : BTreeMap Text A) (a : PlannedAction) (s : ActionPlanStatus)
        (i : ℕ)
        → set_plan_status id t (fabric_at m a s i) ≡ (fabric_at m a t i, ok tt)
    unfolding set_plan_status
    set_plan_status-fabric_at t m a s i =
        rw (find_plan-fabric_at m a s i, set_plan_status) (rw (with_plan-fabric_at m a a s t i i))

    pub advance_cursor-fabric_at :
        (m : BTreeMap Text A) (a : PlannedAction) (s : ActionPlanStatus)
        → let q = advanced (plan_at p a s p.cursor) in
          advance_cursor id (fabric_at m a s p.cursor)
          ≡ (fabric_at m a q.status q.cursor, ok (q.cursor, q.status))
    unfolding advance_cursor advanced
    advance_cursor-fabric_at m a s =
        rw (find_plan-fabric_at m a s p.cursor, advance_cursor)
          (rw (
            with_plan-fabric_at m a a s (advanced (plan_at p a s p.cursor)).status p.cursor
              (advanced (plan_at p a s p.cursor)).cursor))
