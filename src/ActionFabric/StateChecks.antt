-- ===== src/ActionFabric/StateChecks.antt =====
-- The checks of `validate_fabric_state` on a state in which one plan is replaced.
use ntd.Prelude.{
  ℕ, zero, suc, ◌≡◌, refl, sym, ap, ◌∙◌, ◌++◌, ==_iff, some-injective, nat_ord, if◌then◌else◌,
  subst, subst₂, inl, inr, true, false, leb, ◌==◌, Option, some, List, [], ◌∷◌, get_elem?, set,
  arith, Bool-cases,
}
use ntd.Prelude.BTreeMap
use ntd.Prelude.BTreeMap.{BTreeMap}
use ntd.Capability.Registry.{CapabilityRegistry}
use ntd.ActionFabric.Types.{ActionPlanState, ActionFabricState, PlannedAction}
use ntd.ActionFabric.Validity.{PlanOk, PlansOk, IsValid, NewIds, action_ids, all_ids, max_of}

pub action_ids-set :
    (xs : List PlannedAction) (k : ℕ) {a : PlannedAction} (b : PlannedAction)
    → get_elem? xs k ≡ some a
    → b.id ≡ a.id
    → action_ids (set xs k b) ≡ action_ids xs
action_ids-set [] k b h e = refl
action_ids-set (x ∷ xs) zero {a} b h e =
    ap (λ i. i ∷ action_ids xs) (e ∙ ap (λ (y : PlannedAction). y.id) (sym (some-injective x a h)))
action_ids-set (x ∷ xs) (suc k) b h e = ap (λ is. x.id ∷ is) (action_ids-set xs k b h e)

found_here :
    (id key : ℕ) (p r : ActionPlanState) (o : Option ActionPlanState)
    → (id == key) ≡ true
    → (if id == key then some r else o) ≡ some p
    → r ≡ p
found_here id key p r o y h = some-injective r p (rw y at h)

all_ids-replace :
    (id : ℕ) (p q : ActionPlanState) (plans : BTreeMap ℕ ActionPlanState)
    → BTreeMap.get id plans ≡ some p
    → action_ids q.actions ≡ action_ids p.actions
    → all_ids (BTreeMap.replace id q plans) ≡ all_ids plans
unfolding BTreeMap.get BTreeMap.replace
all_ids-replace id p q [] h e = refl
all_ids-replace id p q ((key, r) ∷ rest) h e = elim (Bool-cases (id == key)) [
  | inl y ↦ rw y (
      ap (λ is. is ++ all_ids rest)
        (e
          ∙ ap (λ (z : ActionPlanState). action_ids z.actions)
              (sym (found_here id key p r (BTreeMap.get id rest) y h))))
  | inr n ↦
      rw n (ap (λ is. action_ids r.actions ++ is) (all_ids-replace id p q rest (ground arith) e))
]

module _ (registry : CapabilityRegistry) where
  get-PlansOk :
      (id : ℕ) (p : ActionPlanState) (plans : BTreeMap ℕ ActionPlanState)
      → PlansOk registry plans
      → BTreeMap.get id plans ≡ some p
      → PlanOk registry id p
  unfolding BTreeMap.get
  get-PlansOk id p [] h e = cc
  get-PlansOk id p ((key, r) ∷ rest) h e = elim (Bool-cases (id == key)) [
    | inl y ↦ subst₂ (PlanOk registry) (sym ((==_iff id key).0 y)) (ground arith) h.0
    | inr n ↦ get-PlansOk id p rest h.1 (ground arith)
  ]

  replace-PlansOk :
      (id : ℕ) (q : ActionPlanState) (plans : BTreeMap ℕ ActionPlanState)
      → PlansOk registry plans
      → PlanOk registry id q
      → PlansOk registry (BTreeMap.replace id q plans)
  unfolding BTreeMap.replace
  replace-PlansOk id q [] h o = tt
  replace-PlansOk id q ((key, r) ∷ rest) h o = elim (Bool-cases (id == key)) [
    | inl y ↦ rw y (subst (λ k. PlanOk registry k q) ((==_iff id key).0 y) o, h.1)
    | inr n ↦ rw n (h.0, replace-PlansOk id q rest h.1 o)
  ]

  -- A state with another plan under a key that it has.
  pub replace-IsValid :
      (s : ActionFabricState) (id : ℕ) (p q : ActionPlanState)
      → IsValid registry s
      → BTreeMap.get id s.plans ≡ some p
      → PlanOk registry id q
      → action_ids q.actions ≡ action_ids p.actions
      → IsValid registry (record s { plans = BTreeMap.replace id q s.plans })
  replace-IsValid s id p q v found o e = record {
    positive = v.positive;
    last_below = rw (BTreeMap.last_key-replace id q s.plans) v.last_below;
    plans_ok = replace-PlansOk id q s.plans v.plans_ok o;
    ids_new = subst (NewIds []) (sym (all_ids-replace id p q s.plans found e)) v.ids_new;
    ids_below =
        subst (λ is. leb s.next_action_id (max_of 0 is) ≡ false)
          (sym (all_ids-replace id p q s.plans found e)) v.ids_below;
  }

  pub found-PlanOk :
      (s : ActionFabricState) (id : ℕ) (p : ActionPlanState)
      → IsValid registry s
      → BTreeMap.get id s.plans ≡ some p
      → PlanOk registry id p
  found-PlanOk s id p v e = get-PlansOk id p s.plans v.plans_ok e
