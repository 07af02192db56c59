-- ===== src/ActionFabric/Validity.antt =====
-- What `validate_fabric_state` accepts, plan by plan and action by action: the reading of its loops
-- with their accumulators.
use ntd.Prelude.{
  ℕ, suc, false, ◌||◌, not, ltb, leb, ◌==◌, ◌≡◌, refl, ◌∙◌, ap, max, List, [], ◌∷◌, ◌++◌, ok,
  refuse-eq-ok, >>-eq-ok, >>=-eq-ok, refuse_ok, sym, subst, length, AllAt, nat_ord, arith,
}
use ntd.Prelude.BTreeMap
use ntd.Prelude.BTreeMap.{BTreeMap}
use ntd.Prelude.BTreeSet
use ntd.Prelude.BTreeSet.{BTreeSet}
use ntd.Capability.Registry.{CapabilityRegistry}
use ntd.ActionFabric.Types.{ActionFabricState, ActionPlanState, PlannedAction}
use ntd.ActionFabric.Validate.{
  check_action, check_actions, check_status, check_plans, reaches, validate_fabric_state,
}

abbrev pub action_ids : List PlannedAction → List ℕ
action_ids [] = []
action_ids (a ∷ rest) = a.id ∷ action_ids rest

abbrev pub all_ids : BTreeMap ℕ ActionPlanState → List ℕ
all_ids [] = []
all_ids ((key, p) ∷ rest) = action_ids p.actions ++ all_ids rest

-- The identifiers are positive, none is in `seen`, and none is repeated.
abbrev pub NewIds : BTreeSet ℕ → List ℕ → Type 0
NewIds seen [] = Unit
NewIds seen (i ∷ is) =
    ((i == 0 || BTreeSet.contains i seen) ≡ false) × NewIds (BTreeSet.insert i seen) is

abbrev pub added : BTreeSet ℕ → List ℕ → BTreeSet ℕ
added seen [] = seen
added seen (i ∷ is) = added (BTreeSet.insert i seen) is

abbrev pub max_of : ℕ → List ℕ → ℕ
max_of m [] = m
max_of m (i ∷ is) = max_of (max m i) is

pub NewIds-append :
    (seen : BTreeSet ℕ) (xs ys : List ℕ)
    → NewIds seen xs
    → NewIds (added seen xs) ys
    → NewIds seen (xs ++ ys)
NewIds-append seen [] ys h k = k
NewIds-append seen (x ∷ xs) ys h k = (h.0, NewIds-append (BTreeSet.insert x seen) xs ys h.1 k)

NewIds-split :
    (seen : BTreeSet ℕ) (xs ys : List ℕ)
    → NewIds seen (xs ++ ys)
    → NewIds seen xs × NewIds (added seen xs) ys
NewIds-split seen [] ys h = (tt, h)
NewIds-split seen (x ∷ xs) ys h =
    let (k, l) = NewIds-split (BTreeSet.insert x seen) xs ys h.1 in ((h.0, k), l)

pub max_of-append : (m : ℕ) (xs ys : List ℕ) → max_of m (xs ++ ys) ≡ max_of (max_of m xs) ys
max_of-append m [] ys = refl
max_of-append m (x ∷ xs) ys = max_of-append (max m x) xs ys

module _ (registry : CapabilityRegistry) where
  abbrev pub ActionsOk : ActionPlanState → ℕ → List PlannedAction → Type 0
  ActionsOk p = AllAt (λ i a. check_action registry p i a ≡ ok tt)

  check_actions_sound :
      (p : ActionPlanState) (i : ℕ) (seen : BTreeSet ℕ) (m : ℕ) (as' : List PlannedAction)
      {r : BTreeSet ℕ × ℕ}
      → check_actions registry p i seen m as' ≡ ok r
      → ActionsOk p i as'
        × NewIds seen (action_ids as')
        × (r ≡ (added seen (action_ids as'), max_of m (action_ids as')))
  unfolding check_actions
  check_actions_sound p i seen m [] h = ground arith
  check_actions_sound p i seen m (a ∷ rest) h =
      let (fresh, h₁) = refuse-eq-ok _ _ _ h in
      let (checked, h₂) = >>-eq-ok (check_action registry p i a) _ h₁ in
      let (oks, news, e) =
        check_actions_sound p (suc i) (BTreeSet.insert a.id seen) (max m a.id) rest h₂ in
      ((checked, oks), (fresh, news), e)

  check_actions_complete :
      (p : ActionPlanState) (i : ℕ) (seen : BTreeSet ℕ) (m : ℕ) (as' : List PlannedAction)
      → ActionsOk p i as'
      → NewIds seen (action_ids as')
      → check_actions registry p i seen m as'
        ≡ ok (added seen (action_ids as'), max_of m (action_ids as'))
  unfolding check_actions
  check_actions_complete p i seen m [] h k = refl
  check_actions_complete p i seen m (a ∷ rest) h k =
      rw (k.0, h.0)
        (check_actions_complete p (suc i) (BTreeSet.insert a.id seen) (max m a.id) rest h.1 k.1)

  -- What the loop over the plans asks of one entry, but for the identifiers of its actions.
  pub record PlanOk (key : ℕ) (p : ActionPlanState) : Type 0 where
    pub header :
        (not (key == p.id) || p.id == 0 || p.task_id == 0 || ltb (length p.actions) p.cursor)
        ≡ false
    pub actions_ok : ActionsOk p 0 p.actions
    pub status_ok : check_status p ≡ ok tt

  abbrev pub PlansOk : BTreeMap ℕ ActionPlanState → Type 0
  PlansOk [] = Unit
  PlansOk ((key, p) ∷ rest) = PlanOk key p × PlansOk rest

  check_plans_sound :
      (seen : BTreeSet ℕ) (m : ℕ) (plans : BTreeMap ℕ ActionPlanState) {n : ℕ}
      → check_plans registry seen m plans ≡ ok n
      → PlansOk plans × NewIds seen (all_ids plans) × (n ≡ max_of m (all_ids plans))
  unfolding check_plans
  check_plans_sound seen m [] h = ground arith
  check_plans_sound seen m ((key, p) ∷ rest) h =
      let (header, h₁) = refuse-eq-ok _ _ _ h in
      let (r, e, h₂) = >>=-eq-ok (check_actions registry p 0 seen m p.actions) _ h₁ in
      let (oks, news, e') = check_actions_sound p 0 seen m p.actions e in
      let (status, h₃) = >>-eq-ok (check_status p) _ h₂ in
      let (plans, more, top) = check_plans_sound r.0 r.1 rest h₃ in
      (
        (record { header = header; actions_ok = oks; status_ok = status }, plans),
        NewIds-append seen (action_ids p.actions) (all_ids rest) news
            (subst (λ (x : BTreeSet ℕ × ℕ). NewIds x.0 (all_ids rest)) e' more),
        top
            ∙ ap (λ (x : BTreeSet ℕ × ℕ). max_of x.1 (all_ids rest)) e'
            ∙ sym (max_of-append m (action_ids p.actions) (all_ids rest)),
      )

  check_plans_complete :
      (seen : BTreeSet ℕ) (m : ℕ) (plans : BTreeMap ℕ ActionPlanState)
      → PlansOk plans
      → NewIds seen (all_ids plans)
      → check_plans registry seen m plans ≡ ok (max_of m (all_ids plans))
  unfolding check_plans
  check_plans_complete seen m [] h k = refl
  check_plans_complete seen m ((key, p) ∷ rest) (o, h) k =
      let (k₁, k₂) = NewIds-split seen (action_ids p.actions) (all_ids rest) k in
      rw (o.header, check_actions_complete p 0 seen m p.actions o.actions_ok k₁, o.status_ok)
        (check_plans_complete (added seen (action_ids p.actions)) (max_of m (action_ids p.actions))
            rest h k₂
          ∙ ap ok (sym (max_of-append m (action_ids p.actions) (all_ids rest))))

  -- What a state has to satisfy, whatever the order of the checks.
  pub record IsValid (s : ActionFabricState) : Type 0 where
    pub positive : (s.next_plan_id == 0 || s.next_action_id == 0) ≡ false
    pub last_below : reaches s.next_plan_id (BTreeMap.last_key s.plans) ≡ false
    pub plans_ok : PlansOk s.plans
    pub ids_new : NewIds [] (all_ids s.plans)
    pub ids_below : leb s.next_action_id (max_of 0 (all_ids s.plans)) ≡ false

  pub validate-IsValid :
      (s : ActionFabricState) → validate_fabric_state registry s ≡ ok tt → IsValid s
  unfolding validate_fabric_state
  validate-IsValid s h =
      let (positive, h₁) = refuse-eq-ok _ _ _ h in
      let (below, h₂) = refuse-eq-ok _ _ _ h₁ in
      let (n, e, h₃) = >>=-eq-ok (check_plans registry [] 0 s.plans) _ h₂ in
      let (plans, ids, top) = check_plans_sound [] 0 s.plans e in
      record {
        positive = positive;
        last_below = below;
        plans_ok = plans;
        ids_new = ids;
        ids_below = subst (λ k. leb s.next_action_id k ≡ false) top (refuse_ok _ _ h₃);
      }

  pub IsValid-validate :
      (s : ActionFabricState) → IsValid s → validate_fabric_state registry s ≡ ok tt
  unfolding validate_fabric_state
  IsValid-validate s v =
      rw (v.positive, v.last_below, check_plans_complete [] 0 s.plans v.plans_ok v.ids_new)
        (rw v.ids_below)
