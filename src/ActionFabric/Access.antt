-- ===== src/ActionFabric/Access.antt =====
-- crates/ntd-runtime/src/action_fabric.rs: reading and writing a plan in the fabric's state
-- (`action_mut`, `set_plan_status`, `finish_plan`, `advance_cursor`), and the sequencing of such
-- accesses: an error ends a method and leaves what it has already written.
use ntd.Prelude.{
  ℕ, ◌≡◌, leb, Option, none, some, Result, ok, err, ok_or, get_elem?, set, length, if◌then◌else◌,
  nat_ord, text_ord,
}
use ntd.Prelude.BTreeMap
use ntd.Prelude.Words.{saturating_add_usize}
use ntd.Core.{CapabilityId}
use ntd.ActionFabric.PlanStatus.{ActionPlanStatus}
use ntd.ActionFabric.Types.{
  ActionFabric, ActionPlanState, PlannedAction, ActionId, ActionPlanId, ActionFabricError,
  missing_plan, missing_adapter, invalid_state,
}

-- A method that changes the fabric and may fail.
abbrev pub Fab : Type 0 → Type 0 → Type 0
Fab A X = ActionFabric A → ActionFabric A × Result ActionFabricError X

abbrev pub proceed :
    {A X Y : Type 0}
    → (X → Fab A Y)
    → ActionFabric A × Result ActionFabricError X
    → ActionFabric A × Result ActionFabricError Y
proceed k (f, ok x) = k x f
proceed k (f, err e) = (f, err e)

infixl 5 ◌>>=◌ ◌>>◌
abbrev pub ◌>>=◌ : {A X Y : Type 0} → Fab A X → (X → Fab A Y) → Fab A Y
◌>>=◌ m k f = proceed k (m f)

abbrev pub ◌>>◌ : {A Y : Type 0} → Fab A (Unit {0}) → Fab A Y → Fab A Y
m >> k = m >>= λ _. k

abbrev pub lift : {A X : Type 0} → Result ActionFabricError X → Fab A X
lift r f = (f, r)

unfoldable pub advanced : ActionPlanState → ActionPlanState
advanced p =
    let cursor = saturating_add_usize p.cursor 1 in
    record p {
      cursor = cursor;
      status =
          if leb (length p.actions) cursor
          then ActionPlanStatus.completed
          else ActionPlanStatus.ready;
    }

module _ {A : Type 0} where
  -- The fabric with another plan under a key that it has.
  unfoldable pub with_plan : ActionPlanId → ActionPlanState → ActionFabric A → ActionFabric A
  with_plan id p f = record f {
    state = record f.state { plans = BTreeMap.replace id p f.state.plans };
  }

  unfoldable pub find_plan : ActionPlanId → ActionFabric A → Option ActionPlanState
  find_plan id f = BTreeMap.get id f.state.plans

  -- `let action = self.action_mut(id, index)?; ...; action.id`, the assignments being `g`.
  unfoldable pub update_action : ActionPlanId → ℕ → (PlannedAction → PlannedAction) → Fab A ActionId
  unfolding find_plan with_plan
  update_action id index g f = elim (find_plan id f) [
    | none ↦ (f, err (missing_plan id))
    | some p ↦ elim (get_elem? p.actions index) [
      | none ↦ (f, err invalid_state)
      | some a ↦ (with_plan id (record p { actions = set p.actions index (g a) }) f, ok a.id)
    ]
  ]

  unfoldable pub set_plan_status : ActionPlanId → ActionPlanStatus → Fab A (Unit {0})
  unfolding find_plan with_plan
  set_plan_status id status f = elim (find_plan id f) [
    | none ↦ (f, err (missing_plan id))
    | some p ↦ (with_plan id (record p { status = status }) f, ok tt)
  ]

  unfoldable pub finish_plan : ActionPlanId → ActionPlanStatus → Fab A (Unit {0})
  unfolding set_plan_status
  finish_plan id status = set_plan_status id status

  unfoldable pub advance_cursor : ActionPlanId → Fab A (ℕ × ActionPlanStatus)
  unfolding find_plan with_plan advanced
  advance_cursor id f = elim (find_plan id f) [
    | none ↦ (f, err (missing_plan id))
    | some p ↦ (with_plan id (advanced p) f, ok ((advanced p).cursor, (advanced p).status))
  ]

  unfoldable pub with_adapter : CapabilityId → A → ActionFabric A → ActionFabric A
  with_adapter c a f = record f { adapters = BTreeMap.replace c a f.adapters }

  unfoldable pub find_adapter : CapabilityId → Fab A A
  find_adapter c f = (f, ok_or (BTreeMap.get c f.adapters) (missing_adapter c))

  pub set_plan_status_found :
      (id : ActionPlanId) (status : ActionPlanStatus) (p : ActionPlanState) (f : ActionFabric A)
      → find_plan id f ≡ some p
      → set_plan_status id status f ≡ (with_plan id (record p { status = status }) f, ok tt)
  unfolding set_plan_status
  set_plan_status_found id status p f h = rw (h, set_plan_status)
