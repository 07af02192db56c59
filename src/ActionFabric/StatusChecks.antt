-- ===== src/ActionFabric/StatusChecks.antt =====
-- The checks that `validate_fabric_state` makes on the status of a plan, behind a `Move`.
use ntd.Prelude.{
  ℕ, ◌+◌, ◌≤◌, ◌<◌, ◌≡◌, ◌≢◌, refl, subst, true, false, Option, none, some, ok, length, >>-eq-ok,
  length-set, get_elem?, set, all, arith, AllAt-get, get_elem?-set_self, get_elem?-lt,
  le-of-get_elem?, AllAt-mono, get_elem?-set_ne, dec_lt,
}
use ntd.Prelude.Words.{usize_max}
use ntd.Capability.Registry.{CapabilityRegistry}
use ntd.ActionFabric.PlanStatus.{ActionPlanStatus, ready, completed}
use ntd.ActionFabric.Types.{ActionPlanState, PlannedAction, ActionStatus, status_eq}
use ntd.ActionFabric.Access.{advanced}
use ntd.ActionFabric.Execute.{is_terminal}
use ntd.ActionFabric.Frame.{plan_at}
use ntd.ActionFabric.Checks.{all-committed}
use ntd.ActionFabric.Validate.{
  check_action, check_contract, check_position, check_status, mismatches, mismatches_at,
}
use ntd.ActionFabric.Validity.{PlanOk, ActionsOk}

pub check_status_stay :
    (p : ActionPlanState) (a b : PlannedAction) (s : ActionPlanStatus)
    → get_elem? p.actions p.cursor ≡ some a
    → s ≢ completed
    → mismatches s b ≡ false
    → check_status (plan_at p b s p.cursor) ≡ ok tt
unfolding check_status
check_status_stay p a b s current ne h =
    rw (get_elem?-set_self p.actions p.cursor b current) (ground arith)

module _ (p : ActionPlanState) (b : PlannedAction) (room : p.cursor < usize_max) where
  pub advanced_last :
      length p.actions ≤ p.cursor + 1
      → advanced (plan_at p b ready p.cursor) ≡ plan_at p b completed (p.cursor + 1)
  unfolding advanced
  advanced_last h = ground (arith, length-set p.actions p.cursor b)

  pub advanced_next :
      p.cursor + 1 < length p.actions
      → advanced (plan_at p b ready p.cursor) ≡ plan_at p b ready (p.cursor + 1)
  unfolding advanced
  advanced_next h = ground (arith, length-set p.actions p.cursor b)

-- The first action behind the cursor is still open.
next_open :
    (registry : CapabilityRegistry) (p : ActionPlanState) (o : Option PlannedAction)
    → ActionsOk registry p 0 p.actions
    → get_elem? p.actions (p.cursor + 1) ≡ o
    → mismatches_at ready o ≡ false
unfolding check_action check_position
next_open registry p none h e = refl
next_open registry p (some x) h e =
    let checked =
      AllAt-get (λ i a. check_action registry p i a ≡ ok tt) 0 (p.cursor + 1) (p.cursor + 1)
        p.actions h e (omega arith) in
    let (_, place) = >>-eq-ok (check_contract registry x) _ checked in ground arith

check_status_ready :
    (p : ActionPlanState) (b : PlannedAction)
    → mismatches_at ready (get_elem? p.actions (p.cursor + 1)) ≡ false
    → check_status (plan_at p b ready (p.cursor + 1)) ≡ ok tt
unfolding check_status
check_status_ready p b h =
    rw (get_elem?-set_ne p.actions p.cursor (p.cursor + 1) b (λ e. absurd (omega arith))) (rw h)

check_status_completed :
    (p : ActionPlanState) (b : PlannedAction)
    → p.cursor + 1 ≡ length p.actions
    → all (λ a. status_eq a.status ActionStatus.committed) (set p.actions p.cursor b) ≡ true
    → check_status (plan_at p b completed (p.cursor + 1)) ≡ ok tt
unfolding check_status
check_status_completed p b e h = ground (arith, length-set p.actions p.cursor b)

-- The plan behind a commit: completed, with all its actions committed, or ready at the next action.
pub check_status_commit :
    (registry : CapabilityRegistry) (p : ActionPlanState) (a b : PlannedAction)
    → ActionsOk registry p 0 p.actions
    → let q = advanced (plan_at p b ready p.cursor) in
      ActionsOk registry q 0 q.actions
      → get_elem? p.actions p.cursor ≡ some a
      → p.cursor < usize_max
      → check_status q ≡ ok tt
check_status_commit registry p a b before after current room =
    elim (dec_lt (p.cursor + 1) (length p.actions)) [
      | yes more ↦ rw (advanced_next p b room more) (
          check_status_ready p b
            (next_open registry p (get_elem? p.actions (p.cursor + 1)) before refl))
      | no last ↦
          let e : p.cursor + 1 ≡ length p.actions =
            omega (arith, get_elem?-lt p.actions p.cursor current) in
          let done = advanced_last p b room (omega arith) in
          rw done (
            check_status_completed p b e (
              all-committed registry (plan_at p b completed (p.cursor + 1)) 0
                (set p.actions p.cursor b)
                (subst (λ q. ActionsOk registry q 0 q.actions) done after)
                (omega (arith, length-set p.actions p.cursor b)) (λ x. cc)))
    ]

check_position_completed :
    (p : ActionPlanState) (i : ℕ) (x : PlannedAction)
    → is_terminal p.status ≡ false
    → check_position p i x ≡ ok tt
    → check_position (record p { status = completed }) i x ≡ ok tt
unfolding check_position
check_position_completed p i x open' h = ground arith

check_action_completed :
    (registry : CapabilityRegistry) (p : ActionPlanState) (i : ℕ) (x : PlannedAction)
    → is_terminal p.status ≡ false
    → check_action registry p i x ≡ ok tt
    → check_action registry (record p { status = completed }) i x ≡ ok tt
unfolding check_action
check_action_completed registry p i x open' h =
    let (contract, place) = >>-eq-ok (check_contract registry x) _ h in
    rw contract (check_position_completed p i x open' place)

-- A plan whose cursor has run past its actions can be completed.
pub exhausted-PlanOk :
    (registry : CapabilityRegistry) (key : ℕ) (p : ActionPlanState)
    → PlanOk registry key p
    → is_terminal p.status ≡ false
    → get_elem? p.actions p.cursor ≡ none
    → PlanOk registry key (record p { status = completed })
unfolding check_status
exhausted-PlanOk registry key p o open' at_end = record {
  header = o.header;
  actions_ok =
      AllAt-mono 0 0 p.actions (omega arith) o.actions_ok
        (λ i x _ h. check_action_completed registry p i x open' h);
  status_ok = ground (
    arith,
    o.header,
    le-of-get_elem? p.actions p.cursor at_end,
    all-committed registry p 0 p.actions o.actions_ok,
  );
}
