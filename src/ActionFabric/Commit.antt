-- ===== src/ActionFabric/Commit.antt =====
-- What a commit by `execute_next` of the action under the cursor rests on: the verifier.
use ntd.Prelude.{
  ◌≡◌, ◌≢◌, none, set, refl, sym, ap, ◌∙◌, subst, true, false, Option, some, ok, get_elem?,
  get_elem?-set_self, some-injective, nat_ord,
}
use ntd.Prelude.BTreeMap.{get-replace_self}
use ntd.Capability.Descriptor.{CapabilityDescriptor, AuthorityGrant}
use ntd.Capability.Action.{ActionOutput}
use ntd.Capability.Registry.{validate_action}
use ntd.ActionFabric.PlanStatus.{ActionPlanStatus}
use ntd.ActionFabric.Types.{
  ActionFabric, ActionPlanState, PlannedAction, ActionStatus, ActionPlanId, CapabilityAdapter,
  ActionVerifier, accept,
}
use ntd.ActionFabric.Access.{find_plan, with_plan}
use ntd.ActionFabric.Execute.{execute_next, is_final}
use ntd.ActionFabric.Frame.{fabric_at, plan_at}
use ntd.ActionFabric.Move.{
  Move, stalls, errs, suspends, breaks, retries, commits, repeats, rejects, reverts,
}
use ntd.ActionFabric.Safety.{Outcome, unchanged, exhausts, steps, execute_next-Outcome, admit_ok}

-- The output that the verifier accepted is the one that the action holds.
abbrev pub AcceptedOutput :
    {V : Type 0}
    → ActionVerifier V
    → V
    → CapabilityDescriptor
    → PlannedAction
    → PlannedAction
    → Type 0
AcceptedOutput verifier v d a b =
    (output : ActionOutput) × ((verifier.verify v d a.action output).1 ≡ accept)
    × (b.output ≡ some output)

module _ {V : Type 0} (verifier : ActionVerifier V) (v : V) where
  Move-AcceptedOutput :
      {d : CapabilityDescriptor} {a : PlannedAction} {p : ActionPlanState} {b : PlannedAction}
      {s : ActionPlanStatus} {i : _}
      → Move verifier v d a p b s i
      → a.verification_required ≡ true
      → b.status ≡ ActionStatus.committed
      → AcceptedOutput verifier v d a b
  Move-AcceptedOutput stalls asked e = cc
  Move-AcceptedOutput (errs reason) asked e = cc
  Move-AcceptedOutput (suspends token note h) asked e = cc
  Move-AcceptedOutput (breaks note h) asked e = cc
  Move-AcceptedOutput (retries reason token h) asked e = cc
  Move-AcceptedOutput (commits output token h) asked e = (output, h asked, refl)
  Move-AcceptedOutput (repeats output token reason) asked e = cc
  Move-AcceptedOutput (rejects output reason) asked e = cc
  Move-AcceptedOutput (reverts output token reason h) asked e = cc

same : {X : Type 0} {o : Option X} {x y : X} → o ≡ some x → o ≡ some y → x ≡ y
same {x = x} {y = y} h k = some-injective x y (sym h ∙ k)

module _ {A V : Type 0} (adapter : CapabilityAdapter A) (verifier : ActionVerifier V)
    (id : ActionPlanId) (authority : AuthorityGrant) (v : V) (f : ActionFabric A) where
  Outcome-AcceptedOutput :
      {g : ActionFabric A} (p q : ActionPlanState) (a b : PlannedAction)
      → find_plan id f ≡ some p
      → get_elem? p.actions p.cursor ≡ some a
      → a.verification_required ≡ true
      → is_final a.status ≡ false
      → find_plan id g ≡ some q
      → get_elem? q.actions p.cursor ≡ some b
      → b.status ≡ ActionStatus.committed
      → Outcome adapter verifier id authority v f g
      → (d : CapabilityDescriptor) × (validate_action f.registry a.capability a.action ≡ ok d)
        × AcceptedOutput verifier v d a b
  unfolding find_plan with_plan fabric_at
  Outcome-AcceptedOutput p q a b found at asked open' found' at' committed (unchanged e) =
      let pq : q ≡ p = same found' (ap (find_plan id) e ∙ found) in
      let ab : a ≡ b =
        same at (sym (ap (λ (r : ActionPlanState). get_elem? r.actions p.cursor) pq) ∙ at') in
      absurd (stays_open ab)
    where
      stays_open : a ≢ b
      stays_open e' = cc (ap (λ (x : PlannedAction). is_final x.status) e', ap is_final committed)
  Outcome-AcceptedOutput p q a b found at asked open' found' at' committed
        (exhausts p' found″ _ at_end e) =
      let pp : p ≡ p' = same found found″ in
      absurd (
        some-none
          (sym at ∙ (ap (λ (r : ActionPlanState). get_elem? r.actions r.cursor) pp ∙ at_end)))
    where
      some-none : ◌≢◌ {A = Option PlannedAction} (some a) none
      some-none h = cc
  Outcome-AcceptedOutput p q a b found at asked open' found' at' committed
        (steps p' f' a' c' d _ adm m) =
      let pp : p ≡ p' = same found f' in
      let aa : a ≡ a' =
        same at (ap (λ (r : ActionPlanState). get_elem? r.actions r.cursor) pp ∙ c') in
      let qq : q ≡ plan_at p' m.action m.status m.cursor = same found' (
        ap (find_plan id) m.here
        ∙ get-replace_self id (plan_at p' m.action m.status m.cursor) f.state.plans f') in
      let bb : b ≡ m.action = same at' (
        ap (λ (r : ActionPlanState). get_elem? r.actions p.cursor) qq
        ∙ (ap (λ (r : ActionPlanState). get_elem? (set p'.actions p'.cursor m.action) r.cursor) pp
            ∙ get_elem?-set_self p'.actions p'.cursor m.action c')) in
      (
        d,
        subst (λ (x : PlannedAction). validate_action f.registry x.capability x.action ≡ ok d)
            (sym aa) (admit_ok f.registry authority a' d adm).0,
        subst (λ (x : PlannedAction). AcceptedOutput verifier v d x b) (sym aa)
            (subst (λ (x : PlannedAction). AcceptedOutput verifier v d a' x) (sym bb)
              (Move-AcceptedOutput verifier v m.move
                (sym (ap (λ (x : PlannedAction). x.verification_required) aa) ∙ asked)
                (sym (ap (λ (x : PlannedAction). x.status) bb) ∙ committed))),
      )

  -- If an action under the cursor that wants to be verified and is not final has become committed,
  -- the action was one that the registry accepts, the verifier has accepted an output of it, and
  -- that output is the one that the action now holds.
  pub execute_next-AcceptedOutput :
      (p q : ActionPlanState) (a b : PlannedAction)
      → find_plan id f ≡ some p
      → get_elem? p.actions p.cursor ≡ some a
      → a.verification_required ≡ true
      → is_final a.status ≡ false
      → find_plan id (execute_next adapter verifier id authority v f).0.0 ≡ some q
      → get_elem? q.actions p.cursor ≡ some b
      → b.status ≡ ActionStatus.committed
      → (d : CapabilityDescriptor) × (validate_action f.registry a.capability a.action ≡ ok d)
        × AcceptedOutput verifier v d a b
  execute_next-AcceptedOutput p q a b found at asked open' found' at' committed =
      Outcome-AcceptedOutput p q a b found at asked open' found' at' committed
        (execute_next-Outcome adapter verifier id authority v f)
