-- ===== src/ActionFabric/Fresh.antt =====
-- `prepare_plan`: a new plan passes the checks of `validate_fabric_state`, with identifiers that no
-- action has had.
use ntd.Prelude.{
  ℕ, suc, ◌+◌, ◌≤◌, ◌<◌, ◌≡◌, refl, ap, ◌∙◌, subst, false, max, List, [], ◌∷◌, ok, refuse-eq-ok,
  >>=-eq-ok, length, get_elem?, ok-injective, All, arith, nat_ord, ok_or,
}
use ntd.Prelude.BTreeMap
use ntd.Prelude.BTreeMap.{BTreeMap}
use ntd.Prelude.BTreeSet
use ntd.Prelude.BTreeSet.{BTreeSet, contains-insert}
use ntd.Prelude.Words.{checked_add_u64, try_u64}
use ntd.Core.{ActionNode}
use ntd.Capability.Action.{TypedAction}
use ntd.Capability.Registry.{CapabilityRegistry}
use ntd.ActionFabric.PlanStatus.{ready}
use ntd.ActionFabric.Types.{
  ActionPlanState, PlannedAction, ActionFabricError, invalid_state, overflow,
}
use ntd.ActionFabric.Prepare.{ValidatedNode, validate_node, validate_nodes, planned, number_actions}
use ntd.ActionFabric.Validate.{check_action, check_contract, check_position, mismatches_at}
use ntd.ActionFabric.Validity.{ActionsOk, NewIds, added, action_ids, max_of}

le-max_of : (m : ℕ) (xs : List ℕ) → m ≤ max_of m xs
le-max_of m [] = omega arith
le-max_of m (x ∷ xs) = omega (arith, le-max_of (max m x) xs)

-- A number above all of them has not been added.
pub contains-added :
    (i m : ℕ) (seen : BTreeSet ℕ) (xs : List ℕ)
    → max_of m xs < i
    → BTreeSet.contains i seen ≡ false
    → BTreeSet.contains i (added seen xs) ≡ false
contains-added i m seen [] lt h = h
contains-added i m seen (x ∷ xs) lt h =
    contains-added i (max m x) (BTreeSet.insert x seen) xs lt
      (rw (contains-insert x i seen) (ground (arith, le-max_of (max m x) xs)))

module _ (registry : CapabilityRegistry) where
  validate_node-contract :
      (node : ActionNode) (payloads : BTreeMap ℕ TypedAction) {v : ValidatedNode} (id : ℕ)
      → validate_node registry node payloads ≡ ok v
      → check_contract registry (planned id v) ≡ ok tt
  unfolding validate_node check_contract
  validate_node-contract node payloads id h = ground arith

  pub Contracts : List ValidatedNode → Type 0
  Contracts = All (λ v. (id : ℕ) → check_contract registry (planned id v) ≡ ok tt)

  pub validate_nodes-Contracts :
      (seen : BTreeSet ℕ) (payloads : BTreeMap ℕ TypedAction) (nodes : List ActionNode)
      {r : List ValidatedNode × BTreeMap ℕ TypedAction}
      → validate_nodes registry seen payloads nodes ≡ ok r
      → Contracts r.0
  unfolding validate_nodes Contracts
  validate_nodes-Contracts seen payloads [] {r} h =
      subst (λ (s : List ValidatedNode × BTreeMap ℕ TypedAction). Contracts s.0) (ok-injective h) tt
  validate_nodes-Contracts seen payloads (node ∷ rest) {r} h =
      let (_, h₁) = refuse-eq-ok (BTreeSet.contains node.id seen) invalid_state _ h in
      let (v, e, h₂) = >>=-eq-ok (validate_node registry node payloads) _ h₁ in
      let (s, e', h₃) =
        >>=-eq-ok
          (validate_nodes registry (BTreeSet.insert node.id seen) (BTreeMap.remove node.id payloads)
            rest)
          _ h₂ in
      let e₃ : ◌≡◌ {A = List ValidatedNode × BTreeMap ℕ TypedAction} (v ∷ s.0, s.1) r =
        ok-injective h₃ in
      subst (λ (t : List ValidatedNode × BTreeMap ℕ TypedAction). Contracts t.0) e₃
        (
          λ id. validate_node-contract node payloads id e,
          validate_nodes-Contracts (BTreeSet.insert node.id seen) (BTreeMap.remove node.id payloads)
              rest e',
        )

pub try_u64_ok : (n : ℕ) (e : ActionFabricError) {m : ℕ} → ok_or (try_u64 n) e ≡ ok m → m ≡ n
try_u64_ok n e h = ground arith

pub checked_add_ok :
    (a b : ℕ) (e : ActionFabricError) {c : ℕ} → ok_or (checked_add_u64 a b) e ≡ ok c → c ≡ a + b
checked_add_ok a b e h = ground arith

module _ (registry : CapabilityRegistry) where
  -- What the numbered actions look like.
  pub record Numbered (p : ActionPlanState) (first offset : ℕ) (vs : List ValidatedNode)
      (as' : List PlannedAction) : Type 0 where
    pub oks : ActionsOk registry p offset as'
    pub first_open : mismatches_at ready (get_elem? as' 0) ≡ false
    pub sized : length as' ≡ length vs
    pub news :
        (seen : BTreeSet ℕ)
        → ((j : ℕ) → first + offset ≤ j → BTreeSet.contains j seen ≡ false)
        → NewIds seen (action_ids as')
    pub top :
        (m : ℕ)
        → m < first + offset + length vs
        → max_of m (action_ids as') < first + offset + length vs

  planned_position :
      (p : ActionPlanState) (i id : ℕ) (v : ValidatedNode)
      → p.cursor ≡ 0
      → check_position p i (planned id v) ≡ ok tt
  unfolding check_position
  planned_position p i id v c = ground arith

  Numbered-cons :
      (p : ActionPlanState) (first offset id : ℕ) (v : ValidatedNode) (rest : List ValidatedNode)
      (actions : List PlannedAction)
      → id ≡ first + offset
      → p.cursor ≡ 0
      → 0 < first
      → check_contract registry (planned id v) ≡ ok tt
      → Numbered p first (suc offset) rest actions
      → Numbered p first offset (v ∷ rest) (planned id v ∷ actions)
  unfolding check_action
  Numbered-cons p first offset id v rest actions e c pos contract ih = record {
    oks = (rw contract (planned_position p offset id v c), ih.oks);
    first_open = refl;
    sized = ap suc ih.sized;
    news = λ seen k. (
      (let fresh = k id (omega arith) in ground arith),
      ih.news (BTreeSet.insert id seen)
          (λ j le. rw (contains-insert id j seen) (let old = k j (omega arith) in ground arith)),
    );
    top = λ m lt. omega (arith, ih.top (max m id) (omega arith));
  }

  pub number_actions-Numbered :
      (p : ActionPlanState) (first offset : ℕ) (vs : List ValidatedNode) {as' : List PlannedAction}
      → p.cursor ≡ 0
      → 0 < first
      → Contracts registry vs
      → number_actions first offset vs ≡ ok as'
      → Numbered p first offset vs as'
  unfolding number_actions Contracts
  number_actions-Numbered p first offset [] {as'} c pos h e =
      subst (Numbered p first offset []) (ok-injective e)
        (record { oks = tt; first_open = refl; sized = refl; news = λ seen k. tt; top = λ m k. k })
  number_actions-Numbered p first offset (v ∷ rest) {as'} c pos h e =
      let (o, e₁, h₁) = >>=-eq-ok (ok_or (try_u64 offset) overflow) _ e in
      let (id, e₂, h₂) = >>=-eq-ok (ok_or (checked_add_u64 first o) overflow) _ h₁ in
      let (actions, e₃, h₃) = >>=-eq-ok (number_actions first (suc offset) rest) _ h₂ in
      let id_eq : id ≡ first + offset =
        checked_add_ok first o overflow e₂ ∙ ap (λ n. first + n) (try_u64_ok offset overflow e₁) in
      subst (Numbered p first offset (v ∷ rest)) (ok-injective h₃) (
        Numbered-cons p first offset id v rest actions id_eq c pos (h.0 id)
          (number_actions-Numbered p first (suc offset) rest c pos h.1 e₃))
