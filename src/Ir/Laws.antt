-- ===== src/Ir/Laws.antt =====
-- What the loops of `Graph::validate` have established when they succeed.
use ntd.Prelude.{
  ◌≡◌, refl, sym, ◌∙◌, ap, subst, Bool, true, false, ◌||◌, not, List, [], ◌∷◌, ◌++◌, ok,
  refuse-eq-ok, >>=-eq-ok, >>-eq-ok, ok-injective, All, nat_ord, arith, ◌==◌,
}
use ntd.Prelude.BTreeSet
use ntd.Prelude.BTreeSet.{BTreeSet, contains-insert}
use ntd.Ir.{
  Node, Graph, check_nodes, duplicate_node_id, validate, can_read, current_version,
  unsupported_version, ValueId, ValueDecl, NodeId, declare, check_inputs, check_outputs,
  duplicate_value, missing_input, missing_graph_output,
}

abbrev pub declares : ValueId → List ValueDecl → Bool
declares v [] = false
declares v (decl ∷ rest) = v == decl.id || declares v rest

pub contains-declare :
    (v : ValueId) (values : BTreeSet ValueId) (decls : List ValueDecl) {after : BTreeSet ValueId}
    → declare values decls ≡ ok after
    → BTreeSet.contains v after ≡ (declares v decls || BTreeSet.contains v values)
unfolding declare
contains-declare v values [] h = ap (BTreeSet.contains v) (sym (ok-injective h))
contains-declare v values (decl ∷ rest) h =
    let (_, h₁) = refuse-eq-ok (BTreeSet.contains decl.id values) (duplicate_value decl.id) _ h in
    contains-declare v (BTreeSet.insert decl.id values) rest h₁
    ∙ rw (contains-insert decl.id v values) (ground arith)

pub check_inputs-All :
    (node : NodeId) (values : BTreeSet ValueId) (inputs : List ValueId)
    → check_inputs node values inputs ≡ ok tt
    → All (λ v. BTreeSet.contains v values ≡ true) inputs
unfolding check_inputs
check_inputs-All node values [] h = tt
check_inputs-All node values (v ∷ rest) h =
    let (e, h₁) = refuse-eq-ok (not (BTreeSet.contains v values)) (missing_input node v) _ h in
    (ground arith, check_inputs-All node values rest h₁)

pub check_outputs-All :
    (values : BTreeSet ValueId) (outputs : List ValueId)
    → check_outputs values outputs ≡ ok tt
    → All (λ v. BTreeSet.contains v values ≡ true) outputs
unfolding check_outputs
check_outputs-All values [] h = tt
check_outputs-All values (v ∷ rest) h =
    let (e, h₁) = refuse-eq-ok (not (BTreeSet.contains v values)) (missing_graph_output v) _ h in
    (ground arith, check_outputs-All values rest h₁)

-- A node of the list declares the value.
abbrev pub outputs_declare : ValueId → List Node → Bool
outputs_declare v [] = false
outputs_declare v (node ∷ rest) = declares v node.outputs || outputs_declare v rest

widen :
    (ns : List Node) (n : Node) (seen seen' : BTreeSet ValueId) (vs : List ValueId)
    → declare seen n.outputs ≡ ok seen'
    → All (λ v. (outputs_declare v ns || BTreeSet.contains v seen') ≡ true) vs
    → All (λ v. (outputs_declare v (n ∷ ns) || BTreeSet.contains v seen) ≡ true) vs
widen ns n seen seen' [] d h = tt
widen ns n seen seen' (v ∷ vs) d h = (
  moved (outputs_declare v ns) (declares v n.outputs) (BTreeSet.contains v seen)
      (subst (λ c. (outputs_declare v ns || c) ≡ true) (contains-declare v seen n.outputs d) h.0),
  widen ns n seen seen' vs d h.1,
)
  where
    moved : (a b c : Bool) → (a || (b || c)) ≡ true → ((b || a) || c) ≡ true
    moved a b c h = ground arith

check_nodes-declared :
    (ids : BTreeSet NodeId) (seen : BTreeSet ValueId) (before : List Node) (node : Node)
    (after : List Node) {last : BTreeSet ValueId}
    → check_nodes ids seen (before ++ node ∷ after) ≡ ok last
    → All (λ v. (outputs_declare v before || BTreeSet.contains v seen) ≡ true) node.inputs
unfolding check_nodes
check_nodes-declared ids seen [] node after h =
    let (_, h₁) = refuse-eq-ok (BTreeSet.contains node.id ids) (duplicate_node_id node.id) _ h in
    let (inputs, _) = >>-eq-ok (check_inputs node.id seen node.inputs) _ h₁ in
    check_inputs-All node.id seen node.inputs inputs
check_nodes-declared ids seen (n ∷ ns) node after h =
    let (_, h₁) = refuse-eq-ok (BTreeSet.contains n.id ids) (duplicate_node_id n.id) _ h in
    let (_, h₂) = >>-eq-ok (check_inputs n.id seen n.inputs) _ h₁ in
    let (seen', declared, h₃) = >>=-eq-ok (declare seen n.outputs) _ h₂ in
    widen ns n seen seen' node.inputs declared
      (check_nodes-declared (BTreeSet.insert n.id ids) seen' ns node after h₃)

-- In a graph that `validate` accepts, every input of a node is declared by an input of the graph or
-- by an output of a node that stands before it.
pub validate-declared :
    (g : Graph) (before : List Node) (node : Node) (after : List Node)
    → validate g ≡ ok tt
    → g.nodes ≡ before ++ node ∷ after
    → All (λ v. (outputs_declare v before || declares v g.inputs) ≡ true) node.inputs
unfolding validate BTreeSet.contains
validate-declared g before node after h e =
    let (_, h₁) =
      refuse-eq-ok (not (can_read current_version g.version)) (unsupported_version g.version) _ h in
    let (first, e₁, h₂) = >>=-eq-ok (declare [] g.inputs) _ h₁ in
    let (last, e₂, _) = >>=-eq-ok (check_nodes [] first g.nodes) _ h₂ in
    narrow node.inputs first e₁ (check_nodes-declared [] first before node after (rw e at e₂))
  where
    narrow :
        (vs : List ValueId) (first : BTreeSet ValueId)
        → declare [] g.inputs ≡ ok first
        → All (λ v. (outputs_declare v before || BTreeSet.contains v first) ≡ true) vs
        → All (λ v. (outputs_declare v before || declares v g.inputs) ≡ true) vs
    narrow [] first d k = tt
    narrow (v ∷ vs) first d k = (
      subst (λ c. (outputs_declare v before || c) ≡ true)
          (contains-declare v [] g.inputs d ∙ or_false (declares v g.inputs)) k.0,
      narrow vs first d k.1,
    )
      where
        or_false : (b : Bool) → (b || false) ≡ b
        or_false true = refl
        or_false false = refl
