-- ===== src/Executor/Tests.antt =====
-- A graph of one addition on a provider that adds numbers, on which the theorems about graphs are
-- applied.
use ntd.Prelude.{
  ℕ, ◌+◌, ◌≡◌, refl, true, ◌||◌, Option, none, some, List, [], ◌∷◌, Result, ok, err, All, inl, inr,
}
use ntd.Ir.{Graph, Node, scalar, f32, tensor_op, add, current_version, validate}
use ntd.Ir.Laws.{declares, outputs_declare, validate-declared}
use ntd.Executor.{Backend, execute_with_resolver}
use ntd.Executor.Uses.{Present}
use ntd.Executor.Missing.{NotMissing}
use ntd.Executor.Complete.{execute_with_resolver-NotMissing}

abbrev adding_node : Node
adding_node = record {
  id = 1;
  op = tensor_op add;
  inputs = 1 ∷ 2 ∷ [];
  outputs = record { id = 3; ty = scalar f32 } ∷ [];
}

abbrev adding_graph : Graph
adding_graph = record {
  version = current_version;
  inputs = record { id = 1; ty = scalar f32 } ∷ record { id = 2; ty = scalar f32 } ∷ [];
  outputs = 3 ∷ 1 ∷ [];
  nodes = adding_node ∷ [];
}

abbrev sum : List ℕ → ℕ
sum [] = 0
sum (x ∷ xs) = x + sum xs

-- Every tensor is a scalar; the resolver knows every value to be 5.
abbrev adding : Backend ℕ (Unit {0})
adding = record { rank = λ t. 0; execute = λ op ts. ok (sum ts ∷ []); resolve = λ v. ok (some 5) }

adding_graph_runs : execute_with_resolver adding adding_graph ((1, 4) ∷ []) ≡ ok (9 ∷ 4 ∷ [])
unfolding execute_with_resolver ntd.Prelude.BTreeSet.contains ntd.Prelude.BTreeSet.insert
    ntd.Prelude.BTreeMap.get ntd.Prelude.BTreeMap.insert ntd.Prelude.BTreeMap.contains_key
    ntd.Prelude.BTreeMap.replace ntd.Prelude.BTreeMap.remove
adding_graph_runs = refl

one_given : Present {Tensor = ℕ} 1 ((1, 4) ∷ [])
unfolding ntd.Prelude.BTreeMap.contains_key ntd.Prelude.BTreeMap.get
one_given = refl

execute_with_resolver-NotMissing_example :
    NotMissing (execute_with_resolver adding adding_graph ((1, 4) ∷ []))
execute_with_resolver-NotMissing_example =
    execute_with_resolver-NotMissing adding adding_graph ((1, 4) ∷ [])
      (inl refl, (inr one_given, tt))

adding_graph_valid : validate adding_graph ≡ ok tt
unfolding validate ntd.Prelude.BTreeSet.contains ntd.Prelude.BTreeSet.insert
adding_graph_valid = refl

validate-declared_example :
    All (λ v. (outputs_declare v [] || declares v adding_graph.inputs) ≡ true) adding_node.inputs
validate-declared_example = validate-declared adding_graph [] adding_node [] adding_graph_valid refl
