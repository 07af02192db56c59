-- ===== src/Executor.antt =====
-- crates/ntd-runtime/src/executor.rs: the execution of a validated graph on a tensor provider, with
-- inputs resolved on demand and values dropped after their last use. Tensors, the provider and the
-- resolver are parameters: the executor reads of a tensor only its rank.
pub mod Uses
pub mod Values
pub mod Missing
pub mod Liveness
pub mod Complete
mod Tests
use ntd.Prelude.{
  ℕ, ◌+◌, ◌-◌, ◌^◌, ◌&&◌, not, ◌==◌, Option, none, some, List, [], ◌∷◌, Result, ok, err, ◌>>=◌,
  ◌>>◌, map_err, ok_or, refuse, length, nat_ord, if◌then◌else◌,
}
use ntd.Prelude.BTreeMap
use ntd.Prelude.BTreeMap.{BTreeMap}
use ntd.Prelude.BTreeSet
use ntd.Prelude.BTreeSet.{BTreeSet}
use ntd.Ir.{
  NodeId, ValueId, ValueDecl, scalar, tensor, bytes, handle, TensorOp, tensor_op, state_op,
  memory_op, control_op, tool_op, Node, Graph, ValidationError, validate,
}

-- `TensorError` of tensor.rs is a parameter.
pub data TensorResolveError : Type 0 where
  unavailable invalid : TensorResolveError

pub data ExecutionError (TensorError : Type 0) : Type 0 where
  invalid_graph : ValidationError → ExecutionError TensorError
  missing_graph_input : ValueId → ExecutionError TensorError
  missing_value : (node : NodeId) (value : ValueId) → ExecutionError TensorError
  unsupported_node : NodeId → ExecutionError TensorError
  provider_error : (node : NodeId) (source : TensorError) → ExecutionError TensorError
  output_arity : (node : NodeId) (expected actual : ℕ) → ExecutionError TensorError
  output_type : (node : NodeId) (value : ValueId) → ExecutionError TensorError
  output_rank : (node : NodeId) (value : ValueId) (expected actual : ℕ) → ExecutionError TensorError
  resolve_error : (value : ValueId) (source : TensorResolveError) → ExecutionError TensorError

-- `NodeId(u32::MAX)`
abbrev pub no_node : NodeId
no_node = 2 ^ 32 - 1

-- What the executor uses of tensor.rs: `Tensor::rank`, `ExecutionProvider::execute`, and of the
-- trait `TensorResolver`.
pub record Backend (Tensor TensorError : Type 0) : Type 0 where
  pub rank : Tensor → ℕ
  pub execute : TensorOp → List Tensor → Result TensorError (List Tensor)
  pub resolve : ValueId → Result TensorResolveError (Option Tensor)

-- `iter().map(|decl| (decl.id, *decl)).collect()`: a later declaration replaces an earlier one.
unfoldable pub collect_decls :
    BTreeMap ValueId ValueDecl → List ValueDecl → BTreeMap ValueId ValueDecl
collect_decls m [] = m
collect_decls m (decl ∷ rest) = collect_decls (BTreeMap.insert decl.id decl m) rest

unfoldable pub collect_ids : BTreeSet ValueId → List ValueId → BTreeSet ValueId
collect_ids s [] = s
collect_ids s (v ∷ rest) = collect_ids (BTreeSet.insert v s) rest

abbrev pub count_of : Option ℕ → ℕ
count_of none = 0
count_of (some n) = n

-- `remaining_uses.get(v)`, 0 when it is missing.
unfoldable pub uses_of : ValueId → BTreeMap ValueId ℕ → ℕ
uses_of v m = count_of (BTreeMap.get v m)

unfoldable pub count_inputs : BTreeMap ValueId ℕ → List ValueId → BTreeMap ValueId ℕ
unfolding uses_of
count_inputs m [] = m
count_inputs m (v ∷ rest) = count_inputs (BTreeMap.insert v (uses_of v m + 1) m) rest

unfoldable pub count_uses : BTreeMap ValueId ℕ → List Node → BTreeMap ValueId ℕ
unfolding count_inputs
count_uses m [] = m
count_uses m (node ∷ rest) = count_uses (count_inputs m node.inputs) rest

module _ {Tensor : Type 0} where
  -- One use of a value is over.
  unfoldable pub release :
      BTreeSet ValueId
      → ValueId
      → BTreeMap ValueId Tensor × BTreeMap ValueId ℕ
      → BTreeMap ValueId Tensor × BTreeMap ValueId ℕ
  release output_ids v (values, remaining) = elim (BTreeMap.get v remaining) [
    | none ↦ (values, remaining)
    | some n ↦ (
      if n - 1 == 0 && not (BTreeSet.contains v output_ids)
          then BTreeMap.remove v values
          else values,
      BTreeMap.replace v (n - 1) remaining,
    )
  ]

  unfoldable pub release_all :
      BTreeSet ValueId
      → List ValueId
      → BTreeMap ValueId Tensor × BTreeMap ValueId ℕ
      → BTreeMap ValueId Tensor × BTreeMap ValueId ℕ
  unfolding release
  release_all output_ids [] s = s
  release_all output_ids (v ∷ rest) s = release_all output_ids rest (release output_ids v s)

module _ {Tensor TensorError : Type 0} where
  -- `node_inputs`, and the values returned at the end.
  unfoldable pub gather :
      NodeId
      → List ValueId
      → BTreeMap ValueId Tensor
      → Result (ExecutionError TensorError) (List Tensor)
  gather node [] values = ok []
  gather node (v ∷ rest) values = do
    t ← ok_or (BTreeMap.get v values) (missing_value node v)
    ts ← gather node rest values
    ok (t ∷ ts)

module _ {Tensor TensorError : Type 0} (backend : Backend Tensor TensorError) where
  check_rank : NodeId → ValueId → ℕ → ℕ → Result (ExecutionError TensorError) (Unit {0})
  check_rank node value expected actual =
      refuse (not (actual == expected)) (output_rank node value expected actual)

  unfoldable pub validate_decl :
      NodeId → ValueDecl → Tensor → Result (ExecutionError TensorError) (Unit {0})
  unfolding check_rank
  validate_decl node decl t = elim decl.ty [
    | scalar _ ↦ check_rank node decl.id 0 (backend.rank t)
    | tensor _ rank ↦ check_rank node decl.id rank (backend.rank t)
    | bytes ↦ err (output_type node decl.id)
    | handle ↦ err (output_type node decl.id)
  ]

  -- The loop over the inputs given: those that the graph does not declare are passed over.
  unfoldable pub load_inputs :
      BTreeMap ValueId ValueDecl
      → BTreeMap ValueId Tensor
      → BTreeMap ValueId Tensor
      → Result (ExecutionError TensorError) (BTreeMap ValueId Tensor)
  load_inputs decls values [] = ok values
  load_inputs decls values ((v, t) ∷ rest) = elim (BTreeMap.get v decls) [
    | none ↦ load_inputs decls values rest
    | some decl ↦ do
      validate_decl no_node decl t
      load_inputs decls (BTreeMap.insert v t values) rest
  ]

  -- An input that is not there yet is resolved.
  unfoldable pub resolve_input :
      BTreeMap ValueId ValueDecl
      → NodeId
      → ValueId
      → BTreeMap ValueId Tensor
      → Result (ExecutionError TensorError) (BTreeMap ValueId Tensor)
  resolve_input decls node v values = if BTreeMap.contains_key v values then ok values else do
    decl ← ok_or (BTreeMap.get v decls) (missing_value node v)
    found ← map_err (resolve_error v) (backend.resolve v)
    t ← ok_or found (missing_graph_input v)
    validate_decl no_node decl t
    ok (BTreeMap.insert v t values)

  unfoldable pub resolve_inputs :
      BTreeMap ValueId ValueDecl
      → NodeId
      → List ValueId
      → BTreeMap ValueId Tensor
      → Result (ExecutionError TensorError) (BTreeMap ValueId Tensor)
  unfolding resolve_input
  resolve_inputs decls node [] values = ok values
  resolve_inputs decls node (v ∷ rest) values = do
    values' ← resolve_input decls node v values
    resolve_inputs decls node rest values'

  -- `node.outputs.iter().zip(outputs)`
  unfoldable pub store_outputs :
      NodeId
      → List ValueDecl
      → List Tensor
      → BTreeMap ValueId Tensor
      → Result (ExecutionError TensorError) (BTreeMap ValueId Tensor)
  unfolding validate_decl
  store_outputs node (decl ∷ decls) (t ∷ ts) values = do
    validate_decl node decl t
    store_outputs node decls ts (BTreeMap.insert decl.id t values)
  store_outputs node _ _ values = ok values

  abbrev pub tensor_of : Node → Result (ExecutionError TensorError) TensorOp
  tensor_of node = elim node.op [
    | tensor_op op ↦ ok op
    | state_op _ ↦ err (unsupported_node node.id)
    | memory_op _ ↦ err (unsupported_node node.id)
    | control_op _ ↦ err (unsupported_node node.id)
    | tool_op _ ↦ err (unsupported_node node.id)
  ]

  unfoldable pub run_node :
      BTreeMap ValueId ValueDecl
      → BTreeSet ValueId
      → Node
      → BTreeMap ValueId Tensor × BTreeMap ValueId ℕ
      → Result (ExecutionError TensorError) (BTreeMap ValueId Tensor × BTreeMap ValueId ℕ)
  unfolding resolve_inputs gather release_all store_outputs
  run_node decls output_ids node (values, remaining) = do
    op ← tensor_of node
    resolved ← resolve_inputs decls node.id node.inputs values
    node_inputs ← gather node.id node.inputs resolved
    outputs ← map_err (provider_error node.id) (backend.execute op node_inputs)
    refuse (not (length outputs == length node.outputs))
        (output_arity node.id (length node.outputs) (length outputs))
    let released = release_all output_ids node.inputs (resolved, remaining)
    stored ← store_outputs node.id node.outputs outputs released.0
    ok (stored, released.1)

  unfoldable pub run_nodes :
      BTreeMap ValueId ValueDecl
      → BTreeSet ValueId
      → List Node
      → BTreeMap ValueId Tensor × BTreeMap ValueId ℕ
      → Result (ExecutionError TensorError) (BTreeMap ValueId Tensor × BTreeMap ValueId ℕ)
  unfolding run_node
  run_nodes decls output_ids [] s = ok s
  run_nodes decls output_ids (node ∷ rest) s = do
    s' ← run_node decls output_ids node s
    run_nodes decls output_ids rest s'

  unfoldable pub execute_with_resolver :
      Graph → BTreeMap ValueId Tensor → Result (ExecutionError TensorError) (List Tensor)
  unfolding validate collect_decls collect_ids count_uses load_inputs run_nodes gather
  execute_with_resolver g inputs = do
    map_err invalid_graph (validate g)
    let decls = collect_decls [] g.inputs
    values ← load_inputs decls [] inputs
    s ← run_nodes decls (collect_ids [] g.outputs) g.nodes (values, count_uses [] g.nodes)
    gather no_node g.outputs s.0
