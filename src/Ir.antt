-- ===== src/Ir.antt =====
-- crates/ntd-ir/src/lib.rs: the graph representation of a computation and its validation.
pub mod Laws
use ntd.Prelude.{
  ℕ, Text, Bool, ◌&&◌, not, leb, ◌==◌, List, [], ◌∷◌, Result, ok, err, ◌>>=◌, ◌>>◌, refuse, nat_ord,
  if◌then◌else◌,
}
use ntd.Prelude.BTreeSet
use ntd.Prelude.BTreeSet.{BTreeSet}

pub record IrVersion : Type 0 where
  pub major : ℕ
  pub minor : ℕ

abbrev pub current_version : IrVersion
current_version = record { major = 0; minor = 4 }

unfoldable pub can_read : IrVersion → IrVersion → Bool
can_read v other = v.major == other.major && leb other.minor v.minor

-- `struct NodeId(pub u32)`
abbrev pub NodeId : Type 0
NodeId = ℕ

-- `struct ValueId(pub u32)`
abbrev pub ValueId : Type 0
ValueId = ℕ

pub data DType : Type 0 where
  f32 f16 bf16 i8 u8 i32 i64 bool : DType

pub data ValueType : Type 0 where
  scalar : DType → ValueType
  tensor : (dtype : DType) (rank : ℕ) → ValueType
  bytes handle : ValueType

pub record ValueDecl : Type 0 where
  pub id : ValueId
  pub ty : ValueType

pub data TensorOp : Type 0 where
  add mul mat_mul quantized_mat_mul rms_norm softmax gather rotary_position causal_attention silu
        reshape transpose position_ids :
      TensorOp

pub data StateOp : Type 0 where
  read write checkpoint : StateOp

pub data MemoryOp : Type 0 where
  retrieve store forget : MemoryOp

pub data ControlOp : Type 0 where
  select merge barrier : ControlOp

pub data ToolOp : Type 0 where
  invoke : (capability : Text) → ToolOp
  observe verify : ToolOp

pub data OpKind : Type 0 where
  tensor_op : TensorOp → OpKind
  state_op : StateOp → OpKind
  memory_op : MemoryOp → OpKind
  control_op : ControlOp → OpKind
  tool_op : ToolOp → OpKind

pub record Node : Type 0 where
  pub id : NodeId
  pub op : OpKind
  pub inputs : List ValueId
  pub outputs : List ValueDecl

pub record Graph : Type 0 where
  pub version : IrVersion
  pub inputs : List ValueDecl
  pub outputs : List ValueId
  pub nodes : List Node

pub data ValidationError : Type 0 where
  unsupported_version : IrVersion → ValidationError
  duplicate_node_id : NodeId → ValidationError
  duplicate_value : ValueId → ValidationError
  missing_input : (node : NodeId) (value : ValueId) → ValidationError
  missing_graph_output : ValueId → ValidationError

-- The loops that declare the graph's inputs and a node's outputs.
unfoldable pub declare :
    BTreeSet ValueId → List ValueDecl → Result ValidationError (BTreeSet ValueId)
declare values [] = ok values
declare values (decl ∷ rest) = do
  refuse (BTreeSet.contains decl.id values) (duplicate_value decl.id)
  declare (BTreeSet.insert decl.id values) rest

unfoldable pub check_inputs :
    NodeId → BTreeSet ValueId → List ValueId → Result ValidationError (Unit {0})
check_inputs node values [] = ok tt
check_inputs node values (input ∷ rest) = do
  refuse (not (BTreeSet.contains input values)) (missing_input node input)
  check_inputs node values rest

unfoldable pub check_nodes :
    BTreeSet NodeId → BTreeSet ValueId → List Node → Result ValidationError (BTreeSet ValueId)
unfolding check_inputs declare
check_nodes node_ids values [] = ok values
check_nodes node_ids values (node ∷ rest) = do
  refuse (BTreeSet.contains node.id node_ids) (duplicate_node_id node.id)
  check_inputs node.id values node.inputs
  values' ← declare values node.outputs
  check_nodes (BTreeSet.insert node.id node_ids) values' rest

unfoldable pub check_outputs : BTreeSet ValueId → List ValueId → Result ValidationError (Unit {0})
check_outputs values [] = ok tt
check_outputs values (output ∷ rest) = do
  refuse (not (BTreeSet.contains output values)) (missing_graph_output output)
  check_outputs values rest

unfoldable pub validate : Graph → Result ValidationError (Unit {0})
unfolding can_read check_nodes check_outputs
validate g = do
  refuse (not (can_read current_version g.version)) (unsupported_version g.version)
  values ← declare [] g.inputs
  values' ← check_nodes [] values g.nodes
  check_outputs values' g.outputs
