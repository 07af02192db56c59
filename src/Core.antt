-- ===== src/Core.antt =====
-- crates/ntd-core/src/lib.rs: the vocabulary that the runtime's crates share.
use ntd.Prelude.{ℕ, ◌≡◌, Text, Bool, true, List, [], is_empty, ◌==◌, arith}

-- Compute depth selected by the cognitive loop.
pub data ReasoningBudget : Type 0 where
  reflex standard deep recovery : ReasoningBudget

pub data SideEffectClass : Type 0 where
  read_only reversible external_write irreversible : SideEffectClass

-- The derived equality compares the discriminants.
abbrev pub side_effect_tag : SideEffectClass → ℕ
side_effect_tag read_only = 0
side_effect_tag reversible = 1
side_effect_tag external_write = 2
side_effect_tag irreversible = 3

abbrev pub side_effect_eq : SideEffectClass → SideEffectClass → Bool
side_effect_eq a b = side_effect_tag a == side_effect_tag b

pub side_effect_eq→eq : (a b : SideEffectClass) → side_effect_eq a b ≡ true → a ≡ b
side_effect_eq→eq a b h = ground arith

pub record Intent : Type 0 where
  pub objective : Text
  pub completion_criteria : List Text
  pub max_steps : ℕ

abbrev pub Intent_new : Text → Intent
Intent_new objective = record { objective = objective; completion_criteria = []; max_steps = 32 }

-- `struct CapabilityId(pub String)`
abbrev pub CapabilityId : Type 0
CapabilityId = Text

pub record ActionNode : Type 0 where
  pub id : ℕ
  pub capability : CapabilityId
  pub side_effect : SideEffectClass
  pub verification_required : Bool

pub record TaskGraph : Type 0 where
  pub actions : List ActionNode

unfoldable pub is_empty_graph : TaskGraph → Bool
is_empty_graph g = is_empty g.actions
