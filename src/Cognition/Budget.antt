-- ===== src/Cognition/Budget.antt =====
-- crates/ntd-runtime/src/lib.rs: `CognitiveSignals` and `choose_reasoning_budget`;
-- crates/ntd-runtime/src/cognition.rs: `iterations_for_budget`.
use ntd.Prelude.{ℕ, Bool, ◌||◌, if◌then◌else◌}
use ntd.Core.{ReasoningBudget, reflex, standard, deep, recovery}

-- Rust's `f32`, as far as `choose_reasoning_budget` uses it: `clamp`, `>=` and decimal literals, here
-- in hundredths.
pub record Float (F : Type 0) : Type 0 where
  pub clamp : F → F → F → F
  pub ge : F → F → Bool
  pub hundredths : ℕ → F

pub record CognitiveSignals (F : Type 0) : Type 0 where
  pub complexity : F
  pub uncertainty : F
  pub prior_failure : Bool

module _ {F : Type 0} (f : Float F) where
  unfoldable pub normalized : CognitiveSignals F → CognitiveSignals F
  normalized s = record {
    complexity = f.clamp s.complexity (f.hundredths 0) (f.hundredths 100);
    uncertainty = f.clamp s.uncertainty (f.hundredths 0) (f.hundredths 100);
    prior_failure = s.prior_failure;
  }

  unfoldable pub choose_reasoning_budget : CognitiveSignals F → ReasoningBudget
  unfolding normalized
  choose_reasoning_budget signals =
      let s = normalized signals in
      if s.prior_failure
      then recovery
      else if f.ge s.complexity (f.hundredths 70) || f.ge s.uncertainty (f.hundredths 65)
      then deep
      else if f.ge s.complexity (f.hundredths 30) || f.ge s.uncertainty (f.hundredths 25)
      then standard
      else reflex

abbrev pub iterations_for_budget : ReasoningBudget → ℕ
iterations_for_budget reflex = 1
iterations_for_budget standard = 2
iterations_for_budget deep = 4
iterations_for_budget recovery = 3
