-- ===== src/Cognition/Reasoning.antt =====
-- crates/ntd-runtime/src/reasoning.rs: the planner, the executor and the verifier of a budgeted
-- reasoning cycle.
use ntd.Prelude.{
  ℕ, Bool, true, false, ◌||◌, Text, codes, is_blank, is_empty, ◌++◌, Result, ok, err, if◌then◌else◌,
}
use ntd.Prelude.Format.{decimal}
use ntd.Core.{ReasoningBudget, reflex, standard, deep, recovery}
use ntd.Cognition.{
  CognitiveContext, CognitiveObservation, CognitiveDirective, recall, record_memory, update_world,
  work, complete, CognitivePlanner, CognitiveExecutor, CognitiveVerifier, VerificationDecision,
  accept, reject, CognitiveCycleReport,
}
use ntd.Cognition.Budget.{Float, CognitiveSignals}
use ntd.Cognition.Advance.{Step, advance}

-- `trait NativeReasoningProbe`: the method of a probe whose state is a `Q`.
pub record NativeReasoningProbe (Q : Type 0) : Type 0 where
  pub probe : Q → CognitiveContext → Q × Result Text CognitiveObservation

-- `{:?}` of a budget.
abbrev pub budget_name : ReasoningBudget → Text
budget_name reflex = codes "Reflex"
budget_name standard = codes "Standard"
budget_name deep = codes "Deep"
budget_name recovery = codes "Recovery"

unfoldable pub probe_instruction : CognitiveContext → Text
unfolding decimal
probe_instruction c =
    codes "native reasoning probe iteration "
    ++ (decimal c.iteration ++ (codes " budget " ++ budget_name c.budget))

-- The planner and the verifier keep no state.
abbrev pub budgeted_planner : CognitivePlanner (Unit {0})
budgeted_planner = record { plan = λ s c. (s, ok (work (probe_instruction c))) }

unfoldable pub run_probe :
    {Q : Type 0}
    → NativeReasoningProbe Q
    → Q
    → CognitiveDirective
    → CognitiveContext
    → Q × Result Text CognitiveObservation
run_probe p q (work instruction) c = p.probe q c
run_probe p q (recall query) c =
    (q, err (codes "budgeted native reasoning executor only accepts Work directives"))
run_probe p q (record_memory kind content tags importance) c =
    (q, err (codes "budgeted native reasoning executor only accepts Work directives"))
run_probe p q (update_world key value) c =
    (q, err (codes "budgeted native reasoning executor only accepts Work directives"))
run_probe p q (complete summary) c =
    (q, err (codes "budgeted native reasoning executor only accepts Work directives"))

abbrev pub probe_executor : {Q : Type 0} → NativeReasoningProbe Q → CognitiveExecutor Q
probe_executor p = record { execute = run_probe p }

abbrev pub is_work : CognitiveDirective → Bool
is_work (work _) = true
is_work _ = false

unfoldable pub verify_probe : CognitiveDirective → CognitiveObservation → VerificationDecision
verify_probe directive observation =
    if is_work directive
    then (if is_blank observation.summary || is_empty observation.evidence
        then reject (codes "native reasoning probe returned unverified evidence")
        else accept)
    else reject (codes "unexpected directive in native reasoning loop")

abbrev pub native_verifier : CognitiveVerifier (Unit {0})
native_verifier = record { verify = λ s d o c. (s, verify_probe d o) }

unfoldable pub run_budgeted_reasoning_cycle :
    {Q F : Type 0}
    → NativeReasoningProbe Q
    → (ℕ → Bool)
    → Float F
    → ℕ
    → CognitiveSignals F
    → Step (Unit {0}) Q (Unit {0}) CognitiveCycleReport
unfolding advance probe_instruction run_probe verify_probe
run_budgeted_reasoning_cycle p is_alphanumeric f id signals =
    advance budgeted_planner (probe_executor p) native_verifier is_alphanumeric f id signals
