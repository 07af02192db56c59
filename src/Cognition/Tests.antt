-- ===== src/Cognition/Tests.antt =====
-- The theorems about cognition, applied to a state with one task and to agents with fixed answers.
use ntd.Prelude.{
  ℕ, ◌≤◌, ◌≡◌, ◌↔◌, refl, Bool, true, false, Text, codes, List, [], ◌∷◌, Option, none, some, Result,
  ok, err, nat_ord, text_ord,
}
use ntd.Core.{Intent_new}
use ntd.Memory.Laws.{IsMemory}
use ntd.Cognition.{
  CognitiveState, CognitiveTask, TaskStatus, state_new, CognitivePlanner, CognitiveExecutor,
  CognitiveVerifier, DeltaActivationHook, complete, accept, observation_new, CognitiveCycleReport,
  overflow,
}
use ntd.Cognition.State.{submit_task}
use ntd.Cognition.Validate.{validate_state}
use ntd.Cognition.WellFormed.{IsSound, IsConsistent}
use ntd.Cognition.Soundness.{validate-IsConsistent}
use ntd.Cognition.Runtime.{complete_external_task}
use ntd.Cognition.Budget.{Float, CognitiveSignals, choose_reasoning_budget, iterations_for_budget}
use ntd.Cognition.Advance.{Machine, advance}
use ntd.Cognition.Cycle.{advance-IsSound}
use ntd.Cognition.Guarantees.{
  Reachable, created, submits, advances, Reachable-validate, Reachable-Sound,
}

-- Hundredths stand for themselves.
abbrev whole : Float ℕ
whole = record {
  clamp = λ x low high. ntd.Prelude.min (ntd.Prelude.max x low) high;
  ge = λ x y. ntd.Prelude.leb y x;
  hundredths = λ n. n;
}

abbrev calm : CognitiveSignals ℕ
calm = record { complexity = 10; uncertainty = 10; prior_failure = false }

abbrev finishing : CognitivePlanner ℕ
finishing = record { plan = λ asked c. (asked, ok (complete (codes "done"))) }

abbrev idle : CognitiveExecutor ℕ
idle = record { execute = λ calls d c. (calls, ok (observation_new (codes "idle"))) }

abbrev content : CognitiveVerifier ℕ
content = record { verify = λ asked d o c. (asked, accept) }

abbrev no_hook : DeltaActivationHook ℕ
no_hook = record { activate = λ calls d. (calls, ok tt) }

abbrev no_letters : ℕ → Bool
no_letters c = false

abbrev one_task : CognitiveState
one_task =
    (submit_task (Intent_new (codes "answer")) (record { actions = [] }) none (state_new [])).0

abbrev machine : Machine ℕ ℕ ℕ
machine = record { state = one_task; planner = 0; executor = 0; verifier = 0 }

abbrev one_task_reached : Reachable finishing idle content no_hook no_letters whole one_task
one_task_reached =
    submits (Intent_new (codes "answer")) (record { actions = [] }) none (state_new []) (created [])

-- The state behind an `advance` is accepted.
Reachable-validate_example :
    (validate_state (advance finishing idle content no_letters whole 1 calm machine).0.state
      ≡ ok tt)
    × IsMemory (advance finishing idle content no_letters whole 1 calm machine).0.state.memory
Reachable-validate_example =
    Reachable-validate finishing idle content no_hook no_letters whole
      (advance finishing idle content no_letters whole 1 calm machine).0.state
      (advances 1 calm 0 0 0 one_task one_task_reached)

advance-IsSound_example :
    IsSound (advance finishing idle content no_letters whole 1 calm machine).0.state
    × ((report : CognitiveCycleReport)
        → (advance finishing idle content no_letters whole 1 calm machine).1 ≡ ok report
        → report.iterations ≤ iterations_for_budget (choose_reasoning_budget whole calm))
advance-IsSound_example =
    advance-IsSound finishing idle content no_letters whole 1 calm machine
      (Reachable-Sound finishing idle content no_hook no_letters whole one_task one_task_reached)

abbrev done_task : CognitiveTask
done_task = record {
  id = 1;
  goal_id = none;
  intent = record { objective = codes "answer"; completion_criteria = []; max_steps = 1 };
  graph = record { actions = [] };
  status = TaskStatus.completed;
  steps_taken = 1;
  verification_failures = 0;
  last_observation = none;
  created_tick = 0;
  updated_tick = 0;
}

abbrev done_state : CognitiveState
done_state = record (state_new []) { next_task_id = 2; tasks = (1, done_task) ∷ [] }

validate-IsConsistent_example : (validate_state done_state ≡ ok tt) ↔ IsConsistent done_state
validate-IsConsistent_example = validate-IsConsistent done_state tt (tt, tt) tt

-- Completing a task whose budget is spent counts a step beyond it, and the state is then refused.
overspent : validate_state (complete_external_task 1 (codes "again") done_state).0 ≡ err overflow
unfolding validate_state complete_external_task ntd.Prelude.is_blank ntd.Prelude.Format.decimal
overspent = refl
