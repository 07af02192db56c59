-- ===== src/Cognition/Advance.antt =====
-- crates/ntd-runtime/src/cognition.rs: `advance`, its loop and `execute_directive`.
use ntd.Prelude.{
  ℕ, zero, suc, ◌+◌, Bool, leb, Text, codes, List, [], ◌∷◌, ◌++◌, map, length, some, Result, ok,
  err, map_err, if◌then◌else◌, nat_ord, text_ord,
}
use ntd.Prelude.Format.{decimal}
use ntd.Prelude.Words.{saturating_add_u32}
use ntd.Core.{ReasoningBudget}
use ntd.Cognition.Budget.{Float, CognitiveSignals, choose_reasoning_budget, iterations_for_budget}
use ntd.Memory.{episodic, MemoryHit}
use ntd.Memory.Retrieve.{retrieve}
use ntd.Cognition.{
  CognitiveState, CognitiveTask, TaskStatus, CognitiveDirective, recall, record_memory,
  update_world, work, complete, CognitiveObservation, observation_new, VerificationDecision, accept,
  retry, reject, CognitiveContext, CognitivePlanner, CognitiveExecutor, CognitiveVerifier,
  CognitiveCycleReport, CognitiveError, planner_error, executor_error, memory_error, is_terminal,
}
use ntd.Cognition.Actions.{Action, pure, ◌>>=◌, ◌>>◌}
use ntd.Cognition.State.{Method, next_tick, get_task, write_task}
use ntd.Cognition.Runtime.{note, commit_directive, fail_task, is_complete}

abbrev pub report : CognitiveTask → ReasoningBudget → ℕ → CognitiveCycleReport
report t budget iterations = record {
  task_id = t.id;
  budget = budget;
  iterations = iterations;
  status = t.status;
  verification_failures = t.verification_failures;
  last_observation = t.last_observation;
}

-- The runtime's state with those of the three agents.
pub record Machine (P X V : Type 0) : Type 0 where
  pub state : CognitiveState
  pub planner : P
  pub executor : X
  pub verifier : V

-- How an iteration ends: at the step budget, with a break, or with the next iteration.
pub data Ending : Type 0 where
  exhausted broken continued : Ending

abbrev pub ending_of : CognitiveDirective → Ending
ending_of directive = if is_complete directive then broken else continued

abbrev pub hit_evidence : MemoryHit → Text
hit_evidence h = codes "memory:" ++ (decimal h.id ++ (codes ":" ++ h.stored.content))

abbrev pub recalled_memories : List MemoryHit → CognitiveObservation
recalled_memories hits = record {
  summary = codes "recalled " ++ (decimal (length hits) ++ codes " memories");
  evidence = map hit_evidence hits;
}

abbrev pub map_ok : {A B : Type 0} → (A → B) → Result CognitiveError A → Result CognitiveError B
map_ok f (ok a) = ok (f a)
map_ok f (err e) = err e

module _ (is_alphanumeric : ℕ → Bool) where
  unfoldable pub recall_memories : (query : ntd.Memory.MemoryQuery) → Method CognitiveObservation
  unfolding retrieve
  recall_memories query s =
      let r = retrieve is_alphanumeric query s.tick s.memory in
      (record s { memory = r.0 }, map_ok recalled_memories (map_err memory_error r.1))

abbrev pub retried : Text → CognitiveTask → ℕ → CognitiveTask
retried reason t tick = record t {
  verification_failures = saturating_add_u32 t.verification_failures 1;
  last_observation = some reason;
  updated_tick = tick;
}

-- What a rejection or a retry writes.
unfoldable pub retry_task : ℕ → Text → Method (Unit {0})
unfolding ◌>>=◌ ◌>>◌ get_task write_task note
retry_task id reason = do
  t ← get_task id
  write_task id (retried reason t)
  note episodic (codes "verification retry: " ++ reason) (codes "verification" ∷ codes "retry" ∷ [])
      600

abbrev pub Step : Type 0 → Type 0 → Type 0 → Type 0 → Type 0
Step P X V A = Action (Machine P X V) CognitiveError A

module _ {P X V : Type 0} where
  -- A method of the state, as a step of the machine.
  unfoldable pub on_state : {A : Type 0} → Method A → Step P X V A
  on_state m s = let r = m s.state in (record s { state = r.0 }, r.1)

  abbrev pub context : Machine P X V → CognitiveTask → ReasoningBudget → ℕ → CognitiveContext
  context s t budget iteration = record {
    state = s.state;
    task = t;
    budget = budget;
    iteration = iteration;
  }

module _ {P X V : Type 0} (planner : CognitivePlanner P) (executor : CognitiveExecutor X)
    (verifier : CognitiveVerifier V) (is_alphanumeric : ℕ → Bool) (budget : ReasoningBudget)
    (id : ℕ) where
  unfoldable pub plan_directive : ℕ → CognitiveTask → Step P X V CognitiveDirective
  plan_directive iteration t s =
      let r = planner.plan s.planner (context s t budget iteration) in
      (record s { planner = r.0 }, map_err planner_error r.1)

  unfoldable pub run_executor :
      CognitiveDirective → ℕ → CognitiveTask → Step P X V CognitiveObservation
  run_executor directive iteration t s =
      let r = executor.execute s.executor directive (context s t budget iteration) in
      (record s { executor = r.0 }, map_err executor_error r.1)

  unfoldable pub execute_directive : CognitiveDirective → ℕ → Step P X V CognitiveObservation
  unfolding ◌>>=◌ pure on_state recall_memories get_task run_executor
  execute_directive (recall query) iteration = on_state (recall_memories is_alphanumeric query)
  execute_directive (record_memory kind content tags importance) iteration =
      pure (observation_new (codes "memory prepared: " ++ content))
  execute_directive (update_world key value) iteration =
      pure (observation_new (codes "world update prepared: " ++ (key ++ (codes "=" ++ value))))
  execute_directive (complete summary) iteration =
      pure (observation_new (codes "completion prepared: " ++ summary))
  execute_directive (work instruction) iteration = do
    t ← on_state (get_task id)
    run_executor (work instruction) iteration t

  unfoldable pub verify_directive :
      CognitiveDirective
      → CognitiveObservation
      → ℕ
      → CognitiveTask
      → Step P X V VerificationDecision
  verify_directive directive observation iteration t s =
      let r = verifier.verify s.verifier directive observation (context s t budget iteration) in
      (record s { verifier = r.0 }, ok r.1)

  unfoldable pub decide :
      CognitiveDirective → CognitiveObservation → VerificationDecision → Step P X V Ending
  unfolding ◌>>◌ pure on_state commit_directive retry_task fail_task
  decide directive observation accept = do
    on_state (commit_directive id directive observation)
    pure (ending_of directive)
  decide directive observation (retry reason) = do on_state (retry_task id reason); pure continued
  decide directive observation (reject reason) = do on_state (fail_task id reason); pure broken

  -- One iteration behind the check of the step budget.
  unfoldable pub work_on : ℕ → Step P X V Ending
  unfolding ◌>>=◌ ◌>>◌ on_state next_tick get_task plan_directive execute_directive verify_directive
      decide
  work_on iteration = do
    on_state next_tick
    t ← on_state (get_task id)
    directive ← plan_directive iteration t
    observation ← execute_directive directive iteration
    now ← on_state (get_task id)
    decision ← verify_directive directive observation iteration now
    decide directive observation decision

  unfoldable pub exhaust : Step P X V Ending
  unfolding ◌>>◌ pure on_state fail_task
  exhaust = do on_state (fail_task id (codes "task step budget exhausted")); pure exhausted

  unfoldable pub iterate : ℕ → Step P X V Ending
  unfolding ◌>>=◌ on_state get_task exhaust work_on
  iterate iteration = do
    t ← on_state (get_task id)
    if leb t.intent.max_steps t.steps_taken then exhaust else work_on iteration

  -- `for iteration in iteration..iteration + left`, with the count of `iterations`.
  unfoldable pub run_iterations : ℕ → ℕ → ℕ → Step P X V ℕ
  unfolding ◌>>=◌ pure iterate
  run_iterations zero iteration iterations = pure iterations
  run_iterations (suc left) iteration iterations = do
    ending ← iterate iteration
    elim ending [
      | exhausted ↦ pure iterations
      | broken ↦ pure (saturating_add_u32 iterations 1)
      | continued ↦ run_iterations left (iteration + 1) (saturating_add_u32 iterations 1)
    ]

  abbrev pub running_task : CognitiveTask → ℕ → CognitiveTask
  running_task t tick = record t { status = TaskStatus.running }

  unfoldable pub run_task : CognitiveTask → Step P X V CognitiveCycleReport
  unfolding ◌>>=◌ ◌>>◌ pure on_state write_task get_task run_iterations
  run_task t = do
    on_state (write_task id (running_task t))
    iterations ← run_iterations (iterations_for_budget budget) 0 0
    now ← on_state (get_task id)
    pure (report now budget iterations)

  -- `advance` behind the choice of the budget.
  unfoldable pub advance_within : Step P X V CognitiveCycleReport
  unfolding ◌>>=◌ pure on_state get_task run_task
  advance_within = do
    t ← on_state (get_task id)
    if is_terminal t.status then pure (report t budget 0) else run_task t

unfoldable pub advance :
    {P X V F : Type 0}
    → CognitivePlanner P
    → CognitiveExecutor X
    → CognitiveVerifier V
    → (ℕ → Bool)
    → Float F
    → ℕ
    → CognitiveSignals F
    → Step P X V CognitiveCycleReport
unfolding choose_reasoning_budget advance_within
advance planner executor verifier is_alphanumeric f id signals =
    advance_within planner executor verifier is_alphanumeric (choose_reasoning_budget f signals) id
