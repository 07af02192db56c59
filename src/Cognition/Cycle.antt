-- ===== src/Cognition/Cycle.antt =====
-- crates/ntd-runtime/src/cognition.rs: a call of `advance` as a whole.
use ntd.Prelude.{
  ℕ, zero, suc, ◌+◌, ◌≤◌, ◌≡◌, subst, Bool, some, Result, ok, err, ok-injective, arith, inl, inr,
  Bool-cases, nat_ord, if◌then◌else◌,
}
use ntd.Prelude.BTreeMap
use ntd.Prelude.BTreeMap.{BTreeMap}
use ntd.Prelude.Words.{saturating_add_u32}
use ntd.Core.{ReasoningBudget}
use ntd.Cognition.{
  CognitiveTask, CognitivePlanner, CognitiveExecutor, CognitiveVerifier, CognitiveCycleReport,
  CognitiveError, is_terminal,
}
use ntd.Cognition.Actions.{
  pure, ◌>>=◌, EndsIn, Ensures, >>=-Ensures, >>-Ensures, pure-Ensures, weaken,
}
use ntd.Cognition.State.{get_task}
use ntd.Cognition.WellFormed.{IsSound}
use ntd.Cognition.Keeping.{SoundWith}
use ntd.Cognition.External.{get_task-Ensures, write_task-Ensures}
use ntd.Cognition.Budget.{Float, CognitiveSignals, choose_reasoning_budget, iterations_for_budget}
use ntd.Cognition.Advance.{
  Machine, on_state, Ending, exhausted, broken, continued, run_iterations, running_task, run_task,
  report, advance_within, advance,
}
use ntd.Cognition.Advancing.{Of, on_state-Ensures, firstly, from_sound, iterate-Keeps}

-- Sound, and at most that many iterations counted.
abbrev pub Within : {P X V : Type 0} → ℕ → ℕ → Machine P X V → Type 0
Within most n s = IsSound s.state × (n ≤ most)

module _ {P X V : Type 0} (planner : CognitivePlanner P) (executor : CognitiveExecutor X)
    (verifier : CognitiveVerifier V) (is_alphanumeric : ℕ → Bool) (budget : ReasoningBudget)
    (id : ℕ) where
  run_iterations-Within :
      (left iteration iterations : ℕ)
      → Ensures
          (Of IsSound)
          (run_iterations planner executor verifier is_alphanumeric budget id left iteration
            iterations)
          (Within (iterations + left))
          (Of IsSound)
  unfolding run_iterations
  run_iterations-Within zero iteration iterations =
      pure-Ensures iterations (λ s h. (h, omega arith))
  run_iterations-Within (suc left) iteration iterations =
      >>=-Ensures _ (iterate-Keeps planner executor verifier is_alphanumeric budget id iteration)
        (next (run_iterations-Within left (iteration + 1) (saturating_add_u32 iterations 1)))
    where
      next :
          Ensures
            (Of IsSound)
            (run_iterations planner executor verifier is_alphanumeric budget id left
              (iteration + 1)
              (saturating_add_u32 iterations 1))
            (Within (saturating_add_u32 iterations 1 + left))
            (Of IsSound)
          → (ending : Ending)
          → Ensures {S = Machine P X V} {E = CognitiveError}
              (Of IsSound)
              (elim ending [
                | exhausted ↦ pure iterations
                | broken ↦ pure (saturating_add_u32 iterations 1)
                | continued ↦
                    run_iterations planner executor verifier is_alphanumeric budget id left
                      (iteration + 1)
                      (saturating_add_u32 iterations 1)
              ])
              (Within (iterations + suc left))
              (Of IsSound)
      next rest exhausted = pure-Ensures iterations (λ s h. (h, omega arith))
      next rest broken = pure-Ensures (saturating_add_u32 iterations 1) (λ s h. (h, omega arith))
      next rest continued = weaken (λ n s h. (h.0, let l = h.1 in omega (arith, l))) rest

  run_task-Ensures :
      (t : CognitiveTask) (T : BTreeMap ℕ CognitiveTask)
      → BTreeMap.get id T ≡ some t
      → Ensures
          (Of (SoundWith T))
          (run_task planner executor verifier is_alphanumeric budget id t)
          (λ r s. IsSound s.state × (r.iterations ≤ iterations_for_budget budget))
          (Of IsSound)
  unfolding run_task
  run_task-Ensures t T found =
      >>-Ensures
        (on_state-Ensures (
          write_task-Ensures id T t
            (running_task planner executor verifier is_alphanumeric budget id t) found
            (λ goals tick h. h)))
        (>>=-Ensures _ (run_iterations-Within (iterations_for_budget budget) 0 0) last)
    where
      body :
          (n : ℕ)
          → n ≤ 0 + iterations_for_budget budget
          → Ensures {S = Machine P X V}
              (Of IsSound)
              (on_state (get_task id) >>= λ now. pure (report now budget n))
              (λ r s. IsSound s.state × (r.iterations ≤ iterations_for_budget budget))
              (Of IsSound)
      body n le = from_sound (λ T'.
          >>=-Ensures _ (on_state-Ensures (get_task-Ensures id T'))
            (λ now. pure-Ensures (report now budget n) (λ s k. (k.0.sound, omega (arith, le)))))

      last :
          (n : ℕ)
          → Ensures {S = Machine P X V}
              (Within (0 + iterations_for_budget budget) n)
              (on_state (get_task id) >>= λ now. pure (report now budget n))
              (λ r s. IsSound s.state × (r.iterations ≤ iterations_for_budget budget))
              (Of IsSound)
      last n = record { ends = λ s h. (body n h.1).ends s h.0 }

  -- Whatever the agents answer, the state stays sound, and a report counts at most the iterations
  -- of the budget.
  advance_within-Ensures :
      Ensures
        (Of IsSound)
        (advance_within planner executor verifier is_alphanumeric budget id)
        (λ r s. IsSound s.state × (r.iterations ≤ iterations_for_budget budget))
        (Of IsSound)
  unfolding advance_within
  advance_within-Ensures = from_sound (λ T.
      >>=-Ensures _ (on_state-Ensures (get_task-Ensures id T))
        (λ t. firstly (λ found. branch T t found)))
    where
      branch :
          (T : BTreeMap ℕ CognitiveTask) (t : CognitiveTask)
          → BTreeMap.get id T ≡ some t
          → Ensures
              (Of (SoundWith T))
              (if is_terminal t.status
                then pure (report t budget 0)
                else run_task planner executor verifier is_alphanumeric budget id t)
              (λ r s. IsSound s.state × (r.iterations ≤ iterations_for_budget budget))
              (Of IsSound)
      branch T t found = elim (Bool-cases (is_terminal t.status)) [
        | inl e ↦ rw e (pure-Ensures (report t budget 0) (λ s h. (h.sound, omega arith)))
        | inr e ↦ rw e (run_task-Ensures t T found)
      ]

ended :
    {P X V : Type 0} {most : ℕ} (r : Machine P X V × Result CognitiveError CognitiveCycleReport)
    → EndsIn (λ r s. IsSound s.state × (r.iterations ≤ most)) (Of IsSound) r
    → IsSound r.0.state
      × ((report : CognitiveCycleReport) → r.1 ≡ ok report → report.iterations ≤ most)
ended {most = most} (s, ok r) h =
    (h.0, λ q e. subst (λ (p : CognitiveCycleReport). p.iterations ≤ most) (ok-injective e) h.1)
ended (s, err e) h = (h, λ q k. cc)

module _ {P X V F : Type 0} (planner : CognitivePlanner P) (executor : CognitiveExecutor X)
    (verifier : CognitiveVerifier V) (is_alphanumeric : ℕ → Bool) (f : Float F) (id : ℕ)
    (signals : CognitiveSignals F) (s : Machine P X V) where
  -- A call of `advance` on a sound state leaves a sound state, whether it succeeds or fails and
  -- whatever the planner, the executor and the verifier answer; if it succeeds, its report counts at
  -- most the iterations of the budget that the signals choose.
  pub advance-IsSound :
      IsSound s.state
      → IsSound (advance planner executor verifier is_alphanumeric f id signals s).0.state
        × ((report : CognitiveCycleReport)
            → (advance planner executor verifier is_alphanumeric f id signals s).1 ≡ ok report
            → report.iterations ≤ iterations_for_budget (choose_reasoning_budget f signals))
  unfolding advance
  advance-IsSound h =
      let budget = choose_reasoning_budget f signals in
      ended (advance_within planner executor verifier is_alphanumeric budget id s)
        ((advance_within-Ensures planner executor verifier is_alphanumeric budget id).ends s h)
