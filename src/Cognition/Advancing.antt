-- ===== src/Cognition/Advancing.antt =====
-- crates/ntd-runtime/src/cognition.rs: `advance` keeps the state sound, however the planner, the
-- executor and the verifier answer, and stays within its budget of iterations.
use ntd.Prelude.{
  ℕ, ◌<◌, ◌≡◌, refl, sym, subst, ◌∙◌, Bool, false, leb, Text, codes, [], ◌∷◌, ◌++◌, some,
  some-injective, Result, ok, err, if◌then◌else◌, arith, inl, inr, Bool-cases, nat_ord,
}
use ntd.Prelude.BTreeMap
use ntd.Prelude.BTreeMap.{BTreeMap}
use ntd.Core.{ReasoningBudget}
use ntd.Memory.{MemoryQuery, episodic}
use ntd.Memory.Recall.{retrieve-IsMemory}
use ntd.Cognition.{
  CognitiveState, CognitiveTask, CognitiveDirective, recall, record_memory, update_world, work,
  complete, CognitiveObservation, VerificationDecision, accept, retry, reject, CognitivePlanner,
  CognitiveExecutor, CognitiveVerifier, CognitiveError,
}
use ntd.Cognition.Actions.{EndsIn, Ensures, Keeps, >>=-Ensures, >>-Ensures, pure-Ensures}
use ntd.Cognition.State.{Method}
use ntd.Cognition.WellFormed.{IsSound}
use ntd.Cognition.Keeping.{SoundWith, Spares, Spares-Keeps, next_tick-Spares}
use ntd.Cognition.External.{
  get_task-Ensures, write_task-Ensures, note-Spares, first, Room, commit_directive-Ensures,
  fail_task-Ensures,
}
use ntd.Cognition.Advance.{
  Machine, Step, on_state, recall_memories, retried, retry_task, plan_directive, run_executor,
  execute_directive, verify_directive, decide, work_on, exhaust, iterate,
}

module _ {P X V : Type 0} where
  -- A predicate of the state, as one of the machine.
  abbrev pub Of : (CognitiveState → Type 0) → Machine P X V → Type 0
  Of Q s = Q s.state

  state_ends :
      {A : Type 0} (Q : A → CognitiveState → Type 0) (R : CognitiveState → Type 0)
      (s : Machine P X V) (r : CognitiveState × Result CognitiveError A)
      → EndsIn Q R r
      → EndsIn (λ a. Of (Q a)) (Of R) (record s { state = r.0 }, r.1)
  state_ends Q R s (t, ok a) h = h
  state_ends Q R s (t, err e) h = h

  pub on_state-Ensures :
      {A : Type 0} {Q : A → CognitiveState → Type 0} {B R : CognitiveState → Type 0} {m : Method A}
      → Ensures B m Q R
      → Ensures {S = Machine P X V} (Of B) (on_state m) (λ a. Of (Q a)) (Of R)
  unfolding on_state
  on_state-Ensures {Q = Q} {R = R} {m = m} h = record {
    ends = λ s p. state_ends Q R s (m s.state) (h.ends s.state p);
  }

  -- A step that leaves the state as it is.
  still :
      {A : Type 0} (T : BTreeMap ℕ CognitiveTask) (s : Machine P X V) (r : Result CognitiveError A)
      → SoundWith T s.state
      → EndsIn (λ _. Of (SoundWith T)) (Of IsSound) (s, r)
  still T s (ok a) h = h
  still T s (err e) h = h.sound

  pub firstly :
      {A : Type 0} {T : BTreeMap ℕ CognitiveTask} {F : Type 0} {m : Step P X V A}
      {Q : A → Machine P X V → Type 0}
      → (F → Ensures (Of (SoundWith T)) m Q (Of IsSound))
      → Ensures (Of (λ s. SoundWith T s × F)) m Q (Of IsSound)
  firstly f = record { ends = λ s h. (f h.1).ends s h.0 }

  pub from_sound :
      {A : Type 0} {m : Step P X V A} {Q : A → Machine P X V → Type 0}
      → ((T : BTreeMap ℕ CognitiveTask) → Ensures (Of (SoundWith T)) m Q (Of IsSound))
      → Ensures (Of IsSound) m Q (Of IsSound)
  from_sound f = record {
    ends = λ s h. (f s.state.tasks).ends s (record { sound = h; same = refl });
  }

retrieved_ends :
    (T : BTreeMap ℕ CognitiveTask) (s : CognitiveState)
    (r : Result CognitiveError CognitiveObservation)
    → SoundWith T s
    → EndsIn (λ _. SoundWith T) IsSound (s, r)
retrieved_ends T s (ok a) h = h
retrieved_ends T s (err e) h = h.sound

recall_memories-Spares :
    (is_alphanumeric : ℕ → Bool) (query : MemoryQuery)
    → Spares (recall_memories is_alphanumeric query)
unfolding recall_memories
recall_memories-Spares is_alphanumeric query T = record {
  ends = λ s h. retrieved_ends T _ _ (record {
    sound = record {
      goals = h.sound.goals;
      tasks = h.sound.tasks;
      deltas = h.sound.deltas;
      world = h.sound.world;
      memory = retrieve-IsMemory is_alphanumeric query s.tick s.memory h.sound.memory;
    };
    same = h.same;
  });
}

retry_task-Ensures :
    (id : ℕ) (reason : Text) (T : BTreeMap ℕ CognitiveTask)
    → Ensures (SoundWith T) (retry_task id reason) (λ _. IsSound) IsSound
unfolding retry_task
retry_task-Ensures id reason T = >>=-Ensures _ (get_task-Ensures id T) (λ t. first (λ found.
    >>-Ensures (write_task-Ensures id T t (retried reason t) found (λ goals tick h. h)) (
      Spares-Keeps (
        note-Spares episodic (codes "verification retry: " ++ reason)
          (codes "verification" ∷ codes "retry" ∷ []) 600))))

lt-of-leb : (a b : ℕ) → leb a b ≡ false → b < a
lt-of-leb a b h = ground arith

leb-Room :
    (id : ℕ) (T : BTreeMap ℕ CognitiveTask) (t : CognitiveTask)
    → BTreeMap.get id T ≡ some t
    → leb t.intent.max_steps t.steps_taken ≡ false
    → Room id T
leb-Room id T t found h u e =
    subst (λ (v : CognitiveTask). v.steps_taken < v.intent.max_steps)
      (some-injective t u (sym found ∙ e)) (lt-of-leb t.intent.max_steps t.steps_taken h)

module _ {P X V : Type 0} (planner : CognitivePlanner P) (executor : CognitiveExecutor X)
    (verifier : CognitiveVerifier V) (is_alphanumeric : ℕ → Bool) (budget : ReasoningBudget)
    (id : ℕ) where
  plan_directive-Spares :
      (iteration : ℕ) (t : CognitiveTask) (T : BTreeMap ℕ CognitiveTask)
      → Ensures
          (Of (SoundWith T))
          (plan_directive planner executor verifier is_alphanumeric budget id iteration t)
          (λ _. Of (SoundWith T))
          (Of IsSound)
  unfolding plan_directive
  plan_directive-Spares iteration t T = record {
    ends = λ s h.
        let r = plan_directive planner executor verifier is_alphanumeric budget id iteration t s in
        still T r.0 r.1 h;
  }

  run_executor-Spares :
      (directive : CognitiveDirective) (iteration : ℕ) (t : CognitiveTask)
      (T : BTreeMap ℕ CognitiveTask)
      → Ensures
          (Of (SoundWith T))
          (run_executor planner executor verifier is_alphanumeric budget id directive iteration t)
          (λ _. Of (SoundWith T))
          (Of IsSound)
  unfolding run_executor
  run_executor-Spares directive iteration t T = record {
    ends = λ s h.
        let r =
          run_executor planner executor verifier is_alphanumeric budget id directive iteration t
            s in
        still T r.0 r.1 h;
  }

  verify_directive-Spares :
      (directive : CognitiveDirective) (observation : CognitiveObservation) (iteration : ℕ)
      (t : CognitiveTask) (T : BTreeMap ℕ CognitiveTask)
      → Ensures
          (Of (SoundWith T))
          (verify_directive planner executor verifier is_alphanumeric budget id directive
            observation iteration t)
          (λ _. Of (SoundWith T))
          (Of IsSound)
  unfolding verify_directive
  verify_directive-Spares directive observation iteration t T = record { ends = λ s h. h }

  execute_directive-Spares :
      (directive : CognitiveDirective) (iteration : ℕ) (T : BTreeMap ℕ CognitiveTask)
      → Ensures
          (Of (SoundWith T))
          (execute_directive planner executor verifier is_alphanumeric budget id directive
            iteration)
          (λ _. Of (SoundWith T))
          (Of IsSound)
  unfolding execute_directive
  execute_directive-Spares (recall query) iteration T =
      on_state-Ensures (recall_memories-Spares is_alphanumeric query T)
  execute_directive-Spares (record_memory kind content tags importance) iteration T =
      pure-Ensures _ (λ s h. h)
  execute_directive-Spares (update_world key value) iteration T = pure-Ensures _ (λ s h. h)
  execute_directive-Spares (complete summary) iteration T = pure-Ensures _ (λ s h. h)
  execute_directive-Spares (work instruction) iteration T =
      >>=-Ensures _ (on_state-Ensures (get_task-Ensures id T))
        (λ t. firstly (λ found. run_executor-Spares (work instruction) iteration t T))

  decide-Ensures :
      (directive : CognitiveDirective) (observation : CognitiveObservation)
      (decision : VerificationDecision) (T : BTreeMap ℕ CognitiveTask)
      → Room id T
      → Ensures
          (Of (SoundWith T))
          (decide planner executor verifier is_alphanumeric budget id directive observation
            decision)
          (λ _. Of IsSound)
          (Of IsSound)
  unfolding decide
  decide-Ensures directive observation accept T room =
      >>-Ensures (on_state-Ensures (commit_directive-Ensures id directive observation T room))
        (pure-Ensures _ (λ s h. h))
  decide-Ensures directive observation (retry reason) T room =
      >>-Ensures (on_state-Ensures (retry_task-Ensures id reason T)) (pure-Ensures _ (λ s h. h))
  decide-Ensures directive observation (reject reason) T room =
      >>-Ensures (on_state-Ensures (fail_task-Ensures id reason T)) (pure-Ensures _ (λ s h. h))

  work_on-Ensures :
      (iteration : ℕ) (T : BTreeMap ℕ CognitiveTask)
      → Room id T
      → Ensures
          (Of (SoundWith T))
          (work_on planner executor verifier is_alphanumeric budget id iteration)
          (λ _. Of IsSound)
          (Of IsSound)
  unfolding work_on
  work_on-Ensures iteration T room = >>-Ensures (on_state-Ensures (next_tick-Spares T)) (
      >>=-Ensures _ (on_state-Ensures (get_task-Ensures id T)) (λ t. firstly (λ found.
        >>=-Ensures _ (plan_directive-Spares iteration t T) (λ directive.
          >>=-Ensures _ (execute_directive-Spares directive iteration T) (λ observation.
            >>=-Ensures _ (on_state-Ensures (get_task-Ensures id T)) (λ now. firstly (λ again.
              >>=-Ensures _ (verify_directive-Spares directive observation iteration now T)
                (λ decision. decide-Ensures directive observation decision T room))))))))

  exhaust-Ensures :
      (T : BTreeMap ℕ CognitiveTask)
      → Ensures
          (Of (SoundWith T))
          (exhaust planner executor verifier is_alphanumeric budget id)
          (λ _. Of IsSound)
          (Of IsSound)
  unfolding exhaust
  exhaust-Ensures T =
      >>-Ensures (on_state-Ensures (fail_task-Ensures id (codes "task step budget exhausted") T))
        (pure-Ensures _ (λ s h. h))

  pub iterate-Keeps :
      (iteration : ℕ)
      → Keeps (Of IsSound) (iterate planner executor verifier is_alphanumeric budget id iteration)
  unfolding iterate
  iterate-Keeps iteration = from_sound (λ T.
      >>=-Ensures _ (on_state-Ensures (get_task-Ensures id T))
        (λ t. firstly (λ found. branch T t found)))
    where
      branch :
          (T : BTreeMap ℕ CognitiveTask) (t : CognitiveTask)
          → BTreeMap.get id T ≡ some t
          → Ensures
              (Of (SoundWith T))
              (if leb t.intent.max_steps t.steps_taken
                then exhaust planner executor verifier is_alphanumeric budget id
                else work_on planner executor verifier is_alphanumeric budget id iteration)
              (λ _. Of IsSound)
              (Of IsSound)
      branch T t found = elim (Bool-cases (leb t.intent.max_steps t.steps_taken)) [
        | inl e ↦ rw e (exhaust-Ensures T)
        | inr e ↦ rw e (work_on-Ensures iteration T (leb-Room id T t found e))
      ]
