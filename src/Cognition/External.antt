-- ===== src/Cognition/External.antt =====
-- crates/ntd-runtime/src/cognition.rs: the methods of `CognitiveRuntime` that move a task keep a state
-- sound; completing one has to leave its step budget room for the step that it counts.
use ntd.Prelude.{
  ℕ, ◌<◌, ◌≡◌, refl, sym, subst, true, is_blank, Text, List, [], ◌∷◌, codes, Option, none, some,
  Result, ok, err, arith, inl, inr, Bool-cases, Option-cases, nat_ord,
}
use ntd.Prelude.BTreeMap
use ntd.Prelude.BTreeMap.{BTreeMap, All-get}
use ntd.Memory.{MemoryKind, episodic}
use ntd.Cognition.{
  CognitiveState, Goal, GoalStatus, CognitiveTask, TaskStatus, LearnedDelta, CognitiveDirective,
  recall, record_memory, update_world, work, complete, CognitiveObservation, observation_new,
  DeltaActivationHook, executor_error, is_terminal,
}
use ntd.Cognition.Actions.{
  ◌>>◌, EndsIn, Ensures, Keeps, >>=-Ensures, >>-Ensures, pure-Ensures, unless-Ensures,
}
use ntd.Cognition.State.{Method, found_task, get_task, write_task, mark_goal}
use ntd.Cognition.WellFormed.{IsTable-replace, TaskOk, DeltaOk, IsSound}
use ntd.Cognition.Keeping.{
  SoundWith, Spares, Spares-Keeps, next_tick-Spares, remember-Spares, mark_goal-Spares,
  set_world_fact-Spares,
}
use ntd.Cognition.Runtime.{
  with_status, unless_terminal, start_external_task, paused_task, note, pause_external_task,
  stepped, apply_directive, commit_directive, complete_external_task, failed_task, fail_task,
  activated, activate_delta, task_note,
}

module _ (id : ℕ) (T : BTreeMap ℕ CognitiveTask) where
  -- The task read is the one that the tasks hold.
  found_ends :
      (o : Option CognitiveTask) (s : CognitiveState)
      → BTreeMap.get id s.tasks ≡ o
      → SoundWith T s
      → EndsIn (λ t s'. SoundWith T s' × (BTreeMap.get id T ≡ some t)) IsSound (found_task id o s)
  found_ends none s e h = h.sound
  found_ends (some t) s e h = (h, subst (λ m. BTreeMap.get id m ≡ some t) h.same e)

  pub get_task-Ensures :
      Ensures
        (SoundWith T)
        (get_task id)
        (λ t s. SoundWith T s × (BTreeMap.get id T ≡ some t))
        IsSound
  unfolding get_task
  get_task-Ensures = record { ends = λ s h. found_ends (BTreeMap.get id s.tasks) s refl h }

  -- A task may be replaced by one that is as well-formed.
  pub write_task-Ensures :
      (t : CognitiveTask) (change : ℕ → CognitiveTask)
      → BTreeMap.get id T ≡ some t
      → ((goals : BTreeMap ℕ Goal) (tick : ℕ)
          → TaskOk goals (id, t)
          → TaskOk goals (id, change tick))
      → Ensures (SoundWith T) (write_task id change) (λ _. IsSound) IsSound
  unfolding write_task
  write_task-Ensures t change found keep = record {
    ends = λ s h.
        let here = subst (λ m. BTreeMap.get id m ≡ some t) (sym h.same) found in
        record {
          goals = h.sound.goals;
          tasks =
              IsTable-replace (TaskOk s.goals) s.next_task_id s.tasks id (change s.tick)
                h.sound.tasks
                (keep s.goals s.tick
                  (All-get (TaskOk s.goals) id s.tasks h.sound.tasks.entries here));
          deltas = h.sound.deltas;
          world = h.sound.world;
          memory = h.sound.memory;
        };
  }

pub note-Spares :
    (kind : MemoryKind) (content : Text) (tags : List Text) (importance : ℕ)
    → Spares (note kind content tags importance)
unfolding note
note-Spares kind content tags importance T =
    >>=-Ensures _ (remember-Spares kind content tags importance T) (λ i. pure-Ensures tt (λ s h. h))

unless_terminal-Ensures :
    (T : BTreeMap ℕ CognitiveTask) (status : TaskStatus) (m : Method (Unit {0}))
    → Ensures (SoundWith T) m (λ _. IsSound) IsSound
    → Ensures (SoundWith T) (unless_terminal status m) (λ _. IsSound) IsSound
unless_terminal-Ensures T status m h = elim (Bool-cases (is_terminal status)) [
  | inl e ↦ rw e (pure-Ensures tt (λ s p. p.sound))
  | inr e ↦ rw e h
]

-- The pair of a sound state and a task found in it.
pub first :
    {A : Type 0} {T : BTreeMap ℕ CognitiveTask} {X : Type 0} {m : Method A}
    {Q : A → CognitiveState → Type 0}
    → (X → Ensures (SoundWith T) m Q IsSound)
    → Ensures (λ s. SoundWith T s × X) m Q IsSound
first f = record { ends = λ s h. (f h.1).ends s h.0 }

pub from_sound :
    {A : Type 0} {m : Method A}
    → ((T : BTreeMap ℕ CognitiveTask) → Ensures (SoundWith T) m (λ _. IsSound) IsSound)
    → Keeps IsSound m
from_sound f = record { ends = λ s h. (f s.tasks).ends s (record { sound = h; same = refl }) }

pub start_external_task-Keeps : (id : ℕ) → Keeps IsSound (start_external_task id)
unfolding start_external_task
start_external_task-Keeps id = from_sound (λ T. >>-Ensures (next_tick-Spares T) (
    >>=-Ensures _ (get_task-Ensures id T) (λ t. first (λ found.
      unless_terminal-Ensures T t.status _
        (write_task-Ensures id T t (with_status TaskStatus.running t) found (λ goals tick h. h))))))

pub pause_external_task-Keeps :
    (id : ℕ) (reason : Text) → Keeps IsSound (pause_external_task id reason)
unfolding pause_external_task
pause_external_task-Keeps id reason =
    unless-Ensures (is_blank reason) (executor_error (codes "external task pause reason is empty"))
      (λ s h. h)
      (λ filled. from_sound (λ T. >>-Ensures (next_tick-Spares T) (
        >>=-Ensures _ (get_task-Ensures id T) (λ t. first (λ found.
          unless_terminal-Ensures T t.status _ (
            >>-Ensures (write_task-Ensures id T t (paused_task reason t) found (λ goals tick h. h))
              (Spares-Keeps (
                note-Spares episodic (task_note id (codes "paused") reason)
                  (codes "task" ∷ codes "pause" ∷ []) 400))))))))

-- A directive changes no task before its step is counted.
pub apply_directive-Spares :
    (id : ℕ) (directive : CognitiveDirective) → Spares (apply_directive id directive)
unfolding apply_directive
apply_directive-Spares id (recall query) T = pure-Ensures tt (λ s h. h)
apply_directive-Spares id (work instruction) T = pure-Ensures tt (λ s h. h)
apply_directive-Spares id (record_memory kind content tags importance) T =
    note-Spares kind content tags importance T
apply_directive-Spares id (update_world key value) T = set_world_fact-Spares key value T
apply_directive-Spares id (complete summary) T = >>=-Ensures _ (get_task-Ensures id T) (λ t.
    first (λ found. >>-Ensures (mark_goal-Spares t.goal_id GoalStatus.completed T) (
      note-Spares episodic (task_note id (codes "completed") summary)
        (codes "task" ∷ codes "completion" ∷ []) 700 T)))

-- The task's step budget has room for one more step.
abbrev pub Room : ℕ → BTreeMap ℕ CognitiveTask → Type 0
Room id T = (t : CognitiveTask) → BTreeMap.get id T ≡ some t → t.steps_taken < t.intent.max_steps

stepped-TaskOk :
    (goals : BTreeMap ℕ Goal) (id tick : ℕ) (directive : CognitiveDirective)
    (o : CognitiveObservation) (t : CognitiveTask)
    → t.steps_taken < t.intent.max_steps
    → TaskOk goals (id, t)
    → TaskOk goals (id, stepped directive o t tick)
stepped-TaskOk goals id tick directive o t room h = (h.0, h.1, h.2, ground arith, h.4)

pub commit_directive-Ensures :
    (id : ℕ) (directive : CognitiveDirective) (observation : CognitiveObservation)
    (T : BTreeMap ℕ CognitiveTask)
    → Room id T
    → Ensures (SoundWith T) (commit_directive id directive observation) (λ _. IsSound) IsSound
unfolding commit_directive
commit_directive-Ensures id directive observation T room =
    >>-Ensures (apply_directive-Spares id directive T) (
      >>=-Ensures _ (get_task-Ensures id T) (λ t. first (λ found.
        write_task-Ensures id T t (stepped directive observation t) found
          (λ goals tick h. stepped-TaskOk goals id tick directive observation t (room t found) h))))

pub complete_external_task-Ensures :
    (id : ℕ) (summary : Text) (T : BTreeMap ℕ CognitiveTask)
    → Room id T
    → Ensures (SoundWith T) (complete_external_task id summary) (λ _. IsSound) IsSound
unfolding complete_external_task
complete_external_task-Ensures id summary T room =
    unless-Ensures (is_blank summary)
      (executor_error (codes "external task completion summary is empty")) (λ s h. h.sound)
      (λ filled.
        >>-Ensures (next_tick-Spares T)
          (commit_directive-Ensures id (complete summary) (observation_new summary) T room))

pub fail_task-Ensures :
    (id : ℕ) (reason : Text) (T : BTreeMap ℕ CognitiveTask)
    → Ensures (SoundWith T) (fail_task id reason) (λ _. IsSound) IsSound
unfolding fail_task
fail_task-Ensures id reason T = >>=-Ensures _ (get_task-Ensures id T) (λ t. first (λ found.
    >>-Ensures (write_task-Ensures id T t (failed_task reason t) found (λ goals tick h. h))
      (Spares-Keeps (after t))))
  where
    after :
        (t : CognitiveTask)
        → Spares (
            mark_goal t.goal_id GoalStatus.failed
            >> note episodic
                (task_note id (codes "failed") reason)
                (codes "task" ∷ codes "failure" ∷ [])
                800)
    after t T' = >>-Ensures (mark_goal-Spares t.goal_id GoalStatus.failed T') (
        note-Spares episodic (task_note id (codes "failed") reason)
          (codes "task" ∷ codes "failure" ∷ []) 800 T')

activated_sound :
    {H : Type 0} (id : ℕ) (d : LearnedDelta) (s : CognitiveState) (r : H × Result Text (Unit {0}))
    → BTreeMap.get id s.deltas ≡ some d
    → IsSound s
    → IsSound (activated id d s r).0.0
activated_sound id d s (h, err e) found p = p
activated_sound id d s (h, ok _) found p = record {
  goals = p.goals;
  tasks = p.tasks;
  deltas =
      IsTable-replace DeltaOk s.next_delta_id s.deltas id (record d { active = true }) p.deltas
        (All-get DeltaOk id s.deltas p.deltas.entries found);
  world = p.world;
  memory = p.memory;
}

pub activate_delta-IsSound :
    {H : Type 0} (hook : DeltaActivationHook H) (id : ℕ) (s : CognitiveState) (h : H)
    → IsSound s
    → IsSound (activate_delta hook id (s, h)).0.0
unfolding activate_delta
activate_delta-IsSound hook id s h p = elim (Option-cases (BTreeMap.get id s.deltas)) [
  | inl e ↦ rw (activate_delta, e) p
  | inr (d, e) ↦ rw (activate_delta, e) (activated_sound id d s (hook.activate h d) e p)
]
