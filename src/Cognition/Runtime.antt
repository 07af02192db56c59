-- ===== src/Cognition/Runtime.antt =====
-- crates/ntd-runtime/src/cognition.rs: the methods of `CognitiveRuntime` but for `advance`.
use ntd.Prelude.{
  ℕ, Bool, true, false, Text, codes, is_blank, List, [], ◌∷◌, ◌++◌, none, some, Result, ok, err,
  if◌then◌else◌, nat_ord, text_ord,
}
use ntd.Prelude.BTreeMap
use ntd.Prelude.BTreeMap.{BTreeMap}
use ntd.Prelude.Format.{decimal}
use ntd.Prelude.Words.{saturating_add_u32}
use ntd.Memory.{MemoryKind, episodic}
use ntd.Cognition.{
  CognitiveState, GoalStatus, CognitiveTask, TaskStatus, LearnedDelta, CognitiveDirective, recall,
  record_memory, update_world, work, complete, CognitiveObservation, observation_new,
  DeltaActivationHook, CognitiveError, executor_error, missing_delta, is_terminal,
}
use ntd.Cognition.Actions.{Action, pure, unless, ◌>>=◌, ◌>>◌}
use ntd.Cognition.State.{
  Method, set_world_fact, next_tick, get_task, write_task, mark_goal, remember,
}

abbrev pub with_status : TaskStatus → CognitiveTask → ℕ → CognitiveTask
with_status status t tick = record t { status = status; updated_tick = tick }

-- A task that has ended is left alone.
abbrev pub unless_terminal : TaskStatus → Method (Unit {0}) → Method (Unit {0})
unless_terminal status m = if is_terminal status then pure tt else m

unfoldable pub start_external_task : ℕ → Method (Unit {0})
unfolding ◌>>=◌ ◌>>◌ pure next_tick get_task write_task
start_external_task id = do
  next_tick
  t ← get_task id
  unless_terminal t.status (write_task id (with_status TaskStatus.running t))

abbrev pub paused_task : Text → CognitiveTask → ℕ → CognitiveTask
paused_task reason t tick = record t {
  status = TaskStatus.paused;
  updated_tick = tick;
  last_observation = some reason;
}

-- `format!("task {task_id} {event}: {text}")`
abbrev pub task_note : ℕ → Text → Text → Text
task_note id event text =
    codes "task " ++ (decimal id ++ (codes " " ++ (event ++ (codes ": " ++ text))))

-- The note is stored, and its identifier dropped.
unfoldable pub note : MemoryKind → Text → List Text → ℕ → Method (Unit {0})
unfolding ◌>>=◌ pure remember
note kind content tags importance = do id ← remember kind content tags importance; pure tt

unfoldable pub pause_external_task : ℕ → Text → Method (Unit {0})
unfolding ◌>>=◌ ◌>>◌ pure unless next_tick get_task write_task note
pause_external_task id reason =
    unless (is_blank reason) (executor_error (codes "external task pause reason is empty")) (do
      next_tick
      t ← get_task id
      unless_terminal t.status (do
        write_task id (paused_task reason t)
        note episodic (task_note id (codes "paused") reason) (codes "task" ∷ codes "pause" ∷ [])
            400))

abbrev pub is_complete : CognitiveDirective → Bool
is_complete (complete _) = true
is_complete _ = false

-- The task after one more step, whose tick and observation are noted.
abbrev pub stepped : CognitiveDirective → CognitiveObservation → CognitiveTask → ℕ → CognitiveTask
stepped directive observation t tick = record t {
  steps_taken = saturating_add_u32 t.steps_taken 1;
  updated_tick = tick;
  last_observation = some observation.summary;
  status = if is_complete directive then TaskStatus.completed else t.status;
}

-- What a directive does beside the step of its task.
unfoldable pub apply_directive : ℕ → CognitiveDirective → Method (Unit {0})
unfolding ◌>>=◌ ◌>>◌ pure set_world_fact get_task mark_goal note
apply_directive id (recall query) = pure tt
apply_directive id (work instruction) = pure tt
apply_directive id (record_memory kind content tags importance) = note kind content tags importance
apply_directive id (update_world key value) = set_world_fact key value
apply_directive id (complete summary) = do
  t ← get_task id
  mark_goal t.goal_id GoalStatus.completed
  note episodic (task_note id (codes "completed") summary) (codes "task" ∷ codes "completion" ∷ [])
      700

unfoldable pub commit_directive : ℕ → CognitiveDirective → CognitiveObservation → Method (Unit {0})
unfolding ◌>>=◌ ◌>>◌ apply_directive get_task write_task
commit_directive id directive observation = do
  apply_directive id directive
  t ← get_task id
  write_task id (stepped directive observation t)

unfoldable pub complete_external_task : ℕ → Text → Method (Unit {0})
unfolding ◌>>◌ unless next_tick commit_directive
complete_external_task id summary =
    unless (is_blank summary) (executor_error (codes "external task completion summary is empty"))
      (do next_tick; commit_directive id (complete summary) (observation_new summary))

abbrev pub failed_task : Text → CognitiveTask → ℕ → CognitiveTask
failed_task reason t tick = record t {
  status = TaskStatus.failed;
  updated_tick = tick;
  last_observation = some reason;
}

unfoldable pub fail_task : ℕ → Text → Method (Unit {0})
unfolding ◌>>=◌ ◌>>◌ get_task write_task mark_goal note
fail_task id reason = do
  t ← get_task id
  write_task id (failed_task reason t)
  mark_goal t.goal_id GoalStatus.failed
  note episodic (task_note id (codes "failed") reason) (codes "task" ∷ codes "failure" ∷ []) 800

-- What `activate` answered decides whether the delta is marked.
abbrev pub activated :
    {H : Type 0}
    → ℕ
    → LearnedDelta
    → CognitiveState
    → H × Result Text (Unit {0})
    → (CognitiveState × H) × Result CognitiveError (Unit {0})
activated id d s (h, err reason) = ((s, h), err (executor_error reason))
activated id d s (h, ok _) =
    ((record s { deltas = BTreeMap.replace id (record d { active = true }) s.deltas }, h), ok tt)

unfoldable pub activate_delta :
    {H : Type 0} → DeltaActivationHook H → ℕ → Action (CognitiveState × H) CognitiveError (Unit {0})
unfolding BTreeMap.get BTreeMap.replace
activate_delta hook id (s, h) = elim (BTreeMap.get id s.deltas) [
  | none ↦ ((s, h), err (missing_delta id))
  | some d ↦ activated id d s (hook.activate h d)
]
