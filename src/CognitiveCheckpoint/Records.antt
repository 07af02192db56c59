-- ===== src/CognitiveCheckpoint/Records.antt =====
-- crates/ntd-runtime/src/checkpoint.rs: goals, tasks and their actions, facts, memories and deltas.
use ntd.Prelude.{ℕ, ◌==◌, not, length, Option, none, some, Result, ok, err, text_ord, if◌then◌else◌}
use ntd.Prelude.Sorting.{ascends}
use ntd.Core.{ActionNode, SideEffectClass, read_only, reversible, external_write, irreversible}
use ntd.Memory.{MemoryKind, kind_tag, kind_try_from, MemoryRecord}
use ntd.Cognition.{
  Goal, GoalStatus, goal_status_try_from, CognitiveTask, TaskStatus, task_status_try_from,
  WorldFact, LearnedDelta,
}
use ntd.Wire.Cursor.{
  Decoder, ◌>>=◌, ◌>>◌, pure, lift, check, u8, u16, u32, u64, bytes, string, strings, boolean,
  repeat, optional_string,
}
use ntd.Wire.Push.{
  Encoder, ◌⧺◌, done, push_u8, push_u16, push_u32, push_u64, push_bool, push_len, push_bytes,
  push_string, push_strings, push_all, push_optional_string,
}
use ntd.CognitiveCheckpoint.Format.{
  CheckpointError, invalid_side_effect, invalid_goal_status, invalid_task_status,
  invalid_memory_kind, non_canonical_encoding, sik97_errors,
}

-- `#[repr(u8)]`
abbrev pub goal_status_tag : GoalStatus → ℕ
goal_status_tag GoalStatus.active = 1
goal_status_tag GoalStatus.completed = 2
goal_status_tag GoalStatus.paused = 3
goal_status_tag GoalStatus.failed = 4

abbrev pub task_status_tag : TaskStatus → ℕ
task_status_tag TaskStatus.planned = 1
task_status_tag TaskStatus.running = 2
task_status_tag TaskStatus.completed = 3
task_status_tag TaskStatus.failed = 4
task_status_tag TaskStatus.paused = 5

-- `map_err(|_| e)`
abbrev pub or_else : {X A : Type 0} → CheckpointError → Result X A → Result CheckpointError A
or_else e (ok a) = ok a
or_else e (err x) = err e

unfoldable pub goal_status_of : ℕ → Decoder CheckpointError GoalStatus
unfolding lift goal_status_try_from
goal_status_of raw = lift (or_else (invalid_goal_status raw) (goal_status_try_from raw))

unfoldable pub task_status_of : ℕ → Decoder CheckpointError TaskStatus
unfolding lift task_status_try_from
task_status_of raw = lift (or_else (invalid_task_status raw) (task_status_try_from raw))

unfoldable pub memory_kind_of : ℕ → Decoder CheckpointError MemoryKind
unfolding lift kind_try_from
memory_kind_of raw = lift (or_else (invalid_memory_kind raw) (kind_try_from raw))

unfoldable pub encode_goal : Goal → Encoder CheckpointError
unfolding ◌⧺◌ done push_u64 push_u8 push_string push_strings
encode_goal g =
    push_u64 g.id
    ⧺ (push_u8 (goal_status_tag g.status)
        ⧺ (push_u64 g.created_tick
            ⧺ (push_u64 g.updated_tick
                ⧺ (push_string g.objective ⧺ (push_strings g.completion_criteria ⧺ done)))))

unfoldable pub decode_goal : Decoder CheckpointError Goal
unfolding ◌>>=◌ pure u64 u8 string strings goal_status_of
decode_goal = do
  id ← u64
  status ← (do status_raw ← u8; goal_status_of status_raw)
  created_tick ← u64
  updated_tick ← u64
  objective ← string
  completion_criteria ← strings
  pure (record {
    id = id;
    objective = objective;
    completion_criteria = completion_criteria;
    status = status;
    created_tick = created_tick;
    updated_tick = updated_tick;
  })

unfoldable pub encode_side_effect : SideEffectClass → ℕ
encode_side_effect read_only = 1
encode_side_effect reversible = 2
encode_side_effect external_write = 3
encode_side_effect irreversible = 4

unfoldable pub decode_side_effect : ℕ → Decoder CheckpointError SideEffectClass
unfolding pure lift
decode_side_effect value =
    if value == 1
    then pure read_only
    else if value == 2
    then pure reversible
    else if value == 3
    then pure external_write
    else if value == 4
    then pure irreversible
    else lift (err (invalid_side_effect value))

unfoldable pub encode_action : ActionNode → Encoder CheckpointError
unfolding ◌⧺◌ done push_u32 push_string push_u8 push_bool encode_side_effect
encode_action a =
    push_u32 a.id
    ⧺ (push_string a.capability
        ⧺ (push_u8 (encode_side_effect a.side_effect) ⧺ (push_bool a.verification_required ⧺ done)))

unfoldable pub decode_action : Decoder CheckpointError ActionNode
unfolding ◌>>=◌ pure u32 string u8 boolean decode_side_effect
decode_action = do
  id ← u32
  capability ← string
  side_effect ← (do raw_side_effect ← u8; decode_side_effect raw_side_effect)
  verification_required ← boolean
  pure (record {
    id = id;
    capability = capability;
    side_effect = side_effect;
    verification_required = verification_required;
  })

-- `goal_id.unwrap_or(0)` and `(raw_goal != 0).then_some(raw_goal)`.
abbrev pub goal_or_zero : Option ℕ → ℕ
goal_or_zero none = 0
goal_or_zero (some id) = id

unfoldable pub goal_unless_zero : ℕ → Decoder CheckpointError (Option ℕ)
unfolding pure
goal_unless_zero raw = pure (if raw == 0 then none else some raw)

unfoldable pub encode_task : CognitiveTask → Encoder CheckpointError
unfolding ◌⧺◌ done push_u64 push_u32 push_u8 push_string push_strings push_len push_all
    push_optional_string encode_action
encode_task t =
    push_u64 t.id
    ⧺ (push_u64 (goal_or_zero t.goal_id)
        ⧺ (push_u8 (task_status_tag t.status)
            ⧺ (push_u32 t.steps_taken
                ⧺ (push_u32 t.verification_failures
                    ⧺ (push_u64 t.created_tick
                        ⧺ (push_u64 t.updated_tick
                            ⧺ (push_string t.intent.objective
                                ⧺ (push_strings t.intent.completion_criteria
                                    ⧺ (push_u32 t.intent.max_steps
                                        ⧺ (push_len (length t.graph.actions)
                                            ⧺ (push_all encode_action t.graph.actions
                                                ⧺ (push_optional_string t.last_observation
                                                    ⧺ done))))))))))))

unfoldable pub decode_task : Decoder CheckpointError CognitiveTask
unfolding ◌>>=◌ pure u64 u32 u8 string strings repeat optional_string decode_action task_status_of
    goal_unless_zero
decode_task = do
  id ← u64
  goal_id ← (do raw_goal ← u64; goal_unless_zero raw_goal)
  status ← (do status_raw ← u8; task_status_of status_raw)
  steps_taken ← u32
  verification_failures ← u32
  created_tick ← u64
  updated_tick ← u64
  objective ← string
  completion_criteria ← strings
  max_steps ← u32
  action_count ← u32
  actions ← repeat action_count decode_action
  last_observation ← optional_string
  pure (record {
    id = id;
    goal_id = goal_id;
    intent = record {
      objective = objective;
      completion_criteria = completion_criteria;
      max_steps = max_steps;
    };
    graph = record { actions = actions };
    status = status;
    steps_taken = steps_taken;
    verification_failures = verification_failures;
    last_observation = last_observation;
    created_tick = created_tick;
    updated_tick = updated_tick;
  })

unfoldable pub encode_world_fact : WorldFact → Encoder CheckpointError
unfolding ◌⧺◌ done push_string push_u64
encode_world_fact f =
    push_string f.key
    ⧺ (push_string f.value ⧺ (push_u64 f.revision ⧺ (push_u64 f.updated_tick ⧺ done)))

unfoldable pub decode_world_fact : Decoder CheckpointError WorldFact
unfolding ◌>>=◌ pure string u64
decode_world_fact = do
  key ← string
  value ← string
  revision ← u64
  updated_tick ← u64
  pure (record { key = key; value = value; revision = revision; updated_tick = updated_tick })

unfoldable pub encode_memory_record : MemoryRecord → Encoder CheckpointError
unfolding ◌⧺◌ done push_u64 push_u8 push_u16 push_u32 push_string push_strings
encode_memory_record r =
    push_u64 r.id
    ⧺ (push_u8 (kind_tag r.kind)
        ⧺ (push_u16 r.importance
            ⧺ (push_u64 r.created_tick
                ⧺ (push_u64 r.last_recalled_tick
                    ⧺ (push_u32 r.recall_count
                        ⧺ (push_string r.content ⧺ (push_strings r.tags ⧺ done)))))))

unfoldable pub decode_memory_record : Decoder CheckpointError MemoryRecord
unfolding ◌>>=◌ ◌>>◌ pure check u64 u8 u16 u32 string strings memory_kind_of ascends
decode_memory_record = do
  id ← u64
  kind ← (do kind_raw ← u8; memory_kind_of kind_raw)
  importance ← u16
  created_tick ← u64
  last_recalled_tick ← u64
  recall_count ← u32
  content ← string
  tags ← strings
  check (not (ascends tags)) non_canonical_encoding
  pure (record {
    id = id;
    kind = kind;
    content = content;
    tags = tags;
    importance = importance;
    created_tick = created_tick;
    last_recalled_tick = last_recalled_tick;
    recall_count = recall_count;
  })

unfoldable pub encode_delta : LearnedDelta → Encoder CheckpointError
unfolding ◌⧺◌ done push_u64 push_bool push_string push_bytes
encode_delta d =
    push_u64 d.id
    ⧺ (push_u64 d.generation
        ⧺ (push_bool d.active ⧺ (push_string d.namespace ⧺ (push_bytes d.payload ⧺ done))))

unfoldable pub decode_delta : Decoder CheckpointError LearnedDelta
unfolding ◌>>=◌ pure u64 boolean string bytes
decode_delta = do
  id ← u64
  generation ← u64
  active ← boolean
  namespace ← string
  payload ← bytes
  pure (record {
    id = id;
    namespace = namespace;
    generation = generation;
    payload = payload;
    active = active;
  })
