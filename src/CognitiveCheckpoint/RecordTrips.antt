-- ===== src/CognitiveCheckpoint/RecordTrips.antt =====
-- crates/ntd-runtime/src/checkpoint.rs: goals, tasks, facts, memories and deltas are read back.
use ntd.Prelude.{
  ℕ, ◌≤◌, ◌<◌, ◌≡◌, refl, Bool, true, false, not, ◌==◌, length, Option, none, some, All, All-map,
  arith, text_ord,
}
use ntd.Prelude.Sorting.{ascends}
use ntd.Prelude.Utf8.{IsString}
use ntd.Prelude.Words.{u32_max, usize_max}
use ntd.Core.{ActionNode, SideEffectClass, read_only, reversible, external_write, irreversible}
use ntd.Memory.{MemoryKind, kind_tag, kind_try_from, MemoryRecord, episodic, semantic, procedural}
use ntd.Cognition.{
  Goal, GoalStatus, goal_status_try_from, CognitiveTask, TaskStatus, task_status_try_from,
  WorldFact, LearnedDelta,
}
use ntd.Wire.Cursor.{◌>>=◌, pure, lift, u8, u64}
use ntd.Wire.Push.{push_u8, push_u64}
use ntd.Wire.Trips.{Trips, ⧺->>=, last-Trips, check-Trips, done-pure}
use ntd.Wire.RoundTrip.{
  Where, push_u8-Trips, push_u16-Trips, push_u32-Trips, push_u64-Trips, push_bool-Trips,
  push_len-Trips, push_bytes-Trips, push_string-Trips, push_strings-Trips, push_all-Trips,
  push_optional_string-Trips,
}
use ntd.CognitiveCheckpoint.Format.{sik97_errors, non_canonical_encoding}
use ntd.CognitiveCheckpoint.Records.{
  goal_status_tag, task_status_tag, goal_status_of, task_status_of, memory_kind_of, encode_goal,
  decode_goal, encode_side_effect, decode_side_effect, encode_action, decode_action, goal_or_zero,
  goal_unless_zero, encode_task, decode_task, encode_world_fact, decode_world_fact,
  encode_memory_record, decode_memory_record, encode_delta, decode_delta,
}

-- What Rust's types guarantee of the data.
pub record FitsGoal (g : Goal) : Type 0 where
  pub id : g.id ≤ usize_max
  pub created_tick : g.created_tick ≤ usize_max
  pub updated_tick : g.updated_tick ≤ usize_max
  pub objective : IsString g.objective
  pub completion_criteria : All IsString g.completion_criteria

pub record FitsNode (a : ActionNode) : Type 0 where
  pub id : a.id ≤ u32_max
  pub capability : IsString a.capability

-- A goal's identifier is not 0: that is how the format writes that there is none.
pub record FitsTask (t : CognitiveTask) : Type 0 where
  pub id : t.id ≤ usize_max
  pub goal_id : Where (λ id. (0 < id) × (id ≤ usize_max)) t.goal_id
  pub steps_taken : t.steps_taken ≤ u32_max
  pub verification_failures : t.verification_failures ≤ u32_max
  pub created_tick : t.created_tick ≤ usize_max
  pub updated_tick : t.updated_tick ≤ usize_max
  pub objective : IsString t.intent.objective
  pub completion_criteria : All IsString t.intent.completion_criteria
  pub max_steps : t.intent.max_steps ≤ u32_max
  pub actions : All FitsNode t.graph.actions
  pub last_observation : Where IsString t.last_observation

pub record FitsFact (f : WorldFact) : Type 0 where
  pub key : IsString f.key
  pub value : IsString f.value
  pub revision : f.revision ≤ usize_max
  pub updated_tick : f.updated_tick ≤ usize_max

pub record FitsRecord (r : MemoryRecord) : Type 0 where
  pub id : r.id ≤ usize_max
  pub importance : r.importance ≤ 65535
  pub created_tick : r.created_tick ≤ usize_max
  pub last_recalled_tick : r.last_recalled_tick ≤ usize_max
  pub recall_count : r.recall_count ≤ u32_max
  pub content : IsString r.content
  pub tags : All IsString r.tags

pub record FitsDelta (d : LearnedDelta) : Type 0 where
  pub id : d.id ≤ usize_max
  pub generation : d.generation ≤ usize_max
  pub namespace : IsString d.namespace

goal_status_of-Trips :
    (s : GoalStatus) → Trips (push_u8 (goal_status_tag s)) (u8 >>= goal_status_of) s
unfolding goal_status_of lift goal_status_try_from
goal_status_of-Trips GoalStatus.active =
    last-Trips _ (push_u8-Trips {v = 1} (omega arith)) (λ c. refl)
goal_status_of-Trips GoalStatus.completed =
    last-Trips _ (push_u8-Trips {v = 2} (omega arith)) (λ c. refl)
goal_status_of-Trips GoalStatus.paused =
    last-Trips _ (push_u8-Trips {v = 3} (omega arith)) (λ c. refl)
goal_status_of-Trips GoalStatus.failed =
    last-Trips _ (push_u8-Trips {v = 4} (omega arith)) (λ c. refl)

task_status_of-Trips :
    (s : TaskStatus) → Trips (push_u8 (task_status_tag s)) (u8 >>= task_status_of) s
unfolding task_status_of lift task_status_try_from
task_status_of-Trips TaskStatus.planned =
    last-Trips _ (push_u8-Trips {v = 1} (omega arith)) (λ c. refl)
task_status_of-Trips TaskStatus.running =
    last-Trips _ (push_u8-Trips {v = 2} (omega arith)) (λ c. refl)
task_status_of-Trips TaskStatus.completed =
    last-Trips _ (push_u8-Trips {v = 3} (omega arith)) (λ c. refl)
task_status_of-Trips TaskStatus.failed =
    last-Trips _ (push_u8-Trips {v = 4} (omega arith)) (λ c. refl)
task_status_of-Trips TaskStatus.paused =
    last-Trips _ (push_u8-Trips {v = 5} (omega arith)) (λ c. refl)

memory_kind_of-Trips : (k : MemoryKind) → Trips (push_u8 (kind_tag k)) (u8 >>= memory_kind_of) k
unfolding memory_kind_of lift kind_try_from
memory_kind_of-Trips episodic = last-Trips _ (push_u8-Trips {v = 1} (omega arith)) (λ c. refl)
memory_kind_of-Trips semantic = last-Trips _ (push_u8-Trips {v = 2} (omega arith)) (λ c. refl)
memory_kind_of-Trips procedural = last-Trips _ (push_u8-Trips {v = 3} (omega arith)) (λ c. refl)

decode_side_effect-Trips :
    (s : SideEffectClass) → Trips (push_u8 (encode_side_effect s)) (u8 >>= decode_side_effect) s
unfolding encode_side_effect decode_side_effect pure
decode_side_effect-Trips read_only = last-Trips _ (push_u8-Trips {v = 1} (omega arith)) (λ c. refl)
decode_side_effect-Trips reversible = last-Trips _ (push_u8-Trips {v = 2} (omega arith)) (λ c. refl)
decode_side_effect-Trips external_write =
    last-Trips _ (push_u8-Trips {v = 3} (omega arith)) (λ c. refl)
decode_side_effect-Trips irreversible =
    last-Trips _ (push_u8-Trips {v = 4} (omega arith)) (λ c. refl)

positive_ne : (n : ℕ) → 0 < n → (n == 0) ≡ false
positive_ne n h = ground arith

goal_unless_zero-Trips :
    (o : Option ℕ)
    → Where (λ id. (0 < id) × (id ≤ usize_max)) o
    → Trips (push_u64 (goal_or_zero o)) (u64 >>= goal_unless_zero) o
unfolding goal_unless_zero pure
goal_unless_zero-Trips none h = last-Trips _ (push_u64-Trips {v = 0} (omega arith)) (λ c. refl)
goal_unless_zero-Trips (some id) h =
    last-Trips _ (push_u64-Trips h.1) (λ c. rw (positive_ne id h.0) refl)

pub decode-encode_goal : (g : Goal) → FitsGoal g → Trips (encode_goal g) decode_goal g
unfolding encode_goal decode_goal
decode-encode_goal g h = ⧺->>= _ (push_u64-Trips h.id) (
    ⧺->>= _ (goal_status_of-Trips g.status) (
      ⧺->>= _ (push_u64-Trips h.created_tick) (
        ⧺->>= _ (push_u64-Trips h.updated_tick) (
          ⧺->>= _ (push_string-Trips h.objective)
            (⧺->>= _ (push_strings-Trips h.completion_criteria) done-pure)))))

decode-encode_action : (a : ActionNode) → FitsNode a → Trips (encode_action a) decode_action a
unfolding encode_action decode_action
decode-encode_action a h = ⧺->>= _ (push_u32-Trips h.id) (
    ⧺->>= _ (push_string-Trips h.capability) (
      ⧺->>= _ (decode_side_effect-Trips a.side_effect)
        (⧺->>= _ (push_bool-Trips a.verification_required) done-pure)))

pub decode-encode_task : (t : CognitiveTask) → FitsTask t → Trips (encode_task t) decode_task t
unfolding encode_task decode_task
decode-encode_task t h = ⧺->>= _ (push_u64-Trips h.id) (
    ⧺->>= _ (goal_unless_zero-Trips t.goal_id h.goal_id) (
      ⧺->>= _ (task_status_of-Trips t.status) (
        ⧺->>= _ (push_u32-Trips h.steps_taken) (
          ⧺->>= _ (push_u32-Trips h.verification_failures) (
            ⧺->>= _ (push_u64-Trips h.created_tick) (
              ⧺->>= _ (push_u64-Trips h.updated_tick) (
                ⧺->>= _ (push_string-Trips h.objective) (
                  ⧺->>= _ (push_strings-Trips h.completion_criteria) (
                    ⧺->>= _ (push_u32-Trips h.max_steps) (
                      ⧺->>= _ (push_len-Trips (length t.graph.actions)) (
                        ⧺->>= _
                          (push_all-Trips encode_action decode_action t.graph.actions
                            (All-map decode-encode_action t.graph.actions h.actions))
                          (⧺->>= _
                            (push_optional_string-Trips t.last_observation h.last_observation)
                            done-pure))))))))))))

pub decode-encode_world_fact :
    (f : WorldFact) → FitsFact f → Trips (encode_world_fact f) decode_world_fact f
unfolding encode_world_fact decode_world_fact
decode-encode_world_fact f h = ⧺->>= _ (push_string-Trips h.key) (
    ⧺->>= _ (push_string-Trips h.value)
      (⧺->>= _ (push_u64-Trips h.revision) (⧺->>= _ (push_u64-Trips h.updated_tick) done-pure)))

not_of : (b : Bool) → b ≡ true → not b ≡ false
not_of b h = ground arith

pub decode-encode_memory_record :
    (r : MemoryRecord)
    → FitsRecord r
    → ascends r.tags ≡ true
    → Trips (encode_memory_record r) decode_memory_record r
unfolding encode_memory_record decode_memory_record
decode-encode_memory_record r h sorted = ⧺->>= _ (push_u64-Trips h.id) (
    ⧺->>= _ (memory_kind_of-Trips r.kind) (
      ⧺->>= _ (push_u16-Trips h.importance) (
        ⧺->>= _ (push_u64-Trips h.created_tick) (
          ⧺->>= _ (push_u64-Trips h.last_recalled_tick) (
            ⧺->>= _ (push_u32-Trips h.recall_count) (
              ⧺->>= _ (push_string-Trips h.content) (
                ⧺->>= _ (push_strings-Trips h.tags) (
                  check-Trips (not (ascends r.tags)) non_canonical_encoding
                    (not_of (ascends r.tags) sorted) done-pure))))))))

pub decode-encode_delta : (d : LearnedDelta) → FitsDelta d → Trips (encode_delta d) decode_delta d
unfolding encode_delta decode_delta
decode-encode_delta d h = ⧺->>= _ (push_u64-Trips h.id) (
    ⧺->>= _ (push_u64-Trips h.generation) (
      ⧺->>= _ (push_bool-Trips d.active)
        (⧺->>= _ (push_string-Trips h.namespace) (⧺->>= _ (push_bytes-Trips d.payload) done-pure))))
