-- ===== src/CognitiveCheckpoint/Tests.antt =====
-- The theorem about the checkpoint, applied to a state with one entry of every kind.
use ntd.Prelude.{
  ℕ, ◌<◌, ◌≡◌, ◌⊎◌, refl, Bool, true, false, codes, List, [], ◌∷◌, none, some, Result, ok, err,
  arith, nat_ord, text_ord,
}
use ntd.Prelude.Utf8.{Bytes, is_string}
use ntd.Core.{reversible}
use ntd.Memory.{semantic, MemoryRecord}
use ntd.Memory.Laws.{WellFormed, IsMemory}
use ntd.Cognition.{
  CognitiveState, Goal, GoalStatus, CognitiveTask, TaskStatus, WorldFact, LearnedDelta,
}
use ntd.Cognition.Validate.{validate_state}
use ntd.Cognition.WellFormed.{IsSound}
use ntd.Cognition.Soundness.{validate-IsConsistent}
use ntd.CognitiveCheckpoint.Format.{CheckpointError, overflow}
use ntd.CognitiveCheckpoint.RoundTrip.{FitsState, cognition_survives}
use ntd.CognitiveCheckpoint.Checkpoint.{encode_cognitive_checkpoint, decode_cognitive_checkpoint}

abbrev the_goal : Goal
the_goal = record {
  id = 1;
  objective = codes "ship";
  completion_criteria = codes "built" ∷ [];
  status = GoalStatus.active;
  created_tick = 0;
  updated_tick = 0;
}

abbrev the_task : CognitiveTask
the_task = record {
  id = 1;
  goal_id = some 1;
  intent = record { objective = codes "build"; completion_criteria = []; max_steps = 32 };
  graph = record {
    actions =
        record {
          id = 7;
          capability = codes "make";
          side_effect = reversible;
          verification_required = true;
        }
        ∷ [];
  };
  status = TaskStatus.running;
  steps_taken = 2;
  verification_failures = 1;
  last_observation = some (codes "half");
  created_tick = 0;
  updated_tick = 3;
}

abbrev the_fact : WorldFact
the_fact = record { key = codes "os"; value = codes "linux"; revision = 1; updated_tick = 2 }

abbrev the_memory : MemoryRecord
the_memory = record {
  id = 4;
  kind = semantic;
  content = codes "make builds";
  tags = codes "a" ∷ codes "b" ∷ [];
  importance = 500;
  created_tick = 1;
  last_recalled_tick = 2;
  recall_count = 3;
}

abbrev the_delta : LearnedDelta
the_delta = record {
  id = 2;
  namespace = codes "lora";
  generation = 1;
  payload = 9 ∷ [];
  active = true;
}

abbrev full : CognitiveState
full = record {
  identity = 1 ∷ 2 ∷ 3 ∷ 4 ∷ 5 ∷ 6 ∷ 7 ∷ 8 ∷ 9 ∷ 10 ∷ 11 ∷ 12 ∷ 13 ∷ 14 ∷ 15 ∷ 16 ∷ [];
  tick = 3;
  next_goal_id = 2;
  next_task_id = 2;
  next_delta_id = 3;
  goals = (1, the_goal) ∷ [];
  tasks = (1, the_task) ∷ [];
  world = (codes "os", the_fact) ∷ [];
  memory = record { next_id = 5; records = (4, the_memory) ∷ [] };
  deltas = (2, the_delta) ∷ [];
}

the_memory-WellFormed : WellFormed (4, the_memory)
unfolding ntd.Prelude.Sorting.ascends ntd.Prelude.is_blank ntd.Prelude.Strings.text_lt
the_memory-WellFormed = (omega arith, refl, refl, omega arith, refl)

full_memory : IsMemory full.memory
full_memory = record {
  positive = refl;
  sorted = (tt, tt);
  below = (omega arith, tt);
  records = (the_memory-WellFormed, tt);
}

full_valid : validate_state full ≡ ok tt
unfolding validate_state ntd.Prelude.is_blank ntd.Prelude.text_eq
full_valid = refl

full_sound : IsSound full
full_sound =
    let (goals, tasks, deltas, world) =
      (validate-IsConsistent full (tt, tt) (tt, tt) (tt, tt)).0 full_valid in
    record { goals = goals; tasks = tasks; deltas = deltas; world = world; memory = full_memory }

full_fits : FitsState full
full_fits = record {
  identity = refl;
  tick = omega arith;
  next_goal_id = omega arith;
  next_task_id = omega arith;
  next_delta_id = omega arith;
  next_memory_id = omega arith;
  world_sorted = (tt, tt);
  goals = (
    (
      omega arith,
      record {
        id = omega arith;
        created_tick = omega arith;
        updated_tick = omega arith;
        objective = is_string (codes "ship") refl;
        completion_criteria = (is_string (codes "built") refl, tt);
      },
    ),
    tt,
  );
  tasks = (
    (
      omega arith,
      record {
        id = omega arith;
        goal_id = (omega arith, omega arith);
        steps_taken = omega arith;
        verification_failures = omega arith;
        created_tick = omega arith;
        updated_tick = omega arith;
        objective = is_string (codes "build") refl;
        completion_criteria = tt;
        max_steps = omega arith;
        actions = (record { id = omega arith; capability = is_string (codes "make") refl }, tt);
        last_observation = is_string (codes "half") refl;
      },
    ),
    tt,
  );
  world = (
    record {
      key = is_string (codes "os") refl;
      value = is_string (codes "linux") refl;
      revision = omega arith;
      updated_tick = omega arith;
    },
    tt,
  );
  records = (
    record {
      id = omega arith;
      importance = omega arith;
      created_tick = omega arith;
      last_recalled_tick = omega arith;
      recall_count = omega arith;
      content = is_string (codes "make builds") refl;
      tags = (is_string (codes "a") refl, (is_string (codes "b") refl, tt));
    },
    tt,
  );
  deltas = (
    (
      omega arith,
      record {
        id = omega arith;
        generation = omega arith;
        namespace = is_string (codes "lora") refl;
      },
    ),
    tt,
  );
}

cognition_survives_example :
    ((bytes : Bytes) × (encode_cognitive_checkpoint full ≡ ok bytes)
      × (decode_cognitive_checkpoint bytes ≡ ok full))
    ⊎ (encode_cognitive_checkpoint full ≡ err overflow)
cognition_survives_example = cognition_survives full full_sound full_fits

abbrev decode_all : Result CheckpointError Bytes → Result CheckpointError CognitiveState
decode_all (ok bytes) = decode_cognitive_checkpoint bytes
decode_all (err e) = err e

-- The bytes are written, and read back by evaluation.
full_evaluated : decode_all (encode_cognitive_checkpoint full) ≡ ok full
unfolding encode_cognitive_checkpoint decode_cognitive_checkpoint ntd.Prelude.is_blank
    ntd.Prelude.Strings.text_lt ntd.Prelude.text_eq
full_evaluated = refl
