-- ===== src/CognitiveCheckpoint/Written.antt =====
-- crates/ntd-runtime/src/checkpoint.rs: the writers fail only where a length overflows.
use ntd.Prelude.{ℕ, Text}
use ntd.Core.{ActionNode}
use ntd.Memory.{MemoryRecord}
use ntd.Cognition.{CognitiveState, Goal, CognitiveTask, WorldFact, LearnedDelta}
use ntd.Wire.Push.{Encoder}
use ntd.Wire.Writes.{Writes, write_rules, push_all-Writes, slice-Writes}
use ntd.CognitiveCheckpoint.Format.{CheckpointError, sik97_errors}
use ntd.CognitiveCheckpoint.Entries.{push_entry}
use ntd.CognitiveCheckpoint.Records.{
  encode_goal, encode_action, encode_task, encode_world_fact, encode_memory_record, encode_delta,
}
use ntd.CognitiveCheckpoint.Payload.{push_fact, encode_payload}

encode_goal-Writes : (g : Goal) → Writes (encode_goal g)
unfolding encode_goal
encode_goal-Writes g = search write_rules depth 12

encode_action-Writes : (a : ActionNode) → Writes (encode_action a)
unfolding encode_action
encode_action-Writes a = search write_rules depth 9

encode_task-Writes : (t : CognitiveTask) → Writes (encode_task t)
unfolding encode_task
encode_task-Writes t = search (write_rules, push_all-Writes, encode_action-Writes) depth 20

encode_world_fact-Writes : (f : WorldFact) → Writes (encode_world_fact f)
unfolding encode_world_fact
encode_world_fact-Writes f = search write_rules depth 9

encode_memory_record-Writes : (r : MemoryRecord) → Writes (encode_memory_record r)
unfolding encode_memory_record
encode_memory_record-Writes r = search write_rules depth 14

encode_delta-Writes : (d : LearnedDelta) → Writes (encode_delta d)
unfolding encode_delta
encode_delta-Writes d = search write_rules depth 9

push_entry-Writes :
    {V : Type 0} (encode : V → Encoder CheckpointError)
    → ((v : V) → Writes (encode v))
    → (kv : ℕ × V) → Writes (push_entry encode kv)
push_entry-Writes encode h kv = h kv.1

push_fact-Writes : (kv : Text × WorldFact) → Writes (push_fact kv)
push_fact-Writes kv = encode_world_fact-Writes kv.1

pub encode_payload-Writes : (s : CognitiveState) → Writes (encode_payload s)
unfolding encode_payload
encode_payload-Writes s =
    let goals =
      push_all-Writes (push_entry encode_goal) (push_entry-Writes encode_goal encode_goal-Writes)
        s.goals in
    let tasks =
      push_all-Writes (push_entry encode_task) (push_entry-Writes encode_task encode_task-Writes)
        s.tasks in
    let world = push_all-Writes push_fact push_fact-Writes s.world in
    let records =
      push_all-Writes (push_entry encode_memory_record)
        (push_entry-Writes encode_memory_record encode_memory_record-Writes) s.memory.records in
    let deltas =
      push_all-Writes (push_entry encode_delta) (push_entry-Writes encode_delta encode_delta-Writes)
        s.deltas in
    search (write_rules, slice-Writes) depth 24
