-- ===== src/CognitiveCheckpoint/RoundTrip.antt =====
-- crates/ntd-runtime/src/checkpoint.rs: what a checkpoint keeps of the state it was taken of.
use ntd.Prelude.{
  ℕ, ◌+◌, ◌<◌, ◌≤◌, ◌≡◌, ◌⊎◌, inl, inr, refl, subst, true, Text, [], ◌∷◌, append-nil, length, All,
  ok, err, arith, nat_ord, text_ord,
}
use ntd.Prelude.Sorting.{ascends}
use ntd.Prelude.Utf8.{Bytes}
use ntd.Prelude.Words.{usize_max}
use ntd.Prelude.BTreeMap.{BTreeMap, Sorted}
use ntd.Memory.{MemoryRecord}
use ntd.Memory.Laws.{WellFormed, from_parts-IsMemory}
use ntd.Cognition.{CognitiveState, Goal, CognitiveTask, WorldFact, LearnedDelta}
use ntd.Cognition.WellFormed.{IsSound, GoalOk, TaskOk, FactOk, DeltaOk}
use ntd.Cognition.Soundness.{IsSound-validate}
use ntd.Wire.Cursor.{cursor_new}
use ntd.Wire.Frame.{seal, open_frame-seal, seal-fits}
use ntd.Wire.Writes.{writes, overflows, seal-Writes}
use ntd.CognitiveCheckpoint.Format.{sik97, sik97-IsFormat, overflow, sik97_errors}
use ntd.CognitiveCheckpoint.Entries.{EntryTrips}
use ntd.CognitiveCheckpoint.Records.{
  encode_goal, decode_goal, encode_task, decode_task, encode_memory_record, decode_memory_record,
  encode_delta, decode_delta,
}
use ntd.CognitiveCheckpoint.RecordTrips.{
  FitsGoal, FitsTask, FitsFact, FitsRecord, FitsDelta, decode-encode_goal, decode-encode_task,
  decode-encode_memory_record, decode-encode_delta,
}
use ntd.CognitiveCheckpoint.Payload.{
  parts_of, goal_id_of, task_id_of, record_id_of, delta_id_of, encode_payload, decode_payload,
  FitsEntry, Readable, decode-encode_parts,
}
use ntd.CognitiveCheckpoint.Written.{encode_payload-Writes}
use ntd.CognitiveCheckpoint.Checkpoint.{encode_cognitive_checkpoint, decode_cognitive_checkpoint}

-- What Rust's types guarantee of a state, and that the identifiers of goals, tasks and deltas are not
-- 0: they are counted from 1.
pub record FitsState (s : CognitiveState) : Type 0 where
  pub identity : length s.identity ≡ 16
  pub tick : s.tick ≤ usize_max
  pub next_goal_id : s.next_goal_id ≤ usize_max
  pub next_task_id : s.next_task_id ≤ usize_max
  pub next_delta_id : s.next_delta_id ≤ usize_max
  pub next_memory_id : s.memory.next_id ≤ usize_max
  pub world_sorted : Sorted s.world
  pub goals : All (λ kv. (0 < kv.0) × FitsGoal kv.1) s.goals
  pub tasks : All (λ kv. (0 < kv.0) × FitsTask kv.1) s.tasks
  pub world : All (λ kv. FitsFact kv.1) s.world
  pub records : All (λ kv. FitsRecord kv.1) s.memory.records
  pub deltas : All (λ kv. (0 < kv.0) × FitsDelta kv.1) s.deltas

record_facts :
    (id : ℕ) (r : MemoryRecord)
    → WellFormed (id, r)
    → (id ≡ r.id) × (0 < id) × (ascends r.tags ≡ true)
record_facts id r h = (h.1, h.0, h.4)

goals_read :
    (m : BTreeMap ℕ Goal)
    → All GoalOk m
    → All (λ kv. (0 < kv.0) × FitsGoal kv.1) m
    → All (EntryTrips goal_id_of encode_goal decode_goal) m
goals_read [] o h = tt
goals_read ((id, g) ∷ m) o h = (
  record { keyed = o.0.0; positive = h.0.0; trips = decode-encode_goal g h.0.1 },
  goals_read m o.1 h.1,
)

tasks_read :
    (goals : BTreeMap ℕ Goal) (m : BTreeMap ℕ CognitiveTask)
    → All (TaskOk goals) m
    → All (λ kv. (0 < kv.0) × FitsTask kv.1) m
    → All (EntryTrips task_id_of encode_task decode_task) m
tasks_read goals [] o h = tt
tasks_read goals ((id, t) ∷ m) o h = (
  record { keyed = o.0.0; positive = h.0.0; trips = decode-encode_task t h.0.1 },
  tasks_read goals m o.1 h.1,
)

deltas_read :
    (m : BTreeMap ℕ LearnedDelta)
    → All DeltaOk m
    → All (λ kv. (0 < kv.0) × FitsDelta kv.1) m
    → All (EntryTrips delta_id_of encode_delta decode_delta) m
deltas_read [] o h = tt
deltas_read ((id, d) ∷ m) o h = (
  record { keyed = o.0.0; positive = h.0.0; trips = decode-encode_delta d h.0.1 },
  deltas_read m o.1 h.1,
)

records_read :
    (m : BTreeMap ℕ MemoryRecord)
    → All WellFormed m
    → All (λ kv. FitsRecord kv.1) m
    → All (EntryTrips record_id_of encode_memory_record decode_memory_record) m
records_read [] o h = tt
records_read ((id, r) ∷ m) o h =
    let (keyed, positive, sorted) = record_facts id r o.0 in
    (
      record {
        keyed = keyed;
        positive = positive;
        trips = decode-encode_memory_record r h.0 sorted;
      },
      records_read m o.1 h.1,
    )

world_entries :
    (m : BTreeMap Text WorldFact) → All FactOk m → All (λ kv. FitsFact kv.1) m → All FitsEntry m
world_entries [] o h = tt
world_entries ((key, f) ∷ m) o h = (record { keyed = o.0.0; fact = h.0 }, world_entries m o.1 h.1)

IsSound-Readable : (s : CognitiveState) → IsSound s → FitsState s → Readable s
IsSound-Readable s v h = record {
  identity = h.identity;
  tick = h.tick;
  next_goal_id = h.next_goal_id;
  next_task_id = h.next_task_id;
  next_delta_id = h.next_delta_id;
  next_memory_id = h.next_memory_id;
  goals_sorted = v.goals.sorted;
  tasks_sorted = v.tasks.sorted;
  world_sorted = h.world_sorted;
  records_sorted = v.memory.sorted;
  deltas_sorted = v.deltas.sorted;
  goals = goals_read s.goals v.goals.entries h.goals;
  tasks = tasks_read s.goals s.tasks v.tasks.entries h.tasks;
  world = world_entries s.world v.world h.world;
  records = records_read s.memory.records v.memory.records h.records;
  deltas = deltas_read s.deltas v.deltas.entries h.deltas;
}

-- A payload that was sealed is read to its end.
parts_read :
    (s : CognitiveState) {payload : Bytes}
    → Readable s
    → length payload ≤ usize_max
    → encode_payload s ≡ ok payload
    → decode_payload (cursor_new payload)
      ≡ ok (parts_of s, record { offset = 0 + length payload; rest = [] })
parts_read s {payload} h small e =
    subst
      (λ bs.
        decode_payload (cursor_new bs)
        ≡ ok (parts_of s, record { offset = 0 + length payload; rest = [] }))
      (append-nil payload)
      (((decode-encode_parts s h).trips payload e).reads 0 [] (omega (arith, small)))

decoded :
    (s : CognitiveState) {payload bytes : Bytes}
    → IsSound s
    → FitsState s
    → encode_payload s ≡ ok payload
    → seal sik97 payload ≡ ok bytes
    → decode_cognitive_checkpoint bytes ≡ ok s
unfolding decode_cognitive_checkpoint
decoded s {payload} v h e k =
    let read = parts_read s (IsSound-Readable s v h) (seal-fits sik97 sik97-IsFormat payload k) e in
    let memory =
      (from_parts-IsMemory s.memory.next_id s.memory.records v.memory.sorted).0.1 v.memory in
    rw (open_frame-seal sik97 sik97-IsFormat payload k, read, memory, IsSound-validate s v) refl

-- Encoding a sound state fails only where a length overflows; else decoding the bytes gives the state
-- back. The state's integers and strings are within their Rust types, its map of facts ascends, and
-- the identifiers of its goals, tasks and deltas are not 0.
pub cognition_survives :
    (s : CognitiveState)
    → IsSound s
    → FitsState s
    → ((bytes : Bytes) × (encode_cognitive_checkpoint s ≡ ok bytes)
        × (decode_cognitive_checkpoint bytes ≡ ok s))
      ⊎ (encode_cognitive_checkpoint s ≡ err overflow)
unfolding encode_cognitive_checkpoint
cognition_survives s v h = elim (encode_payload-Writes s) [
  | overflows e ↦ inr (rw (encode_cognitive_checkpoint, IsSound-validate s v, e) refl)
  | writes payload e ↦ elim (seal-Writes sik97 payload) [
    | overflows k ↦ inr (rw (encode_cognitive_checkpoint, IsSound-validate s v, e) k)
    | writes bytes k ↦
        inl (bytes, rw (encode_cognitive_checkpoint, IsSound-validate s v, e) k, decoded s v h e k)
  ]
]
