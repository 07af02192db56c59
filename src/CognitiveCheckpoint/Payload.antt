-- ===== src/CognitiveCheckpoint/Payload.antt =====
-- crates/ntd-runtime/src/checkpoint.rs: the payload of a checkpoint, which
-- `encode_cognitive_checkpoint` writes and `decode_cognitive_checkpoint` reads.
use ntd.Prelude.{
  ℕ, ◌≤◌, ◌≡◌, refl, sym, subst, true, false, Text, List, [], ◌∷◌, Option, none, some, length, All,
  nat_ord, text_ord,
}
use ntd.Prelude.BTreeMap.{BTreeMap, Sorted, keys}
use ntd.Prelude.Utf8.{Bytes}
use ntd.Prelude.Words.{usize_max}
use ntd.Memory.{MemoryRecord, SovereignMemory}
use ntd.Cognition.{CognitiveState, Goal, CognitiveTask, WorldFact, LearnedDelta}
use ntd.Wire.Cursor.{Decoder, ◌>>=◌, ◌>>◌, check, pure, take, u32, u64}
use ntd.Wire.Push.{Encoder, ◌⧺◌, done, extend_from_slice, push_u64, push_len, push_all}
use ntd.Wire.Trips.{Trips, ⧺->>=, last-Trips, done-pure}
use ntd.Wire.RoundTrip.{slice-take, push_u64-Trips, push_len-Trips}
use ntd.Wire.Maps.{read_map, EntriesTrip, read_map-Trips}
use ntd.ActionCheckpoint.Outputs.{not_after}
use ntd.CognitiveCheckpoint.Format.{CheckpointError, non_canonical_encoding, sik97_errors}
use ntd.CognitiveCheckpoint.Entries.{own_id, read_entry, push_entry, EntryTrips, entries_trip}
use ntd.CognitiveCheckpoint.Records.{
  encode_goal, decode_goal, encode_task, decode_task, encode_world_fact, decode_world_fact,
  encode_memory_record, decode_memory_record, encode_delta, decode_delta,
}
use ntd.CognitiveCheckpoint.RecordTrips.{FitsFact, decode-encode_world_fact}

-- What the payload holds: a state before its memory is checked.
pub record Parts : Type 0 where
  pub identity : Bytes
  pub tick : ℕ
  pub next_goal_id : ℕ
  pub next_task_id : ℕ
  pub next_delta_id : ℕ
  pub next_memory_id : ℕ
  pub goals : BTreeMap ℕ Goal
  pub tasks : BTreeMap ℕ CognitiveTask
  pub world : BTreeMap Text WorldFact
  pub records : BTreeMap ℕ MemoryRecord
  pub deltas : BTreeMap ℕ LearnedDelta

abbrev pub parts_of : CognitiveState → Parts
parts_of s = record {
  identity = s.identity;
  tick = s.tick;
  next_goal_id = s.next_goal_id;
  next_task_id = s.next_task_id;
  next_delta_id = s.next_delta_id;
  next_memory_id = s.memory.next_id;
  goals = s.goals;
  tasks = s.tasks;
  world = s.world;
  records = s.memory.records;
  deltas = s.deltas;
}

abbrev pub state_of : Parts → SovereignMemory → CognitiveState
state_of p memory = record {
  identity = p.identity;
  tick = p.tick;
  next_goal_id = p.next_goal_id;
  next_task_id = p.next_task_id;
  next_delta_id = p.next_delta_id;
  goals = p.goals;
  tasks = p.tasks;
  world = p.world;
  memory = memory;
  deltas = p.deltas;
}

abbrev pub goal_id_of : Goal → ℕ
goal_id_of g = g.id

abbrev pub task_id_of : CognitiveTask → ℕ
task_id_of t = t.id

abbrev pub record_id_of : MemoryRecord → ℕ
record_id_of r = r.id

abbrev pub delta_id_of : LearnedDelta → ℕ
delta_id_of d = d.id

abbrev pub push_fact : Text × WorldFact → Encoder CheckpointError
push_fact (key, fact) = encode_world_fact fact

-- A fact whose key does not lie behind the previous one is refused.
unfoldable pub read_fact : Option Text → Decoder CheckpointError (Text × WorldFact)
unfolding ◌>>=◌ ◌>>◌ check pure decode_world_fact
read_fact previous = do
  fact ← decode_world_fact
  check (not_after fact.key previous) non_canonical_encoding
  pure (fact.key, fact)

unfoldable pub encode_payload : CognitiveState → Encoder CheckpointError
unfolding ◌⧺◌ done extend_from_slice push_u64 push_len push_all encode_goal encode_task
    encode_world_fact encode_memory_record encode_delta
encode_payload s =
    extend_from_slice s.identity
    ⧺ (push_u64 s.tick
        ⧺ (push_u64 s.next_goal_id
            ⧺ (push_u64 s.next_task_id
                ⧺ (push_u64 s.next_delta_id
                    ⧺ (push_u64 s.memory.next_id
                        ⧺ (push_len (length s.goals)
                            ⧺ (push_len (length s.tasks)
                                ⧺ (push_len (length s.world)
                                    ⧺ (push_len (length s.memory.records)
                                        ⧺ (push_len (length s.deltas)
                                            ⧺ (push_all (push_entry encode_goal) s.goals
                                                ⧺ (push_all (push_entry encode_task) s.tasks
                                                    ⧺ (push_all push_fact s.world
                                                        ⧺ (push_all
                                                            (push_entry encode_memory_record)
                                                            s.memory.records
                                                            ⧺ (push_all (push_entry encode_delta)
                                                            s.deltas
                                                            ⧺ done)))))))))))))))

-- What follows the identity.
unfoldable pub decode_behind : Bytes → Decoder CheckpointError Parts
unfolding ◌>>=◌ pure u64 u32 read_map read_entry read_fact decode_goal decode_task
    decode_memory_record decode_delta
decode_behind identity = do
  tick ← u64
  next_goal_id ← u64
  next_task_id ← u64
  next_delta_id ← u64
  next_memory_id ← u64
  goal_count ← u32
  task_count ← u32
  world_count ← u32
  memory_count ← u32
  delta_count ← u32
  goals ← read_map non_canonical_encoding own_id (read_entry goal_id_of decode_goal) goal_count 0 []
  tasks ← read_map non_canonical_encoding own_id (read_entry task_id_of decode_task) task_count 0 []
  world ← read_map non_canonical_encoding some read_fact world_count none []
  records ←
      read_map non_canonical_encoding own_id (read_entry record_id_of decode_memory_record)
        memory_count 0 []
  deltas ←
      read_map non_canonical_encoding own_id (read_entry delta_id_of decode_delta) delta_count 0 []
  pure (record {
    identity = identity;
    tick = tick;
    next_goal_id = next_goal_id;
    next_task_id = next_task_id;
    next_delta_id = next_delta_id;
    next_memory_id = next_memory_id;
    goals = goals;
    tasks = tasks;
    world = world;
    records = records;
    deltas = deltas;
  })

unfoldable pub decode_payload : Decoder CheckpointError Parts
unfolding ◌>>=◌ take decode_behind
decode_payload = do identity ← take 16; decode_behind identity

-- A fact under its own key.
pub record FitsEntry (kv : Text × WorldFact) : Type 0 where
  pub keyed : kv.0 ≡ kv.1.key
  pub fact : FitsFact kv.1

-- What the payload of a state needs to be read back.
pub record Readable (s : CognitiveState) : Type 0 where
  pub identity : length s.identity ≡ 16
  pub tick : s.tick ≤ usize_max
  pub next_goal_id : s.next_goal_id ≤ usize_max
  pub next_task_id : s.next_task_id ≤ usize_max
  pub next_delta_id : s.next_delta_id ≤ usize_max
  pub next_memory_id : s.memory.next_id ≤ usize_max
  pub goals_sorted : Sorted s.goals
  pub tasks_sorted : Sorted s.tasks
  pub world_sorted : Sorted s.world
  pub records_sorted : Sorted s.memory.records
  pub deltas_sorted : Sorted s.deltas
  pub goals : All (EntryTrips goal_id_of encode_goal decode_goal) s.goals
  pub tasks : All (EntryTrips task_id_of encode_task decode_task) s.tasks
  pub world : All FitsEntry s.world
  pub records :
      All (EntryTrips record_id_of encode_memory_record decode_memory_record) s.memory.records
  pub deltas : All (EntryTrips delta_id_of encode_delta decode_delta) s.deltas

fact_read :
    (previous : Option Text) (kv : Text × WorldFact)
    → not_after kv.0 previous ≡ false
    → FitsEntry kv
    → Trips (push_fact kv) (read_fact previous) kv
unfolding read_fact check pure ◌>>◌ ◌>>=◌
fact_read previous kv e h =
    last-Trips
      (λ fact. check (not_after fact.key previous) non_canonical_encoding >> pure (fact.key, fact))
      (decode-encode_world_fact kv.1 h.fact) (λ c. rw (fresh, sym h.keyed) refl)
  where
    fresh : not_after kv.1.key previous ≡ false
    fresh = subst (λ k. not_after k previous ≡ false) h.keyed e

facts_read :
    (previous : Option Text) (m : BTreeMap Text WorldFact)
    → All (λ k. not_after k previous ≡ false) (keys m)
    → Sorted m
    → All FitsEntry m
    → EntriesTrip non_canonical_encoding some push_fact read_fact previous m
facts_read previous [] b s h = tt
facts_read previous (kv ∷ m) b s h =
    (fact_read previous kv b.0 h.0, facts_read (some kv.0) m (behind kv.0 (keys m) s.0) s.1 h.1)
  where
    behind :
        (j : Text) (ks : List Text)
        → All (λ k. text_ord.lt j k ≡ true) ks
        → All (λ k. not_after k (some j) ≡ false) ks
    behind j [] h = tt
    behind j (k ∷ ks) h = (rw h.0 refl, behind j ks h.1)

none_before : (ks : List Text) → All (λ k. not_after k none ≡ false) ks
none_before [] = tt
none_before (k ∷ ks) = (refl, none_before ks)

-- The payload is read back.
pub decode-encode_parts :
    (s : CognitiveState) → Readable s → Trips (encode_payload s) decode_payload (parts_of s)
unfolding encode_payload decode_payload decode_behind
decode-encode_parts s h = ⧺->>= _ identity_read (
    ⧺->>= _ (push_u64-Trips h.tick) (
      ⧺->>= _ (push_u64-Trips h.next_goal_id) (
        ⧺->>= _ (push_u64-Trips h.next_task_id) (
          ⧺->>= _ (push_u64-Trips h.next_delta_id) (
            ⧺->>= _ (push_u64-Trips h.next_memory_id) (
              ⧺->>= _ (push_len-Trips (length s.goals)) (
                ⧺->>= _ (push_len-Trips (length s.tasks)) (
                  ⧺->>= _ (push_len-Trips (length s.world)) (
                    ⧺->>= _ (push_len-Trips (length s.memory.records)) (
                      ⧺->>= _ (push_len-Trips (length s.deltas)) (
                        ⧺->>= _
                          (read_map-Trips non_canonical_encoding own_id _ _ 0 s.goals h.goals_sorted
                            (entries_trip goal_id_of encode_goal decode_goal s.goals h.goals_sorted
                              h.goals))
                          (⧺->>= _
                            (read_map-Trips non_canonical_encoding own_id _ _ 0 s.tasks
                              h.tasks_sorted
                              (entries_trip task_id_of encode_task decode_task s.tasks
                                h.tasks_sorted h.tasks))
                            (⧺->>= _
                              (read_map-Trips non_canonical_encoding some push_fact read_fact none
                                s.world h.world_sorted
                                (facts_read none s.world (none_before (keys s.world)) h.world_sorted
                                  h.world))
                              (⧺->>= _
                                (read_map-Trips non_canonical_encoding own_id _ _ 0 s.memory.records
                                  h.records_sorted
                                  (entries_trip record_id_of encode_memory_record
                                    decode_memory_record s.memory.records h.records_sorted
                                    h.records))
                                (⧺->>= _
                                  (read_map-Trips non_canonical_encoding own_id _ _ 0 s.deltas
                                    h.deltas_sorted
                                    (entries_trip delta_id_of encode_delta decode_delta s.deltas
                                      h.deltas_sorted h.deltas))
                                  done-pure)))))))))))))))
  where
    identity_read : Trips {E = CheckpointError} (extend_from_slice s.identity) (take 16) s.identity
    identity_read =
        subst (λ n. Trips {E = CheckpointError} (extend_from_slice s.identity) (take n) s.identity)
          h.identity (slice-take s.identity)
