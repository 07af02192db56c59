-- ===== src/ActionCheckpoint/Payload.antt =====
-- crates/ntd-runtime/src/action_checkpoint.rs: the payload of a checkpoint, which
-- `encode_action_fabric_checkpoint` writes and `decode_action_fabric_checkpoint` reads.
use ntd.Prelude.{
  ℕ, ◌≤◌, ◌<◌, ◌≡◌, refl, sym, true, false, ◌||◌, leb, ltb, ◌==◌, [], ◌∷◌, length, All, arith,
  nat_ord,
}
use ntd.Prelude.Words.{usize_max}
use ntd.Prelude.BTreeMap.{BTreeMap, Sorted, keys}
use ntd.ActionFabric.Types.{ActionFabricState, ActionPlanState}
use ntd.Wire.Cursor.{Decoder, ◌>>=◌, ◌>>◌, check, pure, u32, u64}
use ntd.Wire.Push.{Encoder, ◌⧺◌, done, push_u64, push_len, push_all}
use ntd.Wire.Trips.{Trips, ⧺->>=, last-Trips, done-pure}
use ntd.Wire.RoundTrip.{push_u64-Trips, push_len-Trips}
use ntd.Wire.Maps.{read_map, EntriesTrip, read_map-Trips}
use ntd.ActionCheckpoint.Format.{ActionCheckpointError, non_canonical_encoding, checkpoint_errors}
use ntd.ActionCheckpoint.Plans.{encode_plan, decode_plan, FitsPlan, decode-encode_plan}

-- `for plan in state.plans.values() { encode_plan(&mut payload, plan)?; }`
unfoldable pub push_plan : ℕ × ActionPlanState → Encoder ActionCheckpointError
unfolding encode_plan
push_plan (key, plan) = encode_plan plan

-- A plan whose identifier is 0 or does not lie behind the previous one is refused.
unfoldable pub read_plan : ℕ → Decoder ActionCheckpointError (ℕ × ActionPlanState)
unfolding ◌>>=◌ ◌>>◌ check pure decode_plan
read_plan previous = do
  plan ← decode_plan
  check (plan.id == 0 || leb plan.id previous) non_canonical_encoding
  pure (plan.id, plan)

abbrev pub same_key : ℕ → ℕ
same_key id = id

unfoldable pub encode_payload : ActionFabricState → Encoder ActionCheckpointError
unfolding ◌⧺◌ done push_u64 push_len push_all push_plan
encode_payload s =
    push_u64 s.next_plan_id
    ⧺ (push_u64 s.next_action_id
        ⧺ (push_len (length s.plans) ⧺ (push_all push_plan s.plans ⧺ done)))

unfoldable pub decode_payload : Decoder ActionCheckpointError ActionFabricState
unfolding ◌>>=◌ pure u64 u32 read_map read_plan
decode_payload = do
  next_plan_id ← u64
  next_action_id ← u64
  count ← u32
  plans ← read_map non_canonical_encoding same_key read_plan count 0 []
  pure (record { next_plan_id = next_plan_id; next_action_id = next_action_id; plans = plans })

-- A plan under its own identifier, which is not 0.
pub record FitsEntry (kv : ℕ × ActionPlanState) : Type 0 where
  pub keyed : kv.0 ≡ kv.1.id
  pub positive : 0 < kv.0
  pub plan : FitsPlan kv.1

-- What the types guarantee of a state, its plans being keyed.
pub record FitsState (s : ActionFabricState) : Type 0 where
  pub next_plan_id : s.next_plan_id ≤ usize_max
  pub next_action_id : s.next_action_id ≤ usize_max
  pub sorted : Sorted s.plans
  pub entries : All FitsEntry s.plans

push_plan-Trips :
    (previous : ℕ) (kv : ℕ × ActionPlanState)
    → ltb previous kv.0 ≡ true
    → FitsEntry kv
    → Trips (push_plan kv) (read_plan previous) kv
unfolding push_plan read_plan check pure ◌>>◌ ◌>>=◌
push_plan-Trips previous kv e h =
    last-Trips
      (λ plan.
        check (plan.id == 0 || leb plan.id previous) non_canonical_encoding >> pure (plan.id, plan))
      (decode-encode_plan kv.1 h.plan) (λ c. rw (fresh, sym h.keyed) refl)
  where
    fresh : (kv.1.id == 0 || leb kv.1.id previous) ≡ false
    fresh = let k = h.keyed in let p = h.positive in ground (arith, e)

plans_trip :
    (previous : ℕ) (m : BTreeMap ℕ ActionPlanState)
    → All (λ k. ltb previous k ≡ true) (keys m)
    → Sorted m
    → All FitsEntry m
    → EntriesTrip non_canonical_encoding same_key push_plan read_plan previous m
plans_trip previous [] b s h = tt
plans_trip previous (kv ∷ m) b s h =
    (push_plan-Trips previous kv b.0 h.0, plans_trip kv.0 m s.0 s.1 h.1)

keys_positive :
    (m : BTreeMap ℕ ActionPlanState) → All FitsEntry m → All (λ k. ltb 0 k ≡ true) (keys m)
keys_positive [] h = tt
keys_positive ((k, p) ∷ m) h = (let e = h.0.positive in ground arith, keys_positive m h.1)

-- The payload is read back.
pub decode-encode_payload :
    (s : ActionFabricState) → FitsState s → Trips (encode_payload s) decode_payload s
unfolding encode_payload decode_payload
decode-encode_payload s h = ⧺->>= _ (push_u64-Trips h.next_plan_id) (
    ⧺->>= _ (push_u64-Trips h.next_action_id) (
      ⧺->>= _ (push_len-Trips (length s.plans)) (
        ⧺->>= _
          (read_map-Trips non_canonical_encoding same_key push_plan read_plan 0 s.plans h.sorted
            (plans_trip 0 s.plans (keys_positive s.plans h.entries) h.sorted h.entries))
          done-pure)))
