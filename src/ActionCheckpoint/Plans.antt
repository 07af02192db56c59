-- ===== src/ActionCheckpoint/Plans.antt =====
-- crates/ntd-runtime/src/action_checkpoint.rs: plans and their actions.
use ntd.Prelude.{ℕ, ◌≤◌, refl, All, All-map, length, map_err, arith, nat_ord}
use ntd.Prelude.Utf8.{IsString}
use ntd.Prelude.Words.{u32_max, usize_max}
use ntd.Core.{SideEffectClass}
use ntd.ActionFabric.PlanStatus.{ActionPlanStatus, plan_status_tag}
use ntd.ActionFabric.PlanStatus
use ntd.ActionFabric.Types.{
  PlannedAction, ActionPlanState, ActionStatus, status_tag, action_status_try_from,
  plan_status_try_from,
}
use ntd.Wire.Cursor.{
  Decoder, ◌>>=◌, pure, lift, u8, u32, u64, string, boolean, repeat, optional_string,
  optional_bytes,
}
use ntd.Wire.Push.{
  Encoder, ◌⧺◌, done, push_u8, push_u32, push_u64, push_bool, push_len, push_string, push_all,
  push_optional_string, push_optional_bytes,
}
use ntd.Wire.Trips.{Trips, ⧺->>=, last-Trips, done-pure}
use ntd.Wire.RoundTrip.{
  Where, push_u8-Trips, push_u32-Trips, push_u64-Trips, push_bool-Trips, push_len-Trips,
  push_string-Trips, push_all-Trips, push_optional_string-Trips, push_optional_bytes-Trips,
}
use ntd.ActionCheckpoint.Format.{ActionCheckpointError, fabric_error, checkpoint_errors}
use ntd.ActionCheckpoint.Actions.{
  encode_typed_action, decode_typed_action, FitsAction, decode-encode_typed_action,
}
use ntd.ActionCheckpoint.Outputs.{
  encode_side_effect, decode_side_effect, decode-encode_side_effect, encode_side_effect-u8,
  push_optional_output, optional_output, FitsOutput, push_optional_output-Trips,
}

unfoldable pub encode_planned_action : PlannedAction → Encoder ActionCheckpointError
unfolding ◌⧺◌ done push_u64 push_u32 push_u8 push_string push_bool push_optional_string
    push_optional_bytes encode_side_effect encode_typed_action push_optional_output
encode_planned_action a =
    push_u64 a.id
    ⧺ (push_u32 a.node_id
        ⧺ (push_string a.capability
            ⧺ (push_u32 a.capability_version
                ⧺ (push_u8 (encode_side_effect a.side_effect)
                    ⧺ (push_bool a.verification_required
                        ⧺ (encode_typed_action a.action
                            ⧺ (push_u8 (status_tag a.status)
                                ⧺ (push_u32 a.attempts
                                    ⧺ (push_optional_output a.output
                                        ⧺ (push_optional_bytes a.resume_token
                                            ⧺ (push_optional_bytes a.rollback_token
                                                ⧺ (push_optional_string a.last_error
                                                    ⧺ done))))))))))))

unfoldable pub read_side_effect : ℕ → Decoder ActionCheckpointError SideEffectClass
unfolding lift decode_side_effect
read_side_effect raw = lift (decode_side_effect raw)

unfoldable pub read_status : ℕ → Decoder ActionCheckpointError ActionStatus
unfolding lift action_status_try_from
read_status raw = lift (map_err fabric_error (action_status_try_from raw))

unfoldable pub read_plan_status : ℕ → Decoder ActionCheckpointError ActionPlanStatus
unfolding lift plan_status_try_from
read_plan_status raw = lift (map_err fabric_error (plan_status_try_from raw))

unfoldable pub decode_planned_action : Decoder ActionCheckpointError PlannedAction
unfolding ◌>>=◌ pure lift u8 u32 u64 string boolean optional_string optional_bytes
    decode_side_effect decode_typed_action optional_output read_side_effect read_status
decode_planned_action = do
  id ← u64
  node_id ← u32
  capability ← string
  capability_version ← u32
  side_effect ← (do raw ← u8; read_side_effect raw)
  verification_required ← boolean
  action ← decode_typed_action
  status ← (do status_raw ← u8; read_status status_raw)
  attempts ← u32
  output ← optional_output
  resume_token ← optional_bytes
  rollback_token ← optional_bytes
  last_error ← optional_string
  pure (record {
    id = id;
    node_id = node_id;
    capability = capability;
    capability_version = capability_version;
    side_effect = side_effect;
    verification_required = verification_required;
    action = action;
    status = status;
    attempts = attempts;
    output = output;
    resume_token = resume_token;
    rollback_token = rollback_token;
    last_error = last_error;
  })

unfoldable pub encode_plan : ActionPlanState → Encoder ActionCheckpointError
unfolding ◌⧺◌ done push_u64 push_u8 push_len push_all encode_planned_action
encode_plan p =
    push_u64 p.id
    ⧺ (push_u64 p.task_id
        ⧺ (push_u64 p.cursor
            ⧺ (push_u8 (plan_status_tag p.status)
                ⧺ (push_len (length p.actions)
                    ⧺ (push_all encode_planned_action p.actions ⧺ done)))))

unfoldable pub decode_plan : Decoder ActionCheckpointError ActionPlanState
unfolding ◌>>=◌ pure lift u8 u32 u64 repeat decode_planned_action read_plan_status
decode_plan = do
  id ← u64
  task_id ← u64
  plan_cursor ← u64
  status ← (do status_raw ← u8; read_plan_status status_raw)
  action_count ← u32
  actions ← repeat action_count decode_planned_action
  pure (record {
    id = id;
    task_id = task_id;
    cursor = plan_cursor;
    status = status;
    actions = actions;
  })

-- What Rust's types guarantee of an action: machine integers and UTF-8 strings.
pub record FitsPlanned (a : PlannedAction) : Type 0 where
  pub id : a.id ≤ usize_max
  pub node_id : a.node_id ≤ u32_max
  pub capability : IsString a.capability
  pub capability_version : a.capability_version ≤ u32_max
  pub action : FitsAction a.action
  pub attempts : a.attempts ≤ u32_max
  pub output : Where FitsOutput a.output
  pub last_error : Where IsString a.last_error

pub record FitsPlan (p : ActionPlanState) : Type 0 where
  pub id : p.id ≤ usize_max
  pub task_id : p.task_id ≤ usize_max
  pub cursor : p.cursor ≤ usize_max
  pub actions : All FitsPlanned p.actions

read_status-Trips : (s : ActionStatus) → Trips (push_u8 (status_tag s)) (u8 >>= read_status) s
unfolding read_status lift action_status_try_from
read_status-Trips ActionStatus.prepared =
    last-Trips _ (push_u8-Trips {v = 1} (omega arith)) (λ c. refl)
read_status-Trips ActionStatus.running =
    last-Trips _ (push_u8-Trips {v = 2} (omega arith)) (λ c. refl)
read_status-Trips ActionStatus.suspended =
    last-Trips _ (push_u8-Trips {v = 3} (omega arith)) (λ c. refl)
read_status-Trips ActionStatus.retryable =
    last-Trips _ (push_u8-Trips {v = 4} (omega arith)) (λ c. refl)
read_status-Trips ActionStatus.committed =
    last-Trips _ (push_u8-Trips {v = 5} (omega arith)) (λ c. refl)
read_status-Trips ActionStatus.rolled_back =
    last-Trips _ (push_u8-Trips {v = 6} (omega arith)) (λ c. refl)
read_status-Trips ActionStatus.failed =
    last-Trips _ (push_u8-Trips {v = 7} (omega arith)) (λ c. refl)

read_plan_status-Trips :
    (s : ActionPlanStatus) → Trips (push_u8 (plan_status_tag s)) (u8 >>= read_plan_status) s
unfolding read_plan_status lift plan_status_try_from
read_plan_status-Trips PlanStatus.ready =
    last-Trips _ (push_u8-Trips {v = 1} (omega arith)) (λ c. refl)
read_plan_status-Trips PlanStatus.suspended =
    last-Trips _ (push_u8-Trips {v = 2} (omega arith)) (λ c. refl)
read_plan_status-Trips PlanStatus.completed =
    last-Trips _ (push_u8-Trips {v = 3} (omega arith)) (λ c. refl)
read_plan_status-Trips PlanStatus.failed =
    last-Trips _ (push_u8-Trips {v = 4} (omega arith)) (λ c. refl)
read_plan_status-Trips PlanStatus.rolled_back =
    last-Trips _ (push_u8-Trips {v = 5} (omega arith)) (λ c. refl)

read_side_effect-Trips :
    (s : SideEffectClass) → Trips (push_u8 (encode_side_effect s)) (u8 >>= read_side_effect) s
unfolding read_side_effect lift
read_side_effect-Trips s =
    last-Trips _ (push_u8-Trips (encode_side_effect-u8 s))
      (λ c. rw (decode-encode_side_effect s) refl)

-- A planned action is read back.
pub decode-encode_planned_action :
    (a : PlannedAction) → FitsPlanned a → Trips (encode_planned_action a) decode_planned_action a
unfolding encode_planned_action decode_planned_action
decode-encode_planned_action a h = ⧺->>= _ (push_u64-Trips h.id) (
    ⧺->>= _ (push_u32-Trips h.node_id) (
      ⧺->>= _ (push_string-Trips h.capability) (
        ⧺->>= _ (push_u32-Trips h.capability_version) (
          ⧺->>= _ (read_side_effect-Trips a.side_effect) (
            ⧺->>= _ (push_bool-Trips a.verification_required) (
              ⧺->>= _ (decode-encode_typed_action a.action h.action) (
                ⧺->>= _ (read_status-Trips a.status) (
                  ⧺->>= _ (push_u32-Trips h.attempts) (
                    ⧺->>= _ (push_optional_output-Trips a.output h.output) (
                      ⧺->>= _ (push_optional_bytes-Trips a.resume_token) (
                        ⧺->>= _ (push_optional_bytes-Trips a.rollback_token) (
                          ⧺->>= _ (push_optional_string-Trips a.last_error h.last_error)
                            done-pure))))))))))))

-- A plan is read back.
pub decode-encode_plan : (p : ActionPlanState) → FitsPlan p → Trips (encode_plan p) decode_plan p
unfolding encode_plan decode_plan
decode-encode_plan p h = ⧺->>= _ (push_u64-Trips h.id) (
    ⧺->>= _ (push_u64-Trips h.task_id) (
      ⧺->>= _ (push_u64-Trips h.cursor) (
        ⧺->>= _ (read_plan_status-Trips p.status) (
          ⧺->>= _ (push_len-Trips (length p.actions)) (
            ⧺->>= _
              (push_all-Trips encode_planned_action decode_planned_action p.actions
                (All-map decode-encode_planned_action p.actions h.actions))
              done-pure)))))
