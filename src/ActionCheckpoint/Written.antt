-- ===== src/ActionCheckpoint/Written.antt =====
-- crates/ntd-runtime/src/action_checkpoint.rs: the writers fail only where a length overflows.
use ntd.Prelude.{ℕ, Text}
use ntd.Capability.Action.{
  TypedAction, web_search, web_fetch, artifact_download, artifact_upload, browser_observe,
  browser_interact, file_read, file_write, device_observe, device_interact, app_action, pc_observe,
  pc_execute, pc_artifact_read, pc_artifact_write, custom_action, ActionValue, no_value, text_value,
  bytes_value, text_list, fields, ActionOutput,
}
use ntd.ActionFabric.Types.{PlannedAction, ActionPlanState, ActionFabricState}
use ntd.Wire.Writes.{Writes, write_rules, push_all-Writes, push_optional-Writes}
use ntd.ActionCheckpoint.Format.{checkpoint_errors}
use ntd.ActionCheckpoint.Actions.{encode_typed_action}
use ntd.ActionCheckpoint.Outputs.{
  encode_action_value, push_field, push_output, push_optional_output,
}
use ntd.ActionCheckpoint.Plans.{encode_planned_action, encode_plan}
use ntd.ActionCheckpoint.Payload.{push_plan, encode_payload}

typed_action-Writes : (a : TypedAction) → Writes (encode_typed_action a)
unfolding encode_typed_action
typed_action-Writes (web_search x y) = search write_rules depth 9
typed_action-Writes (web_fetch x) = search write_rules depth 9
typed_action-Writes (browser_observe x) = search write_rules depth 9
typed_action-Writes (browser_interact x y z) = search write_rules depth 9
typed_action-Writes (file_read x) = search write_rules depth 9
typed_action-Writes (file_write x y) = search write_rules depth 9
typed_action-Writes (device_observe x) = search write_rules depth 9
typed_action-Writes (device_interact x y z) = search write_rules depth 9
typed_action-Writes (app_action x y z) = search write_rules depth 9
typed_action-Writes (custom_action x y) = search write_rules depth 9
typed_action-Writes (pc_observe x y) = search write_rules depth 9
typed_action-Writes (pc_execute x y z w) = search write_rules depth 9
typed_action-Writes (pc_artifact_read x y) = search write_rules depth 9
typed_action-Writes (pc_artifact_write x y z) = search write_rules depth 9
typed_action-Writes (artifact_download x y) = search write_rules depth 9
typed_action-Writes (artifact_upload x y) = search write_rules depth 9

field-Writes : (kv : Text × Text) → Writes (push_field kv)
unfolding push_field
field-Writes kv = search write_rules depth 9

value-Writes : (v : ActionValue) → Writes (encode_action_value v)
unfolding encode_action_value
value-Writes no_value = search write_rules depth 9
value-Writes (text_value x) = search write_rules depth 9
value-Writes (bytes_value x) = search write_rules depth 9
value-Writes (text_list xs) = search write_rules depth 9
value-Writes (fields m) = search (write_rules, push_all-Writes, field-Writes) depth 9

output-Writes : (o : ActionOutput) → Writes (push_output o)
unfolding push_output
output-Writes o = search (write_rules, value-Writes) depth 9

planned-Writes : (a : PlannedAction) → Writes (encode_planned_action a)
unfolding encode_planned_action push_optional_output
planned-Writes a =
    search (write_rules, typed_action-Writes, push_optional-Writes, output-Writes) depth 20

plan-Writes : (p : ActionPlanState) → Writes (encode_plan p)
unfolding encode_plan
plan-Writes p = search (write_rules, push_all-Writes, planned-Writes) depth 12

entry-Writes : (kv : ℕ × ActionPlanState) → Writes (push_plan kv)
unfolding push_plan
entry-Writes kv = plan-Writes kv.1

pub payload-Writes : (s : ActionFabricState) → Writes (encode_payload s)
unfolding encode_payload
payload-Writes s = search (write_rules, push_all-Writes, entry-Writes) depth 12
