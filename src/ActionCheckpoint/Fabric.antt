-- ===== src/ActionCheckpoint/Fabric.antt =====
-- crates/ntd-runtime/src/action_checkpoint.rs: `encode_action_fabric_checkpoint` and
-- `decode_action_fabric_checkpoint`.
use ntd.Prelude.{not, Result, ok, ◌>>=◌, ◌>>◌, refuse, map_err}
use ntd.Prelude.Utf8.{Bytes}
use ntd.Capability.Registry.{CapabilityRegistry}
use ntd.ActionFabric.Types.{ActionFabricState}
use ntd.ActionFabric.Validate.{validate_fabric_state}
use ntd.Wire.Cursor.{cursor_new, is_finished}
use ntd.Wire.Frame.{seal, open_frame}
use ntd.ActionCheckpoint.Format.{
  ActionCheckpointError, taf97, fabric_error, non_canonical_encoding, checkpoint_errors,
}
use ntd.ActionCheckpoint.Payload.{encode_payload, decode_payload}

unfoldable pub encode_action_fabric_checkpoint :
    CapabilityRegistry → ActionFabricState → Result ActionCheckpointError Bytes
unfolding encode_payload seal validate_fabric_state
encode_action_fabric_checkpoint registry s = do
  map_err fabric_error (validate_fabric_state registry s)
  payload ← encode_payload s
  seal taf97 payload

unfoldable pub decode_action_fabric_checkpoint :
    CapabilityRegistry → Bytes → Result ActionCheckpointError ActionFabricState
unfolding open_frame decode_payload validate_fabric_state
decode_action_fabric_checkpoint registry bytes = do
  payload ← open_frame taf97 bytes
  read ← decode_payload (cursor_new payload)
  refuse (not (is_finished read.1)) non_canonical_encoding
  map_err fabric_error (validate_fabric_state registry read.0)
  ok read.0
