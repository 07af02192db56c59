-- ===== src/CognitiveCheckpoint/Checkpoint.antt =====
-- crates/ntd-runtime/src/checkpoint.rs: `encode_cognitive_checkpoint` and
-- `decode_cognitive_checkpoint`.
use ntd.Prelude.{not, Result, ok, ◌>>=◌, ◌>>◌, refuse, map_err}
use ntd.Prelude.Utf8.{Bytes}
use ntd.Memory.Store.{from_parts}
use ntd.Cognition.{CognitiveState}
use ntd.Cognition.Validate.{validate_state}
use ntd.Wire.Cursor.{cursor_new, is_finished}
use ntd.Wire.Frame.{seal, open_frame}
use ntd.CognitiveCheckpoint.Format.{
  CheckpointError, sik97, cognitive_error, memory_error, non_canonical_encoding, sik97_errors,
}
use ntd.CognitiveCheckpoint.Payload.{encode_payload, decode_payload, state_of}

unfoldable pub encode_cognitive_checkpoint : CognitiveState → Result CheckpointError Bytes
unfolding encode_payload seal validate_state
encode_cognitive_checkpoint s = do
  map_err cognitive_error (validate_state s)
  payload ← encode_payload s
  seal sik97 payload

unfoldable pub decode_cognitive_checkpoint : Bytes → Result CheckpointError CognitiveState
unfolding open_frame decode_payload from_parts validate_state
decode_cognitive_checkpoint bytes = do
  payload ← open_frame sik97 bytes
  read ← decode_payload (cursor_new payload)
  refuse (not (is_finished read.1)) non_canonical_encoding
  memory ← map_err memory_error (from_parts read.0.next_memory_id read.0.records)
  map_err cognitive_error (validate_state (state_of read.0 memory))
  ok (state_of read.0 memory)
