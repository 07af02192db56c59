-- ===== src/CognitiveCheckpoint/Format.antt =====
-- crates/ntd-runtime/src/checkpoint.rs: the errors and the constants of the SIK97 format.
use ntd.Prelude.{ℕ, [], ◌∷◌, refl, arith}
use ntd.Memory.{MemoryError}
use ntd.Cognition.{CognitiveError}
use ntd.Wire.Cursor.{WireErrors}
use ntd.Wire.Frame
use ntd.Wire.Frame.{IsFormat}

pub data CheckpointError : Type 0 where
  truncated : CheckpointError
  invalid_magic : CheckpointError
  invalid_header : CheckpointError
  unsupported_version : (major minor : ℕ) → CheckpointError
  invalid_utf8 : CheckpointError
  invalid_boolean : ℕ → CheckpointError
  invalid_side_effect : ℕ → CheckpointError
  invalid_goal_status : ℕ → CheckpointError
  invalid_task_status : ℕ → CheckpointError
  invalid_memory_kind : ℕ → CheckpointError
  non_canonical_encoding : CheckpointError
  overflow : CheckpointError
  cognitive_error : CognitiveError → CheckpointError
  memory_error : MemoryError → CheckpointError

instance abbrev pub sik97_errors : WireErrors CheckpointError
sik97_errors = record {
  truncated = truncated;
  overflow = overflow;
  invalid_utf8 = invalid_utf8;
  invalid_boolean = invalid_boolean;
}

-- `*b"SIK97\0"`, major 0, minor 1.
abbrev pub sik97 : Frame.Format CheckpointError
sik97 = record {
  magic = 0x53 ∷ 0x49 ∷ 0x4b ∷ 0x39 ∷ 0x37 ∷ 0 ∷ [];
  major = 0;
  minor = 1;
  invalid_magic = invalid_magic;
  invalid_header = invalid_header;
  unsupported_version = unsupported_version;
  non_canonical = non_canonical_encoding;
}

pub sik97-IsFormat : IsFormat sik97
sik97-IsFormat = record { magic_six = refl; major_small = omega arith; minor_small = omega arith }
