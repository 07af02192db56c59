-- ===== src/ActionCheckpoint/Format.antt =====
-- crates/ntd-runtime/src/action_checkpoint.rs: the errors and the constants of the TAF97 format.
use ntd.Prelude.{ℕ, [], ◌∷◌, refl, arith}
use ntd.Wire.Cursor.{WireErrors}
use ntd.Wire.Frame.{IsFormat}
use ntd.Wire.Frame
use ntd.ActionFabric.Types.{ActionFabricError}

pub data ActionCheckpointError : Type 0 where
  truncated : ActionCheckpointError
  invalid_magic : ActionCheckpointError
  invalid_header : ActionCheckpointError
  unsupported_version : (major minor : ℕ) → ActionCheckpointError
  invalid_utf8 : ActionCheckpointError
  invalid_boolean : ℕ → ActionCheckpointError
  invalid_action_tag : ℕ → ActionCheckpointError
  invalid_value_tag : ℕ → ActionCheckpointError
  invalid_side_effect : ℕ → ActionCheckpointError
  non_canonical_encoding : ActionCheckpointError
  overflow : ActionCheckpointError
  fabric_error : ActionFabricError → ActionCheckpointError

instance abbrev pub checkpoint_errors : WireErrors ActionCheckpointError
checkpoint_errors = record {
  truncated = truncated;
  overflow = overflow;
  invalid_utf8 = invalid_utf8;
  invalid_boolean = invalid_boolean;
}

-- `*b"TAF97\0"`, major 0, minor 4.
abbrev pub taf97 : Frame.Format ActionCheckpointError
taf97 = record {
  magic = 0x54 ∷ 0x41 ∷ 0x46 ∷ 0x39 ∷ 0x37 ∷ 0 ∷ [];
  major = 0;
  minor = 4;
  invalid_magic = invalid_magic;
  invalid_header = invalid_header;
  unsupported_version = unsupported_version;
  non_canonical = non_canonical_encoding;
}

pub taf97-IsFormat : IsFormat taf97
taf97-IsFormat = record { magic_six = refl; major_small = omega arith; minor_small = omega arith }
