-- ===== src/ActionCheckpoint/Tests.antt =====
-- The theorems about the checkpoint, applied to the fabric of two actions.
use ntd.Prelude.{
  ℕ, ◌≡◌, ◌≢◌, ◌⊎◌, ◌++◌, refl, [], ◌∷◌, codes, Result, ok, err, arith, length, nat_ord, text_ord,
}
use ntd.Prelude.Utf8.{Bytes, is_string}
use ntd.ActionCheckpoint.Plans.{FitsPlanned}
use ntd.Prelude.BTreeMap
use ntd.ActionFabric.Validate.{validate_fabric_state}
use ntd.ActionFabric.Fixtures.{fabric_two, registry_two, searched, to_write, search_id, write_id}
use ntd.ActionCheckpoint.Format.{overflow, non_canonical_encoding}
use ntd.ActionCheckpoint.Fabric.{encode_action_fabric_checkpoint, decode_action_fabric_checkpoint}
use ntd.ActionCheckpoint.RoundTrip.{
  FitsTypes, checkpoint_survives, decode-validate, decode-trailing,
}

two_valid : validate_fabric_state registry_two fabric_two.state ≡ ok tt
unfolding validate_fabric_state ntd.Prelude.BTreeSet.contains
    ntd.ActionFabric.Validate.check_contract ntd.Capability.Registry.validate_action
    ntd.Capability.Action.validate ntd.Prelude.is_blank BTreeMap.get ntd.Prelude.text_eq
    ntd.Capability.Action.domain ntd.ActionFabric.Validate.check_position
    ntd.Prelude.BTreeSet.insert
two_valid = refl

searched_fits : FitsPlanned searched
searched_fits = record {
  id = omega arith;
  node_id = omega arith;
  capability = is_string search_id refl;
  capability_version = omega arith;
  action = (is_string (codes "q") refl, omega arith);
  attempts = omega arith;
  output = record {
    summary = is_string (codes "found") refl;
    value = is_string (codes "page") refl;
    evidence = tt;
  };
  last_error = tt;
}

to_write_fits : FitsPlanned to_write
to_write_fits = record {
  id = omega arith;
  node_id = omega arith;
  capability = is_string write_id refl;
  capability_version = omega arith;
  action = is_string (codes "notes") refl;
  attempts = omega arith;
  output = tt;
  last_error = tt;
}

two_fits : FitsTypes fabric_two.state
two_fits = record {
  next_plan_id = omega arith;
  next_action_id = omega arith;
  sorted = (tt, tt);
  plans = (
    record {
      id = omega arith;
      task_id = omega arith;
      cursor = omega arith;
      actions = (searched_fits, (to_write_fits, tt));
    },
    tt,
  );
}

-- The checkpoint of the fabric of two actions.
abbrev bytes_two : Bytes
bytes_two =
    84 ∷ 65 ∷ 70 ∷ 57 ∷ 55 ∷ 0 ∷ 24 ∷ 0 ∷ 0 ∷ 0 ∷ 4 ∷ 0 ∷ 0 ∷ 0 ∷ 0 ∷ 0 ∷ 167 ∷ 0 ∷ 0 ∷ 0 ∷ 0 ∷ 0
    ∷ 0 ∷ 0 ∷ 2 ∷ 0 ∷ 0 ∷ 0 ∷ 0 ∷ 0 ∷ 0 ∷ 0 ∷ 3 ∷ 0 ∷ 0 ∷ 0 ∷ 0 ∷ 0 ∷ 0 ∷ 0 ∷ 1 ∷ 0 ∷ 0 ∷ 0 ∷ 1 ∷ 0
    ∷ 0 ∷ 0 ∷ 0 ∷ 0 ∷ 0 ∷ 0 ∷ 5 ∷ 0 ∷ 0 ∷ 0 ∷ 0 ∷ 0 ∷ 0 ∷ 0 ∷ 1 ∷ 0 ∷ 0 ∷ 0 ∷ 0 ∷ 0 ∷ 0 ∷ 0 ∷ 1 ∷ 2
    ∷ 0 ∷ 0 ∷ 0 ∷ 1 ∷ 0 ∷ 0 ∷ 0 ∷ 0 ∷ 0 ∷ 0 ∷ 0 ∷ 10 ∷ 0 ∷ 0 ∷ 0 ∷ 6 ∷ 0 ∷ 0 ∷ 0 ∷ 115 ∷ 101 ∷ 97
    ∷ 114 ∷ 99 ∷ 104 ∷ 1 ∷ 0 ∷ 0 ∷ 0 ∷ 1 ∷ 1 ∷ 1 ∷ 1 ∷ 0 ∷ 0 ∷ 0 ∷ 113 ∷ 3 ∷ 0 ∷ 5 ∷ 1 ∷ 0 ∷ 0 ∷ 0
    ∷ 1 ∷ 5 ∷ 0 ∷ 0 ∷ 0 ∷ 102 ∷ 111 ∷ 117 ∷ 110 ∷ 100 ∷ 1 ∷ 4 ∷ 0 ∷ 0 ∷ 0 ∷ 112 ∷ 97 ∷ 103 ∷ 101 ∷ 0
    ∷ 0 ∷ 0 ∷ 0 ∷ 0 ∷ 0 ∷ 0 ∷ 2 ∷ 0 ∷ 0 ∷ 0 ∷ 0 ∷ 0 ∷ 0 ∷ 0 ∷ 11 ∷ 0 ∷ 0 ∷ 0 ∷ 5 ∷ 0 ∷ 0 ∷ 0 ∷ 119
    ∷ 114 ∷ 105 ∷ 116 ∷ 101 ∷ 2 ∷ 0 ∷ 0 ∷ 0 ∷ 2 ∷ 1 ∷ 6 ∷ 5 ∷ 0 ∷ 0 ∷ 0 ∷ 110 ∷ 111 ∷ 116 ∷ 101
    ∷ 115 ∷ 1 ∷ 0 ∷ 0 ∷ 0 ∷ 7 ∷ 1 ∷ 0 ∷ 0 ∷ 0 ∷ 0 ∷ 0 ∷ 0 ∷ 0 ∷ 0 ∷ []

encodes_two : encode_action_fabric_checkpoint registry_two fabric_two.state ≡ ok bytes_two
unfolding encode_action_fabric_checkpoint ntd.Prelude.BTreeSet.contains
    ntd.ActionFabric.Validate.check_contract ntd.Capability.Registry.validate_action
    ntd.Capability.Action.validate ntd.Prelude.is_blank BTreeMap.get ntd.Prelude.text_eq
    ntd.Capability.Action.domain ntd.ActionFabric.Validate.check_position
    ntd.Prelude.BTreeSet.insert
encodes_two = refl

decodes_two : decode_action_fabric_checkpoint registry_two bytes_two ≡ ok fabric_two.state
unfolding decode_action_fabric_checkpoint ntd.Prelude.BTreeSet.contains
    ntd.ActionFabric.Validate.check_contract ntd.Capability.Registry.validate_action
    ntd.Capability.Action.validate ntd.Prelude.is_blank ntd.Capability.Action.domain
    ntd.ActionFabric.Validate.check_position ntd.Prelude.BTreeSet.insert
decodes_two = refl

checkpoint_survives_example :
    ((bytes : Bytes) × (encode_action_fabric_checkpoint registry_two fabric_two.state ≡ ok bytes)
      × (decode_action_fabric_checkpoint registry_two bytes ≡ ok fabric_two.state))
    ⊎ (encode_action_fabric_checkpoint registry_two fabric_two.state ≡ err overflow)
checkpoint_survives_example = checkpoint_survives registry_two fabric_two.state two_valid two_fits

decode-validate_example : validate_fabric_state registry_two fabric_two.state ≡ ok tt
decode-validate_example = decode-validate registry_two bytes_two decodes_two

decode-trailing_example :
    decode_action_fabric_checkpoint registry_two (bytes_two ++ 0 ∷ []) ≡ err non_canonical_encoding
decode-trailing_example =
    decode-trailing registry_two fabric_two.state (0 ∷ []) encodes_two (λ e. cc)
