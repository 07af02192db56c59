-- ===== src/ActionCheckpoint/Outputs.antt =====
-- crates/ntd-runtime/src/action_checkpoint.rs: the values and outputs of adapters, and the class of
-- a side effect.
use ntd.Prelude.{
  ℕ, ◌≤◌, ◌≡◌, refl, Bool, true, false, not, Text, List, [], ◌∷◌, Option, none, some, Result, ok,
  err, All, length, ◌==◌, if◌then◌else◌, arith, text_ord,
}
use ntd.Prelude.BTreeMap.{BTreeMap, Sorted, keys}
use ntd.Prelude.Utf8.{IsString}
use ntd.Core.{SideEffectClass, read_only, reversible, external_write, irreversible}
use ntd.Capability.Action.{
  ActionValue, no_value, text_value, bytes_value, text_list, fields, ActionOutput,
}
use ntd.Wire.Cursor.{
  Decoder, ◌>>=◌, ◌>>◌, pure, lift, check, u8, u32, bytes, string, strings, optional,
}
use ntd.Wire.Push.{
  Encoder, ◌⧺◌, done, push_u8, push_len, push_bytes, push_string, push_strings, push_all,
  push_optional,
}
use ntd.Wire.Trips.{Trips, ⧺->>=, check-Trips, done-pure}
use ntd.Wire.RoundTrip.{
  Where, push_u8-Trips, push_len-Trips, push_bytes-Trips, push_string-Trips, push_strings-Trips,
  push_optional-Trips,
}
use ntd.Wire.Maps.{read_map, EntriesTrip, read_map-Trips}
use ntd.ActionCheckpoint.Format.{
  ActionCheckpointError, invalid_value_tag, invalid_side_effect, non_canonical_encoding,
  checkpoint_errors,
}

unfoldable pub encode_side_effect : SideEffectClass → ℕ
encode_side_effect read_only = 1
encode_side_effect reversible = 2
encode_side_effect external_write = 3
encode_side_effect irreversible = 4

unfoldable pub decode_side_effect : ℕ → Result ActionCheckpointError SideEffectClass
decode_side_effect value =
    if value == 1
    then ok read_only
    else if value == 2
    then ok reversible
    else if value == 3
    then ok external_write
    else if value == 4
    then ok irreversible
    else err (invalid_side_effect value)

-- One entry of `fields`.
unfoldable pub push_field : Text × Text → Encoder ActionCheckpointError
unfolding ◌⧺◌ done push_string
push_field (key, value) = push_string key ⧺ (push_string value ⧺ done)

abbrev pub not_after : Text → Option Text → Bool
not_after key none = false
not_after key (some value) = not (text_ord.lt value key)

-- A key that does not lie behind the previous one is refused before its value is read.
unfoldable pub read_field : Option Text → Decoder ActionCheckpointError (Text × Text)
unfolding ◌>>=◌ ◌>>◌ pure check string
read_field previous = do
  key ← string
  check (not_after key previous) non_canonical_encoding
  value ← string
  pure (key, value)

unfoldable pub encode_action_value : ActionValue → Encoder ActionCheckpointError
unfolding ◌⧺◌ done push_u8 push_string push_bytes push_strings push_len push_all push_field
encode_action_value no_value = push_u8 0 ⧺ done
encode_action_value (text_value value) = push_u8 1 ⧺ (push_string value ⧺ done)
encode_action_value (bytes_value value) = push_u8 2 ⧺ (push_bytes value ⧺ done)
encode_action_value (text_list values) = push_u8 3 ⧺ (push_strings values ⧺ done)
encode_action_value (fields entries) =
    push_u8 4 ⧺ (push_len (length entries) ⧺ (push_all push_field entries ⧺ done))

-- The value, by its tag.
unfoldable pub decode_tagged_value : ℕ → Decoder ActionCheckpointError ActionValue
unfolding ◌>>=◌ pure lift u32 bytes string strings read_map read_field
decode_tagged_value tag =
    if tag == 0
    then pure no_value
    else if tag == 1
    then (do value ← string; pure (text_value value))
    else if tag == 2
    then (do value ← bytes; pure (bytes_value value))
    else if tag == 3
    then (do values ← strings; pure (text_list values))
    else if tag == 4
    then (do
      count ← u32
      entries ← read_map non_canonical_encoding some read_field count none []
      pure (fields entries))
    else lift (err (invalid_value_tag tag))

unfoldable pub decode_action_value : Decoder ActionCheckpointError ActionValue
unfolding ◌>>=◌ u8 decode_tagged_value
decode_action_value = do tag ← u8; decode_tagged_value tag

unfoldable pub push_output : ActionOutput → Encoder ActionCheckpointError
unfolding ◌⧺◌ push_string encode_action_value push_strings done
push_output output =
    push_string output.summary
    ⧺ (encode_action_value output.value ⧺ (push_strings output.evidence ⧺ done))

unfoldable pub read_output : Decoder ActionCheckpointError ActionOutput
unfolding ◌>>=◌ pure string decode_action_value strings
read_output = do
  summary ← string
  value ← decode_action_value
  evidence ← strings
  pure (record { summary = summary; value = value; evidence = evidence })

unfoldable pub push_optional_output : Option ActionOutput → Encoder ActionCheckpointError
unfolding push_optional push_output
push_optional_output = push_optional push_output

unfoldable pub optional_output : Decoder ActionCheckpointError (Option ActionOutput)
unfolding optional read_output
optional_output = optional read_output

abbrev pub FitsField : Text × Text → Type 0
FitsField kv = IsString kv.0 × IsString kv.1

-- What Rust's types guarantee of a value: strings are UTF-8, a map's keys ascend.
abbrev pub FitsValue : ActionValue → Type 0
FitsValue no_value = Unit
FitsValue (text_value value) = IsString value
FitsValue (bytes_value value) = Unit
FitsValue (text_list values) = All IsString values
FitsValue (fields entries) = Sorted entries × All FitsField entries

pub record FitsOutput (output : ActionOutput) : Type 0 where
  pub summary : IsString output.summary
  pub value : FitsValue output.value
  pub evidence : All IsString output.evidence

pub decode-encode_side_effect :
    (c : SideEffectClass) → decode_side_effect (encode_side_effect c) ≡ ok c
unfolding decode_side_effect encode_side_effect
decode-encode_side_effect read_only = refl
decode-encode_side_effect reversible = refl
decode-encode_side_effect external_write = refl
decode-encode_side_effect irreversible = refl

pub encode_side_effect-u8 : (c : SideEffectClass) → encode_side_effect c ≤ 255
unfolding encode_side_effect
encode_side_effect-u8 read_only = omega arith
encode_side_effect-u8 reversible = omega arith
encode_side_effect-u8 external_write = omega arith
encode_side_effect-u8 irreversible = omega arith

push_field-Trips :
    (previous : Option Text) (kv : Text × Text)
    → not_after kv.0 previous ≡ false
    → FitsField kv
    → Trips (push_field kv) (read_field previous) kv
unfolding push_field read_field
push_field-Trips previous kv e h =
    ⧺->>= _ (push_string-Trips h.0) (check-Trips _ _ e (⧺->>= _ (push_string-Trips h.1) done-pure))

fields_trip :
    (previous : Option Text) (m : BTreeMap Text Text)
    → All (λ k. not_after k previous ≡ false) (keys m)
    → Sorted m
    → All FitsField m
    → EntriesTrip non_canonical_encoding some push_field read_field previous m
fields_trip previous [] b s h = tt
fields_trip previous (kv ∷ m) b s h = (
  push_field-Trips previous kv b.0 h.0,
  fields_trip (some kv.0) m (after kv.0 (keys m) s.0) s.1 h.1,
)
  where
    after :
        (j : Text) (ks : List Text)
        → All (λ k. text_ord.lt j k ≡ true) ks
        → All (λ k. not_after k (some j) ≡ false) ks
    after j [] h = tt
    after j (k ∷ ks) h = (rw h.0 refl, after j ks h.1)

none_before : (ks : List Text) → All (λ k. not_after k none ≡ false) ks
none_before [] = tt
none_before (k ∷ ks) = (refl, none_before ks)

-- A value is read back.
pub decode-encode_action_value :
    (v : ActionValue) → FitsValue v → Trips (encode_action_value v) decode_action_value v
unfolding encode_action_value decode_action_value decode_tagged_value
decode-encode_action_value no_value h = ⧺->>= _ (push_u8-Trips {v = 0} (omega arith)) done-pure
decode-encode_action_value (text_value value) h =
    ⧺->>= _ (push_u8-Trips {v = 1} (omega arith)) (⧺->>= _ (push_string-Trips h) done-pure)
decode-encode_action_value (bytes_value value) h =
    ⧺->>= _ (push_u8-Trips {v = 2} (omega arith)) (⧺->>= _ (push_bytes-Trips value) done-pure)
decode-encode_action_value (text_list values) h =
    ⧺->>= _ (push_u8-Trips {v = 3} (omega arith)) (⧺->>= _ (push_strings-Trips h) done-pure)
decode-encode_action_value (fields entries) h = ⧺->>= _ (push_u8-Trips {v = 4} (omega arith)) (
    ⧺->>= _ (push_len-Trips (length entries)) (
      ⧺->>= _
        (read_map-Trips non_canonical_encoding some push_field read_field none entries h.0
          (fields_trip none entries (none_before (keys entries)) h.0 h.1))
        done-pure))

push_output-Trips : (o : ActionOutput) → FitsOutput o → Trips (push_output o) read_output o
unfolding push_output read_output
push_output-Trips o h = ⧺->>= _ (push_string-Trips h.summary) (
    ⧺->>= _ (decode-encode_action_value o.value h.value)
      (⧺->>= _ (push_strings-Trips h.evidence) done-pure))

pub push_optional_output-Trips :
    (o : Option ActionOutput)
    → Where FitsOutput o
    → Trips (push_optional_output o) optional_output o
unfolding push_optional_output optional_output
push_optional_output-Trips none h = push_optional-Trips push_output read_output none tt
push_optional_output-Trips (some o) h =
    push_optional-Trips push_output read_output (some o) (push_output-Trips o h)
