-- ===== src/ActionCheckpoint/RoundTrip.antt =====
-- crates/ntd-runtime/src/action_checkpoint.rs: what a checkpoint keeps of the state it was taken of,
-- and what its reader refuses.
use ntd.Prelude.{
  ℕ, ◌+◌, ◌≤◌, ◌≡◌, ◌≢◌, ◌⊎◌, refl, subst, [], ◌∷◌, ◌++◌, append-nil, length, All, Result, ok, err,
  map_err, ok-injective, >>=-eq-ok, >>-eq-ok, refuse-eq-ok, arith, inl, inr, nat_ord,
}
use ntd.Prelude.Words.{usize_max}
use ntd.Prelude.Utf8.{Bytes}
use ntd.Prelude.BTreeMap.{BTreeMap, Sorted, values}
use ntd.Capability.Registry.{CapabilityRegistry}
use ntd.ActionFabric.Types.{ActionFabricState, ActionPlanState}
use ntd.ActionFabric.Validate.{validate_fabric_state}
use ntd.ActionFabric.Validity.{PlansOk, validate-IsValid}
use ntd.Wire.Cursor.{cursor_new}
use ntd.Wire.Frame.{open_frame, open_frame-seal, open_frame-trailing, seal-fits}
use ntd.ActionCheckpoint.Format.{
  taf97, taf97-IsFormat, fabric_error, non_canonical_encoding, overflow, checkpoint_errors,
}
use ntd.Wire.Writes.{writes, overflows, seal-Writes}
use ntd.ActionCheckpoint.Written.{payload-Writes}
use ntd.ActionCheckpoint.Plans.{FitsPlan}
use ntd.ActionCheckpoint.Payload.{
  encode_payload, decode_payload, FitsEntry, FitsState, decode-encode_payload,
}
use ntd.ActionCheckpoint.Fabric.{encode_action_fabric_checkpoint, decode_action_fabric_checkpoint}

-- What Rust's types guarantee of a fabric's state.
pub record FitsTypes (s : ActionFabricState) : Type 0 where
  pub next_plan_id : s.next_plan_id ≤ usize_max
  pub next_action_id : s.next_action_id ≤ usize_max
  pub sorted : Sorted s.plans
  pub plans : All FitsPlan (values s.plans)

map_err-ok : {E F : Type 0} (f : E → F) (r : Result E (Unit {0})) → map_err f r ≡ ok tt → r ≡ ok tt
map_err-ok f (ok _) h = refl
map_err-ok f (err e) h = cc

module _ (registry : CapabilityRegistry) where
  entries_fit :
      (m : BTreeMap ℕ ActionPlanState)
      → PlansOk registry m
      → All FitsPlan (values m)
      → All FitsEntry m
  entries_fit [] o h = tt
  entries_fit ((key, p) ∷ m) o h =
      let e = o.0.header in
      (
        record { keyed = ground (arith, e); positive = ground (arith, e); plan = h.0 },
        entries_fit m o.1 h.1,
      )

  FitsTypes-FitsState :
      (s : ActionFabricState) → validate_fabric_state registry s ≡ ok tt → FitsTypes s → FitsState s
  FitsTypes-FitsState s v h = record {
    next_plan_id = h.next_plan_id;
    next_action_id = h.next_action_id;
    sorted = h.sorted;
    entries = entries_fit s.plans (validate-IsValid registry s v).plans_ok h.plans;
  }

  -- A payload that was sealed is read to its end.
  payload_read :
      (s : ActionFabricState) {payload : Bytes}
      → FitsState s
      → length payload ≤ usize_max
      → encode_payload s ≡ ok payload
      → decode_payload (cursor_new payload)
        ≡ ok (s, record { offset = 0 + length payload; rest = [] })
  payload_read s {payload} h small e =
      subst
        (λ bs.
          decode_payload (cursor_new bs)
          ≡ ok (s, record { offset = 0 + length payload; rest = [] }))
        (append-nil payload)
        (((decode-encode_payload s h).trips payload e).reads 0 [] (omega (arith, small)))

  -- Decoding the checkpoint of a state gives the state back. The state's integers and strings are
  -- within their Rust types and its map of plans ascends.
  pub decode-encode_checkpoint :
      (s : ActionFabricState) {bytes : Bytes}
      → FitsTypes s
      → encode_action_fabric_checkpoint registry s ≡ ok bytes
      → decode_action_fabric_checkpoint registry bytes ≡ ok s
  unfolding encode_action_fabric_checkpoint decode_action_fabric_checkpoint
  decode-encode_checkpoint s h e =
      let (passed, e₁) = >>-eq-ok (map_err fabric_error (validate_fabric_state registry s)) _ e in
      let valid = map_err-ok fabric_error (validate_fabric_state registry s) passed in
      let (payload, e₂, sealed) = >>=-eq-ok (encode_payload s) _ e₁ in
      let read =
        payload_read s (FitsTypes-FitsState s valid h)
          (seal-fits taf97 taf97-IsFormat payload sealed) e₂ in
      rw (open_frame-seal taf97 taf97-IsFormat payload sealed, read, valid) refl

  -- Whatever bytes a checkpoint is decoded from, the state passes `validate_fabric_state`.
  pub decode-validate :
      (bytes : Bytes) {s : ActionFabricState}
      → decode_action_fabric_checkpoint registry bytes ≡ ok s
      → validate_fabric_state registry s ≡ ok tt
  unfolding decode_action_fabric_checkpoint
  decode-validate bytes {s} e =
      let (payload, e₁, k₁) = >>=-eq-ok (open_frame taf97 bytes) _ e in
      let (read, e₂, k₂) = >>=-eq-ok (decode_payload (cursor_new payload)) _ k₁ in
      let (ended, k₃) = refuse-eq-ok _ _ _ k₂ in
      let (passed, k₄) =
        >>-eq-ok (map_err fabric_error (validate_fabric_state registry read.0)) _ k₃ in
      subst (λ t. validate_fabric_state registry t ≡ ok tt) (ok-injective k₄)
        (map_err-ok fabric_error (validate_fabric_state registry read.0) passed)

  -- A checkpoint followed by at least one more byte is refused as non-canonical.
  pub decode-trailing :
      (s : ActionFabricState) (extra : Bytes) {bytes : Bytes}
      → encode_action_fabric_checkpoint registry s ≡ ok bytes
      → extra ≢ []
      → decode_action_fabric_checkpoint registry (bytes ++ extra) ≡ err non_canonical_encoding
  unfolding encode_action_fabric_checkpoint decode_action_fabric_checkpoint
  decode-trailing s extra e ne =
      let (passed, e₁) = >>-eq-ok (map_err fabric_error (validate_fabric_state registry s)) _ e in
      let (payload, e₂, sealed) = >>=-eq-ok (encode_payload s) _ e₁ in
      rw (open_frame-trailing taf97 taf97-IsFormat payload extra sealed ne) refl

  -- Encoding a state that `validate_fabric_state` accepts fails only where a length overflows; else
  -- decoding the bytes gives the state back.
  pub checkpoint_survives :
      (s : ActionFabricState)
      → validate_fabric_state registry s ≡ ok tt
      → FitsTypes s
      → ((bytes : Bytes) × (encode_action_fabric_checkpoint registry s ≡ ok bytes)
          × (decode_action_fabric_checkpoint registry bytes ≡ ok s))
        ⊎ (encode_action_fabric_checkpoint registry s ≡ err overflow)
  unfolding encode_action_fabric_checkpoint
  checkpoint_survives s v h = elim (payload-Writes s) [
    | overflows e ↦ inr (rw (encode_action_fabric_checkpoint, v, e) refl)
    | writes payload e ↦ elim (seal-Writes taf97 payload) [
      | overflows k ↦ inr (rw (encode_action_fabric_checkpoint, v, e) k)
      | writes bytes k ↦
          let encoded : encode_action_fabric_checkpoint registry s ≡ ok bytes =
            rw (encode_action_fabric_checkpoint, v, e) k in
          inl (bytes, encoded, decode-encode_checkpoint s h encoded)
    ]
  ]
