-- ===== src/Capability/Registry.antt =====
-- crates/ntd-runtime/src/capability.rs: the registry of capability descriptors.
pub mod NormalForm
pub mod Laws
use ntd.Prelude.{
  Text, Bool, true, false, ◌==◌, ◌≡◌, Result, ok, err, ◌>>=◌, ◌>>◌, ok_or, refuse, not, text_ord,
  if◌then◌else◌, [],
}
use ntd.Prelude.BTreeMap
use ntd.Prelude.BTreeMap.{BTreeMap}
use ntd.Core.{CapabilityId}
use ntd.Capability.Descriptor.{
  CapabilityDescriptor, CapabilityError, domain_mismatch, duplicate_capability, missing_capability,
  domain_tag, normalize,
}
use ntd.Capability.Action.{TypedAction, domain, validate}

pub record CapabilityRegistry : Type 0 where
  pub descriptors : BTreeMap Text CapabilityDescriptor

abbrev pub registry_new : CapabilityRegistry
registry_new = record { descriptors = [] }

register_normal :
    CapabilityRegistry
    → CapabilityDescriptor
    → Result CapabilityError (Unit {0})
    → CapabilityRegistry × Result CapabilityError (Unit {0})
register_normal r d (err e) = (r, err e)
register_normal r d (ok _) =
    if BTreeMap.contains_key d.id r.descriptors
    then (r, err (duplicate_capability d.id))
    else (record { descriptors = BTreeMap.insert d.id d r.descriptors }, ok tt)

unfoldable pub register :
    CapabilityRegistry
    → CapabilityDescriptor
    → CapabilityRegistry × Result CapabilityError (Unit {0})
unfolding register_normal
register r d = let (d', result) = normalize d in register_normal r d' result

unfoldable pub descriptor :
    CapabilityRegistry → CapabilityId → Result CapabilityError CapabilityDescriptor
descriptor r id = ok_or (BTreeMap.get id r.descriptors) (missing_capability id)

unfoldable pub validate_action :
    CapabilityRegistry → CapabilityId → TypedAction → Result CapabilityError CapabilityDescriptor
unfolding descriptor
validate_action r id action = do
  validate action
  d ← descriptor r id
  refuse (not (domain_tag d.domain == domain_tag (domain action)))
      (domain_mismatch id d.domain (domain action))
  ok d
