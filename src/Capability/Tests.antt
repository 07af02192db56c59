-- ===== src/Capability/Tests.antt =====
-- A registry of one capability and a grant, on which the theorems about them are applied.
use ntd.Prelude.{
  Text, codes, ◌≡◌, ◌≢◌, refl, ◌↔◌, true, false, Option, none, some, List, [], ◌∷◌, Result, ok, err,
  text_ord, Bool-cases, if◌then◌else◌, inl, inr, text_eq, some-injective, subst,
}
use ntd.Prelude.BTreeMap
use ntd.Core.{reversible}
use ntd.Capability.Descriptor.{
  normalize, CapabilityDescriptor, AuthorityGrant, with_scope, permits, file, domain_tag,
}
use ntd.Capability.Action.{file_read, domain, validate}
use ntd.Capability.Registry.{
  CapabilityRegistry, registry_new, register, descriptor, validate_action,
}
use ntd.Capability.Authority.{permits-with_scope}
use ntd.Capability.Authority
use ntd.Capability.Registry.NormalForm.{IsRegistered}
use ntd.Capability.Registry.Laws.{
  descriptor-register, IsKeyed, register-IsKeyed, validate_action-IsRegistered,
}

abbrev read_descriptor : CapabilityDescriptor
read_descriptor = record {
  id = codes "read";
  version = 1;
  domain = file;
  side_effect = reversible;
  verification_required = true;
  rollback_supported = true;
  resumable = false;
  required_scopes = codes "files" ∷ [];
}

abbrev files_grant : AuthorityGrant
files_grant = record {
  scopes = codes "files" ∷ [];
  allow_external_write = false;
  allow_irreversible = false;
}

read_permitted : permits files_grant read_descriptor ≡ ok tt
unfolding permits ntd.Capability.Descriptor.permits_scopes ntd.Prelude.BTreeSet.contains text_eq
    ntd.Capability.Descriptor.permits_side_effect
read_permitted = refl

permits-covers_example : (permits files_grant read_descriptor ≡ ok tt) ↔ (
    (Authority.covers files_grant read_descriptor.required_scopes ≡ true)
    × (Authority.allows files_grant read_descriptor.side_effect ≡ true))
permits-covers_example = Authority.permits-covers files_grant read_descriptor

permits-with_scope_example : permits (with_scope files_grant (codes "net")) read_descriptor ≡ ok tt
permits-with_scope_example =
    permits-with_scope files_grant (codes "net") read_descriptor read_permitted

registry_new-IsKeyed : IsKeyed registry_new
unfolding BTreeMap.get
registry_new-IsKeyed id d h = cc

abbrev registry_one : CapabilityRegistry
registry_one = (register registry_new read_descriptor).0

register-IsKeyed_example : IsKeyed registry_one
register-IsKeyed_example = register-IsKeyed registry_new read_descriptor registry_new-IsKeyed

registry_one-IsKeyed : IsKeyed registry_one
registry_one-IsKeyed = register-IsKeyed registry_new read_descriptor registry_new-IsKeyed

read_valid :
    validate_action registry_one (codes "read") (file_read (codes "notes")) ≡ ok read_descriptor
unfolding validate_action register validate ntd.Prelude.is_blank BTreeMap.get
    ntd.Capability.Descriptor.normalize ntd.Capability.Descriptor.trim_scopes BTreeMap.contains_key
    BTreeMap.insert text_eq domain ntd.Prelude.Sorting.dedup ntd.Prelude.Sorting.sort
read_valid = refl

validate_action-IsRegistered_example :
    (validate (file_read (codes "notes")) ≡ ok tt)
    × (descriptor registry_one (codes "read") ≡ ok read_descriptor)
    × IsRegistered (codes "read") read_descriptor
    × (domain_tag read_descriptor.domain ≡ domain_tag (domain (file_read (codes "notes"))))
validate_action-IsRegistered_example =
    validate_action-IsRegistered registry_one (codes "read") (file_read (codes "notes"))
      read_descriptor registry_one-IsKeyed read_valid

read_registers : register registry_new read_descriptor ≡ (registry_one, ok tt)
unfolding register ntd.Capability.Descriptor.normalize ntd.Capability.Descriptor.trim_scopes
    ntd.Prelude.is_blank BTreeMap.contains_key BTreeMap.get
read_registers = refl

descriptor-register_example :
    (descriptor registry_one (normalize read_descriptor).0.id ≡ ok (normalize read_descriptor).0)
    × ((id : Text)
        → id ≢ (normalize read_descriptor).0.id
        → descriptor registry_one id ≡ descriptor registry_new id)
descriptor-register_example =
    descriptor-register registry_new registry_one read_descriptor read_registers
