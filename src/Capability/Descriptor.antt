-- ===== src/Capability/Descriptor.antt =====
-- crates/ntd-runtime/src/capability.rs: domains, authority scopes and grants, capability
-- descriptors with their normalisation, and the errors.
use ntd.Prelude.{
  ℕ, Text, Bool, true, false, List, [], ◌∷◌, Result, ok, err, ◌>>◌, refuse, ◌==◌, ◌&&◌, not,
  is_blank, trim, text_ord, if◌then◌else◌,
}
use ntd.Prelude.BTreeSet
use ntd.Prelude.BTreeSet.{BTreeSet}
use ntd.Prelude.Sorting.{sort, dedup}
use ntd.Core.{CapabilityId, SideEffectClass, read_only, reversible, external_write, irreversible}

pub data CapabilityDomain : Type 0 where
  web browser file device app custom pc : CapabilityDomain

-- `#[repr(u8)]`
abbrev pub domain_tag : CapabilityDomain → ℕ
domain_tag web = 1
domain_tag browser = 2
domain_tag file = 3
domain_tag device = 4
domain_tag app = 5
domain_tag custom = 6
domain_tag pc = 7

-- `struct AuthorityScope(String)`
abbrev pub AuthorityScope : Type 0
AuthorityScope = Text

pub data CapabilityError : Type 0 where
  empty_capability_id invalid_version empty_scope : CapabilityError
  invalid_domain : ℕ → CapabilityError
  invalid_action : CapabilityError
  domain_mismatch : CapabilityId → CapabilityDomain → CapabilityDomain → CapabilityError
  duplicate_capability : CapabilityId → CapabilityError
  missing_capability : CapabilityId → CapabilityError
  missing_authority : AuthorityScope → CapabilityError
  external_write_not_authorized irreversible_not_authorized irreversible_rollback : CapabilityError

unfoldable pub domain_try_from : ℕ → Result CapabilityError CapabilityDomain
domain_try_from value =
    if value == 1
    then ok web
    else if value == 2
    then ok browser
    else if value == 3
    then ok file
    else if value == 4
    then ok device
    else if value == 5
    then ok app
    else if value == 6
    then ok custom
    else if value == 7
    then ok pc
    else err (invalid_domain value)

unfoldable pub scope_new : Text → Result CapabilityError AuthorityScope
scope_new value = refuse (is_blank value) empty_scope >> ok (trim value)

pub record CapabilityDescriptor : Type 0 where
  pub id : CapabilityId
  pub version : ℕ
  pub domain : CapabilityDomain
  pub side_effect : SideEffectClass
  pub verification_required : Bool
  pub rollback_supported : Bool
  pub resumable : Bool
  pub required_scopes : List AuthorityScope

unfoldable pub descriptor_new :
    CapabilityId
    → ℕ
    → CapabilityDomain
    → SideEffectClass
    → Result CapabilityError CapabilityDescriptor
descriptor_new id version domain side_effect = do
  refuse (is_blank id) empty_capability_id
  refuse (version == 0) invalid_version
  ok (record {
    id = id;
    version = version;
    domain = domain;
    side_effect = side_effect;
    verification_required = true;
    rollback_supported = false;
    resumable = false;
    required_scopes = [];
  })

pub record AuthorityGrant : Type 0 where
  pub scopes : BTreeSet AuthorityScope
  pub allow_external_write : Bool
  pub allow_irreversible : Bool

abbrev pub grant_new : AuthorityGrant
grant_new = record { scopes = []; allow_external_write = false; allow_irreversible = false }

unfoldable pub with_scope : AuthorityGrant → AuthorityScope → AuthorityGrant
with_scope g scope = record g { scopes = BTreeSet.insert scope g.scopes }

-- The loop over the required scopes.
unfoldable pub permits_scopes :
    AuthorityGrant → List AuthorityScope → Result CapabilityError (Unit {0})
permits_scopes g [] = ok tt
permits_scopes g (required ∷ rest) =
    if BTreeSet.contains required g.scopes
    then permits_scopes g rest
    else err (missing_authority required)

unfoldable pub permits_side_effect :
    AuthorityGrant → SideEffectClass → Result CapabilityError (Unit {0})
permits_side_effect g read_only = ok tt
permits_side_effect g reversible = ok tt
permits_side_effect g external_write =
    if g.allow_external_write then ok tt else err external_write_not_authorized
permits_side_effect g irreversible =
    if g.allow_irreversible then ok tt else err irreversible_not_authorized

unfoldable pub permits : AuthorityGrant → CapabilityDescriptor → Result CapabilityError (Unit {0})
permits g d = permits_scopes g d.required_scopes >> permits_side_effect g d.side_effect

-- The loop that trims the scopes in place: it stops at the first one that is blank, which it has
-- already trimmed, and leaves the rest as they are.
unfoldable pub trim_scopes : List AuthorityScope → List AuthorityScope × Bool
trim_scopes [] = ([], true)
trim_scopes (s ∷ ss) =
    let (rest, done) = trim_scopes ss in
    if is_blank s then (trim s ∷ ss, false) else (trim s ∷ rest, done)

abbrev pub is_irreversible : SideEffectClass → Bool
is_irreversible irreversible = true
is_irreversible _ = false

-- What `normalize` does once the identifier is trimmed and the version is checked.
unfoldable pub normalize_scopes :
    CapabilityDescriptor → CapabilityDescriptor × Result CapabilityError (Unit {0})
normalize_scopes d =
    let (scopes, done) = trim_scopes d.required_scopes in
    let sorted = record d { required_scopes = dedup (sort scopes) } in
    if not done then (record d { required_scopes = scopes }, err empty_scope) else (
      sorted,
      refuse (is_irreversible d.side_effect && d.rollback_supported) irreversible_rollback,
    )

-- The descriptor is left as far as it was normalised when an error is returned.
unfoldable pub normalize :
    CapabilityDescriptor → CapabilityDescriptor × Result CapabilityError (Unit {0})
unfolding normalize_scopes
normalize d =
    let e = record d { id = trim d.id } in
    if is_blank d.id
    then (e, err empty_capability_id)
    else if d.version == 0
    then (e, err invalid_version)
    else normalize_scopes e
