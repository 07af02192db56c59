-- ===== src/Capability/Authority.antt =====
-- What `AuthorityGrant::permits` decides: the grant's scopes against the descriptor's, and its
-- switches against the class of side effect.
use ntd.Prelude.{◌≡◌, refl, ◌↔◌, Bool, true, List, [], ◌∷◌, ok, all, arith, text_ord, >>-eq-ok}
use ntd.Prelude.BTreeSet
use ntd.Prelude.BTreeSet.{BTreeSet, contains-insert}
use ntd.Core.{SideEffectClass, read_only, reversible, external_write, irreversible}
use ntd.Capability.Descriptor.{
  AuthorityScope, AuthorityGrant, CapabilityDescriptor, with_scope, permits, permits_scopes,
  permits_side_effect,
}

-- The grant holds every scope of the list.
abbrev pub covers : AuthorityGrant → List AuthorityScope → Bool
covers g required = all (λ s. BTreeSet.contains s g.scopes) required

abbrev pub allows : AuthorityGrant → SideEffectClass → Bool
allows g read_only = true
allows g reversible = true
allows g external_write = g.allow_external_write
allows g irreversible = g.allow_irreversible

permits_scopes-covers :
    (g : AuthorityGrant) (required : List AuthorityScope)
    → permits_scopes g required ≡ ok tt
    → covers g required ≡ true
unfolding permits_scopes
permits_scopes-covers g [] h = refl
permits_scopes-covers g (s ∷ ss) h = ground (arith, permits_scopes-covers g ss)

covers-permits_scopes :
    (g : AuthorityGrant) (required : List AuthorityScope)
    → covers g required ≡ true
    → permits_scopes g required ≡ ok tt
unfolding permits_scopes
covers-permits_scopes g [] h = refl
covers-permits_scopes g (s ∷ ss) h = ground (arith, covers-permits_scopes g ss)

permits_side_effect-allows :
    (g : AuthorityGrant) (c : SideEffectClass) → permits_side_effect g c ≡ ok tt → allows g c ≡ true
unfolding permits_side_effect
permits_side_effect-allows g read_only h = refl
permits_side_effect-allows g reversible h = refl
permits_side_effect-allows g external_write h = ground arith
permits_side_effect-allows g irreversible h = ground arith

allows-permits_side_effect :
    (g : AuthorityGrant) (c : SideEffectClass) → allows g c ≡ true → permits_side_effect g c ≡ ok tt
unfolding permits_side_effect
allows-permits_side_effect g read_only h = refl
allows-permits_side_effect g reversible h = refl
allows-permits_side_effect g external_write h = ground arith
allows-permits_side_effect g irreversible h = ground arith

-- A grant permits a descriptor exactly when it holds every required scope and, for an external
-- write or an irreversible effect, allows that class of effect.
pub permits-covers :
    (g : AuthorityGrant) (d : CapabilityDescriptor)
    → (permits g d ≡ ok tt)
      ↔ ((covers g d.required_scopes ≡ true) × (allows g d.side_effect ≡ true))
unfolding permits
permits-covers g d = (there, back)
  where
    there :
        permits g d ≡ ok tt → (covers g d.required_scopes ≡ true) × (allows g d.side_effect ≡ true)
    there h =
        let (s, e) = >>-eq-ok (permits_scopes g d.required_scopes) _ h in
        (permits_scopes-covers g d.required_scopes s, permits_side_effect-allows g d.side_effect e)

    back :
        (covers g d.required_scopes ≡ true) × (allows g d.side_effect ≡ true) → permits g d ≡ ok tt
    back (s, e) =
        rw (covers-permits_scopes g d.required_scopes s)
          (allows-permits_side_effect g d.side_effect e)

covers-with_scope :
    (g : AuthorityGrant) (scope : AuthorityScope) (required : List AuthorityScope)
    → covers g required ≡ true
    → covers (with_scope g scope) required ≡ true
unfolding with_scope
covers-with_scope g scope [] h = refl
covers-with_scope g scope (s ∷ ss) h =
    rw (contains-insert scope s g.scopes) (ground (arith, covers-with_scope g scope ss))

-- A scope added to a grant takes no permission away.
pub permits-with_scope :
    (g : AuthorityGrant) (scope : AuthorityScope) (d : CapabilityDescriptor)
    → permits g d ≡ ok tt
    → permits (with_scope g scope) d ≡ ok tt
unfolding with_scope
permits-with_scope g scope d h =
    let (s, e) = (permits-covers g d).0 h in
    (permits-covers (with_scope g scope) d).1
      (covers-with_scope g scope d.required_scopes s, ground (arith, e))
