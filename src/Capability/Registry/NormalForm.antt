-- ===== src/Capability/Registry/NormalForm.antt =====
-- crates/ntd-runtime/src/capability.rs: the normal form that `normalize` gives a descriptor.
use ntd.Prelude.{
  ◌≡◌, ◌≢◌, refl, ◌∙◌, false, ◌&&◌, Result, ok, err, Bool-cases, inl, inr, arith, text_ord, ◌==◌,
  Text, Bool, true, List, [], ◌∷◌, All, is_blank, trim, trim-trim, is_blank-trim, refuse,
}
use ntd.Prelude.Sorting.{ascends, dedup-sort-ascends, All-sort, All-dedup}
use ntd.Core.{CapabilityId, SideEffectClass, irreversible}
use ntd.Capability.Descriptor.{
  AuthorityScope, trim_scopes, CapabilityDescriptor, CapabilityError, is_irreversible,
  irreversible_rollback, normalize, normalize_scopes,
}

-- A text that is not blank and has no space around it.
abbrev pub IsTrimmed : Text → Type 0
IsTrimmed s = (is_blank s ≡ false) × (trim s ≡ s)

-- What registration has established of a descriptor: the normal form of `normalize`.
pub record IsRegistered (id : CapabilityId) (d : CapabilityDescriptor) : Type 0 where
  pub keyed : d.id ≡ id
  pub named : IsTrimmed d.id
  pub versioned : d.version ≢ 0
  pub scopes : All IsTrimmed d.required_scopes
  pub ascending : ascends d.required_scopes ≡ true
  pub reversible : d.side_effect ≡ irreversible → d.rollback_supported ≡ false

trim-IsTrimmed : (s : Text) → is_blank s ≡ false → IsTrimmed (trim s)
trim-IsTrimmed s h = (is_blank-trim s ∙ h, trim-trim s)

trim_scopes-IsTrimmed :
    (ss : List AuthorityScope) → (trim_scopes ss).1 ≡ true → All IsTrimmed (trim_scopes ss).0
unfolding trim_scopes
trim_scopes-IsTrimmed [] h = tt
trim_scopes-IsTrimmed (s ∷ ss) h = elim (Bool-cases (is_blank s)) [
  | inl e ↦ let k = rw e at h in cc
  | inr e ↦ rw e (trim-IsTrimmed s e, trim_scopes-IsTrimmed ss (rw e at h))
]

no_rollback :
    (c : SideEffectClass) (b : Bool) (r : CapabilityError)
    → refuse (is_irreversible c && b) r ≡ ok tt
    → c ≡ irreversible
    → b ≡ false
no_rollback c true r h e = let k = rw e at h in cc
no_rollback c false r h e = refl

normalize_scopes-IsRegistered :
    (d : CapabilityDescriptor)
    → IsTrimmed d.id
    → (d.version == 0) ≡ false
    → (normalize_scopes d).1 ≡ ok tt
    → IsRegistered d.id (normalize_scopes d).0
unfolding normalize_scopes
normalize_scopes-IsRegistered d named v h = elim (Bool-cases (trim_scopes d.required_scopes).1) [
  | inr e ↦ let k = rw e at h in cc
  | inl e ↦ rw e (record {
    keyed = refl;
    named = named;
    versioned = λ k. ground arith;
    scopes =
        All-dedup IsTrimmed _ (All-sort IsTrimmed _ (trim_scopes-IsTrimmed d.required_scopes e));
    ascending = dedup-sort-ascends (trim_scopes d.required_scopes).0;
    reversible = no_rollback d.side_effect d.rollback_supported irreversible_rollback (rw e at h);
  })
]

pub normalize-IsRegistered :
    (d : CapabilityDescriptor) → (normalize d).1 ≡ ok tt → IsRegistered (trim d.id) (normalize d).0
unfolding normalize
normalize-IsRegistered d h = elim (Bool-cases (is_blank d.id)) [
  | inl e ↦ absurd (refused (rw e at h))
  | inr e ↦ elim (Bool-cases (d.version == 0)) [
    | inl k ↦ absurd (refused (rw (e, k) at h))
    | inr k ↦
        rw (e, k)
          (normalize_scopes-IsRegistered (record d { id = trim d.id }) (trim-IsTrimmed d.id e) k
            (rw (e, k) at h))
  ]
]
  where
    refused : {e : CapabilityError} → ◌≢◌ {A = Result CapabilityError (Unit {0})} (err e) (ok tt)
    refused h' = cc
