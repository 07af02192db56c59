-- ===== src/Capability/Registry/Laws.antt =====
-- crates/ntd-runtime/src/capability.rs: what a registry keeps, and what its look-ups answer.
use ntd.Prelude.{
  ℕ, ◌≡◌, ◌≢◌, refl, sym, ap, ◌∙◌, false, not, Option, none, some, Result, ok, err, Bool-cases,
  Result-cases, inl, inr, arith, text_ord, ◌==◌, text_eq, subst, subst₂, ok-injective,
  some-injective, ok_or, >>-eq-ok, >>=-eq-ok, refuse-eq-ok,
}
use ntd.Prelude.BTreeMap
use ntd.Prelude.BTreeMap.{BTreeMap, get-insert}
use ntd.Core.{CapabilityId}
use ntd.Capability.Descriptor.{
  CapabilityDescriptor, CapabilityError, normalize, domain_tag, domain_mismatch, missing_capability,
}
use ntd.Capability.Registry.NormalForm.{IsRegistered, normalize-IsRegistered}
use ntd.Capability.Action.{TypedAction, domain, validate}
use ntd.Capability.Registry.{
  CapabilityRegistry, register, register_normal, descriptor, validate_action,
}

abbrev pub IsKeyed : CapabilityRegistry → Type 0
IsKeyed r =
    (id : CapabilityId) (d : CapabilityDescriptor)
    → BTreeMap.get id r.descriptors ≡ some d
    → IsRegistered id d

insert-IsKeyed :
    (r : CapabilityRegistry) (n : CapabilityDescriptor)
    → IsKeyed r
    → IsRegistered n.id n
    → IsKeyed (record { descriptors = BTreeMap.insert n.id n r.descriptors })
insert-IsKeyed r n keyed h id d found = elim (Bool-cases (text_eq id n.id)) [
  | inl e ↦
      subst₂ IsRegistered (sym ((text_ord.eq_iff id n.id).0 e))
        (some-injective n d (sym (get-insert n.id id n r.descriptors ∙ rw e refl) ∙ found)) h
  | inr e ↦ keyed id d (sym (get-insert n.id id n r.descriptors ∙ rw e refl) ∙ found)
]

register_normal-IsKeyed :
    (r : CapabilityRegistry) (n : CapabilityDescriptor)
    → IsKeyed r
    → IsRegistered n.id n
    → IsKeyed (register_normal r n (ok tt)).0
unfolding register_normal
register_normal-IsKeyed r n keyed h = elim (Bool-cases (BTreeMap.contains_key n.id r.descriptors)) [
  | inl e ↦ rw e keyed
  | inr e ↦ rw e (insert-IsKeyed r n keyed h)
]

-- Registration, whether it succeeds or fails, keeps a registry in which every descriptor stands
-- under its own identifier and is in normal form: its identifier and its scopes are trimmed and not
-- blank, the scopes ascend strictly, the version is not 0, and an irreversible capability does not
-- support rollback.
pub register-IsKeyed :
    (r : CapabilityRegistry) (d : CapabilityDescriptor) → IsKeyed r → IsKeyed (register r d).0
unfolding register
register-IsKeyed r d keyed = elim (Result-cases (normalize d).1) [
  | inl (_, e) ↦
      let n = normalize-IsRegistered d e in
      rw e (
        register_normal-IsKeyed r (normalize d).0 keyed
          (subst (λ id. IsRegistered id (normalize d).0) (sym n.keyed) n))
  | inr (x, e) ↦ rw e keyed
]

ok_or-some : {E X : Type 0} (o : Option X) (e : E) {x : X} → ok_or o e ≡ ok x → o ≡ some x
ok_or-some none e h = cc
ok_or-some (some y) e h = ap some (ok-injective h)

eq_of_not : (m n : ℕ) → not (m == n) ≡ false → m ≡ n
eq_of_not m n h = ground arith

-- An action that a keyed registry accepts is a valid one, and the descriptor returned is registered
-- under the capability asked for and has the action's domain.
pub validate_action-IsRegistered :
    (r : CapabilityRegistry) (id : CapabilityId) (action : TypedAction) (d : CapabilityDescriptor)
    → IsKeyed r
    → validate_action r id action ≡ ok d
    → (validate action ≡ ok tt)
      × (descriptor r id ≡ ok d)
      × IsRegistered id d
      × (domain_tag d.domain ≡ domain_tag (domain action))
unfolding validate_action descriptor
validate_action-IsRegistered r id action d keyed h =
    let (v, h₁) = >>-eq-ok (validate action) _ h in
    let (d', found, h₂) =
      >>=-eq-ok (ok_or (BTreeMap.get id r.descriptors) (missing_capability id)) _ h₁ in
    let (same_domain, h₃) =
      refuse-eq-ok (not (domain_tag d'.domain == domain_tag (domain action)))
        (domain_mismatch id d'.domain (domain action)) (ok d') h₂ in
    let same : d' ≡ d = ok-injective h₃ in
    (
      v,
      ap (λ o. ok_or o (missing_capability id)) (there d' found) ∙ ap ok same,
      keyed id d (there d' found ∙ ap some same),
      subst (λ (x : CapabilityDescriptor). domain_tag x.domain ≡ domain_tag (domain action)) same
          (eq_of_not (domain_tag d'.domain) (domain_tag (domain action)) same_domain),
    )
  where
    there :
        (x : CapabilityDescriptor)
        → ok_or (BTreeMap.get id r.descriptors) (missing_capability id) ≡ ok x
        → BTreeMap.get id r.descriptors ≡ some x
    there x h' = ok_or-some (BTreeMap.get id r.descriptors) (missing_capability id) h'

-- A descriptor that has been registered is found under its trimmed identifier, in normal form, and
-- all other look-ups answer as before.
pub descriptor-register :
    (r r' : CapabilityRegistry) (d : CapabilityDescriptor)
    → register r d ≡ (r', ok tt)
    → (descriptor r' (normalize d).0.id ≡ ok (normalize d).0)
      × ((id : CapabilityId) → id ≢ (normalize d).0.id → descriptor r' id ≡ descriptor r id)
unfolding register register_normal descriptor
descriptor-register r r' d h = elim (Result-cases (normalize d).1) [
  | inr (x, e) ↦ absurd (refused (ap result (rw (e, register) at h)))
  | inl (_, e) ↦ elim (Bool-cases (BTreeMap.contains_key (normalize d).0.id r.descriptors)) [
    | inl k ↦ absurd (refused (ap result (rw k at (rw (e, register) at h))))
    | inr k ↦
        subst
          (λ (q : CapabilityRegistry).
            (descriptor q n.id ≡ ok n)
            × ((id : CapabilityId) → id ≢ n.id → descriptor q id ≡ descriptor r id))
          (ap registry (rw k at (rw (e, register) at h)))
          (
            ap (λ o. ok_or o (missing_capability n.id)) self,
            λ id ne. ap (λ o. ok_or o (missing_capability id)) (elsewhere id ne),
          )
  ]
]
  where
    n : CapabilityDescriptor
    n = (normalize d).0

    registry : CapabilityRegistry × Result CapabilityError (Unit {0}) → CapabilityRegistry
    registry q = q.0

    result :
        CapabilityRegistry × Result CapabilityError (Unit {0}) → Result CapabilityError (Unit {0})
    result q = q.1

    refused : {e : CapabilityError} → ◌≢◌ {A = Result CapabilityError (Unit {0})} (err e) (ok tt)
    refused k = cc

    self : BTreeMap.get n.id (BTreeMap.insert n.id n r.descriptors) ≡ some n
    self = get-insert n.id n.id n r.descriptors ∙ rw ((text_ord.eq_iff n.id n.id).1 refl) refl

    other : (id : CapabilityId) → id ≢ n.id → text_eq id n.id ≡ false
    other id ne = elim (Bool-cases (text_eq id n.id)) [
      | inl e ↦ absurd (ne ((text_ord.eq_iff id n.id).0 e))
      | inr e ↦ e
    ]

    elsewhere :
        (id : CapabilityId)
        → id ≢ n.id
        → BTreeMap.get id (BTreeMap.insert n.id n r.descriptors) ≡ BTreeMap.get id r.descriptors
    elsewhere id ne = get-insert n.id id n r.descriptors ∙ rw (other id ne) refl
