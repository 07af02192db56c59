-- ===== src/Executor/Values.antt =====
-- Which values the executor holds behind its loops.
use ntd.Prelude.{
  ◌≡◌, ◌≢◌, refl, sym, ap, ◌∙◌, subst, ◌⊎◌, inl, inr, true, false, ◌||◌, ◌==◌, none, is_some, List,
  [], ◌∷◌, nat_ord, arith, Bool-cases, Option-cases, ok, map_err, ok_or, length, All, ok-injective,
  ==_iff, >>=-eq-ok, >>-eq-ok,
}
use ntd.Prelude.BTreeMap
use ntd.Prelude.BTreeMap.{BTreeMap, get-insert}
use ntd.Ir.{ValueId, NodeId, ValueDecl}
use ntd.Ir.Laws.{declares}
use ntd.Executor.{
  missing_value, missing_graph_input, resolve_error, Backend, no_node, validate_decl, load_inputs,
  resolve_input, resolve_inputs, store_outputs,
}
use ntd.Executor.Uses.{Present}

Present-insert :
    {T : Type 0} (j v : ValueId) (t : T) (values : BTreeMap ValueId T)
    → BTreeMap.contains_key j (BTreeMap.insert v t values)
      ≡ ((j == v) || BTreeMap.contains_key j values)
unfolding BTreeMap.contains_key
Present-insert j v t values = rw (get-insert v j t values) (ground arith)

module _ {T E : Type 0} (backend : Backend T E) where
  pub resolve_input-Present :
      (decls : BTreeMap ValueId ValueDecl) (node : NodeId) (v j : ValueId)
      (values : BTreeMap ValueId T) {after : BTreeMap ValueId T}
      → resolve_input backend decls node v values ≡ ok after
      → BTreeMap.contains_key j after ≡ ((j == v) || BTreeMap.contains_key j values)
  unfolding resolve_input
  resolve_input-Present decls node v j values {after} h =
      elim (Bool-cases (BTreeMap.contains_key v values)) [
        | inl here ↦ kept here (ok-injective (rw (here, resolve_input) at h))
        | inr absent ↦
            let (decl, _, h₁) =
              >>=-eq-ok (ok_or (BTreeMap.get v decls) (missing_value node v)) _
                (rw (absent, resolve_input) at h) in
            let (found, _, h₂) = >>=-eq-ok (map_err (resolve_error v) (backend.resolve v)) _ h₁ in
            let (t, _, h₃) = >>=-eq-ok (ok_or found (missing_graph_input v)) _ h₂ in
            let (_, h₄) = >>-eq-ok (validate_decl backend no_node decl t) _ h₃ in
            ap (BTreeMap.contains_key j) (sym (ok-injective h₄)) ∙ Present-insert j v t values
      ]
    where
      kept :
          BTreeMap.contains_key v values ≡ true
          → values ≡ after
          → BTreeMap.contains_key j after ≡ ((j == v) || BTreeMap.contains_key j values)
      kept here e = ap (BTreeMap.contains_key j) (sym e) ∙ already (Bool-cases (j == v))
        where
          already :
              ((j == v) ≡ true) ⊎ ((j == v) ≡ false)
              → BTreeMap.contains_key j values ≡ ((j == v) || BTreeMap.contains_key j values)
          already (inl same) =
              rw same (
                subst (λ i. BTreeMap.contains_key i values ≡ true) (sym ((==_iff j v).0 same)) here)
          already (inr other) = rw other refl

  pub Present-load_inputs :
      (decls : BTreeMap ValueId ValueDecl) (j : ValueId) (values inputs : BTreeMap ValueId T)
      {after : BTreeMap ValueId T}
      → load_inputs backend decls values inputs ≡ ok after
      → (BTreeMap.contains_key j values ≡ true)
        ⊎ ((BTreeMap.contains_key j inputs ≡ true) × (BTreeMap.contains_key j decls ≡ true))
      → Present j after
  unfolding load_inputs BTreeMap.contains_key BTreeMap.get
  Present-load_inputs decls j values [] h (inl here) =
      ap (BTreeMap.contains_key j) (sym (ok-injective h)) ∙ here
  Present-load_inputs decls j values [] h (inr given) = absurd (nothing given.0)
    where
      nothing : BTreeMap.contains_key {V = T} j [] ≢ true
      nothing e = cc
  Present-load_inputs decls j values ((v, t) ∷ rest) h here =
      elim (Option-cases (BTreeMap.get v decls)) [
        | inl e ↦
            Present-load_inputs decls j values rest (rw (e, load_inputs) at h)
              (passed e (Bool-cases (j == v)) here)
        | inr (decl, e) ↦
            let (_, h₁) =
              >>-eq-ok (validate_decl backend no_node decl t) _ (rw (e, load_inputs) at h) in
            Present-load_inputs decls j (BTreeMap.insert v t values) rest h₁
              (loaded (Bool-cases (j == v)) here)
      ]
    where
      passed :
          BTreeMap.get v decls ≡ none
          → ((j == v) ≡ true) ⊎ ((j == v) ≡ false)
          → (BTreeMap.contains_key j values ≡ true)
            ⊎ ((BTreeMap.contains_key j ((v, t) ∷ rest) ≡ true)
                × (BTreeMap.contains_key j decls ≡ true))
          → (BTreeMap.contains_key j values ≡ true)
            ⊎ ((BTreeMap.contains_key j rest ≡ true) × (BTreeMap.contains_key j decls ≡ true))
      passed e s (inl held) = inl held
      passed e (inl same) (inr given) = absurd (undeclared (rw ((==_iff j v).0 same) at given.1))
        where
          undeclared : BTreeMap.contains_key v decls ≢ true
          undeclared k = cc (ap is_some e, k)
      passed e (inr other) (inr given) = inr (rw other at given.0, given.1)

      loaded :
          ((j == v) ≡ true) ⊎ ((j == v) ≡ false)
          → (BTreeMap.contains_key j values ≡ true)
            ⊎ ((BTreeMap.contains_key j ((v, t) ∷ rest) ≡ true)
                × (BTreeMap.contains_key j decls ≡ true))
          → (BTreeMap.contains_key j (BTreeMap.insert v t values) ≡ true)
            ⊎ ((BTreeMap.contains_key j rest ≡ true) × (BTreeMap.contains_key j decls ≡ true))
      loaded (inl same) here' = inl (Present-insert j v t values ∙ rw same refl)
      loaded (inr other) (inl held) = inl (Present-insert j v t values ∙ rw other held)
      loaded (inr other) (inr given) = inr (rw other at given.0, given.1)

  pub Present-store_outputs :
      (node : NodeId) (decls : List ValueDecl) (ts : List T) (j : ValueId)
      (values : BTreeMap ValueId T) {after : BTreeMap ValueId T}
      → store_outputs backend node decls ts values ≡ ok after
      → length ts ≡ length decls
      → BTreeMap.contains_key j after ≡ (declares j decls || BTreeMap.contains_key j values)
  unfolding store_outputs
  Present-store_outputs node [] ts j values h same =
      ap (BTreeMap.contains_key j) (sym (ok-injective h))
  Present-store_outputs node (decl ∷ decls) [] j values h same = absurd (omega (arith, same))
  Present-store_outputs node (decl ∷ decls) (t ∷ ts) j values {after} h same =
      let (_, h₁) = >>-eq-ok (validate_decl backend node decl t) _ h in
      Present-store_outputs node decls ts j (BTreeMap.insert decl.id t values) h₁
        (omega (arith, same))
      ∙ rw (Present-insert j decl.id t values) (ground arith)

  pub Present-resolve_inputs :
      (decls : BTreeMap ValueId ValueDecl) (node : NodeId) (inputs : List ValueId) (j : ValueId)
      (values : BTreeMap ValueId T) {after : BTreeMap ValueId T}
      → resolve_inputs backend decls node inputs values ≡ ok after
      → Present j values
      → Present j after
  unfolding resolve_inputs
  Present-resolve_inputs decls node [] j values h here =
      ap (BTreeMap.contains_key j) (sym (ok-injective h)) ∙ here
  Present-resolve_inputs decls node (v ∷ rest) j values h here =
      let (values', h₁, h₂) = >>=-eq-ok (resolve_input backend decls node v values) _ h in
      Present-resolve_inputs decls node rest j values' h₂
        (resolve_input-Present decls node v j values h₁ ∙ rw here (ground arith))

  -- Each of the node's inputs is there once all are resolved.
  pub resolve_inputs-Present :
      (decls : BTreeMap ValueId ValueDecl) (node : NodeId) (inputs : List ValueId)
      (values : BTreeMap ValueId T) {after : BTreeMap ValueId T}
      → resolve_inputs backend decls node inputs values ≡ ok after
      → All (λ v. Present v after) inputs
  unfolding resolve_inputs
  resolve_inputs-Present decls node [] values h = tt
  resolve_inputs-Present decls node (v ∷ rest) values h =
      let (values', h₁, h₂) = >>=-eq-ok (resolve_input backend decls node v values) _ h in
      (
        Present-resolve_inputs decls node rest v values' h₂
            (resolve_input-Present decls node v v values h₁ ∙ ground arith),
        resolve_inputs-Present decls node rest values' h₂,
      )
