-- ===== src/Executor/Missing.antt =====
-- Which steps of the executor can end in `MissingValue`.
use ntd.Prelude.{
  ◌≡◌, ◌≢◌, refl, ap, ◌∙◌, inl, inr, Bool, true, false, ◌||◌, ◌==◌, Option, none, some, is_some,
  List, [], ◌∷◌, nat_ord, arith, Bool-cases, Option-cases, Result, ok, err, ◌>>=◌, map_err, ok_or,
  All,
}
use ntd.Prelude.BTreeMap
use ntd.Prelude.BTreeMap.{BTreeMap, get-insert}
use ntd.Ir.{ValueId, NodeId, ValueDecl}
use ntd.Executor.{
  ExecutionError, TensorResolveError, missing_value, missing_graph_input, resolve_error, Backend,
  no_node, check_rank, validate_decl, load_inputs, resolve_input, resolve_inputs, gather,
  store_outputs,
}
use ntd.Executor.Uses.{Present}
use ntd.Executor.Values.{resolve_input-Present}

-- The error is not that a value is missing.
abbrev pub NotMissing : {E X : Type 0} → Result (ExecutionError E) X → Type 0
NotMissing {E = E} {X = X} r =
    (node : NodeId) (v : ValueId)
    → ◌≢◌ {A = Result (ExecutionError E) X} r (err (missing_value node v))

module _ {E X : Type 0} where
  pub ok-NotMissing : (x : X) → NotMissing {E = E} (ok x)
  ok-NotMissing x node v h = cc

  pub >>=-NotMissing :
      {Y : Type 0} (m : Result (ExecutionError E) X) (f : X → Result (ExecutionError E) Y)
      → NotMissing m
      → ((x : X) → m ≡ ok x → NotMissing (f x))
      → NotMissing (m >>= f)
  >>=-NotMissing (ok x) f first next = next x refl
  >>=-NotMissing (err e) f first next = λ node v h. first node v (error h)
    where
      error :
          {Y : Type 0} {e' : ExecutionError E}
          → ◌≡◌ {A = Result (ExecutionError E) Y} (err e) (err e')
          → ◌≡◌ {A = Result (ExecutionError E) X} (err e) (err e')
      error h = cc

pub All-map :
    {A : Type 0} {P Q : A → Type 0} → ((x : A) → P x → Q x) → (xs : List A) → All P xs → All Q xs
All-map f [] h = tt
All-map f (x ∷ xs) h = (f x h.0, All-map f xs h.1)

module _ {T E : Type 0} (backend : Backend T E) where
  validate_decl-NotMissing :
      (node : NodeId) (decl : ValueDecl) (t : T) → NotMissing (validate_decl backend node decl t)
  unfolding validate_decl check_rank
  validate_decl-NotMissing node decl t n v h = ground arith

  resolve_input-NotMissing :
      (decls : BTreeMap ValueId ValueDecl) (node : NodeId) (v : ValueId)
      (values : BTreeMap ValueId T)
      → (BTreeMap.contains_key v decls ≡ false → Present v values)
      → NotMissing (resolve_input backend decls node v values)
  unfolding resolve_input BTreeMap.contains_key
  resolve_input-NotMissing decls node v values own =
      elim (Bool-cases (BTreeMap.contains_key v values)) [
        | inl here ↦ rw (here, resolve_input) (ok-NotMissing values)
        | inr absent ↦ elim (Option-cases (BTreeMap.get v decls)) [
          | inl e ↦ absurd (missing (own (ap is_some e)) absent)
          | inr (decl, e) ↦
              rw (absent, resolve_input)
                (rw e (
                  >>=-NotMissing (map_err (resolve_error v) (backend.resolve v)) _
                    (resolving (backend.resolve v))
                    (λ found _.
                      >>=-NotMissing (ok_or found (missing_graph_input v)) _ (finding found) (λ t _.
                        >>=-NotMissing (validate_decl backend no_node decl t) _
                          (validate_decl-NotMissing no_node decl t)
                          (λ _ _. ok-NotMissing (BTreeMap.insert v t values))))))
        ]
      ]
    where
      missing : BTreeMap.contains_key v values ≡ true → BTreeMap.contains_key v values ≢ false
      missing h k = cc

      resolving :
          (r : Result TensorResolveError (Option T))
          → NotMissing {E = E} (map_err (resolve_error v) r)
      resolving (ok x) n w h = cc
      resolving (err x) n w h = cc

      finding : (o : Option T) → NotMissing {E = E} (ok_or o (missing_graph_input v))
      finding none n w h = cc
      finding (some x) n w h = cc

  -- Values that the graph declares may still be absent: they are asked of the resolver.
  pub resolve_inputs-NotMissing :
      (decls : BTreeMap ValueId ValueDecl) (node : NodeId) (inputs : List ValueId)
      (values : BTreeMap ValueId T)
      → All (λ v. BTreeMap.contains_key v decls ≡ false → Present v values) inputs
      → NotMissing (resolve_inputs backend decls node inputs values)
  unfolding resolve_inputs
  resolve_inputs-NotMissing decls node [] values own = ok-NotMissing values
  resolve_inputs-NotMissing decls node (v ∷ rest) values own =
      >>=-NotMissing (resolve_input backend decls node v values) _
        (resolve_input-NotMissing decls node v values own.0)
        (λ values' h. resolve_inputs-NotMissing decls node rest values' (
          All-map
            (λ w k undeclared.
              resolve_input-Present backend decls node v w values h
              ∙ rw (k undeclared) (or_true (w == v)))
            rest own.1))
    where
      or_true : (b : Bool) → (b || true) ≡ true
      or_true true = refl
      or_true false = refl

  pub store_outputs-NotMissing :
      (node : NodeId) (decls : List ValueDecl) (ts : List T) (values : BTreeMap ValueId T)
      → NotMissing (store_outputs backend node decls ts values)
  unfolding store_outputs
  store_outputs-NotMissing node [] ts values = ok-NotMissing values
  store_outputs-NotMissing node (decl ∷ decls) [] values = ok-NotMissing values
  store_outputs-NotMissing node (decl ∷ decls) (t ∷ ts) values =
      >>=-NotMissing (validate_decl backend node decl t) _ (validate_decl-NotMissing node decl t)
        (λ _ _. store_outputs-NotMissing node decls ts (BTreeMap.insert decl.id t values))

  pub load_inputs-NotMissing :
      (decls : BTreeMap ValueId ValueDecl) (values inputs : BTreeMap ValueId T)
      → NotMissing (load_inputs backend decls values inputs)
  unfolding load_inputs
  load_inputs-NotMissing decls values [] = ok-NotMissing values
  load_inputs-NotMissing decls values ((v, t) ∷ rest) = elim (Option-cases (BTreeMap.get v decls)) [
    | inl e ↦ rw (e, load_inputs) (load_inputs-NotMissing decls values rest)
    | inr (decl, e) ↦
        rw (e, load_inputs)
          (>>=-NotMissing (validate_decl backend no_node decl t) _
            (validate_decl-NotMissing no_node decl t)
            (λ _ _. load_inputs-NotMissing decls (BTreeMap.insert v t values) rest))
  ]

-- Values that are all there are gathered.
pub gather-NotMissing :
    {T E : Type 0} (node : NodeId) (vs : List ValueId) (values : BTreeMap ValueId T)
    → All (λ v. Present v values) vs
    → NotMissing (gather {TensorError = E} node vs values)
unfolding gather BTreeMap.contains_key
gather-NotMissing node [] values here = ok-NotMissing []
gather-NotMissing {T} {E} node (v ∷ rest) values here =
    >>=-NotMissing (ok_or (BTreeMap.get v values) (missing_value node v)) _
      (found (BTreeMap.get v values) here.0)
      (λ t _.
        >>=-NotMissing (gather node rest values) _ (gather-NotMissing node rest values here.1)
          (λ ts _. ok-NotMissing (t ∷ ts)))
  where
    found : (o : Option T) → is_some o ≡ true → NotMissing {E = E} (ok_or o (missing_value node v))
    found none h n w k = cc
    found (some t) h n w k = cc
