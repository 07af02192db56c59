-- ===== src/Executor/Complete.antt =====
-- The whole execution: a validated graph runs without missing a value.
use ntd.Prelude.{
  ◌≡◌, ◌≢◌, refl, sym, ap, ◌∙◌, ◌⊎◌, inl, inr, Bool, true, false, ◌||◌, not, List, [], ◌∷◌, nat_ord,
  arith, Bool-cases, Result, ok, err, map_err, All, ok-injective, >>=-eq-ok, refuse-eq-ok,
}
use ntd.Prelude.BTreeMap
use ntd.Prelude.BTreeMap.{BTreeMap, get-insert}
use ntd.Prelude.BTreeSet
use ntd.Prelude.BTreeSet.{BTreeSet, contains-insert}
use ntd.Ir.{
  ValueId, ValueDecl, Graph, ValidationError, declare, check_nodes, validate, can_read,
  current_version, unsupported_version,
}
use ntd.Ir.Laws.{declares, contains-declare, check_outputs-All}
use ntd.Executor.{
  invalid_graph, Backend, no_node, uses_of, count_uses, run_nodes, collect_decls, collect_ids,
  load_inputs, execute_with_resolver,
}
use ntd.Executor.Uses.{Present, uses_of-count_uses}
use ntd.Executor.Values.{Present-load_inputs}
use ntd.Executor.Missing.{
  NotMissing, >>=-NotMissing, All-map, load_inputs-NotMissing, gather-NotMissing,
}
use ntd.Executor.Liveness.{both, Owned, IsLive, run_nodes-IsLive}

map_err_ok : {X Y Z : Type 0} (f : X → Y) (r : Result X Z) {z : Z} → map_err f r ≡ ok z → r ≡ ok z
map_err_ok f (ok x) h = ap ok (ok-injective h)
map_err_ok f (err x) h = cc

map_err-NotMissing :
    {E Z : Type 0} (r : Result ValidationError Z) → NotMissing {E = E} (map_err invalid_graph r)
map_err-NotMissing (ok x) n v h = cc
map_err-NotMissing (err x) n v h = cc

collect_decls-declares :
    (j : ValueId) (m : BTreeMap ValueId ValueDecl) (decls : List ValueDecl)
    → BTreeMap.contains_key j (collect_decls m decls)
      ≡ (declares j decls || BTreeMap.contains_key j m)
unfolding collect_decls BTreeMap.contains_key
collect_decls-declares j m [] = refl
collect_decls-declares j m (decl ∷ rest) =
    collect_decls-declares j (BTreeMap.insert decl.id decl m) rest
    ∙ rw (get-insert decl.id j decl m) (ground arith)

contains-collect_ids :
    (s : BTreeSet ValueId) (ids : List ValueId) (j : ValueId)
    → BTreeSet.contains j s ≡ true
    → BTreeSet.contains j (collect_ids s ids) ≡ true
unfolding collect_ids
contains-collect_ids s [] j h = h
contains-collect_ids s (v ∷ rest) j h =
    contains-collect_ids (BTreeSet.insert v s) rest j (contains-insert v j s ∙ rw h (ground arith))

collect_ids-All :
    (s : BTreeSet ValueId) (ids : List ValueId)
    → All (λ v. BTreeSet.contains v (collect_ids s ids) ≡ true) ids
unfolding collect_ids
collect_ids-All s [] = tt
collect_ids-All s (v ∷ rest) = (
  contains-collect_ids (BTreeSet.insert v s) rest v (contains-insert v v s ∙ ground arith),
  collect_ids-All (BTreeSet.insert v s) rest,
)

-- What `Graph::validate` has checked: the values declared by the inputs, and those declared in all.
validate-parts :
    (g : Graph)
    → validate g ≡ ok tt
    → (first : BTreeSet ValueId) × (last : BTreeSet ValueId) × (declare [] g.inputs ≡ ok first)
      × (check_nodes [] first g.nodes ≡ ok last)
      × All (λ o. BTreeSet.contains o last ≡ true) g.outputs
unfolding validate
validate-parts g h =
    let (_, h₁) =
      refuse-eq-ok (not (can_read current_version g.version)) (unsupported_version g.version) _ h in
    let (first, e₁, h₂) = >>=-eq-ok (declare [] g.inputs) _ h₁ in
    let (last, e₂, h₃) = >>=-eq-ok (check_nodes [] first g.nodes) _ h₂ in
    (first, last, e₁, e₂, check_outputs-All last g.outputs h₃)

-- The executor before its first node.
start-IsLive :
    {T : Type 0} (g : Graph) (first : BTreeSet ValueId) (given : BTreeMap ValueId T)
    → declare [] g.inputs ≡ ok first
    → IsLive
        (collect_decls [] g.inputs)
        (collect_ids [] g.outputs)
        given
        first
        g.nodes
        (given, count_uses [] g.nodes)
unfolding uses_of BTreeMap.get BTreeSet.contains BTreeMap.contains_key
start-IsLive g first given declared = record {
  counted = λ j. omega (arith, uses_of-count_uses j [] g.nodes);
  held = λ j known owned _. there j known owned;
}
  where
    there :
        (j : ValueId)
        → BTreeSet.contains j first ≡ true
        → Owned (collect_decls [] g.inputs) (collect_ids [] g.outputs) given j
        → Present j given
    there j known (inr given') = given'
    there j known (inl undeclared) = absurd (
        clash (declares j g.inputs) (sym (contains-declare j [] g.inputs declared) ∙ known)
          (sym (collect_decls-declares j [] g.inputs) ∙ undeclared))
      where
        clash : (b : Bool) → (b || false) ≡ true → (b || false) ≢ false
        clash b h k = cc

module _ {T E : Type 0} (backend : Backend T E) (g : Graph) (inputs : BTreeMap ValueId T) where
  -- An output that is an input of the graph has been given.
  abbrev pub Supplied : ValueId → Type 0
  Supplied o = (declares o g.inputs ≡ false) ⊎ Present o inputs

  Supplied-Owned :
      (given : BTreeMap ValueId T) (o : ValueId)
      → load_inputs backend (collect_decls [] g.inputs) [] inputs ≡ ok given
      → Supplied o
      → Owned (collect_decls [] g.inputs) (collect_ids [] g.outputs) given o
  unfolding BTreeMap.get BTreeMap.contains_key
  Supplied-Owned given o e (inl undeclared) =
      inl (collect_decls-declares o [] g.inputs ∙ rw undeclared refl)
  Supplied-Owned given o e (inr supplied) = elim (Bool-cases (declares o g.inputs)) [
    | inl declared ↦ inr (
        Present-load_inputs backend (collect_decls [] g.inputs) o [] inputs e
          (inr (supplied, collect_decls-declares o [] g.inputs ∙ rw declared refl)))
    | inr undeclared ↦ inl (collect_decls-declares o [] g.inputs ∙ rw undeclared refl)
  ]

  -- If every output of the graph that is also an input of it is among the values given, the execution
  -- does not end in `MissingValue`, whatever the provider and the resolver answer.
  pub execute_with_resolver-NotMissing :
      All Supplied g.outputs → NotMissing (execute_with_resolver backend g inputs)
  unfolding execute_with_resolver
  execute_with_resolver-NotMissing supplied =
      >>=-NotMissing (map_err invalid_graph (validate g)) _ (map_err-NotMissing (validate g))
        (λ _ valid.
          let (first, last, declared, checked, outputs) =
            validate-parts g (map_err_ok invalid_graph (validate g) valid) in
          let decls = collect_decls [] g.inputs in
          let output_ids = collect_ids [] g.outputs in
          >>=-NotMissing (load_inputs backend decls [] inputs) _
            (load_inputs-NotMissing backend decls [] inputs)
            (λ given loaded.
              let (run, after) =
                run_nodes-IsLive backend decls output_ids given [] first last g.nodes
                  (given, count_uses [] g.nodes) (start-IsLive g first given declared) checked in
              >>=-NotMissing
                (run_nodes backend decls output_ids g.nodes (given, count_uses [] g.nodes)) _ run
                (λ s done. gather-NotMissing no_node g.outputs s.0 (
                  All-map
                    (λ o h.
                      (after s done).held o h.0.0 (Supplied-Owned given o loaded h.0.1) (inr h.1))
                    g.outputs
                    (both (λ o. (BTreeSet.contains o last ≡ true) × Supplied o)
                      (λ o. BTreeSet.contains o output_ids ≡ true) g.outputs
                      (both (λ o. BTreeSet.contains o last ≡ true) Supplied g.outputs outputs
                        supplied)
                      (collect_ids-All [] g.outputs))))))
