-- ===== src/Executor/Liveness.antt =====
-- Values are dropped only after their last use: a validated graph runs without missing a value.
use ntd.Prelude.{
  ℕ, ◌<◌, ◌≡◌, refl, sym, ◌∙◌, subst, ◌⊎◌, inl, inr, Bool, true, false, ◌||◌, not, ◌==◌, List, [],
  ◌∷◌, nat_ord, arith, Bool-cases, Result, ok, err, map_err, refuse, length, All, ok-injective,
  >>=-eq-ok, >>-eq-ok, refuse-eq-ok,
}
use ntd.Prelude.BTreeMap
use ntd.Prelude.BTreeMap.{BTreeMap, get-insert}
use ntd.Prelude.BTreeSet
use ntd.Prelude.BTreeSet.{BTreeSet, contains-insert}
use ntd.Ir.{ValueId, NodeId, ValueDecl, Node, declare, check_inputs, check_nodes, duplicate_node_id}
use ntd.Ir.Laws.{declares, contains-declare, check_inputs-All}
use ntd.Executor.{
  provider_error, output_arity, Backend, uses_of, tensor_of, resolve_inputs, gather, release_all,
  store_outputs, run_node, run_nodes,
}
use ntd.Executor.Uses.{count, pending, Kept, Present, uses_of-release_all, Present-release_all}
use ntd.Executor.Values.{Present-store_outputs, Present-resolve_inputs, resolve_inputs-Present}
use ntd.Executor.Missing.{
  NotMissing, ok-NotMissing, >>=-NotMissing, All-map, store_outputs-NotMissing,
  resolve_inputs-NotMissing, gather-NotMissing,
}

count_self : (xs : List ValueId) → All (λ v. 0 < count v xs) xs
count_self [] = tt
count_self (x ∷ xs) = (ground arith, All-map (λ v h. omega (arith, h)) xs (count_self xs))

pub both :
    {A : Type 0} (P Q : A → Type 0) (xs : List A) → All P xs → All Q xs → All (λ x. P x × Q x) xs
both P Q [] h k = tt
both P Q (x ∷ xs) h k = ((h.0, k.0), both P Q xs h.1 k.1)

module _ {T : Type 0} (decls : BTreeMap ValueId ValueDecl) (output_ids : BTreeSet ValueId)
    (given : BTreeMap ValueId T) where
  -- A value that no resolver is asked for: a node's output, or an input of the graph that was given.
  abbrev pub Owned : ValueId → Type 0
  Owned j = (BTreeMap.contains_key j decls ≡ false) ⊎ Present j given

  -- Between two nodes: `seen` are the values declared so far, `rest` the nodes to run.
  pub record IsLive (seen : BTreeSet ValueId) (rest : List Node)
      (s : BTreeMap ValueId T × BTreeMap ValueId ℕ) : Type 0 where
    pub counted : (j : ValueId) → uses_of j s.1 ≡ pending j rest
    pub held :
        (j : ValueId)
        → BTreeSet.contains j seen ≡ true
        → Owned j
        → (0 < pending j rest) ⊎ (BTreeSet.contains j output_ids ≡ true)
        → Present j s.0

module _ {T E : Type 0} (backend : Backend T E) (decls : BTreeMap ValueId ValueDecl)
    (output_ids : BTreeSet ValueId) (given : BTreeMap ValueId T) where
  tensor_of-NotMissing : (node : Node) → NotMissing {E = E} (tensor_of {Tensor = T} backend node)
  tensor_of-NotMissing node n v h = ground arith

  run_node-NotMissing :
      (seen : BTreeSet ValueId) (node : Node) (rest : List Node)
      (s : BTreeMap ValueId T × BTreeMap ValueId ℕ)
      → IsLive decls output_ids given seen (node ∷ rest) s
      → All (λ v. BTreeSet.contains v seen ≡ true) node.inputs
      → NotMissing (run_node backend decls output_ids node s)
  unfolding run_node
  run_node-NotMissing seen node rest (values, remaining) live inputs =
      >>=-NotMissing (tensor_of backend node) _ (tensor_of-NotMissing node) (λ op _.
        >>=-NotMissing (resolve_inputs backend decls node.id node.inputs values) _
          (resolve_inputs-NotMissing backend decls node.id node.inputs values (
            All-map (λ v h undeclared. live.held v h.0 (inl undeclared) (inl (omega (arith, h.1))))
              node.inputs
              (both (λ v. BTreeSet.contains v seen ≡ true) (λ v. 0 < count v node.inputs)
                node.inputs inputs (count_self node.inputs))))
          (λ resolved e.
            >>=-NotMissing (gather node.id node.inputs resolved) _
              (gather-NotMissing node.id node.inputs resolved
                (resolve_inputs-Present backend decls node.id node.inputs values e))
              (λ ts _.
                >>=-NotMissing (map_err (provider_error node.id) (backend.execute op ts)) _
                  (failing (backend.execute op ts))
                  (λ outputs _.
                    >>=-NotMissing
                      (refuse (not (length outputs == length node.outputs))
                        (output_arity node.id (length node.outputs) (length outputs)))
                      _ (refusing (not (length outputs == length node.outputs)) outputs)
                      (λ _ _.
                        >>=-NotMissing
                          (store_outputs backend node.id node.outputs outputs
                            (release_all output_ids node.inputs (resolved, remaining)).0)
                          _
                          (store_outputs-NotMissing backend node.id node.outputs outputs
                            (release_all output_ids node.inputs (resolved, remaining)).0)
                          (λ stored _. ok-NotMissing (
                            stored,
                            (release_all output_ids node.inputs (resolved, remaining)).1,
                          )))))))
    where
      failing : (r : Result E (List T)) → NotMissing {E = E} (map_err (provider_error node.id) r)
      failing (ok x) n w h = cc
      failing (err x) n w h = cc

      refusing :
          (b : Bool) (outputs : List T)
          → NotMissing {E = E}
              (refuse b (output_arity node.id (length node.outputs) (length outputs)))
      refusing true outputs n w h = cc
      refusing false outputs n w h = cc

  run_node-IsLive :
      (seen seen' : BTreeSet ValueId) (node : Node) (rest : List Node)
      (s s' : BTreeMap ValueId T × BTreeMap ValueId ℕ)
      → IsLive decls output_ids given seen (node ∷ rest) s
      → declare seen node.outputs ≡ ok seen'
      → run_node backend decls output_ids node s ≡ ok s'
      → IsLive decls output_ids given seen' rest s'
  unfolding run_node
  run_node-IsLive seen seen' node rest (values, remaining) s' live declared h =
      let (op, _, h₁) = >>=-eq-ok (tensor_of backend node) _ h in
      let (resolved, e, h₂) =
        >>=-eq-ok (resolve_inputs backend decls node.id node.inputs values) _ h₁ in
      let (ts, _, h₃) = >>=-eq-ok (gather node.id node.inputs resolved) _ h₂ in
      let (outputs, _, h₄) =
        >>=-eq-ok (map_err (provider_error node.id) (backend.execute op ts)) _ h₃ in
      let (same, h₅) =
        refuse-eq-ok (not (length outputs == length node.outputs))
          (output_arity node.id (length node.outputs) (length outputs)) _ h₄ in
      let (stored, k, h₆) =
        >>=-eq-ok
          (store_outputs backend node.id node.outputs outputs
            (release_all output_ids node.inputs (resolved, remaining)).0)
          _ h₅ in
      subst
        (λ (r : BTreeMap ValueId T × BTreeMap ValueId ℕ).
          IsLive decls output_ids given seen' rest r)
        (ok-injective h₆)
        (record {
          counted = λ j. omega (
            arith,
            uses_of-release_all output_ids j node.inputs (resolved, remaining),
            live.counted j,
          );
          held = λ j known owned needed.
              after j outputs resolved stored known owned needed (ground (arith, same)) e k;
        })
    where
      after :
          (j : ValueId) (outputs : List T) (resolved stored : BTreeMap ValueId T)
          → BTreeSet.contains j seen' ≡ true
          → Owned decls output_ids given j
          → (0 < pending j rest) ⊎ (BTreeSet.contains j output_ids ≡ true)
          → length outputs ≡ length node.outputs
          → resolve_inputs backend decls node.id node.inputs values ≡ ok resolved
          → store_outputs backend node.id node.outputs outputs
              (release_all output_ids node.inputs (resolved, remaining)).0
            ≡ ok stored
          → Present j stored
      after j outputs resolved stored known owned needed same e k =
          Present-store_outputs backend node.id node.outputs outputs j _ k same
          ∙ kept (contains-declare j seen node.outputs declared)
              (Bool-cases (declares j node.outputs))
        where
          kept :
              BTreeSet.contains j seen' ≡ (declares j node.outputs || BTreeSet.contains j seen)
              → (declares j node.outputs ≡ true) ⊎ (declares j node.outputs ≡ false)
              → (declares j node.outputs
                  || BTreeMap.contains_key j
                      (release_all output_ids node.inputs (resolved, remaining)).0)
                ≡ true
          kept c (inl stored_now) = rw stored_now refl
          kept c (inr before) = rw before (
              Present-release_all output_ids j node.inputs (resolved, remaining)
                (Present-resolve_inputs backend decls node.id node.inputs j values e
                  (live.held j (sym (c ∙ rw before refl) ∙ known) owned (earlier needed)))
                (enough needed))
            where
              earlier :
                  (0 < pending j rest) ⊎ (BTreeSet.contains j output_ids ≡ true)
                  → (0 < pending j (node ∷ rest)) ⊎ (BTreeSet.contains j output_ids ≡ true)
              earlier (inl more) = inl (omega (arith, more))
              earlier (inr output) = inr output

              enough :
                  (0 < pending j rest) ⊎ (BTreeSet.contains j output_ids ≡ true)
                  → Kept output_ids j (count j node.inputs) remaining
              enough (inl more) = inl (omega (arith, more, live.counted j))
              enough (inr output) = inr output

  pub run_nodes-IsLive :
      (ids : BTreeSet NodeId) (seen last : BTreeSet ValueId) (nodes : List Node)
      (s : BTreeMap ValueId T × BTreeMap ValueId ℕ)
      → IsLive decls output_ids given seen nodes s
      → check_nodes ids seen nodes ≡ ok last
      → NotMissing (run_nodes backend decls output_ids nodes s)
        × ((s' : BTreeMap ValueId T × BTreeMap ValueId ℕ)
            → run_nodes backend decls output_ids nodes s ≡ ok s'
            → IsLive decls output_ids given last [] s')
  unfolding run_nodes check_nodes
  run_nodes-IsLive ids seen last [] s live h = (
    ok-NotMissing s,
    λ s' e.
        subst
          (λ (r : BTreeMap ValueId T × BTreeMap ValueId ℕ). IsLive decls output_ids given last [] r)
          (ok-injective e)
          (subst (λ (r : BTreeSet ValueId). IsLive decls output_ids given r [] s) (ok-injective h)
            live),
  )
  run_nodes-IsLive ids seen last (node ∷ rest) s live h =
      let (_, h₁) = refuse-eq-ok (BTreeSet.contains node.id ids) (duplicate_node_id node.id) _ h in
      let (inputs, h₂) = >>-eq-ok (check_inputs node.id seen node.inputs) _ h₁ in
      let (seen', declared, h₃) = >>=-eq-ok (declare seen node.outputs) _ h₂ in
      let next =
        λ (s' : BTreeMap ValueId T × BTreeMap ValueId ℕ)
            (e : run_node backend decls output_ids node s ≡ ok s').
          run_nodes-IsLive (BTreeSet.insert node.id ids) seen' last rest s'
            (run_node-IsLive seen seen' node rest s s' live declared e) h₃ in
      (
        >>=-NotMissing (run_node backend decls output_ids node s) _
            (run_node-NotMissing seen node rest s live
              (check_inputs-All node.id seen node.inputs inputs))
            (λ s' e. (next s' e).0),
        λ s″ e.
            let (s', e₁, e₂) = >>=-eq-ok (run_node backend decls output_ids node s) _ e in
            (next s' e₁).1 s″ e₂,
      )
