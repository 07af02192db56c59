-- ===== src/Executor/Uses.antt =====
-- The reference counts of the executor: what `count_uses` counts, and which values `release_all`
-- keeps.
use ntd.Prelude.{
  ℕ, ◌+◌, ◌-◌, ◌<◌, ◌≡◌, ◌≢◌, refl, subst, ◌⊎◌, inl, inr, Bool, true, false, ◌&&◌, not, ◌==◌, none,
  some, is_some, List, [], ◌∷◌, nat_ord, if◌then◌else◌, arith, Bool-cases, Option-cases, ==_iff,
}
use ntd.Prelude.BTreeMap
use ntd.Prelude.BTreeMap.{BTreeMap, get-insert, get-replace}
use ntd.Prelude.BTreeSet
use ntd.Prelude.BTreeSet.{BTreeSet}
use ntd.Ir.{ValueId, Node}
use ntd.Executor.{uses_of, count_of, count_inputs, count_uses, release, release_all}

abbrev pub count : ValueId → List ValueId → ℕ
count v [] = 0
count v (w ∷ rest) = (if v == w then 1 else 0) + count v rest

-- The uses of a value by the nodes still to run.
abbrev pub pending : ValueId → List Node → ℕ
pending v [] = 0
pending v (node ∷ rest) = count v node.inputs + pending v rest

uses_of-insert :
    (v w : ValueId) (n : ℕ) (m : BTreeMap ValueId ℕ)
    → uses_of v (BTreeMap.insert w n m) ≡ (if v == w then n else uses_of v m)
unfolding uses_of
uses_of-insert v w n m = rw (get-insert w v n m) (ground arith)

uses_of-count_inputs :
    (v : ValueId) (m : BTreeMap ValueId ℕ) (inputs : List ValueId)
    → uses_of v (count_inputs m inputs) ≡ uses_of v m + count v inputs
unfolding count_inputs
uses_of-count_inputs v m [] = omega arith
uses_of-count_inputs v m (w ∷ rest) = ground (
  arith,
  uses_of-count_inputs v (BTreeMap.insert w (uses_of w m + 1) m) rest,
  uses_of-insert v w (uses_of w m + 1) m,
)

pub uses_of-count_uses :
    (v : ValueId) (m : BTreeMap ValueId ℕ) (nodes : List Node)
    → uses_of v (count_uses m nodes) ≡ uses_of v m + pending v nodes
unfolding count_uses
uses_of-count_uses v m [] = omega arith
uses_of-count_uses v m (node ∷ rest) = omega (
  arith,
  uses_of-count_uses v (count_inputs m node.inputs) rest,
  uses_of-count_inputs v m node.inputs,
)

get-remove :
    {X : Type 0} (k j : ValueId) (m : BTreeMap ValueId X)
    → j ≢ k
    → BTreeMap.get j (BTreeMap.remove k m) ≡ BTreeMap.get j m
unfolding BTreeMap.get BTreeMap.remove
get-remove k j [] ne = refl
get-remove k j ((i, x) ∷ m) ne = ground (arith, get-remove k j m ne)

-- `j` has more uses left than `n`, or it is an output.
abbrev pub Kept : BTreeSet ValueId → ValueId → ℕ → BTreeMap ValueId ℕ → Type 0
Kept output_ids j n remaining = (n < uses_of j remaining) ⊎ (BTreeSet.contains j output_ids ≡ true)

abbrev pub Present : {Tensor : Type 0} → ValueId → BTreeMap ValueId Tensor → Type 0
Present j values = BTreeMap.contains_key j values ≡ true

module _ {Tensor : Type 0} (output_ids : BTreeSet ValueId) where
  uses_of-release :
      (j v : ValueId) (values : BTreeMap ValueId Tensor) (remaining : BTreeMap ValueId ℕ)
      → uses_of j (release output_ids v (values, remaining)).1
        ≡ uses_of j remaining - (if j == v then 1 else 0)
  unfolding release uses_of
  uses_of-release j v values remaining = elim (Option-cases (BTreeMap.get v remaining)) [
    | inl e ↦ rw (e, release) (absent (Bool-cases (j == v)) e)
    | inr (n, e) ↦
        rw (e, release) (rw (get-replace v j (n - 1) remaining) (present n (Bool-cases (j == v)) e))
  ]
    where
      absent :
          ((j == v) ≡ true) ⊎ ((j == v) ≡ false)
          → BTreeMap.get v remaining ≡ none
          → count_of (BTreeMap.get j remaining)
            ≡ count_of (BTreeMap.get j remaining) - (if j == v then 1 else 0)
      absent (inl s) e = rw (s, (==_iff j v).0 s) (rw e (omega arith))
      absent (inr s) e = rw s (omega arith)

      present :
          (n : ℕ)
          → ((j == v) ≡ true) ⊎ ((j == v) ≡ false)
          → BTreeMap.get v remaining ≡ some n
          → count_of (
              if j == v
              then (if is_some (BTreeMap.get v remaining) then some (n - 1) else none)
              else BTreeMap.get j remaining)
            ≡ count_of (BTreeMap.get j remaining) - (if j == v then 1 else 0)
      present n (inl s) e = rw (s, (==_iff j v).0 s) (rw e (omega arith))
      present n (inr s) e = rw s (omega arith)

  -- The value `v` after the use that is its last but `n`.
  Present-drop :
      (j v : ValueId) (n : ℕ) (values : BTreeMap ValueId Tensor) (remaining : BTreeMap ValueId ℕ)
      → BTreeMap.get v remaining ≡ some n
      → Present j values
      → Kept output_ids j (if j == v then 1 else 0) remaining
      → ((j == v) ≡ true) ⊎ ((j == v) ≡ false)
      → Present j (
          if n - 1 == 0 && not (BTreeSet.contains v output_ids)
          then BTreeMap.remove v values
          else values)
  unfolding uses_of BTreeMap.contains_key
  Present-drop j v n values remaining e here kept (inl same) =
      rw
        (stays n (BTreeSet.contains v output_ids)
          (subst
            (λ i.
              (1 < count_of (BTreeMap.get i remaining)) ⊎ (BTreeSet.contains i output_ids ≡ true))
            ((==_iff j v).0 same) (rw same at kept))
          e)
        here
    where
      stays :
          (n : ℕ) (c : Bool)
          → (1 < count_of (BTreeMap.get v remaining)) ⊎ (c ≡ true)
          → BTreeMap.get v remaining ≡ some n
          → (n - 1 == 0 && not c) ≡ false
      stays n c (inl more) e = ground (arith, rw e at more)
      stays n c (inr output) e = ground arith
  Present-drop j v n values remaining e here kept (inr other) =
      elim (Bool-cases (n - 1 == 0 && not (BTreeSet.contains v output_ids))) [
        | inl drop ↦ rw drop (rw (get-remove v j values (λ s. absurd (differs s other))) here)
        | inr keep ↦ rw keep here
      ]
    where
      differs : j ≡ v → (j == v) ≢ false
      differs s h = ground arith

  Present-release :
      (j v : ValueId) (values : BTreeMap ValueId Tensor) (remaining : BTreeMap ValueId ℕ)
      → Present j values
      → Kept output_ids j (if j == v then 1 else 0) remaining
      → Present j (release output_ids v (values, remaining)).0
  unfolding release
  Present-release j v values remaining here kept = elim (Option-cases (BTreeMap.get v remaining)) [
    | inl e ↦ rw (e, release) here
    | inr (n, e) ↦
        rw (e, release) (Present-drop j v n values remaining e here kept (Bool-cases (j == v)))
  ]

  pub uses_of-release_all :
      (j : ValueId) (inputs : List ValueId) (s : BTreeMap ValueId Tensor × BTreeMap ValueId ℕ)
      → uses_of j (release_all output_ids inputs s).1 ≡ uses_of j s.1 - count j inputs
  unfolding release_all
  uses_of-release_all j [] s = omega arith
  uses_of-release_all j (v ∷ rest) (values, remaining) = omega (
    arith,
    uses_of-release_all j rest (release output_ids v (values, remaining)),
    uses_of-release j v values remaining,
  )

  -- A value that is read again later, or is an output of the graph, survives the node's reads.
  pub Present-release_all :
      (j : ValueId) (inputs : List ValueId) (s : BTreeMap ValueId Tensor × BTreeMap ValueId ℕ)
      → Present j s.0
      → Kept output_ids j (count j inputs) s.1
      → Present j (release_all output_ids inputs s).0
  unfolding release_all
  Present-release_all j [] s here kept = here
  Present-release_all j (v ∷ rest) (values, remaining) here kept =
      Present-release_all j rest (release output_ids v (values, remaining))
        (Present-release j v values remaining here (now kept)) (later kept)
    where
      now :
          Kept output_ids j (count j (v ∷ rest)) remaining
          → Kept output_ids j (if j == v then 1 else 0) remaining
      now (inl more) = inl (omega (arith, more))
      now (inr output) = inr output

      later :
          Kept output_ids j (count j (v ∷ rest)) remaining
          → Kept output_ids j (count j rest) (release output_ids v (values, remaining)).1
      later (inl more) = inl (omega (arith, more, uses_of-release j v values remaining))
      later (inr output) = inr output
