-- ===== src/Prelude/Sorting.antt =====
-- Rust's `sort` and `dedup` on a vector.
use mathlib.Core.Bool.{Bool, true, false}
use mathlib.Core.List.{List, [], ◌∷◌}
use mathlib.Core.Path.{◌≡◌, refl}
use mathlib.Core.Logic.{inl, inr}
use ntd.Prelude.Lists.{All, All-map}
use ntd.Prelude.Tests.{if◌then◌else◌, Bool-cases}
use ntd.Prelude.Orders.{Ord, lt_asym, eq_sym, not_lt_trans}

module _ {ℓ} {K : Type ℓ} ⦃o : Ord K⦄ where
  insert_sorted : K → List K → List K
  insert_sorted k [] = k ∷ []
  insert_sorted k (j ∷ js) = if o.lt j k then j ∷ insert_sorted k js else k ∷ j ∷ js

  unfoldable pub sort : List K → List K
  unfolding insert_sorted
  sort [] = []
  sort (k ∷ ks) = insert_sorted k (sort ks)

  dedup_after : K → List K → List K
  dedup_after k [] = []
  dedup_after k (j ∷ js) =
      let kept = j ∷ dedup_after j js in
      let dropped = dedup_after k js in if o.eq k j then dropped else kept

  -- Removes each element that equals the one kept before it.
  unfoldable pub dedup : List K → List K
  unfolding dedup_after
  dedup [] = []
  dedup (k ∷ ks) = k ∷ dedup_after k ks

  -- `windows(2).all(|pair| pair[0] < pair[1])`
  unfoldable pub ascends : List K → Bool
  ascends [] = true
  ascends (k ∷ []) = true
  ascends (k ∷ j ∷ ks) = let rest = ascends (j ∷ ks) in if o.lt k j then rest else false

-- `sort` and `dedup` give strictly ascending lists.
module _ {ℓ} {K : Type ℓ} ⦃o : Ord K⦄ where
  NotBelow : K → List K → Type 0
  NotBelow k = All (λ j. o.lt j k ≡ false)

  Weak : List K → Type 0
  unfolding NotBelow
  Weak [] = Unit
  Weak (k ∷ ks) = NotBelow k ks × Weak ks

  All-insert_sorted :
      (P : K → Type 0) (k : K) (js : List K) → P k → All P js → All P (insert_sorted k js)
  unfolding insert_sorted
  All-insert_sorted P k [] p h = (p, tt)
  All-insert_sorted P k (j ∷ js) p h = elim (Bool-cases (o.lt j k)) [
    | inl e ↦ rw e (h.0, All-insert_sorted P k js p h.1)
    | inr e ↦ rw e (p, h)
  ]

  insert_sorted-Weak : (k : K) (js : List K) → Weak js → Weak (insert_sorted k js)
  unfolding insert_sorted Weak NotBelow
  insert_sorted-Weak k [] h = (tt, tt)
  insert_sorted-Weak k (j ∷ js) h = elim (Bool-cases (o.lt j k)) [
    | inl e ↦ rw e (
      All-insert_sorted (λ i. o.lt i j ≡ false) k js (lt_asym j k e) h.0,
      insert_sorted-Weak k js h.1,
    )
    | inr e ↦ rw e ((e, All-map (λ i l. not_lt_trans i j k l e) js h.0), h)
  ]

  sort-Weak : (ks : List K) → Weak (sort ks)
  unfolding sort Weak
  sort-Weak [] = tt
  sort-Weak (k ∷ ks) = insert_sorted-Weak k (sort ks) (sort-Weak ks)

  dedup_after-ascends :
      (k : K) (js : List K) → NotBelow k js → Weak js → ascends (k ∷ dedup_after k js) ≡ true
  unfolding dedup_after ascends Weak NotBelow
  dedup_after-ascends k [] b w = refl
  dedup_after-ascends k (j ∷ js) b w = elim (Bool-cases (o.eq k j)) [
    | inl e ↦ rw e (dedup_after-ascends k js b.1 w.1)
    | inr e ↦ rw (e, o.lt_total j k (eq_sym k j e) b.0) (dedup_after-ascends j js w.0 w.1)
  ]

  pub dedup-sort-ascends : (ks : List K) → ascends (dedup (sort ks)) ≡ true
  unfolding dedup ascends Weak
  dedup-sort-ascends ks = go (sort ks) (sort-Weak ks)
    where
      go : (js : List K) → Weak js → ascends (dedup js) ≡ true
      go [] w = refl
      go (j ∷ js) w = dedup_after-ascends j js w.0 w.1

  pub All-sort : (P : K → Type 0) (ks : List K) → All P ks → All P (sort ks)
  unfolding sort
  All-sort P [] h = tt
  All-sort P (k ∷ ks) h = All-insert_sorted P k (sort ks) h.0 (All-sort P ks h.1)

  All-dedup_after : (P : K → Type 0) (k : K) (js : List K) → All P js → All P (dedup_after k js)
  unfolding dedup_after
  All-dedup_after P k [] h = tt
  All-dedup_after P k (j ∷ js) h = elim (Bool-cases (o.eq k j)) [
    | inl e ↦ rw e (All-dedup_after P k js h.1)
    | inr e ↦ rw e (h.0, All-dedup_after P j js h.1)
  ]

  pub All-dedup : (P : K → Type 0) (ks : List K) → All P ks → All P (dedup ks)
  unfolding dedup
  All-dedup P [] h = tt
  All-dedup P (k ∷ ks) h = (h.0, All-dedup_after P k ks h.1)
