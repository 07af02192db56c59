-- ===== src/Prelude/BTreeMap.antt =====
-- Rust's `BTreeMap` as an association list in the order of its keys.
use Prim.Native.Nat.{ℕ, ◌+◌, ◌<◌}
use mathlib.Core.Path.{◌≡◌, refl, ap, sym, subst, subst₂}
use mathlib.Core.Bool.{Bool, true}
use mathlib.Core.Option.{Option, none, some, some-injective}
use mathlib.Core.List.{List, [], ◌∷◌, ◌++◌}
use native.Mathlib.Omega.{arith}
use ntd.Prelude.Tests.{ltb, ◌==◌, if◌then◌else◌, Bool-cases, is_some}
use mathlib.Core.Logic.{inl, inr}
use ntd.Prelude.Lists.{All}
use ntd.Prelude.Orders.{Ord, nat_ord}

abbrev pub BTreeMap {ℓ κ} : Type ℓ → Type κ → Type (ℓ ⊔ κ)
BTreeMap K V = List (K × V)

module _ {ℓ κ} {K : Type ℓ} {V : Type κ} where
  abbrev pub keys : BTreeMap K V → List K
  keys [] = []
  keys ((k, v) ∷ m) = k ∷ keys m

  abbrev pub values : BTreeMap K V → List V
  values [] = []
  values ((k, v) ∷ m) = v ∷ values m

  -- `keys().next_back()`
  abbrev pub last_key : BTreeMap K V → Option K
  last_key [] = none
  last_key ((k, v) ∷ []) = some k
  last_key ((k, v) ∷ e ∷ m) = last_key (e ∷ m)

module _ {ℓ κ} {K : Type ℓ} {V : Type κ} ⦃o : Ord K⦄ where
  unfoldable pub get : K → BTreeMap K V → Option V
  get k [] = none
  get k ((j, v) ∷ m) = if o.eq k j then some v else get k m

  unfoldable pub contains_key : K → BTreeMap K V → Bool
  unfolding get
  contains_key k m = is_some (get k m)

  unfoldable pub insert : K → V → BTreeMap K V → BTreeMap K V
  insert k v [] = (k, v) ∷ []
  insert k v ((j, w) ∷ m) =
      if o.eq k j
      then (k, v) ∷ m
      else if o.lt k j
      then (k, v) ∷ (j, w) ∷ m
      else (j, w) ∷ insert k v m

  unfoldable pub remove : K → BTreeMap K V → BTreeMap K V
  remove k [] = []
  remove k ((j, w) ∷ m) = if o.eq k j then m else (j, w) ∷ remove k m

  -- A write of `v` through `get_mut`: a missing key changes nothing.
  unfoldable pub replace : K → V → BTreeMap K V → BTreeMap K V
  replace k v [] = []
  replace k v ((j, w) ∷ m) = if o.eq k j then (j, v) ∷ m else (j, w) ∷ replace k v m

  -- The keys ascend: what every `BTreeMap` guarantees of its iteration order.
  abbrev pub Sorted : BTreeMap K V → Type ℓ
  Sorted [] = Unit
  Sorted ((k, v) ∷ m) = All (λ j. o.lt k j ≡ true) (keys m) × Sorted m

  pub get-insert :
      (k j : K) (v : V) (m : BTreeMap K V)
      → get j (insert k v m) ≡ (if o.eq j k then some v else get j m)
  unfolding get insert
  get-insert k j v [] = refl
  get-insert k j v ((i, w) ∷ m) =
      ground (arith, get-insert k j v m, o.eq_iff k i, o.eq_iff j k, o.eq_iff j i)

  pub get-replace :
      (k j : K) (v : V) (m : BTreeMap K V)
      → get j (replace k v m)
        ≡ (if o.eq j k then (if is_some (get k m) then some v else none) else get j m)
  unfolding get replace
  get-replace k j v [] = ground arith
  get-replace k j v ((i, w) ∷ m) =
      ground (arith, get-replace k j v m, o.eq_iff k i, o.eq_iff j k, o.eq_iff j i)

  pub replace-replace :
      (k : K) (v w : V) (m : BTreeMap K V) → replace k w (replace k v m) ≡ replace k w m
  unfolding replace
  replace-replace k v w [] = refl
  replace-replace k v w ((j, u) ∷ m) = elim (Bool-cases (o.eq k j)) [
    | inl e ↦ rw e (rw e refl)
    | inr e ↦ rw e (rw e (ap (λ r. (j, u) ∷ r) (replace-replace k v w m)))
  ]

  pub keys-replace : (k : K) (v : V) (m : BTreeMap K V) → keys (replace k v m) ≡ keys m
  unfolding replace
  keys-replace k v [] = refl
  keys-replace k v ((j, w) ∷ m) = ground (arith, keys-replace k v m)

  pub replace_self : (k : K) (v : V) (m : BTreeMap K V) → get k m ≡ some v → replace k v m ≡ m
  unfolding get replace
  replace_self k v [] h = refl
  replace_self k v ((j, w) ∷ m) h = ground (arith, replace_self k v m)

  -- A present key reads the value written.
  pub get-replace_self :
      (k : K) {u : V} (v : V) (m : BTreeMap K V) → get k m ≡ some u → get k (replace k v m) ≡ some v
  unfolding get replace
  get-replace_self k v [] h = cc
  get-replace_self k {u} v ((j, w) ∷ m) h = ground (arith, get-replace_self k {u = u} v m)

  pub last_key-replace : (k : K) (v : V) (m : BTreeMap K V) → last_key (replace k v m) ≡ last_key m
  unfolding replace
  last_key-replace k v [] = refl
  last_key-replace k v ((j, w) ∷ []) = ground arith
  last_key-replace k v ((j, w) ∷ (i, u) ∷ m) = ground (arith, last_key-replace k v ((i, u) ∷ m))

  pub replace-Sorted : (k : K) (v : V) (m : BTreeMap K V) → Sorted m → Sorted (replace k v m)
  unfolding replace
  replace-Sorted k v [] s = tt
  replace-Sorted k v ((j, w) ∷ m) s = elim (Bool-cases (o.eq k j)) [
    | inl e ↦ rw e s
    | inr e ↦ rw e (rw (keys-replace k v m) (s.0, replace-Sorted k v m s.1))
  ]

  -- What holds of every entry.
  pub All-insert {μ} :
      (P : K × V → Type μ) (k : K) (v : V) (m : BTreeMap K V)
      → P (k, v)
      → All P m
      → All P (insert k v m)
  unfolding insert
  All-insert P k v [] p h = (p, tt)
  All-insert P k v ((j, w) ∷ m) p h = elim (Bool-cases (o.eq k j)) [
    | inl e ↦ rw e (p, h.1)
    | inr e ↦ elim (Bool-cases (o.lt k j)) [
      | inl l ↦ rw (e, l) (p, h)
      | inr l ↦ rw (e, l) (h.0, All-insert P k v m p h.1)
    ]
  ]

  pub All-replace {μ} :
      (P : K × V → Type μ) (k : K) (v : V) (m : BTreeMap K V)
      → ((j : K) → o.eq k j ≡ true → P (j, v))
      → All P m
      → All P (replace k v m)
  unfolding replace
  All-replace P k v [] p h = tt
  All-replace P k v ((j, w) ∷ m) p h = elim (Bool-cases (o.eq k j)) [
    | inl e ↦ rw e (p j e, h.1)
    | inr e ↦ rw e (h.0, All-replace P k v m p h.1)
  ]

  pub All-remove {μ} :
      (P : K × V → Type μ) (k : K) (m : BTreeMap K V) → All P m → All P (remove k m)
  unfolding remove
  All-remove P k [] h = tt
  All-remove P k ((j, w) ∷ m) h = elim (Bool-cases (o.eq k j)) [
    | inl e ↦ rw e h.1
    | inr e ↦ rw e (h.0, All-remove P k m h.1)
  ]

  pub All-get {μ} :
      (P : K × V → Type μ) (k : K) {v : V} (m : BTreeMap K V)
      → All P m
      → get k m ≡ some v
      → P (k, v)
  unfolding get
  All-get P k [] h e = cc
  All-get P k {v} ((j, w) ∷ m) h e = elim (Bool-cases (o.eq k j)) [
    | inl t ↦
        subst₂ (λ i u. P (i, u)) (sym ((o.eq_iff k j).0 t)) (some-injective w v (rw t at e)) h.0
    | inr t ↦ All-get P k m h.1 (rw t at e)
  ]

  keys-remove :
      (P : K → Type 0) (k : K) (m : BTreeMap K V) → All P (keys m) → All P (keys (remove k m))
  unfolding remove
  keys-remove P k [] h = tt
  keys-remove P k ((j, w) ∷ m) h = elim (Bool-cases (o.eq k j)) [
    | inl e ↦ rw e h.1
    | inr e ↦ rw e (h.0, keys-remove P k m h.1)
  ]

  pub remove-Sorted : (k : K) (m : BTreeMap K V) → Sorted m → Sorted (remove k m)
  unfolding remove
  remove-Sorted k [] s = tt
  remove-Sorted k ((j, w) ∷ m) s = elim (Bool-cases (o.eq k j)) [
    | inl e ↦ rw e s.1
    | inr e ↦ rw e (keys-remove (λ i. o.lt j i ≡ true) k m s.0, remove-Sorted k m s.1)
  ]

  -- A key that is present stays present.
  pub get-replace_some :
      (k j : K) (v : V) (m : BTreeMap K V)
      → is_some (get j m) ≡ true
      → is_some (get j (replace k v m)) ≡ true
  unfolding get replace
  get-replace_some k j v [] h = h
  get-replace_some k j v ((i, w) ∷ m) h =
      ground (arith, get-replace_some k j v m, o.eq_iff k i, o.eq_iff j k, o.eq_iff j i)

-- Maps whose keys are numbers: a key above all others is inserted behind them.
module _ {κ} {V : Type κ} where
  abbrev pub Below : ℕ → BTreeMap ℕ V → Type 0
  Below n [] = Unit
  Below n ((k, v) ∷ m) = (k < n) × Below n m

  pub Below-insert :
      (k : ℕ) (v : V) (m : BTreeMap ℕ V) → Below k m → insert k v m ≡ m ++ (k, v) ∷ []
  unfolding insert
  Below-insert k v [] h = refl
  Below-insert k v ((j, w) ∷ m) h = ground (arith, Below-insert k v m h.1)

  pub Sorted-Below :
      (n : ℕ) (m : BTreeMap ℕ V) → Sorted m → ((k : ℕ) → last_key m ≡ some k → k < n) → Below n m
  Sorted-Below n [] s h = tt
  Sorted-Below n ((k, v) ∷ []) s h = (h k refl, tt)
  Sorted-Below n ((k, v) ∷ (j, w) ∷ m) s h =
      let rest = Sorted-Below n ((j, w) ∷ m) s.1 h in ground arith

  pub Below-replace : (n k : ℕ) (v : V) (m : BTreeMap ℕ V) → Below n m → Below n (replace k v m)
  unfolding replace
  Below-replace n k v [] h = tt
  Below-replace n k v ((j, w) ∷ m) h = elim (Bool-cases (k == j)) [
    | inl e ↦ rw e h
    | inr e ↦ rw e (h.0, Below-replace n k v m h.1)
  ]

  pub Below-remove : (n k : ℕ) (m : BTreeMap ℕ V) → Below n m → Below n (remove k m)
  unfolding remove
  Below-remove n k [] h = tt
  Below-remove n k ((j, w) ∷ m) h = elim (Bool-cases (k == j)) [
    | inl e ↦ rw e h.1
    | inr e ↦ rw e (h.0, Below-remove n k m h.1)
  ]

  Below-suc : (n : ℕ) (v : V) (m : BTreeMap ℕ V) → Below n m → Below (n + 1) (m ++ (n, v) ∷ [])
  Below-suc n v [] h = (omega arith, tt)
  Below-suc n v ((j, w) ∷ m) h = (let l = h.0 in omega (arith, l), Below-suc n v m h.1)

  -- A new entry at the next free key.
  pub Below-insert_next :
      (n : ℕ) (v : V) (m : BTreeMap ℕ V) → Below n m → Below (n + 1) (insert n v m)
  Below-insert_next n v m h = rw (Below-insert n v m h) (Below-suc n v m h)

  pub Below-last_key : (n : ℕ) (m : BTreeMap ℕ V) {k : ℕ} → Below n m → last_key m ≡ some k → k < n
  Below-last_key n [] h e = cc
  Below-last_key n ((j, w) ∷ []) {k} h e = subst (λ i. i < n) (some-injective j k e) h.0
  Below-last_key n ((j, w) ∷ f ∷ m) h e = Below-last_key n (f ∷ m) h.1 e

  above-Sorted :
      (n : ℕ) (v : V) (j : ℕ) (m : BTreeMap ℕ V)
      → All (λ i. ltb j i ≡ true) (keys m)
      → j < n
      → All (λ i. ltb j i ≡ true) (keys (m ++ (n, v) ∷ []))
  above-Sorted n v j [] h lt = (ground arith, tt)
  above-Sorted n v j ((i, w) ∷ m) h lt = (h.0, above-Sorted n v j m h.1 lt)

  pub append-Sorted :
      (n : ℕ) (v : V) (m : BTreeMap ℕ V) → Sorted m → Below n m → Sorted (m ++ (n, v) ∷ [])
  append-Sorted n v [] s b = (tt, tt)
  append-Sorted n v ((j, w) ∷ m) s b = (above-Sorted n v j m s.0 b.0, append-Sorted n v m s.1 b.1)

  pub insert-Sorted_next :
      (n : ℕ) (v : V) (m : BTreeMap ℕ V) → Below n m → Sorted m → Sorted (insert n v m)
  insert-Sorted_next n v m h s = rw (Below-insert n v m h) (append-Sorted n v m s h)

  pub last_key-append : (n : ℕ) (v : V) (m : BTreeMap ℕ V) → last_key (m ++ (n, v) ∷ []) ≡ some n
  last_key-append n v [] = refl
  last_key-append n v (e ∷ []) = refl
  last_key-append n v (e ∷ e' ∷ m) = last_key-append n v (e' ∷ m)
