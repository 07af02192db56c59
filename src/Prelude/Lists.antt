-- ===== src/Prelude/Lists.antt =====
-- Lists measured and indexed by native numbers, under the library's names.
use Prim.Native.Nat.{ℕ, zero, suc, ◌+◌, ◌<◌, ◌≤◌}
use mathlib.Core.Logic.{◌≢◌}
use mathlib.Core.Path.{◌≡◌, refl, ap, subst, subst₂}
use mathlib.Core.Bool.{Bool, true, false, ◌&&◌}
use mathlib.Core.List.{List, [], ◌∷◌, ◌++◌}
use mathlib.Core.Option.{Option, none, some, some-injective}
use native.Mathlib.Omega.{arith}
use ntd.Prelude.Tests.{if◌then◌else◌}

module _ {ℓ} {A : Type ℓ} where
  abbrev pub length : List A → ℕ
  length [] = 0
  length (x ∷ xs) = suc (length xs)

  abbrev pub get_elem? : List A → ℕ → Option A
  get_elem? [] i = none
  get_elem? (x ∷ xs) zero = some x
  get_elem? (x ∷ xs) (suc i) = get_elem? xs i

  -- A write out of bounds changes nothing.
  abbrev pub set : List A → ℕ → A → List A
  set [] i v = []
  set (x ∷ xs) zero v = v ∷ xs
  set (x ∷ xs) (suc i) v = x ∷ set xs i v

  -- Rust's `iter().all(...)`.
  abbrev pub all : (A → Bool) → List A → Bool
  all p [] = true
  all p (x ∷ xs) = p x && all p xs

  abbrev pub filter : (A → Bool) → List A → List A
  filter p [] = []
  filter p (x ∷ xs) = let rest = filter p xs in if p x then x ∷ rest else rest

  -- Rust's `truncate`.
  abbrev pub truncate : ℕ → List A → List A
  truncate zero xs = []
  truncate (suc n) [] = []
  truncate (suc n) (x ∷ xs) = x ∷ truncate n xs

  abbrev pub is_empty : List A → Bool
  is_empty [] = true
  is_empty (x ∷ xs) = false

  pub length-append : (xs ys : List A) → length (xs ++ ys) ≡ length xs + length ys
  length-append [] ys = omega arith
  length-append (x ∷ xs) ys = omega (arith, length-append xs ys)

module _ {ℓ} {A : Type ℓ} where
  pub length-set : (xs : List A) (i : ℕ) (v : A) → length (set xs i v) ≡ length xs
  length-set [] i v = refl
  length-set (x ∷ xs) zero v = refl
  length-set (x ∷ xs) (suc i) v = ap suc (length-set xs i v)

  pub set-set : (xs : List A) (i : ℕ) (v w : A) → set (set xs i v) i w ≡ set xs i w
  set-set [] i v w = refl
  set-set (x ∷ xs) zero v w = refl
  set-set (x ∷ xs) (suc i) v w = ap (λ ys. x ∷ ys) (set-set xs i v w)

  pub set_self : (xs : List A) (i : ℕ) {a : A} → get_elem? xs i ≡ some a → set xs i a ≡ xs
  set_self [] i h = refl
  set_self (x ∷ xs) zero h = cc
  set_self (x ∷ xs) (suc i) h = ap (λ ys. x ∷ ys) (set_self xs i h)

  pub get_elem?-set_self :
      (xs : List A) (i : ℕ) {a : A} (v : A)
      → get_elem? xs i ≡ some a
      → get_elem? (set xs i v) i ≡ some v
  get_elem?-set_self [] i v h = cc
  get_elem?-set_self (x ∷ xs) zero v h = refl
  get_elem?-set_self (x ∷ xs) (suc i) v h = get_elem?-set_self xs i v h

  pub get_elem?-set_ne :
      (xs : List A) (i j : ℕ) (v : A) → i ≢ j → get_elem? (set xs i v) j ≡ get_elem? xs j
  get_elem?-set_ne [] i j v h = refl
  get_elem?-set_ne (x ∷ xs) zero zero v h = absurd (h refl)
  get_elem?-set_ne (x ∷ xs) zero (suc j) v h = refl
  get_elem?-set_ne (x ∷ xs) (suc i) zero v h = refl
  get_elem?-set_ne (x ∷ xs) (suc i) (suc j) v h = get_elem?-set_ne xs i j v (λ e. h (ap suc e))

  pub length-snoc : (xs : List A) (x : A) → length (xs ++ x ∷ []) ≡ suc (length xs)
  length-snoc [] x = refl
  length-snoc (y ∷ ys) x = ap suc (length-snoc ys x)

  pub get_elem?-append :
      (xs : List A) (x : A) (ys : List A) → get_elem? (xs ++ x ∷ ys) (length xs) ≡ some x
  get_elem?-append [] x ys = refl
  get_elem?-append (z ∷ zs) x ys = get_elem?-append zs x ys

  pub set-append :
      (xs : List A) (x y : A) (ys : List A) → set (xs ++ x ∷ ys) (length xs) y ≡ xs ++ y ∷ ys
  set-append [] x y ys = refl
  set-append (z ∷ zs) x y ys = ap (λ r. z ∷ r) (set-append zs x y ys)

  pub le-of-get_elem? : (xs : List A) (i : ℕ) → get_elem? xs i ≡ none → length xs ≤ i
  le-of-get_elem? [] i h = omega arith
  le-of-get_elem? (x ∷ xs) zero h = cc
  le-of-get_elem? (x ∷ xs) (suc i) h = omega (arith, le-of-get_elem? xs i h)

  pub get_elem?-lt : (xs : List A) (i : ℕ) {a : A} → get_elem? xs i ≡ some a → i < length xs
  get_elem?-lt [] i h = cc
  get_elem?-lt (x ∷ xs) zero h = omega arith
  get_elem?-lt (x ∷ xs) (suc i) h = omega (arith, get_elem?-lt xs i h)

-- Every element satisfies `P`; the elements' positions count from `i`.
abbrev pub All {ℓ κ} : {A : Type ℓ} → (A → Type κ) → List A → Type κ
All P [] = Unit
All P (x ∷ xs) = P x × All P xs

pub All-map {ℓ κ μ} :
    {A : Type ℓ} {P : A → Type κ} {Q : A → Type μ}
    → ((a : A) → P a → Q a)
    → (xs : List A) → All P xs
    → All Q xs
All-map f [] h = tt
All-map f (x ∷ xs) h = (f x h.0, All-map f xs h.1)

abbrev pub AllAt {ℓ κ} : {A : Type ℓ} → (ℕ → A → Type κ) → ℕ → List A → Type κ
AllAt P i [] = Unit
AllAt P i (x ∷ xs) = P i x × AllAt P (suc i) xs

module _ {ℓ κ} {A : Type ℓ} {P : ℕ → A → Type κ} where
  pub AllAt-mono {μ} :
      {Q : ℕ → A → Type μ} (i j : ℕ) (xs : List A)
      → i ≤ j
      → AllAt P j xs
      → ((n : ℕ) (x : A) → i ≤ n → P n x → Q n x)
      → AllAt Q j xs
  AllAt-mono i j [] le h step = tt
  AllAt-mono i j (x ∷ xs) le h step =
      (step j x le h.0, AllAt-mono i (suc j) xs (omega arith) h.1 step)

  -- Another element at position `k`, and the same elsewhere.
  pub AllAt-set {μ} :
      {Q : ℕ → A → Type μ} (i k : ℕ) (xs : List A) (y : A)
      → AllAt P i xs
      → ((j : ℕ) (x : A) → j ≢ i + k → P j x → Q j x)
      → Q (i + k) y
      → AllAt Q i (set xs k y)
  AllAt-set i k [] y h other self = tt
  AllAt-set {Q = Q} i zero (x ∷ xs) y h other self = (
    subst (λ j. Q j y) (omega arith) self,
    AllAt-mono (suc i) (suc i) xs (omega arith) h.1
        (λ n z low. other n z (λ e. absurd (omega arith))),
  )
  AllAt-set {Q = Q} i (suc k) (x ∷ xs) y h other self = (
    other i x (omega arith) h.0,
    AllAt-set (suc i) k xs y h.1 (λ j z ne. other j z (λ e. ne (omega arith)))
        (subst (λ j. Q j y) (omega arith) self),
  )

module _ {ℓ κ} {A : Type ℓ} (P : ℕ → A → Type κ) where
  pub AllAt-get :
      (i k j : ℕ) (xs : List A) {x : A} → AllAt P i xs → get_elem? xs k ≡ some x → j ≡ i + k → P j x
  AllAt-get i k j [] h e s = cc
  AllAt-get i zero j (y ∷ ys) {x} h e s = subst₂ P (omega arith) (some-injective y x e) h.0
  AllAt-get i (suc k) j (y ∷ ys) h e s = AllAt-get (suc i) k j ys h.1 e (omega arith)
