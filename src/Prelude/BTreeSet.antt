-- ===== src/Prelude/BTreeSet.antt =====
-- Rust's `BTreeSet` as the ascending list of its elements.
use mathlib.Core.Path.{◌≡◌, refl}
use mathlib.Core.Bool.{Bool, false, ◌||◌}
use mathlib.Core.List.{List, [], ◌∷◌}
use native.Mathlib.Omega.{arith}
use ntd.Prelude.Tests.{if◌then◌else◌}
use ntd.Prelude.Orders.{Ord}

abbrev pub BTreeSet {ℓ} : Type ℓ → Type ℓ
BTreeSet K = List K

module _ {ℓ} {K : Type ℓ} ⦃o : Ord K⦄ where
  unfoldable pub contains : K → BTreeSet K → Bool
  contains k [] = false
  contains k (j ∷ s) = o.eq k j || contains k s

  unfoldable pub insert : K → BTreeSet K → BTreeSet K
  insert k [] = k ∷ []
  insert k (j ∷ s) = if o.eq k j then j ∷ s else if o.lt k j then k ∷ j ∷ s else j ∷ insert k s

  pub contains-insert :
      (k j : K) (s : BTreeSet K) → contains j (insert k s) ≡ (o.eq j k || contains j s)
  unfolding contains insert
  contains-insert k j [] = refl
  contains-insert k j (i ∷ s) =
      ground (arith, contains-insert k j s, o.eq_iff k i, o.eq_iff j k, o.eq_iff j i)
