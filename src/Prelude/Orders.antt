-- ===== src/Prelude/Orders.antt =====
-- The total orders that key `BTreeMap` and `BTreeSet`.
use Prim.Native.Nat.{ℕ}
use mathlib.Core.Path.{◌≡◌}
use mathlib.Core.Logic.{◌↔◌, inl, inr}
use mathlib.Core.Bool.{Bool, true, false}
use native.Mathlib.Omega.{arith}
use ntd.Prelude.Tests.{ltb, ◌==◌, ==_iff, Bool-cases}

pub record Ord {ℓ} (A : Type ℓ) : Type ℓ where
  pub eq : A → A → Bool
  pub lt : A → A → Bool
  pub eq_iff : (a b : A) → (eq a b ≡ true) ↔ (a ≡ b)
  pub lt_irrefl : (a : A) → lt a a ≡ false
  pub lt_trans : (a b c : A) → lt a b ≡ true → lt b c ≡ true → lt a c ≡ true
  pub lt_total : (a b : A) → eq a b ≡ false → lt a b ≡ false → lt b a ≡ true

pub ltb_trans : (a b c : ℕ) → ltb a b ≡ true → ltb b c ≡ true → ltb a c ≡ true
ltb_trans a b c h k = ground arith

pub ltb_irrefl : (a : ℕ) → ltb a a ≡ false
ltb_irrefl a = ground arith

pub ltb_total : (a b : ℕ) → (a == b) ≡ false → ltb a b ≡ false → ltb b a ≡ true
ltb_total a b h k = ground arith

instance abbrev pub nat_ord : Ord ℕ
nat_ord = record {
  eq = ◌==◌;
  lt = ltb;
  eq_iff = ==_iff;
  lt_irrefl = ltb_irrefl;
  lt_trans = ltb_trans;
  lt_total = ltb_total;
}

-- What follows for any such order.
module _ {ℓ} {K : Type ℓ} ⦃o : Ord K⦄ where
  pub lt-ne : (j k : K) → o.lt j k ≡ true → o.eq k j ≡ false
  lt-ne j k h = elim (Bool-cases (o.eq k j)) [
    | inr e ↦ e
    | inl e ↦ let same = (o.eq_iff k j).0 e in let i = o.lt_irrefl j in absurd (cc)
  ]

  pub lt_asym : (j k : K) → o.lt j k ≡ true → o.lt k j ≡ false
  lt_asym j k h = elim (Bool-cases (o.lt k j)) [
    | inr e ↦ e
    | inl e ↦ let l = o.lt_trans j k j h e in let i = o.lt_irrefl j in absurd (cc)
  ]

  pub eq_sym : (j k : K) → o.eq j k ≡ false → o.eq k j ≡ false
  eq_sym j k h = ground (arith, o.eq_iff j k, o.eq_iff k j)

  -- `j` is not below `k`, nor `i` below `j`.
  pub not_lt_trans : (i j k : K) → o.lt i j ≡ false → o.lt j k ≡ false → o.lt i k ≡ false
  not_lt_trans i j k h l = elim (Bool-cases (o.lt i k)) [
    | inr e ↦ e
    | inl e ↦ elim (Bool-cases (o.eq j k)) [
      | inl s ↦ let same = (o.eq_iff j k).0 s in absurd (cc)
      | inr s ↦ let t = o.lt_trans i k j e (o.lt_total j k s l) in absurd (cc)
    ]
  ]
