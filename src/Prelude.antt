-- ===== src/Prelude.antt =====
-- The names that the other modules share: the libraries' names passed on, Boolean tests, lists over
-- the native numbers, results, the order interface and the models of Rust's `String`, `BTreeMap`
-- and `BTreeSet`.
mod Tests
mod Lists
mod Results
mod Orders
pub mod Strings
mod Trimming
pub mod Utf8
pub mod Format
pub mod BTreeMap
pub mod BTreeSet
pub mod Sorting
pub mod Words
pub use Tests.*
pub use Lists.*
pub use Results.*
pub use Orders.{Ord, nat_ord, lt-ne, lt_asym, eq_sym, not_lt_trans}
unfoldable pub use Strings.{Text, codes, is_blank, trim, text_eq, text_ord}
pub use Strings.{text_eq_refl, text_eq_iff}
pub use Trimming.{trim-trim, is_blank-trim}
pub use Prim.Native.Nat.{ℕ, zero, suc, ◌+◌, ◌-◌, ◌*◌, ◌/◌, ◌%◌, ◌^◌, ◌≤◌, ◌<◌, min, max}
pub use mathlib.Core.Path.{◌≡◌, refl, sym, ap, subst, subst₂, ◌∙◌}
pub use mathlib.Core.Logic.{◌≢◌, ◌↔◌, ◌⊎◌, inl, inr}
pub use mathlib.Core.Bool.{Bool, true, false, not, ◌&&◌, ◌||◌}
pub use mathlib.Core.Option.{Option, none, some, some-injective}
pub use mathlib.Core.List.{List, [], ◌∷◌, ◌++◌, map, append-nil, append_assoc}
pub use native.Mathlib.Omega.{arith}
unfoldable pub use native.Mathlib.Decide.{dec_lt, dec_le, ℕ_discrete}
