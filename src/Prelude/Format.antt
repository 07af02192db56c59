-- ===== src/Prelude/Format.antt =====
-- What the program uses of Rust's text functions beyond `trim`: decimal numbers in `format!`,
-- `split_whitespace`, `trim_matches`, `to_ascii_lowercase`.
use Prim.Native.Nat.{ℕ, zero, suc, ◌+◌, ◌-◌, ◌*◌, ◌/◌, ◌%◌, ◌^◌, ◌<◌}
use mathlib.Core.Path.{◌≡◌, refl}
use mathlib.Core.Bool.{Bool, not, ◌&&◌}
use mathlib.Core.List.{List, [], ◌∷◌, ◌++◌, reverse}
use native.Mathlib.Omega.{arith, pow_step}
use ntd.Prelude.Tests.{ltb, leb, if◌then◌else◌}
use ntd.Prelude.Lists.{is_empty, filter}
use ntd.Prelude.Strings.{Text, is_whitespace}

-- The digits of a number below `10 ^ fuel`.
unfoldable pub digits : ℕ → ℕ → Text
digits zero n = []
digits (suc fuel) n =
    let leading = digits fuel (n / 10) in
    if ltb n 10 then (48 + n) ∷ [] else leading ++ (48 + n % 10) ∷ []

-- `{}` of an unsigned number: a `u64` has at most 20 digits.
unfoldable pub decimal : ℕ → Text
unfolding digits
decimal n = digits 20 n

unfoldable pub parse : ℕ → Text → ℕ
parse acc [] = acc
parse acc (c ∷ cs) = parse (acc * 10 + (c - 48)) cs

parse-append :
    (acc : ℕ) (xs : Text) (d : ℕ) → parse acc (xs ++ d ∷ []) ≡ parse acc xs * 10 + (d - 48)
unfolding parse
parse-append acc [] d = refl
parse-append acc (x ∷ xs) d = parse-append (acc * 10 + (x - 48)) xs d

-- The digits stand for the number.
pub parse-digits : (fuel n : ℕ) → n < 10 ^ fuel → parse 0 (digits fuel n) ≡ n
unfolding parse digits
parse-digits zero n h = omega arith
parse-digits (suc fuel) n h =
    let e = pow_step 10 fuel in
    let rest = parse-digits fuel (n / 10) (omega (arith, e, h)) in
    let last = parse-append 0 (digits fuel (n / 10)) (48 + n % 10) in ground (arith, rest, last)

unfoldable pub to_ascii_lowercase : Text → Text
to_ascii_lowercase [] = []
to_ascii_lowercase (c ∷ cs) = (if leb 65 c && leb c 90 then c + 32 else c) ∷ to_ascii_lowercase cs

unfoldable pub trim_start_matches : (ℕ → Bool) → Text → Text
trim_start_matches p [] = []
trim_start_matches p (c ∷ cs) = let rest = trim_start_matches p cs in if p c then rest else c ∷ cs

unfoldable pub trim_matches : (ℕ → Bool) → Text → Text
unfolding trim_start_matches
trim_matches p cs = reverse (trim_start_matches p (reverse (trim_start_matches p cs)))

abbrev pub onto_first : ℕ → List Text → List Text
onto_first c [] = (c ∷ []) ∷ []
onto_first c (w ∷ ws) = (c ∷ w) ∷ ws

-- The pieces between the whitespace characters, the empty ones included.
unfoldable pub pieces : Text → List Text
unfolding is_whitespace
pieces [] = [] ∷ []
pieces (c ∷ cs) = let rest = pieces cs in if is_whitespace c then [] ∷ rest else onto_first c rest

unfoldable pub split_whitespace : Text → List Text
unfolding pieces
split_whitespace cs = filter (λ w. not (is_empty w)) (pieces cs)
