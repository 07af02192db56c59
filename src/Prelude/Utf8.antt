-- ===== src/Prelude/Utf8.antt =====
-- Rust's `str::as_bytes` and `String::from_utf8`: UTF-8 as in RFC 3629.
use Prim.Native.Nat.{ℕ, ◌+◌, ◌-◌, ◌*◌, ◌/◌, ◌%◌}
use mathlib.Core.Path.{◌≡◌, refl, ◌∙◌}
use mathlib.Core.Bool.{Bool, true, not, ◌&&◌, ◌||◌}
use mathlib.Core.Option.{Option, none, some}
use mathlib.Core.List.{List, [], ◌∷◌, ◌++◌}
use native.Mathlib.Omega.{arith}
use ntd.Prelude.Tests.{ltb, leb, ◌==◌, if◌then◌else◌}
use ntd.Prelude.Lists.{All, all}
use ntd.Prelude.Strings.{Text}

abbrev pub Bytes : Type 0
Bytes = List ℕ

-- Every `char` is a Unicode scalar value.
abbrev pub is_scalar : ℕ → Bool
is_scalar c = ltb c 0xd800 || (leb 0xe000 c && leb c 0x10ffff)

abbrev pub IsString : Text → Type 0
IsString s = All (λ c. is_scalar c ≡ true) s

pub is_string : (s : Text) → all is_scalar s ≡ true → IsString s
is_string [] h = tt
is_string (c ∷ cs) h = (ground arith, is_string cs (ground arith))

unfoldable pub char_bytes : ℕ → Bytes
char_bytes c =
    if ltb c 0x80
    then c ∷ []
    else if ltb c 0x800
    then (0xc0 + c / 64) ∷ (0x80 + c % 64) ∷ []
    else if ltb c 0x10000
    then (0xe0 + c / 4096) ∷ (0x80 + c / 64 % 64) ∷ (0x80 + c % 64) ∷ []
    else (0xf0 + c / 262144) ∷ (0x80 + c / 4096 % 64) ∷ (0x80 + c / 64 % 64) ∷ (0x80 + c % 64) ∷ []

unfoldable pub as_bytes : Text → Bytes
unfolding char_bytes
as_bytes [] = []
as_bytes (c ∷ cs) = char_bytes c ++ as_bytes cs

-- Within a character: the continuation bytes to come, the bits so far, and the least value that
-- is not encoded in fewer bytes.
pub record Utf8State : Type 0 where
  pub needed : ℕ
  pub bits : ℕ
  pub least : ℕ

abbrev pub between_chars : Utf8State
between_chars = record { needed = 0; bits = 0; least = 0 }

abbrev pub Utf8Step : Type 0
Utf8Step = Option (Utf8State × Option ℕ)

unfoldable pub utf8_lead : ℕ → Utf8Step
utf8_lead b =
    if ltb b 0x80
    then some (between_chars, some b)
    else if ltb b 0xc0
    then none
    else if ltb b 0xe0
    then some (record { needed = 1; bits = b - 0xc0; least = 0x80 }, none)
    else if ltb b 0xf0
    then some (record { needed = 2; bits = b - 0xe0; least = 0x800 }, none)
    else if ltb b 0xf8
    then some (record { needed = 3; bits = b - 0xf0; least = 0x10000 }, none)
    else none

unfoldable pub utf8_step : Utf8State → ℕ → Utf8Step
unfolding utf8_lead
utf8_step s b =
    if s.needed == 0
    then utf8_lead b
    else if not (leb 0x80 b && ltb b 0xc0)
    then none
    else (let bits = s.bits * 64 + (b - 0x80) in
        if not (s.needed == 1)
        then some (record s { needed = s.needed - 1; bits = bits }, none)
        else if is_scalar bits && leb s.least bits
        then some (between_chars, some bits)
        else none)

abbrev pub and_then : Option ℕ → Option Text → Option Text
and_then none r = r
and_then (some c) none = none
and_then (some c) (some cs) = some (c ∷ cs)

unfoldable pub utf8_run : Utf8State → Bytes → Option Text
unfolding utf8_step
utf8_run s [] = if s.needed == 0 then some [] else none
utf8_run s (b ∷ bs) = elim (utf8_step s b) [ none ↦ none | some r ↦ and_then r.1 (utf8_run r.0 bs) ]

unfoldable pub from_utf8 : Bytes → Option Text
unfolding utf8_run
from_utf8 bs = utf8_run between_chars bs

utf8_run-char_bytes :
    (c : ℕ) (bs : Bytes)
    → is_scalar c ≡ true
    → utf8_run between_chars (char_bytes c ++ bs) ≡ and_then (some c) (utf8_run between_chars bs)
unfolding utf8_run utf8_step utf8_lead char_bytes
utf8_run-char_bytes c bs h = ground arith

-- Decoding gives back the string that was encoded.
pub from_utf8-as_bytes : (s : Text) → IsString s → from_utf8 (as_bytes s) ≡ some s
unfolding from_utf8 as_bytes utf8_run
from_utf8-as_bytes [] h = refl
from_utf8-as_bytes (c ∷ cs) h =
    utf8_run-char_bytes c (as_bytes cs) h.0 ∙ rw (from_utf8-as_bytes cs h.1) refl
