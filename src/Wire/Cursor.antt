-- ===== src/Wire/Cursor.antt =====
-- crates/ntd-runtime/src/action_checkpoint.rs: `Cursor` and its readers.
use ntd.Prelude.{
  ℕ, zero, suc, ◌+◌, ◌*◌, Bool, true, false, Option, none, some, List, [], ◌∷◌, ◌==◌, ltb, length,
  Result, ok, err, ok_or, if◌then◌else◌,
}
use ntd.Prelude.Strings.{Text}
use ntd.Prelude.Utf8.{Bytes, from_utf8}
use ntd.Prelude.Words.{usize_max}

-- The errors that the readers and the writers return.
pub record WireErrors (E : Type 0) : Type 0 where
  pub truncated : E
  pub overflow : E
  pub invalid_utf8 : E
  pub invalid_boolean : ℕ → E

-- `rest` is `bytes[offset..]`.
pub record Cursor : Type 0 where
  pub offset : ℕ
  pub rest : Bytes

abbrev pub cursor_new : Bytes → Cursor
cursor_new bytes = record { offset = 0; rest = bytes }

abbrev pub Decoder : Type 0 → Type 0 → Type 0
Decoder E A = Cursor → Result E (A × Cursor)

abbrev pub first_n : ℕ → Bytes → Bytes
first_n zero bs = []
first_n (suc n) [] = []
first_n (suc n) (b ∷ bs) = b ∷ first_n n bs

abbrev pub without_n : ℕ → Bytes → Bytes
without_n zero bs = bs
without_n (suc n) [] = []
without_n (suc n) (b ∷ bs) = without_n n bs

-- `from_le_bytes`
unfoldable pub from_le : Bytes → ℕ
from_le [] = 0
from_le (b ∷ bs) = b + 256 * from_le bs

module _ {E A : Type 0} where
  unfoldable pub pure : A → Decoder E A
  pure a c = ok (a, c)

  unfoldable pub lift : Result E A → Decoder E A
  lift (ok a) c = ok (a, c)
  lift (err e) c = err e

module _ {E : Type 0} where
  -- `if refused { return Err(e); }`
  unfoldable pub check : Bool → E → Decoder E (Unit {0})
  check true e c = err e
  check false e c = ok (tt, c)

module _ {E A B : Type 0} where
  infixl 5 ◌>>=◌
  unfoldable pub ◌>>=◌ : Decoder E A → (A → Decoder E B) → Decoder E B
  (d >>= k) c = elim (d c) [ ok r ↦ k r.0 r.1 | err e ↦ err e ]

module _ {E B : Type 0} where
  infixl 5 ◌>>◌
  unfoldable pub ◌>>◌ : Decoder E (Unit {0}) → Decoder E B → Decoder E B
  unfolding ◌>>=◌
  d >> k = d >>= λ _. k

module _ {E : Type 0} ⦃w : WireErrors E⦄ where
  unfoldable pub take : ℕ → Decoder E Bytes
  take len c =
      if ltb usize_max (c.offset + len)
      then err w.overflow
      else if ltb (length c.rest) len
      then err w.truncated
      else ok (first_n len c.rest, record { offset = c.offset + len; rest = without_n len c.rest })

  -- `uN::from_le_bytes` of the next bytes.
  unfoldable pub unsigned : ℕ → Decoder E ℕ
  unfolding take ◌>>=◌ pure from_le
  unsigned n = do bytes ← take n; pure (from_le bytes)

  unfoldable pub u8 : Decoder E ℕ
  unfolding unsigned
  u8 = unsigned 1

  unfoldable pub u16 : Decoder E ℕ
  unfolding unsigned
  u16 = unsigned 2

  unfoldable pub u32 : Decoder E ℕ
  unfolding unsigned
  u32 = unsigned 4

  unfoldable pub u64 : Decoder E ℕ
  unfolding unsigned
  u64 = unsigned 8

  unfoldable pub bytes : Decoder E Bytes
  unfolding u32 take ◌>>=◌
  bytes = do len ← u32; take len

  unfoldable pub string : Decoder E Text
  unfolding bytes lift from_utf8 ◌>>=◌
  string = do bs ← bytes; lift (ok_or (from_utf8 bs) w.invalid_utf8)

module _ {E A : Type 0} where
  -- `for _ in 0..count { values.push(d(cursor)?) }`
  unfoldable pub repeat : ℕ → Decoder E A → Decoder E (List A)
  unfolding ◌>>=◌ pure
  repeat zero d = pure []
  repeat (suc n) d = do a ← d; as' ← repeat n d; pure (a ∷ as')

module _ {E : Type 0} ⦃w : WireErrors E⦄ where
  unfoldable pub strings : Decoder E (List Text)
  unfolding u32 string repeat ◌>>=◌
  strings = do count ← u32; repeat count string

  unfoldable pub boolean_of : ℕ → Decoder E Bool
  unfolding pure lift
  boolean_of tag =
      if tag == 0
      then pure false
      else if tag == 1
      then pure true
      else lift (err (w.invalid_boolean tag))

  unfoldable pub boolean : Decoder E Bool
  unfolding u8 boolean_of ◌>>=◌
  boolean = do tag ← u8; boolean_of tag

module _ {E A : Type 0} ⦃w : WireErrors E⦄ where
  unfoldable pub option_of : Decoder E A → ℕ → Decoder E (Option A)
  unfolding pure lift ◌>>=◌
  option_of d tag =
      if tag == 0
      then pure none
      else if tag == 1
      then (do value ← d; pure (some value))
      else lift (err (w.invalid_boolean tag))

  -- A tag, then the value if the tag is 1.
  unfoldable pub optional : Decoder E A → Decoder E (Option A)
  unfolding u8 option_of ◌>>=◌
  optional d = do tag ← u8; option_of d tag

module _ {E : Type 0} ⦃w : WireErrors E⦄ where
  unfoldable pub optional_string : Decoder E (Option Text)
  unfolding optional string
  optional_string = optional string

  unfoldable pub optional_bytes : Decoder E (Option Bytes)
  unfolding optional bytes
  optional_bytes = optional bytes

abbrev pub is_finished : Cursor → Bool
is_finished c = length c.rest == 0
