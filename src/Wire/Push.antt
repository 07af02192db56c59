-- ===== src/Wire/Push.antt =====
-- crates/ntd-runtime/src/action_checkpoint.rs: the `push_*` writers. A writer is the bytes that it
-- appends, or its error; on an error the caller drops what was written before.
use ntd.Prelude.{
  ℕ, zero, suc, ◌/◌, ◌%◌, Bool, true, false, Option, none, some, List, [], ◌∷◌, ◌++◌, ltb, length,
  Result, ok, err, if◌then◌else◌,
}
use ntd.Prelude.Strings.{Text}
use ntd.Prelude.Utf8.{Bytes, as_bytes}
use ntd.Prelude.Words.{u32_max}
use ntd.Wire.Cursor.{WireErrors}

abbrev pub Encoder : Type 0 → Type 0
Encoder E = Result E Bytes

-- `n.to_le_bytes()` of an integer of that many bytes.
unfoldable pub le_bytes : ℕ → ℕ → Bytes
le_bytes zero v = []
le_bytes (suc n) v = v % 256 ∷ le_bytes n (v / 256)

abbrev pub followed_by : {E : Type 0} → Bytes → Encoder E → Encoder E
followed_by bs (ok cs) = ok (bs ++ cs)
followed_by bs (err e) = err e

module _ {E : Type 0} where
  infixr 5 ◌⧺◌
  -- One writer after another: the first error stops them.
  unfoldable pub ◌⧺◌ : Encoder E → Encoder E → Encoder E
  ok bs ⧺ e = followed_by bs e
  err x ⧺ e = err x

  -- `Ok(())`
  unfoldable pub done : Encoder E
  done = ok []

  unfoldable pub extend_from_slice : Bytes → Encoder E
  extend_from_slice bs = ok bs

  unfoldable pub push_u8 : ℕ → Encoder E
  unfolding le_bytes
  push_u8 v = ok (le_bytes 1 v)

  unfoldable pub push_u16 : ℕ → Encoder E
  unfolding le_bytes
  push_u16 v = ok (le_bytes 2 v)

  unfoldable pub push_u32 : ℕ → Encoder E
  unfolding le_bytes
  push_u32 v = ok (le_bytes 4 v)

  unfoldable pub push_u64 : ℕ → Encoder E
  unfolding le_bytes
  push_u64 v = ok (le_bytes 8 v)

  -- `u8::from(value)`
  unfoldable pub push_bool : Bool → Encoder E
  unfolding push_u8
  push_bool true = push_u8 1
  push_bool false = push_u8 0

module _ {E : Type 0} ⦃w : WireErrors E⦄ where
  -- `push_u32(out, len_u32(n)?)`
  unfoldable pub push_len : ℕ → Encoder E
  unfolding push_u32
  push_len n = if ltb u32_max n then err w.overflow else push_u32 n

  unfoldable pub push_bytes : Bytes → Encoder E
  unfolding push_len ◌⧺◌ extend_from_slice
  push_bytes bs = push_len (length bs) ⧺ extend_from_slice bs

  unfoldable pub push_string : Text → Encoder E
  unfolding push_bytes as_bytes
  push_string s = push_bytes (as_bytes s)

module _ {E A : Type 0} where
  -- `for value in values { f(out, value)?; }`
  unfoldable pub push_all : (A → Encoder E) → List A → Encoder E
  unfolding ◌⧺◌ done
  push_all f [] = done
  push_all f (a ∷ as') = f a ⧺ push_all f as'

  -- A tag, then the value if there is one.
  unfoldable pub push_optional : (A → Encoder E) → Option A → Encoder E
  unfolding ◌⧺◌ push_u8
  push_optional f none = push_u8 0
  push_optional f (some a) = push_u8 1 ⧺ f a

module _ {E : Type 0} ⦃w : WireErrors E⦄ where
  unfoldable pub push_strings : List Text → Encoder E
  unfolding push_len push_all push_string ◌⧺◌
  push_strings values = push_len (length values) ⧺ push_all push_string values

  unfoldable pub push_optional_string : Option Text → Encoder E
  unfolding push_optional push_string
  push_optional_string = push_optional push_string

  unfoldable pub push_optional_bytes : Option Bytes → Encoder E
  unfolding push_optional push_bytes
  push_optional_bytes = push_optional push_bytes
