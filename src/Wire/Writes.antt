-- ===== src/Wire/Writes.antt =====
-- A writer fails only with the overflow error of a length that does not fit.
use ntd.Prelude.{
  ℕ, ◌+◌, ◌≡◌, refl, inl, inr, Bool, true, false, Option, none, some, List, [], ◌∷◌, ◌++◌, ltb,
  length, Text, ok, err, Bool-cases,
}
use ntd.Prelude.Utf8.{Bytes, as_bytes}
use ntd.Prelude.Words.{u32_max, usize_max}
use ntd.Wire.Cursor.{WireErrors}
use ntd.Wire.Push.{
  Encoder, ◌⧺◌, done, extend_from_slice, push_u8, push_u16, push_u32, push_u64, push_bool, push_len,
  push_bytes, push_string, push_all, push_optional, push_strings, push_optional_string,
  push_optional_bytes,
}
use ntd.Wire.Frame.{Format, seal, push_header, header_len}

module _ {E : Type 0} ⦃w : WireErrors E⦄ where
  -- It writes something, or a length overflows.
  pub data Writes (e : Encoder E) : Type 0 where
    writes : (bs : Bytes) → e ≡ ok bs → Writes e
    overflows : e ≡ err w.overflow → Writes e

  pub ⧺-Writes : {e f : Encoder E} → Writes e → Writes f → Writes (e ⧺ f)
  unfolding ◌⧺◌
  ⧺-Writes {e} {f} (overflows h) v = overflows (rw (◌⧺◌, h) refl)
  ⧺-Writes {e} {f} (writes bs h) (overflows k) = overflows (rw (◌⧺◌, h, k) refl)
  ⧺-Writes {e} {f} (writes bs h) (writes cs k) = writes (bs ++ cs) (rw (◌⧺◌, h, k) refl)

  pub pushed : {bs : Bytes} → Writes (ok bs)
  pushed {bs} = writes bs refl

  pub push_u8-Writes : (v : ℕ) → Writes (push_u8 v)
  unfolding push_u8
  push_u8-Writes v = pushed

  pub push_u16-Writes : (v : ℕ) → Writes (push_u16 v)
  unfolding push_u16
  push_u16-Writes v = pushed

  pub push_u32-Writes : (v : ℕ) → Writes (push_u32 v)
  unfolding push_u32
  push_u32-Writes v = pushed

  pub push_u64-Writes : (v : ℕ) → Writes (push_u64 v)
  unfolding push_u64
  push_u64-Writes v = pushed

  pub push_bool-Writes : (b : Bool) → Writes (push_bool b)
  unfolding push_bool push_u8
  push_bool-Writes true = pushed
  push_bool-Writes false = pushed

  pub done-Writes : Writes done
  unfolding done
  done-Writes = pushed

  pub slice-Writes : (bs : Bytes) → Writes (extend_from_slice bs)
  unfolding extend_from_slice
  slice-Writes bs = pushed

  pub push_len-Writes : (n : ℕ) → Writes (push_len n)
  unfolding push_len
  push_len-Writes n = elim (Bool-cases (ltb u32_max n)) [
    | inl e ↦ rw e (overflows refl)
    | inr e ↦ rw e (push_u32-Writes n)
  ]

  pub push_bytes-Writes : (bs : Bytes) → Writes (push_bytes bs)
  unfolding push_bytes
  push_bytes-Writes bs = ⧺-Writes (push_len-Writes (length bs)) (slice-Writes bs)

  pub push_string-Writes : (s : Text) → Writes (push_string s)
  unfolding push_string
  push_string-Writes s = push_bytes-Writes (as_bytes s)

  pub push_all-Writes :
      {A : Type 0} (f : A → Encoder E)
      → ((a : A) → Writes (f a))
      → (as' : List A) → Writes (push_all f as')
  unfolding push_all
  push_all-Writes f h [] = done-Writes
  push_all-Writes f h (a ∷ as') = ⧺-Writes (h a) (push_all-Writes f h as')

  pub push_optional-Writes :
      {A : Type 0} (f : A → Encoder E)
      → ((a : A) → Writes (f a))
      → (o : Option A) → Writes (push_optional f o)
  unfolding push_optional
  push_optional-Writes f h none = push_u8-Writes 0
  push_optional-Writes f h (some a) = ⧺-Writes (push_u8-Writes 1) (h a)

  pub push_strings-Writes : (xs : List Text) → Writes (push_strings xs)
  unfolding push_strings
  push_strings-Writes xs =
      ⧺-Writes (push_len-Writes (length xs)) (push_all-Writes push_string push_string-Writes xs)

  pub push_optional_string-Writes : (o : Option Text) → Writes (push_optional_string o)
  unfolding push_optional_string
  push_optional_string-Writes o = push_optional-Writes push_string push_string-Writes o

  pub push_optional_bytes-Writes : (o : Option Bytes) → Writes (push_optional_bytes o)
  unfolding push_optional_bytes
  push_optional_bytes-Writes o = push_optional-Writes push_bytes push_bytes-Writes o

  pub seal-Writes : (f : Format E) (payload : Bytes) → Writes (seal f payload)
  unfolding seal push_header
  seal-Writes f payload = elim (Bool-cases (ltb usize_max (header_len + length payload))) [
    | inl e ↦ rw e (overflows refl)
    | inr e ↦ rw e (
        ⧺-Writes
          (⧺-Writes (slice-Writes f.magic) (
            ⧺-Writes (push_u16-Writes header_len) (
              ⧺-Writes (push_u16-Writes f.major) (
                ⧺-Writes (push_u16-Writes f.minor) (
                  ⧺-Writes (push_u32-Writes 0)
                    (⧺-Writes (push_u64-Writes (length payload)) done-Writes))))))
          (slice-Writes payload))
  ]

-- The rules for `search`, which takes a writer apart.
pub ruleset write_rules = (
  ⧺-Writes, push_u8-Writes, push_u16-Writes, push_u32-Writes, push_u64-Writes, push_bool-Writes,
  done-Writes, push_len-Writes, push_bytes-Writes, push_string-Writes, push_strings-Writes,
  push_optional_string-Writes, push_optional_bytes-Writes,
)
