-- ===== src/Wire/RoundTrip.antt =====
-- The readers of the cursor undo the `push_*` writers.
use ntd.Prelude.{
  ℕ, zero, suc, ◌+◌, ◌/◌, ◌^◌, ◌≤◌, ◌<◌, ◌≡◌, refl, ap, Bool, true, false, Option, none, some, List,
  [], ◌∷◌, ◌++◌, ltb, length, ok, ok-injective, subst, All, All-map, arith, inl, inr, Bool-cases,
}
use native.Mathlib.Omega.{pow_step}
use ntd.Prelude.Strings.{Text}
use ntd.Prelude.Utf8.{Bytes, IsString, as_bytes, from_utf8-as_bytes}
use ntd.Prelude.Words.{u32_max, usize_max}
use ntd.Wire.Cursor.{
  Decoder, WireErrors, ◌>>=◌, pure, lift, take, first_n, without_n, from_le, unsigned, u8, u16, u32,
  u64, bytes, string, strings, repeat, boolean, boolean_of, optional, option_of, optional_string,
  optional_bytes,
}
use ntd.Wire.Push.{
  Encoder, le_bytes, extend_from_slice, push_u8, push_u16, push_u32, push_u64, push_bool, push_len,
  push_bytes, push_string, push_all, push_optional, push_strings, push_optional_string,
  push_optional_bytes,
}
use ntd.Wire.Trips.{Reads, Trips, ⧺->>=, last-Trips, map-Trips, done-pure}

pub from_le-le_bytes : (n v : ℕ) → v < 256 ^ n → from_le (le_bytes n v) ≡ v
unfolding from_le le_bytes
from_le-le_bytes zero v h = omega arith
from_le-le_bytes (suc n) v h =
    let e = pow_step 256 n in
    let rest = from_le-le_bytes n (v / 256) (omega (arith, e, h)) in omega (arith, rest)

length-le_bytes : (n v : ℕ) → length (le_bytes n v) ≡ n
unfolding le_bytes
length-le_bytes zero v = refl
length-le_bytes (suc n) v = ap suc (length-le_bytes n (v / 256))

first_n-append : (bs rest : Bytes) → first_n (length bs) (bs ++ rest) ≡ bs
first_n-append [] rest = refl
first_n-append (b ∷ bs) rest = ap (λ cs. b ∷ cs) (first_n-append bs rest)

pub without_n-append : (bs rest : Bytes) → without_n (length bs) (bs ++ rest) ≡ rest
without_n-append [] rest = refl
without_n-append (b ∷ bs) rest = without_n-append bs rest

not_short : (bs rest : Bytes) → ltb (length (bs ++ rest)) (length bs) ≡ false
not_short [] rest = ground arith
not_short (b ∷ bs) rest = let e = not_short bs rest in ground arith

module _ {E : Type 0} ⦃w : WireErrors E⦄ where
  take-Reads : (bs : Bytes) → Reads {E = E} (take (length bs)) bs bs
  unfolding take
  take-Reads bs = record {
    reads = λ o rest fits.
        let small : ltb usize_max (o + length bs) ≡ false = ground (arith, fits) in
        rw (small, not_short bs rest, first_n-append bs rest, without_n-append bs rest) refl;
  }

  pub slice-take : (bs : Bytes) → Trips {E = E} (extend_from_slice bs) (take (length bs)) bs
  unfolding extend_from_slice
  slice-take bs = record {
    trips = λ cs h.
        subst (λ zs. Reads {E = E} (take (length bs)) bs zs) (ok-injective h) (take-Reads bs);
  }

  le_bytes-unsigned : (n v : ℕ) → v < 256 ^ n → Trips {E = E} (ok (le_bytes n v)) (unsigned n) v
  unfolding unsigned extend_from_slice
  le_bytes-unsigned n v h =
      subst (λ x. Trips {E = E} (ok (le_bytes n v)) (unsigned n) x) (from_le-le_bytes n v h)
        (subst
          (λ m.
            Trips {E = E} (ok (le_bytes n v)) (take m >>= λ bs. pure (from_le bs))
              (from_le (le_bytes n v)))
          (length-le_bytes n v) (map-Trips from_le (slice-take (le_bytes n v))))

  pub push_u8-Trips : {v : ℕ} → v ≤ 255 → Trips {E = E} (push_u8 v) u8 v
  unfolding push_u8 u8
  push_u8-Trips {v} h = le_bytes-unsigned 1 v (omega (arith, h))

  pub push_u16-Trips : {v : ℕ} → v ≤ 65535 → Trips {E = E} (push_u16 v) u16 v
  unfolding push_u16 u16
  push_u16-Trips {v} h = le_bytes-unsigned 2 v (omega (arith, h))

  pub push_u32-Trips : {v : ℕ} → v ≤ u32_max → Trips {E = E} (push_u32 v) u32 v
  unfolding push_u32 u32
  push_u32-Trips {v} h = le_bytes-unsigned 4 v (omega (arith, h))

  pub push_u64-Trips : {v : ℕ} → v ≤ usize_max → Trips {E = E} (push_u64 v) u64 v
  unfolding push_u64 u64
  push_u64-Trips {v} h = le_bytes-unsigned 8 v (omega (arith, h))

  -- A length that does not fit is refused by the writer.
  pub push_len-Trips : (n : ℕ) → Trips {E = E} (push_len n) u32 n
  unfolding push_len
  push_len-Trips n = elim (Bool-cases (ltb u32_max n)) [
    | inl e ↦ rw e (record { trips = λ bs h. cc })
    | inr e ↦ rw e (push_u32-Trips (ground (arith, e)))
  ]

  pub push_bytes-Trips : (bs : Bytes) → Trips {E = E} (push_bytes bs) bytes bs
  unfolding push_bytes bytes
  push_bytes-Trips bs = ⧺->>= _ (push_len-Trips (length bs)) (slice-take bs)

  pub push_string-Trips : {s : Text} → IsString s → Trips {E = E} (push_string s) string s
  unfolding push_string string lift
  push_string-Trips {s} h =
      last-Trips _ (push_bytes-Trips (as_bytes s)) (λ c. rw (from_utf8-as_bytes s h) refl)

  pub push_bool-Trips : (b : Bool) → Trips {E = E} (push_bool b) boolean b
  unfolding push_bool boolean boolean_of pure
  push_bool-Trips true = last-Trips _ (push_u8-Trips {v = 1} (omega arith)) (λ c. refl)
  push_bool-Trips false = last-Trips _ (push_u8-Trips {v = 0} (omega arith)) (λ c. refl)

module _ {E A : Type 0} where
  pub push_all-Trips :
      (f : A → Encoder E) (d : Decoder E A) (as' : List A)
      → All (λ a. Trips (f a) d a) as'
      → Trips (push_all f as') (repeat (length as') d) as'
  unfolding push_all repeat
  push_all-Trips f d [] h = done-pure
  push_all-Trips f d (a ∷ as') h =
      ⧺->>= _ h.0 (map-Trips (λ xs. a ∷ xs) (push_all-Trips f d as' h.1))

-- What holds of the value, if there is one.
abbrev pub Where : {A : Type 0} → (A → Type 0) → Option A → Type 0
Where P none = Unit
Where P (some a) = P a

module _ {E A : Type 0} ⦃w : WireErrors E⦄ where
  pub push_optional-Trips :
      (f : A → Encoder E) (d : Decoder E A) (o : Option A)
      → Where (λ a. Trips (f a) d a) o
      → Trips (push_optional f o) (optional d) o
  unfolding push_optional optional option_of pure
  push_optional-Trips f d none h = last-Trips _ (push_u8-Trips {v = 0} (omega arith)) (λ c. refl)
  push_optional-Trips f d (some a) h =
      ⧺->>= _ (push_u8-Trips {v = 1} (omega arith)) (map-Trips some h)

module _ {E : Type 0} ⦃w : WireErrors E⦄ where
  pub push_strings-Trips :
      {xs : List Text} → All IsString xs → Trips {E = E} (push_strings xs) strings xs
  unfolding push_strings strings
  push_strings-Trips {xs} h =
      ⧺->>= _ (push_len-Trips (length xs))
        (push_all-Trips push_string string xs (All-map (λ s. push_string-Trips {s = s}) xs h))

  pub push_optional_string-Trips :
      (o : Option Text)
      → Where IsString o
      → Trips {E = E} (push_optional_string o) optional_string o
  unfolding push_optional_string optional_string
  push_optional_string-Trips none h = push_optional-Trips push_string string none tt
  push_optional_string-Trips (some s) h =
      push_optional-Trips push_string string (some s) (push_string-Trips h)

  pub push_optional_bytes-Trips :
      (o : Option Bytes) → Trips {E = E} (push_optional_bytes o) optional_bytes o
  unfolding push_optional_bytes optional_bytes
  push_optional_bytes-Trips none = push_optional-Trips push_bytes bytes none tt
  push_optional_bytes-Trips (some b) =
      push_optional-Trips push_bytes bytes (some b) (push_bytes-Trips b)
