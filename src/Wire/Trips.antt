-- ===== src/Wire/Trips.antt =====
-- What a writer writes, the reader reads back: `Trips e d a` says that `d` reads `a` from whatever
-- `e` writes, and leaves the cursor behind it.
use ntd.Prelude.{
  ℕ, ◌+◌, ◌≤◌, ◌≡◌, Bool, false, refl, sym, ap, ◌∙◌, ◌++◌, append_assoc, length, length-append, ok,
  err, ok-injective, subst, arith,
}
use ntd.Prelude.Utf8.{Bytes}
use ntd.Prelude.Words.{usize_max}
use ntd.Wire.Cursor.{Cursor, Decoder, ◌>>=◌, ◌>>◌, pure, check}
use ntd.Wire.Push.{Encoder, ◌⧺◌, done}

abbrev pub at : ℕ → Bytes → Cursor
at o bs = record { offset = o; rest = bs }

pub record Reads {E A : Type 0} (d : Decoder E A) (a : A) (bs : Bytes) : Type 0 where
  pub reads :
      (o : ℕ) (rest : Bytes)
      → o + length bs ≤ usize_max
      → d (at o (bs ++ rest)) ≡ ok (a, at (o + length bs) rest)

pub record Trips {E A : Type 0} (e : Encoder E) (d : Decoder E A) (a : A) : Type 0 where
  pub trips : (bs : Bytes) → e ≡ ok bs → Reads d a bs

pub ⧺-eq-ok :
    {E : Type 0} (e f : Encoder E) {bs : Bytes}
    → e ⧺ f ≡ ok bs
    → (xs : Bytes) × (ys : Bytes) × (e ≡ ok xs) × (f ≡ ok ys) × (bs ≡ xs ++ ys)
unfolding ◌⧺◌
⧺-eq-ok (err x) f h = cc
⧺-eq-ok (ok xs) (err x) h = cc
⧺-eq-ok (ok xs) (ok ys) h = (xs, ys, refl, refl, sym (ok-injective h))

module _ {E A B : Type 0} where
  >>=-Reads :
      (d : Decoder E A) (k : A → Decoder E B) {a : A} {b : B} (xs ys : Bytes)
      → Reads d a xs
      → Reads (k a) b ys
      → Reads (d >>= k) b (xs ++ ys)
  unfolding ◌>>=◌
  >>=-Reads d k {a} {b} xs ys r s = record {
    reads = λ o rest fits.
        let e = length-append xs ys in
        rw (append_assoc xs ys rest, ◌>>=◌, r.reads o (ys ++ rest) (omega (arith, e, fits)))
          (s.reads (o + length xs) rest (omega (arith, e, fits))
            ∙ ap (λ n. ok (b, at n rest)) (omega (arith, e)));
  }

  pub ⧺->>= :
      {e f : Encoder E} {d : Decoder E A} (k : A → Decoder E B) {a : A} {b : B}
      → Trips e d a
      → Trips f (k a) b
      → Trips (e ⧺ f) (d >>= k) b
  ⧺->>= {e} {f} {d} k {a} {b} s t = record {
    trips = λ bs h.
        let (xs, ys, e₁, e₂, split) = ⧺-eq-ok e f h in
        subst (λ zs. Reads (d >>= k) b zs) (sym split)
          (>>=-Reads d k xs ys (s.trips xs e₁) (t.trips ys e₂));
  }

  -- A last step that reads nothing more.
  pub last-Trips :
      {e : Encoder E} {d : Decoder E A} (k : A → Decoder E B) {a : A} {b : B}
      → Trips e d a
      → ((c : Cursor) → k a c ≡ ok (b, c))
      → Trips e (d >>= k) b
  unfolding ◌>>=◌
  last-Trips {e} {d} k {a} {b} t same = record {
    trips = λ bs h. record {
      reads = λ o rest fits.
          rw (◌>>=◌, (t.trips bs h).reads o rest fits) (same (at (o + length bs) rest));
    };
  }

  pub map-Trips :
      {e : Encoder E} {d : Decoder E A} (f : A → B) {a : A}
      → Trips e d a
      → Trips e (d >>= λ x. pure (f x)) (f a)
  unfolding pure
  map-Trips f t = last-Trips _ t (λ c. refl)

-- A check that passes.
pub check-Trips :
    {E A : Type 0} {e : Encoder E} {d : Decoder E A} (b : Bool) (x : E) {a : A}
    → b ≡ false
    → Trips e d a
    → Trips e (check b x >> d) a
unfolding ◌>>◌ ◌>>=◌ check
check-Trips b x h t = record {
  trips = λ bs k. record {
    reads = λ o rest fits. rw (◌>>◌, ◌>>=◌, check, h) ((t.trips bs k).reads o rest fits);
  };
}

pub done-pure : {E A : Type 0} {a : A} → Trips {E = E} done (pure a) a
unfolding done pure
done-pure {E} {A} {a} = record {
  trips = λ bs h.
      subst (λ zs. Reads {E = E} (pure a) a zs) (ok-injective h)
        (record { reads = λ o rest fits. ap (λ n. ok (a, at n rest)) (omega arith) });
}
