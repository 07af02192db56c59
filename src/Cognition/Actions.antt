-- ===== src/Cognition/Actions.antt =====
-- Methods that change a state and may fail: `?` keeps the changes made so far. `Ensures P m Q R` says
-- that `m` started in `P` ends in `Q` if it succeeds and in `R` if it fails.
use ntd.Prelude.{◌≡◌, refl, Bool, true, false, Result, ok, err}

abbrev pub Action : Type 0 → Type 0 → Type 0 → Type 0
Action S E A = S → S × Result E A

module _ {S E A : Type 0} where
  unfoldable pub pure : A → Action S E A
  pure a s = (s, ok a)

  unfoldable pub fail : E → Action S E A
  fail e s = (s, err e)

  -- `if refused { return Err(e); }` comes first.
  unfoldable pub unless : Bool → E → Action S E A → Action S E A
  unless true e m s = (s, err e)
  unless false e m s = m s

module _ {S E A B : Type 0} where
  abbrev pub after : (A → Action S E B) → S × Result E A → S × Result E B
  after k (s, ok a) = k a s
  after k (s, err e) = (s, err e)

  infixl 5 ◌>>=◌
  unfoldable pub ◌>>=◌ : Action S E A → (A → Action S E B) → Action S E B
  (m >>= k) s = after k (m s)

module _ {S E B : Type 0} where
  infixl 5 ◌>>◌
  unfoldable pub ◌>>◌ : Action S E (Unit {0}) → Action S E B → Action S E B
  unfolding ◌>>=◌
  m >> k = m >>= λ _. k

module _ {S E A : Type 0} where
  abbrev pub EndsIn : (A → S → Type 0) → (S → Type 0) → S × Result E A → Type 0
  EndsIn Q R (s, ok a) = Q a s
  EndsIn Q R (s, err e) = R s

  pub record Ensures (P : S → Type 0) (m : Action S E A) (Q : A → S → Type 0) (R : S → Type 0)
      : Type 0 where
    pub ends : (s : S) → P s → EndsIn Q R (m s)

  -- Whether it succeeds or fails.
  abbrev pub Keeps : (S → Type 0) → Action S E A → Type 0
  Keeps P m = Ensures P m (λ _. P) P

module _ {S E A : Type 0} (P : S → Type 0) where
  -- Where both ends are in `P`, so is the state that is left.
  pub Ends-in : (r : S × Result E A) → EndsIn (λ _. P) P r → P r.0
  Ends-in (s, ok a) h = h
  Ends-in (s, err e) h = h

  pub Keeps-state : (m : Action S E A) (s : S) → Keeps P m → P s → P (m s).0
  Keeps-state m s t p = Ends-in (m s) (t.ends s p)

module _ {S E A B : Type 0} {R : S → Type 0} {Q : A → S → Type 0} {T : B → S → Type 0} where
  after-EndsIn :
      (k : A → Action S E B) (r : S × Result E A)
      → ((a : A) → Ensures (Q a) (k a) T R)
      → EndsIn Q R r
      → EndsIn T R (after k r)
  after-EndsIn k (s, ok a) t h = (t a).ends s h
  after-EndsIn k (s, err e) t h = h

module _ {S E A B : Type 0} {P R : S → Type 0} {Q : A → S → Type 0} {T : B → S → Type 0} where
  pub >>=-Ensures :
      {m : Action S E A} (k : A → Action S E B)
      → Ensures P m Q R
      → ((a : A) → Ensures (Q a) (k a) T R)
      → Ensures P (m >>= k) T R
  unfolding ◌>>=◌
  >>=-Ensures {m} k t u = record { ends = λ s p. after-EndsIn k (m s) u (t.ends s p) }

module _ {S E B : Type 0} {P Q R : S → Type 0} {T : B → S → Type 0} where
  pub >>-Ensures :
      {m : Action S E (Unit {0})} {k : Action S E B}
      → Ensures P m (λ _. Q) R
      → Ensures Q k T R
      → Ensures P (m >> k) T R
  unfolding ◌>>◌
  >>-Ensures {k = k} t u = >>=-Ensures (λ _. k) t (λ _. u)

module _ {S E A : Type 0} {P R : S → Type 0} {Q : A → S → Type 0} where
  pub pure-Ensures : (a : A) → ((s : S) → P s → Q a s) → Ensures {E = E} P (pure a) Q R
  unfolding pure
  pure-Ensures a h = record { ends = h }

  pub fail-Ensures : (e : E) → ((s : S) → P s → R s) → Ensures {A = A} P (fail e) Q R
  unfolding fail
  fail-Ensures e h = record { ends = h }

  pub unless-Ensures :
      (b : Bool) (e : E) {m : Action S E A}
      → ((s : S) → P s → R s)
      → (b ≡ false → Ensures P m Q R)
      → Ensures P (unless b e m) Q R
  unfolding unless
  unless-Ensures true e h t = record { ends = h }
  unless-Ensures false e {m} h t = record { ends = λ s p. (t refl).ends s p }

module _ {S E A : Type 0} (R : S → Type 0) (Q T : A → S → Type 0) where
  weaker_end :
      ((a : A) (s : S) → Q a s → T a s) → (r : S × Result E A) → EndsIn Q R r → EndsIn T R r
  weaker_end f (s, ok a) h = f a s h
  weaker_end f (s, err e) h = h

pub weaken :
    {S E A : Type 0} {P R : S → Type 0} {Q T : A → S → Type 0} {m : Action S E A}
    → ((a : A) (s : S) → Q a s → T a s)
    → Ensures P m Q R
    → Ensures P m T R
weaken {R = R} {Q = Q} {T = T} {m = m} f t = record {
  ends = λ s p. weaker_end R Q T f (m s) (t.ends s p);
}
