-- ===== src/Wire/Maps.antt =====
-- crates/ntd-runtime/src/action_checkpoint.rs: the loops that read a map whose keys have to ascend.
-- `entry` reads one key and its value and compares the key with the previous one.
use ntd.Prelude.{
  ℕ, zero, suc, ◌≡◌, refl, sym, ap, true, is_some, [], ◌∷◌, ◌++◌, append_assoc, append-nil, length,
  subst, All, none, Ord, lt-ne, lt_asym,
}
use ntd.Prelude.BTreeMap.{BTreeMap, keys, get, insert, Sorted}
use ntd.Wire.Cursor.{Decoder, ◌>>=◌, ◌>>◌, pure, check}
use ntd.Wire.Push.{Encoder, push_all}
use ntd.Wire.Trips.{Trips, ⧺->>=, check-Trips, done-pure}

module _ {E K V P : Type 0} ⦃o : Ord K⦄ (non_canonical : E) (next : K → P)
    (entry : P → Decoder E (K × V)) where
  -- `previous = Some(key)`, then `if map.insert(key, value).is_some() { return Err(..) }`.
  unfoldable pub read_map : ℕ → P → BTreeMap K V → Decoder E (BTreeMap K V)
  unfolding ◌>>=◌ ◌>>◌ pure check get insert
  read_map zero previous m = pure m
  read_map (suc n) previous m = do
    kv ← entry previous
    check (is_some (get kv.0 m)) non_canonical
    read_map n (next kv.0) (insert kv.0 kv.1 m)

-- A key above all others is new, and is inserted behind them.
module _ {K V : Type 0} ⦃o : Ord K⦄ where
  Sorted-lt :
      (m : BTreeMap K V) (k j : K) (v : V) (rest : BTreeMap K V)
      → All (λ i. o.lt j i ≡ true) (keys (m ++ (k, v) ∷ rest))
      → o.lt j k ≡ true
  Sorted-lt [] k j v rest h = h.0
  Sorted-lt (e ∷ m) k j v rest h = Sorted-lt m k j v rest h.1

  pub get_above :
      (m : BTreeMap K V) (k : K) (v : V) (rest : BTreeMap K V)
      → Sorted (m ++ (k, v) ∷ rest)
      → get k m ≡ none
  unfolding get
  get_above [] k v rest s = refl
  get_above ((j, w) ∷ m) k v rest s =
      rw (lt-ne j k (Sorted-lt m k j v rest s.0)) (get_above m k v rest s.1)

  pub insert_above :
      (m : BTreeMap K V) (k : K) (v : V) (rest : BTreeMap K V)
      → Sorted (m ++ (k, v) ∷ rest)
      → insert k v m ≡ m ++ (k, v) ∷ []
  unfolding insert
  insert_above [] k v rest s = refl
  insert_above ((j, w) ∷ m) k v rest s =
      let l = Sorted-lt m k j v rest s.0 in
      rw (lt-ne j k l, lt_asym j k l) (ap (λ r. (j, w) ∷ r) (insert_above m k v rest s.1))

module _ {E K V P : Type 0} ⦃o : Ord K⦄ (non_canonical : E) (next : K → P)
    (push : K × V → Encoder E) (entry : P → Decoder E (K × V)) where
  -- Each entry is read back after the key that precedes it.
  abbrev pub EntriesTrip : P → BTreeMap K V → Type 0
  EntriesTrip previous [] = Unit
  EntriesTrip previous (kv ∷ m) = Trips (push kv) (entry previous) kv × EntriesTrip (next kv.0) m

  push_all-read_map :
      (previous : P) (read rest : BTreeMap K V)
      → Sorted (read ++ rest)
      → EntriesTrip previous rest
      → Trips
          (push_all push rest)
          (read_map non_canonical next entry (length rest) previous read)
          (read ++ rest)
  unfolding read_map push_all
  push_all-read_map previous read [] s h = rw (append-nil read) done-pure
  push_all-read_map previous read ((k, v) ∷ m) s h = ⧺->>= _ h.0 (
      check-Trips (is_some (get k read)) non_canonical (rw (get_above read k v m s) refl) (
        rw (insert_above read k v m s) (
          subst
            (λ r.
              Trips (push_all push m)
                (read_map non_canonical next entry (length m) (next k) (read ++ (k, v) ∷ [])) r)
            (append_assoc read ((k, v) ∷ []) m)
            (push_all-read_map (next k) (read ++ (k, v) ∷ []) m
              (subst Sorted (sym (append_assoc read ((k, v) ∷ []) m)) s) h.1))))

  -- A map is read back whole.
  pub read_map-Trips :
      (previous : P) (m : BTreeMap K V)
      → Sorted m
      → EntriesTrip previous m
      → Trips (push_all push m) (read_map non_canonical next entry (length m) previous []) m
  read_map-Trips previous m s h = push_all-read_map previous [] m s h
