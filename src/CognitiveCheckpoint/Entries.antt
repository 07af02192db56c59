-- ===== src/CognitiveCheckpoint/Entries.antt =====
-- crates/ntd-runtime/src/checkpoint.rs: the loops over maps whose keys are identifiers.
use ntd.Prelude.{
  ℕ, ◌<◌, ◌≡◌, refl, sym, true, false, ◌||◌, leb, ltb, ◌==◌, [], ◌∷◌, All, arith, nat_ord,
}
use ntd.Prelude.BTreeMap.{BTreeMap, Sorted, keys}
use ntd.Wire.Cursor.{Decoder, ◌>>=◌, ◌>>◌, check, pure}
use ntd.Wire.Push.{Encoder}
use ntd.Wire.Trips.{Trips, last-Trips}
use ntd.Wire.Maps.{EntriesTrip}
use ntd.CognitiveCheckpoint.Format.{CheckpointError, non_canonical_encoding}

abbrev pub own_id : ℕ → ℕ
own_id id = id

module _ {V : Type 0} (id_of : V → ℕ) (decode : Decoder CheckpointError V) where
  -- `ensure_increasing` behind each value.
  unfoldable pub read_entry : ℕ → Decoder CheckpointError (ℕ × V)
  unfolding ◌>>=◌ ◌>>◌ check pure
  read_entry previous = do
    v ← decode
    check (id_of v == 0 || leb (id_of v) previous) non_canonical_encoding
    pure (id_of v, v)

module _ {V : Type 0} (encode : V → Encoder CheckpointError) where
  abbrev pub push_entry : ℕ × V → Encoder CheckpointError
  push_entry (key, v) = encode v

module _ {V : Type 0} (id_of : V → ℕ) (encode : V → Encoder CheckpointError)
    (decode : Decoder CheckpointError V) where
  -- A value under its own identifier, which is not 0, and which is read back.
  pub record EntryTrips (kv : ℕ × V) : Type 0 where
    pub keyed : kv.0 ≡ id_of kv.1
    pub positive : 0 < kv.0
    pub trips : Trips (encode kv.1) decode kv.1

  fresh :
      (previous : ℕ) (kv : ℕ × V)
      → ltb previous kv.0 ≡ true
      → EntryTrips kv
      → (id_of kv.1 == 0 || leb (id_of kv.1) previous) ≡ false
  fresh previous kv e h = let k = h.keyed in let p = h.positive in ground (arith, e)

  push_entry-Trips :
      (previous : ℕ) (kv : ℕ × V)
      → ltb previous kv.0 ≡ true
      → EntryTrips kv
      → Trips (push_entry encode kv) (read_entry id_of decode previous) kv
  unfolding read_entry check pure ◌>>◌ ◌>>=◌
  push_entry-Trips previous kv e h =
      last-Trips
        (λ v.
          check (id_of v == 0 || leb (id_of v) previous) non_canonical_encoding
          >> pure (id_of v, v))
        h.trips (λ c. rw (fresh previous kv e h, sym h.keyed) refl)

  rest_trip :
      (previous : ℕ) (m : BTreeMap ℕ V)
      → All (λ k. ltb previous k ≡ true) (keys m)
      → Sorted m
      → All EntryTrips m
      → EntriesTrip non_canonical_encoding own_id
          (push_entry encode)
          (read_entry id_of decode)
          previous
          m
  rest_trip previous [] b s h = tt
  rest_trip previous (kv ∷ m) b s h =
      (push_entry-Trips previous kv b.0 h.0, rest_trip kv.0 m s.0 s.1 h.1)

  keys_positive : (m : BTreeMap ℕ V) → All EntryTrips m → All (λ k. ltb 0 k ≡ true) (keys m)
  keys_positive [] h = tt
  keys_positive ((k, p) ∷ m) h = (let e = h.0.positive in ground arith, keys_positive m h.1)

  pub entries_trip :
      (m : BTreeMap ℕ V)
      → Sorted m
      → All EntryTrips m
      → EntriesTrip non_canonical_encoding own_id (push_entry encode) (read_entry id_of decode) 0 m
  entries_trip m s h = rest_trip 0 m (keys_positive m h) s h
