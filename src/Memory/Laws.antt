-- ===== src/Memory/Laws.antt =====
-- crates/ntd-runtime/src/memory.rs: what every operation of the memory keeps.
use ntd.Prelude.{
  ℕ, ◌+◌, ◌<◌, ◌≤◌, ◌≡◌, ◌↔◌, refl, sym, true, false, ltb, ◌==◌, Text, is_blank, List, [], ◌∷◌,
  Option, none, some, All, ok, arith, inl, inr, Bool-cases, refuse-eq-ok, ok-injective, nat_ord,
  text_ord, >>-eq-ok,
}
use ntd.Prelude.BTreeMap
use ntd.Prelude.BTreeMap.{
  BTreeMap, Sorted, Below, All-insert, All-replace, All-remove, remove-Sorted, replace-Sorted,
  Below-replace, Below-remove, Below-insert_next, insert-Sorted_next, Below-last_key, Sorted-Below,
}
use ntd.Prelude.Sorting.{ascends, dedup-sort-ascends}
use ntd.Prelude.Words.{checked_add_u64, u64_max}
use ntd.Memory.{MemoryKind, MemoryRecord, SovereignMemory, memory_new}
use ntd.Memory.Store.{malformed, check_records, reaches, from_parts, insert_record, store, forget}

-- A record stands under its own identifier, which is not 0; it has a content, an importance of at
-- most 1000, and tags that ascend strictly.
abbrev pub WellFormed : ℕ × MemoryRecord → Type 0
WellFormed (id, r) =
    (0 < id)
    × (id ≡ r.id)
    × (is_blank r.content ≡ false)
    × (r.importance ≤ 1000)
    × (ascends r.tags ≡ true)

WellFormed-malformed : (id : ℕ) (r : MemoryRecord) → WellFormed (id, r) → malformed id r ≡ false
unfolding malformed
WellFormed-malformed id r h = ground arith

malformed-WellFormed : (id : ℕ) (r : MemoryRecord) → malformed id r ≡ false → WellFormed (id, r)
unfolding malformed
malformed-WellFormed id r h = (ground arith, ground arith, ground arith, ground arith, ground arith)

-- What a memory keeps: its keys ascend below the next identifier, and each record is well-formed.
pub record IsMemory (m : SovereignMemory) : Type 0 where
  pub positive : (m.next_id == 0) ≡ false
  pub sorted : Sorted m.records
  pub below : Below m.next_id m.records
  pub records : All WellFormed m.records

check_records-All : (m : BTreeMap ℕ MemoryRecord) → All WellFormed m → check_records m ≡ ok tt
unfolding check_records
check_records-All [] h = refl
check_records-All ((id, r) ∷ m) h = rw (WellFormed-malformed id r h.0) (check_records-All m h.1)

All-check_records : (m : BTreeMap ℕ MemoryRecord) → check_records m ≡ ok tt → All WellFormed m
unfolding check_records
All-check_records [] h = tt
All-check_records ((id, r) ∷ m) h =
    let (good, rest) = refuse-eq-ok _ _ _ h in
    (malformed-WellFormed id r good, All-check_records m rest)

Below-reaches : (n : ℕ) (o : Option ℕ) → ((k : ℕ) → o ≡ some k → k < n) → reaches n o ≡ false
Below-reaches n none h = refl
Below-reaches n (some k) h = let l = h k refl in ground arith

reaches-lt : (n : ℕ) (o : Option ℕ) → reaches n o ≡ false → (k : ℕ) → o ≡ some k → k < n
reaches-lt n none h k e = cc
reaches-lt n (some j) h k e = let s : j ≡ k = some_same e in ground (arith, s)
  where
    some_same : {j k : ℕ} → ◌≡◌ {A = Option ℕ} (some j) (some k) → j ≡ k
    some_same e = cc

-- `from_parts` accepts exactly the parts of a well-formed memory, and returns that memory unchanged:
-- the next identifier is not 0 and above all others, and each record is well-formed. The map ascends.
pub from_parts-IsMemory :
    (next_id : ℕ) (records : BTreeMap ℕ MemoryRecord)
    → Sorted records
    → let parts : SovereignMemory = record { next_id = next_id; records = records } in
      ((from_parts next_id records ≡ ok parts) ↔ IsMemory parts)
      × ((m : SovereignMemory) → from_parts next_id records ≡ ok m → m ≡ parts)
unfolding from_parts
from_parts-IsMemory next_id records s = ((λ e. (back _ e).1, there), λ m e. (back m e).0)
  where
    there :
        IsMemory (record { next_id = next_id; records = records })
        → from_parts next_id records ≡ ok (record { next_id = next_id; records = records })
    there h =
        let below =
          Below-reaches next_id (BTreeMap.last_key records)
            (λ k e. Below-last_key next_id records h.below e) in
        rw (h.positive, check_records-All records h.records) (rw below refl)

    back :
        (m : SovereignMemory)
        → from_parts next_id records ≡ ok m
        → (m ≡ record { next_id = next_id; records = records })
          × IsMemory (record { next_id = next_id; records = records })
    back m e =
        let (positive, e₁) = refuse-eq-ok _ _ _ e in
        let (good, e₂) = >>-eq-ok (check_records records) _ e₁ in
        let (below, e₃) = refuse-eq-ok _ _ _ e₂ in
        (
          sym (ok-injective e₃),
          record {
            positive = positive;
            sorted = s;
            below =
                Sorted-Below next_id records s
                  (reaches-lt next_id (BTreeMap.last_key records) below);
            records = All-check_records records good;
          },
        )

pub memory_new-IsMemory : IsMemory memory_new
memory_new-IsMemory = record { positive = refl; sorted = tt; below = tt; records = tt }

insert_record-IsMemory :
    (kind : MemoryKind) (content : Text) (tags : List Text) (importance tick : ℕ)
    (m : SovereignMemory)
    → is_blank content ≡ false
    → ltb 1000 importance ≡ false
    → IsMemory m
    → IsMemory (insert_record kind content tags importance tick m (checked_add_u64 m.next_id 1)).0
unfolding insert_record malformed
insert_record-IsMemory kind content tags importance tick m filled small h =
    elim (Bool-cases (ltb u64_max (m.next_id + 1))) [
      | inl e ↦ rw e h
      | inr e ↦ rw e (record {
        positive = ground arith;
        sorted = insert-Sorted_next m.next_id _ m.records h.below h.sorted;
        below = Below-insert_next m.next_id _ m.records h.below;
        records =
            All-insert WellFormed m.next_id _ m.records
              (
                let p = h.positive in ground arith,
                refl,
                filled,
                ground arith,
                dedup-sort-ascends tags,
              )
              h.records;
      })
    ]

-- `store` keeps a memory well-formed, whether it succeeds or fails.
pub store-IsMemory :
    (kind : MemoryKind) (content : Text) (tags : List Text) (importance tick : ℕ)
    (m : SovereignMemory)
    → IsMemory m
    → IsMemory (store kind content tags importance tick m).0
unfolding store
store-IsMemory kind content tags importance tick m h = elim (Bool-cases (is_blank content)) [
  | inl e ↦ rw e h
  | inr e ↦ elim (Bool-cases (ltb 1000 importance)) [
    | inl k ↦ rw (e, k) h
    | inr k ↦ rw (e, k) (insert_record-IsMemory kind content tags importance tick m e k h)
  ]
]

pub forget-IsMemory : (id : ℕ) (m : SovereignMemory) → IsMemory m → IsMemory (forget id m).0
unfolding forget
forget-IsMemory id m h = record {
  positive = h.positive;
  sorted = remove-Sorted id m.records h.sorted;
  below = Below-remove m.next_id id m.records h.below;
  records = All-remove WellFormed id m.records h.records;
}
