-- ===== src/Memory/Recall.antt =====
-- crates/ntd-runtime/src/memory.rs: `retrieve` answers every query, in order of rank.
use ntd.Prelude.{
  ℕ, zero, suc, ◌≤◌, ◌≡◌, refl, sym, ap, subst, Bool, true, false, ◌||◌, ◌==◌, ==_iff, List, [],
  ◌∷◌, map, truncate, length, Option, none, some, is_some, All, ok, arith, inl, inr, Bool-cases,
  Option-cases, nat_ord, text_ord, is_empty,
}
use ntd.Prelude.BTreeMap
use ntd.Prelude.BTreeMap.{
  BTreeMap, Sorted, All-replace, All-get, replace-Sorted, Below-replace, get-replace_some,
}
use ntd.Prelude.BTreeSet
use ntd.Prelude.BTreeSet.{BTreeSet}
use ntd.Prelude.Format.{to_ascii_lowercase}
use ntd.Memory.{kind_tag, MemoryRecord, MemoryQuery, MemoryHit, SovereignMemory}
use ntd.Memory.Laws.{WellFormed, IsMemory}
use ntd.Memory.Retrieve.{
  recalled, recall, retrieve, ranked, candidates, collect, normalized_terms, scored, score_record,
  push_scored, sort_ranked, insert_ranked, ranks_before, hit,
}

abbrev pub Present : BTreeMap ℕ MemoryRecord → ℕ × ℕ → Type 0
Present m e = is_some (BTreeMap.get e.0 m) ≡ true

-- No entry ranks before the one in front of it.
abbrev pub BestFirst : List (ℕ × ℕ) → Type 0
BestFirst [] = Unit
BestFirst (e ∷ es) = All (λ f. ranks_before f e ≡ false) es × BestFirst es

abbrev pub entry : MemoryHit → ℕ × ℕ
entry h = (h.id, h.score)

module _ (P : ℕ × ℕ → Type 0) where
  All-insert_ranked : (e : ℕ × ℕ) (es : List (ℕ × ℕ)) → P e → All P es → All P (insert_ranked e es)
  unfolding insert_ranked
  All-insert_ranked e [] p h = (p, tt)
  All-insert_ranked e (f ∷ fs) p h = elim (Bool-cases (ranks_before f e)) [
    | inl k ↦ rw k (h.0, All-insert_ranked e fs p h.1)
    | inr k ↦ rw k (p, h)
  ]

  All-sort_ranked : (es : List (ℕ × ℕ)) → All P es → All P (sort_ranked es)
  unfolding sort_ranked
  All-sort_ranked [] h = tt
  All-sort_ranked (e ∷ es) h = All-insert_ranked e (sort_ranked es) h.0 (All-sort_ranked es h.1)

  All-truncate : (n : ℕ) (es : List (ℕ × ℕ)) → All P es → All P (truncate n es)
  All-truncate zero es h = tt
  All-truncate (suc n) [] h = tt
  All-truncate (suc n) (e ∷ es) h = (h.0, All-truncate n es h.1)

length-truncate : (n : ℕ) (es : List (ℕ × ℕ)) → length (truncate n es) ≤ n
length-truncate zero es = omega arith
length-truncate (suc n) [] = omega arith
length-truncate (suc n) (e ∷ es) = omega (arith, length-truncate n es)

truncate-BestFirst : (n : ℕ) (es : List (ℕ × ℕ)) → BestFirst es → BestFirst (truncate n es)
truncate-BestFirst zero es h = tt
truncate-BestFirst (suc n) [] h = tt
truncate-BestFirst (suc n) (e ∷ es) h =
    (All-truncate (λ f. ranks_before f e ≡ false) n es h.0, truncate-BestFirst n es h.1)

ranks_asym : (e f : ℕ × ℕ) → ranks_before e f ≡ true → ranks_before f e ≡ false
ranks_asym (i, a) (j, b) h = ground arith

ranks_trans :
    (d e f : ℕ × ℕ) → ranks_before d e ≡ false → ranks_before e f ≡ false → ranks_before d f ≡ false
ranks_trans (h, a) (i, b) (j, c) k l = ground arith

outranks_rest :
    (e f : ℕ × ℕ) (fs : List (ℕ × ℕ))
    → ranks_before f e ≡ false
    → All (λ g. ranks_before g f ≡ false) fs
    → All (λ g. ranks_before g e ≡ false) fs
outranks_rest e f [] k h = tt
outranks_rest e f (g ∷ gs) k h = (ranks_trans g f e h.0 k, outranks_rest e f gs k h.1)

insert_ranked-BestFirst :
    (e : ℕ × ℕ) (es : List (ℕ × ℕ)) → BestFirst es → BestFirst (insert_ranked e es)
unfolding insert_ranked
insert_ranked-BestFirst e [] h = (tt, tt)
insert_ranked-BestFirst e (f ∷ fs) h = elim (Bool-cases (ranks_before f e)) [
  | inl k ↦ rw k (
    All-insert_ranked (λ g. ranks_before g f ≡ false) e fs (ranks_asym f e k) h.0,
    insert_ranked-BestFirst e fs h.1,
  )
  | inr k ↦ rw k ((k, outranks_rest e f fs k h.0), h)
]

sort_ranked-BestFirst : (es : List (ℕ × ℕ)) → BestFirst (sort_ranked es)
unfolding sort_ranked
sort_ranked-BestFirst [] = tt
sort_ranked-BestFirst (e ∷ es) =
    insert_ranked-BestFirst e (sort_ranked es) (sort_ranked-BestFirst es)

-- A record that was recalled is as well-formed as before, and no key is lost.
recalled-IsMemory :
    (tick id : ℕ) (r : MemoryRecord) (m : SovereignMemory)
    → BTreeMap.get id m.records ≡ some r
    → IsMemory m
    → IsMemory (record m { records = BTreeMap.replace id (recalled tick r) m.records })
recalled-IsMemory tick id r m found h = record {
  positive = h.positive;
  sorted = replace-Sorted id (recalled tick r) m.records h.sorted;
  below = Below-replace m.next_id id (recalled tick r) m.records h.below;
  records =
      All-replace WellFormed id (recalled tick r) m.records
        (λ j e.
          subst (λ i. WellFormed (i, recalled tick r)) ((==_iff id j).0 e)
            (All-get WellFormed id m.records h.records found))
        h.records;
}

recall-IsMemory :
    (tick : ℕ) (es : List (ℕ × ℕ)) (m : SovereignMemory)
    → IsMemory m
    → IsMemory (record m { records = (recall tick es m.records).0 })
unfolding recall
recall-IsMemory tick [] m h = h
recall-IsMemory tick (e ∷ es) m h = elim (Option-cases (BTreeMap.get e.0 m.records)) [
  | inl k ↦ rw (recall, k) h
  | inr (r, k) ↦
      rw (recall, k)
        (recall-IsMemory tick es
          (record m { records = BTreeMap.replace e.0 (recalled tick r) m.records })
          (recalled-IsMemory tick e.0 r m k h))
]

-- What a recall of present records answers.
pub record Answered (tick : ℕ) (es : List (ℕ × ℕ)) (m : BTreeMap ℕ MemoryRecord) : Type 0 where
  pub hits : List MemoryHit
  pub answer : (recall tick es m).1 ≡ ok hits
  pub entries : map entry hits ≡ es

replace-Present :
    (id : ℕ) (r : MemoryRecord) (es : List (ℕ × ℕ)) (m : BTreeMap ℕ MemoryRecord)
    → All (Present m) es
    → All (Present (BTreeMap.replace id r m)) es
replace-Present id r [] m h = tt
replace-Present id r (e ∷ es) m h = (get-replace_some id e.0 r m h.0, replace-Present id r es m h.1)

recall_answers :
    (tick : ℕ) (es : List (ℕ × ℕ)) (m : BTreeMap ℕ MemoryRecord)
    → All (Present m) es
    → Answered tick es m
unfolding recall
recall_answers tick [] m h = record { hits = []; answer = refl; entries = refl }
recall_answers tick (e ∷ es) m h = elim (Option-cases (BTreeMap.get e.0 m)) [
  | inl k ↦ let p = h.0 in let q = rw k at p in cc
  | inr (r, k) ↦
      let later =
        recall_answers tick es (BTreeMap.replace e.0 (recalled tick r) m)
          (replace-Present e.0 (recalled tick r) es m h.1) in
      record {
        hits = hit tick e r ∷ later.hits;
        answer = rw (recall, k, later.answer) refl;
        entries = ap (λ fs. e ∷ fs) later.entries;
      }
]

cons-Present :
    (k : ℕ) (r : MemoryRecord) (es : List (ℕ × ℕ)) (m : BTreeMap ℕ MemoryRecord)
    → All (Present m) es
    → All (Present ((k, r) ∷ m)) es
unfolding BTreeMap.get
cons-Present k r [] m h = tt
cons-Present k r (e ∷ es) m h = (let p = h.0 in ground arith, cons-Present k r es m h.1)

own_key : (k : ℕ) (r : MemoryRecord) → WellFormed (k, r) → (r.id == k) ≡ true
own_key k r h = ground arith

push-Present :
    (m : BTreeMap ℕ MemoryRecord) (id : ℕ) (o : Option ℕ) (es : List (ℕ × ℕ))
    → is_some (BTreeMap.get id m) ≡ true
    → All (Present m) es
    → All (Present m) (push_scored id o es)
push-Present m id none es p h = h
push-Present m id (some score) es p h = (p, h)

module _ (is_alphanumeric : ℕ → Bool) where
  scored-Present :
      (kinds : BTreeSet ℕ) (terms tags : BTreeSet (List ℕ)) (m : BTreeMap ℕ MemoryRecord)
      → All WellFormed m
      → All (Present m) (scored is_alphanumeric kinds terms tags m)
  unfolding scored BTreeMap.get
  scored-Present kinds terms tags [] h = tt
  scored-Present kinds terms tags ((k, r) ∷ m) h =
      let later = cons-Present k r _ m (scored-Present kinds terms tags m h.1) in
      let here : is_some (BTreeMap.get r.id ((k, r) ∷ m)) ≡ true =
        rw (BTreeMap.get, own_key k r h.0) refl in
      elim (Bool-cases (is_empty kinds || BTreeSet.contains (kind_tag r.kind) kinds)) [
        | inl e ↦ rw e (
            push-Present ((k, r) ∷ m) r.id (score_record is_alphanumeric r terms tags) _ here later)
        | inr e ↦ rw e later
      ]

  candidates-Present :
      (query : MemoryQuery) (m : SovereignMemory)
      → IsMemory m
      → All (Present m.records) (candidates is_alphanumeric query m)
  unfolding candidates
  candidates-Present query m h =
      scored-Present (collect (map kind_tag query.kinds))
        (normalized_terms is_alphanumeric query.text) (collect (map to_ascii_lowercase query.tags))
        m.records h.records

  pub retrieve-IsMemory :
      (query : MemoryQuery) (tick : ℕ) (m : SovereignMemory)
      → IsMemory m
      → IsMemory (retrieve is_alphanumeric query tick m).0
  unfolding retrieve
  retrieve-IsMemory query tick m h = elim (Bool-cases (query.limit == 0)) [
    | inl e ↦ rw e h
    | inr e ↦ rw e (recall-IsMemory tick (ranked is_alphanumeric query m) m h)
  ]

  -- A well-formed memory answers every query: the hits are at most as many as the query's limit,
  -- no hit outranks the one in front of it, and the memory stays well-formed.
  pub retrieve_answers :
      (query : MemoryQuery) (tick : ℕ) (m : SovereignMemory)
      → IsMemory m
      → (hits : List MemoryHit) × ((retrieve is_alphanumeric query tick m).1 ≡ ok hits)
        × (length (map entry hits) ≤ query.limit)
        × BestFirst (map entry hits)
        × IsMemory (retrieve is_alphanumeric query tick m).0
  unfolding retrieve ranked
  retrieve_answers query tick m h = elim (Bool-cases (query.limit == 0)) [
    | inl e ↦ ([], rw (retrieve, e) refl, omega arith, tt, retrieve-IsMemory query tick m h)
    | inr e ↦
        let found = candidates is_alphanumeric query m in
        let a = recall_answers tick (truncate query.limit (sort_ranked found)) m.records (
          All-truncate (Present m.records) query.limit (sort_ranked found)
            (All-sort_ranked (Present m.records) found (candidates-Present query m h))) in
        (
          a.hits,
          rw (retrieve, e) a.answer,
          subst (λ (es : List (ℕ × ℕ)). length es ≤ query.limit) (sym a.entries)
              (length-truncate query.limit (sort_ranked found)),
          subst BestFirst (sym a.entries)
              (truncate-BestFirst query.limit (sort_ranked found) (sort_ranked-BestFirst found)),
          retrieve-IsMemory query tick m h,
        )
  ]
