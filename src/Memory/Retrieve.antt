-- ===== src/Memory/Retrieve.antt =====
-- crates/ntd-runtime/src/memory.rs: `retrieve`, `score_record` and `normalized_terms`.
use ntd.Prelude.{
  ℕ, suc, Bool, ◌||◌, ◌&&◌, not, ltb, ◌==◌, min, Text, List, [], ◌∷◌, map, filter, truncate,
  is_empty, Option, none, some, Result, ok, err, if◌then◌else◌, nat_ord, text_ord, Ord,
}
use ntd.Prelude.BTreeMap
use ntd.Prelude.BTreeMap.{BTreeMap}
use ntd.Prelude.BTreeSet
use ntd.Prelude.BTreeSet.{BTreeSet}
use ntd.Prelude.Format.{split_whitespace, trim_matches, to_ascii_lowercase}
use ntd.Prelude.Words.{saturating_add_u32, saturating_add_u64, saturating_mul_u64}
use ntd.Memory.{
  kind_tag, MemoryError, MemoryRecord, MemoryQuery, MemoryHit, SovereignMemory, overflow,
}

module _ {K : Type 0} ⦃o : Ord K⦄ where
  -- `iter().collect::<BTreeSet<_>>()`
  unfoldable pub collect : List K → BTreeSet K
  unfolding BTreeSet.insert
  collect [] = []
  collect (k ∷ ks) = BTreeSet.insert k (collect ks)

  -- `s.intersection(&t).count()`
  unfoldable pub common : BTreeSet K → BTreeSet K → ℕ
  unfolding BTreeSet.contains
  common [] t = 0
  common (k ∷ s) t = let rest = common s t in if BTreeSet.contains k t then suc rest else rest

-- Best score first, then the lower identifier.
abbrev pub ranks_before : ℕ × ℕ → ℕ × ℕ → Bool
ranks_before left right = ltb right.1 left.1 || (right.1 == left.1 && ltb left.0 right.0)

unfoldable pub insert_ranked : ℕ × ℕ → List (ℕ × ℕ) → List (ℕ × ℕ)
insert_ranked e [] = e ∷ []
insert_ranked e (f ∷ fs) =
    let later = insert_ranked e fs in if ranks_before f e then f ∷ later else e ∷ f ∷ fs

unfoldable pub sort_ranked : List (ℕ × ℕ) → List (ℕ × ℕ)
unfolding insert_ranked
sort_ranked [] = []
sort_ranked (e ∷ es) = insert_ranked e (sort_ranked es)

abbrev pub recalled : ℕ → MemoryRecord → MemoryRecord
recalled tick r = record r {
  last_recalled_tick = tick;
  recall_count = saturating_add_u32 r.recall_count 1;
}

abbrev pub with_hit :
    MemoryHit → Result MemoryError (List MemoryHit) → Result MemoryError (List MemoryHit)
with_hit h (ok hs) = ok (h ∷ hs)
with_hit h (err e) = err e

abbrev pub Recall : Type 0
Recall = BTreeMap ℕ MemoryRecord × Result MemoryError (List MemoryHit)

abbrev pub hit : ℕ → ℕ × ℕ → MemoryRecord → MemoryHit
hit tick (id, score) r = record { id = id; score = score; stored = recalled tick r }

-- The loop over the ranked records, which marks each as recalled.
unfoldable pub recall : ℕ → List (ℕ × ℕ) → BTreeMap ℕ MemoryRecord → Recall
unfolding BTreeMap.get BTreeMap.replace
recall tick [] records = (records, ok [])
recall tick (e ∷ rest) records = elim (BTreeMap.get e.0 records) [
  | none ↦ (records, err overflow)
  | some r ↦
      let later = recall tick rest (BTreeMap.replace e.0 (recalled tick r) records) in
      (later.0, with_hit (hit tick e r) later.1)
]

abbrev pub push_scored : ℕ → Option ℕ → List (ℕ × ℕ) → List (ℕ × ℕ)
push_scored id none rest = rest
push_scored id (some score) rest = (id, score) ∷ rest

-- `char::is_alphanumeric` reads Unicode's tables: it is a parameter.
module _ (is_alphanumeric : ℕ → Bool) where
  unfoldable pub normalized_terms : Text → BTreeSet Text
  unfolding collect split_whitespace trim_matches to_ascii_lowercase
  normalized_terms text = collect (
      filter (λ term. not (is_empty term))
        (map (λ term. to_ascii_lowercase (trim_matches (λ ch. not (is_alphanumeric ch)) term))
          (split_whitespace text)))

  unfoldable pub score_record : MemoryRecord → BTreeSet Text → BTreeSet Text → Option ℕ
  unfolding normalized_terms common collect to_ascii_lowercase
  score_record r query_terms query_tags =
      let term_matches = common query_terms (normalized_terms r.content) in
      let tag_matches = common query_tags (collect (map to_ascii_lowercase r.tags)) in
      if (not (is_empty query_terms) || not (is_empty query_tags))
        && term_matches == 0
        && tag_matches == 0
      then none
      else some (
          saturating_add_u64
            (saturating_add_u64
              (saturating_add_u64 (saturating_mul_u64 term_matches 1000)
                (saturating_mul_u64 tag_matches 500))
              r.importance)
            (min r.recall_count 100))

  -- The records of the wanted kinds that score, with their scores.
  unfoldable pub scored :
      BTreeSet ℕ → BTreeSet Text → BTreeSet Text → BTreeMap ℕ MemoryRecord → List (ℕ × ℕ)
  unfolding score_record BTreeSet.contains
  scored kinds terms tags [] = []
  scored kinds terms tags ((key, r) ∷ rest) =
      let later = scored kinds terms tags rest in
      if is_empty kinds || BTreeSet.contains (kind_tag r.kind) kinds
      then push_scored r.id (score_record r terms tags) later
      else later

  unfoldable pub candidates : MemoryQuery → SovereignMemory → List (ℕ × ℕ)
  unfolding normalized_terms collect to_ascii_lowercase scored
  candidates query m =
      scored (collect (map kind_tag query.kinds)) (normalized_terms query.text)
        (collect (map to_ascii_lowercase query.tags)) m.records

  -- The records to recall, best first.
  unfoldable pub ranked : MemoryQuery → SovereignMemory → List (ℕ × ℕ)
  unfolding candidates sort_ranked
  ranked query m = truncate query.limit (sort_ranked (candidates query m))

  unfoldable pub retrieve :
      MemoryQuery → ℕ → SovereignMemory → SovereignMemory × Result MemoryError (List MemoryHit)
  unfolding ranked recall
  retrieve query tick m =
      if query.limit == 0
      then (m, ok [])
      else (let r = recall tick (ranked query m) m.records in (record m { records = r.0 }, r.1))
