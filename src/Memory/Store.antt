-- ===== src/Memory/Store.antt =====
-- crates/ntd-runtime/src/memory.rs: `from_parts`, `store`, `get` and `forget`.
use ntd.Prelude.{
  ℕ, Bool, false, ◌||◌, not, ltb, leb, ◌==◌, Text, is_blank, List, [], ◌∷◌, Option, none, some,
  is_some, Result, ok, err, ◌>>◌, refuse, if◌then◌else◌, nat_ord, text_ord,
}
use ntd.Prelude.BTreeMap
use ntd.Prelude.BTreeMap.{BTreeMap}
use ntd.Prelude.Sorting.{sort, dedup, ascends}
use ntd.Prelude.Words.{checked_add_u64}
use ntd.Memory.{
  MemoryKind, MemoryError, MemoryRecord, SovereignMemory, empty_content, invalid_importance,
  overflow,
}

-- The check of one record under its key: is it refused?
unfoldable pub malformed : ℕ → MemoryRecord → Bool
unfolding ascends
malformed id r =
    id == 0
    || not (id == r.id)
    || is_blank r.content
    || ltb 1000 r.importance
    || not (ascends r.tags)

unfoldable pub check_records : BTreeMap ℕ MemoryRecord → Result MemoryError (Unit {0})
unfolding malformed
check_records [] = ok tt
check_records ((id, r) ∷ rest) = do refuse (malformed id r) overflow; check_records rest

abbrev pub reaches : ℕ → Option ℕ → Bool
reaches next none = false
reaches next (some id) = leb next id

unfoldable pub from_parts : ℕ → BTreeMap ℕ MemoryRecord → Result MemoryError SovereignMemory
unfolding check_records
from_parts next_id records = do
  refuse (next_id == 0) overflow
  check_records records
  refuse (reaches next_id (BTreeMap.last_key records)) overflow
  ok (record { next_id = next_id; records = records })

abbrev pub memory_record : ℕ → MemoryKind → Text → List Text → ℕ → ℕ → MemoryRecord
memory_record id kind content tags importance tick = record {
  id = id;
  kind = kind;
  content = content;
  tags = tags;
  importance = importance;
  created_tick = tick;
  last_recalled_tick = tick;
  recall_count = 0;
}

unfoldable pub insert_record :
    MemoryKind
    → Text
    → List Text
    → ℕ
    → ℕ
    → SovereignMemory
    → Option ℕ
    → SovereignMemory × Result MemoryError ℕ
unfolding sort dedup BTreeMap.insert
insert_record kind content tags importance tick m none = (m, err overflow)
insert_record kind content tags importance tick m (some next) = (
  record {
    next_id = next;
    records =
        BTreeMap.insert m.next_id
          (memory_record m.next_id kind content (dedup (sort tags)) importance tick) m.records;
  },
  ok m.next_id,
)

unfoldable pub store :
    MemoryKind → Text → List Text → ℕ → ℕ → SovereignMemory → SovereignMemory × Result MemoryError ℕ
unfolding insert_record
store kind content tags importance tick m =
    if is_blank content
    then (m, err empty_content)
    else if ltb 1000 importance
    then (m, err (invalid_importance importance))
    else insert_record kind content tags importance tick m (checked_add_u64 m.next_id 1)

unfoldable pub get : ℕ → SovereignMemory → Option MemoryRecord
unfolding BTreeMap.get
get id m = BTreeMap.get id m.records

unfoldable pub forget : ℕ → SovereignMemory → SovereignMemory × Bool
unfolding BTreeMap.remove BTreeMap.get
forget id m =
    (record m { records = BTreeMap.remove id m.records }, is_some (BTreeMap.get id m.records))
