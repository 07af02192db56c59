-- ===== src/Memory/Tests.antt =====
-- The theorems about the memory, applied to the memory of two records of the source's test.
use ntd.Prelude.{
  ℕ, ◌≤◌, ◌≡◌, ◌↔◌, refl, Bool, true, ◌||◌, ◌&&◌, leb, Text, codes, List, [], ◌∷◌, map, length,
  Result, ok, err, arith, nat_ord, text_ord,
}
use ntd.Memory.{MemoryError, MemoryHit, SovereignMemory, memory_new, semantic, episodic, query_new}
use ntd.Memory.Store.{store, from_parts}
use ntd.Memory.Laws.{IsMemory, memory_new-IsMemory, store-IsMemory, from_parts-IsMemory}
use ntd.Memory.Retrieve.{retrieve}
use ntd.Memory.Recall.{entry, BestFirst, retrieve_answers}

-- `char::is_alphanumeric` on ASCII.
abbrev ascii_alphanumeric : ℕ → Bool
ascii_alphanumeric c = (leb 48 c && leb c 57) || (leb 65 c && leb c 90) || (leb 97 c && leb c 122)

abbrev with_france : SovereignMemory
with_france =
    (store semantic (codes "Paris is the capital of France") (codes "geography" ∷ []) 600 1
      memory_new).0

abbrev with_both : SovereignMemory
with_both =
    (store episodic (codes "Visited Paris during summer") (codes "travel" ∷ []) 200 2 with_france).0

with_both-IsMemory : IsMemory with_both
with_both-IsMemory =
    store-IsMemory episodic (codes "Visited Paris during summer") (codes "travel" ∷ []) 200 2
      with_france
      (store-IsMemory semantic (codes "Paris is the capital of France") (codes "geography" ∷ []) 600
        1 memory_new memory_new-IsMemory)

retrieve_answers_example :
    (hits : List MemoryHit) × ((retrieve ascii_alphanumeric
        (query_new (codes "capital France"))
        3
        with_both).1
      ≡ ok hits)
    × (length (map entry hits) ≤ 8)
    × BestFirst (map entry hits)
    × IsMemory (retrieve ascii_alphanumeric (query_new (codes "capital France")) 3 with_both).0
retrieve_answers_example =
    retrieve_answers ascii_alphanumeric (query_new (codes "capital France")) 3 with_both
      with_both-IsMemory

store-IsMemory_example :
    IsMemory (store semantic (codes "x") (codes "b" ∷ codes "a" ∷ []) 5 9 with_both).0
store-IsMemory_example =
    store-IsMemory semantic (codes "x") (codes "b" ∷ codes "a" ∷ []) 5 9 with_both
      with_both-IsMemory

from_parts-IsMemory_example :
    ((from_parts with_both.next_id with_both.records
        ≡ ok (record { next_id = with_both.next_id; records = with_both.records }))
      ↔ IsMemory (record { next_id = with_both.next_id; records = with_both.records }))
    × ((m : SovereignMemory)
        → from_parts with_both.next_id with_both.records ≡ ok m
        → m ≡ record { next_id = with_both.next_id; records = with_both.records })
from_parts-IsMemory_example =
    from_parts-IsMemory with_both.next_id with_both.records with_both-IsMemory.sorted

abbrev found : Result MemoryError (List MemoryHit) → List (ℕ × ℕ)
found (ok hits) = map entry hits
found (err e) = []

-- Two terms match and the importance is 600: one hit, with the score 2600.
one_hit :
    found (retrieve ascii_alphanumeric (query_new (codes "capital France")) 3 with_both).1
    ≡ (1, 2600) ∷ []
unfolding retrieve store ntd.Prelude.is_blank ntd.Prelude.text_eq ntd.Prelude.Strings.text_lt
one_hit = refl
