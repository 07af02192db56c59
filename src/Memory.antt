-- ===== src/Memory.antt =====
-- crates/ntd-runtime/src/memory.rs: the memory's records, queries, errors and state.
pub mod Store
pub mod Retrieve
pub mod Laws
pub mod Recall
mod Tests
use ntd.Prelude.{ℕ, Text, List, [], Result, ok, err, ◌==◌, if◌then◌else◌}
use ntd.Prelude.BTreeMap.{BTreeMap}

pub data MemoryKind : Type 0 where
  episodic semantic procedural : MemoryKind

-- `#[repr(u8)]`; the derived order compares these.
abbrev pub kind_tag : MemoryKind → ℕ
kind_tag episodic = 1
kind_tag semantic = 2
kind_tag procedural = 3

pub data MemoryError : Type 0 where
  empty_content : MemoryError
  invalid_importance : ℕ → MemoryError
  invalid_kind : ℕ → MemoryError
  overflow : MemoryError

unfoldable pub kind_try_from : ℕ → Result MemoryError MemoryKind
kind_try_from value =
    if value == 1
    then ok episodic
    else if value == 2
    then ok semantic
    else if value == 3
    then ok procedural
    else err (invalid_kind value)

pub record MemoryRecord : Type 0 where
  pub id : ℕ
  pub kind : MemoryKind
  pub content : Text
  pub tags : List Text
  pub importance : ℕ
  pub created_tick : ℕ
  pub last_recalled_tick : ℕ
  pub recall_count : ℕ

pub record MemoryQuery : Type 0 where
  pub text : Text
  pub kinds : List MemoryKind
  pub tags : List Text
  pub limit : ℕ

abbrev pub query_new : Text → MemoryQuery
query_new text = record { text = text; kinds = []; tags = []; limit = 8 }

pub record MemoryHit : Type 0 where
  pub id : ℕ
  pub score : ℕ
  pub stored : MemoryRecord

pub record SovereignMemory : Type 0 where
  pub next_id : ℕ
  pub records : BTreeMap ℕ MemoryRecord

abbrev pub memory_new : SovereignMemory
memory_new = record { next_id = 1; records = [] }
