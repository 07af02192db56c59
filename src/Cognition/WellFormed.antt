-- ===== src/Cognition/WellFormed.antt =====
-- crates/ntd-runtime/src/cognition.rs: the well-formed states, and what single writes keep of them.
use ntd.Prelude.{
  ℕ, ◌+◌, ◌<◌, ◌≤◌, ◌≡◌, refl, true, is_some, is_blank, subst, false, ◌==◌, ==_iff, Text, Option,
  none, some, All, arith, inl, inr, Option-cases, nat_ord, text_ord,
}
use ntd.Prelude.BTreeMap
use ntd.Prelude.BTreeMap.{
  BTreeMap, Sorted, Below, All-insert, All-replace, All-get, replace-Sorted, Below-replace,
  Below-insert_next, insert-Sorted_next, Below-last_key, Sorted-Below, get-insert, get-replace_some,
}
use ntd.Memory.Laws.{IsMemory}
use ntd.Cognition.{CognitiveState, Goal, CognitiveTask, WorldFact, LearnedDelta}
use ntd.Cognition.Validate.{reaches}

-- A map whose keys ascend below the next identifier, all of whose entries are well-formed.
pub record IsTable {V : Type 0} (Ok : ℕ × V → Type 0) (next : ℕ) (m : BTreeMap ℕ V) : Type 0 where
  pub positive : (next == 0) ≡ false
  pub sorted : Sorted m
  pub below : Below next m
  pub entries : All Ok m

module _ {V : Type 0} (Ok : ℕ × V → Type 0) (next : ℕ) (m : BTreeMap ℕ V) where
  pub IsTable-insert :
      (v : V) → IsTable Ok next m → Ok (next, v) → IsTable Ok (next + 1) (BTreeMap.insert next v m)
  IsTable-insert v h p = record {
    positive = ground arith;
    sorted = insert-Sorted_next next v m h.below h.sorted;
    below = Below-insert_next next v m h.below;
    entries = All-insert Ok next v m p h.entries;
  }

  pub IsTable-replace :
      (id : ℕ) (v : V) → IsTable Ok next m → Ok (id, v) → IsTable Ok next (BTreeMap.replace id v m)
  IsTable-replace id v h p = record {
    positive = h.positive;
    sorted = replace-Sorted id v m h.sorted;
    below = Below-replace next id v m h.below;
    entries = All-replace Ok id v m (λ j e. subst (λ i. Ok (i, v)) ((==_iff id j).0 e) p) h.entries;
  }

  pub IsTable-reaches : IsTable Ok next m → reaches next (BTreeMap.last_key m) ≡ false
  IsTable-reaches h = elim (Option-cases (BTreeMap.last_key m)) [
    | inl e ↦ rw e refl
    | inr (k, e) ↦ let l = Below-last_key next m h.below e in rw e (ground arith)
  ]

  pub reaches-IsTable :
      (next == 0) ≡ false
      → Sorted m
      → reaches next (BTreeMap.last_key m) ≡ false
      → All Ok m
      → IsTable Ok next m
  reaches-IsTable p s r h = record {
    positive = p;
    sorted = s;
    below = Sorted-Below next m s (λ k e. last k e);
    entries = h;
  }
    where
      last : (k : ℕ) → BTreeMap.last_key m ≡ some k → k < next
      last k e = let q = rw e at r in ground arith

-- A goal stands under its own identifier and has an objective.
abbrev pub GoalOk : ℕ × Goal → Type 0
GoalOk kv = (kv.0 ≡ kv.1.id) × (is_blank kv.1.objective ≡ false)

-- The goal that is named, if one is, is in the map.
abbrev pub GoalThere : Option ℕ → BTreeMap ℕ Goal → Type 0
GoalThere none goals = Unit
GoalThere (some id) goals = is_some (BTreeMap.get id goals) ≡ true

-- A task stands under its own identifier, has an objective and a step budget that is not 0 and that
-- its steps have not passed; its goal is there.
abbrev pub TaskOk : BTreeMap ℕ Goal → ℕ × CognitiveTask → Type 0
TaskOk goals kv =
    (kv.0 ≡ kv.1.id)
    × (is_blank kv.1.intent.objective ≡ false)
    × (0 < kv.1.intent.max_steps)
    × (kv.1.steps_taken ≤ kv.1.intent.max_steps)
    × GoalThere kv.1.goal_id goals

-- A fact stands under its own key, which is not blank, and has a revision that is not 0.
abbrev pub FactOk : Text × WorldFact → Type 0
FactOk kv = (kv.0 ≡ kv.1.key) × (is_blank kv.0 ≡ false) × (0 < kv.1.revision)

-- A delta stands under its own identifier and has a namespace.
abbrev pub DeltaOk : ℕ × LearnedDelta → Type 0
DeltaOk kv = (kv.0 ≡ kv.1.id) × (is_blank kv.1.namespace ≡ false)

-- What a state keeps.
pub record IsSound (s : CognitiveState) : Type 0 where
  pub goals : IsTable GoalOk s.next_goal_id s.goals
  pub tasks : IsTable (TaskOk s.goals) s.next_task_id s.tasks
  pub deltas : IsTable DeltaOk s.next_delta_id s.deltas
  pub world : All FactOk s.world
  pub memory : IsMemory s.memory

-- What a checkpoint's state has to be: in each table the identifiers ascend below the next one,
-- which is not 0, and every goal, task, delta and fact is well-formed.
abbrev pub IsConsistent : CognitiveState → Type 0
IsConsistent s =
    IsTable GoalOk s.next_goal_id s.goals
    × IsTable (TaskOk s.goals) s.next_task_id s.tasks
    × IsTable DeltaOk s.next_delta_id s.deltas
    × All FactOk s.world
