-- ===== src/Cognition/State.antt =====
-- crates/ntd-runtime/src/cognition.rs: the methods of `CognitiveState`, and the accesses to its maps
-- that the runtime's methods are made of.
use ntd.Prelude.{
  ℕ, false, ◌==◌, Text, is_blank, List, Option, none, some, ok, err, map_err, if◌then◌else◌,
  nat_ord, text_ord,
}
use ntd.Prelude.BTreeMap
use ntd.Prelude.BTreeMap.{BTreeMap}
use ntd.Prelude.Words.{checked_add_u64, saturating_add_u64}
use ntd.Core.{Intent, TaskGraph}
use ntd.Memory.{MemoryKind}
use ntd.Memory.Store.{store}
use ntd.Cognition.{
  CognitiveState, Goal, GoalStatus, CognitiveTask, TaskStatus, WorldFact, LearnedDelta,
  CognitiveError, empty_objective, empty_world_key, empty_delta_namespace, invalid_step_budget,
  missing_goal, missing_task, memory_error, overflow,
}
use ntd.Cognition.Actions.{Action, unless}

abbrev pub Method : Type 0 → Type 0
Method A = Action CognitiveState CognitiveError A

-- `let id = self.next; self.next = self.next.checked_add(1).ok_or(Overflow)?; map.insert(id, ..)`
abbrev pub insert_goal : (ℕ → Goal) → Option ℕ → Method ℕ
insert_goal goal none s = (s, err overflow)
insert_goal goal (some next) s = (
  record s {
    next_goal_id = next;
    goals = BTreeMap.insert s.next_goal_id (goal s.next_goal_id) s.goals;
  },
  ok s.next_goal_id,
)

abbrev pub insert_task : (ℕ → CognitiveTask) → Option ℕ → Method ℕ
insert_task task none s = (s, err overflow)
insert_task task (some next) s = (
  record s {
    next_task_id = next;
    tasks = BTreeMap.insert s.next_task_id (task s.next_task_id) s.tasks;
  },
  ok s.next_task_id,
)

abbrev pub insert_delta : (ℕ → LearnedDelta) → Option ℕ → Method ℕ
insert_delta delta none s = (s, err overflow)
insert_delta delta (some next) s = (
  record s {
    next_delta_id = next;
    deltas = BTreeMap.insert s.next_delta_id (delta s.next_delta_id) s.deltas;
  },
  ok s.next_delta_id,
)

abbrev pub new_goal : Text → List Text → ℕ → ℕ → Goal
new_goal objective criteria tick id = record {
  id = id;
  objective = objective;
  completion_criteria = criteria;
  status = GoalStatus.active;
  created_tick = tick;
  updated_tick = tick;
}

unfoldable pub add_goal : Text → List Text → Method ℕ
unfolding unless BTreeMap.insert
add_goal objective criteria =
    unless (is_blank objective) empty_objective
      (λ s. insert_goal (new_goal objective criteria s.tick) (checked_add_u64 s.next_goal_id 1) s)

abbrev pub new_task : Intent → TaskGraph → Option ℕ → ℕ → ℕ → CognitiveTask
new_task intent graph goal_id tick id = record {
  id = id;
  goal_id = goal_id;
  intent = intent;
  graph = graph;
  status = TaskStatus.planned;
  steps_taken = 0;
  verification_failures = 0;
  last_observation = none;
  created_tick = tick;
  updated_tick = tick;
}

-- `Some(goal_id) if !goals.contains_key(&goal_id)`: the goal that is missing.
unfoldable pub absent_goal : Option ℕ → BTreeMap ℕ Goal → Option ℕ
unfolding BTreeMap.contains_key
absent_goal none goals = none
absent_goal (some id) goals = if BTreeMap.contains_key id goals then none else some id

abbrev pub unless_absent : {A : Type 0} → Option ℕ → Method A → Method A
unless_absent none m s = m s
unless_absent (some id) m s = (s, err (missing_goal id))

unfoldable pub submit_task : Intent → TaskGraph → Option ℕ → Method ℕ
unfolding unless absent_goal BTreeMap.insert
submit_task intent graph goal_id = unless (is_blank intent.objective) empty_objective (
    unless (intent.max_steps == 0) invalid_step_budget (λ s.
      unless_absent (absent_goal goal_id s.goals)
        (insert_task (new_task intent graph goal_id s.tick) (checked_add_u64 s.next_task_id 1)) s))

abbrev pub next_revision : Option WorldFact → ℕ
next_revision none = 1
next_revision (some fact) = saturating_add_u64 fact.revision 1

abbrev pub new_fact : Text → Text → ℕ → ℕ → WorldFact
new_fact key value revision tick = record {
  key = key;
  value = value;
  revision = revision;
  updated_tick = tick;
}

unfoldable pub set_world_fact : Text → Text → Method (Unit {0})
unfolding unless BTreeMap.get BTreeMap.insert
set_world_fact key value = unless (is_blank key) empty_world_key (λ s. (
  record s {
    world =
        BTreeMap.insert key (new_fact key value (next_revision (BTreeMap.get key s.world)) s.tick)
          s.world;
  },
  ok tt,
))

abbrev pub new_delta : Text → ℕ → List ℕ → ℕ → LearnedDelta
new_delta namespace generation payload id = record {
  id = id;
  namespace = namespace;
  generation = generation;
  payload = payload;
  active = false;
}

unfoldable pub install_delta : Text → ℕ → List ℕ → Method ℕ
unfolding unless BTreeMap.insert
install_delta namespace generation payload = unless (is_blank namespace) empty_delta_namespace (λ s.
    insert_delta (new_delta namespace generation payload) (checked_add_u64 s.next_delta_id 1) s)

-- `self.state.tick = self.state.tick.checked_add(1).ok_or(Overflow)?`
abbrev pub tick_to : Option ℕ → Method (Unit {0})
tick_to none s = (s, err overflow)
tick_to (some tick) s = (record s { tick = tick }, ok tt)

unfoldable pub next_tick : Method (Unit {0})
next_tick s = tick_to (checked_add_u64 s.tick 1) s

-- `tasks.get(&task_id).ok_or(MissingTask(task_id))?`
abbrev pub found_task : ℕ → Option CognitiveTask → Method CognitiveTask
found_task id none s = (s, err (missing_task id))
found_task id (some t) s = (s, ok t)

unfoldable pub get_task : ℕ → Method CognitiveTask
unfolding BTreeMap.get
get_task id s = found_task id (BTreeMap.get id s.tasks) s

-- A write to the task that `get_mut` gives: `change` reads the tick of the moment.
unfoldable pub write_task : ℕ → (ℕ → CognitiveTask) → Method (Unit {0})
unfolding BTreeMap.replace
write_task id change s = (record s { tasks = BTreeMap.replace id (change s.tick) s.tasks }, ok tt)

abbrev pub with_goal : GoalStatus → ℕ → Goal → Goal
with_goal status tick g = record g { status = status; updated_tick = tick }

abbrev pub goals_with : ℕ → GoalStatus → ℕ → Option Goal → BTreeMap ℕ Goal → BTreeMap ℕ Goal
goals_with id status tick none goals = goals
goals_with id status tick (some g) goals = BTreeMap.replace id (with_goal status tick g) goals

-- `if let Some(goal) = goal_id.and_then(|id| goals.get_mut(&id)) { .. }`
unfoldable pub mark_goal : Option ℕ → GoalStatus → Method (Unit {0})
unfolding BTreeMap.get BTreeMap.replace
mark_goal none status s = (s, ok tt)
mark_goal (some id) status s =
    (record s { goals = goals_with id status s.tick (BTreeMap.get id s.goals) s.goals }, ok tt)

-- `self.state.memory.store(.., self.state.tick)?`
unfoldable pub remember : MemoryKind → Text → List Text → ℕ → Method ℕ
unfolding store
remember kind content tags importance s =
    let r = store kind content tags importance s.tick s.memory in
    (record s { memory = r.0 }, map_err memory_error r.1)
