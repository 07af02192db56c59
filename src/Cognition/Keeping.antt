-- ===== src/Cognition/Keeping.antt =====
-- crates/ntd-runtime/src/cognition.rs: the methods that leave the tasks alone keep a state sound,
-- whether they succeed or fail.
use ntd.Prelude.{
  ℕ, ◌≡◌, ◌<◌, refl, ◌==◌, Text, is_blank, List, Option, none, some, All-map, Result, ok, err,
  arith, inl, inr, Bool-cases, nat_ord, text_ord,
}
use ntd.Prelude.BTreeMap
use ntd.Prelude.BTreeMap.{BTreeMap, All-insert, All-get, get-insert, get-replace_some}
use ntd.Prelude.Words.{checked_add_u64}
use ntd.Memory.{MemoryKind}
use ntd.Memory.Laws.{store-IsMemory}
use ntd.Cognition.{CognitiveState, Goal, GoalStatus, CognitiveTask, WorldFact, CognitiveError}
use ntd.Cognition.Actions.{EndsIn, Ensures, Keeps, unless-Ensures}
use ntd.Cognition.State.{
  Method, next_revision, set_world_fact, tick_to, next_tick, goals_with, with_goal, mark_goal,
  remember,
}
use ntd.Cognition.WellFormed.{IsTable, IsTable-replace, GoalOk, GoalThere, TaskOk, FactOk, IsSound}

-- Sound, and the tasks are those.
pub record SoundWith (T : BTreeMap ℕ CognitiveTask) (s : CognitiveState) : Type 0 where
  pub sound : IsSound s
  pub same : s.tasks ≡ T

-- What leaves the tasks alone and keeps a state sound.
abbrev pub Spares : {A : Type 0} → Method A → Type 0
Spares m = (T : BTreeMap ℕ CognitiveTask) → Ensures (SoundWith T) m (λ _. SoundWith T) IsSound

spared :
    {A : Type 0} (T : BTreeMap ℕ CognitiveTask) (r : CognitiveState × Result CognitiveError A)
    → EndsIn (λ _. SoundWith T) IsSound r
    → EndsIn (λ _. IsSound) IsSound r
spared T (s, ok a) h = h.sound
spared T (s, err e) h = h

pub Spares-Keeps : {A : Type 0} {m : Method A} → Spares m → Keeps IsSound m
Spares-Keeps {m = m} h = record {
  ends = λ s p. spared s.tasks (m s) ((h s.tasks).ends s (record { sound = p; same = refl }));
}

tick_ends :
    (T : BTreeMap ℕ CognitiveTask) (o : Option ℕ) (s : CognitiveState)
    → SoundWith T s
    → EndsIn (λ _. SoundWith T) IsSound (tick_to o s)
tick_ends T none s h = h.sound
tick_ends T (some tick) s h = record {
  sound = record {
    goals = h.sound.goals;
    tasks = h.sound.tasks;
    deltas = h.sound.deltas;
    world = h.sound.world;
    memory = h.sound.memory;
  };
  same = h.same;
}

pub next_tick-Spares : Spares next_tick
unfolding next_tick
next_tick-Spares T = record { ends = λ s h. tick_ends T (checked_add_u64 s.tick 1) s h }

memory_ends :
    {A : Type 0} (T : BTreeMap ℕ CognitiveTask) (s : CognitiveState) (r : Result CognitiveError A)
    → SoundWith T s
    → EndsIn (λ _. SoundWith T) IsSound (s, r)
memory_ends T s (ok a) h = h
memory_ends T s (err e) h = h.sound

pub remember-Spares :
    (kind : MemoryKind) (content : Text) (tags : List Text) (importance : ℕ)
    → Spares (remember kind content tags importance)
unfolding remember
remember-Spares kind content tags importance T = record {
  ends = λ s h. memory_ends T _ _ (record {
    sound = record {
      goals = h.sound.goals;
      tasks = h.sound.tasks;
      deltas = h.sound.deltas;
      world = h.sound.world;
      memory = store-IsMemory kind content tags importance s.tick s.memory h.sound.memory;
    };
    same = h.same;
  });
}

-- A task's goal stays present.
present_replace :
    (id : ℕ) (g : Goal) (goals : BTreeMap ℕ Goal) (o : Option ℕ)
    → GoalThere o goals
    → GoalThere o (BTreeMap.replace id g goals)
present_replace id g goals none h = tt
present_replace id g goals (some j) h = get-replace_some id j g goals h

pub present_insert :
    (id : ℕ) (g : Goal) (goals : BTreeMap ℕ Goal) (o : Option ℕ)
    → GoalThere o goals
    → GoalThere o (BTreeMap.insert id g goals)
present_insert id g goals none h = tt
present_insert id g goals (some j) h = elim (Bool-cases (j == id)) [
  | inl e ↦ rw (get-insert id j g goals) (rw e refl)
  | inr e ↦ rw (get-insert id j g goals) (rw e h)
]

-- Goals that keep every present goal present keep the tasks.
pub tasks_keep :
    (goals other : BTreeMap ℕ Goal) (next : ℕ) (tasks : BTreeMap ℕ CognitiveTask)
    → ((o : Option ℕ) → GoalThere o goals → GoalThere o other)
    → IsTable (TaskOk goals) next tasks
    → IsTable (TaskOk other) next tasks
tasks_keep goals other next tasks keep h = record {
  positive = h.positive;
  sorted = h.sorted;
  below = h.below;
  entries = All-map (λ kv p. (p.0, p.1, p.2, p.3, keep kv.1.goal_id p.4)) tasks h.entries;
}

goals_with_sound :
    (id : ℕ) (status : GoalStatus) (o : Option Goal) (s : CognitiveState)
    → BTreeMap.get id s.goals ≡ o
    → IsSound s
    → IsSound (record s { goals = goals_with id status s.tick o s.goals })
goals_with_sound id status none s e h = h
goals_with_sound id status (some g) s e h = record {
  goals =
      IsTable-replace GoalOk s.next_goal_id s.goals id (with_goal status s.tick g) h.goals
        (All-get GoalOk id s.goals h.goals.entries e);
  tasks =
      tasks_keep s.goals (BTreeMap.replace id (with_goal status s.tick g) s.goals) s.next_task_id
        s.tasks (present_replace id (with_goal status s.tick g) s.goals) h.tasks;
  deltas = h.deltas;
  world = h.world;
  memory = h.memory;
}

pub mark_goal-Spares : (o : Option ℕ) (status : GoalStatus) → Spares (mark_goal o status)
unfolding mark_goal
mark_goal-Spares none status T = record { ends = λ s h. h }
mark_goal-Spares (some id) status T = record {
  ends = λ s h. record {
    sound = goals_with_sound id status (BTreeMap.get id s.goals) s refl h.sound;
    same = h.same;
  };
}

revision_positive : (o : Option WorldFact) → 0 < next_revision o
revision_positive none = omega arith
revision_positive (some f) = ground arith

pub set_world_fact-Spares : (key value : Text) → Spares (set_world_fact key value)
unfolding set_world_fact
set_world_fact-Spares key value T =
    unless-Ensures (is_blank key) _ (λ s h. h.sound)
      (λ filled. record {
        ends = λ s h. record {
          sound = record {
            goals = h.sound.goals;
            tasks = h.sound.tasks;
            deltas = h.sound.deltas;
            world =
                All-insert FactOk key _ s.world
                  (refl, filled, revision_positive (BTreeMap.get key s.world)) h.sound.world;
            memory = h.sound.memory;
          };
          same = h.same;
        };
      })
