-- ===== src/Cognition/Additions.antt =====
-- crates/ntd-runtime/src/cognition.rs: the methods that add goals, tasks and deltas keep a state sound.
use ntd.Prelude.{
  ℕ, ◌+◌, ◌≡◌, refl, false, ltb, ◌==◌, is_blank, Text, List, Option, Result, arith, inl, inr,
  Bool-cases, Option-cases, nat_ord, text_ord,
}
use ntd.Prelude.BTreeMap
use ntd.Prelude.BTreeMap.{BTreeMap}
use ntd.Prelude.Words.{checked_add_u64, u64_max}
use ntd.Core.{Intent, TaskGraph}
use ntd.Cognition.{
  CognitiveState, Goal, CognitiveTask, LearnedDelta, CognitiveError, empty_objective,
  invalid_step_budget, empty_delta_namespace,
}
use ntd.Cognition.Actions.{EndsIn, Keeps, unless-Ensures}
use ntd.Cognition.State.{
  insert_goal, insert_task, insert_delta, new_goal, new_task, new_delta, add_goal, absent_goal,
  unless_absent, submit_task, install_delta,
}
use ntd.Cognition.WellFormed.{IsTable-insert, GoalOk, TaskOk, DeltaOk, IsSound}
use ntd.Cognition.Soundness.{absent_goal_iff}
use ntd.Cognition.Keeping.{tasks_keep, present_insert}

abbrev Sound : {A : Type 0} → CognitiveState × Result CognitiveError A → Type 0
Sound r = EndsIn (λ _. IsSound) IsSound r

insert_goal-Sound :
    (goal : ℕ → Goal) (s : CognitiveState)
    → GoalOk (s.next_goal_id, goal s.next_goal_id)
    → IsSound s
    → Sound (insert_goal goal (checked_add_u64 s.next_goal_id 1) s)
insert_goal-Sound goal s g h = elim (Bool-cases (ltb u64_max (s.next_goal_id + 1))) [
  | inl e ↦ rw e h
  | inr e ↦ rw e (record {
    goals = IsTable-insert GoalOk s.next_goal_id s.goals (goal s.next_goal_id) h.goals g;
    tasks =
        tasks_keep s.goals (BTreeMap.insert s.next_goal_id (goal s.next_goal_id) s.goals)
          s.next_task_id s.tasks (present_insert s.next_goal_id (goal s.next_goal_id) s.goals)
          h.tasks;
    deltas = h.deltas;
    world = h.world;
    memory = h.memory;
  })
]

insert_task-Sound :
    (task : ℕ → CognitiveTask) (s : CognitiveState)
    → TaskOk s.goals (s.next_task_id, task s.next_task_id)
    → IsSound s
    → Sound (insert_task task (checked_add_u64 s.next_task_id 1) s)
insert_task-Sound task s t h = elim (Bool-cases (ltb u64_max (s.next_task_id + 1))) [
  | inl e ↦ rw e h
  | inr e ↦ rw e (record {
    goals = h.goals;
    tasks = IsTable-insert (TaskOk s.goals) s.next_task_id s.tasks (task s.next_task_id) h.tasks t;
    deltas = h.deltas;
    world = h.world;
    memory = h.memory;
  })
]

insert_delta-Sound :
    (delta : ℕ → LearnedDelta) (s : CognitiveState)
    → DeltaOk (s.next_delta_id, delta s.next_delta_id)
    → IsSound s
    → Sound (insert_delta delta (checked_add_u64 s.next_delta_id 1) s)
insert_delta-Sound delta s d h = elim (Bool-cases (ltb u64_max (s.next_delta_id + 1))) [
  | inl e ↦ rw e h
  | inr e ↦ rw e (record {
    goals = h.goals;
    tasks = h.tasks;
    deltas = IsTable-insert DeltaOk s.next_delta_id s.deltas (delta s.next_delta_id) h.deltas d;
    world = h.world;
    memory = h.memory;
  })
]

new_goal-GoalOk :
    (objective : Text) (criteria : List Text) (tick id : ℕ)
    → is_blank objective ≡ false
    → GoalOk (id, new_goal objective criteria tick id)
new_goal-GoalOk objective criteria tick id filled = (refl, filled)

pub add_goal-Keeps :
    (objective : Text) (criteria : List Text) → Keeps IsSound (add_goal objective criteria)
unfolding add_goal
add_goal-Keeps objective criteria =
    unless-Ensures (is_blank objective) empty_objective (λ s h. h)
      (λ filled. record {
        ends = λ s h.
            insert_goal-Sound (new_goal objective criteria s.tick) s
              (new_goal-GoalOk objective criteria s.tick s.next_goal_id filled) h;
      })

pub submit_task-Keeps :
    (intent : Intent) (graph : TaskGraph) (goal_id : Option ℕ)
    → Keeps IsSound (submit_task intent graph goal_id)
unfolding submit_task
submit_task-Keeps intent graph goal_id =
    unless-Ensures (is_blank intent.objective) empty_objective (λ s h. h)
      (λ filled.
        unless-Ensures (intent.max_steps == 0) invalid_step_budget (λ s h. h)
          (λ budgeted. record { ends = λ s h. ends filled budgeted s h }))
  where
    ends :
        is_blank intent.objective ≡ false
        → (intent.max_steps == 0) ≡ false
        → (s : CognitiveState) → IsSound s
        → Sound (
            unless_absent
              (absent_goal goal_id s.goals)
              (insert_task
                (new_task intent graph goal_id s.tick)
                (checked_add_u64 s.next_task_id 1))
              s)
    ends filled budgeted s h = elim (Option-cases (absent_goal goal_id s.goals)) [
      | inr (id, e) ↦ rw e h
      | inl e ↦ rw e (
          insert_task-Sound (new_task intent graph goal_id s.tick) s
            (refl, filled, ground arith, omega arith, (absent_goal_iff s.goals goal_id).0 e) h)
    ]

pub install_delta-Keeps :
    (namespace : Text) (generation : ℕ) (payload : List ℕ)
    → Keeps IsSound (install_delta namespace generation payload)
unfolding install_delta
install_delta-Keeps namespace generation payload =
    unless-Ensures (is_blank namespace) empty_delta_namespace (λ s h. h)
      (λ filled. record {
        ends =
            λ s h. insert_delta-Sound (new_delta namespace generation payload) s (refl, filled) h;
      })
