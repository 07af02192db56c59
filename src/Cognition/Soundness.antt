-- ===== src/Cognition/Soundness.antt =====
-- crates/ntd-runtime/src/cognition.rs: the states that `validate_state` accepts.
use ntd.Prelude.{
  ℕ, ◌≡◌, ◌↔◌, refl, Bool-cases, text_eq, text_eq_iff, Bool, false, ◌||◌, ◌==◌, Text, [], ◌∷◌,
  Option, none, some, All, ok, refuse-eq-ok, >>-eq-ok, arith, inl, inr, nat_ord, text_ord,
}
use ntd.Prelude.BTreeMap
use ntd.Prelude.BTreeMap.{
  BTreeMap, Sorted, Below, All-insert, All-replace, All-get, replace-Sorted, Below-replace,
  Below-insert_next, insert-Sorted_next, Below-last_key, Sorted-Below, get-insert, get-replace_some,
}
use ntd.Cognition.{CognitiveState, Goal, CognitiveTask, WorldFact, LearnedDelta, overflow}
use ntd.Cognition.State.{absent_goal}
use ntd.Cognition.Validate.{
  reaches, goal_refused, task_refused, fact_refused, delta_refused, present, check_goals,
  check_tasks, check_world, check_deltas, validate_state,
}
use ntd.Cognition.WellFormed.{
  IsTable-reaches, reaches-IsTable, GoalOk, GoalThere, TaskOk, FactOk, DeltaOk, IsSound,
  IsConsistent,
}

goal_iff : (id : ℕ) (g : Goal) → (goal_refused id g ≡ false) ↔ GoalOk (id, g)
unfolding goal_refused
goal_iff id g = (λ h. (ground arith, ground arith), λ h. ground arith)

pub absent_goal_iff :
    (goals : BTreeMap ℕ Goal) (o : Option ℕ) → (absent_goal o goals ≡ none) ↔ GoalThere o goals
unfolding absent_goal BTreeMap.contains_key
absent_goal_iff goals none = (λ h. tt, λ h. refl)
absent_goal_iff goals (some k) = (λ h. ground arith, λ h. ground arith)

task_iff :
    (goals : BTreeMap ℕ Goal) (id : ℕ) (t : CognitiveTask)
    → ((task_refused id t ≡ false) × (absent_goal t.goal_id goals ≡ none)) ↔ TaskOk goals (id, t)
unfolding task_refused
task_iff goals id t = (
  λ h. (
    ground arith,
    ground arith,
    ground arith,
    ground arith,
    (absent_goal_iff goals t.goal_id).0 h.1,
  ),
  λ h. (ground arith, (absent_goal_iff goals t.goal_id).1 h.4),
)

fact_iff : (key : Text) (f : WorldFact) → (fact_refused key f ≡ false) ↔ FactOk (key, f)
unfolding fact_refused
fact_iff key f = (
  λ h. elim (Bool-cases (text_eq key f.key)) [
    | inl e ↦ ((text_eq_iff key f.key).0 e, ground arith, ground arith)
    | inr e ↦ let k = rw e at h in cc
  ],
  λ h. let e = (text_eq_iff key f.key).1 h.0 in rw e (ground arith),
)

delta_iff : (id : ℕ) (d : LearnedDelta) → (delta_refused id d ≡ false) ↔ DeltaOk (id, d)
unfolding delta_refused
delta_iff id d = (λ h. (ground arith, ground arith), λ h. ground arith)

check_goals_iff :
    (m : BTreeMap ℕ Goal)
    → (All GoalOk m → check_goals m ≡ ok tt) × (check_goals m ≡ ok tt → All GoalOk m)
unfolding check_goals
check_goals_iff [] = (λ h. refl, λ h. tt)
check_goals_iff ((id, g) ∷ m) =
    let (to, from) = check_goals_iff m in
    (
      λ h. rw ((goal_iff id g).1 h.0) (to h.1),
      λ h. let (p, q) = refuse-eq-ok _ _ _ h in ((goal_iff id g).0 p, from q),
    )

check_world_iff :
    (m : BTreeMap Text WorldFact)
    → (All FactOk m → check_world m ≡ ok tt) × (check_world m ≡ ok tt → All FactOk m)
unfolding check_world
check_world_iff [] = (λ h. refl, λ h. tt)
check_world_iff ((key, f) ∷ m) =
    let (to, from) = check_world_iff m in
    (
      λ h. rw ((fact_iff key f).1 h.0) (to h.1),
      λ h. let (p, q) = refuse-eq-ok _ _ _ h in ((fact_iff key f).0 p, from q),
    )

check_deltas_iff :
    (m : BTreeMap ℕ LearnedDelta)
    → (All DeltaOk m → check_deltas m ≡ ok tt) × (check_deltas m ≡ ok tt → All DeltaOk m)
unfolding check_deltas
check_deltas_iff [] = (λ h. refl, λ h. tt)
check_deltas_iff ((id, d) ∷ m) =
    let (to, from) = check_deltas_iff m in
    (
      λ h. rw ((delta_iff id d).1 h.0) (to h.1),
      λ h. let (p, q) = refuse-eq-ok _ _ _ h in ((delta_iff id d).0 p, from q),
    )

present_ok : (o : Option ℕ) → present o ≡ ok tt → o ≡ none
present_ok none h = refl
present_ok (some id) h = cc

check_tasks_iff :
    (goals : BTreeMap ℕ Goal) (m : BTreeMap ℕ CognitiveTask)
    → (All (TaskOk goals) m → check_tasks goals m ≡ ok tt)
      × (check_tasks goals m ≡ ok tt → All (TaskOk goals) m)
unfolding check_tasks
check_tasks_iff goals [] = (λ h. refl, λ h. tt)
check_tasks_iff goals ((id, t) ∷ m) =
    let (to, from) = check_tasks_iff goals m in
    (
      λ h. let (p, q) = (task_iff goals id t).1 h.0 in rw (p, q) (to h.1),
      λ h.
          let (p, q) = refuse-eq-ok _ _ _ h in
          let (g, r) = >>-eq-ok (present (absent_goal t.goal_id goals)) _ q in
          ((task_iff goals id t).0 (p, present_ok _ g), from r),
    )

or_false : (a b : Bool) → (a || b) ≡ false → (a ≡ false) × (b ≡ false)
or_false a b h = ground arith

three :
    (s : CognitiveState)
    → (s.next_goal_id == 0 || s.next_task_id == 0 || s.next_delta_id == 0) ≡ false
    → ((s.next_goal_id == 0) ≡ false)
      × ((s.next_task_id == 0) ≡ false)
      × ((s.next_delta_id == 0) ≡ false)
three s h = ground arith

IsConsistent-validate : (s : CognitiveState) → IsConsistent s → validate_state s ≡ ok tt
unfolding validate_state
IsConsistent-validate s (g, t, d, w) =
    rw (g.positive, t.positive, d.positive)
      (rw
        (
          IsTable-reaches GoalOk s.next_goal_id s.goals g,
          IsTable-reaches (TaskOk s.goals) s.next_task_id s.tasks t,
          IsTable-reaches DeltaOk s.next_delta_id s.deltas d,
        )
        (rw
          (
            (check_goals_iff s.goals).0 g.entries,
            (check_tasks_iff s.goals s.tasks).0 t.entries,
            (check_world_iff s.world).0 w,
          )
          ((check_deltas_iff s.deltas).0 d.entries)))

-- `validate_state` accepts a sound state.
pub IsSound-validate : (s : CognitiveState) → IsSound s → validate_state s ≡ ok tt
IsSound-validate s h = IsConsistent-validate s (h.goals, h.tasks, h.deltas, h.world)

-- `validate_state` accepts exactly the consistent states: those whose identifiers are below the next
-- ones, which are not 0, whose goals, tasks, facts and deltas stand under their own keys with the
-- texts they need, whose tasks have a step budget that is not passed and goals that are there, and
-- whose facts have revisions that are not 0. The three maps with numbers as keys ascend.
pub validate-IsConsistent :
    (s : CognitiveState)
    → Sorted s.goals
    → Sorted s.tasks
    → Sorted s.deltas
    → (validate_state s ≡ ok tt) ↔ IsConsistent s
unfolding validate_state
validate-IsConsistent s gs ts ds = (accepted, IsConsistent-validate s)
  where
    accepted : validate_state s ≡ ok tt → IsConsistent s
    accepted h =
        let (p, h₁) =
          refuse-eq-ok (s.next_goal_id == 0 || s.next_task_id == 0 || s.next_delta_id == 0) overflow
            _ h in
        let (r, h₂) = refuse-eq-ok _ _ _ h₁ in
        let (g, h₃) = >>-eq-ok (check_goals s.goals) _ h₂ in
        let (t, h₄) = >>-eq-ok (check_tasks s.goals s.tasks) _ h₃ in
        let (w, d) = >>-eq-ok (check_world s.world) _ h₄ in
        let (pg, pt, pd) : ((s.next_goal_id == 0) ≡ false)
            × ((s.next_task_id == 0) ≡ false)
            × ((s.next_delta_id == 0) ≡ false) =
          three s p in
        let (r₁, r₂) =
          or_false
            (reaches s.next_goal_id (BTreeMap.last_key s.goals)
              || reaches s.next_task_id (BTreeMap.last_key s.tasks))
            (reaches s.next_delta_id (BTreeMap.last_key s.deltas)) r in
        let (r₃, r₄) =
          or_false (reaches s.next_goal_id (BTreeMap.last_key s.goals))
            (reaches s.next_task_id (BTreeMap.last_key s.tasks)) r₁ in
        (
          reaches-IsTable GoalOk s.next_goal_id s.goals pg gs r₃ ((check_goals_iff s.goals).1 g),
          reaches-IsTable (TaskOk s.goals) s.next_task_id s.tasks pt ts r₄
              ((check_tasks_iff s.goals s.tasks).1 t),
          reaches-IsTable DeltaOk s.next_delta_id s.deltas pd ds r₂
              ((check_deltas_iff s.deltas).1 d),
          (check_world_iff s.world).1 w,
        )
