-- ===== src/Cognition/Validate.antt =====
-- crates/ntd-runtime/src/cognition.rs: `validate_state`, the check of a state from a checkpoint.
use ntd.Prelude.{
  ℕ, Bool, false, ◌||◌, not, ltb, leb, ◌==◌, Text, text_eq, is_blank, [], ◌∷◌, Option, none, some,
  Result, ok, err, ◌>>◌, refuse, nat_ord, text_ord,
}
use ntd.Prelude.BTreeMap
use ntd.Prelude.BTreeMap.{BTreeMap}
use ntd.Cognition.{
  CognitiveState, Goal, CognitiveTask, WorldFact, LearnedDelta, CognitiveError, missing_goal,
  overflow,
}
use ntd.Cognition.State.{absent_goal}

-- `keys().next_back().is_some_and(|id| next <= *id)`
abbrev pub reaches : ℕ → Option ℕ → Bool
reaches next none = false
reaches next (some id) = leb next id

unfoldable pub goal_refused : ℕ → Goal → Bool
goal_refused id g = not (id == g.id) || is_blank g.objective

unfoldable pub task_refused : ℕ → CognitiveTask → Bool
task_refused id t =
    not (id == t.id)
    || is_blank t.intent.objective
    || t.intent.max_steps == 0
    || ltb t.intent.max_steps t.steps_taken

unfoldable pub fact_refused : Text → WorldFact → Bool
fact_refused key f = not (text_eq key f.key) || is_blank key || f.revision == 0

unfoldable pub delta_refused : ℕ → LearnedDelta → Bool
delta_refused id d = not (id == d.id) || is_blank d.namespace

abbrev pub present : Option ℕ → Result CognitiveError (Unit {0})
present none = ok tt
present (some id) = err (missing_goal id)

unfoldable pub check_goals : BTreeMap ℕ Goal → Result CognitiveError (Unit {0})
unfolding goal_refused
check_goals [] = ok tt
check_goals ((id, g) ∷ rest) = do refuse (goal_refused id g) overflow; check_goals rest

unfoldable pub check_tasks :
    BTreeMap ℕ Goal → BTreeMap ℕ CognitiveTask → Result CognitiveError (Unit {0})
unfolding task_refused absent_goal
check_tasks goals [] = ok tt
check_tasks goals ((id, t) ∷ rest) = do
  refuse (task_refused id t) overflow
  present (absent_goal t.goal_id goals)
  check_tasks goals rest

unfoldable pub check_world : BTreeMap Text WorldFact → Result CognitiveError (Unit {0})
unfolding fact_refused
check_world [] = ok tt
check_world ((key, f) ∷ rest) = do refuse (fact_refused key f) overflow; check_world rest

unfoldable pub check_deltas : BTreeMap ℕ LearnedDelta → Result CognitiveError (Unit {0})
unfolding delta_refused
check_deltas [] = ok tt
check_deltas ((id, d) ∷ rest) = do refuse (delta_refused id d) overflow; check_deltas rest

unfoldable pub validate_state : CognitiveState → Result CognitiveError (Unit {0})
unfolding check_goals check_tasks check_world check_deltas
validate_state s = do
  refuse (s.next_goal_id == 0 || s.next_task_id == 0 || s.next_delta_id == 0) overflow
  refuse
      (reaches s.next_goal_id (BTreeMap.last_key s.goals)
        || reaches s.next_task_id (BTreeMap.last_key s.tasks)
        || reaches s.next_delta_id (BTreeMap.last_key s.deltas))
      overflow
  check_goals s.goals
  check_tasks s.goals s.tasks
  check_world s.world
  check_deltas s.deltas

-- `CognitiveRuntime::from_state`
unfoldable pub runtime_of : CognitiveState → Result CognitiveError CognitiveState
unfolding validate_state
runtime_of s = validate_state s >> ok s
