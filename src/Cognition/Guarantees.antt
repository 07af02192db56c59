-- ===== src/Cognition/Guarantees.antt =====
-- crates/ntd-runtime/src/cognition.rs: the states that a program can reach by the methods of
-- `CognitiveState` and `CognitiveRuntime`, and what all of them keep.
use ntd.Prelude.{ℕ, ◌≡◌, refl, Bool, Text, List, Option, ok}
use ntd.Core.{Intent, TaskGraph}
use ntd.Memory.Laws.{IsMemory, memory_new-IsMemory}
use ntd.Cognition.{
  CognitiveState, CognitiveIdentity, state_new, CognitivePlanner, CognitiveExecutor,
  CognitiveVerifier, DeltaActivationHook,
}
use ntd.Cognition.Actions.{Keeps-state, Ends-in}
use ntd.Cognition.State.{add_goal, submit_task, set_world_fact, install_delta}
use ntd.Cognition.Validate.{validate_state}
use ntd.Cognition.WellFormed.{IsSound}
use ntd.Cognition.Soundness.{IsSound-validate}
use ntd.Cognition.Keeping.{Spares-Keeps, set_world_fact-Spares}
use ntd.Cognition.Additions.{add_goal-Keeps, submit_task-Keeps, install_delta-Keeps}
use ntd.Cognition.Runtime.{
  start_external_task, pause_external_task, complete_external_task, activate_delta,
}
use ntd.Cognition.External.{
  start_external_task-Keeps, pause_external_task-Keeps, complete_external_task-Ensures, Room,
  activate_delta-IsSound,
}
use ntd.Cognition.Budget.{Float, CognitiveSignals}
use ntd.Cognition.Advance.{advance}
use ntd.Cognition.Cycle.{advance-IsSound}

pub state_new-IsSound : (identity : CognitiveIdentity) → IsSound (state_new identity)
state_new-IsSound identity = record {
  goals = record { positive = refl; sorted = tt; below = tt; entries = tt };
  tasks = record { positive = refl; sorted = tt; below = tt; entries = tt };
  deltas = record { positive = refl; sorted = tt; below = tt; entries = tt };
  world = tt;
  memory = memory_new-IsMemory;
}

module _ {P X V H F : Type 0} (planner : CognitivePlanner P) (executor : CognitiveExecutor X)
    (verifier : CognitiveVerifier V) (hook : DeltaActivationHook H) (is_alphanumeric : ℕ → Bool)
    (f : Float F) where
  -- Built from a new state by the methods, the calls that fail included. A task is completed only
  -- where its step budget has room for one more step.
  pub data Reachable : CognitiveState → Type 0 where
    created : (identity : CognitiveIdentity) → Reachable (state_new identity)
    adds_goal :
        (objective : Text) (criteria : List Text) (s : CognitiveState)
        → Reachable s
        → Reachable (add_goal objective criteria s).0
    submits :
        (intent : Intent) (graph : TaskGraph) (goal_id : Option ℕ) (s : CognitiveState)
        → Reachable s
        → Reachable (submit_task intent graph goal_id s).0
    sets_fact :
        (key value : Text) (s : CognitiveState)
        → Reachable s
        → Reachable (set_world_fact key value s).0
    installs :
        (namespace : Text) (generation : ℕ) (payload : List ℕ) (s : CognitiveState)
        → Reachable s
        → Reachable (install_delta namespace generation payload s).0
    starts : (id : ℕ) (s : CognitiveState) → Reachable s → Reachable (start_external_task id s).0
    pauses :
        (id : ℕ) (reason : Text) (s : CognitiveState)
        → Reachable s
        → Reachable (pause_external_task id reason s).0
    completes :
        (id : ℕ) (summary : Text) (s : CognitiveState)
        → Room id s.tasks
        → Reachable s
        → Reachable (complete_external_task id summary s).0
    activates :
        (id : ℕ) (s : CognitiveState) (h : H)
        → Reachable s
        → Reachable (activate_delta hook id (s, h)).0.0
    advances :
        (id : ℕ) (signals : CognitiveSignals F) (p : P) (x : X) (v : V) (s : CognitiveState)
        → Reachable s
        → Reachable
            (advance planner executor verifier is_alphanumeric f id signals
              (record { state = s; planner = p; executor = x; verifier = v })).0.state

  pub Reachable-Sound : (s : CognitiveState) → Reachable s → IsSound s
  Reachable-Sound _ (created identity) = state_new-IsSound identity
  Reachable-Sound _ (adds_goal objective criteria s r) =
      Keeps-state IsSound _ s (add_goal-Keeps objective criteria) (Reachable-Sound s r)
  Reachable-Sound _ (submits intent graph goal_id s r) =
      Keeps-state IsSound _ s (submit_task-Keeps intent graph goal_id) (Reachable-Sound s r)
  Reachable-Sound _ (sets_fact key value s r) =
      Keeps-state IsSound _ s (Spares-Keeps (set_world_fact-Spares key value)) (Reachable-Sound s r)
  Reachable-Sound _ (installs namespace generation payload s r) =
      Keeps-state IsSound _ s (install_delta-Keeps namespace generation payload)
        (Reachable-Sound s r)
  Reachable-Sound _ (starts id s r) =
      Keeps-state IsSound _ s (start_external_task-Keeps id) (Reachable-Sound s r)
  Reachable-Sound _ (pauses id reason s r) =
      Keeps-state IsSound _ s (pause_external_task-Keeps id reason) (Reachable-Sound s r)
  Reachable-Sound _ (completes id summary s room r) =
      Ends-in IsSound (complete_external_task id summary s) (
        (complete_external_task-Ensures id summary s.tasks room).ends s
          (record { sound = Reachable-Sound s r; same = refl }))
  Reachable-Sound _ (activates id s h r) = activate_delta-IsSound hook id s h (Reachable-Sound s r)
  Reachable-Sound _ (advances id signals p x v s r) =
      (advance-IsSound planner executor verifier is_alphanumeric f id signals
        (record { state = s; planner = p; executor = x; verifier = v }) (Reachable-Sound s r)).0

  -- Whatever sequence of calls built a state from a new one, `validate_state` accepts it and its
  -- memory is well-formed, calls that fail and the agents' answers included, provided that
  -- `complete_external_task` is called only on tasks with room for one more step.
  pub Reachable-validate :
      (s : CognitiveState) → Reachable s → (validate_state s ≡ ok tt) × IsMemory s.memory
  Reachable-validate s r =
      let sound = Reachable-Sound s r in (IsSound-validate s sound, sound.memory)
