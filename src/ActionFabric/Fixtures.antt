-- ===== src/ActionFabric/Fixtures.antt =====
-- A registry, a plan of two actions in a fabric, an adapter and a verifier: the data of `Tests`.
use ntd.Prelude.{ℕ, ◌+◌, Text, codes, true, false, none, some, [], ◌∷◌, ok, nat_ord, text_ord}
use ntd.Core.{read_only, reversible}
use ntd.Capability.Descriptor.{CapabilityDescriptor, AuthorityGrant, web, file}
use ntd.Capability.Action.{web_search, file_write, ActionOutput, text_value}
use ntd.Capability.Registry.{CapabilityRegistry}
use ntd.ActionFabric.PlanStatus.{ActionPlanStatus}
use ntd.ActionFabric.Types.{
  ActionFabric, ActionPlanState, PlannedAction, ActionStatus, CapabilityAdapter, ActionVerifier,
  AdapterResult, accept,
}

abbrev pub search_id : Text
search_id = codes "search"

abbrev pub write_id : Text
write_id = codes "write"

abbrev pub search_descriptor : CapabilityDescriptor
search_descriptor = record {
  id = search_id;
  version = 1;
  domain = web;
  side_effect = read_only;
  verification_required = true;
  rollback_supported = false;
  resumable = false;
  required_scopes = [];
}

abbrev pub write_descriptor : CapabilityDescriptor
write_descriptor = record {
  id = write_id;
  version = 2;
  domain = file;
  side_effect = reversible;
  verification_required = true;
  rollback_supported = true;
  resumable = true;
  required_scopes = codes "files" ∷ [];
}

abbrev pub registry_two : CapabilityRegistry
registry_two = record {
  descriptors = (search_id, search_descriptor) ∷ (write_id, write_descriptor) ∷ [];
}

abbrev pub found_output : ActionOutput
found_output = record { summary = codes "found"; value = text_value (codes "page"); evidence = [] }

abbrev pub searched : PlannedAction
searched = record {
  id = 1;
  node_id = 10;
  capability = search_id;
  capability_version = 1;
  side_effect = read_only;
  verification_required = true;
  action = web_search (codes "q") 3;
  status = ActionStatus.committed;
  attempts = 1;
  output = some found_output;
  resume_token = none;
  rollback_token = none;
  last_error = none;
}

abbrev pub to_write : PlannedAction
to_write = record {
  id = 2;
  node_id = 11;
  capability = write_id;
  capability_version = 2;
  side_effect = reversible;
  verification_required = true;
  action = file_write (codes "notes") (7 ∷ []);
  status = ActionStatus.prepared;
  attempts = 0;
  output = none;
  resume_token = none;
  rollback_token = none;
  last_error = none;
}

abbrev pub plan_two : ActionPlanState
plan_two = record {
  id = 1;
  task_id = 5;
  cursor = 1;
  status = ActionPlanStatus.ready;
  actions = searched ∷ to_write ∷ [];
}

-- The state of an adapter counts its calls.
abbrev pub fabric_two : ActionFabric ℕ
fabric_two = record {
  registry = registry_two;
  adapters = (search_id, 1) ∷ (write_id, 0) ∷ [];
  state = record { next_plan_id = 2; next_action_id = 3; plans = (1, plan_two) ∷ [] };
}

-- An adapter that completes each action, with a rollback token.
abbrev pub completing : CapabilityAdapter ℕ
completing = record {
  execute =
      λ calls id action. (calls + 1, ok (AdapterResult.completed found_output (some (calls ∷ []))));
  resume =
      λ calls id action token. (calls + 1, ok (AdapterResult.completed found_output (some token)));
  rollback = λ calls id action token. (calls + 1, ok tt);
}

abbrev pub accepting : ActionVerifier ℕ
accepting = record { verify = λ asked d action output. (asked + 1, accept) }

abbrev pub may_write : AuthorityGrant
may_write = record {
  scopes = codes "files" ∷ [];
  allow_external_write = false;
  allow_irreversible = false;
}
