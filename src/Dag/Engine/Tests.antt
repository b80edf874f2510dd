-- ===== src/Dag/Engine/Tests.antt =====
-- A plan of a write, a second write behind it, and a read behind that, and the theorems at it.
use hermes_mcp_bridge.Base.Dict
use hermes_mcp_bridge.Dag.Store
use hermes_mcp_bridge.Dag.Engine.Execute.Calls
use hermes_mcp_bridge.Base.{
  if◌then◌else◌, Bool, List, Option, String, [], false, inr, none, not, ok, refl, some, str_eq,
  true, ◌↔◌, ◌∷◌, ◌≡◌, ◌≢◌, ◌≤◌,
}
use hermes_mcp_bridge.Base.Dict.{Dict, get, set}
use hermes_mcp_bridge.Dag.Contract.{
  compensate_on_failure, continue_independent, failed, indeterminate, is_status, isolate_branch,
  plan_completed, skipped, success, tool,
}
use hermes_mcp_bridge.Dag.Json.{
  Json, assert_fields, assert_items, assert_no_secret_material, field, no_fields, null, object,
  text,
}
use hermes_mcp_bridge.Dag.Store.{
  body, Checkpoint, NodeState, apply, apply_all, as_dict, budget_json, create, create_call, empty,
  lease_json, save, save_row, schema, states_json,
}
use hermes_mcp_bridge.Dag.Plan.{Node, ValidatedPlan, find_node, node}
use hermes_mcp_bridge.Dag.Engine.{
  Run, World, blank, compensation_key, node_idempotency_key, operation_digest, persist,
}
use hermes_mcp_bridge.Dag.Engine.Args.{resolve_all, resolve_args}
use hermes_mcp_bridge.Dag.Engine.Status.{any_state, completed_exactly, plan_status_from}
use hermes_mcp_bridge.Dag.Engine.Execute.{
  cover, dispatch, govern, is_replaying, perform, returned, start, within_budget,
}
use hermes_mcp_bridge.Dag.Body.Codec.{IsKeyed}
use hermes_mcp_bridge.Dag.Engine.Execute.Ahead.{IsWritten, start-IsWritten}
use hermes_mcp_bridge.Dag.Engine.Execute.Calls.{Half, calls_within_budget, count, finished, started}
use hermes_mcp_bridge.Dag.Engine.Propagate.{
  blocked_reason, pass, propagate, propagate_loop, ready_nodes, status_at,
}
use hermes_mcp_bridge.Dag.Engine.Propagate.Closure.{IsClosed, OnlySkips, propagate-IsClosed}
use hermes_mcp_bridge.Dag.Engine.Resume.{Reconciled, ask, resume_states, unreachable}
use hermes_mcp_bridge.Dag.Engine.Resume.Blind.{Fate, resume_never_blind}
use hermes_mcp_bridge.Dag.Engine.Compensate.{
  Compensated, candidates, compensate, compensate_all, compensate_node, judge, verified,
}

abbrev first_text : Json → String
first_text (object (field k (text s) f)) = s
first_text _ = ""

abbrev world : World
world = record {
  contract = λ t. some (record {
    arg_types = ("repository", "string") ∷ [];
    result_types = [];
    mutating = true;
    provider = "github";
    resource_arg = some "repository";
    compensations = [];
  });
  in_scope = λ s. str_eq s "octo/repo";
  decide = λ plan n args. record {
    allowed = not (str_eq n.id "x");
    reason = none;
    approval_required = false;
  };
  apply_transform = λ op args size. ok null;
  sha256_hex = first_text;
  encoded_size = λ j. 10;
  lower = λ s. s;
}

abbrev step_node : String → List String → Bool → Node
step_node i deps undo = record {
  id = i;
  kind = tool;
  tool = some "github.create_branch";
  op = none;
  args = field "repository" (text "octo/repo") no_fields;
  bindings = [];
  depends_on = deps;
  idempotency = some (record { enabled = true; attempt_epoch = 0 });
  timeout_ms = 1000;
  on_failure = isolate_branch;
  compensation = if undo then some "github.delete_branch" else none;
}

abbrev write : Node
write = step_node "a" [] true

abbrev plan : ValidatedPlan
plan = record {
  nodes = write ∷ step_node "b" ("a" ∷ []) true ∷ step_node "c" ("b" ∷ []) false ∷ [];
  budget = record {
    max_external_calls = 1;
    max_result_bytes = 100;
    max_parallelism = 1;
    max_total_wall_ms = 1000;
    per_provider_limits = [];
    per_credential_limits = [];
  };
  failure_policy = continue_independent;
  rollback_policy = compensate_on_failure;
  approval = none;
  digest = "p";
  order = "a" ∷ "b" ∷ "c" ∷ [];
  ranks = ("a", 0) ∷ ("b", 1) ∷ ("c", 2) ∷ [];
  resource_keys = some "octo/repo" ∷ some "octo/repo" ∷ none ∷ [];
  mutating_nodes = "a" ∷ "b" ∷ [];
}

abbrev begun : Dict NodeState
begun = ("a", blank "a") ∷ ("b", blank "b") ∷ ("c", blank "c") ∷ []

abbrev checkpoint : Checkpoint
checkpoint = record {
  execution_id = "e";
  plan_digest = "p";
  principal_ref = "alice";
  projection_digest = "j";
  policy_digest = "q";
  lease = record { owner_id = "one"; fence_token = 1; expires_at_ms = 50; heartbeat_at_ms = 0 };
  schema_version = schema;
  approval_ref = none;
  status = none;
  node_states = begun;
  budget_consumed = [];
  replay = false;
}

abbrev run : Run
run = record {
  states = begun;
  store = Store.apply_all world.lower first_text (create_call checkpoint ∷ []) empty;
  checkpoint = checkpoint;
  fence = 1;
  aborted = false;
  external_calls = 0;
  dispatch_order = [];
  inflight = 0;
  max_inflight = 0;
}

program : Unit {0}
unfolding Store.create save save_row Store.apply Store.apply_all assert_no_secret_material
    assert_items assert_fields body as_dict states_json budget_json lease_json Dict.by_key Dict.get
    Dict.set persist operation_digest node_idempotency_key compensation_key resolve_args resolve_all
    start govern cover perform within_budget dispatch find_node node pass propagate propagate_loop
    ready_nodes blocked_reason compensate compensate_all compensate_node candidates judge
    plan_status_from
program = tt

called : (start world plan none write run).1 ≡ ok (some (write.args, some "p"))
unfolding program
called = refl

run-IsKeyed : IsKeyed run.states
unfolding program
run-IsKeyed = ((refl, (refl, (refl, tt))), (refl, (refl, (refl, tt))))

start-IsWritten_example :
    IsWritten world plan none write (write.args, some "p") (start world plan none write run).0
start-IsWritten_example =
    start-IsWritten world plan none write run (write.args, some "p") refl refl run-IsKeyed called

abbrev halves : List Half
halves =
    started write
    ∷ started (step_node "c" ("b" ∷ []) false)
    ∷ finished write (some "p") (returned (field "effect_ref" (text "branch-1") no_fields))
    ∷ []

calls_within_budget_example :
    (count world plan none halves run ≡ (Calls.apply_all world plan none halves run).external_calls)
    × (count world plan none halves run ≤ 1)
    × (is_replaying world plan none run ≡ true → count world plan none halves run ≡ 0)
calls_within_budget_example = calls_within_budget world plan none halves run refl

abbrev half_done : Dict NodeState
half_done =
    ("a", record (blank "a") { status = success; effect_ref = some "branch-1" })
    ∷ ("b", record (blank "b") { status = failed })
    ∷ ("c", blank "c")
    ∷ []

abbrev unsure : Dict NodeState
unsure =
    ("a", record (blank "a") { status = indeterminate }) ∷ ("b", blank "b") ∷ ("c", blank "c") ∷ []

completed_exactly_example :
    (plan_status_from half_done false ≡ plan_completed)
    ↔ (half_done ≢ [])
      × (false ≡ false)
      × (any_state (λ s. not (is_status s success)) half_done ≡ false)
completed_exactly_example = completed_exactly half_done false

skipped_behind : status_at "c" (propagate plan half_done) ≡ skipped
unfolding program
skipped_behind = refl

propagate-IsClosed_example :
    OnlySkips half_done (propagate plan half_done)
    × IsClosed plan plan.order (propagate plan half_done)
propagate-IsClosed_example = propagate-IsClosed plan half_done

nothing_ready : ready_nodes plan (propagate plan half_done) plan.order ≡ []
unfolding program
nothing_ready = refl

abbrev resume_with : Option (Node → String → Reconciled)
resume_with = some (λ n key. unreachable)

at_a : Dict.get unsure "a" ≡ some (record (blank "a") { status = indeterminate })
unfolding program
at_a = refl

resume_never_blind_example :
    (m : NodeState) × (Dict.get (resume_states world plan resume_with unsure) "a" ≡ some m)
    × Fate
        (ask world plan resume_with "a" (record (blank "a") { status = indeterminate }))
        (record (blank "a") { status = indeterminate })
        m
resume_never_blind_example =
    resume_never_blind world plan resume_with unsure "a"
      (record (blank "a") { status = indeterminate }) at_a (inr refl)

abbrev undoing : Run
undoing = record run { states = half_done }

abbrev undo : Option (Node → String → Compensated)
undo = some (λ n ref. verified true)

abbrev outcomes : List (String × String)
outcomes = ("a", "COMPENSATED") ∷ []
