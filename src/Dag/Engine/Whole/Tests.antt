-- ===== src/Dag/Engine/Whole/Tests.antt =====
-- A plan of two writes to one repository and a read behind one of them: it is validated and run.
use hermes_mcp_bridge.Dag.Store
use hermes_mcp_bridge.Dag.Store.{
  body, Checkpoint, apply, apply_all, as_dict, budget_json, create, empty, lease_json, save,
  save_row, schema, states_json,
}
use hermes_mcp_bridge.Dag.Engine.{Run, World, node_idempotency_key, operation_digest, persist}
use hermes_mcp_bridge.Dag.Engine.Args.{
  resolve_all, resolve_args, resolve_binding, resource_key, revalidate_bound_value, walk,
}
use hermes_mcp_bridge.Dag.Engine.Execute.{
  Outcome, cover, dispatch, finish, govern, on_success, perform, returned, run_transform, start,
  within_budget,
}
use hermes_mcp_bridge.Dag.Engine.Propagate.{
  blocked_reason, pass, propagate, propagate_loop, ready_nodes,
}
use hermes_mcp_bridge.Dag.Engine.Batch.{
  taken, Flight, Pool, drain, effective_parallelism, moves, pool_of, run_batch, selects, step,
}
use hermes_mcp_bridge.Dag.Engine.Rounds.{batches}
use hermes_mcp_bridge.Dag.Engine.Status.{
  committed_effects, plan_status_from, post_init, report, unknown_effects,
}
use hermes_mcp_bridge.Dag.Engine.Compensate.{roll_back}
use hermes_mcp_bridge.Dag.Plan.{
  Budget, Node, PlanDefinition, ToolContract, ValidatedPlan, find_node, node,
}
use hermes_mcp_bridge.Dag.Json.{
  Json, array, assert_fields, assert_items, assert_no_secret_material, field, item, no_fields,
  no_items, object, text,
}
use hermes_mcp_bridge.Dag.Transform.{as_list, op_count, set_field, type_of}
use hermes_mcp_bridge.Dag.Transform.Table.{
  apply_transform, check_shape, check_types, find_spec, transform_output_type,
  validate_transform_shape,
}
use hermes_mcp_bridge.Base.{
  is_nil, max, ◌≤◌, Bool, List, Option, String, [], attempt, false, maybe, none, ok, refl, some,
  sorted, str_eq, true, ℕ, ◌∷◌, ◌≡◌,
}
use hermes_mcp_bridge.Dag.Store.{Checkpoint, create, empty, schema}
use hermes_mcp_bridge.Dag.Engine.{Run, World, persist}
use hermes_mcp_bridge.Dag.Engine.Execute.{Outcome, returned}
use hermes_mcp_bridge.Dag.Engine.Batch.{Flight, Pool, drain, effective_parallelism, pool_of}
use hermes_mcp_bridge.Dag.Engine.Whole.Alone.{mutating_alone}
use hermes_mcp_bridge.Dag.Engine.Rounds.Ends.{HasEnded}
use hermes_mcp_bridge.Dag.Engine.Whole.{conclude, fresh_run, run}
use hermes_mcp_bridge.Dag.Engine.Whole.Returns.{Returns, begun, loop_end, run_ends}
use hermes_mcp_bridge.Dag.Json.{Json, array, field, item, no_fields, no_items, object, text}
use hermes_mcp_bridge.Dag.Contract.{
  PlanStatus, continue_independent, isolate_branch, no_rollback, plan_completed, tool, transform,
}
use hermes_mcp_bridge.Dag.Transform.{type_of}
use hermes_mcp_bridge.Dag.Transform.Table.{
  apply_transform, check_shape, find_spec, transform_output_type, validate_transform_shape,
}
use hermes_mcp_bridge.Base.{
  Bool, List, String, [], none, ok, refl, some, sorted, str_eq, true, ◌∷◌, ◌≡◌,
}
use hermes_mcp_bridge.Base.Dict.{by_key, get, set}
use hermes_mcp_bridge.Dag.Contract.{
  continue_independent, isolate_branch, no_rollback, tool, transform,
}
use hermes_mcp_bridge.Dag.Json.{Json, field, no_fields, text}
use hermes_mcp_bridge.Dag.Plan.{
  Budget, Node, PlanDefinition, ToolContract, ValidatedPlan, find_node,
}
use hermes_mcp_bridge.Dag.Order.{
  initial, indegrees, rank_above, release_edges, rounds, successors, take_node, topological_order,
}
use hermes_mcp_bridge.Dag.Transform.{type_of}
use hermes_mcp_bridge.Dag.Transform.Table.{
  check_shape, find_spec, transform_output_type, validate_transform_shape,
}
use hermes_mcp_bridge.Dag.Validate.{check_budget, validate_plan}
use hermes_mcp_bridge.Dag.Validate.Graph.{
  add_bindings, add_deps, binding_edges, check_graph_shape, declared_edges, plan_edges,
}
use hermes_mcp_bridge.Dag.Validate.Checks.{
  Catalog, check_args, check_binding, check_bindings, check_node, check_node_bindings, check_nodes,
  check_slot, check_tool_node, check_transform_node, field_type, literal_resource,
  resolve_source_type,
}

abbrev contract : Bool → ToolContract
contract mutating = record {
  arg_types = ("repository", "string") ∷ [];
  result_types = ("items", "list") ∷ [];
  mutating = mutating;
  provider = "github";
  resource_arg = some "repository";
  compensations = [];
}

abbrev tool_node : String → String → List String → Node
tool_node i t deps = record {
  id = i;
  kind = tool;
  tool = some t;
  op = none;
  args = field "repository" (text "octo/repo") no_fields;
  bindings = [];
  depends_on = deps;
  idempotency = some (record { enabled = true; attempt_epoch = 0 });
  on_failure = isolate_branch;
  timeout_ms = 1000;
  compensation = none;
}

abbrev first_write : Node
first_write = tool_node "a" "write" []

abbrev reading : Node
reading = record (tool_node "c" "read" ("a" ∷ [])) { idempotency = none }

abbrev counting : Node
counting = record {
  id = "d";
  kind = transform;
  tool = none;
  op = some "count";
  args = no_fields;
  bindings =
      record {
        slot = "value";
        source_node = "c";
        source_path = "items" ∷ [];
        type = "list";
        max_bytes = 100;
      }
      ∷ [];
  depends_on = "c" ∷ [];
  idempotency = none;
  on_failure = isolate_branch;
  timeout_ms = 1000;
  compensation = none;
}

abbrev nodes : List Node
nodes = counting ∷ reading ∷ tool_node "b" "write" ("a" ∷ []) ∷ first_write ∷ []

abbrev budget : Budget
budget = record {
  max_external_calls = 3;
  max_result_bytes = 100;
  max_parallelism = 1;
  max_total_wall_ms = 5000;
  per_provider_limits = [];
  per_credential_limits = [];
}

abbrev definition : PlanDefinition
definition = record {
  nodes = nodes;
  budget = budget;
  failure_policy = continue_independent;
  rollback_policy = no_rollback;
  approval = none;
  deadline_ms = 4000;
}

abbrev catalog : Catalog
catalog = record {
  contract = λ t. some (contract (str_eq t "write"));
  is_projected = λ t. true;
  in_scope = λ r. str_eq r "octo/repo";
}

abbrev canonical : Json → String
canonical j = ""

abbrev accepted : ValidatedPlan
accepted = record {
  nodes = nodes;
  budget = budget;
  failure_policy = continue_independent;
  rollback_policy = no_rollback;
  approval = none;
  digest = "p";
  order = "a" ∷ "b" ∷ "c" ∷ "d" ∷ [];
  ranks = ("a", 0) ∷ ("b", 1) ∷ ("c", 1) ∷ ("d", 2) ∷ [];
  resource_keys = none ∷ some "octo/repo" ∷ some "octo/repo" ∷ some "octo/repo" ∷ [];
  mutating_nodes = "b" ∷ "a" ∷ [];
}

validates : Unit {0}
unfolding validate_plan plan_edges declared_edges add_deps binding_edges add_bindings
    topological_order rounds take_node release_edges initial indegrees successors rank_above sorted
    check_graph_shape check_nodes check_node check_tool_node check_transform_node check_args
    literal_resource validate_transform_shape find_spec check_shape transform_output_type
    check_bindings check_node_bindings check_binding check_slot resolve_source_type field_type
    check_budget find_node type_of get set
validates = tt

is_accepted : validate_plan canonical (λ p. "p") catalog definition ≡ ok accepted
unfolding validates
is_accepted = refl

abbrev first_text : Json → String
first_text (object (field k (text s) f)) = s
first_text _ = ""

abbrev world : World
world = record {
  contract = catalog.contract;
  in_scope = catalog.in_scope;
  decide = λ plan n args. record { allowed = true; reason = none; approval_required = false };
  apply_transform = apply_transform canonical (λ v. 10);
  sha256_hex = first_text;
  encoded_size = λ v. 10;
  lower = λ s. s;
}

abbrev fresh : Checkpoint
fresh = record {
  execution_id = "e";
  plan_digest = "p";
  principal_ref = "alice";
  projection_digest = "j";
  policy_digest = "q";
  lease = record { owner_id = "one"; fence_token = 1; expires_at_ms = 50; heartbeat_at_ms = 0 };
  schema_version = schema;
  approval_ref = none;
  status = none;
  node_states = [];
  budget_consumed = [];
  replay = false;
}

-- The read returns two items.
abbrev answer : Flight → Run → Outcome
answer f r = returned (field "items" (array (item (text "x") (item (text "y") no_items))) no_fields)

abbrev last_first : Pool → ℕ
last_first p = 7

abbrev ends_as : Bool → Option PlanStatus
ends_as enabled =
    maybe
      (run world accepted none 4 last_first answer none enabled fresh
        (create world.lower world.sha256_hex fresh empty).0)
      none (λ t. attempt t.1 (λ x. none) (λ e. some e.status))

runs : Unit {0}
unfolding run conclude persist validates Store.create save save_row Store.apply Store.apply_all
    assert_no_secret_material assert_items assert_fields body as_dict states_json budget_json by_key
    lease_json operation_digest node_idempotency_key resolve_args resolve_all resolve_binding walk
    revalidate_bound_value resource_key start govern cover perform within_budget dispatch
    run_transform finish on_success find_node node pass propagate propagate_loop ready_nodes
    blocked_reason plan_status_from committed_effects unknown_effects post_init report roll_back
    batches run_batch drain step moves selects effective_parallelism apply_transform check_types
    op_count as_list set_field
runs = tt

completes : ends_as true ≡ some plan_completed
unfolding runs
completes = refl

run_ends_example :
    Returns (run world accepted none 4 last_first answer none true fresh empty)
    × HasEnded world accepted none 1 last_first answer (
        loop_end world accepted none 4 last_first answer none
          (begun world accepted none 4 last_first answer none fresh empty))
unfolding get effective_parallelism
run_ends_example =
    run_ends canonical (λ p. "p") catalog definition accepted world none 4 last_first answer none
      true fresh empty (refl, (refl, (refl, (refl, tt)))) is_accepted (λ i b p. absurd (p refl))

mutating_alone_example :
    let moment =
      (drain world accepted none (effective_parallelism 4 accepted.budget) last_first answer 4 (
        pool_of
          (tool_node "b" "write" [] ∷ first_write ∷ [])
          (fresh_run accepted fresh empty))).0 in
    (taken moment ≤ effective_parallelism 4 accepted.budget)
    × (taken moment ≤ max 1 accepted.budget.max_parallelism)
    × (is_nil accepted.mutating_nodes ≡ false → taken moment ≤ 1)
mutating_alone_example =
    mutating_alone canonical (λ p. "p") catalog definition accepted world none 4 last_first answer
      (tool_node "b" "write" [] ∷ first_write ∷ []) (fresh_run accepted fresh empty) 4 is_accepted
