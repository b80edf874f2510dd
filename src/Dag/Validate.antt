-- ===== src/Dag/Validate.antt =====
-- `validate_plan` of src/hermes_mcp_bridge/v2/dag_validation.py, but for the checks of nodes and bindings,
-- which Checks models. A set of edges is a list without duplicates; the catalog, the digest of a plan and the
-- canonical JSON are parameters. The bindings of a node are read in the order of their targets throughout.
pub mod Sound
pub mod Graph
pub mod Checks
use hermes_mcp_bridge.Base.Dict
use Prim.Native.String.{◌++◌ as ◌<>◌}
use hermes_mcp_bridge.Base.{
  is_nil, ◌>>◌, ◌>>=◌, Bool, List, Result, String, [], false, if◌then◌else◌, leb, map, ok, require,
  true, without, ℕ, ◌+◌, ◌||◌, ◌∷◌,
}
use hermes_mcp_bridge.Base.Dict.{Dict, set}
use hermes_mcp_bridge.Dag.Contract.{DagError, NodeKind, plan_budget_exceeded, tool, transform}
use hermes_mcp_bridge.Dag.Json.{Json}
use hermes_mcp_bridge.Dag.Plan.{Node, PlanDefinition, ValidatedPlan, node}
use hermes_mcp_bridge.Dag.Order.{topological_order}
use hermes_mcp_bridge.Dag.Validate.Graph.{check_graph_shape, plan_edges, plan_error}
use hermes_mcp_bridge.Dag.Validate.Checks.{Catalog, check_bindings, check_nodes}

abbrev is_tool : NodeKind → Bool
is_tool tool = true
is_tool transform = false

abbrev tool_nodes : List Node → ℕ
tool_nodes [] = 0
tool_nodes (n ∷ ns) = (if is_tool n.kind then 1 else 0) + tool_nodes ns

abbrev timeouts_ok : List Node → Result DagError (Unit {0})
timeouts_ok [] = ok tt
timeouts_ok (n ∷ ns) = do
  require (leb n.timeout_ms 120000) (plan_error plan_budget_exceeded (n.id <> ": node timeout"))
  timeouts_ok ns

unfoldable pub check_budget : PlanDefinition → List String → Result DagError (Unit {0})
check_budget plan mutating = do
  require (leb (tool_nodes plan.nodes) plan.budget.max_external_calls)
      (plan_error plan_budget_exceeded "external calls")
  require (leb plan.deadline_ms plan.budget.max_total_wall_ms)
      (plan_error plan_budget_exceeded "deadline exceeds wall budget")
  timeouts_ok plan.nodes
  require (leb plan.budget.max_parallelism 4)
      (plan_error plan_budget_exceeded "parallelism ceiling")
  require (is_nil mutating || leb plan.budget.max_parallelism 1)
      (plan_error plan_budget_exceeded "mutating plan parallelism")

module _ (canonical : Json → String) (plan_digest : PlanDefinition → String)
    (catalog : Catalog) where
  unfoldable pub validate_plan : PlanDefinition → Result DagError ValidatedPlan
  validate_plan plan = do
    edges ← plan_edges plan.nodes
    sorted_nodes ← topological_order (map (λ n. n.id) plan.nodes) edges
    check_graph_shape plan.nodes edges sorted_nodes.1
    checked ← check_nodes canonical catalog plan.nodes
    check_bindings canonical catalog plan.nodes plan.nodes
    check_budget plan checked.1
    ok (record {
      nodes = plan.nodes;
      budget = plan.budget;
      failure_policy = plan.failure_policy;
      rollback_policy = plan.rollback_policy;
      approval = plan.approval;
      digest = plan_digest plan;
      order = sorted_nodes.0;
      ranks = sorted_nodes.1;
      resource_keys = checked.0;
      mutating_nodes = checked.1;
    })
