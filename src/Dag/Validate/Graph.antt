-- ===== src/Dag/Validate/Graph.antt =====
-- The edges of a plan and the shape of its graph: `_declared_edges`, `_binding_edges` and
-- `_check_graph_shape` of src/hermes_mcp_bridge/v2/dag_validation.py.
use Prim.Native.String.{◌++◌ as ◌<>◌}
use hermes_mcp_bridge.Base.{
  is_nil, ◌>>◌, ◌>>=◌, Bool, List, Option, Result, String, [], any_of, err, if◌then◌else◌, leb,
  length, map, max, maybe, member, none, not, ok, require, some, sorted, str_eq, text_le, ℕ, ◌&&◌,
  ◌+◌, ◌||◌, ◌∷◌,
}
use hermes_mcp_bridge.Base.Dict.{Dict}
use hermes_mcp_bridge.Dag.Contract.{
  DagError, PlanReason, binding_edge_not_declared, plan_depth_exceeded, plan_fanout_exceeded,
  plan_self_dependency, plan_unknown_dependency, plan_unreachable_node,
}
use hermes_mcp_bridge.Dag.Plan.{Binding, Node}
use hermes_mcp_bridge.Dag.Order.{Edge, has_edge, successors}

abbrev pub plan_error : PlanReason → String → DagError
plan_error r d = record { reason = r; detail = d }

abbrev pub ids_of : List Node → List String
ids_of nodes = map (λ n. n.id) nodes

-- edges.add((a, b))
abbrev pub add_edge : String → String → List Edge → List Edge
add_edge a b es = if has_edge a b es then es else (a, b) ∷ es

unfoldable pub add_deps :
    List String → String → List String → List Edge → Result DagError (List Edge)
add_deps ids i [] es = ok es
add_deps ids i (dep ∷ deps) es = do
  require (member dep ids) (plan_error plan_unknown_dependency (i <> ("->" <> dep)))
  add_deps ids i deps (add_edge dep i es)

unfoldable pub declared_edges : List String → List Node → List Edge → Result DagError (List Edge)
declared_edges ids [] es = ok es
declared_edges ids (n ∷ ns) es = do
  es' ← add_deps ids n.id n.depends_on es
  declared_edges ids ns es'

unfoldable pub add_bindings :
    List String → String → List Binding → List Edge → Result DagError (List Edge)
add_bindings ids i [] es = ok es
add_bindings ids i (b ∷ bs) es = do
  require (member b.source_node ids)
      (plan_error plan_unknown_dependency (i <> ("<-" <> b.source_node)))
  require (not (str_eq b.source_node i)) (plan_error plan_self_dependency i)
  add_bindings ids i bs (add_edge b.source_node i es)

unfoldable pub binding_edges : List String → List Node → List Edge → Result DagError (List Edge)
binding_edges ids [] es = ok es
binding_edges ids (n ∷ ns) es = do
  es' ← add_bindings ids n.id n.bindings es
  binding_edges ids ns es'

-- The order of pairs of texts.
abbrev pub edge_le : Edge → Edge → Bool
edge_le a b = if str_eq a.0 b.0 then text_le a.1 b.1 else text_le a.0 b.0

abbrev pub least_edge : List Edge → Option Edge
least_edge [] = none
least_edge (e ∷ es) = some (maybe (least_edge es) e (λ f. if edge_le e f then e else f))

-- implied - declared
abbrev pub minus_edges : List Edge → List Edge → List Edge
minus_edges [] declared = []
minus_edges (e ∷ es) declared =
    let rest = minus_edges es declared in if has_edge e.0 e.1 declared then rest else e ∷ rest

-- The edges that `validate_plan` goes on with.
unfoldable pub plan_edges : List Node → Result DagError (List Edge)
plan_edges nodes = do
  declared ← declared_edges (ids_of nodes) nodes []
  implied ← binding_edges (ids_of nodes) nodes []
  maybe (least_edge (minus_edges implied declared)) (ok declared)
      λ e. err (plan_error binding_edge_not_declared (e.0 <> ("->" <> e.1)))

abbrev pub max_rank : Dict ℕ → ℕ
max_rank [] = 0
max_rank ((i, r) ∷ ranks) = max r (max_rank ranks)

-- The first source, in the order of names, of more than DAG_MAX_FANOUT edges.
abbrev pub fanout_ok : List String → List Edge → Result DagError (Unit {0})
fanout_ok [] es = ok tt
fanout_ok (i ∷ is) es = do
  require (leb (length (successors es i)) 16) (plan_error plan_fanout_exceeded i)
  fanout_ok is es

abbrev pub touches : String → List Edge → Bool
touches i es = any_of (λ (e : Edge). str_eq e.0 i || str_eq e.1 i) es

abbrev pub all_touched : List Edge → List Node → Result DagError (Unit {0})
all_touched es [] = ok tt
all_touched es (n ∷ ns) = do
  require (touches n.id es) (plan_error plan_unreachable_node n.id)
  all_touched es ns

unfoldable pub check_graph_shape : List Node → List Edge → Dict ℕ → Result DagError (Unit {0})
check_graph_shape nodes edges ranks = do
  require (is_nil ranks || leb (max_rank ranks + 1) 16)
      (plan_error plan_depth_exceeded "graph depth")
  fanout_ok (sorted (map (λ e. e.0) edges)) edges
  if leb 2 (length nodes) && not (is_nil edges) then all_touched edges nodes else ok tt
