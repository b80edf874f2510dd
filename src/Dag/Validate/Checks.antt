-- ===== src/Dag/Validate/Checks.antt =====
-- The checks of a plan's nodes and bindings against the catalog: `_check_nodes`, `_check_bindings` and
-- `_resolve_source_type` of src/hermes_mcp_bridge/v2/dag_validation.py.
use hermes_mcp_bridge.Base.Dict
use Prim.Native.String.{◌++◌ as ◌<>◌}
use hermes_mcp_bridge.Base.{
  is_nil, ◌>>◌, ◌>>=◌, Bool, List, Option, Result, String, [], err, false, if◌then◌else◌, is_some,
  join, map, maybe, member, none, not, ok, require, some, sorted, str_eq, true, without, ◌++◌, ◌>>◌,
  ◌||◌, ◌∷◌,
}
use hermes_mcp_bridge.Base.Dict.{Dict, get}
use hermes_mcp_bridge.Dag.Contract.{
  DagError, binding_edge_not_declared, binding_field_unknown, binding_source_unshaped,
  binding_target_type_mismatch, binding_type_mismatch, plan_arg_invalid,
  plan_compensation_undeclared, plan_idempotency_missing, plan_scope_denied,
  plan_tool_not_projected, plan_tool_unknown, plan_unknown_dependency, tool, transform,
}
use hermes_mcp_bridge.Dag.Json.{Json, text}
use hermes_mcp_bridge.Dag.Plan.{Binding, Node, ToolContract, find_node}
use hermes_mcp_bridge.Dag.Transform.{argument, field_names, get_field, type_of}
use hermes_mcp_bridge.Dag.Transform.Table.{transform_output_type, validate_transform_shape}
use hermes_mcp_bridge.Dag.Validate.Graph.{plan_error}

pub record Catalog : Type 0 where
  pub contract : String → Option ToolContract
  pub is_projected : String → Bool
  pub in_scope : String → Bool

-- `raise`, where the condition fails, and the value of an option that has one.
abbrev pub given : {A : Type 0} → Option A → DagError → Result DagError A
given none e = err e
given (some a) e = ok a

abbrev slots_of : List Binding → List String
slots_of bs = map (λ b. b.slot) bs

abbrev at_slot : Node → String → String
at_slot n slot = n.id <> (":args." <> slot)

-- `str(node.op)`, `str(node.tool)`
abbrev or_none : Option String → String
or_none o = maybe o "None" (λ s. s)

abbrev text_or_none : Option Json → Option String
text_or_none (some (text s)) = some s
text_or_none _ = none

-- expected != TYPE_ANY and type_of(value) != expected
unfoldable pub check_args : Node → Dict String → List String → Result DagError (Unit {0})
check_args n types [] = ok tt
check_args n types (name ∷ names) = do
  expected ← given (Dict.get types name) (plan_error plan_arg_invalid (n.id <> (":" <> name)))
  actual ← if str_eq expected "any" then ok "any" else type_of (argument n.args name)
  require (str_eq actual expected) (plan_error plan_arg_invalid (n.id <> (":" <> name)))
  check_args n types names

abbrev keys_of : Dict String → List String
keys_of d = map (λ e. e.0) d

-- ".".join(path)
abbrev dotted : String → List String → String
dotted p [] = p
dotted p (q ∷ ps) = p <> ("." <> dotted q ps)

-- A compensation is one that the contract names.
abbrev compensation_ok : Node → List String → Bool
compensation_ok n names = maybe n.compensation true (λ o. member o names)

module _ (canonical : Json → String) (catalog : Catalog) where
  unfoldable pub check_transform_node : Node → Result DagError (Option String × Bool)
  check_transform_node n = do
    validate_transform_shape canonical (or_none n.op)
        (field_names n.args ++ without (field_names n.args) (slots_of n.bindings))
    require (not (is_some n.compensation)) (plan_error plan_compensation_undeclared n.id)
    ok (none, false)

  -- The resource of a tool node, which a literal argument names.
  unfoldable pub literal_resource : Node → ToolContract → Option String
  literal_resource n c = maybe c.resource_arg none (λ a. text_or_none (get_field n.args a))

  unfoldable pub check_tool_node : Node → Result DagError (Option String × Bool)
  check_tool_node n = do
    c ← given (catalog.contract (or_none n.tool)) (plan_error plan_tool_unknown (or_none n.tool))
    require (catalog.is_projected (or_none n.tool))
        (plan_error plan_tool_not_projected (or_none n.tool))
    check_args n c.arg_types (sorted (field_names n.args))
    let missing = without (slots_of n.bindings) (without (field_names n.args) (keys_of c.arg_types))
    require (is_nil missing)
        (plan_error plan_arg_invalid (n.id <> (": missing " <> join (sorted missing))))
    require (maybe (literal_resource n c) true catalog.in_scope) (plan_error plan_scope_denied n.id)
    require (not c.mutating || maybe n.idempotency false (λ i. i.enabled))
        (plan_error plan_idempotency_missing n.id)
    require (compensation_ok n c.compensations) (plan_error plan_compensation_undeclared n.id)
    ok (literal_resource n c, c.mutating)

  unfoldable pub check_node : Node → Result DagError (Option String × Bool)
  check_node n = elim n.kind [ tool ↦ check_tool_node n | transform ↦ check_transform_node n ]

  -- The resources of the nodes, in their order, and the nodes that mutate.
  unfoldable pub check_nodes : List Node → Result DagError (List (Option String) × List String)
  check_nodes [] = ok ([], [])
  check_nodes (n ∷ ns) = do
    here ← check_node n
    rest ← check_nodes ns
    ok (here.0 ∷ rest.0, if here.1 then n.id ∷ rest.1 else rest.1)

  unfoldable pub field_type : Node → List String → Result DagError String
  field_type source [] = ok "object"
  field_type source (p ∷ ps) = do
    c ←
        given (catalog.contract (or_none source.tool))
          (plan_error plan_tool_unknown (or_none source.tool))
    given (Dict.get c.result_types (dotted p ps))
        (plan_error binding_field_unknown (source.id <> ("." <> dotted p ps)))

  unfoldable pub resolve_source_type : List Node → String → List String → Result DagError String
  resolve_source_type nodes i path = do
    source ← given (find_node i nodes) (plan_error plan_unknown_dependency i)
    elim source.kind [
      | tool ↦ field_type source path
      | transform ↦
          require (is_nil path) (plan_error binding_source_unshaped i)
          >> transform_output_type canonical (or_none source.op)
    ]

  -- What the contract of a tool node expects in the slot.
  unfoldable pub check_slot : Node → Binding → Result DagError (Unit {0})
  check_slot n b = elim n.kind [
    | tool ↦ (do
      c ← given (catalog.contract (or_none n.tool)) (plan_error plan_tool_unknown (or_none n.tool))
      expected ←
          given (Dict.get c.arg_types b.slot) (plan_error binding_field_unknown (at_slot n b.slot))
      require (str_eq expected "any" || str_eq expected b.type)
          (plan_error binding_target_type_mismatch (at_slot n b.slot)))
    | transform ↦ ok tt
  ]

  unfoldable pub check_binding : List Node → Node → Binding → Result DagError (Unit {0})
  check_binding nodes n b = do
    require (member b.source_node n.depends_on)
        (plan_error binding_edge_not_declared (at_slot n b.slot))
    source_type ← resolve_source_type nodes b.source_node b.source_path
    require (str_eq source_type "any" || str_eq b.type source_type)
        (plan_error binding_type_mismatch (at_slot n b.slot))
    check_slot n b
    require (not (member b.slot (field_names n.args)))
        (plan_error plan_arg_invalid (at_slot n b.slot <> " duplicates a literal"))

  unfoldable pub check_node_bindings : List Node → Node → List Binding → Result DagError (Unit {0})
  check_node_bindings nodes n [] = ok tt
  check_node_bindings nodes n (b ∷ bs) = do check_binding nodes n b; check_node_bindings nodes n bs

  unfoldable pub check_bindings : List Node → List Node → Result DagError (Unit {0})
  check_bindings nodes [] = ok tt
  check_bindings nodes (n ∷ ns) = do check_node_bindings nodes n n.bindings; check_bindings nodes ns
