-- ===== src/Dag/Engine/Args.antt =====
-- `_resolve_args`, `_resource_key`, `_check_approval` and `_assert_operation_covered` of the engine, and
-- `revalidate_bound_value` of dag_validation.py.
use hermes_mcp_bridge.Base.Dict
use hermes_mcp_bridge.Base.{
  member, ◌>>◌, ◌>>=◌, Bool, List, Option, Result, String, [], and_then, any_of, err, false,
  if◌then◌else◌, leb, map, maybe, none, not, ok, require, some, str_eq, true, ℕ, ◌&&◌, ◌||◌, ◌∷◌,
}
use hermes_mcp_bridge.Base.Dict.{Dict, get}
use hermes_mcp_bridge.Dag.Contract.{
  DagError, approval_already_consumed, approval_digest_mismatch, approval_expired, approval_missing,
  approval_operation_digest_uncovered, approval_scope_insufficient, binding_runtime_reject,
  dag_disabled, is_status, plan_scope_denied, success, tool, transform,
}
use hermes_mcp_bridge.Dag.Json.{object, text, Fields, Json}
use hermes_mcp_bridge.Dag.Store.{
  Checkpoint, CheckpointStore, NodeState, consume_approval, create, schema,
}
use hermes_mcp_bridge.Dag.Transform.{get_field, set_field, type_of}
use hermes_mcp_bridge.Dag.Plan.{Approval, Binding, Node, ToolContract, ValidatedPlan}
use hermes_mcp_bridge.Dag.Engine.{text, object, World, blank, dag_error, operation_digest}

-- The walk along a binding's path.
unfoldable pub walk : List String → Json → Result DagError Json
walk [] v = ok v
walk (p ∷ ps) (object f) =
    maybe (get_field f p) (err (dag_error binding_runtime_reject "path")) (λ v. walk ps v)
walk (p ∷ ps) v = err (dag_error binding_runtime_reject "path")

is_text : Json → Bool
is_text (text s) = true
is_text _ = false

-- The text of a resource, where the value is one.
abbrev text_of : Json → Option String
text_of (text s) = some s
text_of _ = none

module _ (w : World) where
  -- `not isinstance(value, str) or not catalog.in_scope(value)`
  abbrev out_of_scope : Json → Bool
  out_of_scope (text s) = not (w.in_scope s)
  out_of_scope _ = true

  unfoldable pub revalidate_bound_value : Json → String → ℕ → Bool → Result DagError Json
  revalidate_bound_value value declared max_bytes is_resource = do
    actual ← type_of value
    require (str_eq actual declared || str_eq declared "any")
        (dag_error binding_runtime_reject "type")
    require (leb (w.encoded_size value) max_bytes) (dag_error binding_runtime_reject "size")
    require (not (is_resource && out_of_scope value)) (dag_error plan_scope_denied "bound resource")
    ok value

  -- The contract of a tool node.
  abbrev contract_of : Node → Option ToolContract
  contract_of n = elim n.kind [
    | tool ↦ maybe n.tool (w.contract "None") w.contract
    | transform ↦ none
  ]

  abbrev is_resource : Node → String → Bool
  is_resource n slot =
      maybe (contract_of n) false (λ c. maybe c.resource_arg false (λ a. str_eq slot a))

  unfoldable pub resolve_binding : Node → Dict NodeState → Binding → Result DagError Json
  resolve_binding n states b =
      maybe (Dict.get states b.source_node)
        (err (dag_error binding_runtime_reject "source not ready"))
        λ s.
          if is_status s.status success
          then (do
            value ← walk b.source_path s.result
            revalidate_bound_value value b.type b.max_bytes (is_resource n b.slot))
          else err (dag_error binding_runtime_reject "source not ready")

  unfoldable pub resolve_all :
      Node → Dict NodeState → List Binding → Fields → Result DagError Fields
  resolve_all n states [] resolved = ok resolved
  resolve_all n states (b ∷ bs) resolved = do
    value ← resolve_binding n states b
    resolve_all n states bs (set_field b.slot value resolved)

  unfoldable pub resolve_args : Node → Dict NodeState → Result DagError Fields
  resolve_args n states = resolve_all n states n.bindings n.args

  -- The provider and the value of a resource; the source joins them by a colon and splits at the first one,
  -- which is the same where no provider's name has a colon.
  unfoldable pub resource_key : Node → Fields → Option (String × String)
  resource_key n resolved = maybe (contract_of n) none λ c.
      maybe c.resource_arg none λ a.
        maybe (get_field resolved a) none λ v. maybe (text_of v) none (λ s. some (c.provider, s))

  covered_by : Approval → Node → Fields → Bool
  covered_by a n resolved =
      member (operation_digest w n.id resolved) a.operation_digests
      || a.runtime_bound && maybe (resource_key n resolved) false (λ k. member k.1 a.scope)

  pub assert_operation_covered : ValidatedPlan → Node → Fields → Result DagError (Unit {0})
  assert_operation_covered plan n resolved =
      maybe plan.approval (err (dag_error approval_missing n.id))
        λ a. require (covered_by a n resolved) (dag_error approval_operation_digest_uncovered n.id)

  -- required_scope.issubset(approval.scope), over the resources that are known
  in_all : List (Option String) → List String → Bool
  in_all [] scope = true
  in_all (none ∷ ks) scope = in_all ks scope
  in_all (some k ∷ ks) scope = member k scope && in_all ks scope

  -- The checks before the approval is consumed.
  approval_checks : ValidatedPlan → ℕ → Approval → Result DagError (Unit {0})
  approval_checks plan now_ms a = do
    require (str_eq a.digest plan.digest) (dag_error approval_digest_mismatch "digest")
    require (not (leb a.expires_at_ms now_ms)) (dag_error approval_expired "expired")
    require (in_all plan.resource_keys a.scope) (dag_error approval_scope_insufficient "scope")

  consume : Approval → String → CheckpointStore → CheckpointStore × Result DagError (Option String)
  consume a execution_id s =
      let (s', won) = consume_approval a.approval_id a.nonce execution_id s in
      (
        s',
        if won then ok (some a.approval_id) else err (dag_error approval_already_consumed "nonce"),
      )

  pub check_approval :
      ValidatedPlan
      → ℕ
      → String
      → CheckpointStore
      → CheckpointStore × Result DagError (Option String)
  check_approval plan now_ms execution_id s =
      if not (any_of (λ n. (w.decide plan n n.args).approval_required) plan.nodes)
      then (s, ok none)
      else maybe plan.approval (s, err (dag_error approval_missing "approval required"))
          λ a. and_then (s, approval_checks plan now_ms a) (λ _ s. consume a execution_id s)

  -- `admit` of an enabled engine, for the first execution and for a replay.
  abbrev first_checkpoint :
      ValidatedPlan
      → String
      → String
      → String
      → String
      → String
      → ℕ
      → Bool
      → Option String
      → Checkpoint
  first_checkpoint plan e principal projection policy owner expires replay approval = record {
    execution_id = e;
    plan_digest = plan.digest;
    principal_ref = principal;
    projection_digest = projection;
    policy_digest = policy;
    lease = record {
      owner_id = owner;
      fence_token = 1;
      expires_at_ms = expires;
      heartbeat_at_ms = 0;
    };
    schema_version = schema;
    approval_ref = approval;
    status = none;
    node_states = map (λ n. (n.id, blank n.id)) plan.nodes;
    budget_consumed = [];
    replay = replay;
  }

  pub admit :
      Bool
      → ValidatedPlan
      → String
      → String
      → String
      → String
      → String
      → ℕ
      → ℕ
      → Bool
      → CheckpointStore
      → CheckpointStore × Result DagError Checkpoint
  admit enabled plan e principal projection policy owner now_ms expires replay s =
      if not enabled
      then (s, err (dag_error dag_disabled "dag feature flag is off"))
      else and_then (if replay then (s, ok none) else check_approval plan now_ms e s) λ approval s.
        let c = first_checkpoint plan e principal projection policy owner expires replay approval in
        and_then (create w.lower w.sha256_hex c s) (λ _ s. (s, ok c))
