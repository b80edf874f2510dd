-- ===== src/Dag/Body.antt =====
-- `Lease`, `NodeState` and `Checkpoint` of src/hermes_mcp_bridge/v2/dag_store.py, and the body of a checkpoint as JSON.
pub mod Codec
use hermes_mcp_bridge.Base.Dict
use hermes_mcp_bridge.Base.Dict.{Dict}
use hermes_mcp_bridge.Base.{Bool, Option, String, maybe, none, some, [], ℕ, ◌∷◌}
use hermes_mcp_bridge.Dag.Contract.{NodeStatus, PlanStatus, plan_status_value, status_value}
use hermes_mcp_bridge.Dag.Json.{
  Fields, Items, Json, array, boolean, field, item, no_fields, no_items, null, number, object, text,
}

pub record Lease : Type 0 where
  pub owner_id : String
  pub fence_token : ℕ
  pub expires_at_ms : ℕ
  pub heartbeat_at_ms : ℕ

pub record NodeState : Type 0 where
  pub node_id : String
  pub status : NodeStatus
  pub attempt : ℕ
  pub idempotency_key : Option String
  pub effect_ref : Option String
  pub result : Json
  pub reason_code : Option String
  pub operation_digest : Option String

pub record Checkpoint : Type 0 where
  pub execution_id : String
  pub plan_digest : String
  pub principal_ref : String
  pub projection_digest : String
  pub policy_digest : String
  pub lease : Lease
  pub schema_version : String
  pub approval_ref : Option String
  pub status : Option PlanStatus
  pub node_states : Dict NodeState
  pub budget_consumed : Dict ℕ
  pub replay : Bool

abbrev or_null : Option String → Json
or_null none = null
or_null (some s) = text s

-- `NodeState.as_dict`
unfoldable pub as_dict : NodeState → Json
as_dict n = object (
    field "node_id" (text n.node_id) (
      field "status" (text (status_value n.status)) (
        field "attempt" (number n.attempt) (
          field "idempotency_key" (or_null n.idempotency_key) (
            field "effect_ref" (or_null n.effect_ref) (
              field "result" n.result (
                field "reason_code" (or_null n.reason_code)
                  (field "operation_digest" (or_null n.operation_digest) no_fields))))))))

unfoldable pub states_json : Dict NodeState → Items
states_json [] = no_items
states_json ((k, n) ∷ d) = item (as_dict n) (states_json d)

unfoldable pub budget_json : Dict ℕ → Fields
budget_json [] = no_fields
budget_json ((k, n) ∷ d) = field k (number n) (budget_json d)

unfoldable pub lease_json : Lease → Json
lease_json l = object (
    field "owner_id" (text l.owner_id) (
      field "fence_token" (number l.fence_token) (
        field "expires_at_ms" (number l.expires_at_ms)
          (field "heartbeat_at_ms" (number l.heartbeat_at_ms) no_fields))))

-- `Checkpoint.body`
unfoldable pub body : Checkpoint → Json
body c = object (
    field "execution_id" (text c.execution_id) (
      field "plan_digest" (text c.plan_digest) (
        field "principal_ref" (text c.principal_ref) (
          field "projection_digest" (text c.projection_digest) (
            field "policy_digest" (text c.policy_digest) (
              field "schema_version" (text c.schema_version) (
                field "approval_ref" (or_null c.approval_ref) (
                  field "status" (maybe c.status null (λ s. text (plan_status_value s))) (
                    field "replay" (boolean c.replay) (
                      field "budget_consumed" (object (budget_json (Dict.by_key c.budget_consumed)))
                        (field "lease" (lease_json c.lease) (
                          field "node_states" (array (states_json (Dict.by_key c.node_states)))
                            no_fields))))))))))))
