-- ===== src/Dag/Plan.antt =====
-- The plan of src/hermes_mcp_bridge/v2/dag_contract.py and dag_validation.py as the engine reads it. The
-- bindings of a node stand in the order of their targets, each with its source taken apart.
use mathlib.Core.Option.{some-injective}
use hermes_mcp_bridge.Base.{
  eq_iff, ◌∙◌, sym, ap, if_ind, ◌≡◌, Bool, List, Option, String, [], if◌then◌else◌, none, some,
  str_eq, ℕ, ◌∷◌,
}
use hermes_mcp_bridge.Base.Dict.{Dict}
use hermes_mcp_bridge.Dag.Contract.{FailurePolicy, NodeKind, OnFailure, RollbackPolicy}
use hermes_mcp_bridge.Dag.Json.{Fields}

pub record Binding : Type 0 where
  pub slot : String
  pub source_node : String
  pub source_path : List String
  pub type : String
  pub max_bytes : ℕ

pub record Idempotency : Type 0 where
  pub enabled : Bool
  pub attempt_epoch : ℕ

-- A compensation is the name of its operation.
pub record Node : Type 0 where
  pub id : String
  pub kind : NodeKind
  pub tool : Option String
  pub op : Option String
  pub args : Fields
  pub bindings : List Binding
  pub depends_on : List String
  pub idempotency : Option Idempotency
  pub on_failure : OnFailure
  pub timeout_ms : ℕ
  pub compensation : Option String

pub record Budget : Type 0 where
  pub max_external_calls : ℕ
  pub max_result_bytes : ℕ
  pub max_parallelism : ℕ
  pub max_total_wall_ms : ℕ
  pub per_provider_limits : Dict ℕ
  pub per_credential_limits : Dict ℕ

pub record Approval : Type 0 where
  pub approval_id : String
  pub digest : String
  pub nonce : String
  pub expires_at_ms : ℕ
  pub scope : List String
  pub runtime_bound : Bool
  pub operation_digests : List String

pub record PlanDefinition : Type 0 where
  pub nodes : List Node
  pub budget : Budget
  pub failure_policy : FailurePolicy
  pub rollback_policy : RollbackPolicy
  pub approval : Option Approval
  pub deadline_ms : ℕ

-- `ValidatedPlan` with the parts of its `PlanDefinition` that the engine reads.
pub record ValidatedPlan : Type 0 where
  pub nodes : List Node
  pub budget : Budget
  pub failure_policy : FailurePolicy
  pub rollback_policy : RollbackPolicy
  pub approval : Option Approval
  pub digest : String
  pub order : List String
  pub ranks : Dict ℕ
  pub resource_keys : List (Option String)
  pub mutating_nodes : List String

pub record ToolContract : Type 0 where
  pub arg_types : Dict String
  pub result_types : Dict String
  pub mutating : Bool
  pub provider : String
  pub resource_arg : Option String
  pub compensations : List String

unfoldable pub find_node : String → List Node → Option Node
find_node i [] = none
find_node i (n ∷ ns) = if str_eq n.id i then some n else find_node i ns

-- `PlanDefinition.node`, which raises where there is none.
unfoldable pub node : ValidatedPlan → String → Option Node
node plan i = find_node i plan.nodes

find_node-id : (i : String) (l : List Node) (n : Node) → find_node i l ≡ some n → n.id ≡ i
unfolding find_node
find_node-id i [] n h = absurd (cc h)
find_node-id i (m ∷ l) n h =
    let rest = find_node-id i l n in
    if_ind (λ o. o ≡ some n → n.id ≡ i) (str_eq m.id i)
      (λ same e. ap (λ (o : Node). o.id) (sym (some-injective _ _ e)) ∙ (eq_iff m.id i).0 same)
      (λ other. rest) h

pub node-id : (plan : ValidatedPlan) (i : String) (n : Node) → node plan i ≡ some n → n.id ≡ i
unfolding node
node-id plan i n h = find_node-id i plan.nodes n h
