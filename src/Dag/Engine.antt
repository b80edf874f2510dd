-- ===== src/Dag/Engine.antt =====
-- The engine of src/hermes_mcp_bridge/v2/dag_engine.py: what it is given, the state of a run, and the
-- writes that go before effects. The children model the parts of `run` and `resume`.
pub mod Args
pub mod Execute
pub mod Propagate
pub mod Batch
pub mod Rounds
pub mod Whole
pub mod Compensate
pub mod Resume
pub mod Status
pub mod Tests
use hermes_mcp_bridge.Base.Dict
use hermes_mcp_bridge.Base.{Bool, List, Option, Result, String, maybe, none, some, ℕ}
use hermes_mcp_bridge.Base.Dict.{Dict, get, set}
use hermes_mcp_bridge.Dag.Contract.{DagError, PlanReason, pending, policy_denied, reason_value}
use hermes_mcp_bridge.Dag.Json.{number, no_fields, text, field, null, object, Fields, Json}
use hermes_mcp_bridge.Dag.Store.{Checkpoint, CheckpointStore, NodeState, save}
use hermes_mcp_bridge.Dag.Plan.{Node, ToolContract, ValidatedPlan, node}

pub record NodeDecision : Type 0 where
  pub allowed : Bool
  pub reason : Option PlanReason
  pub approval_required : Bool

-- What the engine is built with or calls: the catalog, the governance, the transforms, the hash and the
-- size of a value's canonical JSON, and `lower` of Python's `str`.
pub record World : Type 0 where
  pub contract : String → Option ToolContract
  pub in_scope : String → Bool
  pub decide : ValidatedPlan → Node → Fields → NodeDecision
  pub apply_transform : String → Fields → ℕ → Result DagError Json
  pub sha256_hex : Json → String
  pub encoded_size : Json → ℕ
  pub lower : String → String

-- The variables of one call of `run`, with the durable store.
pub record Run : Type 0 where
  pub states : Dict NodeState
  pub store : CheckpointStore
  pub checkpoint : Checkpoint
  pub fence : ℕ
  pub aborted : Bool
  pub external_calls : ℕ
  pub dispatch_order : List String
  pub inflight : ℕ
  pub max_inflight : ℕ

abbrev pub Action : Type 0 → Type 0
Action A = Run → Run × Result DagError A

abbrev pub dag_error : PlanReason → String → DagError
dag_error r d = record { reason = r; detail = d }

abbrev pub blank : String → NodeState
blank i = record {
  node_id = i;
  status = pending;
  attempt = 0;
  idempotency_key = none;
  effect_ref = none;
  result = null;
  reason_code = none;
  operation_digest = none;
}

-- states[node_id]: every node of the plan has a state once `run` has begun.
abbrev pub state_of : String → Dict NodeState → NodeState
state_of i d = maybe (Dict.get d i) (blank i) (λ n. n)

abbrev pub put_state : String → NodeState → Run → Run
put_state i n r = record r { states = Dict.set r.states i n }

abbrev pub some_reason : PlanReason → Option String
some_reason r = some (reason_value r)

abbrev pub or_denied : Option PlanReason → PlanReason
or_denied none = policy_denied
or_denied (some r) = r

module _ (w : World) where
  -- `persist`
  unfoldable pub persist : Action (Unit {0})
  persist r =
      let c = record r.checkpoint { node_states = r.states } in
      let (store, result) = save w.lower w.sha256_hex c r.fence r.store in
      (record r { checkpoint = c; store = store }, result)

  -- The digests of dag_digest.py over what they hash.
  unfoldable pub operation_digest : String → Fields → String
  operation_digest i resolved = w.sha256_hex (
      object (
        field "digest_version" (text "dagdigest/1")
          (field "node_id" (text i) (field "args" (object resolved) no_fields))))

  unfoldable pub node_idempotency_key : String → String → ℕ → Fields → String
  node_idempotency_key digest i epoch resolved = w.sha256_hex (
      object (
        field "plan_digest" (text digest) (
          field "node_id" (text i)
            (field "attempt_epoch" (number epoch) (field "args" (object resolved) no_fields)))))

  unfoldable pub compensation_key : String → String → String → String
  compensation_key digest i effect_ref = w.sha256_hex (
      object (
        field "plan_digest" (text digest) (
          field "node_id" (text i)
            (field "kind" (text "compensate") (field "effect_ref" (text effect_ref) no_fields)))))
