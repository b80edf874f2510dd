-- ===== src/Dag/Engine/Resume.antt =====
-- `resume`, up to the call of `run`: the lease, the reconciliation, the skips that are taken back and the
-- policy. What the reconciler answers is a parameter, by the node and the key. The states are
-- walked in the order of their dictionary, and a node of the checkpoint is a node of the plan.
pub mod Blind
use hermes_mcp_bridge.Base.Dict
use hermes_mcp_bridge.Base.{
  member, Bool, List, Option, Result, String, [], and_then, attempt, err, false, if◌then◌else◌,
  maybe, none, not, ok, some, str_eq, ℕ, ◌&&◌, ◌||◌, ◌∷◌,
}
use hermes_mcp_bridge.Base.Dict.{Dict}
use hermes_mcp_bridge.Dag.Contract.{
  NodeStatus, budget_exhausted, denied, dispatched, indeterminate, is_status, pending,
  plan_digest_mismatch, reason_value, skipped, success, upstream_abort, upstream_failed,
  upstream_indeterminate,
}
use hermes_mcp_bridge.Dag.Store.{
  LoadError, refused, Checkpoint, CheckpointStore, Lease, NodeState, acquire_lease, load, save,
}
use hermes_mcp_bridge.Dag.Plan.{Node, ValidatedPlan, node}
use hermes_mcp_bridge.Dag.Engine.{World, dag_error, or_denied, some_reason}

-- The answer of a reconciler: the effect, its absence, or neither.
pub data Reconciled : Type 0 where
  effect : String → Reconciled
  no_effect : Reconciled
  unreachable : Reconciled

abbrev pub map_states : (String → NodeState → NodeState) → Dict NodeState → Dict NodeState
map_states f [] = []
map_states f ((k, n) ∷ d) = (k, f k n) ∷ map_states f d

abbrev text_or_empty : Option String → String
text_or_empty none = ""
text_or_empty (some s) = s

-- `retryable_skips`
abbrev retryable : List String
retryable =
    reason_value upstream_indeterminate
    ∷ reason_value upstream_failed
    ∷ reason_value upstream_abort
    ∷ reason_value budget_exhausted
    ∷ []

module _ (w : World) (plan : ValidatedPlan) (reconciler : Option (Node → String → Reconciled)) where
  abbrev pub is_unresolved : NodeStatus → Bool
  is_unresolved s = is_status s dispatched || is_status s indeterminate

  abbrev answer : Reconciled → NodeState → NodeState
  answer unreachable n = record n { status = indeterminate }
  answer no_effect n = record n { status = pending }
  answer (effect ref) n = record n { status = success; effect_ref = some ref }

  -- The reconciler's answer on a node; without a reconciler there is none.
  abbrev pub ask : String → NodeState → Reconciled
  ask i n =
      maybe reconciler unreachable
        (λ f. maybe (node plan i) unreachable (λ m. f m (text_or_empty n.idempotency_key)))

  abbrev pub reconcile_node : String → NodeState → NodeState
  reconcile_node i n = if is_unresolved n.status then answer (ask i n) n else n

  abbrev pub retry_skip : String → NodeState → NodeState
  retry_skip i n =
      if is_status n.status skipped && maybe n.reason_code false (λ c. member c retryable)
      then record n { status = pending; reason_code = none }
      else n

  abbrev pub recheck : String → NodeState → NodeState
  recheck i n =
      if not (is_status n.status pending)
      then n
      else maybe (node plan i) n λ m.
        let d = w.decide plan m m.args in
        if not d.allowed
        then record n { status = denied; reason_code = some_reason (or_denied d.reason) }
        else n

  -- The three loops over the states.
  pub resume_states : Dict NodeState → Dict NodeState
  resume_states d = map_states recheck (map_states retry_skip (map_states reconcile_node d))

  abbrev resumed : Checkpoint → Lease → String → String → Checkpoint
  resumed c lease projection policy = record c {
    lease = lease;
    node_states = resume_states c.node_states;
    projection_digest = projection;
    policy_digest = policy;
  }

  -- A load is no step on the store.
  abbrev loading : String → CheckpointStore → CheckpointStore × Result LoadError Checkpoint
  loading e s = (s, load w.lower w.sha256_hex e s)

  pub begin_resume :
      String
      → String
      → String
      → String
      → ℕ
      → CheckpointStore
      → CheckpointStore × Result LoadError Checkpoint
  begin_resume e owner projection policy expires s = and_then (loading e s) λ c s.
      if not (str_eq c.plan_digest plan.digest)
      then (s, err (refused (dag_error plan_digest_mismatch "resume")))
      else and_then (acquire_lease w.lower w.sha256_hex e owner expires s) λ lease s.
        and_then (loading e s) λ c s.
          let c' = resumed c lease projection policy in
          let saved = save w.lower w.sha256_hex c' lease.fence_token s in
          (saved.0, attempt saved.1 (λ x. err (refused x)) (λ _. ok c'))
