-- ===== src/Dag/Engine/Whole.antt =====
-- `run` as a whole: what stands before the loop, the loop, compensation and the report. The loop's fuel is one
-- round more than the plan has nodes.
pub mod Returns
pub mod Alone
mod Tests
use hermes_mcp_bridge.Base.Dict
use hermes_mcp_bridge.Base.{
  Bool, List, Option, Result, String, [], and_then, err, false, if◌then◌else◌, is_some, length,
  maybe, none, not, ok, some, str_eq, suc, ℕ, ◌&&◌, ◌∷◌,
}
use hermes_mcp_bridge.Base.Dict.{Dict, get, set}
use hermes_mcp_bridge.Dag.Contract.{
  DagError, PlanStatus, dag_disabled, plan_digest_mismatch, success,
}
use hermes_mcp_bridge.Dag.Json.{Json}
use hermes_mcp_bridge.Dag.Store.{Checkpoint, CheckpointStore, NodeState}
use hermes_mcp_bridge.Dag.Plan.{Node, ValidatedPlan}
use hermes_mcp_bridge.Dag.Engine.{Run, World, blank, dag_error, persist}
use hermes_mcp_bridge.Dag.Engine.Execute.{Outcome, is_replaying}
use hermes_mcp_bridge.Dag.Engine.Propagate.{propagate}
use hermes_mcp_bridge.Dag.Engine.Batch.{Flight, Pool, effective_parallelism}
use hermes_mcp_bridge.Dag.Engine.Rounds.{batches}
use hermes_mcp_bridge.Dag.Engine.Compensate.{Compensated, roll_back}
use hermes_mcp_bridge.Dag.Engine.Status.{ExecutionReport, any_state, is, plan_status_from, report}

-- `states.setdefault(node.id, NodeState(node_id=node.id))` for each node
abbrev pub with_nodes : List Node → Dict NodeState → Dict NodeState
with_nodes [] d = d
with_nodes (n ∷ ns) d =
    with_nodes ns (if is_some (Dict.get d n.id) then d else Dict.set d n.id (blank n.id))

abbrev pub fresh_run : ValidatedPlan → Checkpoint → CheckpointStore → Run
fresh_run plan c s = record {
  states = with_nodes plan.nodes c.node_states;
  store = s;
  checkpoint = c;
  fence = c.lease.fence_token;
  aborted = false;
  external_calls = 0;
  dispatch_order = [];
  inflight = 0;
  max_inflight = 0;
}

module _ (w : World) (plan : ValidatedPlan) (replay : Option (Dict Json)) (ceiling : ℕ)
    (choose : Pool → ℕ) (executor : Flight → Run → Outcome)
    (compensator : Option (Node → String → Compensated)) where
  abbrev pub Report : Type 0
  Report = Result DagError ExecutionReport

  abbrev pub with_status : PlanStatus → Run → Run
  with_status status r = record r { checkpoint = record r.checkpoint { status = some status } }

  abbrev pub final_status : Run → PlanStatus
  final_status r = plan_status_from r.states (r.aborted && not (any_state (is success) r.states))

  -- Behind the loop: a last propagation, compensation, the final write, and the report.
  unfoldable pub conclude : Run → Run × Report
  conclude r = and_then (persist w (record r { states = propagate plan r.states })) λ _ r.
      and_then (roll_back w plan compensator (is_replaying w plan replay r) r) λ _ r.
        and_then (persist w (with_status (final_status r) r))
          (λ _ r. (r, report r.states r.aborted))

  abbrev pub behind_loop : Run × Result DagError (Unit {0}) → Run × Report
  behind_loop t = and_then t (λ _ r. conclude r)

  abbrev pub loop : Run → Option (Run × Result DagError (Unit {0}))
  loop r =
      batches w plan replay (effective_parallelism ceiling plan.budget) choose executor
        (suc (length plan.order)) r

  -- The loop from the run that has been written.
  abbrev pub loop_from : Run × Result DagError (Unit {0}) → Option (Run × Report)
  loop_from (r, err x) = some (r, err x)
  loop_from (r, ok u) = maybe (loop r) none (λ t. some (behind_loop t))

  unfoldable pub run : Bool → Checkpoint → CheckpointStore → Option (Run × Report)
  run enabled c s =
      let r = fresh_run plan c s in
      if not enabled
      then some (r, err (dag_error dag_disabled ""))
      else if not (str_eq c.plan_digest plan.digest)
      then some (r, err (dag_error plan_digest_mismatch "checkpoint"))
      else loop_from (persist w r)
