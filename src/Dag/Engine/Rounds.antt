-- ===== src/Dag/Engine/Rounds.antt =====
-- The `while` loop of `run`: propagate, gather what is ready, write, until nothing is ready or a failure stops
-- the plan. The loop runs on fuel, and returns nothing where that runs out.
mod Fewer
pub mod Ends
use hermes_mcp_bridge.Base.Dict
use hermes_mcp_bridge.Base.{
  Bool, List, Option, Result, String, [], attempt, err, false, if◌then◌else◌, is_nil, maybe, none,
  ok, some, suc, true, zero, ℕ, ◌&&◌, ◌∷◌,
}
use hermes_mcp_bridge.Base.Dict.{Dict, set}
use hermes_mcp_bridge.Dag.Contract.{
  DagError, FailurePolicy, continue_independent, fail_fast, upstream_abort,
}
use hermes_mcp_bridge.Dag.Json.{Json}
use hermes_mcp_bridge.Dag.Store.{NodeState}
use hermes_mcp_bridge.Dag.Plan.{Node, ValidatedPlan, node}
use hermes_mcp_bridge.Dag.Engine.{Run, World, persist, state_of}
use hermes_mcp_bridge.Dag.Engine.Execute.{Outcome}
use hermes_mcp_bridge.Dag.Engine.Propagate.{is_pending, propagate, ready_nodes, skip, status_at}
use hermes_mcp_bridge.Dag.Engine.Batch.{Flight, Pool, run_batch}

-- The nodes of these names.
abbrev pub nodes_named : ValidatedPlan → List String → List Node
nodes_named plan [] = []
nodes_named plan (i ∷ is) =
    let rest = nodes_named plan is in maybe (node plan i) rest (λ n. n ∷ rest)

-- The nodes that are still pending are skipped.
abbrev pub skip_pending : List String → Dict NodeState → Dict NodeState
skip_pending [] d = d
skip_pending (i ∷ is) d =
    skip_pending is
      (if is_pending (status_at i d) then Dict.set d i (skip upstream_abort (state_of i d)) else d)

abbrev pub stops_at_failure : FailurePolicy → Bool
stops_at_failure fail_fast = true
stops_at_failure continue_independent = false

module _ (w : World) (plan : ValidatedPlan) (replay : Option (Dict Json)) (parallelism : ℕ)
    (choose : Pool → ℕ) (executor : Flight → Run → Outcome) where
  -- aborted and plan.failure_policy is FAIL_FAST
  abbrev pub is_halted : Run → Bool
  is_halted r = r.aborted && stops_at_failure plan.failure_policy

  abbrev pub propagated : Run → Run
  propagated r = record r { states = propagate plan r.states }

  abbrev pub next_batch : Run → List String
  next_batch r = if is_halted r then [] else ready_nodes plan r.states plan.order

  abbrev pub skipped_rest : Run → Run
  skipped_rest r = record r { states = skip_pending plan.order r.states }

  -- Behind a batch: the write, and the end of the plan or the next round.
  abbrev pub behind_batch :
      (Run → Option (Run × Result DagError (Unit {0})))
      → Run × Result DagError (Unit {0})
      → Option (Run × Result DagError (Unit {0}))
  behind_batch go (r, err x) = some (r, err x)
  behind_batch go (r, ok u) =
      let (r', written) = persist w r in
      attempt written (λ x. some (r', err x))
        λ _. if is_halted r' then some (persist w (skipped_rest r')) else go r'

  unfoldable pub batches : ℕ → Run → Option (Run × Result DagError (Unit {0}))
  batches zero r = none
  batches (suc fuel) r =
      let r' = propagated r in
      let batch = next_batch r' in
      let rest =
        behind_batch (batches fuel)
          (run_batch w plan replay parallelism choose executor (nodes_named plan batch) r') in
      if is_nil batch then some (r', ok tt) else rest
