-- ===== src/Dag/Engine/Propagate.antt =====
-- `blocked_reason`, `ready_nodes` and `propagate` of `run`. A node of the order is a node of the plan, as
-- validation makes it. The loop of `propagate` runs on fuel: one pass more than the order has nodes.
pub mod Closure
pub mod Progress
use hermes_mcp_bridge.Base.Dict
use hermes_mcp_bridge.Base.{
  Bool, List, Option, String, [], all_of, false, if◌then◌else◌, length, maybe, none, not, some, suc,
  true, zero, ℕ, ◌&&◌, ◌+◌, ◌||◌, ◌∷◌,
}
use hermes_mcp_bridge.Base.Dict.{Dict, set}
use hermes_mcp_bridge.Dag.Contract.{
  NodeStatus, PlanReason, dead_letter, denied, failed, indeterminate, is_status, pending, ready,
  skipped, success, upstream_failed, upstream_indeterminate,
}
use hermes_mcp_bridge.Dag.Store.{NodeState}
use hermes_mcp_bridge.Dag.Plan.{ValidatedPlan, node}
use hermes_mcp_bridge.Dag.Engine.{some_reason, state_of}

abbrev pub status_at : String → Dict NodeState → NodeStatus
status_at i d = (state_of i d).status

-- The reason that a dependency of this status gives.
abbrev pub blocks : NodeStatus → Option PlanReason
blocks indeterminate = some upstream_indeterminate
blocks failed = some upstream_failed
blocks denied = some upstream_failed
blocks skipped = some upstream_failed
blocks dead_letter = some upstream_failed
blocks _ = none

unfoldable pub blocked_reason : List String → Dict NodeState → Option PlanReason
blocked_reason [] d = none
blocked_reason (dep ∷ deps) d =
    let rest = blocked_reason deps d in maybe (blocks (status_at dep d)) rest some

abbrev pub is_pending : NodeStatus → Bool
is_pending s = is_status s pending

abbrev pub skip : PlanReason → NodeState → NodeState
skip reason n = record n { status = skipped; reason_code = some_reason reason }

module _ (plan : ValidatedPlan) where
  abbrev pub deps_of : String → List String
  deps_of i = maybe (node plan i) [] (λ n. n.depends_on)

  -- One node in a pass: the states, and whether one changed.
  abbrev visit : String → Dict NodeState → Dict NodeState × Bool
  visit i d =
      if not (is_pending (status_at i d))
      then (d, false)
      else maybe (blocked_reason (deps_of i) d) (d, false)
          (λ reason. (Dict.set d i (skip reason (state_of i d)), true))

  unfoldable pub pass : List String → Dict NodeState → Dict NodeState × Bool
  pass [] d = (d, false)
  pass (i ∷ is) d =
      let (d', here) = visit i d in let (d'', rest) = pass is d' in (d'', here || rest)

  unfoldable pub propagate_loop : ℕ → Dict NodeState → Dict NodeState
  propagate_loop zero d = d
  propagate_loop (suc fuel) d =
      let (d', changed) = pass plan.order d in
      let rest = propagate_loop fuel d' in if changed then rest else d'

  unfoldable pub propagate : Dict NodeState → Dict NodeState
  propagate d = propagate_loop (length plan.order + 1) d

  abbrev pub is_ready : Dict NodeState → String → Bool
  is_ready d i =
      is_pending (status_at i d) && all_of (λ dep. is_status (status_at dep d) success) (deps_of i)

  -- The source sorts what is ready by rank and name, which is the order of the tasks of a batch.
  unfoldable pub ready_nodes : Dict NodeState → List String → List String
  ready_nodes d [] = []
  ready_nodes d (i ∷ is) = let rest = ready_nodes d is in if is_ready d i then i ∷ rest else rest
