-- ===== src/Dag/Engine/Whole/Returns.antt =====
-- A plan that validation accepts is run to its end.
use mathlib.Core.Path.{subst}
use hermes_mcp_bridge.Base.Dict
use hermes_mcp_bridge.Dag.Engine.Execute.Settles.{persist-states}
use hermes_mcp_bridge.Dag.Engine.Rounds.Ends.{batches_end, HasEnded}
use hermes_mcp_bridge.Dag.Engine.Whole.{run, behind_loop, loop_from, fresh_run}
use hermes_mcp_bridge.Dag.Validate.Checks.{Catalog}
use hermes_mcp_bridge.Dag.Validate.Graph.{ids_of}
use hermes_mcp_bridge.Dag.Engine.Rounds.{is_halted}
use hermes_mcp_bridge.Dag.Engine.Batch.{effective_parallelism}
use hermes_mcp_bridge.Dag.Order.Answers.{IsDistinct}
use hermes_mcp_bridge.Dag.Validate.{validate_plan}
use hermes_mcp_bridge.Dag.Engine.Propagate.Progress.{IsResting}
use hermes_mcp_bridge.Dag.Engine.Propagate.{status_at}
use hermes_mcp_bridge.Base.{
  not, sym, false, Bool, str_eq, if_ind, maybe, ap, List, Option, Result, String, [], arith, eq_iff,
  err, if_ind, is_some, none, ok, refl, some, ℕ, ◌∙◌, ◌∷◌, ◌≡◌, ◌≤◌,
}
use hermes_mcp_bridge.Base.Dict.{Dict, get, get-set}
use hermes_mcp_bridge.Dag.Contract.{DagError}
use hermes_mcp_bridge.Dag.Json.{Json}
use hermes_mcp_bridge.Dag.Store.{Checkpoint, CheckpointStore, NodeState}
use hermes_mcp_bridge.Dag.Plan.{PlanDefinition, Budget, Node, ValidatedPlan}
use hermes_mcp_bridge.Dag.Validate.Sound.{validate_plan-IsTopological}
use hermes_mcp_bridge.Dag.Engine.{Run, World, blank, persist, state_of}
use hermes_mcp_bridge.Dag.Engine.Execute.{Outcome}
use hermes_mcp_bridge.Dag.Engine.Batch.{Flight, Pool, effective_parallelism}
use hermes_mcp_bridge.Dag.Engine.Rounds.Ends.{HasEnded}
use hermes_mcp_bridge.Dag.Engine.Compensate.{Compensated}
use hermes_mcp_bridge.Dag.Engine.Whole.{fresh_run, loop, loop_from, run, with_nodes}

-- A node without a state reads as pending before and after.
with_nodes-state_of :
    (ns : List Node) (d : Dict NodeState) (i : String) → state_of i (with_nodes ns d) ≡ state_of i d
with_nodes-state_of [] d i = refl
with_nodes-state_of (n ∷ ns) d i =
    with_nodes-state_of ns _ i
    ∙ if_ind (λ e. state_of i e ≡ state_of i d) (is_some (Dict.get d n.id)) (λ old. refl)
        (λ new. ground (arith, new, get-set d n.id i (blank n.id), eq_iff n.id i))

parallelism_pos : (ceiling : ℕ) (b : Budget) → 1 ≤ effective_parallelism ceiling b
unfolding effective_parallelism
parallelism_pos ceiling b = omega arith

abbrev pub Returns : {A : Type 0} → Option A → Type 0
Returns {A} o = (a : A) × (o ≡ some a)

module _ (w : World) (plan : ValidatedPlan) (replay : Option (Dict Json)) (ceiling : ℕ)
    (choose : Pool → ℕ) (executor : Flight → Run → Outcome)
    (compensator : Option (Node → String → Compensated)) where
  abbrev pub begun : Checkpoint → CheckpointStore → Run
  begun c s = (persist w (fresh_run plan c s)).0

  begun-live :
      (c : Checkpoint) (s : CheckpointStore)
      → is_halted w plan replay
          (effective_parallelism ceiling plan.budget)
          choose
          executor
          (begun c s)
        ≡ false
  unfolding persist
  begun-live c s = refl

  abbrev pub loop_end : Run → Option (Run × Result DagError (Unit {0}))
  loop_end r = loop w plan replay ceiling choose executor compensator r

  HasEnded-Returns :
      (o : Option (Run × Result DagError (Unit {0})))
      → HasEnded w plan replay (effective_parallelism ceiling plan.budget) choose executor o
      → Returns o
  HasEnded-Returns none h = absurd h
  HasEnded-Returns (some t) h = (t, refl)

  loop_from-Returns :
      (t : Run × Result DagError (Unit {0}))
      → HasEnded w plan replay
          (effective_parallelism ceiling plan.budget)
          choose
          executor
          (loop_end t.0)
      → Returns (loop_from w plan replay ceiling choose executor compensator t)
  loop_from-Returns (r, err x) h = ((r, err x), refl)
  loop_from-Returns (r, ok u) h =
      let (t, e) = HasEnded-Returns (loop_end r) h in
      (
        behind_loop w plan replay ceiling choose executor compensator t,
        ap
            (λ (o : Option (Run × Result DagError (Unit {0}))).
              maybe o none
                (λ t. some (behind_loop w plan replay ceiling choose executor compensator t)))
            e,
      )

-- A plan that validation accepts is run to its end. From a checkpoint whose nodes rest, as those of every fresh
-- checkpoint do, `run` returns a report or an exception, whatever the event loop, the executor and the
-- compensator do; and its loop has then ended with an exception, or with no node of the plan pending.
pub run_ends :
    (canonical : Json → String) (plan_digest : PlanDefinition → String) (catalog : Catalog)
    (p : PlanDefinition) (plan : ValidatedPlan) (w : World) (replay : Option (Dict Json))
    (ceiling : ℕ) (choose : Pool → ℕ) (executor : Flight → Run → Outcome)
    (compensator : Option (Node → String → Compensated)) (enabled : Bool) (c : Checkpoint)
    (s : CheckpointStore)
    → IsDistinct (ids_of p.nodes)
    → validate_plan canonical plan_digest catalog p ≡ ok plan
    → ((i : String) → IsResting plan (status_at i c.node_states))
    → Returns (run w plan replay ceiling choose executor compensator enabled c s)
      × HasEnded w plan replay (effective_parallelism ceiling plan.budget) choose executor (
          loop_end w plan replay ceiling choose executor compensator
            (begun w plan replay ceiling choose executor compensator c s))
unfolding run
run_ends canonical plan_digest catalog p plan w replay ceiling choose executor compensator enabled c
      s distinct valid rest =
    let (topological, named) =
      validate_plan-IsTopological canonical plan_digest catalog p plan distinct valid in
    let r = fresh_run plan c s in
    let same = persist-states w plan replay r in
    let ended =
      batches_end w plan replay (effective_parallelism ceiling plan.budget) choose executor
        topological named (parallelism_pos ceiling plan.budget) (persist w r).0
        (λ i.
          subst (λ d. IsResting plan (status_at i d)) (sym same)
            (subst (λ (n : NodeState). IsResting plan n.status)
              (sym (with_nodes-state_of plan.nodes c.node_states i)) (rest i)))
        (begun-live w plan replay ceiling choose executor compensator c s) in
    (
      if_ind Returns (not enabled) (λ off. (_, refl))
          (λ on.
            if_ind Returns (not (str_eq c.plan_digest plan.digest)) (λ other. (_, refl))
              (λ this.
                loop_from-Returns w plan replay ceiling choose executor compensator (persist w r)
                  ended)),
      ended,
    )
