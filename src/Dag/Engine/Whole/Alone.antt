-- ===== src/Dag/Engine/Whole/Alone.antt =====
-- How many tasks of a validated plan are under way at once.
use mathlib.Core.Path.{subst}
use hermes_mcp_bridge.Base.{
  List, Option, String, [], arith, false, is_nil, max, ok, ok-chain, ok-injective, ℕ, ◌++◌, ◌∷◌,
  ◌≡◌, ◌≤◌,
}
use hermes_mcp_bridge.Base.Dict.{Dict}
use hermes_mcp_bridge.Dag.Json.{Json}
use hermes_mcp_bridge.Dag.Plan.{Budget, Node, PlanDefinition, ValidatedPlan}
use hermes_mcp_bridge.Dag.Order.{topological_order}
use hermes_mcp_bridge.Dag.Validate.{check_budget, validate_plan}
use hermes_mcp_bridge.Dag.Validate.Graph.{check_graph_shape, ids_of, plan_edges}
use hermes_mcp_bridge.Dag.Validate.Checks.{Catalog, check_bindings, check_nodes}
use hermes_mcp_bridge.Dag.Engine.{Run, World}
use hermes_mcp_bridge.Dag.Engine.Execute.{Outcome}
use hermes_mcp_bridge.Dag.Engine.Batch.{
  Flight, Pool, drain, effective_parallelism, pool_of, smallest, taken, values,
}
use hermes_mcp_bridge.Dag.Engine.Batch.Apart.{batch-IsExclusive}

smallest-le : (n : ℕ) (ms : List ℕ) → smallest n ms ≤ n
smallest-le n [] = omega arith
smallest-le n (m ∷ ms) = omega (arith, smallest-le n ms)

parallelism-le :
    (ceiling : ℕ) (b : Budget) → effective_parallelism ceiling b ≤ max 1 b.max_parallelism
unfolding effective_parallelism
parallelism-le ceiling b = omega (
  arith,
  smallest-le b.max_parallelism
      (max 1 ceiling ∷ values b.per_provider_limits ++ values b.per_credential_limits),
)

check_budget-parallelism :
    (p : PlanDefinition) (mutating : List String)
    → check_budget p mutating ≡ ok tt
    → is_nil mutating ≡ false
    → p.budget.max_parallelism ≤ 1
unfolding check_budget
check_budget-parallelism p mutating h some_mutating = ground (arith, h, some_mutating)

module _ (canonical : Json → String) (plan_digest : PlanDefinition → String)
    (catalog : Catalog) where
  validate_plan-parallelism :
      (p : PlanDefinition) (plan : ValidatedPlan)
      → validate_plan canonical plan_digest catalog p ≡ ok plan
      → is_nil plan.mutating_nodes ≡ false
      → plan.budget.max_parallelism ≤ 1
  unfolding validate_plan
  validate_plan-parallelism p plan h =
      let (es, a, h1) = ok-chain (plan_edges p.nodes) _ h in
      let (order, b, h2) = ok-chain (topological_order (ids_of p.nodes) es) _ h1 in
      let (u, c, h3) = ok-chain (check_graph_shape p.nodes es order.1) _ h2 in
      let (checked, d, h4) = ok-chain (check_nodes canonical catalog p.nodes) _ h3 in
      let (u', e, h5) = ok-chain (check_bindings canonical catalog p.nodes p.nodes) _ h4 in
      let (u'', f, h6) = ok-chain (check_budget p checked.1) _ h5 in
      subst (λ (v : ValidatedPlan). is_nil v.mutating_nodes ≡ false → v.budget.max_parallelism ≤ 1)
        (ok-injective h6) (check_budget-parallelism p checked.1 f)

  -- At every moment of a batch of a validated plan, whatever the event loop chooses and the executor answers, no
  -- more tasks are under way than the plan's budget asks for, one where it asks for none, nor than the engine's
  -- parallelism; and where the plan has a mutating node, every task of it runs alone.
  pub mutating_alone :
      (p : PlanDefinition) (plan : ValidatedPlan) (w : World) (replay : Option (Dict Json))
      (ceiling : ℕ) (choose : Pool → ℕ) (executor : Flight → Run → Outcome) (batch : List Node)
      (r : Run) (fuel : ℕ)
      → validate_plan canonical plan_digest catalog p ≡ ok plan
      → let limit = effective_parallelism ceiling plan.budget in
        let moment = (drain w plan replay limit choose executor fuel (pool_of batch r)).0 in
        (taken moment ≤ limit)
        × (taken moment ≤ max 1 plan.budget.max_parallelism)
        × (is_nil plan.mutating_nodes ≡ false → taken moment ≤ 1)
  mutating_alone p plan w replay ceiling choose executor batch r fuel valid =
      let limit = effective_parallelism ceiling plan.budget in
      let within = (batch-IsExclusive w plan replay limit choose executor batch r fuel).0 in
      let le = parallelism-le ceiling plan.budget in
      (
        within,
        omega (arith, within, le),
        λ mutating.
            let one = validate_plan-parallelism p plan valid mutating in
            omega (arith, within, le, one),
      )
