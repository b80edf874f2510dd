-- ===== src/Dag/Order/Tests.antt =====
-- A diamond, a cycle beside a free node, and the theorem at them.
use hermes_mcp_bridge.Base.{List, [], err, ok, refl, sorted, ◌∷◌, ◌≡◌}
use hermes_mcp_bridge.Base.Dict.{get, set}
use hermes_mcp_bridge.Dag.Contract.{plan_cycle_detected}
use hermes_mcp_bridge.Dag.Order.{
  Edge, initial, indegrees, rank_above, release_edges, rounds, successors, take_node,
  topological_order,
}
use hermes_mcp_bridge.Dag.Order.Answers.{IsAnswer, topological_order-IsAnswer}

abbrev diamond : List Edge
diamond = ("a", "c") ∷ ("a", "b") ∷ ("c", "d") ∷ ("b", "d") ∷ []

abbrev looped : List Edge
looped = ("b", "c") ∷ ("c", "b") ∷ []

program : Unit {0}
unfolding topological_order rounds take_node release_edges initial indegrees successors rank_above
    sorted get set
program = tt

diamond_order :
    topological_order ("d" ∷ "c" ∷ "b" ∷ "a" ∷ []) diamond
    ≡ ok ("a" ∷ "b" ∷ "c" ∷ "d" ∷ [], ("a", 0) ∷ ("b", 1) ∷ ("c", 1) ∷ ("d", 2) ∷ [])
unfolding program
diamond_order = refl

looped_order :
    topological_order ("a" ∷ "c" ∷ "b" ∷ []) looped
    ≡ err (record { reason = plan_cycle_detected; detail = "b,c" })
unfolding program
looped_order = refl

topological_order-IsAnswer_example :
    IsAnswer ("a" ∷ "c" ∷ "b" ∷ []) looped (topological_order ("a" ∷ "c" ∷ "b" ∷ []) looped)
topological_order-IsAnswer_example =
    topological_order-IsAnswer ("a" ∷ "c" ∷ "b" ∷ []) looped (refl, (refl, (refl, tt)))
      ((refl, refl, refl), ((refl, refl, refl), tt))
