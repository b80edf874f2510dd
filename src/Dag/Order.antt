-- ===== src/Dag/Order.antt =====
-- `topological_order` of src/hermes_mcp_bridge/v2/dag_validation.py. The set of edges is a list without
-- duplicates, in any order; every end of an edge is a node, which `_declared_edges` has checked. The loop
-- takes one node a round, so as many rounds as there are nodes suffice.
pub mod Waiting
pub mod Answers
mod Release
mod Rounds
mod Tests
use hermes_mcp_bridge.Base.Dict
use Prim.Native.String.{◌++◌ as ◌<>◌}
use hermes_mcp_bridge.Base.{
  ◌&&◌, any_of, Bool, without, join, List, Result, String, [], err, if◌then◌else◌, length, map, max,
  maybe, member, ok, sorted, str_eq, suc, zero, ℕ, ◌++◌, ◌+◌, ◌-◌, ◌==◌, ◌∷◌,
}
use hermes_mcp_bridge.Base.Dict.{Dict, get, set}
use hermes_mcp_bridge.Dag.Contract.{DagError, plan_cycle_detected}

abbrev pub Edge : Type 0
Edge = String × String

abbrev pub has_edge : String → String → List Edge → Bool
has_edge a b edges = any_of (λ (e : Edge). str_eq e.0 a && str_eq e.1 b) edges

-- The variables of the loop.
pub record Kahn : Type 0 where
  pub indegree : Dict ℕ
  pub ranks : Dict ℕ
  pub order : List String
  pub ready : List String

abbrev pub number_at : Dict ℕ → String → ℕ
number_at d i = maybe (Dict.get d i) 0 (λ n. n)

-- `{node_id: 0 for node_id in node_ids}` and `indegree[dst] += 1` for each edge
unfoldable pub indegrees : List String → List Edge → Dict ℕ
indegrees ids [] = map (λ i. (i, 0)) ids
indegrees ids (e ∷ es) = let rest = indegrees ids es in Dict.set rest e.1 (number_at rest e.1 + 1)

-- successors[i], to which each edge from `i` appends its end
unfoldable pub successors : List Edge → String → List String
successors [] i = []
successors (e ∷ es) i = let rest = successors es i in if str_eq e.0 i then e.1 ∷ rest else rest

-- The highest rank among the sources of the edges into `i`, one more, or 0 where there are none.
unfoldable pub rank_above : List Edge → Dict ℕ → String → ℕ
rank_above [] ranks i = 0
rank_above (e ∷ es) ranks i =
    let rest = rank_above es ranks i in
    if str_eq e.1 i then max (number_at ranks e.0 + 1) rest else rest

-- One successor loses an edge, and is ready where that was the last.
unfoldable pub release_edges : List String → Kahn → Kahn
release_edges [] k = k
release_edges (x ∷ xs) k =
    let n = number_at k.indegree x - 1 in
    release_edges xs (record k {
      indegree = Dict.set k.indegree x n;
      ready = if n == 0 then k.ready ++ (x ∷ []) else k.ready;
    })

-- A round: `current` is popped, and its successors lose their edges from it.
unfoldable pub take_node : List Edge → String → List String → Kahn → Kahn
take_node edges current rest k =
    let k' = release_edges (sorted (successors edges current)) (record k {
      ready = rest;
      ranks = Dict.set k.ranks current (rank_above edges k.ranks current);
      order = k.order ++ (current ∷ []);
    }) in
    record k' { ready = sorted k'.ready }

unfoldable pub rounds : ℕ → List Edge → Kahn → Kahn
rounds zero edges k = k
rounds (suc fuel) edges k = elim k.ready [
  | [] ↦ k
  | current ∷ rest ↦ rounds fuel edges (take_node edges current rest k)
]

-- The nodes of no incoming edge.
abbrev pub free_nodes : Dict ℕ → List String → List String
free_nodes d [] = []
free_nodes d (i ∷ is) = let rest = free_nodes d is in if number_at d i == 0 then i ∷ rest else rest

unfoldable pub initial : List String → List Edge → Kahn
initial ids edges = record {
  indegree = indegrees ids edges;
  ranks = [];
  order = [];
  ready = sorted (free_nodes (indegrees ids edges) ids);
}

abbrev pub cycle : List String → DagError
cycle remaining = record { reason = plan_cycle_detected; detail = join (sorted remaining) }

unfoldable pub topological_order : List String → List Edge → Result DagError (List String × Dict ℕ)
topological_order ids edges =
    let k = rounds (length ids) edges (initial ids edges) in
    if length k.order == length ids
    then ok (k.order, k.ranks)
    else err (cycle (without k.order ids))
