-- ===== src/Dag/Order/Answers.antt =====
-- What `topological_order` answers, on every graph.
use hermes_mcp_bridge.Base.{
  member-without, ◌==◌, if◌then◌else◌, All-members, ap, ◌∙◌, length-le_of_count, count-eq_of_length,
  if_ind, length, All, Bool, List, Result, String, [], any_of, arith, count, eq_iff, err, false,
  leb, member, member-count, ok, refl, str_eq, true, ℕ, ◌&&◌, ◌<◌, ◌∷◌, ◌≡◌, ◌≢◌, ◌≤◌,
}
use hermes_mcp_bridge.Base.Dict.{Dict}
use hermes_mcp_bridge.Dag.Contract.{DagError}
use hermes_mcp_bridge.Dag.Order.{
  has_edge, rounds, Kahn, topological_order, initial, Edge, cycle, number_at, rank_above,
  successors, without,
}
use hermes_mcp_bridge.Dag.Order.Waiting.{IsTopological, waiting}
use hermes_mcp_bridge.Dag.Order.Rounds.{IsSound, initial-IsSound, rounds-IsSound}

abbrev pub IsDistinct : List String → Type 0
IsDistinct [] = Unit
IsDistinct (x ∷ xs) = (member x xs ≡ false) × IsDistinct xs

-- A set of edges between nodes.
abbrev pub AreEdges : List String → List Edge → Type 0
AreEdges ids [] = Unit
AreEdges ids (e ∷ es) =
    ((member e.0 ids ≡ true) × (member e.1 ids ≡ true) × (has_edge e.0 e.1 es ≡ false))
    × AreEdges ids es

-- A node of the rest waits for a node of the rest.
abbrev pub waits_within : List Edge → List String → String → Bool
waits_within edges left i = any_of (λ (e : Edge). str_eq e.1 i && member e.0 left) edges

abbrev pub IsAnswer : List String → List Edge → Result DagError (List String × Dict ℕ) → Type 0
IsAnswer ids edges (ok (order, ranks)) =
    ((i : String) → count i order ≡ count i ids)
    × IsTopological edges [] order
    × All (λ e. number_at ranks e.0 < number_at ranks e.1) edges
IsAnswer ids edges (err x) =
    (left : List String) × (x ≡ cycle left)
    × (left ≢ [])
    × All (λ i. (member i ids ≡ true) × (waits_within edges left i ≡ true)) left

IsDistinct-count : (ids : List String) → IsDistinct ids → (i : String) → count i ids ≤ 1
IsDistinct-count [] d i = omega arith
IsDistinct-count (x ∷ xs) d i =
    ground (arith, IsDistinct-count xs d.1 i, eq_iff i x, member-count i xs, d.0)

has_edge-count :
    (a b : String) (edges : List Edge) → has_edge a b edges ≡ leb 1 (count b (successors edges a))
unfolding successors
has_edge-count a b [] = ground arith
has_edge-count a b (e ∷ es) = ground (arith, has_edge-count a b es, eq_iff e.1 b, eq_iff b e.1)

AreEdges-count :
    (ids : List String) (edges : List Edge)
    → AreEdges ids edges
    → (i c : String) → count i (successors edges c) ≤ count i ids
unfolding successors
AreEdges-count ids [] a i c = omega arith
AreEdges-count ids (e ∷ es) a i c = ground (
  arith,
  AreEdges-count ids es a.1 i c,
  has_edge-count e.0 e.1 es,
  eq_iff e.0 c,
  eq_iff i e.1,
  member-count e.1 ids,
  a.0,
)

module _ (ids : List String) (edges : List Edge) where
  -- Where every node has its rank, an edge goes up.
  ranks_rise :
      (ranks : Dict ℕ) (es : List Edge)
      → ((i : String) → member i ids ≡ true → rank_above edges ranks i ≡ number_at ranks i)
      → ((i : String) → rank_above es ranks i ≤ rank_above edges ranks i)
      → AreEdges ids es
      → All (λ e. number_at ranks e.0 < number_at ranks e.1) es
  unfolding rank_above
  ranks_rise ranks [] ranked part a = tt
  ranks_rise ranks (e ∷ es) ranked part a = (
    ground (arith, part e.1, ranked e.1, a.0, eq_iff e.1 e.1),
    ranks_rise ranks es ranked (λ i. ground (arith, part i)) a.1,
  )

  -- A node that waits has an edge from a node that is not done.
  waits :
      (before : List String) (es : List Edge) (i : String)
      → AreEdges ids es
      → 0 < waiting before es i
      → waits_within es (without before ids) i ≡ true
  waits before [] i a h = absurd (omega arith)
  waits before (e ∷ es) i a h =
      ground (arith, waits before es i a.1, member-without e.0 before ids, a.0)

module _ (ids : List String) (edges : List Edge) (distinct : IsDistinct ids)
    (set : AreEdges ids edges) where
  abbrev final : Kahn
  final = rounds (length ids) edges (initial ids edges)

  sound : IsSound ids edges final × (final.ready ≡ [])
  unfolding initial
  sound =
      rounds-IsSound ids edges (IsDistinct-count ids distinct) (AreEdges-count ids edges set)
        (length ids) (initial ids edges)
        (initial-IsSound ids edges (IsDistinct-count ids distinct) (AreEdges-count ids edges set))
        (omega arith)

  -- At the end a node is in the order, once, just where it waits for nothing.
  ended :
      (i : String)
      → count i final.order ≡ (if waiting final.order edges i == 0 then count i ids else 0)
  ended i = omega (arith, sound.0.listed i, ap (count i) sound.1)

  complete : length final.order ≡ length ids → IsAnswer ids edges (ok (final.order, final.ranks))
  complete e =
      let same =
        count-eq_of_length final.order ids (λ i. ground (arith, ended i)) (omega (arith, e)) in
      (
        same,
        sound.0.topological,
        ranks_rise ids edges final.ranks edges
            (λ i m.
              sound.0.ranked i
                (member-count i final.order ∙ ground (arith, same i, member-count i ids, m)))
            (λ i. omega arith) set,
      )

  abbrev left : List String
  left = without final.order ids

  stuck : length final.order ≢ length ids → IsAnswer ids edges (err (cycle left))
  stuck e = (
    left,
    refl,
    λ none_left. e (
        omega (
          arith,
          length-le_of_count final.order ids (λ i. ground (arith, ended i)),
          length-le_of_count ids final.order λ i. ground (
            arith,
            ap (member i) none_left,
            member-without i final.order ids,
            member-count i ids,
            member-count i final.order,
            IsDistinct-count ids distinct i,
          ),
        )),
    All-members left λ i m.
        let inside : (member i ids ≡ true) × (member i final.order ≡ false) =
          ground (arith, m, member-without i final.order ids) in
        (
          inside.0,
          waits ids edges final.order edges i set
              (ground (arith, ended i, member-count i ids, member-count i final.order, inside)),
        ),
  )

-- On every graph, `topological_order` ends within its rounds with the right answer. Either it returns every
-- node just once, each behind all nodes that it depends on, with ranks that rise along every edge; or it raises
-- PLAN_CYCLE_DETECTED and names nodes, at least one, each of which waits for another of them, so that they
-- have no order. The nodes are distinct and the edges a set of pairs of nodes.
pub topological_order-IsAnswer :
    (ids : List String) (edges : List Edge)
    → IsDistinct ids
    → AreEdges ids edges
    → IsAnswer ids edges (topological_order ids edges)
unfolding topological_order
topological_order-IsAnswer ids edges d a =
    if_ind (IsAnswer ids edges) (length (final ids edges d a).order == length ids)
      (λ e. complete ids edges d a (ground (arith, e)))
      (λ e. stuck ids edges d a (ground (arith, e)))
