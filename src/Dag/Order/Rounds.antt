-- ===== src/Dag/Order/Rounds.antt =====
-- The invariant of the rounds: what the counters count, who is ready, and that the order and the ranks follow
-- the edges.
use hermes_mcp_bridge.Base.Dict
use mathlib.Core.Path.{subst}
use hermes_mcp_bridge.Base.{
  zero, suc, length-append, List-cases, count-eq_of_length, nil_of_count, suc, length, inr, inl,
  str_eq, Bool-cases, sym, List, String, [], ap, arith, count, count-append, count-sorted, eq_iff,
  false, if◌then◌else◌, member, member-count, refl, sorted, true, ℕ, ◌++◌, ◌+◌, ◌==◌, ◌∙◌, ◌∷◌, ◌≡◌,
  ◌≤◌,
}
use hermes_mcp_bridge.Base.Dict.{Dict, set}
use hermes_mcp_bridge.Dag.Order.{
  rounds, Edge, Kahn, initial, free_nodes, indegrees, number_at, rank_above, release_edges,
  successors, take_node,
}
use hermes_mcp_bridge.Dag.Order.Waiting.{
  waiting_ext, IsTopological-snoc, member-snoc, IsTopological, indegrees-waiting, number_at-set,
  waiting, waiting-snoc,
}
use hermes_mcp_bridge.Dag.Order.Release.{
  release_edges-ranks, release_edges-indegree, release_edges-order, release_edges-ready,
}

rank_above-set :
    (before : List String) (edges : List Edge) (ranks : Dict ℕ) (c i : String) (n : ℕ)
    → waiting before edges i ≡ 0
    → member c before ≡ false
    → rank_above edges (Dict.set ranks c n) i ≡ rank_above edges ranks i
unfolding rank_above
rank_above-set before [] ranks c i n w h = refl
rank_above-set before (e ∷ es) ranks c i n w h =
    ground (arith, rank_above-set before es ranks c i n, number_at-set ranks c e.0 n, eq_iff c e.0)

module _ (ids : List String) (edges : List Edge) where
  pub record IsSound (k : Kahn) : Type 0 where
    pub degrees : (i : String) → number_at k.indegree i ≡ waiting k.order edges i
    pub listed :
        (i : String)
        → count i k.ready + count i k.order
          ≡ (if waiting k.order edges i == 0 then count i ids else 0)
    pub topological : IsTopological edges [] k.order
    pub ranked :
        (i : String) → member i k.order ≡ true → rank_above edges k.ranks i ≡ number_at k.ranks i

  module _ (once : (i : String) → count i ids ≤ 1)
      (known : (i c : String) → count i (successors edges c) ≤ count i ids) where
    free_nodes-count :
        (d : Dict ℕ) (i : String) (is : List String)
        → count i (free_nodes d is) ≡ (if number_at d i == 0 then count i is else 0)
    free_nodes-count d i [] = ground arith
    free_nodes-count d i (j ∷ js) = ground (arith, free_nodes-count d i js, eq_iff i j)

    pub initial-IsSound : IsSound (initial ids edges)
    unfolding initial
    initial-IsSound = record {
      degrees = indegrees-waiting ids edges;
      listed = λ i. ground (
        arith,
        count-sorted i (free_nodes (indegrees ids edges) ids),
        free_nodes-count (indegrees ids edges) i ids,
        indegrees-waiting ids edges i,
      );
      topological = tt;
      ranked = λ i h. absurd (cc h);
    }

    module _ (c : String) (rest : List String) (k : Kahn) (head : k.ready ≡ c ∷ rest)
        (s : IsSound k) where
      abbrev done : List String
      done = k.order ++ (c ∷ [])

      -- The node that is popped is new, waits for nothing, and was ready once.
      popped : (count c k.order ≡ 0) × (waiting k.order edges c ≡ 0) × (count c rest ≡ 0)
      popped = ground (arith, s.listed c, once c, eq_iff c c, ap (count c) head)

      new : member c k.order ≡ false
      new = member-count c k.order ∙ ground (arith, popped)

      after :
          (i : String)
          → waiting done edges i + count i (successors edges c) ≡ waiting k.order edges i
      after i = waiting-snoc k.order edges c i new

      listed_next :
          (i : String)
          → count i (take_node edges c rest k).ready + count i done
            ≡ (if waiting done edges i == 0 then count i ids else 0)
      unfolding take_node
      listed_next i =
          let xs = sorted (successors edges c) in
          let k' : Kahn = record k {
            ready = rest;
            ranks = Dict.set k.ranks c (rank_above edges k.ranks c);
            order = done;
          } in
          let n : count i xs ≡ count i (successors edges c) = count-sorted i (successors edges c) in
          ground (
            arith,
            s.listed i,
            s.degrees i,
            once i,
            known i c,
            after i,
            n,
            ap (count i) head,
            count-sorted i (release_edges xs k').ready,
            release_edges-ready i xs k' (omega (arith, n, known i c, once i)),
            count-append i k.order (c ∷ []),
            popped,
          )

      ranked_next :
          (i : String)
          → member i done ≡ true
          → rank_above edges (Dict.set k.ranks c (rank_above edges k.ranks c)) i
            ≡ number_at (Dict.set k.ranks c (rank_above edges k.ranks c)) i
      ranked_next i m =
          let n = rank_above edges k.ranks c in
          elim (Bool-cases (str_eq c i)) [
            | inl same ↦
                subst
                  (λ j.
                    rank_above edges (Dict.set k.ranks c n) j ≡ number_at (Dict.set k.ranks c n) j)
                  ((eq_iff c i).0 same)
                  (rank_above-set k.order edges k.ranks c c n popped.1 new
                    ∙ ground (arith, number_at-set k.ranks c c n, eq_iff c c))
            | inr other ↦
                let old : member i k.order ≡ true =
                  ground (arith, m, member-snoc i c k.order, eq_iff i c, eq_iff c i, other) in
                rank_above-set k.order edges k.ranks c i n
                  (ground (arith, s.listed i, member-count i k.order, old)) new
                ∙ (s.ranked i old ∙ ground (arith, number_at-set k.ranks c i n, other))
          ]

      take_node-order : (take_node edges c rest k).order ≡ done
      unfolding take_node
      take_node-order = release_edges-order (sorted (successors edges c)) _

      take_node-ranks :
          (take_node edges c rest k).ranks ≡ Dict.set k.ranks c (rank_above edges k.ranks c)
      unfolding take_node
      take_node-ranks = release_edges-ranks (sorted (successors edges c)) _

      take_node-indegree :
          (i : String) → number_at (take_node edges c rest k).indegree i ≡ waiting done edges i
      unfolding take_node
      take_node-indegree i = omega (
        arith,
        release_edges-indegree i (sorted (successors edges c)) (record k {
          ready = rest;
          ranks = Dict.set k.ranks c (rank_above edges k.ranks c);
          order = done;
        }),
        count-sorted i (successors edges c),
        s.degrees i,
        after i,
      )

      pub take_node-IsSound : IsSound (take_node edges c rest k)
      take_node-IsSound = record {
        degrees = λ i. take_node-indegree i ∙ ap (λ o. waiting o edges i) (sym take_node-order);
        listed = λ i.
            subst
              (λ o.
                count i (take_node edges c rest k).ready + count i o
                ≡ (if waiting o edges i == 0 then count i ids else 0))
              (sym take_node-order) (listed_next i);
        topological = subst (IsTopological edges []) (sym take_node-order) (
            IsTopological-snoc edges [] k.order c s.topological
              (λ both h. waiting_ext both k.order edges c (λ t. h t) ∙ popped.1));
        ranked = λ i m.
            subst (λ r. rank_above edges r i ≡ number_at r i) (sym take_node-ranks)
              (ranked_next i (ap (member i) (sym take_node-order) ∙ m));
      }

    at_most :
        (k : Kahn) → IsSound k → (i : String) → count i k.ready + count i k.order ≤ count i ids
    at_most k s i = ground (arith, s.listed i)

    -- With as many rounds as nodes are missing from the order, the loop ends with nothing ready.
    pub rounds-IsSound :
        (fuel : ℕ) (k : Kahn)
        → IsSound k
        → length ids ≤ fuel + length k.order
        → IsSound (rounds fuel edges k) × ((rounds fuel edges k).ready ≡ [])
    unfolding rounds
    rounds-IsSound zero k s h = (
      s,
      nil_of_count k.ready λ i. omega (
        arith,
        at_most k s i,
        count-eq_of_length k.order ids (λ j. omega (arith, at_most k s j)) (omega (arith, h)) i,
      ),
    )
    rounds-IsSound (suc fuel) k s h = elim (List-cases k.ready) [
      | inl e ↦ rw (e, rounds) (s, e)
      | inr (c, rest, e) ↦
          rw (e, rounds)
            (rounds-IsSound fuel (take_node edges c rest k) (take_node-IsSound c rest k e s) (
              omega
                (arith, ap length (take_node-order c rest k e s), length-append k.order (c ∷ []))))
    ]
