-- ===== src/Dag/Order/Release.antt =====
-- What `release_edges` does to each node.
use hermes_mcp_bridge.Base.Dict
use hermes_mcp_bridge.Base.{
  List, String, [], arith, count, count-append, eq_iff, if◌then◌else◌, leb, one_if, refl, ℕ, ◌&&◌,
  ◌++◌, ◌+◌, ◌-◌, ◌==◌, ◌∙◌, ◌∷◌, ◌≡◌, ◌≤◌,
}
use hermes_mcp_bridge.Base.Dict.{Dict, set}
use hermes_mcp_bridge.Dag.Order.{Kahn, number_at, release_edges}
use hermes_mcp_bridge.Dag.Order.Waiting.{number_at-set}

pub release_edges-order : (xs : List String) (k : Kahn) → (release_edges xs k).order ≡ k.order
unfolding release_edges
release_edges-order [] k = refl
release_edges-order (x ∷ xs) k = release_edges-order xs _

pub release_edges-ranks : (xs : List String) (k : Kahn) → (release_edges xs k).ranks ≡ k.ranks
unfolding release_edges
release_edges-ranks [] k = refl
release_edges-ranks (x ∷ xs) k = release_edges-ranks xs _

module _ (i : String) where
  abbrev freed : List String → Kahn → ℕ
  freed xs k = one_if (leb 1 (count i xs) && (number_at k.indegree i - 1 == 0))

  pub release_edges-indegree :
      (xs : List String) (k : Kahn)
      → number_at (release_edges xs k).indegree i ≡ number_at k.indegree i - count i xs
  unfolding release_edges
  release_edges-indegree [] k = omega arith
  release_edges-indegree (x ∷ xs) k =
      let n = number_at k.indegree x - 1 in
      release_edges-indegree xs (record k {
        indegree = Dict.set k.indegree x n;
        ready = if n == 0 then k.ready ++ (x ∷ []) else k.ready;
      })
      ∙ ground (arith, number_at-set k.indegree x i n, eq_iff x i, eq_iff i x)

  pub release_edges-ready :
      (xs : List String) (k : Kahn)
      → count i xs ≤ 1
      → count i (release_edges xs k).ready ≡ count i k.ready + freed xs k
  unfolding release_edges
  release_edges-ready [] k h = ground arith
  release_edges-ready (x ∷ xs) k h =
      let n = number_at k.indegree x - 1 in
      release_edges-ready xs
        (record k {
          indegree = Dict.set k.indegree x n;
          ready = if n == 0 then k.ready ++ (x ∷ []) else k.ready;
        })
        (omega arith)
      ∙ ground (
        arith,
        number_at-set k.indegree x i n,
        eq_iff x i,
        eq_iff i x,
        count-append i k.ready (x ∷ []),
      )
