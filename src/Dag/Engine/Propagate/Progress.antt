-- ===== src/Dag/Engine/Propagate/Progress.antt =====
-- A run that finds nothing ready is over.
use mathlib.Core.Path.{subst}
use hermes_mcp_bridge.Base.{
  member, ap, ◌≢◌, none, sym, all_of, false, eq_iff, refl, All, inl, inr, Bool-cases, List, String,
  [], arith, str_eq, true, ◌∷◌, ◌≡◌,
}
use hermes_mcp_bridge.Base.Dict.{Dict}
use hermes_mcp_bridge.Dag.Contract.{pending, success, is_status, NodeStatus}
use hermes_mcp_bridge.Dag.Store.{NodeState}
use hermes_mcp_bridge.Dag.Engine.Propagate.{
  propagate, ready_nodes, blocks, ValidatedPlan, blocked_reason, deps_of, is_pending, status_at,
}
use hermes_mcp_bridge.Dag.Engine.Propagate.Closure.{IsClosed, propagate-IsClosed}

module _ (plan : ValidatedPlan) where
  -- The order is topological: what a node depends on stands before it.
  abbrev pub IsTopological : List String → List String → Type 0
  IsTopological before [] = Unit
  IsTopological before (i ∷ is) =
      All (λ dep. member dep before ≡ true) (deps_of plan i) × IsTopological (i ∷ before) is

  -- No node is in the middle of something.
  abbrev pub IsResting : NodeStatus → Type 0
  IsResting s = (blocks s ≡ none) → (s ≢ pending) → s ≡ success

  settled_deps :
      (deps before : List String) (d : Dict NodeState)
      → ((i : String) → member i before ≡ true → is_pending (status_at i d) ≡ false)
      → ((i : String) → IsResting (status_at i d))
      → All (λ dep. member dep before ≡ true) deps
      → blocked_reason deps d ≡ none
      → all_of (λ dep. is_status (status_at dep d) success) deps ≡ true
  unfolding blocked_reason
  settled_deps [] before d quiet rest m b = refl
  settled_deps (dep ∷ deps) before d quiet rest m b =
      let free : blocks (status_at dep d) ≡ none = ground (arith, b) in
      let free_rest : blocked_reason deps d ≡ none = ground (arith, b) in
      let done : status_at dep d ≡ success =
        rest dep free (λ p. absurd (cc (quiet dep m.0, ap is_pending p))) in
      rw (done, settled_deps deps before d quiet rest m.1 free_rest) refl

  none_left :
      (is before : List String) (d : Dict NodeState)
      → IsTopological before is
      → IsClosed plan is d
      → ready_nodes plan d is ≡ []
      → ((i : String) → member i before ≡ true → is_pending (status_at i d) ≡ false)
      → ((i : String) → IsResting (status_at i d))
      → All (λ i. is_pending (status_at i d) ≡ false) is
  unfolding ready_nodes
  none_left [] before d t c e quiet rest = tt
  none_left (i ∷ is) before d t c e quiet rest = elim (Bool-cases (is_pending (status_at i d))) [
    | inl p ↦
        let ready = settled_deps (deps_of plan i) before d quiet rest t.0 (c.0 p) in
        absurd (ground (arith, e, p, ready))
    | inr p ↦ (
      p,
      none_left is (i ∷ before) d t.1 c.1 (ground (arith, e, p))
          (λ j m. elim (Bool-cases (str_eq j i)) [
            | inl same ↦
                subst (λ k. is_pending (status_at k d) ≡ false) (sym ((eq_iff j i).0 same)) p
            | inr other ↦ quiet j (ground (arith, m, other))
          ])
          rest,
    )
  ]

  -- The run's loop does not stop early: where `propagate` has been done, the order is topological, and every
  -- node rests (it is pending, has succeeded, or is in a status that blocks those that depend on it), a plan
  -- with nothing ready has no pending node left.
  pub none_ready-none_pending :
      (d : Dict NodeState)
      → IsTopological [] plan.order
      → ((i : String) → IsResting (status_at i d))
      → ready_nodes plan (propagate plan d) plan.order ≡ []
      → All (λ i. is_pending (status_at i (propagate plan d)) ≡ false) plan.order
  none_ready-none_pending d t rest e =
      let (only, closed) = propagate-IsClosed plan d in
      none_left plan.order [] (propagate plan d) t closed e (λ i m. absurd (cc m))
        λ i. elim (only i) [
          | inl same ↦ subst (λ n. IsResting n.status) (sym same) (rest i)
          | inr (was, now) ↦ subst IsResting (sym now) (λ b. absurd (cc b))
        ]
