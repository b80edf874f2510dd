-- ===== src/Dag/Engine/Rounds/Ends.antt =====
-- The loop of `run` comes to an end, and then no node is left pending.
use mathlib.Core.Path.{subst}
use hermes_mcp_bridge.Dag.Contract.{DagError}
use hermes_mcp_bridge.Dag.Json.{Json}
use hermes_mcp_bridge.Dag.Engine.{Run, World, persist}
use hermes_mcp_bridge.Dag.Engine.Execute.{Outcome}
use hermes_mcp_bridge.Dag.Engine.Execute.Settles.{persist-states}
use hermes_mcp_bridge.Dag.Engine.Batch.{Pool, Flight, run_batch}
use hermes_mcp_bridge.Dag.Engine.Batch.Settled.{run_batch_settles}
use hermes_mcp_bridge.Dag.Engine.Propagate.Closure.{propagate-IsClosed, count-le}
use hermes_mcp_bridge.Dag.Engine.Propagate.Progress.{IsTopological, none_ready-none_pending}
use hermes_mcp_bridge.Dag.Engine.Rounds.{batches, is_halted, propagated, behind_batch, skipped_rest}
use hermes_mcp_bridge.Base.{
  length, refl, Bool, ℕ, List-cases, Result, Option, none, some, ok, err, attempt_ind, zero, suc,
  All, List, String, [], ap, arith, false, if_ind, inl, inr, sym, ◌<◌, ◌∷◌, ◌≡◌, ◌≤◌,
}
use hermes_mcp_bridge.Base.Dict.{Dict}
use hermes_mcp_bridge.Dag.Store.{NodeState}
use hermes_mcp_bridge.Dag.Plan.{Node, ValidatedPlan}
use hermes_mcp_bridge.Dag.Engine.Propagate.{is_pending, ready_nodes, status_at}
use hermes_mcp_bridge.Dag.Engine.Propagate.Closure.{OnlySkips, count_pending}
use hermes_mcp_bridge.Dag.Engine.Propagate.Progress.{IsResting}
use hermes_mcp_bridge.Dag.Engine.Rounds.{nodes_named}
use hermes_mcp_bridge.Dag.Engine.Rounds.Fewer.{
  settled-IsResting, count-OnlySkips, count-Moved_less, skip_pending-none, ready_head, named_at,
  in_batch, Moved, AreNamed,
}

module _ (w : World) (plan : ValidatedPlan) (replay : Option (Dict Json)) (parallelism : ℕ)
    (choose : Pool → ℕ) (executor : Flight → Run → Outcome) where
  abbrev pub AllRest : Run → Type 0
  AllRest r = (i : String) → IsResting plan (status_at i r.states)

  abbrev pub NonePending : Run → Type 0
  NonePending r = All (λ i. is_pending (status_at i r.states) ≡ false) plan.order

  -- The loop has ended: with an exception, or with no pending node.
  abbrev pub HasEnded : Option (Run × Result DagError (Unit {0})) → Type 0
  HasEnded none = ⊥
  HasEnded (some (r, err x)) = Unit {0}
  HasEnded (some (r, ok u)) = NonePending r

  abbrev halted : Run → Bool
  halted r = is_halted w plan replay parallelism choose executor r

  ended_as :
      (t : Run × Result DagError (Unit {0})) (r : Run)
      → t.0.states ≡ r.states
      → NonePending r
      → HasEnded (some t)
  ended_as (q, err x) r same n = tt
  ended_as (q, ok u) r same n =
      subst (λ d. All (λ i. is_pending (status_at i d) ≡ false) plan.order) (sym same) n

  ended_after_write : (r : Run) → NonePending r → HasEnded (some (persist w r))
  ended_after_write r n = ended_as (persist w r) r (persist-states w plan replay r) n

  behind_batch-HasEnded :
      (go : Run → Option (Run × Result DagError (Unit {0}))) (t : Run × Result DagError (Unit {0}))
      → ((q : Run) → t.1 ≡ ok tt → q.states ≡ t.0.states → halted q ≡ false → HasEnded (go q))
      → HasEnded (behind_batch w plan replay parallelism choose executor go t)
  behind_batch-HasEnded go (r, err x) next = tt
  behind_batch-HasEnded go (r, ok u) next =
      attempt_ind HasEnded (persist w r).1 (λ x e. tt)
        λ v e.
          if_ind HasEnded (halted (persist w r).0)
            (λ h.
              ended_after_write
                (skipped_rest w plan replay parallelism choose executor (persist w r).0)
                (skip_pending-none plan.order (persist w r).0.states))
            (λ h. next (persist w r).0 refl (persist-states w plan replay r) h)

  rests_on :
      (batch : List Node) (d d' e : Dict NodeState) (j : String)
      → ((i : String) → IsResting plan (status_at i d))
      → OnlySkips d d'
      → Moved batch d' e
      → IsResting plan (status_at j e)
  rests_on batch d d' e j rest only moved = elim (moved j) [
    | inl done ↦ settled-IsResting plan (status_at j e) done
    | inr (out, same) ↦ subst (IsResting plan) (sym same) (elim (only j) [
      | inl kept ↦ subst (λ (n : NodeState). IsResting plan n.status) (sym kept) (rest j)
      | inr (was, now) ↦ subst (IsResting plan) (sym now) (λ b. absurd (cc b))
    ])
  ]

  module _ (topological : IsTopological plan [] plan.order) (named : AreNamed plan plan.order)
      (one : 1 ≤ parallelism) where
    batches-HasEnded :
        (fuel : ℕ) (r : Run)
        → AllRest r
        → halted r ≡ false
        → count_pending plan.order r.states < fuel
        → HasEnded (batches w plan replay parallelism choose executor fuel r)
    unfolding batches
    batches-HasEnded zero r rest live le = absurd (omega (arith, le))
    batches-HasEnded (suc fuel) r rest live le =
        let r' = propagated w plan replay parallelism choose executor r in
        let (only, closed) = propagate-IsClosed plan r.states in
        rw live (elim (List-cases (ready_nodes plan r'.states plan.order)) [
          | inl e ↦ rw e (none_ready-none_pending plan r.states topological rest e)
          | inr (i, is, e) ↦
              let batch = nodes_named plan (i ∷ is) in
              let t = run_batch w plan replay parallelism choose executor batch r' in
              rw e (
                behind_batch-HasEnded (batches w plan replay parallelism choose executor fuel) t
                  (λ q went same free.
                    let moved =
                      run_batch_settles w plan replay parallelism choose executor batch r' one
                        went in
                    let (m, p) = ready_head plan plan.order is r'.states i e in
                    let inside = in_batch plan i is (named_at plan plan.order i named m) in
                    batches-HasEnded fuel q
                      (λ j.
                        subst (λ d. IsResting plan (status_at j d)) (sym same)
                          (rests_on batch r.states r'.states t.0.states j rest only moved))
                      free
                      (omega (
                        arith,
                        le,
                        ap (count_pending plan.order) same,
                        count-OnlySkips plan.order r.states r'.states only,
                        count-Moved_less plan.order batch r'.states t.0.states i moved inside m p,
                      ))))
        ])

    -- From a run that rests and is not halted, as every fresh run is, the loop ends within as many rounds as the
    -- plan has nodes and one: with an exception, or with no node of the order pending. The plan's order is
    -- topological and of nodes of the plan, as validation makes it, and the semaphore has a place.
    pub batches_end :
        (r : Run)
        → AllRest r
        → halted r ≡ false
        → HasEnded (batches w plan replay parallelism choose executor (suc (length plan.order)) r)
    batches_end r rest live =
        batches-HasEnded (suc (length plan.order)) r rest live
          (omega (arith, count-le plan plan.order r.states))
