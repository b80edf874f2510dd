-- ===== src/Dag/Engine/Execute/Calls.antt =====
-- How often the provider is called.
use hermes_mcp_bridge.Base.{
  member, ◌+◌, attempt_ind, leb, maybe_ind, and_then_ind, ok, err, sym, ◌∙◌, arith, ap, refl, some,
  maybe, if_ind, not, ◌&&◌, Bool, List, Option, Result, String, [], attempt, false, if◌then◌else◌,
  none, suc, true, ℕ, ◌<◌, ◌∷◌, ◌≡◌, ◌≤◌,
}
use hermes_mcp_bridge.Base.Dict.{Dict}
use hermes_mcp_bridge.Dag.Contract.{DagError}
use hermes_mcp_bridge.Dag.Json.{Fields, Json}
use hermes_mcp_bridge.Dag.Store.{NodeState}
use hermes_mcp_bridge.Dag.Plan.{Node, ValidatedPlan}
use hermes_mcp_bridge.Dag.Engine.{node_idempotency_key, state_of, put_state, Run, World, persist}
use hermes_mcp_bridge.Dag.Engine.Execute.{
  leave, is_dead_letter, assert_operation_covered, resolve_args, returned, node_failed,
  node_indeterminate, on_success, on_failed, on_indeterminate, epoch, ahead, enter, is_tool,
  is_replaying, recorded, dispatch, perform, govern, cover, run_transform, replay_node,
  within_budget, Outcome, finish, start,
}

-- The halves of tasks, in the order in which they run.
pub data Half : Type 0 where
  started : Node → Half
  finished : Node → Option String → Outcome → Half

module _ (w : World) (plan : ValidatedPlan) (replay : Option (Dict Json)) where
  pub apply : Half → Run → Run
  apply (started n) r = (start w plan replay n r).0
  apply (finished n key o) r = (finish w plan replay n key o r).0

  pub apply_all : List Half → Run → Run
  apply_all [] r = r
  apply_all (h ∷ hs) r = apply_all hs (apply h r)

  -- Whether the half ends in a call.
  abbrev pub calls : Half → Run → Bool
  calls (started n) r =
      maybe (attempt (start w plan replay n r).1 (λ x. none) (λ o. o)) false (λ x. true)
  calls (finished n key o) r = false

  abbrev pub count : List Half → Run → ℕ
  count [] r = 0
  count (h ∷ hs) r = let rest = count hs (apply h r) in if calls h r then suc rest else rest

  -- A half counts its call, stays within the budget, and calls nothing in a replay.
  record IsMetered (called : Bool) (r r' : Run) : Type 0 where
    pub counted : r'.external_calls ≡ (if called then suc r.external_calls else r.external_calls)
    pub bounded :
        r.external_calls ≤ plan.budget.max_external_calls
        → r'.external_calls ≤ plan.budget.max_external_calls
    pub silent : is_replaying w plan replay r ≡ true → called ≡ false
    pub still : is_replaying w plan replay r' ≡ is_replaying w plan replay r

  abbrev Metered : Run → Run × Result DagError (Option (Fields × Option String)) → Type 0
  Metered r t = IsMetered (maybe (attempt t.1 (λ x. none) (λ o. o)) false (λ x. true)) r t.0

  settle-Metered : (n : Node) (st : NodeState) (r : Run) → Metered r (put_state n.id st r, ok none)
  settle-Metered n st r = ground arith

  persist-still :
      (r : Run)
      → ((persist w r).0.external_calls ≡ r.external_calls)
        × ((persist w r).0.checkpoint.replay ≡ r.checkpoint.replay)
  unfolding persist
  persist-still r = (refl, refl)

  -- A step that calls nothing and leaves the counter.
  quiet :
      (r r' : Run)
      → r'.external_calls ≡ r.external_calls
      → r'.checkpoint.replay ≡ r.checkpoint.replay
      → IsMetered false r r'
  quiet r r' e c = ground (arith, e, c)

  kept :
      (r q : Run) {a : Result DagError (Unit {0})}
      → persist w r ≡ (q, a)
      → (q.external_calls ≡ r.external_calls) × (q.checkpoint.replay ≡ r.checkpoint.replay)
  kept r q t = (
    sym (ap (λ t. t.0.external_calls) t) ∙ (persist-still r).0,
    sym (ap (λ t. t.0.checkpoint.replay) t) ∙ (persist-still r).1,
  )

  entered :
      (n : Node) (r q : Run) (x : Fields × Option String)
      → is_replaying w plan replay r ≡ false
      → r.external_calls < plan.budget.max_external_calls
      → (q.external_calls ≡ r.external_calls) × (q.checkpoint.replay ≡ r.checkpoint.replay)
      → Metered r (enter w plan replay n q, ok (some x))
  entered n r q x live low k = ground (arith, live, low, k.0, k.1)

  refused :
      (r q : Run) (e : DagError)
      → (q.external_calls ≡ r.external_calls) × (q.checkpoint.replay ≡ r.checkpoint.replay)
      → Metered r (q, err e)
  refused r q e k = quiet r q k.0 k.1

  dispatch-Metered :
      (n : Node) (resolved : Fields) (r : Run)
      → is_replaying w plan replay r ≡ false
      → r.external_calls < plan.budget.max_external_calls
      → Metered r (dispatch w plan replay n resolved r)
  unfolding dispatch
  dispatch-Metered n resolved r live low =
      let key = node_idempotency_key w plan.digest n.id (epoch w plan replay n) resolved in
      let r' = put_state n.id (ahead w plan replay n resolved key (state_of n.id r.states)) r in
      if_ind (Metered r) (member n.id plan.mutating_nodes)
        (λ _.
          and_then_ind (Metered r) (persist w r')
            (λ q a t. entered n r q (resolved, some key) live low (kept r' q t))
            (λ q e t. refused r q e (kept r' q t)))
        (λ _. entered n r r (resolved, none) live low (refl, refl))

  perform-Metered :
      (n : Node) (resolved : Fields) (r : Run) → Metered r (perform w plan replay n resolved r)
  unfolding perform run_transform replay_node within_budget
  perform-Metered n resolved r =
      if_ind (Metered r) (not (is_tool n.kind))
        (λ _.
          attempt_ind (Metered r)
            (w.apply_transform (maybe n.op "None" (λ o. o)) resolved plan.budget.max_result_bytes)
            (λ x _. settle-Metered n _ r) (λ a _. settle-Metered n _ r))
        λ _.
          if_ind (Metered r) (is_replaying w plan replay r)
            (λ _.
              maybe_ind (Metered r) (recorded w plan replay n) (λ _. settle-Metered n _ r)
                (λ a _. settle-Metered n _ r))
            λ live.
              if_ind (Metered r) (leb plan.budget.max_external_calls r.external_calls)
                (λ _. settle-Metered n _ r)
                (λ low. dispatch-Metered n resolved r live (ground (arith, low)))

  start-Metered : (n : Node) (r : Run) → Metered r (start w plan replay n r)
  unfolding start govern cover
  start-Metered n r =
      attempt_ind (Metered r) (resolve_args w n r.states) (λ x _. settle-Metered n _ r)
        λ resolved _.
          if_ind (Metered r) (not (w.decide plan n resolved).allowed) (λ _. settle-Metered n _ r)
            λ _.
              if_ind (Metered r)
                (member n.id plan.mutating_nodes && (w.decide plan n resolved).approval_required)
                (λ _.
                  attempt_ind (Metered r) (assert_operation_covered w plan n resolved)
                    (λ x _. settle-Metered n _ r) (λ _ _. perform-Metered n resolved r))
                (λ _. perform-Metered n resolved r)

  abbrev Same : Run → Run × Result DagError (Unit {0}) → Type 0
  Same r t = (t.0.external_calls ≡ r.external_calls) × (t.0.checkpoint.replay ≡ r.checkpoint.replay)

  persist-Same : (r q : Run) → Same r (q, ok tt) → Same r (persist w q)
  persist-Same r q h = ((persist-still q).0 ∙ h.0, (persist-still q).1 ∙ h.1)

  on_indeterminate-Same :
      (n : Node) (key : Option String) (detail : String) (r : Run)
      → Same r (on_indeterminate w plan replay n key detail r)
  unfolding on_indeterminate
  on_indeterminate-Same n key detail r =
      and_then_ind (Same r) (persist w _)
        (λ q a t.
          if_ind (Same r) (is_dead_letter w plan replay n.on_failure)
            (λ _. persist-Same r _ (kept _ q t)) (λ _. kept _ q t))
        (λ q e t. kept _ q t)

  apply-IsMetered : (h : Half) (r : Run) → IsMetered (calls h r) r (apply h r)
  unfolding apply finish
  apply-IsMetered (started n) r = start-Metered n r
  apply-IsMetered (finished n key (returned result)) r = unfold on_success in quiet r _ refl refl
  apply-IsMetered (finished n key (node_failed detail)) r = unfold on_failed in quiet r _ refl refl
  apply-IsMetered (finished n key (node_indeterminate detail)) r =
      let same = on_indeterminate-Same n key detail (leave w plan replay r) in
      quiet r _ same.0 same.1

  apply_all-IsMetered :
      (hs : List Half) (r : Run)
      → (count hs r + r.external_calls ≡ (apply_all hs r).external_calls)
        × (r.external_calls ≤ plan.budget.max_external_calls
            → (apply_all hs r).external_calls ≤ plan.budget.max_external_calls)
        × (is_replaying w plan replay r ≡ true → count hs r ≡ 0)
  unfolding apply_all
  apply_all-IsMetered [] r = (omega arith, λ h. h, λ h. refl)
  apply_all-IsMetered (h ∷ hs) r =
      let here = apply-IsMetered h r in
      let (counted, bounded, silent) = apply_all-IsMetered hs (apply h r) in
      (
        ground (arith, here.counted, counted),
        λ le. bounded (here.bounded le),
        λ q. ground (arith, here.silent q, silent (here.still ∙ q)),
      )

  -- The budget: whatever the interleaving of the tasks' halves, the run counts every provider call that it
  -- makes, and makes no more than the budget allows; a replay makes none at all.
  pub calls_within_budget :
      (hs : List Half) (r : Run)
      → r.external_calls ≡ 0
      → (count hs r ≡ (apply_all hs r).external_calls)
        × (count hs r ≤ plan.budget.max_external_calls)
        × (is_replaying w plan replay r ≡ true → count hs r ≡ 0)
  calls_within_budget hs r h =
      let (counted, bounded, silent) = apply_all-IsMetered hs r in
      (omega (arith, h, counted), omega (arith, h, counted, bounded (omega (arith, h))), silent)
