-- ===== src/Dag/Engine/Compensate.antt =====
-- `_compensate`: the declared inverses of the effects of a plan that did not complete. What the
-- compensator does is a parameter, by the node and the effect.
pub mod Outcomes
use hermes_mcp_bridge.Base.Dict
use hermes_mcp_bridge.Base.{
  is_some, ◌||◌, Bool, List, Option, String, [], and_then, err, false, if◌then◌else◌, maybe, none,
  not, ok, some, str_eq, true, ◌&&◌, ◌∷◌,
}
use hermes_mcp_bridge.Base.Dict.{Dict, set}
use hermes_mcp_bridge.Dag.Contract.{
  unsafe_compensation, compensation_unsafe, NodeStatus, PlanReason, PlanStatus, RollbackPolicy,
  compensated, compensation_failed, compensation_indeterminate, compensation_pending,
  compensation_unsafe, is_status, no_rollback, plan_completed, plan_unknown_dependency,
  policy_denied, success,
}
use hermes_mcp_bridge.Dag.Store.{NodeState}
use hermes_mcp_bridge.Dag.Plan.{Node, ValidatedPlan, node}
use hermes_mcp_bridge.Dag.Engine.{
  Action, World, compensation_key, dag_error, persist, put_state, some_reason, state_of,
}
use hermes_mcp_bridge.Dag.Engine.Status.{is, plan_status_from, report}

pub data Compensated : Type 0 where
  verified : Bool → Compensated
  compensation_unknown : Compensated
  compensation_raised : Compensated

-- The status that a compensation ends in, the reason where one is set, and its entry in the report.
pub record Verdict : Type 0 where
  pub status : NodeStatus
  pub reason : Option PlanReason
  pub outcome : String

abbrev verdict : NodeStatus → Option PlanReason → String → Verdict
verdict s r o = record { status = s; reason = r; outcome = o }

abbrev or_empty : Option String → String
or_empty none = ""
or_empty (some s) = s

abbrev rev_onto : List String → List String → List String
rev_onto [] acc = acc
rev_onto (x ∷ xs) acc = rev_onto xs (x ∷ acc)

abbrev is_completed : PlanStatus → Bool
is_completed plan_completed = true
is_completed _ = false

abbrev is_none : RollbackPolicy → Bool
is_none no_rollback = true
is_none _ = false

module _ (w : World) (plan : ValidatedPlan)
    (compensator : Option (Node → String → Compensated)) where
  -- Succeeded, with an effect, and with a declared inverse.
  abbrev is_candidate : Dict NodeState → String → Bool
  is_candidate d i =
      is_status (state_of i d).status success
      && not (str_eq (or_empty (state_of i d).effect_ref) "")
      && maybe (node plan i) false (λ n. is_some n.compensation)

  abbrev keep : Dict NodeState → List String → List String
  keep d [] = []
  keep d (i ∷ is) = let rest = keep d is in if is_candidate d i then i ∷ rest else rest

  unfoldable pub candidates : Dict NodeState → List String
  candidates d = keep d (rev_onto plan.order [])

  abbrev of_call : Compensated → Verdict
  of_call (verified true) = verdict compensated none "COMPENSATED"
  of_call (verified false) = verdict compensation_unsafe (some unsafe_compensation) "UNSAFE"
  of_call compensation_unknown = verdict compensation_indeterminate none "INDETERMINATE"
  of_call compensation_raised = verdict compensation_failed none "FAILED"

  -- What becomes of one effect: no compensator, a refusal by policy, or what the compensator did.
  unfoldable pub judge : Node → String → Verdict
  judge n ref =
      maybe compensator (verdict compensation_unsafe (some unsafe_compensation) "UNSAFE") λ call.
        if not (w.decide plan n n.args).allowed
        then verdict compensation_unsafe (some policy_denied) "DENIED"
        else of_call (call n ref)

  abbrev mark : Verdict → NodeState → NodeState
  mark v n = record n { status = v.status; reason_code = maybe v.reason n.reason_code some_reason }

  -- The key, written ahead.
  abbrev pending_under : String → NodeState → NodeState
  pending_under i n = record n {
    status = compensation_pending;
    idempotency_key = some (compensation_key w plan.digest i (or_empty n.effect_ref));
  }

  unfoldable pub compensate_node : Node → Action (String × String)
  compensate_node n r =
      let st = state_of n.id r.states in
      let v = judge n (or_empty st.effect_ref) in
      and_then (persist w (put_state n.id (pending_under n.id st) r)) λ _ r.
        and_then (persist w (put_state n.id (mark v (state_of n.id r.states)) r))
          (λ _ r. (r, ok (n.id, v.outcome)))

  unfoldable pub compensate_all : List String → Action (List (String × String))
  compensate_all [] r = (r, ok [])
  compensate_all (i ∷ is) r =
      maybe (node plan i) (r, err (dag_error plan_unknown_dependency i))
        λ n.
          and_then (compensate_node n r)
            λ o r. and_then (compensate_all is r) (λ os r. (r, ok (o ∷ os)))

  unfoldable pub compensate : Action (List (String × String))
  compensate r =
      if is_completed (plan_status_from r.states false)
      then (r, ok [])
      else compensate_all (candidates r.states) r

  -- The call in `run`: no effect of a replay is undone, and none where the plan asks for no rollback.
  unfoldable pub roll_back : Bool → Action (List (String × String))
  roll_back replaying r =
      if replaying || is_none plan.rollback_policy then (r, ok []) else compensate r
