-- ===== src/Dag/Engine/Execute.antt =====
-- `execute`, cut at its one await: what it does up to the provider's call, and what it does with the
-- outcome. The tasks of one batch run their two halves in any order. An executor that raises another
-- exception than the two it is meant to is left out.
pub mod Ahead
pub mod Calls
pub mod Settles
use hermes_mcp_bridge.Base.Dict
use hermes_mcp_bridge.Base.{
  member, attempt, Bool, Option, Result, String, [], and_then, false, if◌then◌else◌, leb, max,
  maybe, none, not, ok, some, str_eq, true, ℕ, ◌&&◌, ◌++◌, ◌+◌, ◌-◌, ◌∷◌,
}
use hermes_mcp_bridge.Base.Dict.{Dict, get}
use hermes_mcp_bridge.Dag.Contract.{
  DagError, FailurePolicy, NodeKind, NodeStatus, OnFailure, PlanReason, abort_plan,
  binding_runtime_reject, budget_exhausted, continue_independent, dead_letter, dead_letter_node,
  denied, dispatched, fail_fast, failed, indeterminate, isolate_branch, skipped, success, tool,
  transform,
}
use hermes_mcp_bridge.Dag.Json.{null, Fields, Json, field, no_fields, object, text}
use hermes_mcp_bridge.Dag.Store.{NodeState}
use hermes_mcp_bridge.Dag.Plan.{Node, ValidatedPlan}
use hermes_mcp_bridge.Dag.Engine.{
  Run, World, node_idempotency_key, operation_digest, or_denied, persist, put_state, some_reason,
  state_of,
}
use hermes_mcp_bridge.Dag.Engine.Args.{assert_operation_covered, resolve_args}

-- What the executor does with a call.
pub data Outcome : Type 0 where
  returned : Fields → Outcome
  node_indeterminate : String → Outcome
  node_failed : String → Outcome

-- `str` of a result's value, which is a text in what executors return; other values are not told apart.
abbrev str : Json → String
str (text s) = s
str _ = "None"

-- `text or default`
abbrev or_default : String → String → String
or_default s d = if str_eq s "" then d else s

abbrev is_tool : NodeKind → Bool
is_tool tool = true
is_tool transform = false

abbrev text_at : Fields → String → Option Json
text_at no_fields k = none
text_at (field j v f) k = if str_eq j k then some v else text_at f k

abbrev present : Json → Option Json
present null = none
present v = some v

module _ (w : World) (plan : ValidatedPlan) (replay : Option (Dict Json)) where
  abbrev is_mutating : Node → Bool
  is_mutating n = member n.id plan.mutating_nodes

  -- `bool(replay_results is not None) or checkpoint.replay`
  abbrev pub is_replaying : Run → Bool
  is_replaying r = maybe replay r.checkpoint.replay (λ d. true)

  -- A task that is over before any call, with the state of its node.
  abbrev settle :
      Node → (NodeState → NodeState) → Run → Run × Result DagError (Option (Fields × Option String))
  settle n f r = (put_state n.id (f (state_of n.id r.states)) r, ok none)

  abbrev with_reason : NodeStatus → PlanReason → NodeState → NodeState
  with_reason s reason st = record st { status = s; reason_code = some_reason reason }

  unfoldable pub run_transform :
      Node → Fields → Run → Run × Result DagError (Option (Fields × Option String))
  run_transform n resolved r =
      attempt (w.apply_transform (maybe n.op "None" (λ o. o)) resolved plan.budget.max_result_bytes)
        (λ x. settle n (with_reason failed x.reason) r)
        (λ value. settle n (λ st. record st { status = success; result = value }) r)

  -- `(replay_results or {}).get(node.id)`, where JSON's null is Python's None
  abbrev recorded : Node → Option Json
  recorded n = maybe (maybe replay none (λ d. Dict.get d n.id)) none present

  unfoldable pub replay_node : Node → Run → Run × Result DagError (Option (Fields × Option String))
  replay_node n r =
      maybe (recorded n) (settle n (with_reason failed binding_runtime_reject) r)
        (λ value. settle n (λ st. record st { status = success; result = value }) r)

  -- The write ahead of a mutating node's call.
  abbrev ahead : Node → Fields → String → NodeState → NodeState
  ahead n resolved key st = record st {
    status = dispatched;
    idempotency_key = some key;
    operation_digest = some (operation_digest w n.id resolved);
  }

  abbrev enter : Node → Run → Run
  enter n r = record r {
    dispatch_order = r.dispatch_order ++ (n.id ∷ []);
    external_calls = r.external_calls + 1;
    inflight = r.inflight + 1;
    max_inflight = max r.max_inflight (r.inflight + 1);
  }

  abbrev epoch : Node → ℕ
  epoch n = maybe n.idempotency 0 (λ e. e.attempt_epoch)

  unfoldable pub dispatch :
      Node → Fields → Run → Run × Result DagError (Option (Fields × Option String))
  dispatch n resolved r =
      let key = node_idempotency_key w plan.digest n.id (epoch n) resolved in
      if is_mutating n
      then and_then (persist w (put_state n.id (ahead n resolved key (state_of n.id r.states)) r))
          (λ _ r. (enter n r, ok (some (resolved, some key))))
      else (enter n r, ok (some (resolved, none)))

  unfoldable pub within_budget :
      Node → Fields → Run → Run × Result DagError (Option (Fields × Option String))
  within_budget n resolved r =
      if leb plan.budget.max_external_calls r.external_calls
      then settle n (with_reason skipped budget_exhausted) r
      else dispatch n resolved r

  unfoldable pub perform :
      Node → Fields → Run → Run × Result DagError (Option (Fields × Option String))
  perform n resolved r =
      if not (is_tool n.kind)
      then run_transform n resolved r
      else if is_replaying r
      then replay_node n r
      else within_budget n resolved r

  -- The guard on the operation of a mutating node that needs an approval.
  unfoldable pub cover :
      Node → Fields → Bool → Run → Run × Result DagError (Option (Fields × Option String))
  cover n resolved approval_required r =
      if is_mutating n && approval_required
      then attempt (assert_operation_covered w plan n resolved)
          (λ x. settle n (with_reason denied x.reason) r) (λ _. perform n resolved r)
      else perform n resolved r

  unfoldable pub govern :
      Node → Fields → Run → Run × Result DagError (Option (Fields × Option String))
  govern n resolved r =
      let d = w.decide plan n resolved in
      if not d.allowed
      then settle n (with_reason denied (or_denied d.reason)) r
      else cover n resolved d.approval_required r

  -- Up to the await: nothing to call, or the arguments of the call and the key it is made under.
  unfoldable pub start : Node → Run → Run × Result DagError (Option (Fields × Option String))
  start n r =
      attempt (resolve_args w n r.states) (λ x. settle n (with_reason failed x.reason) r)
        (λ resolved. govern n resolved r)

  abbrev is_fail_fast : FailurePolicy → Bool
  is_fail_fast fail_fast = true
  is_fail_fast continue_independent = false

  -- The failure of a node that ends the plan.
  abbrev aborts : OnFailure → Bool
  aborts isolate_branch = false
  aborts abort_plan = true
  aborts dead_letter_node = is_fail_fast plan.failure_policy

  abbrev leave : Run → Run
  leave r = record r { inflight = r.inflight - 1 }

  abbrev is_dead_letter : OnFailure → Bool
  is_dead_letter dead_letter_node = true
  is_dead_letter _ = false

  unfoldable pub on_indeterminate :
      Node → Option String → String → Run → Run × Result DagError (Unit {0})
  on_indeterminate n key detail r =
      let st = record (state_of n.id r.states) {
        status = indeterminate;
        idempotency_key = key;
        reason_code = some (or_default detail "INDETERMINATE");
      } in
      and_then (persist w (put_state n.id st r)) λ _ r.
        if is_dead_letter n.on_failure
        then persist w (put_state n.id (record (state_of n.id r.states) { status = dead_letter }) r)
        else (r, ok tt)

  unfoldable pub on_failed : Node → String → Run → Run × Result DagError (Unit {0})
  on_failed n detail r =
      let st = record (state_of n.id r.states) {
        status = failed;
        reason_code = some (or_default detail "FAILED");
      } in
      let r' = put_state n.id st r in
      (record r' { aborted = if aborts n.on_failure then true else r'.aborted }, ok tt)

  unfoldable pub on_success : Node → Fields → Run → Run × Result DagError (Unit {0})
  on_success n result r =
      let st = record (state_of n.id r.states) {
        status = success;
        result = object result;
        effect_ref =
            if is_mutating n
            then maybe (text_at result "effect_ref") none (λ v. some (str v))
            else none;
      } in
      (put_state n.id st r, ok tt)

  -- Behind the await.
  unfoldable pub finish : Node → Option String → Outcome → Run → Run × Result DagError (Unit {0})
  finish n key (returned result) r = on_success n result (leave r)
  finish n key (node_indeterminate detail) r = on_indeterminate n key detail (leave r)
  finish n key (node_failed detail) r = on_failed n detail (leave r)
