-- ===== src/Dag/Engine/Execute/Settles.antt =====
-- What a task leaves of the states: its own node's is settled when it is over, and no other changes.
use mathlib.Core.Path.{subst}
use hermes_mcp_bridge.Base.Dict
use hermes_mcp_bridge.Base.{
  some, Bool, Option, Result, String, and_then_ind, ap, arith, attempt_ind, eq_iff, false, if_ind,
  leb, maybe, maybe_ind, member, none, not, ok, refl, str_eq, sym, true, ◌&&◌, ◌∙◌, ◌≡◌,
}
use hermes_mcp_bridge.Base.Dict.{Dict, get-set}
use hermes_mcp_bridge.Dag.Contract.{
  DagError, NodeStatus, dead_letter, denied, failed, indeterminate, skipped, success,
}
use hermes_mcp_bridge.Dag.Json.{Fields, Json}
use hermes_mcp_bridge.Dag.Store.{NodeState}
use hermes_mcp_bridge.Dag.Plan.{Node, ValidatedPlan}
use hermes_mcp_bridge.Dag.Engine.{Run, World, node_idempotency_key, persist, put_state, state_of}
use hermes_mcp_bridge.Dag.Engine.Args.{assert_operation_covered, resolve_args}
use hermes_mcp_bridge.Dag.Engine.Execute.{
  or_default, is_dead_letter, Outcome, ahead, cover, dispatch, epoch, finish, govern, is_replaying,
  is_tool, leave, node_failed, node_indeterminate, on_failed, on_indeterminate, on_success, perform,
  recorded, replay_node, returned, run_transform, start, within_budget,
}
use hermes_mcp_bridge.Dag.Engine.Propagate.{status_at}

-- A node that a task is through with.
abbrev pub is_settled : NodeStatus → Bool
is_settled success = true
is_settled failed = true
is_settled denied = true
is_settled skipped = true
is_settled indeterminate = true
is_settled dead_letter = true
is_settled _ = false

-- From `r` to `r'`, other nodes than `i` keep their states, and `i` is settled or need not be.
pub record Leaves (i : String) (over : Bool) (r r' : Run) : Type 0 where
  pub others : (j : String) → str_eq i j ≡ false → status_at j r'.states ≡ status_at j r.states
  pub own : over ≡ true → is_settled (status_at i r'.states) ≡ true

set-Leaves :
    (i : String) (n : NodeState) (r q : Run) (over : Bool)
    → q.states ≡ Dict.set r.states i n
    → (over ≡ true → is_settled n.status ≡ true)
    → Leaves i over r q
set-Leaves i n r q over same h = record {
  others = λ j e. ap (status_at j) same ∙ ground (arith, get-set r.states i j n, e);
  own = λ o.
      subst (λ d. is_settled (status_at i d) ≡ true) (sym same)
        (ground (arith, get-set r.states i i n, eq_iff i i, h o));
}

module _ (w : World) (plan : ValidatedPlan) (replay : Option (Dict Json)) where
  pub persist-states : (r : Run) → (persist w r).0.states ≡ r.states
  unfolding persist
  persist-states r = refl

  abbrev Parts : Type 0
  Parts = Option (Fields × Option String)

  -- A task is over when `start` returns nothing to call.
  abbrev pub is_over : Result DagError Parts → Bool
  is_over (ok none) = true
  is_over _ = false

  abbrev Started : String → Run → Run × Result DagError Parts → Type 0
  Started i r t = Leaves i (is_over t.1) r t.0

  same_states : (i : String) (r q : Run) → q.states ≡ r.states → Leaves i false r q
  same_states i r q e = record { others = λ j d. ap (status_at j) e; own = λ o. absurd (cc o) }

  settle-Started :
      (n : Node) (st : NodeState) (r : Run)
      → is_settled st.status ≡ true
      → Started n.id r (put_state n.id st r, ok none)
  settle-Started n st r h = set-Leaves n.id st r _ true refl (λ o. h)

  dispatch-Started :
      (n : Node) (resolved : Fields) (r : Run)
      → Started n.id r (dispatch w plan replay n resolved r)
  unfolding dispatch
  dispatch-Started n resolved r =
      let key = node_idempotency_key w plan.digest n.id (epoch w plan replay n) resolved in
      let st = ahead w plan replay n resolved key (state_of n.id r.states) in
      let r' = put_state n.id st r in
      if_ind (Started n.id r) (member n.id plan.mutating_nodes)
        (λ _.
          and_then_ind (Started n.id r) (persist w r')
            (λ q a t.
              set-Leaves n.id st r _ false (sym (ap (λ t. t.0.states) t) ∙ persist-states r')
                (λ o. absurd (cc o)))
            (λ q e t.
              set-Leaves n.id st r q false (sym (ap (λ t. t.0.states) t) ∙ persist-states r')
                (λ o. absurd (cc o))))
        (λ _. same_states n.id r _ refl)

  perform-Started :
      (n : Node) (resolved : Fields) (r : Run) → Started n.id r (perform w plan replay n resolved r)
  unfolding perform run_transform replay_node within_budget
  perform-Started n resolved r =
      if_ind (Started n.id r) (not (is_tool n.kind))
        (λ _.
          attempt_ind (Started n.id r)
            (w.apply_transform (maybe n.op "None" (λ o. o)) resolved plan.budget.max_result_bytes)
            (λ x _. settle-Started n _ r refl) (λ a _. settle-Started n _ r refl))
        λ _.
          if_ind (Started n.id r) (is_replaying w plan replay r)
            (λ _.
              maybe_ind (Started n.id r) (recorded w plan replay n) (λ _. settle-Started n _ r refl)
                (λ a _. settle-Started n _ r refl))
            λ live.
              if_ind (Started n.id r) (leb plan.budget.max_external_calls r.external_calls)
                (λ _. settle-Started n _ r refl) (λ low. dispatch-Started n resolved r)

  pub start-Leaves : (n : Node) (r : Run) → Started n.id r (start w plan replay n r)
  unfolding start govern cover
  start-Leaves n r =
      attempt_ind (Started n.id r) (resolve_args w n r.states) (λ x _. settle-Started n _ r refl)
        λ resolved _.
          if_ind (Started n.id r) (not (w.decide plan n resolved).allowed)
            (λ _. settle-Started n _ r refl)
            λ _.
              if_ind (Started n.id r)
                (member n.id plan.mutating_nodes && (w.decide plan n resolved).approval_required)
                (λ _.
                  attempt_ind (Started n.id r) (assert_operation_covered w plan n resolved)
                    (λ x _. settle-Started n _ r refl) (λ _ _. perform-Started n resolved r))
                (λ _. perform-Started n resolved r)

  written :
      (i : String) (r' : Run) (a : Result DagError (Unit {0})) (r q : Run)
      → Leaves i true r r'
      → persist w r' ≡ (q, a)
      → Leaves i true r q
  written i r' a r q l t =
      let same : q.states ≡ r'.states = sym (ap (λ t. t.0.states) t) ∙ persist-states r' in
      record {
        others = λ j e. ap (status_at j) same ∙ l.others j e;
        own = λ o. subst (λ d. is_settled (status_at i d) ≡ true) (sym same) (l.own o);
      }

  pub finish-Leaves :
      (n : Node) (key : Option String) (o : Outcome) (r : Run)
      → Leaves n.id true r (finish w plan replay n key o r).0
  unfolding finish on_success on_failed on_indeterminate
  finish-Leaves n key (returned result) r = set-Leaves n.id _ r _ true refl (λ o. refl)
  finish-Leaves n key (node_failed detail) r = set-Leaves n.id _ r _ true refl (λ o. refl)
  finish-Leaves n key (node_indeterminate detail) r =
      let st : NodeState = record (state_of n.id r.states) {
        status = indeterminate;
        idempotency_key = key;
        reason_code = some (or_default detail "INDETERMINATE");
      } in
      let r' = put_state n.id st (leave w plan replay r) in
      let done = set-Leaves n.id st r r' true refl (λ o. refl) in
      and_then_ind (λ (t : Run × Result DagError (Unit {0})). Leaves n.id true r t.0) (persist w r')
        (λ q a t.
          let here = written n.id r' _ r q done t in
          if_ind (λ (t : Run × Result DagError (Unit {0})). Leaves n.id true r t.0)
            (is_dead_letter w plan replay n.on_failure)
            (λ _.
              let st' = record (state_of n.id q.states) { status = dead_letter } in
              let last =
                set-Leaves n.id st' q (persist w (put_state n.id st' q)).0 true
                  (persist-states (put_state n.id st' q)) (λ o. refl) in
              record { others = λ j e. last.others j e ∙ here.others j e; own = last.own })
            (λ _. here))
        (λ q e t. written n.id r' _ r q done t)
