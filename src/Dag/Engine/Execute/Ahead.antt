-- ===== src/Dag/Engine/Execute/Ahead.antt =====
-- Before the provider is called: the write ahead, the budget of calls, and the replay that makes none.
use mathlib.Core.Path.{subst}
use mathlib.Core.Option.{some-injective}
use hermes_mcp_bridge.Base.{
  ◌∙◌, Option-cases, inl, inr, member, ap, attempt_ind, leb, maybe_ind, and_then_ind, ok-injective,
  refl, some, maybe, if_ind, not, ◌&&◌, Option, Result, String, ok, true, ◌≡◌,
}
use hermes_mcp_bridge.Base.Dict
use hermes_mcp_bridge.Base.Dict.{
  get-by_key, get, set, get-AllItems, get-set_self, set-AllItems, set-IsUnique, Dict,
}
use hermes_mcp_bridge.Dag.Contract.{DagError, dispatched}
use hermes_mcp_bridge.Dag.Json.{Fields, Json}
use hermes_mcp_bridge.Dag.Body.Codec.{IsKeyed}
use hermes_mcp_bridge.Dag.Body.Codec.Reads.{sorted_checkpoint}
use hermes_mcp_bridge.Dag.Store.{NodeState, load, schema}
use hermes_mcp_bridge.Dag.Store.Records.{save-Loads}
use hermes_mcp_bridge.Dag.Plan.{Node, ValidatedPlan}
use hermes_mcp_bridge.Dag.Engine.{
  blank, put_state, Run, World, node_idempotency_key, persist, state_of,
}
use hermes_mcp_bridge.Dag.Engine.Args.{assert_operation_covered, resolve_args}
use hermes_mcp_bridge.Dag.Engine.Execute.{
  ahead, enter, is_tool, is_replaying, recorded, epoch, dispatch, govern, cover, perform,
  run_transform, replay_node, within_budget, start,
}

abbrev Started : Type 0
Started = Run × Result DagError (Option (Fields × Option String))

state_of-node_id : (i : String) (d : Dict NodeState) → IsKeyed d → i ≡ (state_of i d).node_id
state_of-node_id i d keyed = elim (Option-cases (Dict.get d i)) [
  | inl absent ↦ rw absent refl
  | inr (n, found) ↦
      rw found (get-AllItems (λ k (n : NodeState). k ≡ n.node_id) d i n keyed.0 found)
]

module _ (w : World) (plan : ValidatedPlan) (replay : Option (Dict Json)) where
  -- `load` reads from the store a checkpoint of the execution, which has the node as dispatched under the key of its call.
  pub record IsWritten (n : Node) (x : Fields × Option String) (r : Run) : Type 0 where
    pub stored :
        load w.lower w.sha256_hex r.checkpoint.execution_id r.store
        ≡ ok (sorted_checkpoint r.checkpoint)
    pub dispatched_there :
        (state_of n.id (sorted_checkpoint r.checkpoint).node_states).status ≡ dispatched
    pub under_key :
        (state_of n.id (sorted_checkpoint r.checkpoint).node_states).idempotency_key ≡ x.1
    pub key_of_call :
        x.1 ≡ some (node_idempotency_key w plan.digest n.id (epoch w plan replay n) x.0)

  persisted :
      (r : Run)
      → (persist w r).1 ≡ ok tt
      → r.checkpoint.schema_version ≡ schema
      → IsKeyed r.states
      → load w.lower w.sha256_hex (persist w r).0.checkpoint.execution_id (persist w r).0.store
        ≡ ok (sorted_checkpoint (persist w r).0.checkpoint)
  unfolding persist
  persisted r h v keyed =
      save-Loads w.lower w.sha256_hex (record r.checkpoint { node_states = r.states }) r.fence
        r.store v keyed h

  -- The states of a run are keyed by their nodes, and the write ahead keeps that.
  ahead-IsKeyed :
      (n : Node) (resolved : Fields) (key : String) (d : Dict NodeState)
      → IsKeyed d
      → IsKeyed (Dict.set d n.id (ahead w plan replay n resolved key (state_of n.id d)))
  ahead-IsKeyed n resolved key d keyed = (
    set-AllItems (λ k (n : NodeState). k ≡ n.node_id) d n.id _ (state_of-node_id n.id d keyed)
        keyed.0,
    set-IsUnique d n.id _ keyed.1,
  )

  abbrev Ahead : Node → Started → Type 0
  Ahead n t = (x : Fields × Option String) → t.1 ≡ ok (some x) → IsWritten n x t.0

  written :
      (n : Node) (resolved : Fields) (key : String) (r : Run)
      → key ≡ node_idempotency_key w plan.digest n.id (epoch w plan replay n) resolved
      → let r' = put_state n.id (ahead w plan replay n resolved key (state_of n.id r.states)) r in
        r.checkpoint.schema_version ≡ schema
        → IsKeyed r.states
        → (persist w r').1 ≡ ok tt
        → IsWritten n (resolved, some key) (persist w r').0
  written n resolved key r k v keyed h =
      let st = ahead w plan replay n resolved key (state_of n.id r.states) in
      let kept = ahead-IsKeyed n resolved key r.states keyed in
      let here =
        get-by_key (Dict.set r.states n.id st) n.id kept.1 ∙ get-set_self r.states n.id st in
      record {
        stored = persisted (put_state n.id st r) h v (ahead-IsKeyed n resolved key r.states keyed);
        dispatched_there = unfold persist in ap (λ o. (maybe o (blank n.id) (λ n. n)).status) here;
        under_key =
            unfold persist in ap (λ o. (maybe o (blank n.id) (λ n. n)).idempotency_key) here;
        key_of_call = ap some k;
      }

  entered :
      (n : Node) (x : Fields × Option String) (r : Run)
      → IsWritten n x r
      → IsWritten n x (enter w plan replay n r)
  entered n x r h = record {
    stored = h.stored;
    dispatched_there = h.dispatched_there;
    under_key = h.under_key;
    key_of_call = h.key_of_call;
  }

  dispatch-Ahead :
      (n : Node) (resolved : Fields) (r : Run)
      → member n.id plan.mutating_nodes ≡ true
      → r.checkpoint.schema_version ≡ schema
      → IsKeyed r.states
      → Ahead n (dispatch w plan replay n resolved r)
  unfolding dispatch
  dispatch-Ahead n resolved r m v keyed =
      let key = node_idempotency_key w plan.digest n.id (epoch w plan replay n) resolved in
      let r' = put_state n.id (ahead w plan replay n resolved key (state_of n.id r.states)) r in
      if_ind (Ahead n) (member n.id plan.mutating_nodes)
        (λ _.
          and_then_ind (Ahead n) (persist w r')
            (λ q a t x h.
              let there = written n resolved key r refl v keyed (ap (λ t. t.1) t) in
              let w' = subst (IsWritten n (resolved, some key)) (ap (λ t. t.0) t) there in
              subst (λ y. IsWritten n y (enter w plan replay n q))
                (some-injective _ _ (ok-injective h)) (entered n (resolved, some key) q w'))
            (λ q e t x h. absurd (cc h)))
        (λ f. absurd (cc (m, f)))

  perform-Ahead :
      (n : Node) (resolved : Fields) (r : Run)
      → member n.id plan.mutating_nodes ≡ true
      → r.checkpoint.schema_version ≡ schema
      → IsKeyed r.states
      → Ahead n (perform w plan replay n resolved r)
  unfolding perform run_transform replay_node within_budget
  perform-Ahead n resolved r m v keyed =
      if_ind (Ahead n) (not (is_tool n.kind))
        (λ _.
          attempt_ind (Ahead n)
            (w.apply_transform (maybe n.op "None" (λ o. o)) resolved plan.budget.max_result_bytes)
            (λ x _. λ y h. absurd (cc h)) (λ a _. λ y h. absurd (cc h)))
        λ _.
          if_ind (Ahead n) (is_replaying w plan replay r)
            (λ _.
              maybe_ind (Ahead n) (recorded w plan replay n) (λ _. λ y h. absurd (cc h))
                (λ a _. λ y h. absurd (cc h)))
            λ _.
              if_ind (Ahead n) (leb plan.budget.max_external_calls r.external_calls)
                (λ _. λ y h. absurd (cc h)) (λ _. dispatch-Ahead n resolved r m v keyed)

  -- The write ahead: whenever the first half of a mutating node's task ends in a provider call, the checkpoint
  -- that the store then has for the execution has the node as dispatched, with the idempotency key of this
  -- very call: so a crash during the call leaves a node that a resume reconciles. `load` gives that checkpoint
  -- back from its JSON, up to the order of its dictionaries. It is of the supported schema, and in the
  -- run's states each node's state stands under its own node, once.
  pub start-IsWritten :
      (n : Node) (r : Run) (x : Fields × Option String)
      → member n.id plan.mutating_nodes ≡ true
      → r.checkpoint.schema_version ≡ schema
      → IsKeyed r.states
      → (start w plan replay n r).1 ≡ ok (some x)
      → IsWritten n x (start w plan replay n r).0
  unfolding start govern cover
  start-IsWritten n r x m v keyed h =
      attempt_ind (Ahead n) (resolve_args w n r.states) (λ x _. λ y h. absurd (cc h))
        (λ resolved _.
          if_ind (Ahead n) (not (w.decide plan n resolved).allowed) (λ _. λ y h. absurd (cc h))
            λ _.
              if_ind (Ahead n)
                (member n.id plan.mutating_nodes && (w.decide plan n resolved).approval_required)
                (λ _.
                  attempt_ind (Ahead n) (assert_operation_covered w plan n resolved)
                    (λ x _. λ y h. absurd (cc h)) (λ _ _. perform-Ahead n resolved r m v keyed))
                (λ _. perform-Ahead n resolved r m v keyed))
        x h
