-- ===== src/Dag/Engine/Resume/Blind.antt =====
-- No blind retry: what a resume does with a write whose fate is not known.
use mathlib.Core.Path.{subst}
use hermes_mcp_bridge.Base.Dict
use hermes_mcp_bridge.Base.{
  eq_iff, inl, inr, refl, sym, arith, Bool-cases, Option, String, [], some, str_eq, ◌∷◌, ◌≡◌, ◌⊎◌,
}
use hermes_mcp_bridge.Base.Dict.{Dict, get}
use hermes_mcp_bridge.Dag.Contract.{denied, dispatched, indeterminate, pending, success}
use hermes_mcp_bridge.Dag.Store.{NodeState}
use hermes_mcp_bridge.Dag.Plan.{Node, ValidatedPlan}
use hermes_mcp_bridge.Dag.Engine.{World}
use hermes_mcp_bridge.Dag.Engine.Resume.{
  answer, Reconciled, ask, effect, map_states, no_effect, recheck, reconcile_node, resume_states,
  retry_skip, unreachable,
}

get-map_states :
    (f : String → NodeState → NodeState) (d : Dict NodeState) (i : String) (n : NodeState)
    → Dict.get d i ≡ some n
    → Dict.get (map_states f d) i ≡ some (f i n)
unfolding Dict.get
get-map_states f [] i n h = absurd (cc h)
get-map_states f ((k, m) ∷ d) i n h = elim (Bool-cases (str_eq k i)) [
  | inl same ↦ rw same (cc (h, same, (eq_iff k i).0 same))
  | inr other ↦ rw other (get-map_states f d i n (ground (arith, h, other)))
]

-- What the answer of the reconciler makes of a node in the checkpoint that a resume writes.
abbrev pub Fate : Reconciled → NodeState → NodeState → Type 0
Fate (effect ref) n m = (m.status ≡ success) × (m.effect_ref ≡ some ref)
Fate no_effect n m = (m.status ≡ pending) ⊎ (m.status ≡ denied)
Fate unreachable n m = (m.status ≡ indeterminate) × (m.idempotency_key ≡ n.idempotency_key)

module _ (w : World) (plan : ValidatedPlan) (reconciler : Option (Node → String → Reconciled)) where
  answered-Fate :
      (x : Reconciled) (i : String) (n : NodeState)
      → Fate x n (
          recheck w plan reconciler i
            (retry_skip w plan reconciler i (answer w plan reconciler x n)))
  answered-Fate (effect ref) i n = (refl, refl)
  answered-Fate no_effect i n = ground arith
  answered-Fate unreachable i n = (refl, refl)

  reconciled :
      (i : String) (n : NodeState)
      → (n.status ≡ dispatched) ⊎ (n.status ≡ indeterminate)
      → reconcile_node w plan reconciler i n
        ≡ answer w plan reconciler (ask w plan reconciler i n) n
  reconciled i n (inl h) = rw h refl
  reconciled i n (inr h) = rw h refl

  -- A node that was dispatched, or whose effect is unknown, is put back among the pending ones only if the
  -- reconciler says that its effect does not exist; it is a success with its effect if the reconciler
  -- finds that; and if it cannot tell, or there is none, the node stays unknown, with its key.
  pub resume_never_blind :
      (d : Dict NodeState) (i : String) (n : NodeState)
      → Dict.get d i ≡ some n
      → (n.status ≡ dispatched) ⊎ (n.status ≡ indeterminate)
      → (m : NodeState) × (Dict.get (resume_states w plan reconciler d) i ≡ some m)
        × Fate (ask w plan reconciler i n) n m
  unfolding resume_states
  resume_never_blind d i n found h =
      let a = get-map_states (reconcile_node w plan reconciler) d i n found in
      let b = get-map_states (retry_skip w plan reconciler) _ i _ a in
      let c = get-map_states (recheck w plan reconciler) _ i _ b in
      (
        _,
        c,
        subst
            (λ k.
              Fate (ask w plan reconciler i n) n
                (recheck w plan reconciler i (retry_skip w plan reconciler i k)))
            (sym (reconciled i n h)) (answered-Fate (ask w plan reconciler i n) i n),
      )
