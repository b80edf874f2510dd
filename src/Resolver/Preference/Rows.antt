-- ===== src/Resolver/Preference/Rows.antt =====
-- The blocks of `resolve` in src/hermes_mcp_bridge/v2/resolver.py, each against its row of the table.
use hermes_mcp_bridge.Base.{
  ◌||◌, ltb, leb, ℕ, inl, inr, Bool-cases, none, some, All, Bool, List, Option, [], all_of, arith,
  false, length, none, not, refl, some, true, ◌&&◌, ◌==◌, ◌∷◌, ◌≡◌, ◌≤◌,
}
use hermes_mcp_bridge.Resolver.Contract.{
  dag, node_count, graph_of, r_rej_not_plannable, ExecutionMode, IntentOperation, ResolverIntent,
  ResolverReason, agentic, batch, direct, is_rejection, mode_for_reason, runbook,
}
use hermes_mcp_bridge.Resolver.Graph.{has_cycle, depth}
use hermes_mcp_bridge.Resolver.Tree.{
  try_dag, try_plan, try_direct, try_batch, try_pinned, try_runbook, Branch, ModeResolver,
  count_usable, decided, rejected, usable,
}
use hermes_mcp_bridge.Resolver.Preference.{
  is_plan, within_dag, all_usable, choice, fits_runbook, is_independent, within_batch,
}

unfoldable pub outcome : Branch → Option (Option ExecutionMode)
outcome (decided reason nodes) = some (mode_for_reason reason)
outcome (rejected reasons) = none

abbrev pub is_agentic : Option ExecutionMode → Bool
is_agentic (some agentic) = true
is_agentic _ = false

abbrev pub AreRejections : List ResolverReason → Type 0
AreRejections reasons = All (λ r. is_rejection r ≡ true) reasons

-- A block before the gate never selects AGENTIC, and records rejections only.
unfoldable pub IsClean : Branch → Type 0
IsClean (decided reason nodes) = is_agentic (mode_for_reason reason) ≡ false
IsClean (rejected reasons) = AreRejections reasons

module _ (resolver : ModeResolver) where
  count_usable-le : (os : List IntentOperation) → count_usable resolver os ≤ length os
  count_usable-le [] = omega arith
  count_usable-le (o ∷ os) = ground (arith, count_usable-le os)

  count_usable-all :
      (os : List IntentOperation)
      → (count_usable resolver os == length os) ≡ all_of (usable resolver) os
  count_usable-all [] = refl
  count_usable-all (o ∷ os) = ground (arith, count_usable-le os, count_usable-all os)

  module _ (intent : ResolverIntent) where
    pub try_direct-outcome :
        (os : List IntentOperation)
        → outcome (try_direct resolver intent os)
          ≡ choice false
              (length os == 1
                && (not intent.residual_subintent
                    && all_of (λ (o : IntentOperation). o.is_bound) os)
                && all_of (usable resolver) os)
              direct
    unfolding outcome try_direct mode_for_reason
    try_direct-outcome [] = refl
    try_direct-outcome (o ∷ []) = ground arith
    try_direct-outcome (o ∷ p ∷ os) = ground arith

    pub try_direct-IsClean : (os : List IntentOperation) → IsClean (try_direct resolver intent os)
    unfolding IsClean try_direct mode_for_reason is_rejection
    try_direct-IsClean [] = tt
    try_direct-IsClean (o ∷ []) = ground arith
    try_direct-IsClean (o ∷ p ∷ os) = (refl, tt)

    pub try_batch-outcome :
        outcome (try_batch resolver intent)
        ≡ choice
            (is_independent resolver intent && not (within_batch resolver intent))
            (is_independent resolver intent && all_usable resolver intent)
            batch
    unfolding outcome try_batch mode_for_reason
    try_batch-outcome = ground (arith, count_usable-all intent.operations)

    pub try_batch-IsClean : IsClean (try_batch resolver intent)
    unfolding IsClean try_batch mode_for_reason is_rejection
    try_batch-IsClean = ground arith

    pub try_runbook-outcome :
        outcome (try_runbook resolver intent) ≡ choice false (fits_runbook resolver intent) runbook
    unfolding outcome try_runbook try_pinned mode_for_reason
    try_runbook-outcome = ground arith

    pub try_runbook-IsClean : IsClean (try_runbook resolver intent)
    unfolding IsClean try_runbook try_pinned mode_for_reason is_rejection
    try_runbook-IsClean = ground arith

    try_plan-outcome :
        (cyclic : Bool) (d : ℕ)
        → ltb 1 (node_count intent) ≡ true
        → intent.residual_subintent ≡ false
        → outcome (try_plan resolver intent cyclic d)
          ≡ choice
              (is_plan resolver intent cyclic && not (within_dag resolver intent d))
              (is_plan resolver intent cyclic && all_usable resolver intent)
              dag
    unfolding outcome try_plan mode_for_reason
    try_plan-outcome cyclic d n r = ground (arith, count_usable-all intent.operations, n, r)

    try_plan-IsClean : (cyclic : Bool) (d : ℕ) → IsClean (try_plan resolver intent cyclic d)
    unfolding IsClean try_plan mode_for_reason is_rejection
    try_plan-IsClean cyclic d = ground arith

    -- The block of a plan, where the searches of its graph have answered.
    pub try_dag-answers :
        (cyclic : Bool) (d : ℕ)
        → has_cycle (graph_of intent) ≡ some cyclic
        → depth (graph_of intent) ≡ some d
        → (b : Branch) × (try_dag resolver intent ≡ some b)
          × IsClean b
          × (outcome b
              ≡ choice
                  (is_plan resolver intent cyclic && not (within_dag resolver intent d))
                  (is_plan resolver intent cyclic && all_usable resolver intent)
                  dag)
    unfolding try_dag
    try_dag-answers cyclic d e f =
        elim (Bool-cases (leb (node_count intent) 1 || intent.residual_subintent)) [
          | inl none_here ↦ (
            rejected (r_rej_not_plannable ∷ []),
            rw none_here refl,
            unfold IsClean is_rejection in (refl, tt),
            unfold outcome in ground (arith, none_here),
          )
          | inr a_plan ↦ (
            try_plan resolver intent cyclic d,
            rw (a_plan, e, f) refl,
            try_plan-IsClean cyclic d,
            try_plan-outcome cyclic d (ground (arith, a_plan)) (ground (arith, a_plan)),
          )
        ]
