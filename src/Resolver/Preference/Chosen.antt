-- ===== src/Resolver/Preference/Chosen.antt =====
-- The tree of `resolve` in src/hermes_mcp_bridge/v2/resolver.py against the table of the modes: the blocks
-- follow one another as the rows do.
use mathlib.Core.Path.{subst}
use hermes_mcp_bridge.Base.{
  if_ind, if◌then◌else◌, ltb, ℕ, ◌++◌, All-append, maybe, none, some, Bool, List, Option, [], arith,
  false, none, refl, some, true, ◌∷◌, ◌≡◌,
}
use hermes_mcp_bridge.Policy.Kinds.{PolicyDecision}
use hermes_mcp_bridge.Resolver.Contract.{
  e_req_invalid, e_policy_deny, e_agentic_budget_exhausted, ResolverDecision, graph_of,
  ExecutionMode, ResolverIntent, ResolverReason, agentic, is_rejection, mode_for_reason,
}
use hermes_mcp_bridge.Resolver.Graph.Answers.{has_cycle-answers, depth-answers}
use hermes_mcp_bridge.Resolver.Graph.{has_cycle, depth}
use hermes_mcp_bridge.Resolver.Tree.{
  is_denied, resolve, decision, follow, gate, agentic_cause, agentic_refusal, is_invalid,
  try_direct, try_batch, try_runbook, Branch, ModeResolver, decided, rejected,
}
use hermes_mcp_bridge.Resolver.Preference.{
  rows, is_admissible, preferred, first_of, fits_agentic, choice,
}
use hermes_mcp_bridge.Resolver.Preference.Rows.{
  outcome, IsClean, is_agentic, AreRejections, try_direct-outcome, try_direct-IsClean,
  try_batch-outcome, try_batch-IsClean, try_runbook-outcome, try_runbook-IsClean, try_dag-answers,
}

module _ (resolver : ModeResolver) where
  -- A decision for a mode, or for none: its reason selects that mode, what it records are rejections, and it
  -- authorizes tokens for AGENTIC only.
  abbrev pub IsDecision : Option ExecutionMode → ResolverDecision → Type 0
  IsDecision m d =
      (d.mode ≡ m)
      × (mode_for_reason d.primary_reason_code ≡ m)
      × AreRejections d.rejected_branches
      × (d.agentic_tokens_authorized
          ≡ (if is_agentic m then resolver.budget.agentic_token_budget else 0))

  abbrev Decides : Option ExecutionMode → Option ResolverDecision → Type 0
  Decides m o = (d : ResolverDecision) × (o ≡ some d) × IsDecision m d

  module _ (intent : ResolverIntent) where
    follow-Decides :
        (b : Branch) (recorded : List ResolverReason)
        (next : List ResolverReason → Option ResolverDecision) (m : Option ExecutionMode)
        → AreRejections recorded
        → IsClean b
        → ((after : List ResolverReason) → AreRejections after → Decides m (next after))
        → Decides (maybe (outcome b) m (λ c. c)) (follow resolver intent b recorded next)
    unfolding follow decision outcome IsClean
    follow-Decides (decided reason nodes) recorded next m a c goes_on =
        (decision resolver intent reason recorded nodes 0, refl, (refl, refl, a, rw c refl))
    follow-Decides (rejected reasons) recorded next m a c goes_on =
        goes_on (recorded ++ reasons) (All-append (λ r. is_rejection r ≡ true) recorded reasons a c)

    agentic_cause-mode : mode_for_reason (agentic_cause resolver intent) ≡ some agentic
    unfolding agentic_cause mode_for_reason
    agentic_cause-mode = ground arith

    gate-Decides :
        (policy_allows_agentic context_shaping_ok : Bool) (recorded : List ResolverReason)
        → AreRejections recorded
        → Decides
            (first_of (
              choice false
                (fits_agentic resolver intent policy_allows_agentic context_shaping_ok)
                agentic
              ∷ []))
            (some (gate resolver intent policy_allows_agentic context_shaping_ok recorded))
    unfolding gate agentic_refusal decision mode_for_reason
    gate-Decides policy_allows_agentic context_shaping_ok recorded a = (
      gate resolver intent policy_allows_agentic context_shaping_ok recorded,
      refl,
      (
        ground (arith, agentic_cause-mode),
        ground (arith, agentic_cause-mode),
        ground (arith, a),
        ground arith,
      ),
    )

    -- A block against its row: what goes on from the block goes on from the row.
    row-Decides :
        (b : Branch) (row : Option (Option ExecutionMode))
        → outcome b ≡ row
        → IsClean b
        → (recorded : List ResolverReason) (m : Option ExecutionMode)
          (next : List ResolverReason → Option ResolverDecision)
        → AreRejections recorded
        → ((after : List ResolverReason) → AreRejections after → Decides m (next after))
        → Decides (maybe row m (λ c. c)) (follow resolver intent b recorded next)
    row-Decides b row e c recorded m next a goes_on =
        subst
          (λ (o : Option (Option ExecutionMode)).
            Decides (maybe o m (λ c. c)) (follow resolver intent b recorded next))
          e (follow-Decides b recorded next m a c goes_on)

    tree-Decides :
        (policy : PolicyDecision) (policy_allows_agentic context_shaping_ok cyclic : Bool) (d : ℕ)
        → has_cycle (graph_of intent) ≡ some cyclic
        → depth (graph_of intent) ≡ some d
        → is_admissible resolver intent policy ≡ true
        → Decides
            (first_of (rows resolver intent policy_allows_agentic context_shaping_ok cyclic d))
            (resolve resolver intent policy policy_allows_agentic context_shaping_ok)
    unfolding resolve
    tree-Decides policy policy_allows_agentic context_shaping_ok cyclic d e f admissible =
        let (b, g, clean, row) = try_dag-answers resolver intent cyclic d e f in
        let valid : is_invalid resolver intent ≡ false =
          unfold is_invalid in ground (arith, admissible) in
        let undenied : is_denied policy ≡ false = ground (arith, admissible) in
        let unspent : ltb resolver.budget.max_escalations_per_request intent.escalation_count
            ≡ false =
          ground (arith, admissible) in
        rw (valid, undenied, unspent, g)
          (row-Decides (try_direct resolver intent intent.operations) _
            (try_direct-outcome resolver intent intent.operations)
            (try_direct-IsClean resolver intent intent.operations) [] _ _ tt
            (λ r1 a1.
              row-Decides (try_batch resolver intent) _ (try_batch-outcome resolver intent)
                (try_batch-IsClean resolver intent) r1 _ _ a1
                (λ r2 a2.
                  row-Decides (try_runbook resolver intent) _ (try_runbook-outcome resolver intent)
                    (try_runbook-IsClean resolver intent) r2 _ _ a2
                    (λ r3 a3.
                      row-Decides b _ row clean r3 _ _ a3
                        (λ r4 a4. gate-Decides policy_allows_agentic context_shaping_ok r4 a4)))))

    refusal-Decides :
        (policy : PolicyDecision) (policy_allows_agentic context_shaping_ok : Bool)
        → is_admissible resolver intent policy ≡ false
        → Decides none (resolve resolver intent policy policy_allows_agentic context_shaping_ok)
    unfolding resolve is_invalid decision mode_for_reason
    refusal-Decides policy policy_allows_agentic context_shaping_ok inadmissible =
        if_ind (Decides none) (is_invalid resolver intent)
          (λ _. (decision resolver intent e_req_invalid [] 0 0, refl, (refl, refl, tt, refl)))
          (λ valid.
            if_ind (Decides none) (is_denied policy)
              (λ _. (decision resolver intent e_policy_deny [] 0 0, refl, (refl, refl, tt, refl)))
              (λ undenied.
                if_ind (Decides none)
                  (ltb resolver.budget.max_escalations_per_request intent.escalation_count)
                  (λ _. (
                    decision resolver intent e_agentic_budget_exhausted [] 0 0,
                    refl,
                    (refl, refl, tt, refl),
                  ))
                  (λ unspent. absurd (ground (arith, valid, undenied, unspent, inadmissible)))))

-- `resolve` returns a decision for every intent, the searches of its graph included, and its mode is the one
-- that the table of preferences gives: the first of DIRECT, BATCH, RUNBOOK, DAG and AGENTIC whose own
-- conditions hold, none where BATCH or DAG comes first but exceeds its bounds, and none where policy denies,
-- nothing is asked for or the escalations are spent. The reason selects the same mode, what is recorded are
-- rejections, and tokens are authorized for AGENTIC only.
pub resolve-prefers :
    (resolver : ModeResolver) (intent : ResolverIntent) (policy : PolicyDecision)
    (policy_allows_agentic context_shaping_ok : Bool)
    → (cyclic : Bool) × (d : ℕ) × (decided : ResolverDecision) × (has_cycle (graph_of intent)
        ≡ some cyclic)
      × (depth (graph_of intent) ≡ some d)
      × (resolve resolver intent policy policy_allows_agentic context_shaping_ok ≡ some decided)
      × IsDecision resolver
          (preferred resolver intent policy policy_allows_agentic context_shaping_ok cyclic d)
          decided
resolve-prefers resolver intent policy policy_allows_agentic context_shaping_ok =
    let (cyclic, e) = has_cycle-answers (graph_of intent) in
    let (d, f) = depth-answers (graph_of intent) in
    let found : Decides resolver
        (preferred resolver intent policy policy_allows_agentic context_shaping_ok cyclic d)
        (resolve resolver intent policy policy_allows_agentic context_shaping_ok) =
      if_ind
        (λ m.
          Decides resolver m
            (resolve resolver intent policy policy_allows_agentic context_shaping_ok))
        (is_admissible resolver intent policy)
        (tree-Decides resolver intent policy policy_allows_agentic context_shaping_ok cyclic d e f)
        (refusal-Decides resolver intent policy policy_allows_agentic context_shaping_ok) in
    (cyclic, d, found.0, e, f, found.1, found.2)
