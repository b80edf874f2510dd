-- ===== src/Resolver/Tree.antt =====
-- `ModeResolver` of src/hermes_mcp_bridge/v2/resolver.py. The digests that a decision carries are left out.
use hermes_mcp_bridge.Base.{
  none, some, Bool, List, Option, String, [], any_of, false, if◌then◌else◌, leb, ltb, maybe, member,
  none, not, one_if, some, str_eq, true, ℕ, ◌&&◌, ◌++◌, ◌+◌, ◌==◌, ◌||◌, ◌∷◌,
}
use hermes_mcp_bridge.Base.Dict.{Dict, get}
use hermes_mcp_bridge.Policy.Kinds.{
  CapabilityState, PolicyDecision, is_ready, ready, degraded, deny,
}
use hermes_mcp_bridge.Resolver.Contract.{
  IntentOperation, ResolverBudget, ResolverDecision, ResolverIntent, ResolverReason, allows_agentic,
  e_agentic_approval_missing, e_agentic_budget_exhausted, e_agentic_context_shaping_failed,
  e_agentic_not_allowed, e_agentic_policy_forbidden, e_budget_nodes, e_policy_deny, e_req_invalid,
  fully_bound, graph_of, has_dependencies, homogeneous, mode_for_reason, node_count,
  r_agentic_ambiguous_intent, r_agentic_no_contract_coverage, r_agentic_residual_subintent,
  r_agentic_unbound_argument, r_agentic_unknown_target, r_batch_independent, r_dag_typed_plan,
  r_direct_exact, r_rej_cycle_detected, r_rej_direct_multi_tool, r_rej_direct_not_ready,
  r_rej_direct_unbound, r_rej_no_runbook, r_rej_not_independent, r_rej_not_plannable,
  r_rej_runbook_version_unpinned, r_runbook_match,
}
use hermes_mcp_bridge.Resolver.Graph.{depth, has_cycle}
use hermes_mcp_bridge.Base.Dict
use hermes_mcp_bridge.Resolver.Contract.{ResolverReason}

pub record ModeResolver : Type 0 where
  pub snapshot : Dict CapabilityState
  pub budget : ResolverBudget
  pub runbooks : Dict Bool
  pub write_capabilities : List String

-- What a block of the tree does: it returns a decision with its count of nodes, or records rejections.
pub data Branch : Type 0 where
  decided : ResolverReason → ℕ → Branch
  rejected : List ResolverReason → Branch

abbrev pub is_ready_read : CapabilityState → Bool
is_ready_read ready = true
is_ready_read degraded = true
is_ready_read _ = false

abbrev pub is_denied : PolicyDecision → Bool
is_denied deny = true
is_denied _ = false

module _ (resolver : ModeResolver) where
  abbrev pub is_write : IntentOperation → Bool
  is_write o = member o.capability_id resolver.write_capabilities

  unfoldable pub usable : IntentOperation → Bool
  usable o =
      maybe (Dict.get resolver.snapshot o.capability_id) false
        (λ state. if is_write o then is_ready state else is_ready_read state)

  abbrev pub count_usable : List IntentOperation → ℕ
  count_usable [] = 0
  count_usable (o ∷ os) = one_if (usable o) + count_usable os

  unfoldable pub decision :
      ResolverIntent → ResolverReason → List ResolverReason → ℕ → ℕ → ResolverDecision
  decision intent reason recorded nodes tokens = record {
    request_id = intent.request_id;
    mode = mode_for_reason reason;
    primary_reason_code = reason;
    rejected_branches = recorded;
    deterministic_nodes = nodes;
    total_nodes = node_count intent;
    escalation_count = intent.escalation_count;
    agentic_tokens_authorized = tokens;
  }

  -- S2 and S3
  unfoldable pub try_direct : ResolverIntent → List IntentOperation → Branch
  try_direct intent [] = rejected []
  try_direct intent (o ∷ []) =
      if intent.residual_subintent
      then rejected (r_rej_direct_multi_tool ∷ [])
      else if not o.is_bound
      then rejected (r_rej_direct_unbound ∷ [])
      else if not (usable o)
      then rejected (r_rej_direct_not_ready ∷ [])
      else decided r_direct_exact 1
  try_direct intent (o ∷ p ∷ os) = rejected (r_rej_direct_multi_tool ∷ [])

  -- S6
  unfoldable pub try_batch : ResolverIntent → Branch
  try_batch intent =
      if leb (node_count intent) 1
      then rejected []
      else if intent.residual_subintent
      then rejected (r_rej_not_independent ∷ [])
      else if has_dependencies intent || not (homogeneous intent)
      then rejected (r_rej_not_independent ∷ [])
      else if not (fully_bound intent)
      then rejected (r_rej_direct_unbound ∷ [])
      else if ltb resolver.budget.batch_max_nodes (node_count intent)
      then decided e_budget_nodes 0
      else if count_usable intent.operations == node_count intent
      then decided r_batch_independent (count_usable intent.operations)
      else rejected (r_rej_direct_not_ready ∷ [])

  -- S5, of a registration that is found
  unfoldable pub try_pinned : ResolverIntent → Bool → Branch
  try_pinned intent is_pinned =
      if not (is_pinned && intent.runbook_version_pinned)
      then rejected (r_rej_runbook_version_unpinned ∷ [])
      else if not (fully_bound intent)
      then rejected (r_rej_direct_unbound ∷ [])
      else if intent.residual_subintent
      then rejected (r_rej_not_plannable ∷ [])
      else decided r_runbook_match (count_usable intent.operations)

  unfoldable pub try_runbook : ResolverIntent → Branch
  try_runbook intent =
      if str_eq intent.runbook_ref ""
      then rejected (r_rej_no_runbook ∷ [])
      else maybe (Dict.get resolver.runbooks intent.runbook_ref) (rejected (r_rej_no_runbook ∷ []))
          (try_pinned intent)

  -- S7, where the searches have answered
  unfoldable pub try_plan : ResolverIntent → Bool → ℕ → Branch
  try_plan intent cyclic depth =
      if cyclic
      then rejected (r_rej_cycle_detected ∷ [])
      else if not (fully_bound intent)
      then rejected (r_rej_direct_unbound ∷ [])
      else if ltb resolver.budget.dag_max_nodes (node_count intent)
          || ltb resolver.budget.dag_max_depth depth
      then decided e_budget_nodes 0
      else if count_usable intent.operations == node_count intent
      then decided r_dag_typed_plan (count_usable intent.operations)
      else rejected (r_rej_direct_not_ready ∷ [])

  unfoldable pub try_dag : ResolverIntent → Option Branch
  try_dag intent =
      if leb (node_count intent) 1 || intent.residual_subintent
      then some (rejected (r_rej_not_plannable ∷ []))
      else maybe (has_cycle (graph_of intent)) none
          (λ cyclic. maybe (depth (graph_of intent)) none (λ d. some (try_plan intent cyclic d)))

  unfoldable pub agentic_cause : ResolverIntent → ResolverReason
  agentic_cause intent =
      if intent.no_contract_coverage
      then r_agentic_no_contract_coverage
      else if intent.unknown_target
      then r_agentic_unknown_target
      else if not (fully_bound intent)
      then r_agentic_unbound_argument
      else if intent.residual_subintent && ltb 0 (count_usable intent.operations)
      then r_agentic_residual_subintent
      else r_agentic_ambiguous_intent

  -- S8: the refusal, where a condition does not hold
  unfoldable pub agentic_refusal : ResolverIntent → Bool → Bool → Option ResolverReason
  agentic_refusal intent policy_allows_agentic context_shaping_ok =
      if not (intent.agentic_allowance && allows_agentic resolver.budget)
      then some e_agentic_not_allowed
      else if leb resolver.budget.max_escalations_per_request intent.escalation_count
      then some e_agentic_budget_exhausted
      else if any_of is_write intent.operations && str_eq intent.approval_ref ""
      then some e_agentic_approval_missing
      else if not policy_allows_agentic
      then some e_agentic_policy_forbidden
      else if not context_shaping_ok
      then some e_agentic_context_shaping_failed
      else none

  unfoldable pub gate : ResolverIntent → Bool → Bool → List ResolverReason → ResolverDecision
  gate intent policy_allows_agentic context_shaping_ok recorded =
      maybe (agentic_refusal intent policy_allows_agentic context_shaping_ok)
        (decision intent (agentic_cause intent) recorded (count_usable intent.operations)
          resolver.budget.agentic_token_budget)
        (λ reason. decision intent reason recorded 0 0)

  -- A block returns, or the next one goes on with what it recorded.
  unfoldable pub follow :
      ResolverIntent
      → Branch
      → List ResolverReason
      → (List ResolverReason → Option ResolverDecision)
      → Option ResolverDecision
  follow intent (decided reason nodes) recorded next =
      some (decision intent reason recorded nodes 0)
  follow intent (rejected reasons) recorded next = next (recorded ++ reasons)

  -- S0
  unfoldable pub is_invalid : ResolverIntent → Bool
  is_invalid intent =
      node_count intent == 0
      && not (intent.residual_subintent || intent.no_contract_coverage || intent.unknown_target)

  unfoldable pub resolve : ResolverIntent → PolicyDecision → Bool → Bool → Option ResolverDecision
  unfolding is_invalid decision follow try_direct try_batch try_runbook try_pinned try_dag try_plan
      gate agentic_cause agentic_refusal
  resolve intent policy policy_allows_agentic context_shaping_ok =
      if is_invalid intent
      then some (decision intent e_req_invalid [] 0 0)
      else if is_denied policy
      then some (decision intent e_policy_deny [] 0 0)
      else if ltb resolver.budget.max_escalations_per_request intent.escalation_count
      then some (decision intent e_agentic_budget_exhausted [] 0 0)
      else follow intent (try_direct intent intent.operations) [] (λ after_direct.
        follow intent (try_batch intent) after_direct (λ after_batch.
          follow intent (try_runbook intent) after_batch (λ after_runbook.
            maybe (try_dag intent) none (λ branch. follow intent branch after_runbook (λ after_dag.
              some (gate intent policy_allows_agentic context_shaping_ok after_dag))))))
