-- ===== src/Resolver/Contract.antt =====
-- src/hermes_mcp_bridge/v2/resolver_contract.py: the reasons, the budget, the intent and the decision, with
-- the enums of v2/enums.py that they use. The values are those that the constructors let through: a
-- budget's bounds are no less than 0, and the operations of an intent have different references.
use hermes_mcp_bridge.Base.{
  Bool, List, Option, String, [], all_of, any_of, false, is_nil, length, ltb, none, not, some,
  str_eq, true, ℕ, ◌∷◌, map,
}
use hermes_mcp_bridge.Resolver.Graph.{Graph}

pub data ExecutionMode : Type 0 where
  direct batch dag runbook hybrid agentic : ExecutionMode

pub data ResolverReason : Type 0 where
  r_direct_exact r_runbook_match r_batch_independent r_dag_typed_plan : ResolverReason
  r_agentic_ambiguous_intent r_agentic_unbound_argument r_agentic_unknown_target : ResolverReason
  r_agentic_no_contract_coverage r_agentic_residual_subintent : ResolverReason
  r_rej_direct_not_ready r_rej_direct_multi_tool r_rej_direct_unbound r_rej_no_runbook :
      ResolverReason
  r_rej_runbook_version_unpinned r_rej_not_independent r_rej_not_plannable : ResolverReason
  r_rej_cycle_detected : ResolverReason
  e_req_invalid e_policy_deny e_budget_nodes e_budget_tokens e_budget_deadline : ResolverReason
  e_agentic_not_allowed e_agentic_budget_exhausted e_agentic_approval_missing : ResolverReason
  e_agentic_policy_forbidden e_agentic_context_shaping_failed : ResolverReason
  e_safety_downgrade_refused e_resolver_nondeterminism : ResolverReason

-- MODE_FOR_REASON, whose keys are the reasons with `is_mode_selection`
unfoldable pub mode_for_reason : ResolverReason → Option ExecutionMode
mode_for_reason r_direct_exact = some direct
mode_for_reason r_runbook_match = some runbook
mode_for_reason r_batch_independent = some batch
mode_for_reason r_dag_typed_plan = some dag
mode_for_reason r_agentic_ambiguous_intent = some agentic
mode_for_reason r_agentic_unbound_argument = some agentic
mode_for_reason r_agentic_unknown_target = some agentic
mode_for_reason r_agentic_no_contract_coverage = some agentic
mode_for_reason r_agentic_residual_subintent = some agentic
mode_for_reason _ = none

unfoldable pub is_rejection : ResolverReason → Bool
is_rejection r_rej_direct_not_ready = true
is_rejection r_rej_direct_multi_tool = true
is_rejection r_rej_direct_unbound = true
is_rejection r_rej_no_runbook = true
is_rejection r_rej_runbook_version_unpinned = true
is_rejection r_rej_not_independent = true
is_rejection r_rej_not_plannable = true
is_rejection r_rej_cycle_detected = true
is_rejection _ = false

-- The bounds that the resolver reads.
pub record ResolverBudget : Type 0 where
  pub batch_max_nodes : ℕ
  pub dag_max_nodes : ℕ
  pub dag_max_depth : ℕ
  pub max_escalations_per_request : ℕ
  pub agentic_token_budget : ℕ

abbrev pub allows_agentic : ResolverBudget → Bool
allows_agentic b = ltb 0 b.agentic_token_budget

pub record IntentOperation : Type 0 where
  pub capability_id : String
  pub target_scope_ref : String
  pub is_bound : Bool
  pub depends_on : List String
  pub operation_ref : String

pub record ResolverIntent : Type 0 where
  pub request_id : String
  pub principal_ref : String
  pub operations : List IntentOperation
  pub residual_subintent : Bool
  pub unknown_target : Bool
  pub no_contract_coverage : Bool
  pub runbook_ref : String
  pub runbook_version_pinned : Bool
  pub approval_ref : String
  pub agentic_allowance : Bool
  pub escalation_count : ℕ

abbrev pub node_count : ResolverIntent → ℕ
node_count i = length i.operations

abbrev pub has_dependencies : ResolverIntent → Bool
has_dependencies i = any_of (λ (o : IntentOperation). not (is_nil o.depends_on)) i.operations

-- One element in the set of capabilities: there is a first operation, and no other one differs.
abbrev pub is_homogeneous : List IntentOperation → Bool
is_homogeneous [] = false
is_homogeneous (o ∷ os) =
    all_of (λ (p : IntentOperation). str_eq p.capability_id o.capability_id) os

abbrev pub homogeneous : ResolverIntent → Bool
homogeneous i = is_homogeneous i.operations

abbrev pub fully_bound : ResolverIntent → Bool
fully_bound i = all_of (λ (o : IntentOperation). o.is_bound) i.operations

-- `graph` of `_has_cycle` and of `_depth`
abbrev pub graph_of : ResolverIntent → Graph
graph_of i = map (λ (o : IntentOperation). (o.operation_ref, o.depends_on)) i.operations

-- The fields that `_decision` fills, without the digests.
pub record ResolverDecision : Type 0 where
  pub request_id : String
  pub mode : Option ExecutionMode
  pub primary_reason_code : ResolverReason
  pub rejected_branches : List ResolverReason
  pub deterministic_nodes : ℕ
  pub total_nodes : ℕ
  pub escalation_count : ℕ
  pub agentic_tokens_authorized : ℕ
