-- ===== src/Resolver/Preference.antt =====
-- Which mode `resolve` of src/hermes_mcp_bridge/v2/resolver.py chooses: the conditions of each mode on their
-- own, as docs/v2/phase8/resolver-decision-tree.md gives them, and the table of their order.
mod Rows
pub mod Chosen
use hermes_mcp_bridge.Base.{
  none, some, Bool, List, Option, [], all_of, any_of, false, if◌then◌else◌, leb, ltb, maybe, none,
  not, some, str_eq, ℕ, ◌&&◌, ◌==◌, ◌||◌, ◌∷◌,
}
use hermes_mcp_bridge.Base.Dict.{Dict, get}
use hermes_mcp_bridge.Policy.Kinds.{PolicyDecision, deny}
use hermes_mcp_bridge.Resolver.Contract.{
  ExecutionMode, ResolverIntent, agentic, batch, dag, direct, fully_bound, has_dependencies,
  homogeneous, node_count, runbook,
}
use hermes_mcp_bridge.Resolver.Graph.{Graph, depth}
use hermes_mcp_bridge.Resolver.Tree.{ModeResolver, is_denied, is_write, usable}
use hermes_mcp_bridge.Base.Dict

-- A mode whose bounds are exceeded ends the search with no mode; one that fits ends it with that mode.
abbrev pub choice : Bool → Bool → ExecutionMode → Option (Option ExecutionMode)
choice exceeded fits m = if exceeded then some none else if fits then some (some m) else none

abbrev pub first_of : List (Option (Option ExecutionMode)) → Option ExecutionMode
first_of [] = none
first_of (c ∷ cs) = maybe c (first_of cs) (λ m. m)

module _ (resolver : ModeResolver) (intent : ResolverIntent) where
  -- Policy does not deny the request, it asks for something, and has not spent its escalations.
  abbrev pub is_admissible : PolicyDecision → Bool
  is_admissible policy =
      not (is_denied policy)
      && (ltb 0 (node_count intent)
          || (intent.residual_subintent || intent.no_contract_coverage || intent.unknown_target))
      && leb intent.escalation_count resolver.budget.max_escalations_per_request

  abbrev pub all_usable : Bool
  all_usable = all_of (usable resolver) intent.operations

  -- The operations express the whole request, and their arguments are bound.
  abbrev pub is_whole : Bool
  is_whole = not intent.residual_subintent && fully_bound intent

  abbrev pub fits_direct : Bool
  fits_direct = node_count intent == 1 && is_whole && all_usable

  abbrev pub is_independent : Bool
  is_independent =
      ltb 1 (node_count intent) && is_whole && homogeneous intent && not (has_dependencies intent)

  abbrev pub within_batch : Bool
  within_batch = leb (node_count intent) resolver.budget.batch_max_nodes

  abbrev pub is_registered : Bool
  is_registered =
      not (str_eq intent.runbook_ref "")
      && maybe (Dict.get resolver.runbooks intent.runbook_ref) false (λ is_pinned. is_pinned)

  abbrev pub fits_runbook : Bool
  fits_runbook = is_registered && intent.runbook_version_pinned && is_whole

  abbrev pub is_plan : Bool → Bool
  is_plan cyclic = ltb 1 (node_count intent) && is_whole && not cyclic

  abbrev pub within_dag : ℕ → Bool
  within_dag depth =
      leb (node_count intent) resolver.budget.dag_max_nodes
      && leb depth resolver.budget.dag_max_depth

  -- Every condition of the agentic gate: allowance, tokens, an escalation left, and an approval of writes.
  abbrev pub fits_agentic : Bool → Bool → Bool
  fits_agentic policy_allows_agentic context_shaping_ok =
      intent.agentic_allowance
      && ltb 0 resolver.budget.agentic_token_budget
      && ltb intent.escalation_count resolver.budget.max_escalations_per_request
      && (not (any_of (is_write resolver) intent.operations) || not (str_eq intent.approval_ref ""))
      && policy_allows_agentic
      && context_shaping_ok

  -- The modes in the order in which they are tried.
  abbrev pub rows : Bool → Bool → Bool → ℕ → List (Option (Option ExecutionMode))
  rows policy_allows_agentic context_shaping_ok cyclic depth =
      choice false fits_direct direct
      ∷ choice (is_independent && not within_batch) (is_independent && all_usable) batch
      ∷ choice false fits_runbook runbook
      ∷ choice (is_plan cyclic && not (within_dag depth)) (is_plan cyclic && all_usable) dag
      ∷ choice false (fits_agentic policy_allows_agentic context_shaping_ok) agentic
      ∷ []

  abbrev pub preferred : PolicyDecision → Bool → Bool → Bool → ℕ → Option ExecutionMode
  preferred policy policy_allows_agentic context_shaping_ok cyclic depth =
      if is_admissible policy
      then first_of (rows policy_allows_agentic context_shaping_ok cyclic depth)
      else none
