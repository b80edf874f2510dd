-- ===== src/Resolver/Tests.antt =====
-- Runs of the resolver of src/hermes_mcp_bridge/v2/resolver.py, and a witness.
use hermes_mcp_bridge.Base.{
  none, some, Bool, List, Option, String, [], false, none, refl, some, true, ℕ, ◌∷◌, ◌≡◌,
}
use hermes_mcp_bridge.Base.Dict.{get, set, get}
use hermes_mcp_bridge.Policy.Kinds.{ready, degraded, allow}
use hermes_mcp_bridge.Resolver.Contract.{
  ExecutionMode, IntentOperation, ResolverDecision, ResolverIntent, ResolverReason, agentic, dag,
  direct, e_agentic_approval_missing, e_budget_nodes, graph_of, mode_for_reason,
  r_agentic_ambiguous_intent, r_dag_typed_plan, r_direct_exact, r_runbook_match, runbook,
}
use hermes_mcp_bridge.Resolver.Graph.{depth, depth_from, depth_max, has_cycle, visit, visit_any}
use hermes_mcp_bridge.Resolver.Tree.{
  ModeResolver, agentic_cause, agentic_refusal, decision, follow, gate, is_invalid, resolve,
  try_batch, try_dag, try_direct, try_pinned, try_plan, try_runbook, usable,
}
use hermes_mcp_bridge.Resolver.Preference.{preferred}
use hermes_mcp_bridge.Resolver.Preference.Chosen.{IsDecision, resolve-prefers}

abbrev operation : String → String → List String → IntentOperation
operation capability reference sources = record {
  capability_id = capability;
  target_scope_ref = "octo/repo";
  is_bound = true;
  depends_on = sources;
  operation_ref = reference;
}

abbrev intent_of : List IntentOperation → ResolverIntent
intent_of ops = record {
  request_id = "r1";
  principal_ref = "alice";
  operations = ops;
  residual_subintent = false;
  unknown_target = false;
  no_contract_coverage = false;
  runbook_ref = "";
  runbook_version_pinned = true;
  approval_ref = "";
  agentic_allowance = true;
  escalation_count = 0;
}

abbrev issues : ModeResolver
issues = record {
  snapshot = ("issue.read", degraded) ∷ ("issue.write", ready) ∷ [];
  budget = record {
    batch_max_nodes = 2;
    dag_max_nodes = 3;
    dag_max_depth = 2;
    max_escalations_per_request = 1;
    agentic_token_budget = 100;
  };
  runbooks = ("triage", true) ∷ [];
  write_capabilities = "issue.write" ∷ [];
}

abbrev chain : ResolverIntent
chain = intent_of (operation "issue.read" "a" [] ∷ operation "issue.write" "b" ("a" ∷ []) ∷ [])

abbrev loop : ResolverIntent
loop =
    intent_of (operation "issue.read" "a" ("b" ∷ []) ∷ operation "issue.write" "b" ("a" ∷ []) ∷ [])

abbrev mode_and_reason : Option ResolverDecision → Option (Option ExecutionMode × ResolverReason)
mode_and_reason none = none
mode_and_reason (some d) = some (d.mode, d.primary_reason_code)

abbrev resolved : ResolverIntent → Option (Option ExecutionMode × ResolverReason)
resolved i = mode_and_reason (resolve issues i allow true true)

-- A chain of two operations is a plan; a runbook that is registered for it goes before. A cycle is left to
-- the agent, where no approval of its write is a refusal. Three alike are more than a batch holds.
resolve_tests :
    (resolved (intent_of (operation "issue.read" "a" [] ∷ [])) ≡ some (some direct, r_direct_exact))
    × (resolved chain ≡ some (some dag, r_dag_typed_plan))
    × (resolved (record chain { runbook_ref = "triage" }) ≡ some (some runbook, r_runbook_match))
    × (resolved loop ≡ some (none, e_agentic_approval_missing))
    × (resolved (record loop { approval_ref = "ap-1" })
        ≡ some (some agentic, r_agentic_ambiguous_intent))
    × (resolved (
          intent_of (
            operation "issue.read" "a" []
            ∷ operation "issue.read" "b" []
            ∷ operation "issue.read" "c" []
            ∷ []))
        ≡ some (none, e_budget_nodes))
unfolding resolve usable try_direct try_batch try_runbook try_pinned try_dag try_plan follow gate
    decision agentic_cause agentic_refusal is_invalid mode_for_reason has_cycle depth visit
    visit_any depth_from depth_max get set
resolve_tests = (refl, refl, refl, refl, refl, refl)

resolve-prefers_example :
    (cyclic : Bool) × (d : ℕ) × (decided : ResolverDecision) × (has_cycle (graph_of chain)
      ≡ some cyclic)
    × (depth (graph_of chain) ≡ some d)
    × (resolve issues chain allow true true ≡ some decided)
    × IsDecision issues (preferred issues chain allow true true cyclic d) decided
resolve-prefers_example = resolve-prefers issues chain allow true true
