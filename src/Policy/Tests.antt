-- ===== src/Policy/Tests.antt =====
-- Runs of the policy of src/hermes_mcp_bridge/v2/policy.py, and a witness.
use hermes_mcp_bridge.Base.{
  false, some, none, if◌then◌else◌, ◌↔◌, String, [], err, if◌then◌else◌, none, refl, some, str_eq,
  true, ◌↔◌, ◌∷◌, ◌≡◌,
}
use hermes_mcp_bridge.Base.Dict.{get, set, get, set}
use hermes_mcp_bridge.Policy.Kinds.{
  ApprovalRequirement, CapabilityState, MutationClass, PolicyDecision, ReasonCode, allow, allowed,
  approval_required, approval_required_by_rule, approval_required_by_tool, capability_not_ready,
  conditional, degraded, deny, destructive, destructive_denied_by_default, normalize_identifier,
  not_required, privileged, ready, required, standard, t3, unknown_tool,
}
use hermes_mcp_bridge.Policy.Registry.{
  CapabilityDescriptor, PolicyRule, ToolDefinition, ToolRegistry, add_capability, add_rules,
  add_tool, duplicate_capability, duplicate_rule, find_key, freeze, register_capability,
  registry_frozen,
}
use hermes_mcp_bridge.Policy.Engine.{
  PolicyEngine, allow_tool, by_decision, by_rule, evaluate, evaluate_tool, unready,
  unready_credential,
}
use hermes_mcp_bridge.Policy.Engine.Permits.{IsAllowed, NeedsApproval, Registered, evaluate-decides}

abbrev same_text : String → String
same_text s = s

abbrev tool_of : String → MutationClass → ApprovalRequirement → ToolDefinition
tool_of name changes asks = record {
  tool_id = name;
  policy_action = "github.write";
  security_tier = t3;
  mutation_class = changes;
  approval_requirement = asks;
  capability_id = "github";
  credential_capability_id = some "github.app";
}

abbrev rule_of : PolicyDecision → PolicyRule
rule_of d = record { policy_action = "github.write"; decision = d }

abbrev engine_of : CapabilityState → PolicyDecision → PolicyEngine
engine_of state d = record {
  registry = record {
    capabilities = record {
      capabilities =
          (
            "github",
            record { capability_id = "github"; provider = "github"; state = state; version = 1 },
          )
          ∷ [];
      is_frozen = true;
    };
    tools =
        ("github.merge", tool_of "github.merge" privileged conditional)
        ∷ ("github.close", tool_of "github.close" standard required)
        ∷ ("github.drop", tool_of "github.drop" destructive not_required)
        ∷ [];
    is_frozen = true;
  };
  rules = ("github.write", rule_of d) ∷ [];
  broker = some (λ k. if str_eq k "github.app" then some ready else none);
}

abbrev decided : CapabilityState → PolicyDecision → String → PolicyDecision × ReasonCode
decided state d k = let e = evaluate same_text (engine_of state d) k in (e.decision, e.reason_code)

evaluate_tests :
    (decided ready allow "github.merge" ≡ (allow, allowed))
    × (decided ready allow "github.close" ≡ (approval_required, approval_required_by_tool))
    × (decided ready approval_required "github.merge"
        ≡ (approval_required, approval_required_by_rule))
    × (decided ready allow "github.drop" ≡ (deny, destructive_denied_by_default))
    × (decided degraded allow "github.merge" ≡ (deny, capability_not_ready))
    × (decided ready allow "github.*" ≡ (deny, unknown_tool))
unfolding evaluate evaluate_tool by_rule by_decision allow_tool unready unready_credential find_key
    normalize_identifier get
evaluate_tests = (refl, refl, refl, refl, refl, refl)

abbrev github : CapabilityState → CapabilityDescriptor
github state = record { capability_id = "github"; provider = "github"; state = state; version = 1 }

abbrev started : ToolRegistry
started = record {
  capabilities = record { capabilities = ("github", github ready) ∷ []; is_frozen = false };
  tools = [];
  is_frozen = false;
}

registry_tests :
    (normalize_identifier same_text "git-hub.app_1" ≡ some "git-hub.app_1")
    × (normalize_identifier same_text "github..app" ≡ none)
    × (normalize_identifier same_text "github-" ≡ none)
    × (add_tool same_text
          (tool_of "github.merge" privileged conditional)
          (engine_of ready allow).registry
        ≡ err registry_frozen)
    × (register_capability (github ready) (freeze started) ≡ err registry_frozen)
    × (register_capability (github ready) started ≡ err duplicate_capability)
    × (add_rules (rule_of allow ∷ rule_of deny ∷ []) [] ≡ err duplicate_rule)
unfolding normalize_identifier add_tool add_rules add_capability register_capability get set
registry_tests = (refl, refl, refl, refl, refl, refl, refl)

evaluate-decides_example :
    ((evaluate same_text (engine_of ready allow) "github.merge").decision ≡ allow
      ↔ Registered same_text
          (engine_of ready allow)
          "github.merge"
          (IsAllowed same_text (engine_of ready allow)))
    × ((evaluate same_text (engine_of ready allow) "github.merge").decision ≡ approval_required
        ↔ Registered same_text
            (engine_of ready allow)
            "github.merge"
            (NeedsApproval same_text (engine_of ready allow)))
evaluate-decides_example = evaluate-decides same_text (engine_of ready allow) "github.merge"
