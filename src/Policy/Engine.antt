-- ===== src/Policy/Engine.antt =====
-- `PolicyEngine` of src/hermes_mcp_bridge/v2/policy.py.
pub mod Ready
pub mod Permits
use hermes_mcp_bridge.Base.{
  if◌then◌else◌, some, none, Option, String, if◌then◌else◌, maybe, none, not, some, str_eq,
}
use hermes_mcp_bridge.Base.Dict.{Dict}
use hermes_mcp_bridge.Policy.Kinds.{
  CapabilityState, PolicyDecision, ReasonCode, allow, allowed, approval_required,
  approval_required_by_rule, approval_required_by_tool, capability_not_ready, capability_unknown,
  credential_capability_not_ready, credential_capability_unknown, deny,
  destructive_denied_by_default, explicit_deny, is_ready, is_required, missing_policy_rule,
  policy_action_mismatch, unknown_tool,
}
use hermes_mcp_bridge.Policy.Registry.{
  PolicyRule, ToolDefinition, ToolRegistry, find_key, get_capability, is_destructive,
}

-- The broker is an interface: it answers the state of a credential capability, or nothing.
pub record PolicyEngine : Type 0 where
  pub registry : ToolRegistry
  pub rules : Dict PolicyRule
  pub broker : Option (String → Option CapabilityState)

pub record PolicyEvaluation : Type 0 where
  pub tool_id : String
  pub policy_action : String
  pub decision : PolicyDecision
  pub reason_code : ReasonCode

module _ (strip_lower : String → String) (engine : PolicyEngine) where
  abbrev pub answer : ToolDefinition → PolicyDecision → ReasonCode → PolicyEvaluation
  answer tool d reason = record {
    tool_id = tool.tool_id;
    policy_action = tool.policy_action;
    decision = d;
    reason_code = reason;
  }

  -- `_deny`
  abbrev pub deny_tool : ToolDefinition → ReasonCode → PolicyEvaluation
  deny_tool tool reason = answer tool deny reason

  -- 2 and 3: the reason to deny a tool before its rule is looked up
  unfoldable pub unready_credential : String → Option ReasonCode
  unready_credential k = maybe engine.broker (some credential_capability_unknown) (λ status.
      maybe (status k) (some credential_capability_unknown)
        (λ state. if is_ready state then none else some credential_capability_not_ready))

  unfoldable pub unready : ToolDefinition → Option ReasonCode
  unready tool =
      maybe (get_capability strip_lower engine.registry.capabilities tool.capability_id)
        (some capability_unknown)
        (λ capability.
          if not (is_ready capability.state)
          then some capability_not_ready
          else maybe tool.credential_capability_id none unready_credential)

  -- 5
  unfoldable pub allow_tool : ToolDefinition → PolicyEvaluation
  allow_tool tool =
      if is_required tool.approval_requirement
      then answer tool approval_required approval_required_by_tool
      else answer tool allow allowed

  unfoldable pub by_decision : ToolDefinition → PolicyDecision → PolicyEvaluation
  by_decision tool deny = deny_tool tool explicit_deny
  by_decision tool approval_required = answer tool approval_required approval_required_by_rule
  by_decision tool allow = allow_tool tool

  -- 4
  unfoldable pub by_rule : ToolDefinition → PolicyEvaluation
  by_rule tool =
      maybe (find_key strip_lower engine.rules tool.policy_action)
        (deny_tool tool missing_policy_rule)
        (λ rule.
          if str_eq rule.policy_action tool.policy_action
          then by_decision tool rule.decision
          else deny_tool tool policy_action_mismatch)

  unfoldable pub evaluate_tool : ToolDefinition → PolicyEvaluation
  evaluate_tool tool =
      if is_destructive tool
      then deny_tool tool destructive_denied_by_default
      else maybe (unready tool) (by_rule tool) (deny_tool tool)

  abbrev pub unknown : String → PolicyEvaluation
  unknown k = record {
    tool_id = if str_eq (strip_lower k) "" then "<empty>" else strip_lower k;
    policy_action = "<unknown>";
    decision = deny;
    reason_code = unknown_tool;
  }

  unfoldable pub evaluate : String → PolicyEvaluation
  evaluate k = maybe (find_key strip_lower engine.registry.tools k) (unknown k) evaluate_tool
