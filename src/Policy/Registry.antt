-- ===== src/Policy/Registry.antt =====
-- The registries of src/hermes_mcp_bridge/v2/capabilities.py and v2/registry.py, the broker of
-- v2/credentials.py and the rules of v2/policy.py. A lookup normalises its key first. Of a descriptor, a status
-- and a definition, the fields that the policy reads are kept. `strip` and `lower` are one parameter.
use hermes_mcp_bridge.Base.{
  true, ◌>>=◌, if◌then◌else◌, none, Bool, List, Option, Result, String, [], err, if◌then◌else◌,
  is_some, maybe, none, not, ok, true, ℕ, ◌||◌, ◌∷◌,
}
use hermes_mcp_bridge.Base.Dict.{Dict, get, set}
use hermes_mcp_bridge.Policy.Kinds.{
  ApprovalRequirement, CapabilityState, MutationClass, PolicyDecision, SecurityTier,
  is_destructive_class, is_destructive_tier, normalize_identifier,
}
use hermes_mcp_bridge.Base.Dict

pub record CapabilityDescriptor : Type 0 where
  pub capability_id : String
  pub provider : String
  pub state : CapabilityState
  pub version : ℕ

pub record CapabilityRegistry : Type 0 where
  pub capabilities : Dict CapabilityDescriptor
  pub is_frozen : Bool

pub record ToolDefinition : Type 0 where
  pub tool_id : String
  pub policy_action : String
  pub security_tier : SecurityTier
  pub mutation_class : MutationClass
  pub approval_requirement : ApprovalRequirement
  pub capability_id : String
  pub credential_capability_id : Option String

pub record ToolRegistry : Type 0 where
  pub capabilities : CapabilityRegistry
  pub tools : Dict ToolDefinition
  pub is_frozen : Bool

pub record PolicyRule : Type 0 where
  pub policy_action : String
  pub decision : PolicyDecision

pub data RegistryError : Type 0 where
  registry_frozen duplicate_capability duplicate_tool registry_validation : RegistryError
  duplicate_rule : RegistryError

abbrev pub is_destructive : ToolDefinition → Bool
is_destructive tool =
    is_destructive_class tool.mutation_class || is_destructive_tier tool.security_tier

-- CapabilityRegistry.register
unfoldable pub add_capability :
    CapabilityDescriptor → CapabilityRegistry → Result RegistryError CapabilityRegistry
add_capability c r =
    if r.is_frozen
    then err registry_frozen
    else if is_some (Dict.get r.capabilities c.capability_id)
    then err duplicate_capability
    else ok (record r { capabilities = Dict.set r.capabilities c.capability_id c })

-- CapabilityRegistry.freeze
abbrev pub freeze_capabilities : CapabilityRegistry → CapabilityRegistry
freeze_capabilities r = record r { is_frozen = true }

-- ToolRegistry.register_capability, on the registry of capabilities that it holds
unfoldable pub register_capability :
    CapabilityDescriptor → ToolRegistry → Result RegistryError ToolRegistry
register_capability c r =
    if r.is_frozen
    then err registry_frozen
    else add_capability c r.capabilities >>= λ capabilities.
        ok (record r { capabilities = capabilities })

-- ToolRegistry.freeze
abbrev pub freeze : ToolRegistry → ToolRegistry
freeze r = record r { capabilities = freeze_capabilities r.capabilities; is_frozen = true }

-- The loop of PolicyRuleSet.__init__, on the mapping that it builds
unfoldable pub add_rules :
    List PolicyRule → Dict PolicyRule → Result RegistryError (Dict PolicyRule)
add_rules [] rules = ok rules
add_rules (r ∷ rs) rules =
    let rest = add_rules rs (Dict.set rules r.policy_action r) in
    if is_some (Dict.get rules r.policy_action) then err duplicate_rule else rest

module _ (strip_lower : String → String) where
  -- A key that is no identifier finds nothing, like one that is absent.
  unfoldable pub find_key {ℓ} : {V : Type ℓ} → Dict V → String → Option V
  find_key d k = maybe (normalize_identifier strip_lower k) none (Dict.get d)

  abbrev pub get_capability : CapabilityRegistry → String → Option CapabilityDescriptor
  get_capability r k = find_key r.capabilities k

  abbrev pub contains_capability : CapabilityRegistry → String → Bool
  contains_capability r k = is_some (get_capability r k)

  abbrev pub credential_known : CapabilityRegistry → ToolDefinition → Bool
  credential_known r tool = maybe tool.credential_capability_id true (contains_capability r)

  -- ToolRegistry.register
  unfoldable pub add_tool : ToolDefinition → ToolRegistry → Result RegistryError ToolRegistry
  add_tool tool r =
      if r.is_frozen
      then err registry_frozen
      else if is_some (Dict.get r.tools tool.tool_id)
      then err duplicate_tool
      else if not (contains_capability r.capabilities tool.capability_id)
      then err registry_validation
      else if not (credential_known r.capabilities tool)
      then err registry_validation
      else ok (record r { tools = Dict.set r.tools tool.tool_id tool })
