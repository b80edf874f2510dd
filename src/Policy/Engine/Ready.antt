-- ===== src/Policy/Engine/Ready.antt =====
-- What a tool needs before its rule counts, in the engine of src/hermes_mcp_bridge/v2/policy.py.
use hermes_mcp_bridge.Base.{
  maybe, refl, true, some, none, maybe_ind, arith, Option, String, arith, false, maybe_ind, none,
  some, true, ◌≡◌,
}
use hermes_mcp_bridge.Policy.Kinds.{CapabilityState, PolicyDecision, ReasonCode, is_ready}
use hermes_mcp_bridge.Policy.Registry.{
  CapabilityDescriptor, PolicyRule, ToolDefinition, find_key, get_capability, is_destructive,
}
use hermes_mcp_bridge.Policy.Engine.{PolicyEngine, unready, unready_credential}

module _ (strip_lower : String → String) (engine : PolicyEngine) where
  -- The capability of the tool is known and ready.
  abbrev pub HasCapability : ToolDefinition → Type 0
  HasCapability tool =
      (c : CapabilityDescriptor) × (get_capability strip_lower engine.registry.capabilities
          tool.capability_id
        ≡ some c)
      × (is_ready c.state ≡ true)

  -- The broker reports the credential that the tool declares as ready.
  abbrev pub HasCredential : Option String → Type 0
  HasCredential none = Unit
  HasCredential (some k) =
      (status : String → Option CapabilityState) × (state : CapabilityState) × (engine.broker
        ≡ some status)
      × (status k ≡ some state)
      × (is_ready state ≡ true)

  abbrev pub HasRule : ToolDefinition → PolicyDecision → Type 0
  HasRule tool d =
      (rule : PolicyRule) × (find_key strip_lower engine.rules tool.policy_action ≡ some rule)
      × (rule.policy_action ≡ tool.policy_action)
      × (rule.decision ≡ d)

  -- What a tool needs before its rule counts.
  abbrev pub IsReady : ToolDefinition → Type 0
  IsReady tool =
      (is_destructive tool ≡ false)
      × HasCapability tool
      × HasCredential tool.credential_capability_id

  credential-HasCredential :
      (k : String) → unready_credential strip_lower engine k ≡ none → HasCredential (some k)
  unfolding unready_credential
  credential-HasCredential k =
      maybe_ind (λ (r : Option ReasonCode). r ≡ none → HasCredential (some k)) engine.broker
        (λ _ h. absurd (cc h))
        (λ status e.
          maybe_ind (λ (r : Option ReasonCode). r ≡ none → HasCredential (some k)) (status k)
            (λ _ h. absurd (cc h)) (λ state f h. (status, state, e, f, ground (arith, h))))

  declared-HasCredential :
      (o : Option String)
      → maybe o none (unready_credential strip_lower engine) ≡ none
      → HasCredential o
  declared-HasCredential none h = tt
  declared-HasCredential (some k) h = credential-HasCredential k h

  HasCredential-declared :
      (o : Option String)
      → HasCredential o
      → maybe o none (unready_credential strip_lower engine) ≡ none
  unfolding unready_credential
  HasCredential-declared none c = refl
  HasCredential-declared (some k) (status, state, e, f, g) = rw (e, f, g) refl

  pub unready-IsReady :
      (tool : ToolDefinition)
      → is_destructive tool ≡ false
      → unready strip_lower engine tool ≡ none
      → IsReady tool
  unfolding unready
  unready-IsReady tool mild =
      maybe_ind (λ (r : Option ReasonCode). r ≡ none → IsReady tool)
        (get_capability strip_lower engine.registry.capabilities tool.capability_id)
        (λ _ h. absurd (cc h))
        (λ c e h. (
          mild,
          (c, e, ground (arith, h)),
          declared-HasCredential tool.credential_capability_id (ground (arith, h)),
        ))

  pub IsReady-unready :
      (tool : ToolDefinition) → IsReady tool → unready strip_lower engine tool ≡ none
  unfolding unready
  IsReady-unready tool (mild, (c, e, f), credential) =
      rw (e, f) (HasCredential-declared tool.credential_capability_id credential)
