-- ===== src/Policy/Engine/Permits.antt =====
-- What a decision of the engine of src/hermes_mcp_bridge/v2/policy.py stands for.
use hermes_mcp_bridge.Base.{
  sym, ap, ◌∙◌, ◌↔◌, eq_iff, refl, if_ind, inl, inr, ◌⊎◌, str_eq, true, some, maybe_ind, arith,
  String, arith, false, maybe_ind, some, true, ◌≡◌,
}
use hermes_mcp_bridge.Policy.Kinds.{
  deny, approval_required, is_required, PolicyDecision, allow, is_required,
}
use hermes_mcp_bridge.Policy.Registry.{ToolDefinition, find_key, is_destructive}
use mathlib.Core.Path.{subst}
use hermes_mcp_bridge.Policy.Engine.{
  evaluate, by_decision, PolicyEvaluation, evaluate_tool, by_rule, allow_tool, PolicyEngine,
  unready,
}
use hermes_mcp_bridge.Policy.Engine.Ready.{HasRule, IsReady, unready-IsReady, IsReady-unready}

module _ (strip_lower : String → String) (engine : PolicyEngine) where
  -- The rule allows the tool, which does not ask for an approval itself.
  abbrev pub IsAllowed : ToolDefinition → Type 0
  IsAllowed tool =
      IsReady strip_lower engine tool
      × HasRule strip_lower engine tool allow
      × (is_required tool.approval_requirement ≡ false)

  -- The rule asks for an approval, or it allows a tool that asks for one itself.
  abbrev pub NeedsApproval : ToolDefinition → Type 0
  NeedsApproval tool =
      IsReady strip_lower engine tool
      × (HasRule strip_lower engine tool approval_required
          ⊎ HasRule strip_lower engine tool allow × (is_required tool.approval_requirement ≡ true))

  -- A registered tool of which something holds.
  abbrev pub Registered : String → (ToolDefinition → Type 0) → Type 0
  Registered k P =
      (tool : ToolDefinition) × (find_key strip_lower engine.registry.tools k ≡ some tool) × P tool

  -- A tool that is ready is decided by its rule.
  ready_lem :
      (tool : ToolDefinition) (d : PolicyDecision)
      → IsReady strip_lower engine tool
      → HasRule strip_lower engine tool d
      → evaluate_tool strip_lower engine tool ≡ by_decision strip_lower engine tool d
  unfolding evaluate_tool by_rule
  ready_lem tool d r (rule, e, f, g) =
      rw
        (
          r.0,
          IsReady-unready strip_lower engine tool r,
          e,
          (eq_iff rule.policy_action tool.policy_action).1 f,
          g,
        )
        refl

  abbrev Decided : ToolDefinition → PolicyEvaluation → Type 0
  Decided tool answered =
      (answered.decision ≡ deny)
      ⊎ IsReady strip_lower engine tool
        × ((d : PolicyDecision) × HasRule strip_lower engine tool d
            × (answered ≡ by_decision strip_lower engine tool d))

  evaluate_tool-Decided :
      (tool : ToolDefinition) → Decided tool (evaluate_tool strip_lower engine tool)
  unfolding evaluate_tool by_rule
  evaluate_tool-Decided tool =
      if_ind (Decided tool) (is_destructive tool) (λ _. inl refl)
        (λ mild.
          maybe_ind (Decided tool) (unready strip_lower engine tool)
            (λ able.
              maybe_ind (Decided tool) (find_key strip_lower engine.rules tool.policy_action)
                (λ _. inl refl)
                (λ rule e.
                  if_ind (Decided tool) (str_eq rule.policy_action tool.policy_action)
                    (λ same. inr (
                      unready-IsReady strip_lower engine tool mild able,
                      (
                        rule.decision,
                        (rule, e, (eq_iff rule.policy_action tool.policy_action).0 same, refl),
                        refl,
                      ),
                    ))
                    (λ _. inl refl)))
            (λ reason _. inl refl))

  by_decision-allow :
      (tool : ToolDefinition) (d : PolicyDecision)
      → (by_decision strip_lower engine tool d).decision ≡ allow
      → (d ≡ allow) × (is_required tool.approval_requirement ≡ false)
  unfolding by_decision allow_tool
  by_decision-allow tool allow h = ground (arith, h)
  by_decision-allow tool deny h = absurd (cc h)
  by_decision-allow tool approval_required h = absurd (cc h)

  by_decision-approval :
      (tool : ToolDefinition) (d : PolicyDecision)
      → (by_decision strip_lower engine tool d).decision ≡ approval_required
      → (d ≡ approval_required) ⊎ (d ≡ allow) × (is_required tool.approval_requirement ≡ true)
  unfolding by_decision allow_tool
  by_decision-approval tool allow h = ground (arith, h)
  by_decision-approval tool deny h = absurd (cc h)
  by_decision-approval tool approval_required h = inl refl

  evaluate-IsAllowed :
      (k : String) → (evaluate strip_lower engine k).decision ≡ allow → Registered k IsAllowed
  unfolding evaluate
  evaluate-IsAllowed k =
      maybe_ind (λ (r : PolicyEvaluation). r.decision ≡ allow → Registered k IsAllowed)
        (find_key strip_lower engine.registry.tools k) (λ _ h. absurd (cc h))
        (λ tool e h. elim (evaluate_tool-Decided tool) [
          | inl denied ↦ absurd (cc (denied, h))
          | inr (r, (d, rule, f)) ↦
              let (same, unasked) =
                by_decision-allow tool d (sym (ap (λ (x : PolicyEvaluation). x.decision) f) ∙ h) in
              (tool, e, (r, subst (HasRule strip_lower engine tool) same rule, unasked))
        ])

  evaluate-NeedsApproval :
      (k : String)
      → (evaluate strip_lower engine k).decision ≡ approval_required
      → Registered k NeedsApproval
  unfolding evaluate
  evaluate-NeedsApproval k =
      maybe_ind
        (λ (r : PolicyEvaluation). r.decision ≡ approval_required → Registered k NeedsApproval)
        (find_key strip_lower engine.registry.tools k) (λ _ h. absurd (cc h))
        (λ tool e h. elim (evaluate_tool-Decided tool) [
          | inl denied ↦ absurd (cc (denied, h))
          | inr (r, (d, rule, f)) ↦
              elim (by_decision-approval tool d
                (sym (ap (λ (x : PolicyEvaluation). x.decision) f) ∙ h)) [
                  | inl same ↦
                      (tool, e, (r, inl (subst (HasRule strip_lower engine tool) same rule)))
                  | inr (same, asks) ↦
                      (tool, e, (r, inr (subst (HasRule strip_lower engine tool) same rule, asks)))
                ]
        ])

  -- A registered tool that is ready is decided by its rule.
  registered_lem :
      (k : String) (tool : ToolDefinition) (d : PolicyDecision)
      → find_key strip_lower engine.registry.tools k ≡ some tool
      → IsReady strip_lower engine tool
      → HasRule strip_lower engine tool d
      → evaluate strip_lower engine k ≡ by_decision strip_lower engine tool d
  unfolding evaluate
  registered_lem k tool d e r rule = rw e (ready_lem tool d r rule)

  NeedsApproval-evaluate :
      (k : String)
      → Registered k NeedsApproval
      → (evaluate strip_lower engine k).decision ≡ approval_required
  unfolding by_decision allow_tool
  NeedsApproval-evaluate k (tool, e, (r, inl rule)) =
      ap (λ (x : PolicyEvaluation). x.decision) (registered_lem k tool approval_required e r rule)
  NeedsApproval-evaluate k (tool, e, (r, inr (rule, asks))) =
      ap (λ (x : PolicyEvaluation). x.decision) (registered_lem k tool allow e r rule)
      ∙ rw asks refl

  IsAllowed-evaluate :
      (k : String) → Registered k IsAllowed → (evaluate strip_lower engine k).decision ≡ allow
  unfolding by_decision allow_tool
  IsAllowed-evaluate k (tool, e, (r, rule, unasked)) =
      ap (λ (x : PolicyEvaluation). x.decision) (registered_lem k tool allow e r rule)
      ∙ rw unasked refl

  -- The policy denies by default. It allows a tool exactly where the tool is registered, neither destructive
  -- nor of the highest tier, its capability and the credential that it declares are ready, an explicit rule
  -- allows its action and it requires no approval of its own; it asks for an approval exactly where all but
  -- the last holds and either the rule or the tool requires one.
  pub evaluate-decides :
      (k : String)
      → ((evaluate strip_lower engine k).decision ≡ allow ↔ Registered k IsAllowed)
        × ((evaluate strip_lower engine k).decision ≡ approval_required
            ↔ Registered k NeedsApproval)
  evaluate-decides k = (
    (evaluate-IsAllowed k, IsAllowed-evaluate k),
    (evaluate-NeedsApproval k, NeedsApproval-evaluate k),
  )
