-- ===== src/Policy/Kinds.antt =====
-- Enums of src/hermes_mcp_bridge/v2/enums.py, the reason codes of v2/policy.py, and the identifiers of
-- v2/schema.py.
use hermes_mcp_bridge.Base.{
  not, Bool, List, Option, String, [], any_of, codes, false, if◌then◌else◌, is_digit, leb, none,
  some, true, ℕ, ◌&&◌, ◌==◌, ◌||◌, ◌∷◌,
}

pub data PolicyDecision : Type 0 where
  allow deny approval_required : PolicyDecision

pub data CapabilityState : Type 0 where
  configured available healthy ready degraded unavailable denied : CapabilityState

pub data SecurityTier : Type 0 where
  t0 t1 t2 t3 t4 : SecurityTier

pub data MutationClass : Type 0 where
  no_mutation low standard privileged destructive : MutationClass

pub data ApprovalRequirement : Type 0 where
  not_required conditional required : ApprovalRequirement

pub data ReasonCode : Type 0 where
  allowed unknown_tool missing_policy_rule explicit_deny approval_required_by_rule : ReasonCode
  approval_required_by_tool capability_unknown capability_not_ready : ReasonCode
  credential_capability_unknown credential_capability_not_ready : ReasonCode
  destructive_denied_by_default policy_action_mismatch : ReasonCode

abbrev pub is_ready : CapabilityState → Bool
is_ready ready = true
is_ready _ = false

abbrev pub is_destructive_class : MutationClass → Bool
is_destructive_class destructive = true
is_destructive_class _ = false

abbrev pub is_destructive_tier : SecurityTier → Bool
is_destructive_tier t4 = true
is_destructive_tier _ = false

abbrev pub is_required : ApprovalRequirement → Bool
is_required required = true
is_required _ = false

-- A place in `_IDENTIFIER_RE`: where a segment begins, behind a letter or digit of it, behind a sign of it.
pub data Place : Type 0 where
  segment_start after_alnum after_sign off : Place

abbrev pub is_low_alnum : ℕ → Bool
is_low_alnum c = is_digit c || leb b'a' c && leb c b'z'

abbrev pub next_place : Place → ℕ → Place
next_place off c = off
next_place segment_start c = if is_low_alnum c then after_alnum else off
next_place after_sign c =
    if is_low_alnum c then after_alnum else if c == b'_' || c == b'-' then after_sign else off
next_place after_alnum c =
    if is_low_alnum c
    then after_alnum
    else if c == b'_' || c == b'-'
    then after_sign
    else if c == b'.'
    then segment_start
    else off

abbrev pub ends_segment : Place → List ℕ → Bool
ends_segment after_alnum [] = true
ends_segment _ [] = false
ends_segment p (c ∷ cs) = ends_segment (next_place p c) cs

-- `*`, `?`, `[` and `]`; the token `**` has one of them.
abbrev pub is_wildcard : ℕ → Bool
is_wildcard c = c == b'*' || c == b'?' || c == b'[' || c == b']'

-- `normalize_identifier`, which raises where there is no answer; `strip_lower` is `strip` and `lower`.
unfoldable pub normalize_identifier : (String → String) → String → Option String
normalize_identifier strip_lower raw =
    let value = codes (strip_lower raw) in
    if any_of is_wildcard value || not (ends_segment segment_start value)
    then none
    else some (strip_lower raw)
