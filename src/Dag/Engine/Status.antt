-- ===== src/Dag/Engine/Status.antt =====
-- `plan_status_from` and the end of `run`: the status of the plan, the effects that are reported, and
-- the check of `ExecutionReport`.
use hermes_mcp_bridge.Base.{
  is_nil, refl, Bool, List, Result, String, [], arith, err, false, if◌then◌else◌, length, maybe,
  not, ok, refl, str_eq, suc, true, ℕ, ◌&&◌, ◌==◌, ◌||◌, ◌↔◌, ◌∷◌, ◌≡◌, ◌≢◌, ◌≤◌,
}
use hermes_mcp_bridge.Base.Dict.{Dict}
use hermes_mcp_bridge.Dag.Contract.{
  DagError, NodeStatus, PlanStatus, dead_letter, indeterminate, is_status, plan_aborted,
  plan_completed, plan_dead_letter, plan_failed, plan_indeterminate, plan_partial,
  plan_schema_invalid, success,
}
use hermes_mcp_bridge.Dag.Store.{NodeState}
use hermes_mcp_bridge.Dag.Engine.{dag_error}

-- any(p(state.status) for state in states.values())
abbrev pub any_state : (NodeStatus → Bool) → Dict NodeState → Bool
any_state p [] = false
any_state p ((k, n) ∷ d) = p n.status || any_state p d

-- sum(1 for status in statuses if status is SUCCESS)
abbrev pub successes : Dict NodeState → ℕ
successes [] = 0
successes ((k, n) ∷ d) =
    let rest = successes d in if is_status n.status success then suc rest else rest

abbrev pub is : NodeStatus → NodeStatus → Bool
is s t = is_status t s

unfoldable pub plan_status_from : Dict NodeState → Bool → PlanStatus
plan_status_from states aborted =
    if any_state (is dead_letter) states
    then plan_dead_letter
    else if any_state (is indeterminate) states
    then plan_indeterminate
    else if aborted
    then plan_aborted
    else if not (successes states == 0) && successes states == length states
    then plan_completed
    else if not (successes states == 0)
    then plan_partial
    else plan_failed

-- The nodes with an effect that is committed, and those whose effect is unknown. The source lists them by
-- the order of their names.
abbrev has_effect : NodeState → Bool
has_effect n = maybe n.effect_ref false (λ s. not (str_eq s ""))

unfoldable pub committed_effects : Dict NodeState → List String
committed_effects [] = []
committed_effects ((k, n) ∷ d) =
    let rest = committed_effects d in
    if is_status n.status success && has_effect n then k ∷ rest else rest

unfoldable pub unknown_effects : Dict NodeState → List String
unknown_effects [] = []
unknown_effects ((k, n) ∷ d) =
    let rest = unknown_effects d in
    if is_status n.status indeterminate || is_status n.status dead_letter then k ∷ rest else rest

pub record ExecutionReport : Type 0 where
  pub status : PlanStatus
  pub committed : List String
  pub unknown : List String

abbrev is_open : PlanStatus → Bool
is_open plan_indeterminate = true
is_open plan_dead_letter = true
is_open _ = false

-- `ExecutionReport.__post_init__`
unfoldable pub post_init : ExecutionReport → Result DagError ExecutionReport
post_init r =
    if not (is_nil r.unknown) && not (is_open r.status)
    then err (dag_error plan_schema_invalid "unknown_effects requires INDETERMINATE")
    else ok r

-- The report of `run`: aborted counts only where nothing succeeded.
unfoldable pub report : Dict NodeState → Bool → Result DagError ExecutionReport
report states aborted = post_init (record {
  status = plan_status_from states (aborted && not (any_state (is success) states));
  committed = committed_effects states;
  unknown = unknown_effects states;
})

-- The effect of such a node may have happened.
abbrev pub is_unknown : NodeStatus → Bool
is_unknown s = is_status s indeterminate || is_status s dead_letter

successes-le : (states : Dict NodeState) → successes states ≤ length states
successes-le [] = omega arith
successes-le ((k, n) ∷ d) = let rest = successes-le d in ground (arith, rest)

completed_all :
    (states : Dict NodeState)
    → successes states ≡ length states
    → any_state (λ s. not (is_status s success)) states ≡ false
completed_all [] h = refl
completed_all ((k, n) ∷ d) h =
    let rest = completed_all d in let le = successes-le d in ground (arith, rest, h, le)

all_succeeded :
    (states : Dict NodeState)
    → any_state (λ s. not (is_status s success)) states ≡ false
    → (successes states ≡ length states)
      × (any_state (is dead_letter) states ≡ false)
      × (any_state (is indeterminate) states ≡ false)
all_succeeded [] h = (refl, refl, refl)
all_succeeded ((k, n) ∷ d) h = let rest = all_succeeded d in ground (arith, rest, h)

not_nil : (states : Dict NodeState) → (states ≢ []) ↔ ((length states == 0) ≡ false)
not_nil [] = (λ h. absurd (h refl), λ h e. cc h)
not_nil (x ∷ d) = (λ h. ground arith, λ h e. cc e)

-- A plan is completed exactly if it has a node and every node of it succeeded and it is not aborted.
pub completed_exactly :
    (states : Dict NodeState) (aborted : Bool)
    → (plan_status_from states aborted ≡ plan_completed)
      ↔ (states ≢ [])
        × (aborted ≡ false)
        × (any_state (λ s. not (is_status s success)) states ≡ false)
unfolding plan_status_from
completed_exactly states aborted =
    let all = completed_all states in
    let back = all_succeeded states in
    let le = successes-le states in let nil = not_nil states in ground (arith, all, back, le, nil)
