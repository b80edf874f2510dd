-- ===== src/Dag/Body/Codec/Reads.antt =====
-- What `checkpoint_from_body` of src/hermes_mcp_bridge/v2/dag_store.py reads from what `body` writes.
use hermes_mcp_bridge.Base.Dict
use hermes_mcp_bridge.Base.{
  append_assoc, append_nil, none, some, ◌>>=◌, Bool-cases, Option, Result, String, [], ap, arith,
  eq_iff, false, inl, inr, is_some, maybe, none, ok, refl, some, str_eq, sym, true, ℕ, ◌++◌, ◌>>=◌,
  ◌∙◌, ◌∷◌, ◌≡◌,
}
use hermes_mcp_bridge.Base.Dict.{
  AllItems, Dict, IsUnique, by_key, by_key-AllItems, by_key-IsUnique, get, set,
}
use hermes_mcp_bridge.Base.Dict.Ascending.{by_key-by_key}
use hermes_mcp_bridge.Dag.Contract.{
  NodeStatus, PlanStatus, compensated, compensation_failed, compensation_indeterminate,
  compensation_pending, compensation_skipped, compensation_unsafe, dead_letter, denied, dispatched,
  failed, indeterminate, pending, plan_aborted, plan_completed, plan_dead_letter, plan_failed,
  plan_indeterminate, plan_partial, plan_status_value, ready, skipped, status_value, success,
}
use hermes_mcp_bridge.Dag.Json.{Json, null, text}
use hermes_mcp_bridge.Dag.Transform.{same}
use hermes_mcp_bridge.Dag.Body.{
  Checkpoint, NodeState, as_dict, body, budget_json, lease_json, or_null, states_json,
}
use hermes_mcp_bridge.Dag.Body.Codec.{
  IsKeyed, ReadError, as_fields, as_option, budget_from, checkpoint_from_body, from_dict,
  lease_from, node_status, plan_status, states_from,
}

node_status-value : (s : NodeStatus) → node_status (status_value s) ≡ ok s
unfolding node_status
node_status-value pending = refl
node_status-value ready = refl
node_status-value dispatched = refl
node_status-value success = refl
node_status-value failed = refl
node_status-value denied = refl
node_status-value skipped = refl
node_status-value indeterminate = refl
node_status-value compensation_pending = refl
node_status-value compensated = refl
node_status-value compensation_skipped = refl
node_status-value compensation_unsafe = refl
node_status-value compensation_failed = refl
node_status-value compensation_indeterminate = refl
node_status-value dead_letter = refl

as_option-or_null : (k : String) (o : Option String) → as_option k (or_null o) ≡ ok o
as_option-or_null k none = refl
as_option-or_null k (some s) = refl

abbrev status_json : Option PlanStatus → Json
status_json o = maybe o null (λ s. text (plan_status_value s))

plan_status-json :
    (o : Option PlanStatus)
    → (name : Option String) × (as_option "status" (status_json o) ≡ ok name)
      × (plan_status name ≡ ok o)
unfolding plan_status
plan_status-json none = (none, refl, refl)
plan_status-json (some plan_completed) = (some "COMPLETED", refl, refl)
plan_status-json (some plan_partial) = (some "PARTIAL", refl, refl)
plan_status-json (some plan_failed) = (some "FAILED", refl, refl)
plan_status-json (some plan_aborted) = (some "ABORTED", refl, refl)
plan_status-json (some plan_indeterminate) = (some "INDETERMINATE", refl, refl)
plan_status-json (some plan_dead_letter) = (some "DEAD_LETTER", refl, refl)

from_dict-as_dict : (n : NodeState) → as_fields "node_states" (as_dict n) >>= from_dict ≡ ok n
unfolding from_dict as_dict
from_dict-as_dict n =
    rw
      (
        node_status-value n.status,
        as_option-or_null "idempotency_key" n.idempotency_key,
        as_option-or_null "effect_ref" n.effect_ref,
        as_option-or_null "reason_code" n.reason_code,
        as_option-or_null "operation_digest" n.operation_digest,
      )
      refl

budget_from-json : (d : Dict ℕ) → budget_from (budget_json d) ≡ ok d
unfolding budget_from budget_json
budget_from-json [] = refl
budget_from-json ((k, n) ∷ d) = rw (budget_from-json d) refl

set_new :
    (d : Dict NodeState) (k : String) (n : NodeState)
    → Dict.get d k ≡ none
    → Dict.set d k n ≡ d ++ ((k, n) ∷ [])
unfolding Dict.get Dict.set
set_new [] k n h = refl
set_new ((j, m) ∷ d) k n h = elim (Bool-cases (str_eq j k)) [
  | inl same ↦ absurd (ground (arith, h, same))
  | inr other ↦ rw other (ap (λ l. (j, m) ∷ l) (set_new d k n (ground (arith, h, other))))
]

get-append :
    (d : Dict NodeState) (k j : String) (n : NodeState)
    → Dict.get d j ≡ none
    → str_eq k j ≡ false
    → Dict.get (d ++ ((k, n) ∷ [])) j ≡ none
unfolding Dict.get
get-append [] k j n h differ = ground (arith, differ)
get-append ((i, m) ∷ d) k j n h differ = ground (arith, h, get-append d k j n)

states_from-json :
    (d acc : Dict NodeState)
    → IsKeyed d
    → ((j : String) → is_some (Dict.get d j) ≡ true → Dict.get acc j ≡ none)
    → states_from (states_json d) acc ≡ ok (acc ++ d)
unfolding states_from states_json as_dict Dict.get
states_from-json [] acc k fresh = ap ok (sym (append_nil acc))
states_from-json ((i, n) ∷ d) acc ((own, owns), (once, onces)) fresh =
    let here : Dict.get acc i ≡ none = fresh i (ground (arith, eq_iff i i)) in
    let grown : Dict.set acc n.node_id n ≡ acc ++ ((i, n) ∷ []) =
      ap (λ k. Dict.set acc k n) (sym own) ∙ set_new acc i n here in
    let rest =
      states_from-json d (acc ++ ((i, n) ∷ [])) (owns, onces)
        (λ j there. elim (Bool-cases (str_eq i j)) [
          | inl same ↦
              absurd (cc (there, ap (λ k. is_some (Dict.get d k)) ((eq_iff i j).0 same), once))
          | inr other ↦ get-append acc i j n (fresh j (ground (arith, other, there))) other
        ]) in
    ap
      (λ (r : Result ReadError NodeState).
        r >>= λ m. states_from (states_json d) (Dict.set acc m.node_id m))
      (from_dict-as_dict n)
    ∙ ap (states_from (states_json d)) grown
    ∙ rest
    ∙ ap ok (append_assoc acc ((i, n) ∷ []) d)

-- The same checkpoint, with the nodes and the budgets in the order of their keys.
abbrev pub sorted_checkpoint : Checkpoint → Checkpoint
sorted_checkpoint c = record c {
  node_states = by_key c.node_states;
  budget_consumed = by_key c.budget_consumed;
}

-- What is written of both is the same.
pub body-sorted_checkpoint : (c : Checkpoint) → body (sorted_checkpoint c) ≡ body c
unfolding body
body-sorted_checkpoint c = rw (by_key-by_key c.node_states, by_key-by_key c.budget_consumed) refl

-- What `checkpoint_from_body` reads from the body of a checkpoint is that checkpoint, with every field of it and of
-- its lease and node states, up to the order of the two dictionaries.
pub checkpoint_from_body-body :
    (c : Checkpoint)
    → IsKeyed c.node_states
    → checkpoint_from_body (body c) ≡ ok (sorted_checkpoint c)
unfolding checkpoint_from_body body lease_from lease_json
checkpoint_from_body-body c keyed =
    let (name, e, f) = plan_status-json c.status in
    let sorted_keyed : IsKeyed (by_key c.node_states) = (
      by_key-AllItems (λ k (n : NodeState). k ≡ n.node_id) c.node_states keyed.0,
      by_key-IsUnique c.node_states keyed.1,
    ) in
    rw
      (
        as_option-or_null "approval_ref" c.approval_ref,
        e,
        f,
        budget_from-json (by_key c.budget_consumed),
        states_from-json (by_key c.node_states) [] sorted_keyed (λ j h. unfold Dict.get in refl),
      )
      refl
