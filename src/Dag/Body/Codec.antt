-- ===== src/Dag/Body/Codec.antt =====
-- `checkpoint_from_body` and `NodeState.from_dict` of src/hermes_mcp_bridge/v2/dag_store.py. `str` and `int` of a value of another type have no answer here.
pub mod Reads
pub mod Leases
use hermes_mcp_bridge.Base.Dict
use hermes_mcp_bridge.Base.{
  if◌then◌else◌, none, some, ◌>>=◌, Bool, Bool-cases, List, Option, Result, String, [], ap, arith,
  attempt, eq_iff, err, false, if◌then◌else◌, inl, inr, is_some, maybe, none, ok, refl, some,
  str_eq, sym, true, ℕ, ◌++◌, ◌>>=◌, ◌∙◌, ◌∷◌, ◌≡◌,
}
use hermes_mcp_bridge.Base.Dict.{AllItems, Dict, IsUnique, get, set}
use hermes_mcp_bridge.Dag.Contract.{
  NodeStatus, PlanStatus, compensated, compensation_failed, compensation_indeterminate,
  compensation_pending, compensation_skipped, compensation_unsafe, dead_letter, denied, dispatched,
  failed, indeterminate, pending, plan_aborted, plan_completed, plan_dead_letter, plan_failed,
  plan_indeterminate, plan_partial, plan_status_value, ready, skipped, status_value, success,
}
use hermes_mcp_bridge.Dag.Json.{
  Fields, Items, Json, array, boolean, field, item, no_fields, no_items, null, number, object, text,
}
use hermes_mcp_bridge.Dag.Transform.{get_field, same}
use hermes_mcp_bridge.Dag.Body.{
  Checkpoint, Lease, NodeState, as_dict, body, budget_json, lease_json, or_null, states_json,
}

-- KeyError, and ValueError or a conversion that is left out.
pub data ReadError : Type 0 where
  missing unfit : String → ReadError

abbrev pub as_text : String → Json → Result ReadError String
as_text k (text s) = ok s
as_text k _ = err (unfit k)

abbrev pub as_number : String → Json → Result ReadError ℕ
as_number k (number n) = ok n
as_number k _ = err (unfit k)

abbrev pub as_boolean : String → Json → Result ReadError Bool
as_boolean k (boolean b) = ok b
as_boolean k _ = err (unfit k)

abbrev pub as_fields : String → Json → Result ReadError Fields
as_fields k (object f) = ok f
as_fields k _ = err (unfit k)

abbrev pub as_items : String → Json → Result ReadError Items
as_items k (array l) = ok l
as_items k _ = err (unfit k)

abbrev pub as_option : String → Json → Result ReadError (Option String)
as_option k null = ok none
as_option k (text s) = ok (some s)
as_option k _ = err (unfit k)

-- payload[k], read by a conversion
abbrev pub at :
    {A : Type 0} → (String → Json → Result ReadError A) → Fields → String → Result ReadError A
at read f k = maybe (get_field f k) (err (missing k)) (read k)

-- payload.get(k, default)
abbrev pub at_or :
    {A : Type 0} → A → (String → Json → Result ReadError A) → Fields → String → Result ReadError A
at_or default read f k = maybe (get_field f k) (ok default) (read k)

-- The member of an enum with a value.
abbrev pub named : {A : Type 0} → (A → String) → List A → String → Result ReadError A
named value [] s = err (unfit s)
named value (a ∷ others) s =
    let rest = named value others s in if str_eq (value a) s then ok a else rest

abbrev pub node_statuses : List NodeStatus
node_statuses =
    pending ∷ ready ∷ dispatched ∷ success ∷ failed ∷ denied ∷ skipped ∷ indeterminate
    ∷ compensation_pending ∷ compensated ∷ compensation_skipped ∷ compensation_unsafe
    ∷ compensation_failed ∷ compensation_indeterminate ∷ dead_letter ∷ []

abbrev pub plan_statuses : List PlanStatus
plan_statuses =
    plan_completed ∷ plan_partial ∷ plan_failed ∷ plan_aborted ∷ plan_indeterminate
    ∷ plan_dead_letter ∷ []

unfoldable pub node_status : String → Result ReadError NodeStatus
node_status s = named status_value node_statuses s

unfoldable pub plan_status : Option String → Result ReadError (Option PlanStatus)
plan_status none = ok none
plan_status (some s) =
    if str_eq s "" then ok none else named plan_status_value plan_statuses s >>= λ p. ok (some p)

-- `NodeState.from_dict`
unfoldable pub from_dict : Fields → Result ReadError NodeState
from_dict f = do
  node_id ← at as_text f "node_id"
  named_status ← at as_text f "status"
  status ← node_status named_status
  attempt ← at_or 0 as_number f "attempt"
  idempotency_key ← at_or none as_option f "idempotency_key"
  effect_ref ← at_or none as_option f "effect_ref"
  reason_code ← at_or none as_option f "reason_code"
  operation_digest ← at_or none as_option f "operation_digest"
  ok (record {
    node_id = node_id;
    status = status;
    attempt = attempt;
    idempotency_key = idempotency_key;
    effect_ref = effect_ref;
    result = maybe (get_field f "result") null (λ v. v);
    reason_code = reason_code;
    operation_digest = operation_digest;
  })

-- The comprehension over the entries, on the dictionary that it has built.
unfoldable pub states_from : Items → Dict NodeState → Result ReadError (Dict NodeState)
states_from no_items d = ok d
states_from (item entry l) d =
    let rest = states_from l in
    as_fields "node_states" entry >>= λ f. from_dict f >>= λ n. rest (Dict.set d n.node_id n)

unfoldable pub budget_from : Fields → Result ReadError (Dict ℕ)
budget_from no_fields = ok []
budget_from (field k v f) =
    let rest = budget_from f in as_number k v >>= λ n. rest >>= λ d. ok ((k, n) ∷ d)

unfoldable pub lease_from : Fields → Result ReadError Lease
lease_from f = do
  owner_id ← at as_text f "owner_id"
  fence_token ← at as_number f "fence_token"
  expires_at_ms ← at as_number f "expires_at_ms"
  heartbeat_at_ms ← at_or 0 as_number f "heartbeat_at_ms"
  ok (record {
    owner_id = owner_id;
    fence_token = fence_token;
    expires_at_ms = expires_at_ms;
    heartbeat_at_ms = heartbeat_at_ms;
  })

unfoldable pub checkpoint_from_body : Json → Result ReadError Checkpoint
unfolding node_status plan_status from_dict states_from budget_from lease_from
checkpoint_from_body payload = do
  f ← as_fields "body" payload
  lease_fields ← at as_fields f "lease"
  execution_id ← at as_text f "execution_id"
  plan_digest ← at as_text f "plan_digest"
  principal_ref ← at as_text f "principal_ref"
  projection_digest ← at as_text f "projection_digest"
  policy_digest ← at as_text f "policy_digest"
  schema_version ← at as_text f "schema_version"
  approval_ref ← at_or none as_option f "approval_ref"
  named_status ← at_or none as_option f "status"
  status ← plan_status named_status
  replay ← at_or false as_boolean f "replay"
  budget ← at_or no_fields as_fields f "budget_consumed"
  budget_consumed ← budget_from budget
  lease ← lease_from lease_fields
  entries ← at_or no_items as_items f "node_states"
  node_states ← states_from entries []
  ok (record {
    execution_id = execution_id;
    plan_digest = plan_digest;
    principal_ref = principal_ref;
    projection_digest = projection_digest;
    policy_digest = policy_digest;
    lease = lease;
    schema_version = schema_version;
    approval_ref = approval_ref;
    status = status;
    node_states = node_states;
    budget_consumed = budget_consumed;
    replay = replay;
  })

-- Each state stands under its own node, once.
abbrev pub IsKeyed : Dict NodeState → Type 0
IsKeyed d = AllItems (λ k (n : NodeState). k ≡ n.node_id) d × IsUnique d
