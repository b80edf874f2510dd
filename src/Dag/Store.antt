-- ===== src/Dag/Store.antt =====
-- The checkpoint store of src/hermes_mcp_bridge/v2/dag_store.py. A method runs under the store's lock in
-- one SQLite transaction, so it is one step, and a rollback is the old state. A row holds its body as the JSON
-- value of its text. Parameters: `lower` of Python's `str`, and the
-- SHA-256 of a body's canonical JSON.
pub mod Fence
pub mod Approvals
pub mod Records
pub mod Tests
use Prim.Native.Char.{code}
use hermes_mcp_bridge.Base.Dict
use hermes_mcp_bridge.Base.Dict.{Dict}
use hermes_mcp_bridge.Base.{
  ◌>>◌, ◌>>=◌, Bool, List, Option, Result, String, [], and_then, attempt, any_of, err, false,
  if◌then◌else◌, ltb, maybe, none, not, ok, require, some, str_eq, true, ℕ, ◌&&◌, ◌+◌, ◌==◌, ◌||◌,
  ◌∷◌,
}
use hermes_mcp_bridge.Dag.Contract.{
  DagError, NodeStatus, PlanReason, PlanStatus, checkpoint_schema_unsupported, checkpoint_tampered,
  lease_fence_stale, plan_schema_invalid, plan_status_value, status_value,
}
pub use hermes_mcp_bridge.Dag.Body.{Checkpoint, Lease, NodeState}
unfoldable pub use hermes_mcp_bridge.Dag.Body.{as_dict, body, budget_json, lease_json, states_json}
use hermes_mcp_bridge.Dag.Body.Codec.{
  ReadError, as_fields, as_text, at, at_or, checkpoint_from_body,
}
use hermes_mcp_bridge.Dag.Transform.{get_field, set_field}
use hermes_mcp_bridge.Dag.Json.{
  Fields, Items, Json, array, assert_no_secret_material, boolean, field, item, no_fields, no_items,
  null, number, object, store_error, text,
}

-- `CHECKPOINT_SCHEMA_VERSION`
abbrev pub schema : String
schema = "dagstate/1"

-- A row of the table `dag_checkpoint`, by its execution.
pub record Row : Type 0 where
  pub plan_digest : String
  pub fence_token : ℕ
  pub record_digest : String
  pub body : Json

-- The tables: the rows, and for each approval and nonce the execution that consumed it.
pub record CheckpointStore : Type 0 where
  pub rows : Dict Row
  pub approvals : Dict (Dict String)

abbrev pub empty : CheckpointStore
empty = record { rows = []; approvals = [] }

abbrev Method : Type 0 → Type 0
Method A = CheckpointStore → CheckpointStore × Result DagError A

abbrev put : String → Row → CheckpointStore → CheckpointStore
put e row s = record s { rows = Dict.set s.rows e row }

-- What reading a row may raise: an error of the store, or one of Python on a body that has not its form.
pub data LoadError : Type 0 where
  refused : DagError → LoadError
  unreadable : ReadError → LoadError

abbrev pub reading : {A : Type 0} → Result ReadError A → Result LoadError A
reading r = attempt r (λ x. err (unreadable x)) ok

abbrev is_schema : Json → Bool
is_schema (text s) = str_eq s schema
is_schema _ = false

-- The checkpoint of a body whose lease is replaced by a new one, with its heartbeat kept.
leased : String → ℕ → ℕ → Json → Result ReadError Checkpoint
leased owner token expires payload = do
  f ← as_fields "body" payload
  old ← at as_fields f "lease"
  heartbeat ← at_or (number 0) (λ k v. ok v) old "heartbeat_at_ms"
  checkpoint_from_body (
      object (
        set_field "lease"
          (object (
            field "owner_id" (text owner) (
              field "fence_token" (number token) (
                field "expires_at_ms" (number expires)
                  (field "heartbeat_at_ms" heartbeat no_fields)))))
          f))

module _ (lower : String → String) (sha256_hex : Json → String) where
  abbrev pub record_digest : Checkpoint → String
  record_digest c = sha256_hex (body c)

  abbrev row_of : Checkpoint → ℕ → Row
  row_of c f = record {
    plan_digest = c.plan_digest;
    fence_token = f;
    record_digest = record_digest c;
    body = body c;
  }

  unfoldable pub create : Checkpoint → Method (Unit {0})
  create c s =
      and_then (s, assert_no_secret_material lower (body c))
        λ _ s.
          maybe (Dict.get s.rows c.execution_id)
            (put c.execution_id (row_of c c.lease.fence_token) s, ok tt)
            (λ row. (s, err (store_error plan_schema_invalid "duplicate execution")))

  checked : Row → Result LoadError Checkpoint
  checked row = do
    f ← reading (as_fields "body" row.body)
    require (maybe (get_field f "schema_version") false is_schema)
        (refused (store_error checkpoint_schema_unsupported "state schema"))
    c ← reading (checkpoint_from_body row.body)
    require (str_eq (record_digest c) row.record_digest)
        (refused (store_error checkpoint_tampered "record digest"))
    ok c

  pub load : String → CheckpointStore → Result LoadError Checkpoint
  load e s =
      maybe (Dict.get s.rows e)
        (err (refused (store_error checkpoint_tampered "unknown execution"))) checked

  -- The update of a row that `save` found. It keeps the column of the plan's digest.
  unfoldable pub save_row : Checkpoint → ℕ → Row → Method (Unit {0})
  save_row c f row s =
      if ltb f row.fence_token
      then (s, err (store_error lease_fence_stale "stale fence token"))
      else (put c.execution_id (record (row_of c f) { plan_digest = row.plan_digest }) s, ok tt)

  unfoldable pub save : Checkpoint → ℕ → Method (Unit {0})
  save c fence_token s =
      and_then (s, assert_no_secret_material lower (body c))
        λ _ s.
          maybe (Dict.get s.rows c.execution_id)
            (s, err (store_error checkpoint_tampered "unknown execution"))
            (λ row. save_row c fence_token row s)

  grant : String → String → ℕ → Row → CheckpointStore → CheckpointStore × Result LoadError Lease
  grant e owner expires row s =
      let token = row.fence_token + 1 in
      attempt (leased owner token expires row.body) (λ x. (s, err (unreadable x)))
        (λ c. (put e (record (row_of c token) { plan_digest = row.plan_digest }) s, ok c.lease))

  pub acquire_lease :
      String → String → ℕ → CheckpointStore → CheckpointStore × Result LoadError Lease
  acquire_lease e owner expires s =
      maybe (Dict.get s.rows e)
        (s, err (refused (store_error checkpoint_tampered "unknown execution")))
        (λ row. grant e owner expires row s)

-- The nonces of an approval that are consumed.
abbrev nonces : String → CheckpointStore → Dict String
nonces a s = maybe (Dict.get s.approvals a) [] (λ d. d)

pub approval_holder : String → String → CheckpointStore → Option String
approval_holder a nonce s = Dict.get (nonces a s) nonce

pub consume_approval : String → String → String → CheckpointStore → CheckpointStore × Bool
consume_approval a nonce e s =
    maybe (approval_holder a nonce s)
      (record s { approvals = Dict.set s.approvals a (Dict.set (nonces a s) nonce e) }, true)
      (λ holder. (s, false))

abbrev Leaves : {A : Type 0} → (CheckpointStore → Type 0) → CheckpointStore × A → Type 0
Leaves P t = P t.0

-- What the engines of all processes do with a store.
pub data Call : Type 0 where
  create_call : Checkpoint → Call
  save_call : Checkpoint → ℕ → Call
  lease_call : String → String → ℕ → Call
  consume_call : String → String → String → Call

module _ (lower : String → String) (sha256_hex : Json → String) where
  unfoldable pub apply : Call → CheckpointStore → CheckpointStore
  apply (create_call c) s = (create lower sha256_hex c s).0
  apply (save_call c f) s = (save lower sha256_hex c f s).0
  apply (lease_call e owner expires) s = (acquire_lease lower sha256_hex e owner expires s).0
  apply (consume_call a nonce e) s = (consume_approval a nonce e s).0

  unfoldable pub apply_all : List Call → CheckpointStore → CheckpointStore
  apply_all [] s = s
  apply_all (c ∷ cs) s = apply_all cs (apply c s)
