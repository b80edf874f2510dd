-- ===== src/Mutation/Records.antt =====
-- The data of src/hermes_mcp_bridge/v2/mutation_idempotency.py: leases, records, decisions and requests, with
-- what is read off them. A moment is a number of microseconds, the resolution of a `datetime`, already in
-- UTC; a shaped result is a dictionary of values of a type `V` that the store never looks into.
use Prim.Native.String.{◌++◌ as ◌<>◌}
use hermes_mcp_bridge.Base.{
  ℕ, ◌*◌, Bool, true, false, String, Option, none, some, Result, ok, err, leb, str_eq,
  if◌then◌else◌, last_segment, strip_prefix, ◌>>=◌,
}
use hermes_mcp_bridge.Base.Dict.{Dict}
use hermes_mcp_bridge.Mutation.Kinds.{
  MutationOutcome, IdempotencyStatus, MutationReasonCode, MutationStage, MutationError,
  precondition_drift, idempotency_conflict_error, concurrency_drift_error, idempotency, pending,
  ambiguous, denied,
}
use hermes_mcp_bridge.Mutation.Grammar.{require_digest, require_repository, require_sha}

abbrev pub conflict : MutationReasonCode → String → MutationError
conflict r d = record {
  class = idempotency_conflict_error;
  reason = r;
  stage = idempotency;
  detail = d;
}

abbrev pub microseconds : ℕ → ℕ
microseconds s = s * 1000000

-- `assert_no_precondition_drift`
pub assert_no_precondition_drift :
    String → Option String → MutationStage → Result MutationError (Unit {0})
unfolding require_sha
assert_no_precondition_drift expected observed stage = do
  sha ← require_sha expected "expected_sha"
  let drift = err (record {
    class = concurrency_drift_error;
    reason = precondition_drift;
    stage = stage;
    detail = "";
  })
  elim observed [ none ↦ drift | some seen ↦ if str_eq seen expected then ok tt else drift ]

-- The last dotted segment without `create_`, and `merge` for every operation that begins `merge_`.
unfoldable pub operation_family : String → String
unfolding last_segment strip_prefix
operation_family operation =
    let tail = last_segment b'.' operation in
    elim (strip_prefix "create_" tail) [
      | some rest ↦ rest
      | none ↦ elim (strip_prefix "merge_" tail) [ some _ ↦ "merge" | none ↦ tail ]
    ]

pub data LockType : Type 0 where
  intent_to_write write_exclusive : LockType

pub lock_type_for : String → LockType
unfolding operation_family
lock_type_for operation =
    if str_eq (operation_family operation) "merge" then write_exclusive else intent_to_write

pub record MutationLease : Type 0 where
  pub repository : String
  pub operation : String
  pub target : String
  pub owner : String
  pub acquired_at : ℕ
  pub expires_at : ℕ

-- f"{repository}#{family}#{target}"
unfoldable pub lock_key : MutationLease → String
unfolding operation_family
lock_key l = l.repository <> ("#" <> (operation_family l.operation <> ("#" <> l.target)))

unfoldable pub is_expired : MutationLease → ℕ → Bool
is_expired l now = leb l.expires_at now

pub record IdempotencyRecord (V : Type 0) : Type 0 where
  pub idempotency_key : String
  pub principal : String
  pub repository : String
  pub operation : String
  pub operation_digest : String
  pub outcome : MutationOutcome
  pub created_at : ℕ
  pub updated_at : ℕ
  pub lease : Option MutationLease
  pub result : Option (Dict V)
  pub reason : Option MutationReasonCode

pub record IdempotencyDecision (V : Type 0) : Type 0 where
  pub status : IdempotencyStatus
  pub entry : IdempotencyRecord V
  pub lease : Option MutationLease

pub record IdempotencyStore (V : Type 0) : Type 0 where
  pub lease_seconds : ℕ
  pub records : Dict (IdempotencyRecord V)
  pub leases : Dict String

-- The arguments of `begin`.
pub record Request : Type 0 where
  pub idempotency_key : String
  pub principal : String
  pub repository : String
  pub operation : String
  pub operation_digest : String
  pub target : String
  pub now : ℕ

abbrev pub is_pending : MutationOutcome → Bool
is_pending pending = true
is_pending _ = false

abbrev pub is_denied : MutationOutcome → Bool
is_denied denied = true
is_denied _ = false

abbrev pub is_ambiguous : MutationOutcome → Bool
is_ambiguous ambiguous = true
is_ambiguous _ = false

-- The validation before the lock is taken.
unfoldable pub validate : Request → Result MutationError (Unit {0})
unfolding require_digest require_repository
validate q = do
  _ ← require_digest q.idempotency_key "idempotency_key"
  _ ← require_digest q.operation_digest "operation_digest"
  _ ← require_repository q.repository
  ok tt
