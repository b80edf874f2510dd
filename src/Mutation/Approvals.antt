-- ===== src/Mutation/Approvals.antt =====
-- The descriptor of a write, its digest and the single-use approvals of
-- src/hermes_mcp_bridge/v2/mutation_digest.py. The canonical JSON of the arguments, which may not exist, and
-- the hash of a payload are parameters. Every moment is a number of microseconds in UTC, so `expires_at`
-- cannot lack its zone.
mod Binding
mod Spec
mod Tests
use hermes_mcp_bridge.Base.Dict
use hermes_mcp_bridge.Base.Dict.{Dict, get, set}
use hermes_mcp_bridge.Base.{
  ◌>>◌, ◌>>=◌, Bool, Option, Result, String, [], attempt, ends_with, err, if◌then◌else◌, is_some,
  leb, maybe, none, not, ok, require, some, str_eq, suc, ℕ, ◌&&◌, ◌++◌, ◌>>=◌, ◌||◌, ◌∷◌,
}
use hermes_mcp_bridge.Mutation.Kinds.{
  is_consumed, ApprovalState, MutationError, MutationReasonCode, WriteCapabilityId, approval,
  approval_already_consumed, approval_digest_mismatch, approval_error, approval_expired,
  approval_scope_mismatch, approval_unknown, approver_not_distinct, consumed, deny,
  digest_mismatch_error, expired, invalid_arguments, is_usable, precondition_revalidation, revoked,
}
use hermes_mcp_bridge.Mutation.Grammar.{
  require_digest, require_identifier, require_operation, require_repository, require_sha,
}
use hermes_mcp_bridge.Mutation.Idempotency.Key.{capability_value, payload}

pub record OperationPreconditions : Type 0 where
  pub base_sha : Option String
  pub expected_head_sha : Option String
  pub required_checks_policy : Option String

pub record OperationDescriptor (V : Type 0) : Type 0 where
  pub operation : String
  pub capability : WriteCapabilityId
  pub repository : String
  pub arguments : Dict V
  pub preconditions : OperationPreconditions
  pub policy_version : String
  pub registry_snapshot_hash : String

pub record ApprovalRecord : Type 0 where
  pub approval_id : String
  pub principal : String
  pub approver : String
  pub operation_digest : String
  pub repository : String
  pub operation : String
  pub nonce : String
  pub expires_at : ℕ
  pub trust_context : String
  pub state : ApprovalState
  pub consumed_at : Option ℕ

abbrev pub ApprovalStore : Type 0
ApprovalStore = Dict ApprovalRecord

-- `if value is not None: check(value)`
abbrev pub if_given :
    Option String → (String → Result MutationError (Unit {0})) → Result MutationError (Unit {0})
if_given none check = ok tt
if_given (some v) check = check v

abbrev pub sha_ok : String → String → Result MutationError (Unit {0})
sha_ok detail v = require_sha v detail >>= λ _. ok tt

-- `OperationPreconditions.__post_init__`
unfoldable pub check_preconditions : OperationPreconditions → Result MutationError (Unit {0})
check_preconditions p = do
  require (is_some p.base_sha || is_some p.expected_head_sha)
      (deny invalid_arguments precondition_revalidation "preconditions")
  if_given p.base_sha (sha_ok "base_sha")
  if_given p.expected_head_sha (sha_ok "expected_head_sha")
  if_given p.required_checks_policy (λ v. require_identifier v "required_checks_policy")

-- `OperationDescriptor.__post_init__`, with `_canonical_arguments`
unfoldable pub check_descriptor :
    {V : Type 0} → (Dict V → Bool) → OperationDescriptor V → Result MutationError (Unit {0})
check_descriptor is_canonical d = do
  require_operation d.operation
  _ ← require_repository d.repository
  require (is_canonical d.arguments) (deny invalid_arguments approval "arguments")
  require_identifier d.policy_version "policy"
  _ ← require_digest d.registry_snapshot_hash "registry_snapshot_hash"
  ok tt

-- `ApprovalRecord.__post_init__`
unfoldable pub check_record : ApprovalRecord → Result MutationError (Unit {0})
check_record r = do
  require_identifier r.approval_id "approval_id"
  require_identifier r.principal "principal"
  require_identifier r.approver "approver"
  _ ← require_digest r.operation_digest "operation_digest"
  _ ← require_repository r.repository
  require_operation r.operation
  require_identifier r.nonce "nonce"
  require_identifier r.trust_context "trust_context"

-- `OperationDescriptor.canonical_payload`, by its fields, under the schema's name.
pub record OperationPayload (V : Type 0) : Type 0 where
  pub schema : String
  pub operation : String
  pub capability : String
  pub repository : String
  pub arguments : Dict V
  pub preconditions : Dict String
  pub policy_version : String
  pub registry_snapshot_hash : String

abbrev pub entry : String → Option String → Dict String
entry k none = []
entry k (some v) = (k, v) ∷ []

-- `OperationPreconditions.canonical_payload`
abbrev pub preconditions_payload : OperationPreconditions → Dict String
preconditions_payload p =
    entry "base_sha" p.base_sha
    ++ (entry "expected_head_sha" p.expected_head_sha
        ++ entry "required_checks_policy" p.required_checks_policy)

abbrev pub canonical_payload : {V : Type 0} → OperationDescriptor V → OperationPayload V
canonical_payload d = record {
  schema = "v2.phase3.operation.1";
  operation = d.operation;
  capability = capability_value d.capability;
  repository = d.repository;
  arguments = d.arguments;
  preconditions = preconditions_payload d.preconditions;
  policy_version = d.policy_version;
  registry_snapshot_hash = d.registry_snapshot_hash;
}

-- self.operation.endswith(".merge_pr")
unfoldable pub requires_distinct_approver : {V : Type 0} → OperationDescriptor V → Bool
requires_distinct_approver d = ends_with ".merge_pr" d.operation

unfoldable pub is_expired : ApprovalRecord → ℕ → Bool
is_expired r now = leb r.expires_at now

abbrev pub approval_denied : MutationReasonCode → MutationError
approval_denied r = record { class = approval_error; reason = r; stage = approval; detail = "" }

abbrev pub digest_mismatch : MutationError
digest_mismatch = record {
  class = digest_mismatch_error;
  reason = approval_digest_mismatch;
  stage = approval;
  detail = "";
}

abbrev pub raised :
    {A : Type 0} → MutationError → ApprovalStore → ApprovalStore × Result MutationError A
raised e s = (s, err e)

abbrev pub put_back :
    String → ApprovalRecord → ApprovalState → Option ℕ → ApprovalStore → ApprovalStore
put_back i r state at s = Dict.set s i (record r { state = state; consumed_at = at })

unfoldable pub issue :
    ApprovalRecord → ApprovalStore → ApprovalStore × Result MutationError ApprovalRecord
issue r s =
    if is_usable r.state && not (is_some r.consumed_at)
    then maybe (Dict.get s r.approval_id) (Dict.set s r.approval_id r, ok r)
        (λ _. raised (deny approval_already_consumed approval "duplicate") s)
    else raised (deny approval_already_consumed approval "issue") s

unfoldable pub revoke : String → ApprovalStore → ApprovalStore
revoke i s =
    maybe (Dict.get s i) s
      λ r. if is_usable r.state then put_back i r revoked r.consumed_at s else s

abbrev pub same_scope : {V : Type 0} → ApprovalRecord → OperationDescriptor V → String → Bool
same_scope r d principal =
    str_eq r.repository d.repository
    && str_eq r.operation d.operation
    && str_eq r.principal principal

-- The checks of `verify_and_consume` on the record that the id finds, behind its expiry.
unfoldable pub check_approved :
    {V : Type 0}
    → String
    → OperationDescriptor V
    → String
    → ApprovalRecord
    → Result MutationError (Unit {0})
check_approved digest d principal r = do
  require (str_eq r.operation_digest digest) digest_mismatch
  require (same_scope r d principal) (approval_denied approval_scope_mismatch)
  require (not (requires_distinct_approver d && str_eq r.approver r.principal))
      (approval_denied approver_not_distinct)

unfoldable pub consume_record :
    {V : Type 0}
    → String
    → String
    → OperationDescriptor V
    → String
    → ℕ
    → ApprovalRecord
    → ApprovalStore
    → ApprovalStore × Result MutationError ApprovalRecord
consume_record i digest d principal now r s =
    if is_consumed r.state
    then raised (approval_denied approval_already_consumed) s
    else if not (is_usable r.state)
    then raised (approval_denied approval_unknown) s
    else if is_expired r now
    then raised (approval_denied approval_expired) (put_back i r expired r.consumed_at s)
    else attempt (check_approved digest d principal r) (λ e. raised e s)
        λ _. (
          put_back i r consumed (some now) s,
          ok (record r { state = consumed; consumed_at = some now }),
        )

module _ {V : Type 0} (canonical_hash : OperationPayload V → String) where
  unfoldable pub compute_operation_digest : OperationDescriptor V → String
  compute_operation_digest d = canonical_hash (canonical_payload d)

  unfoldable pub verify_and_consume :
      String
      → OperationDescriptor V
      → String
      → ℕ
      → ApprovalStore
      → ApprovalStore × Result MutationError ApprovalRecord
  verify_and_consume i d principal now s =
      maybe (Dict.get s i) (raised (approval_denied approval_unknown) s)
        λ r. consume_record i (compute_operation_digest d) d principal now r s

-- The pass of `purge_expired` over the items, with the count of those that it turns.
unfoldable pub purge_expired : ℕ → ApprovalStore → ApprovalStore × ℕ
purge_expired now [] = ([], 0)
purge_expired now ((i, r) ∷ s) =
    let rest = purge_expired now s in
    if is_usable r.state && is_expired r now
    then ((i, record r { state = expired }) ∷ rest.0, suc rest.1)
    else ((i, r) ∷ rest.0, rest.1)
