-- ===== src/Mutation/Kinds.antt =====
-- The mutation enums of src/hermes_mcp_bridge/v2/enums.py and the error of v2/errors.py.
use hermes_mcp_bridge.Base.{Bool, true, false, String}

pub data MutationOutcome : Type 0 where
  pending committed failed_clean ambiguous denied : MutationOutcome

unfoldable pub is_terminal : MutationOutcome → Bool
is_terminal pending = false
is_terminal _ = true

unfoldable pub requires_reconciliation : MutationOutcome → Bool
requires_reconciliation ambiguous = true
requires_reconciliation _ = false

unfoldable pub allows_new_attempt : MutationOutcome → Bool
allows_new_attempt failed_clean = true
allows_new_attempt _ = false

pub data IdempotencyStatus : Type 0 where
  new replayed in_progress : IdempotencyStatus

unfoldable pub executes_provider_call : IdempotencyStatus → Bool
executes_provider_call new = true
executes_provider_call _ = false

pub data ApprovalState : Type 0 where
  pending consumed expired revoked : ApprovalState

-- `is_usable`
unfoldable pub is_usable : ApprovalState → Bool
is_usable ApprovalState.pending = true
is_usable _ = false

unfoldable pub is_consumed : ApprovalState → Bool
is_consumed consumed = true
is_consumed _ = false

pub data WriteCapabilityId : Type 0 where
  branch pr merge : WriteCapabilityId

pub data MutationReasonCode : Type 0 where
  repository_out_of_scope unknown_mutation mutation_not_registered destructive_operation_forbidden :
      MutationReasonCode
  write_capability_not_ready write_capability_mismatch read_capability_cannot_mutate :
      MutationReasonCode
  permission_superset administration_permission_present : MutationReasonCode
  approval_missing approval_unknown approval_expired approval_already_consumed : MutationReasonCode
  approval_digest_mismatch approval_scope_mismatch approver_not_distinct : MutationReasonCode
  idempotent_replay operation_in_progress reconciliation_required precondition_drift :
      MutationReasonCode
  ref_already_exists : MutationReasonCode
  merge_not_permitted merge_target_default_branch pull_request_not_mergeable : MutationReasonCode
  required_checks_not_green protection_state_unverifiable required_reviews_not_satisfied :
      MutationReasonCode
  audit_record_unwritable redaction_unproven : MutationReasonCode
  invalid_ref_name invalid_arguments : MutationReasonCode

pub data MutationStage : Type 0 where
  scope registry policy credential approval idempotency precondition_revalidation : MutationStage
  write_ahead_audit provider_call read_back result_shaping : MutationStage

-- `MutationError` and its subclasses: the class, the reason, the stage and the detail.
pub data ErrorClass : Type 0 where
  mutation_denied_error idempotency_conflict_error concurrency_drift_error : ErrorClass
  approval_error digest_mismatch_error : ErrorClass

pub record MutationError : Type 0 where
  pub class : ErrorClass
  pub reason : MutationReasonCode
  pub stage : MutationStage
  pub detail : String

abbrev pub deny : MutationReasonCode → MutationStage → String → MutationError
deny r s d = record { class = mutation_denied_error; reason = r; stage = s; detail = d }
