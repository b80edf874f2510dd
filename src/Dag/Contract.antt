-- ===== src/Dag/Contract.antt =====
-- The vocabulary of src/hermes_mcp_bridge/v2/dag_contract.py: reasons, statuses and policies.
use hermes_mcp_bridge.Base.{Bool, String, ℕ, ◌==◌}

pub data PlanReason : Type 0 where
  plan_schema_invalid plan_unknown_field plan_duplicate_node plan_cycle_detected : PlanReason
  plan_self_dependency plan_unknown_dependency plan_duplicate_dependency plan_unreachable_node :
      PlanReason
  plan_depth_exceeded plan_fanout_exceeded plan_budget_exceeded plan_tool_unknown : PlanReason
  plan_tool_not_projected plan_scope_denied plan_arg_invalid plan_idempotency_missing : PlanReason
  plan_compensation_undeclared binding_edge_not_declared binding_source_unshaped : PlanReason
  binding_field_unknown binding_type_mismatch binding_target_type_mismatch : PlanReason
  binding_size_exceeded binding_control_field_forbidden binding_runtime_reject : PlanReason
  transform_op_unknown transform_type_mismatch transform_output_too_large policy_missing :
      PlanReason
  policy_denied approval_missing approval_digest_mismatch approval_expired : PlanReason
  approval_scope_insufficient approval_already_consumed approval_operation_digest_uncovered :
      PlanReason
  upstream_abort upstream_failed upstream_indeterminate provider_unavailable deadline_exceeded :
      PlanReason
  budget_exhausted checkpoint_tampered checkpoint_schema_unsupported plan_digest_mismatch :
      PlanReason
  lease_fence_stale unsafe_compensation dag_disabled : PlanReason

abbrev pub reason_value : PlanReason → String
reason_value plan_schema_invalid = "PLAN_SCHEMA_INVALID"
reason_value plan_unknown_field = "PLAN_UNKNOWN_FIELD"
reason_value plan_duplicate_node = "PLAN_DUPLICATE_NODE"
reason_value plan_cycle_detected = "PLAN_CYCLE_DETECTED"
reason_value plan_self_dependency = "PLAN_SELF_DEPENDENCY"
reason_value plan_unknown_dependency = "PLAN_UNKNOWN_DEPENDENCY"
reason_value plan_duplicate_dependency = "PLAN_DUPLICATE_DEPENDENCY"
reason_value plan_unreachable_node = "PLAN_UNREACHABLE_NODE"
reason_value plan_depth_exceeded = "PLAN_DEPTH_EXCEEDED"
reason_value plan_fanout_exceeded = "PLAN_FANOUT_EXCEEDED"
reason_value plan_budget_exceeded = "PLAN_BUDGET_EXCEEDED"
reason_value plan_tool_unknown = "PLAN_TOOL_UNKNOWN"
reason_value plan_tool_not_projected = "PLAN_TOOL_NOT_PROJECTED"
reason_value plan_scope_denied = "PLAN_SCOPE_DENIED"
reason_value plan_arg_invalid = "PLAN_ARG_INVALID"
reason_value plan_idempotency_missing = "PLAN_IDEMPOTENCY_MISSING"
reason_value plan_compensation_undeclared = "PLAN_COMPENSATION_UNDECLARED"
reason_value binding_edge_not_declared = "BINDING_EDGE_NOT_DECLARED"
reason_value binding_source_unshaped = "BINDING_SOURCE_UNSHAPED"
reason_value binding_field_unknown = "BINDING_FIELD_UNKNOWN"
reason_value binding_type_mismatch = "BINDING_TYPE_MISMATCH"
reason_value binding_target_type_mismatch = "BINDING_TARGET_TYPE_MISMATCH"
reason_value binding_size_exceeded = "BINDING_SIZE_EXCEEDED"
reason_value binding_control_field_forbidden = "BINDING_CONTROL_FIELD_FORBIDDEN"
reason_value binding_runtime_reject = "BINDING_RUNTIME_REJECT"
reason_value transform_op_unknown = "TRANSFORM_OP_UNKNOWN"
reason_value transform_type_mismatch = "TRANSFORM_TYPE_MISMATCH"
reason_value transform_output_too_large = "TRANSFORM_OUTPUT_TOO_LARGE"
reason_value policy_missing = "POLICY_MISSING"
reason_value policy_denied = "POLICY_DENIED"
reason_value approval_missing = "APPROVAL_MISSING"
reason_value approval_digest_mismatch = "APPROVAL_DIGEST_MISMATCH"
reason_value approval_expired = "APPROVAL_EXPIRED"
reason_value approval_scope_insufficient = "APPROVAL_SCOPE_INSUFFICIENT"
reason_value approval_already_consumed = "APPROVAL_ALREADY_CONSUMED"
reason_value approval_operation_digest_uncovered = "APPROVAL_OPERATION_DIGEST_UNCOVERED"
reason_value upstream_abort = "UPSTREAM_ABORT"
reason_value upstream_failed = "UPSTREAM_FAILED"
reason_value upstream_indeterminate = "UPSTREAM_INDETERMINATE"
reason_value provider_unavailable = "PROVIDER_UNAVAILABLE"
reason_value deadline_exceeded = "DEADLINE_EXCEEDED"
reason_value budget_exhausted = "BUDGET_EXHAUSTED"
reason_value checkpoint_tampered = "CHECKPOINT_TAMPERED"
reason_value checkpoint_schema_unsupported = "CHECKPOINT_SCHEMA_UNSUPPORTED"
reason_value plan_digest_mismatch = "PLAN_DIGEST_MISMATCH"
reason_value lease_fence_stale = "LEASE_FENCE_STALE"
reason_value unsafe_compensation = "COMPENSATION_UNSAFE"
reason_value dag_disabled = "DAG_DISABLED"

pub data NodeKind : Type 0 where
  tool transform : NodeKind

pub data FailurePolicy : Type 0 where
  fail_fast continue_independent : FailurePolicy

pub data RollbackPolicy : Type 0 where
  no_rollback compensate_on_failure compensate_on_abort : RollbackPolicy

pub data OnFailure : Type 0 where
  abort_plan isolate_branch dead_letter_node : OnFailure

pub data NodeStatus : Type 0 where
  pending ready dispatched success failed denied skipped indeterminate compensation_pending :
      NodeStatus
  compensated compensation_skipped compensation_unsafe compensation_failed : NodeStatus
  compensation_indeterminate dead_letter : NodeStatus

abbrev pub status_value : NodeStatus → String
status_value pending = "PENDING"
status_value ready = "READY"
status_value dispatched = "DISPATCHED"
status_value success = "SUCCESS"
status_value failed = "FAILED"
status_value denied = "DENIED"
status_value skipped = "SKIPPED"
status_value indeterminate = "INDETERMINATE"
status_value compensation_pending = "COMPENSATION_PENDING"
status_value compensated = "COMPENSATED"
status_value compensation_skipped = "COMPENSATION_SKIPPED"
status_value compensation_unsafe = "COMPENSATION_UNSAFE"
status_value compensation_failed = "COMPENSATION_FAILED"
status_value compensation_indeterminate = "COMPENSATION_INDETERMINATE"
status_value dead_letter = "DEAD_LETTER"

abbrev pub status_index : NodeStatus → ℕ
status_index pending = 0
status_index ready = 1
status_index dispatched = 2
status_index success = 3
status_index failed = 4
status_index denied = 5
status_index skipped = 6
status_index indeterminate = 7
status_index compensation_pending = 8
status_index compensated = 9
status_index compensation_skipped = 10
status_index compensation_unsafe = 11
status_index compensation_failed = 12
status_index compensation_indeterminate = 13
status_index dead_letter = 14

-- `a is b`
abbrev pub is_status : NodeStatus → NodeStatus → Bool
is_status a b = status_index a == status_index b

pub data PlanStatus : Type 0 where
  plan_completed plan_partial plan_failed plan_aborted plan_indeterminate plan_dead_letter :
      PlanStatus

abbrev pub plan_status_value : PlanStatus → String
plan_status_value plan_completed = "COMPLETED"
plan_status_value plan_partial = "PARTIAL"
plan_status_value plan_failed = "FAILED"
plan_status_value plan_aborted = "ABORTED"
plan_status_value plan_indeterminate = "INDETERMINATE"
plan_status_value plan_dead_letter = "DEAD_LETTER"

-- `DagError` and its subclasses, by the reason and the detail.
pub record DagError : Type 0 where
  pub reason : PlanReason
  pub detail : String
