-- ===== src/Mutation/Approvals/Tests.antt =====
-- An approval of one merge, and the theorems at it.
use hermes_mcp_bridge.Base.Dict
use hermes_mcp_bridge.Base.Dict.{Dict, get, set}
use hermes_mcp_bridge.Base.{
  arith, ◌↔◌, is_ok, maybe, List, String, [], ends_with, false, none, ok, refl, some, true, ℕ, ◌+◌,
  ◌∷◌, ◌≡◌, ◌≤◌,
}
use hermes_mcp_bridge.Mutation.Grammar.{
  is_operation, is_repository, is_identifier, require_operation, require_identifier,
  require_repository, require_digest, is_hex,
}
use hermes_mcp_bridge.Mutation.Approvals.Binding.{Permits, consume_exactly, spent_now}
use hermes_mcp_bridge.Base.{◌⊎◌, eq_iff, arith}
use hermes_mcp_bridge.Mutation.Kinds.{ApprovalState, is_consumed, is_usable, merge}
use hermes_mcp_bridge.Mutation.Approvals.{
  ApprovalRecord, OperationDescriptor, OperationPayload, check_approved, check_descriptor,
  compute_operation_digest, verify_and_consume, consume_record, is_expired, issue, purge_expired,
  requires_distinct_approver,
}
use hermes_mcp_bridge.Mutation.Approvals.Spec.{
  Call, Trace, absent, apply_all, calls-IsRefining, consume_call, count, grants, issue_call, phase,
  purge_call, spent_count,
}

abbrev write : OperationDescriptor ℕ
write = record {
  operation = "github.merge_pr";
  capability = merge;
  repository = "octo/repo";
  arguments = ("number", 7) ∷ [];
  preconditions = record {
    base_sha = none;
    expected_head_sha = some "0000000000000000000000000000000000000000";
    required_checks_policy = none;
  };
  policy_version = "p1";
  registry_snapshot_hash = "0000000000000000000000000000000000000000000000000000000000000000";
}

abbrev given : ApprovalRecord
given = record {
  approval_id = "a1";
  principal = "alice";
  approver = "bob";
  operation_digest = "github.merge_pr";
  repository = "octo/repo";
  operation = "github.merge_pr";
  nonce = "n";
  expires_at = 900;
  trust_context = "t";
  state = ApprovalState.pending;
  consumed_at = none;
}

abbrev by_operation : OperationPayload ℕ → String
by_operation p = p.operation

abbrev calls : List (Call ℕ)
calls =
    issue_call given
    ∷ consume_call "a1" write "mallory" 10
    ∷ consume_call "a1" write "alice" 10
    ∷ consume_call "a1" write "alice" 11
    ∷ purge_call 1000
    ∷ []

-- Only the second attempt gets the authority.
program : Unit {0}
unfolding issue verify_and_consume consume_record check_approved compute_operation_digest
    requires_distinct_approver purge_expired is_usable is_consumed is_expired get set ends_with
program = tt

checks : check_descriptor (λ a. true) write ≡ ok tt
unfolding check_descriptor is_operation is_repository is_identifier require_operation
    require_identifier require_repository require_digest is_hex
checks = refl

granted_once : grants by_operation "a1" calls [] ≡ false ∷ false ∷ true ∷ false ∷ false ∷ []
unfolding program
granted_once = refl

calls-IsRefining_example :
    Trace absent (grants by_operation "a1" calls []) (phase "a1" (apply_all by_operation calls []))
    × (count (grants by_operation "a1" calls []) + 0
        ≡ spent_count (phase "a1" (apply_all by_operation calls [])))
    × (count (grants by_operation "a1" calls []) ≤ 1)
unfolding get
calls-IsRefining_example = calls-IsRefining by_operation "a1" calls []

-- A later write to another head is refused under the approval of the first.
abbrev moved : OperationDescriptor ℕ
moved = record write {
  preconditions = record {
    base_sha = none;
    expected_head_sha = some "1111111111111111111111111111111111111111";
    required_checks_policy = none;
  };
}

abbrev by_head : OperationPayload ℕ → String
by_head p = maybe (Dict.get p.preconditions "expected_head_sha") "" (λ h. h)

abbrev bound : ApprovalRecord
bound = record given { operation_digest = "0000000000000000000000000000000000000000" }

consume_exactly_example :
    ((is_ok (verify_and_consume by_head "a1" moved "alice" 10 (("a1", bound) ∷ [])).1 ≡ true)
      ↔ (Permits bound moved "alice" 10 × (moved ≡ write)))
    × ((verify_and_consume by_head "a1" moved "alice" 10 (("a1", bound) ∷ [])).1
          ≡ ok (spent_now bound 10)
        ⊎ (is_ok (verify_and_consume by_head "a1" moved "alice" 10 (("a1", bound) ∷ [])).1 ≡ false))
unfolding program
consume_exactly_example =
    consume_exactly by_head "a1" moved write "alice" 10 (("a1", bound) ∷ []) bound
      (λ same. absurd (
        ground (
          arith,
          (eq_iff "1111111111111111111111111111111111111111"
                "0000000000000000000000000000000000000000").1
              same,
        )))
      refl refl
