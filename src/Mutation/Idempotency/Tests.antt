-- ===== src/Mutation/Idempotency/Tests.antt =====
-- Runs of a small store, and the theorems at them.
use hermes_mcp_bridge.Base.Dict.{Dict, by_key}
use hermes_mcp_bridge.Base.Dict
use hermes_mcp_bridge.Base.{
  maybe, ◌↔◌, List, String, [], arith, eq_iff, err, last_segment, none, ok, refl, some,
  strip_prefix, true, ℕ, ◌+◌, ◌∷◌, ◌≡◌,
}
use hermes_mcp_bridge.Mutation.Kinds.{
  allows_new_attempt, branch, committed, executes_provider_call, new, pending,
  reconciliation_required, ref_already_exists,
}
use hermes_mcp_bridge.Mutation.Grammar.{is_hex, is_repository, require_digest, require_repository}
use hermes_mcp_bridge.Mutation.Records.{
  IdempotencyDecision, IdempotencyRecord, IdempotencyStore, MutationLease, Request, conflict,
  is_expired, lock_key, operation_family, validate,
}
use hermes_mcp_bridge.Mutation.Idempotency.{
  Call, apply, apply_all, begin, begin_call, begin_locked, claim, commit, commit_call, contend,
  contend_with, create, decide_existing, decide_outcome, decide_pending, fail_call, fail_clean,
  get_record, live_lease, mark_ambiguous, new_lease, purge_call, purge_items, purge_terminal,
  reconcile, refuse, register, resolve, resolve_entry,
}
use hermes_mcp_bridge.Mutation.Idempotency.Key.{
  Scope, compute_idempotency_key, compute_idempotency_key-injective,
}
use hermes_mcp_bridge.Mutation.Idempotency.Exclusion.{pending_exclusive}
use hermes_mcp_bridge.Mutation.Idempotency.Replay.{frozen_never_retried, verdict}
use hermes_mcp_bridge.Mutation.Idempotency.Attempts.{
  IsAttempt, allows, answer, begin_write_ahead, lost_lock_granted,
}

program : Unit {0}
unfolding create begin begin_locked claim contend contend_with refuse register decide_existing
    decide_outcome decide_pending live_lease is_expired resolve resolve_entry reconcile
    purge_terminal purge_items commit fail_clean mark_ambiguous get_record apply apply_all lock_key
    operation_family last_segment strip_prefix validate require_digest require_repository is_hex
    is_repository Dict.get Dict.set Dict.pop executes_provider_call allows_new_attempt
program = tt

abbrev hex : String
hex = "0123456789abcdef0123456789abcdef0123456789abcdef0123456789abcdef"

abbrev other_hex : String
other_hex = "1123456789abcdef0123456789abcdef0123456789abcdef0123456789abcdef"

abbrev request : String → ℕ → Request
request key now = record {
  idempotency_key = key;
  principal = "alice";
  repository = "octo/repo";
  operation = "github.create_branch";
  operation_digest = hex;
  target = "feature";
  now = now;
}

abbrev started : IdempotencyStore String
started = record { lease_seconds = 2; records = []; leases = [] }

families :
    (operation_family "github.create_branch" ≡ "branch")
    × (operation_family "github.merge_pr" ≡ "merge")
    × (operation_family "github.update_file" ≡ "update_file")
unfolding program
families = (refl, refl, refl)

lock_keys : lock_key (new_lease (request hex 0) started) ≡ "octo/repo#branch#feature"
unfolding program
lock_keys = refl

first_request : answer (begin (request hex 0) started).1 ≡ some new
unfolding program
first_request = refl

abbrev lease_of : ℕ → MutationLease
lease_of now = record {
  repository = "octo/repo";
  operation = "github.create_branch";
  target = "feature";
  owner = "alice";
  acquired_at = now;
  expires_at = now + 2000000;
}

abbrev pending_record : String → IdempotencyRecord String
pending_record key = record {
  idempotency_key = key;
  principal = "alice";
  repository = "octo/repo";
  operation = "github.create_branch";
  operation_digest = hex;
  outcome = pending;
  created_at = 0;
  updated_at = 0;
  lease = some (lease_of 0);
  result = none;
  reason = none;
}

abbrev committed_record : IdempotencyRecord String
committed_record = record (pending_record hex) {
  outcome = committed;
  updated_at = 5;
  lease = none;
  result = some (("ref", "feature") ∷ []);
}

abbrev commits : List (Call String)
commits = begin_call (request hex 0) ∷ commit_call hex (("ref", "feature") ∷ []) 5 ∷ []

abbrev later : List (Call String)
later =
    begin_call (request other_hex 9)
    ∷ fail_call other_hex ref_already_exists 10
    ∷ purge_call 20 1
    ∷ []

valid_request : validate (request hex 0) ≡ ok tt
unfolding program
valid_request = refl

committed_run : get_record hex (apply_all commits started) ≡ some committed_record
unfolding program
committed_run = refl

frozen_never_retried_example :
    begin (request hex 0) (apply_all later (apply_all commits started))
    ≡ (apply_all later (apply_all commits started), verdict committed_record)
frozen_never_retried_example =
    frozen_never_retried 2 started commits later committed_record (request hex 0)
      (unfold create in refl) committed_run (λ e. cc) (λ e. cc) (tt, (tt, (refl, tt))) valid_request

pending_run :
    get_record hex (apply_all (begin_call (request hex 0) ∷ []) started) ≡ some (pending_record hex)
unfolding program
pending_run = refl

pending_exclusive_example : hex ≡ hex
pending_exclusive_example =
    pending_exclusive 2 started (begin_call (request hex 0) ∷ []) hex hex (pending_record hex)
      (pending_record hex) (lease_of 0) (lease_of 0) (unfold create in refl) pending_run pending_run
      refl refl refl refl refl

abbrev first_decision : IdempotencyDecision String
first_decision = record { status = new; entry = pending_record hex; lease = some (lease_of 0) }

begin_write_ahead_example :
    (allows (get_record hex started) ≡ true)
    × IsAttempt (request hex 0) first_decision (begin (request hex 0) started).0
unfolding program
begin_write_ahead_example = begin_write_ahead (request hex 0) started first_decision refl refl

abbrev one_pending : IdempotencyStore String
one_pending = (begin (request hex 0) started).0

lost_lock_granted_example :
    ((begin (request other_hex 3000000) one_pending).1
      ≡ err (conflict reconciliation_required "lock_key"))
    × (answer
          (begin (request other_hex 3000001) (begin (request other_hex 3000000) one_pending).0).1
        ≡ some new)
unfolding program
lost_lock_granted_example =
    lost_lock_granted (request other_hex 3000000) 3000001 one_pending hex (pending_record hex) refl
      refl refl (λ e. ground (arith, eq_iff hex other_hex)) refl refl refl

abbrev scope_of : Scope
scope_of = record {
  principal = "alice";
  capability = branch;
  repository = "octo/repo";
  operation = "github.create_branch";
  operation_digest = hex;
  client_key = some "retry-1";
}

abbrev other_scope : Scope
other_scope = record scope_of { client_key = some "retry-2" }

-- A stand-in for the hash that tells the two payloads apart.
abbrev of_client : Dict String → String
of_client d = maybe (Dict.get d "client_key") "" (λ k. k)

key_run : compute_idempotency_key of_client scope_of ≡ ok "retry-1"
unfolding program compute_idempotency_key by_key
key_run = refl

other_key_run : compute_idempotency_key of_client other_scope ≡ ok "retry-2"
unfolding program compute_idempotency_key by_key
other_key_run = refl

compute_idempotency_key-injective_example :
    (◌≡◌ {A = String} "retry-1" "retry-2") ↔ (scope_of ≡ other_scope)
unfolding program by_key
compute_idempotency_key-injective_example =
    compute_idempotency_key-injective of_client scope_of other_scope "retry-1" "retry-2"
      (λ same. absurd (ground (arith, (eq_iff "retry-1" "retry-2").1 same))) key_run other_key_run
