-- ===== src/Mutation/Idempotency.antt =====
-- The write-ahead idempotency and lease store of src/hermes_mcp_bridge/v2/mutation_idempotency.py.
-- The store's lock makes each method one step. A method returns the store, also where it raises.
pub mod Key
pub mod Invariant
pub mod Begin
pub mod Exclusion
pub mod Frame
pub mod Replay
pub mod Attempts
pub mod Tests
use Prim.Native.String.{◌++◌ as ◌<>◌}
use hermes_mcp_bridge.Base.{
  and_then, maybe, ◌&&◌, ◌==◌, ℕ, ◌+◌, ◌*◌, ◌≡◌, Bool, true, false, ◌||◌, String, List, [], ◌∷◌,
  Option, none, some, Result, ok, err, leb, str_eq, if◌then◌else◌, last_segment, strip_prefix,
  ◌>>=◌, not, length, ◌-◌, suc, refl, ltb,
}
use hermes_mcp_bridge.Base.Dict
use hermes_mcp_bridge.Base.Dict.{Dict}
use hermes_mcp_bridge.Mutation.Kinds.{
  MutationOutcome, IdempotencyStatus, MutationReasonCode, MutationStage, ErrorClass, MutationError,
  operation_in_progress, reconciliation_required, idempotent_replay, precondition_drift,
  idempotency_conflict_error, concurrency_drift_error, idempotency, precondition_revalidation,
  pending, committed, failed_clean, ambiguous, denied, new, replayed, in_progress,
}
use hermes_mcp_bridge.Mutation.Grammar.{require_digest, require_repository, require_sha}
use hermes_mcp_bridge.Mutation.Records.{
  IdempotencyDecision, IdempotencyRecord, IdempotencyStore, MutationLease, Request, conflict,
  is_ambiguous, is_expired, is_pending, lock_key, microseconds, validate,
}

-- The calls of a client, with their moments.
pub data Call (V : Type 0) : Type 0 where
  begin_call : Request → Call V
  commit_call : String → Dict V → ℕ → Call V
  fail_call : String → MutationReasonCode → ℕ → Call V
  ambiguous_call : String → ℕ → Call V
  reconcile_call : String → Bool → Option (Dict V) → ℕ → Call V
  purge_call : ℕ → ℕ → Call V

abbrev pub Method : Type 0 → Type 0 → Type 0
Method V A = IdempotencyStore V → IdempotencyStore V × Result MutationError A

module _ {V : Type 0} where
  -- `__init__`
  pub create : ℕ → Option (IdempotencyStore V)
  create seconds =
      if seconds == 0
      then none
      else some (record { lease_seconds = seconds; records = []; leases = [] })

  abbrev save : String → IdempotencyRecord V → IdempotencyStore V → IdempotencyStore V
  save key r s = record s { records = Dict.set s.records key r }

  abbrev free : Option MutationLease → IdempotencyStore V → IdempotencyStore V
  free o s = record s { leases = maybe o s.leases (λ l. Dict.pop s.leases (lock_key l)) }

  -- `replace(…)` where the lease is lost and the state of the provider is unknown
  abbrev lost : IdempotencyRecord V → ℕ → IdempotencyRecord V
  lost r moment = record r {
    outcome = ambiguous;
    reason = some reconciliation_required;
    updated_at = moment;
    lease = none;
  }

  -- The lease of a record, if there is one that has not expired.
  pub live_lease : IdempotencyRecord V → ℕ → Option MutationLease
  live_lease r moment = maybe r.lease none (λ l. if is_expired l moment then none else some l)

  pub get_record : String → IdempotencyStore V → Option (IdempotencyRecord V)
  get_record key s = Dict.get s.records key

  -- A pending record, by its live lease.
  decide_pending :
      Option MutationLease → IdempotencyRecord V → ℕ → Method V (Option (IdempotencyDecision V))
  decide_pending (some l) existing moment s =
      (s, ok (some (record { status = in_progress; entry = existing; lease = some l })))
  decide_pending none existing moment s = (
    free existing.lease (save existing.idempotency_key (lost existing moment) s),
    err (conflict reconciliation_required "lease_lost"),
  )

  -- `_decide_existing`, by the outcome of the record
  decide_outcome :
      MutationOutcome → IdempotencyRecord V → ℕ → Method V (Option (IdempotencyDecision V))
  decide_outcome committed existing moment s =
      (s, ok (some (record { status = replayed; entry = existing; lease = none })))
  decide_outcome denied existing moment s = (s, err (conflict idempotent_replay "denied"))
  decide_outcome ambiguous existing moment s =
      (s, err (conflict reconciliation_required "ambiguous"))
  decide_outcome pending existing moment s =
      decide_pending (live_lease existing moment) existing moment s
  decide_outcome failed_clean existing moment s = (free existing.lease s, ok none)

  pub decide_existing : IdempotencyRecord V → ℕ → Method V (Option (IdempotencyDecision V))
  decide_existing existing moment = decide_outcome existing.outcome existing moment

  -- The refusal for a lock that a pending record holds; the first argument is its live lease.
  refuse : Option MutationLease → String → IdempotencyRecord V → ℕ → Method V (Unit {0})
  refuse (some _) holder held moment s = (s, err (conflict operation_in_progress "lock_key"))
  refuse none holder held moment s =
      (save holder (lost held moment) s, err (conflict reconciliation_required "lock_key"))

  contend_with : String → Option (IdempotencyRecord V) → ℕ → Method V (Unit {0})
  contend_with holder none moment s = (s, ok tt)
  contend_with holder (some held) moment s =
      if is_pending held.outcome
      then refuse (live_lease held moment) holder held moment s
      else (s, ok tt)

  -- Whether another record holds the lock of `l`: nothing happens if not.
  pub contend : String → MutationLease → ℕ → Method V (Unit {0})
  contend key l moment s =
      maybe (Dict.get s.leases (lock_key l)) (s, ok tt)
        λ holder.
          if str_eq holder key
          then (s, ok tt)
          else contend_with holder (Dict.get s.records holder) moment s

  abbrev new_lease : Request → IdempotencyStore V → MutationLease
  new_lease q s = record {
    repository = q.repository;
    operation = q.operation;
    target = q.target;
    owner = q.principal;
    acquired_at = q.now;
    expires_at = q.now + microseconds s.lease_seconds;
  }

  abbrev new_record : Request → MutationLease → IdempotencyRecord V
  new_record q l = record {
    idempotency_key = q.idempotency_key;
    principal = q.principal;
    repository = q.repository;
    operation = q.operation;
    operation_digest = q.operation_digest;
    outcome = pending;
    created_at = q.now;
    updated_at = q.now;
    lease = some l;
    result = none;
    reason = none;
  }

  -- The last lines of `begin`: the record and the lease are written together.
  register : Request → MutationLease → Method V (IdempotencyDecision V)
  register q l s =
      let r = new_record q l in
      (
        record s {
          records = Dict.set s.records q.idempotency_key r;
          leases = Dict.set s.leases (lock_key l) q.idempotency_key;
        },
        ok (record { status = new; entry = r; lease = some l }),
      )

  claim : Request → Method V (IdempotencyDecision V)
  claim q s =
      let l = new_lease q s in and_then (contend q.idempotency_key l q.now s) (λ _. register q l)

  abbrev decided : Request → Option (IdempotencyDecision V) → Method V (IdempotencyDecision V)
  decided q (some d) s = (s, ok d)
  decided q none s = claim q s

  -- The part of `begin` under the lock.
  pub begin_locked : Request → Method V (IdempotencyDecision V)
  begin_locked q s =
      maybe (get_record q.idempotency_key s) (claim q s)
        λ existing. and_then (decide_existing existing q.now s) (decided q)

  pub begin : Request → Method V (IdempotencyDecision V)
  begin q s = and_then (s, validate q) (λ _. begin_locked q)

  -- `_resolve`, on a record that is there
  resolve_entry :
      String
      → MutationOutcome
      → ℕ
      → Option (Dict V)
      → Option MutationReasonCode
      → IdempotencyRecord V
      → Method V (IdempotencyRecord V)
  resolve_entry key outcome moment result reason r s =
      if is_pending r.outcome
      then (let resolved = record r {
        outcome = outcome;
        updated_at = moment;
        lease = none;
        result = result;
        reason = reason;
      } in
          (save key resolved (free r.lease s), ok resolved))
      else (s, err (conflict idempotent_replay "already_resolved"))

  resolve :
      String
      → MutationOutcome
      → ℕ
      → Option (Dict V)
      → Option MutationReasonCode
      → Method V (IdempotencyRecord V)
  resolve key outcome moment result reason s =
      maybe (get_record key s) (s, err (conflict idempotent_replay "unknown_key"))
        λ r. resolve_entry key outcome moment result reason r s

  pub commit : String → Dict V → ℕ → Method V (IdempotencyRecord V)
  commit key result now = resolve key committed now (some result) none

  pub fail_clean : String → MutationReasonCode → ℕ → Method V (IdempotencyRecord V)
  fail_clean key reason now = resolve key failed_clean now none (some reason)

  pub mark_ambiguous : String → ℕ → Method V (IdempotencyRecord V)
  mark_ambiguous key now = resolve key ambiguous now none (some reconciliation_required)

  abbrev reconciled : IdempotencyRecord V → Bool → Dict V → ℕ → IdempotencyRecord V
  reconciled r true result moment = record r {
    outcome = committed;
    updated_at = moment;
    result = some result;
    reason = none;
  }
  reconciled r false result moment = record r {
    outcome = failed_clean;
    updated_at = moment;
    reason = some reconciliation_required;
  }

  -- `result or {}`
  abbrev or_empty : Option (Dict V) → Dict V
  or_empty none = []
  or_empty (some d) = d

  pub reconcile : String → Bool → Option (Dict V) → ℕ → Method V (IdempotencyRecord V)
  reconcile key observed_committed result now s =
      maybe (get_record key s) (s, err (conflict idempotent_replay "not_ambiguous"))
        λ r.
          if is_ambiguous r.outcome
          then (let resolved = reconciled r observed_committed (or_empty result) now in
              (save key resolved s, ok resolved))
          else (s, err (conflict idempotent_replay "not_ambiguous"))

  -- `record.updated_at <= now - retention`, without a difference below zero
  abbrev purges : ℕ → ℕ → IdempotencyRecord V → Bool
  purges now retention r =
      not (is_pending r.outcome || is_ambiguous r.outcome)
      && leb (r.updated_at + microseconds retention) now

  -- The loop over a copy of the items; the last argument counts the removed.
  purge_items :
      ℕ
      → ℕ
      → Dict (IdempotencyRecord V)
      → Dict (IdempotencyRecord V)
      → ℕ
      → Dict (IdempotencyRecord V) × ℕ
  purge_items now retention [] d n = (d, n)
  purge_items now retention ((k, r) ∷ items) d n =
      purge_items now retention items (if purges now retention r then Dict.pop d k else d)
        (if purges now retention r then n + 1 else n)

  pub purge_terminal : ℕ → ℕ → IdempotencyStore V → IdempotencyStore V × ℕ
  purge_terminal now retention s =
      let (kept, removed) = purge_items now retention s.records s.records 0 in
      (record s { records = kept }, removed)

  pub apply : Call V → IdempotencyStore V → IdempotencyStore V
  apply (begin_call q) s = (begin q s).0
  apply (commit_call k r now) s = (commit k r now s).0
  apply (fail_call k r now) s = (fail_clean k r now s).0
  apply (ambiguous_call k now) s = (mark_ambiguous k now s).0
  apply (reconcile_call k o r now) s = (reconcile k o r now s).0
  apply (purge_call now retention) s = (purge_terminal now retention s).0

  pub apply_all : List (Call V) → IdempotencyStore V → IdempotencyStore V
  apply_all [] s = s
  apply_all (c ∷ cs) s = apply_all cs (apply c s)
