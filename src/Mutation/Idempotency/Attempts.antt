-- ===== src/Mutation/Idempotency/Attempts.antt =====
-- When `begin` lets a provider call be made, and what it has written by then.
use mathlib.Core.Path.{subst}
use hermes_mcp_bridge.Base.Dict
use hermes_mcp_bridge.Base.{
  Bool, Option, Result, String, and_then-eq-ok, ap, arith, eq_iff, err, false, maybe_ind, none, ok,
  ok-injective, refl, some, sym, true, ℕ, ◌∙◌, ◌≡◌, ◌≢◌,
}
use hermes_mcp_bridge.Base.Dict.{Dict, get, get-set_ne, get-set_self, set}
use hermes_mcp_bridge.Mutation.Kinds.{
  IdempotencyStatus, MutationError, MutationOutcome, allows_new_attempt, executes_provider_call,
  failed_clean, new, pending, reconciliation_required,
}
use hermes_mcp_bridge.Mutation.Records.{
  IdempotencyDecision, IdempotencyRecord, IdempotencyStore, MutationLease, Request, conflict,
  is_pending, lock_key, validate,
}
use hermes_mcp_bridge.Mutation.Idempotency.{
  begin, begin_locked, claim, contend, contend_with, decide_existing, decide_outcome,
  decide_pending, decided, free, get_record, live_lease, lost, new_lease, new_record, refuse,
  register, save,
}
use hermes_mcp_bridge.Mutation.Idempotency.Invariant.{HoldsLock}

validate_now : (q : Request) (now : ℕ) → validate (record q { now = now }) ≡ validate q
unfolding validate
validate_now q now = refl

module _ {V : Type 0} where
  -- The state that a new attempt leaves, and the decision that goes with it.
  abbrev pub IsAttempt : Request → IdempotencyDecision V → IdempotencyStore V → Type 0
  IsAttempt q d s =
      (get_record q.idempotency_key s ≡ some d.entry)
      × (d.entry.outcome ≡ pending)
      × (d.entry.lease ≡ d.lease)
      × HoldsLock s.leases q.idempotency_key d.lease

  abbrev pub allows : Option (IdempotencyRecord V) → Bool
  allows none = true
  allows (some r) = allows_new_attempt r.outcome

  register-IsAttempt :
      (q : Request) (l : MutationLease) (s : IdempotencyStore V) (d : IdempotencyDecision V)
      → (register q l s).1 ≡ ok d
      → IsAttempt q d (register q l s).0
  unfolding register get_record
  register-IsAttempt q l s d h = (
    get-set_self s.records q.idempotency_key (new_record q l) ∙ ground arith,
    ground arith,
    ground arith,
    subst (HoldsLock (Dict.set s.leases (lock_key l) q.idempotency_key) q.idempotency_key)
        {x = some l} (ground arith) (get-set_self s.leases (lock_key l) q.idempotency_key),
  )

  claim-IsAttempt :
      (q : Request) (s : IdempotencyStore V) (d : IdempotencyDecision V)
      → (claim q s).1 ≡ ok d
      → IsAttempt q d (claim q s).0
  unfolding claim
  claim-IsAttempt q s d h =
      let l = new_lease q s in
      let (a, done, same) =
        and_then-eq-ok (contend q.idempotency_key l q.now s) (λ _. register q l) h in
      subst (λ t. IsAttempt q d t.0) (sym same)
        (register-IsAttempt q l (contend q.idempotency_key l q.now s).0 d (rw same at h))

  -- The records that the decision on an existing one lets through.
  decide_outcome-none :
      (o : MutationOutcome) (existing : IdempotencyRecord V) (moment : ℕ) (s : IdempotencyStore V)
      → (decide_outcome o existing moment s).1 ≡ ok none
      → o ≡ failed_clean
  unfolding decide_outcome decide_pending
  decide_outcome-none o existing moment s h = ground arith

  decide_outcome-not_new :
      (o : MutationOutcome) (existing : IdempotencyRecord V) (moment : ℕ) (s : IdempotencyStore V)
      {d : IdempotencyDecision V}
      → (decide_outcome o existing moment s).1 ≡ ok (some d)
      → executes_provider_call d.status ≡ false
  unfolding decide_outcome decide_pending executes_provider_call
  decide_outcome-not_new o existing moment s h = ground arith

  -- What a caller is told to do.
  abbrev pub answer : Result MutationError (IdempotencyDecision V) → Option IdempotencyStatus
  answer (ok d) = some d.status
  answer (err e) = none

  refused :
      (q : Request) (s : IdempotencyStore V) (holder : String) (held : IdempotencyRecord V)
      → Dict.get s.records q.idempotency_key ≡ none
      → Dict.get s.leases (lock_key (new_lease q s)) ≡ some holder
      → holder ≢ q.idempotency_key
      → Dict.get s.records holder ≡ some held
      → held.outcome ≡ pending
      → live_lease held q.now ≡ none
      → begin_locked q s
        ≡ (save holder (lost held q.now) s, err (conflict reconciliation_required "lock_key"))
  unfolding begin_locked claim contend contend_with refuse get_record
  refused q s holder held absent lock ne found p lost_lease =
      ground (arith, eq_iff holder q.idempotency_key, ne)

  granted :
      (q : Request) (s : IdempotencyStore V) (holder : String) (other : IdempotencyRecord V)
      → Dict.get s.records q.idempotency_key ≡ none
      → Dict.get s.leases (lock_key (new_lease q s)) ≡ some holder
      → holder ≢ q.idempotency_key
      → Dict.get s.records holder ≡ some other
      → is_pending other.outcome ≡ false
      → answer (begin_locked q s).1 ≡ some new
  unfolding begin_locked claim contend contend_with register get_record
  granted q s holder other absent lock ne found settled =
      ground (arith, eq_iff holder q.idempotency_key, ne)

  lock_same :
      (q : Request) (s : IdempotencyStore V) (again : ℕ)
      → Dict.get s.leases (lock_key (new_lease (record q { now = again }) s))
        ≡ Dict.get s.leases (lock_key (new_lease q s))
  unfolding lock_key
  lock_same q s again = refl

  -- The lock that a lost lease leaves behind: a request that finds the lock of its target held by another
  -- pending write whose lease has expired is refused, since that write must be reconciled first. The
  -- refusal itself is what opens the lock: the same request, repeated, is a new attempt, with no
  -- reconciliation in between.
  pub lost_lock_granted :
      (q : Request) (again : ℕ) (s : IdempotencyStore V) (holder : String)
      (held : IdempotencyRecord V)
      → validate q ≡ ok tt
      → Dict.get s.records q.idempotency_key ≡ none
      → Dict.get s.leases (lock_key (new_lease q s)) ≡ some holder
      → holder ≢ q.idempotency_key
      → Dict.get s.records holder ≡ some held
      → held.outcome ≡ pending
      → live_lease held q.now ≡ none
      → ((begin q s).1 ≡ err (conflict reconciliation_required "lock_key"))
        × (answer (begin (record q { now = again }) (begin q s).0).1 ≡ some new)
  unfolding begin
  lost_lock_granted q again s holder held valid absent lock ne found p lost_lease =
      let s' = save holder (lost held q.now) s in
      let q' = record q { now = again } in
      let first = refused q s holder held absent lock ne found p lost_lease in
      let still = get-set_ne s.records holder q.idempotency_key (lost held q.now) ne ∙ absent in
      let there = get-set_self s.records holder (lost held q.now) in
      rw (valid, first)
        (
          refl,
          rw (validate_now q again ∙ valid) (
              granted q' s' holder (lost held q.now) still (lock_same q s again ∙ lock) ne there
                refl),
        )

  abbrev WritesAhead :
      Request
      → IdempotencyDecision V
      → IdempotencyStore V
      → IdempotencyStore V × Result MutationError (IdempotencyDecision V)
      → Type 0
  WritesAhead q d s t =
      t.1 ≡ ok d
      → executes_provider_call d.status ≡ true
      → (allows (get_record q.idempotency_key s) ≡ true) × IsAttempt q d t.0

  decided-IsAttempt :
      (q : Request) (r : IdempotencyRecord V) (a : Option (IdempotencyDecision V))
      (s : IdempotencyStore V) (d : IdempotencyDecision V)
      → (decide_existing r q.now s).1 ≡ ok a
      → (decided q a (decide_existing r q.now s).0).1 ≡ ok d
      → executes_provider_call d.status ≡ true
      → (allows_new_attempt r.outcome ≡ true)
        × IsAttempt q d (decided q a (decide_existing r q.now s).0).0
  unfolding decide_existing
  decided-IsAttempt q r (some d') s d e h n = cc (
    decide_outcome-not_new r.outcome r q.now s e,
    ap executes_provider_call (ap (λ (x : IdempotencyDecision V). x.status) (ok-injective h)),
    n,
  )
  decided-IsAttempt q r none s d e h n = (
    ap allows_new_attempt (decide_outcome-none r.outcome r q.now s e)
        ∙ unfold allows_new_attempt in refl,
    claim-IsAttempt q (decide_outcome r.outcome r q.now s).0 d h,
  )

  begin_locked-WritesAhead :
      (q : Request) (s : IdempotencyStore V) (d : IdempotencyDecision V)
      → WritesAhead q d s (begin_locked q s)
  unfolding begin_locked get_record
  begin_locked-WritesAhead q s d =
      maybe_ind (WritesAhead q d s) (Dict.get s.records q.idempotency_key)
        (λ e h n. (ap allows e, claim-IsAttempt q s d h))
        (λ r e h n.
          let t = decide_existing r q.now s in
          let (a, done, same) = and_then-eq-ok t (decided q) h in
          let (free, made) = decided-IsAttempt q r a s d done (rw same at h) n in
          (ap allows e ∙ free, subst (λ t. IsAttempt q d t.0) (sym same) made))

  -- A provider call is made only for a key that has no record or one that failed cleanly, and by then
  -- the pending record stands under the key and the lock of its target names it: the write-ahead.
  pub begin_write_ahead :
      (q : Request) (s : IdempotencyStore V) (d : IdempotencyDecision V)
      → (begin q s).1 ≡ ok d
      → executes_provider_call d.status ≡ true
      → (allows (get_record q.idempotency_key s) ≡ true) × IsAttempt q d (begin q s).0
  unfolding begin
  begin_write_ahead q s d h n =
      let (a, done, same) = and_then-eq-ok (s, validate q) (λ _. begin_locked q) h in
      subst (λ t. (allows (get_record q.idempotency_key s) ≡ true) × IsAttempt q d t.0) (sym same)
        (begin_locked-WritesAhead q s d (rw same at h) n)
