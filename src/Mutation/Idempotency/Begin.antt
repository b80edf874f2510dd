-- ===== src/Mutation/Idempotency/Begin.antt =====
-- `begin` keeps the invariant of the store, on every branch.
use mathlib.Core.Path.{subst}
use hermes_mcp_bridge.Base.{
  and_then, ◌∙◌, sym, ap, and_then_ind, str_eq, maybe_ind, if_ind, eq_iff, arith, ok, ℕ, ◌≡◌, refl,
  String, Option, none, some,
}
use hermes_mcp_bridge.Base.Dict
use hermes_mcp_bridge.Base.Dict.{get-pop, get-set_self, get-set, Dict, get-set_cases}
use hermes_mcp_bridge.Mutation.Kinds.{
  MutationOutcome, pending, committed, failed_clean, ambiguous, denied,
}
use hermes_mcp_bridge.Mutation.Records.{
  validate, IdempotencyDecision, is_pending, Request, MutationLease, lock_key, IdempotencyRecord,
  IdempotencyStore,
}
use hermes_mcp_bridge.Mutation.Idempotency.{
  get_record, decided, decide_existing, begin_locked, begin, decide_outcome, decide_pending, free,
  new_lease, claim, new_record, live_lease, register, refuse, contend_with, lost, save, contend,
}
use hermes_mcp_bridge.Mutation.Idempotency.Invariant.{
  IsConsistent, Guard, KeepsLocks, Leaves, save-IsConsistent, save_only-IsConsistent,
  settle-IsConsistent,
}

module _ {V : Type 0} where
  contend_with-IsConsistent :
      (holder : String) (o : Option (IdempotencyRecord V)) (moment : ℕ) (s : IdempotencyStore V)
      → Dict.get s.records holder ≡ o
      → IsConsistent s
      → IsConsistent (contend_with holder o moment s).0
  contend_with-IsConsistent holder none moment s e h = unfold contend_with in h
  contend_with-IsConsistent holder (some held) moment s e h =
      unfold contend_with in
      if_ind (Leaves IsConsistent) (is_pending held.outcome) (λ _. go (live_lease held moment))
        (λ _. h)
    where
      go : (l : Option MutationLease) → IsConsistent (refuse l holder held moment s).0
      go (some l) = unfold refuse in h
      go none =
          unfold refuse in
          save_only-IsConsistent s holder (lost held moment) h (h.at_key holder held e).0 refl

  contend-IsConsistent :
      (key : String) (l : MutationLease) (moment : ℕ) (s : IdempotencyStore V)
      → IsConsistent s
      → IsConsistent (contend key l moment s).0
  unfolding contend
  contend-IsConsistent key l moment s h =
      maybe_ind (Leaves IsConsistent) (Dict.get s.leases (lock_key l)) (λ _. h)
        λ holder _.
          if_ind (Leaves IsConsistent) (str_eq holder key) (λ _. h)
            λ _. contend_with-IsConsistent holder (Dict.get s.records holder) moment s refl h

  -- Where the lock may be taken, taking it robs no other pending record.
  pub contend-ok :
      (s : IdempotencyStore V) (key : String) (l : MutationLease) (moment : ℕ)
      → (contend key l moment s).1 ≡ ok tt
      → ((contend key l moment s).0 ≡ s) × KeepsLocks s key (Dict.set s.leases (lock_key l) key)
  unfolding contend contend_with refuse
  contend-ok s key l moment h = (
    ground arith,
    λ other r lock e p ne o.
        ground (
          arith,
          get-set s.leases (lock_key l) lock key,
          eq_iff (lock_key l) lock,
          eq_iff other key,
        ),
  )

  register-IsConsistent :
      (q : Request) (l : MutationLease) (s : IdempotencyStore V)
      → IsConsistent s
      → KeepsLocks s q.idempotency_key (Dict.set s.leases (lock_key l) q.idempotency_key)
      → IsConsistent (register q l s).0
  unfolding register
  register-IsConsistent q l s h keep =
      save-IsConsistent s q.idempotency_key (new_record q l) _ h refl
        (get-set_self s.leases (lock_key l) q.idempotency_key) keep

  claim-IsConsistent :
      (q : Request) (s : IdempotencyStore V) → IsConsistent s → IsConsistent (claim q s).0
  unfolding claim
  claim-IsConsistent q s h =
      let key = q.idempotency_key in
      let l = new_lease q s in
      and_then_ind (Leaves IsConsistent) (contend key l q.now s)
        (λ s' a e.
          let (same, keep) = contend-ok s key l q.now (ap (λ t. t.1) e) in
          let s'-same : s ≡ s' = sym same ∙ ap (λ t. t.0) e in
          register-IsConsistent q l s' (subst IsConsistent s'-same h)
            (subst (λ t. KeepsLocks t key (Dict.set t.leases (lock_key l) key)) s'-same keep))
        (λ s' x e. subst IsConsistent (ap (λ t. t.0) e) (contend-IsConsistent key l q.now s h))

  decide_pending-IsConsistent :
      (l : Option MutationLease) (key : String) (existing : IdempotencyRecord V) (moment : ℕ)
      (s : IdempotencyStore V)
      → IsConsistent s
      → Dict.get s.records key ≡ some existing
      → existing.outcome ≡ pending
      → IsConsistent (decide_pending l existing moment s).0
  unfolding decide_pending
  decide_pending-IsConsistent (some l) key existing moment s h e p = h
  decide_pending-IsConsistent none key existing moment s h e p =
      subst (λ k. IsConsistent (free existing.lease (save k (lost existing moment) s)))
        (sym (h.at_key key existing e).0)
        (settle-IsConsistent s key existing (lost existing moment) h e p refl (λ c. cc) refl)

  decide_outcome-IsConsistent :
      (o : MutationOutcome) (key : String) (existing : IdempotencyRecord V) (moment : ℕ)
      (s : IdempotencyStore V)
      → IsConsistent s
      → Dict.get s.records key ≡ some existing
      → existing.outcome ≡ o
      → IsConsistent (decide_outcome o existing moment s).0
  unfolding decide_outcome
  decide_outcome-IsConsistent committed key existing moment s h e p = h
  decide_outcome-IsConsistent denied key existing moment s h e p = h
  decide_outcome-IsConsistent ambiguous key existing moment s h e p = h
  decide_outcome-IsConsistent pending key existing moment s h e p =
      decide_pending-IsConsistent (live_lease existing moment) key existing moment s h e p
  decide_outcome-IsConsistent failed_clean key existing moment s h e p =
      let g = subst (λ o. Guard o s.leases key existing.lease) p (h.at_key key existing e).1 in
      subst (λ l. IsConsistent (free l s)) (sym g) h

  decided-IsConsistent :
      (q : Request) (d : Option (IdempotencyDecision V)) (s : IdempotencyStore V)
      → IsConsistent s
      → IsConsistent (decided q d s).0
  decided-IsConsistent q (some d) s h = h
  decided-IsConsistent q none s h = claim-IsConsistent q s h

  existing-IsConsistent :
      (q : Request) (r : IdempotencyRecord V) (s : IdempotencyStore V)
      → IsConsistent s
      → Dict.get s.records q.idempotency_key ≡ some r
      → IsConsistent (and_then (decide_existing r q.now s) (decided q)).0
  unfolding decide_existing
  existing-IsConsistent q r s h e =
      let k = decide_outcome-IsConsistent r.outcome q.idempotency_key r q.now s h e refl in
      and_then_ind (Leaves IsConsistent) (decide_outcome r.outcome r q.now s)
        (λ s' d eq. decided-IsConsistent q d s' (subst IsConsistent (ap (λ t. t.0) eq) k))
        (λ s' x eq. subst IsConsistent (ap (λ t. t.0) eq) k)

  begin_locked-IsConsistent :
      (q : Request) (s : IdempotencyStore V) → IsConsistent s → IsConsistent (begin_locked q s).0
  unfolding begin_locked get_record
  begin_locked-IsConsistent q s h =
      maybe_ind (Leaves IsConsistent) (Dict.get s.records q.idempotency_key)
        (λ _. claim-IsConsistent q s h) (λ r e. existing-IsConsistent q r s h e)

  pub begin-IsConsistent :
      (q : Request) (s : IdempotencyStore V) → IsConsistent s → IsConsistent (begin q s).0
  unfolding begin
  begin-IsConsistent q s h =
      and_then_ind (Leaves IsConsistent) (s, validate q)
        (λ s' a e. begin_locked-IsConsistent q s' (subst IsConsistent (ap (λ t. t.0) e) h))
        (λ s' x e. subst IsConsistent (ap (λ t. t.0) e) h)
