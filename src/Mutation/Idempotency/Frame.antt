-- ===== src/Mutation/Idempotency/Frame.antt =====
-- What the calls leave alone of a record whose outcome is final, whatever other records they change.
use mathlib.Core.Path.{subst}
use mathlib.Core.Option.{some-injective}
use hermes_mcp_bridge.Base.Dict
use hermes_mcp_bridge.Base.{
  Option, String, and_then_ind, ap, if_ind, maybe_ind, none, refl, some, str_eq, sym, true, ℕ, ◌∙◌,
  ◌≡◌, ◌≢◌,
}
use hermes_mcp_bridge.Base.Dict.{Dict, get, get-set_ne}
use hermes_mcp_bridge.Mutation.Kinds.{
  MutationOutcome, ambiguous, committed, denied, failed_clean, pending,
}
use hermes_mcp_bridge.Mutation.Records.{
  IdempotencyDecision, IdempotencyRecord, IdempotencyStore, MutationLease, Request, is_pending,
  lock_key,
}
use hermes_mcp_bridge.Mutation.Idempotency.{
  begin_locked, claim, contend, contend_with, decide_existing, decide_outcome, decide_pending,
  decided, get_record, live_lease, lost, new_lease, new_record, refuse, register, save,
}
use hermes_mcp_bridge.Mutation.Idempotency.Invariant.{IsConsistent, Leaves}
use hermes_mcp_bridge.Mutation.Idempotency.Exclusion.{is_pending→pending}

module _ {V : Type 0} where
  -- What the record filed under a key must be for no new attempt to be allowed.
  abbrev pub IsFrozen : IdempotencyRecord V → Type 0
  IsFrozen r = (r.outcome ≢ pending) × (r.outcome ≢ failed_clean)

  abbrev pub Holds : String → IdempotencyRecord V → IdempotencyStore V → Type 0
  Holds key r s = Dict.get s.records key ≡ some r

  pub save_other-Holds :
      (k key : String) (r t : IdempotencyRecord V) (s : IdempotencyStore V)
      → k ≢ key
      → Holds key r s
      → Holds key r (save k t s)
  save_other-Holds k key r t s ne h = get-set_ne s.records k key t ne ∙ h

  -- A key that finds a pending record is another key than that of a frozen one.
  pub frozen-ne :
      (k key : String) (r t : IdempotencyRecord V) (s : IdempotencyStore V)
      → Holds key r s
      → Holds k t s
      → r.outcome ≢ t.outcome
      → k ≢ key
  frozen-ne k key r t s h e ne same = ne (
      ap (λ (x : IdempotencyRecord V). x.outcome)
        (some-injective _ _ (sym h ∙ ap (Dict.get s.records) (sym same) ∙ e)))

  pub pending-ne :
      (k key : String) (r t : IdempotencyRecord V) (s : IdempotencyStore V)
      → Holds key r s
      → r.outcome ≢ pending
      → Holds k t s
      → is_pending t.outcome ≡ true
      → k ≢ key
  pending-ne k key r t s h frozen e p =
      frozen-ne k key r t s h e (λ same. frozen (same ∙ is_pending→pending t.outcome p))

  refuse-Holds :
      (l : Option MutationLease) (holder key : String) (r held : IdempotencyRecord V) (moment : ℕ)
      (s : IdempotencyStore V)
      → holder ≢ key
      → Holds key r s
      → Holds key r (refuse l holder held moment s).0
  unfolding refuse
  refuse-Holds (some l) holder key r held moment s ne h = h
  refuse-Holds none holder key r held moment s ne h = save_other-Holds holder key r _ s ne h

  contend_with-Holds :
      (holder key : String) (r : IdempotencyRecord V) (o : Option (IdempotencyRecord V))
      (moment : ℕ) (s : IdempotencyStore V)
      → Dict.get s.records holder ≡ o
      → r.outcome ≢ pending
      → Holds key r s
      → Holds key r (contend_with holder o moment s).0
  unfolding contend_with
  contend_with-Holds holder key r none moment s e frozen h = h
  contend_with-Holds holder key r (some held) moment s e frozen h =
      if_ind (Leaves (Holds key r)) (is_pending held.outcome)
        (λ p.
          refuse-Holds (live_lease held moment) holder key r held moment s
            (pending-ne holder key r held s h frozen e p) h)
        (λ _. h)

  contend-Holds :
      (k : String) (l : MutationLease) (key : String) (r : IdempotencyRecord V) (moment : ℕ)
      (s : IdempotencyStore V)
      → r.outcome ≢ pending
      → Holds key r s
      → Holds key r (contend k l moment s).0
  unfolding contend
  contend-Holds k l key r moment s frozen h =
      maybe_ind (Leaves (Holds key r)) (Dict.get s.leases (lock_key l)) (λ _. h)
        λ holder _.
          if_ind (Leaves (Holds key r)) (str_eq holder k) (λ _. h)
            λ _. contend_with-Holds holder key r (Dict.get s.records holder) moment s refl frozen h

  claim-Holds :
      (q : Request) (key : String) (r : IdempotencyRecord V) (s : IdempotencyStore V)
      → q.idempotency_key ≢ key
      → r.outcome ≢ pending
      → Holds key r s
      → Holds key r (claim q s).0
  unfolding claim register
  claim-Holds q key r s ne frozen h =
      let l = new_lease q s in
      let k = contend-Holds q.idempotency_key l key r q.now s frozen h in
      and_then_ind (Leaves (Holds key r)) (contend q.idempotency_key l q.now s)
        (λ s' a e.
          save_other-Holds q.idempotency_key key r (new_record q l) s' ne
            (subst (Holds key r) (ap (λ t. t.0) e) k))
        (λ s' x e. subst (Holds key r) (ap (λ t. t.0) e) k)

  -- The record that `begin` finds under its own key, where the frozen one is under another.
  decide_outcome-Holds :
      (o : MutationOutcome) (key : String) (r existing : IdempotencyRecord V) (moment : ℕ)
      (s : IdempotencyStore V)
      → existing.idempotency_key ≢ key
      → Holds key r s
      → Holds key r (decide_outcome o existing moment s).0
  unfolding decide_outcome
  decide_outcome-Holds committed key r existing moment s ne h = h
  decide_outcome-Holds denied key r existing moment s ne h = h
  decide_outcome-Holds ambiguous key r existing moment s ne h = h
  decide_outcome-Holds failed_clean key r existing moment s ne h = h
  decide_outcome-Holds pending key r existing moment s ne h = go (live_lease existing moment)
    where
      go : (l : Option MutationLease) → Holds key r (decide_pending l existing moment s).0
      go (some l) = unfold decide_pending in h
      go none =
          unfold decide_pending in
          save_other-Holds existing.idempotency_key key r (lost existing moment) s ne h

  decided-Holds :
      (q : Request) (d : Option (IdempotencyDecision V)) (key : String) (r : IdempotencyRecord V)
      (s : IdempotencyStore V)
      → q.idempotency_key ≢ key
      → r.outcome ≢ pending
      → Holds key r s
      → Holds key r (decided q d s).0
  decided-Holds q (some d) key r s ne frozen h = h
  decided-Holds q none key r s ne frozen h = claim-Holds q key r s ne frozen h

  pub other_begin-Holds :
      (q : Request) (key : String) (r : IdempotencyRecord V) (s : IdempotencyStore V)
      → IsConsistent s
      → q.idempotency_key ≢ key
      → r.outcome ≢ pending
      → Holds key r s
      → Holds key r (begin_locked q s).0
  unfolding begin_locked get_record decide_existing
  other_begin-Holds q key r s c ne frozen h =
      maybe_ind (Leaves (Holds key r)) (Dict.get s.records q.idempotency_key)
        (λ _. claim-Holds q key r s ne frozen h)
        (λ t e.
          let filed = (c.at_key q.idempotency_key t e).0 in
          let k =
            decide_outcome-Holds t.outcome key r t q.now s (λ same. ne (sym filed ∙ same)) h in
          and_then_ind (Leaves (Holds key r)) (decide_outcome t.outcome t q.now s)
            (λ s' d eq.
              decided-Holds q d key r s' ne frozen (subst (Holds key r) (ap (λ t. t.0) eq) k))
            (λ s' x eq. subst (Holds key r) (ap (λ t. t.0) eq) k))
