-- ===== src/Mutation/Idempotency/Exclusion.antt =====
-- Every call keeps the invariant, and no two pending writes hold the lock of one target.
use mathlib.Core.Path.{subst, subst₂}
use mathlib.Core.Option.{some-injective}
use hermes_mcp_bridge.Base.Dict
use hermes_mcp_bridge.Base.{
  Bool, List, Option, String, [], ap, arith, false, if_ind, if◌then◌else◌, maybe_ind, none, refl,
  some, sym, true, ℕ, ◌+◌, ◌∙◌, ◌∷◌, ◌≡◌, ◌≢◌,
}
use hermes_mcp_bridge.Base.Dict.{Dict, get, get-pop_cases, pop, pop-IsUnique}
use hermes_mcp_bridge.Mutation.Kinds.{
  MutationOutcome, MutationReasonCode, ambiguous, committed, denied, failed_clean, pending,
}
use hermes_mcp_bridge.Mutation.Records.{
  IdempotencyRecord, IdempotencyStore, MutationLease, is_ambiguous, is_pending, lock_key,
}
use hermes_mcp_bridge.Mutation.Idempotency.{
  Call, ambiguous_call, apply, apply_all, begin_call, commit, commit_call, create, fail_call,
  fail_clean, get_record, mark_ambiguous, or_empty, purge_call, purge_items, purge_terminal, purges,
  reconcile, reconcile_call, reconciled, resolve, resolve_entry, save,
}
use hermes_mcp_bridge.Mutation.Idempotency.Invariant.{
  Guard, IsConsistent, Leaves, save_only-IsConsistent, settle-IsConsistent,
}
use hermes_mcp_bridge.Mutation.Idempotency.Begin.{begin-IsConsistent}

pub is_pending→pending : (o : MutationOutcome) → is_pending o ≡ true → o ≡ pending
is_pending→pending o h = ground arith

ambiguous-no_lease :
    (o : MutationOutcome) (leases : Dict String) (key : String) (l : Option MutationLease)
    → is_ambiguous o ≡ true
    → Guard o leases key l
    → l ≡ none
ambiguous-no_lease pending leases key l h g = cc
ambiguous-no_lease committed leases key l h g = g
ambiguous-no_lease failed_clean leases key l h g = g
ambiguous-no_lease ambiguous leases key l h g = g
ambiguous-no_lease denied leases key l h g = g

module _ {V : Type 0} where
  resolve-IsConsistent :
      (key : String) (o : MutationOutcome) (now : ℕ) (result : Option (Dict V))
      (reason : Option MutationReasonCode) (s : IdempotencyStore V)
      → o ≢ pending
      → IsConsistent s
      → IsConsistent (resolve key o now result reason s).0
  unfolding resolve get_record resolve_entry
  resolve-IsConsistent key o now result reason s settled h =
      maybe_ind (Leaves IsConsistent) (Dict.get s.records key) (λ _. h)
        λ r e.
          if_ind (Leaves IsConsistent) (is_pending r.outcome)
            (λ p.
              settle-IsConsistent s key r _ h e (is_pending→pending r.outcome p) refl settled refl)
            (λ _. h)

  reconcile-IsConsistent :
      (key : String) (seen : Bool) (result : Option (Dict V)) (now : ℕ) (s : IdempotencyStore V)
      → IsConsistent s
      → IsConsistent (reconcile key seen result now s).0
  unfolding reconcile get_record
  reconcile-IsConsistent key seen result now s h =
      maybe_ind (Leaves IsConsistent) (Dict.get s.records key) (λ _. h)
        λ r e.
          if_ind (Leaves IsConsistent) (is_ambiguous r.outcome) (λ p. close r e p seen) (λ _. h)
    where
      close :
          (r : IdempotencyRecord V)
          → Dict.get s.records key ≡ some r
          → is_ambiguous r.outcome ≡ true
          → (seen : Bool) → IsConsistent (save key (reconciled r seen (or_empty result) now) s)
      close r e p true =
          let (f, g) = h.at_key key r e in
          save_only-IsConsistent s key (reconciled r true (or_empty result) now) h f
            (ambiguous-no_lease r.outcome s.leases key r.lease p g)
      close r e p false =
          let (f, g) = h.at_key key r e in
          save_only-IsConsistent s key (reconciled r false (or_empty result) now) h f
            (ambiguous-no_lease r.outcome s.leases key r.lease p g)

  purge_items-IsConsistent :
      (now retention : ℕ) (items d : Dict (IdempotencyRecord V)) (n : ℕ) (s : IdempotencyStore V)
      → IsConsistent (record s { records = d })
      → IsConsistent (record s { records = (purge_items now retention items d n).0 })
  unfolding purge_items
  purge_items-IsConsistent now retention [] d n s h = h
  purge_items-IsConsistent now retention ((k, r) ∷ items) d n s h =
      purge_items-IsConsistent now retention items
        (if purges now retention r then Dict.pop d k else d)
        (if purges now retention r then n + 1 else n) s
        (if_ind (λ t. IsConsistent (record s { records = t })) (purges now retention r)
          (λ _. record {
            unique = pop-IsUnique d k h.unique;
            at_key = λ j t e. h.at_key j t (get-pop_cases d k j t e).1;
          })
          (λ _. h))

  pub apply-IsConsistent :
      (c : Call V) (s : IdempotencyStore V) → IsConsistent s → IsConsistent (apply c s)
  unfolding apply commit fail_clean mark_ambiguous purge_terminal
  apply-IsConsistent (begin_call q) s h = begin-IsConsistent q s h
  apply-IsConsistent (commit_call k r now) s h = resolve-IsConsistent k _ now _ _ s (λ c. cc) h
  apply-IsConsistent (fail_call k r now) s h = resolve-IsConsistent k _ now _ _ s (λ c. cc) h
  apply-IsConsistent (ambiguous_call k now) s h = resolve-IsConsistent k _ now _ _ s (λ c. cc) h
  apply-IsConsistent (reconcile_call k o r now) s h = reconcile-IsConsistent k o r now s h
  apply-IsConsistent (purge_call now retention) s h =
      purge_items-IsConsistent now retention s.records s.records 0 s h

  pub apply_all-IsConsistent :
      (cs : List (Call V)) (s : IdempotencyStore V) → IsConsistent s → IsConsistent (apply_all cs s)
  unfolding apply_all
  apply_all-IsConsistent [] s h = h
  apply_all-IsConsistent (c ∷ cs) s h =
      apply_all-IsConsistent cs (apply c s) (apply-IsConsistent c s h)

  -- The lock of a pending record names it as the holder.
  holds :
      (s : IdempotencyStore V)
      → IsConsistent s
      → (key : String) (r : IdempotencyRecord V) (l : MutationLease)
      → Dict.get s.records key ≡ some r
      → r.outcome ≡ pending
      → r.lease ≡ some l
      → Dict.get s.leases (lock_key l) ≡ some key
  holds s h key r l e p q = subst₂ (λ o k. Guard o s.leases key k) p q (h.at_key key r e).1

  the_store :
      (seconds : ℕ) (s : IdempotencyStore V)
      → create seconds ≡ some s
      → record { lease_seconds = seconds; records = []; leases = [] } ≡ s
  unfolding create
  the_store seconds s h = ground arith

  pub create-IsConsistent :
      (seconds : ℕ) (s : IdempotencyStore V) → create seconds ≡ some s → IsConsistent s
  create-IsConsistent seconds s h =
      subst IsConsistent (the_store seconds s h)
        (record { unique = tt; at_key = λ key r e. unfold get in cc e })

  -- Mutual exclusion: after any calls on a new store, two pending writes that hold the lock of one
  -- repository, operation family and target are one and the same write.
  pub pending_exclusive :
      (seconds : ℕ) (s : IdempotencyStore V) (cs : List (Call V)) (key other : String)
      (r t : IdempotencyRecord V) (l m : MutationLease)
      → create seconds ≡ some s
      → get_record key (apply_all cs s) ≡ some r
      → get_record other (apply_all cs s) ≡ some t
      → r.outcome ≡ pending
      → t.outcome ≡ pending
      → r.lease ≡ some l
      → t.lease ≡ some m
      → lock_key l ≡ lock_key m
      → key ≡ other
  unfolding get_record
  pending_exclusive seconds s cs key other r t l m fresh er et p q lr lt same =
      let h = apply_all-IsConsistent cs s (create-IsConsistent seconds s fresh) in
      let held = holds (apply_all cs s) h in
      some-injective _ _ (
        sym (held key r l er p lr)
        ∙ ap (Dict.get (apply_all cs s).leases) same
        ∙ held other t m et q lt)
