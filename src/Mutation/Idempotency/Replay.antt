-- ===== src/Mutation/Idempotency/Replay.antt =====
-- A write that is committed is replayed and never made again, and one whose state is unknown is not
-- made again before it is reconciled: over any calls of any clients.
use mathlib.Core.Path.{subst}
use mathlib.Core.Option.{some-injective}
use hermes_mcp_bridge.Base.Dict
use hermes_mcp_bridge.Base.{
  All, Bool, Bool-cases, List, Option, Result, String, [], and_then_ind, ap, arith, eq_iff, err,
  false, if_ind, if◌then◌else◌, inl, inr, maybe_ind, none, ok, some, str_eq, sym, true, ℕ, ◌+◌, ◌∙◌,
  ◌∷◌, ◌≡◌, ◌≢◌,
}
use hermes_mcp_bridge.Base.Dict.{AllItems, Dict, get, get-pop_ne, items-get, pop}
use hermes_mcp_bridge.Mutation.Kinds.{
  MutationError, MutationOutcome, MutationReasonCode, ambiguous, failed_clean, idempotent_replay,
  pending, reconciliation_required, replayed,
}
use hermes_mcp_bridge.Mutation.Records.{
  IdempotencyDecision, IdempotencyRecord, IdempotencyStore, Request, conflict, is_ambiguous,
  is_denied, is_pending, validate,
}
use hermes_mcp_bridge.Mutation.Idempotency.{
  Call, ambiguous_call, apply, apply_all, begin, begin_call, begin_locked, commit, commit_call,
  create, decide_existing, decide_outcome, fail_call, fail_clean, get_record, mark_ambiguous,
  purge_call, purge_items, purge_terminal, purges, reconcile, reconcile_call, resolve,
  resolve_entry,
}
use hermes_mcp_bridge.Mutation.Idempotency.Invariant.{IsConsistent, Leaves}
use hermes_mcp_bridge.Mutation.Idempotency.Exclusion.{
  apply-IsConsistent, apply_all-IsConsistent, create-IsConsistent,
}
use hermes_mcp_bridge.Mutation.Idempotency.Frame.{
  Holds, IsFrozen, other_begin-Holds, pending-ne, save_other-Holds,
}

is_ambiguous→ambiguous : (o : MutationOutcome) → is_ambiguous o ≡ true → o ≡ ambiguous
is_ambiguous→ambiguous o h = ground arith

module _ {V : Type 0} where
  -- What `begin` answers for a record that allows no new attempt.
  abbrev pub verdict : IdempotencyRecord V → Result MutationError (IdempotencyDecision V)
  verdict r =
      if is_ambiguous r.outcome
      then err (conflict reconciliation_required "ambiguous")
      else if is_denied r.outcome
      then err (conflict idempotent_replay "denied")
      else ok (record { status = replayed; entry = r; lease = none })

  one_outcome :
      (k key : String) (r t : IdempotencyRecord V) (s : IdempotencyStore V)
      → Holds key r s
      → Holds k t s
      → k ≡ key
      → r.outcome ≡ t.outcome
  one_outcome k key r t s h e same =
      ap (λ (x : IdempotencyRecord V). x.outcome)
        (some-injective _ _ (sym h ∙ ap (Dict.get s.records) (sym same) ∙ e))

  own_begin :
      (q : Request) (r : IdempotencyRecord V) (s : IdempotencyStore V)
      → Holds q.idempotency_key r s
      → IsFrozen r
      → begin_locked q s ≡ (s, verdict r)
  unfolding begin_locked get_record decide_existing decide_outcome
  own_begin q r s h frozen = ground (arith, frozen.0, frozen.1)

  begin_locked-Holds :
      (q : Request) (key : String) (r : IdempotencyRecord V) (s : IdempotencyStore V)
      → IsConsistent s
      → IsFrozen r
      → Holds key r s
      → Holds key r (begin_locked q s).0
  begin_locked-Holds q key r s c frozen h = elim (Bool-cases (str_eq q.idempotency_key key)) [
    | inl same ↦
        let here = subst (λ k. Holds k r s) (sym ((eq_iff _ _).0 same)) h in
        subst (λ t. Holds key r t.0) (sym (own_begin q r s here frozen)) h
    | inr other ↦ other_begin-Holds q key r s c (λ same. cc (other, (eq_iff _ _).1 same)) frozen.0 h
  ]

  begin-Holds :
      (q : Request) (key : String) (r : IdempotencyRecord V) (s : IdempotencyStore V)
      → IsConsistent s
      → IsFrozen r
      → Holds key r s
      → Holds key r (begin q s).0
  unfolding begin
  begin-Holds q key r s c frozen h =
      and_then_ind (Leaves (Holds key r)) (s, validate q)
        (λ s' a e.
          begin_locked-Holds q key r s' (subst IsConsistent (ap (λ t. t.0) e) c) frozen
            (subst (Holds key r) (ap (λ t. t.0) e) h))
        (λ s' x e. subst (Holds key r) (ap (λ t. t.0) e) h)

  -- A call that cannot settle or forget the record: no reconciliation of it where it is ambiguous, and no
  -- purge whose retention is over for it.
  abbrev pub LeavesAlone : String → IdempotencyRecord V → Call V → Type 0
  LeavesAlone key r (reconcile_call k o d now) = r.outcome ≡ ambiguous → k ≢ key
  LeavesAlone key r (purge_call now retention) = purges now retention r ≡ false
  LeavesAlone key r _ = Unit

  resolve-Holds :
      (k key : String) (o : MutationOutcome) (now : ℕ) (result : Option (Dict V))
      (reason : Option MutationReasonCode) (r : IdempotencyRecord V) (s : IdempotencyStore V)
      → IsFrozen r
      → Holds key r s
      → Holds key r (resolve k o now result reason s).0
  unfolding resolve get_record resolve_entry
  resolve-Holds k key o now result reason r s frozen h =
      maybe_ind (Leaves (Holds key r)) (Dict.get s.records k) (λ _. h)
        λ t e.
          if_ind (Leaves (Holds key r)) (is_pending t.outcome)
            (λ p. save_other-Holds k key r _ s (pending-ne k key r t s h frozen.0 e p) h) (λ _. h)

  reconcile-Holds :
      (k key : String) (o : Bool) (d : Option (Dict V)) (now : ℕ) (r : IdempotencyRecord V)
      (s : IdempotencyStore V)
      → (r.outcome ≡ ambiguous → k ≢ key)
      → Holds key r s
      → Holds key r (reconcile k o d now s).0
  unfolding reconcile get_record
  reconcile-Holds k key o d now r s alone h =
      maybe_ind (Leaves (Holds key r)) (Dict.get s.records k) (λ _. h)
        λ t e.
          if_ind (Leaves (Holds key r)) (is_ambiguous t.outcome)
            (λ p.
              save_other-Holds k key r _ s
                (λ same.
                  alone (one_outcome k key r t s h e same ∙ is_ambiguous→ambiguous t.outcome p)
                    same)
                h)
            (λ _. h)

  purge-Holds :
      (now retention : ℕ) (key : String) (r : IdempotencyRecord V) (d : Dict (IdempotencyRecord V))
      (items kept : Dict (IdempotencyRecord V)) (n : ℕ)
      → AllItems (λ k t. Dict.get d k ≡ some t) items
      → Dict.get d key ≡ some r
      → purges now retention r ≡ false
      → Dict.get kept key ≡ some r
      → Dict.get (purge_items now retention items kept n).0 key ≡ some r
  unfolding purge_items
  purge-Holds now retention key r d [] kept n all e p h = h
  purge-Holds now retention key r d ((k, t) ∷ items) kept n all e p h =
      purge-Holds now retention key r d items
        (if purges now retention t then Dict.pop kept k else kept)
        (if purges now retention t then n + 1 else n) all.1 e p
        (if_ind (λ m. Dict.get m key ≡ some r) (purges now retention t)
          (λ q. get-pop_ne kept k key (λ same. cc (all.0, e, same, p, q)) ∙ h) (λ _. h))

  apply-Holds :
      (c : Call V) (key : String) (r : IdempotencyRecord V) (s : IdempotencyStore V)
      → IsConsistent s
      → IsFrozen r
      → LeavesAlone key r c
      → Holds key r s
      → Holds key r (apply c s)
  unfolding apply commit fail_clean mark_ambiguous purge_terminal
  apply-Holds (begin_call q) key r s c frozen alone h = begin-Holds q key r s c frozen h
  apply-Holds (commit_call k d now) key r s c frozen alone h =
      resolve-Holds k key _ now _ _ r s frozen h
  apply-Holds (fail_call k reason now) key r s c frozen alone h =
      resolve-Holds k key _ now _ _ r s frozen h
  apply-Holds (ambiguous_call k now) key r s c frozen alone h =
      resolve-Holds k key _ now _ _ r s frozen h
  apply-Holds (reconcile_call k o d now) key r s c frozen alone h =
      reconcile-Holds k key o d now r s alone h
  apply-Holds (purge_call now retention) key r s c frozen alone h =
      purge-Holds now retention key r s.records s.records s.records 0 (items-get s.records c.unique)
        h alone h

  apply_all-Holds :
      (cs : List (Call V)) (key : String) (r : IdempotencyRecord V) (s : IdempotencyStore V)
      → IsConsistent s
      → IsFrozen r
      → All (LeavesAlone key r) cs
      → Holds key r s
      → Holds key r (apply_all cs s)
  unfolding apply_all
  apply_all-Holds [] key r s c frozen alone h = h
  apply_all-Holds (d ∷ cs) key r s c frozen alone h =
      apply_all-Holds cs key r (apply d s) (apply-IsConsistent d s c) frozen alone.1
        (apply-Holds d key r s c frozen alone.0 h)

  -- No second write: take a store that calls on a new one have led to, and in it a record that is
  -- committed, ambiguous or denied. Over any further calls that neither reconcile it while it is ambiguous nor
  -- purge it, the record stays as it is, and a valid request under its key changes nothing and is
  -- answered by the stored record (committed) or by a refusal (ambiguous, denied): never by a new attempt.
  pub frozen_never_retried :
      (seconds : ℕ) (fresh : IdempotencyStore V) (past cs : List (Call V)) (r : IdempotencyRecord V)
      (q : Request)
      → create seconds ≡ some fresh
      → get_record q.idempotency_key (apply_all past fresh) ≡ some r
      → r.outcome ≢ pending
      → r.outcome ≢ failed_clean
      → All (LeavesAlone q.idempotency_key r) cs
      → validate q ≡ ok tt
      → begin q (apply_all cs (apply_all past fresh))
        ≡ (apply_all cs (apply_all past fresh), verdict r)
  unfolding begin get_record
  frozen_never_retried seconds fresh past cs r q new_store found np nf alone valid =
      let s = apply_all past fresh in
      let c = apply_all-IsConsistent past fresh (create-IsConsistent seconds fresh new_store) in
      let later = apply_all-Holds cs q.idempotency_key r s c (np, nf) alone found in
      rw valid (own_begin q r (apply_all cs s) later (np, nf))
