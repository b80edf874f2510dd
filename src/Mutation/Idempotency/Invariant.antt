-- ===== src/Mutation/Idempotency/Invariant.antt =====
-- The invariant of the store: a record is filed under its own key, and holds the lock of its target
-- exactly as long as it is pending.
use mathlib.Core.Path.{subst, subst₂}
use hermes_mcp_bridge.Base.{
  ◌∙◌, Result, eq_iff, arith, ◌≡◌, ◌≢◌, refl, String, Option, none, some, inl, inr,
}
use hermes_mcp_bridge.Base.Dict
use hermes_mcp_bridge.Base.Dict.{
  IsUnique, set-IsUnique, get, get-pop, get-set_self, get-set, Dict, get-set_cases,
}
use hermes_mcp_bridge.Mutation.Kinds.{
  MutationOutcome, pending, committed, failed_clean, ambiguous, denied,
}
use hermes_mcp_bridge.Mutation.Records.{
  MutationLease, lock_key, IdempotencyRecord, IdempotencyStore,
}
use hermes_mcp_bridge.Mutation.Idempotency.{free, MutationError, save}

abbrev pub HoldsLock : Dict String → String → Option MutationLease → Type 0
HoldsLock leases key none = ⊥
HoldsLock leases key (some l) = Dict.get leases (lock_key l) ≡ some key

abbrev pub Guard : MutationOutcome → Dict String → String → Option MutationLease → Type 0
Guard pending leases key lease = HoldsLock leases key lease
Guard _ leases key lease = lease ≡ none

pub record IsConsistent {V : Type 0} (s : IdempotencyStore V) : Type 0 where
  pub unique : IsUnique s.records
  pub at_key :
      (key : String) (r : IdempotencyRecord V)
      → Dict.get s.records key ≡ some r
      → (r.idempotency_key ≡ key) × Guard r.outcome s.leases key r.lease

Guard-settled :
    (o : MutationOutcome) (leases : Dict String) (key : String) (l : Option MutationLease)
    → o ≢ pending
    → l ≡ none
    → Guard o leases key l
Guard-settled pending leases key l ne e = absurd (ne refl)
Guard-settled committed leases key l ne e = e
Guard-settled failed_clean leases key l ne e = e
Guard-settled ambiguous leases key l ne e = e
Guard-settled denied leases key l ne e = e

module _ {V : Type 0} where
  -- What an assignment of one record must keep of the locks of the others.
  abbrev pub KeepsLocks : IdempotencyStore V → String → Dict String → Type 0
  KeepsLocks s key leases =
      (other : String) (r : IdempotencyRecord V) (lock : String)
      → Dict.get s.records other ≡ some r
      → r.outcome ≡ pending
      → key ≢ other
      → Dict.get s.leases lock ≡ some other
      → Dict.get leases lock ≡ some other

  -- A property of the store that a method leaves.
  abbrev pub Leaves {ℓ} :
      {A : Type 0}
      → (IdempotencyStore V → Type ℓ)
      → IdempotencyStore V × Result MutationError A
      → Type ℓ
  Leaves P t = P t.0

  pub Guard-other :
      (s : IdempotencyStore V) (key other : String) (leases : Dict String) (r : IdempotencyRecord V)
      → KeepsLocks s key leases
      → Dict.get s.records other ≡ some r
      → key ≢ other
      → Guard r.outcome s.leases other r.lease
      → Guard r.outcome leases other r.lease
  Guard-other s key other leases r keep e ne g = go r.outcome r.lease refl refl g
    where
      go :
          (o : MutationOutcome) (l : Option MutationLease)
          → r.outcome ≡ o
          → r.lease ≡ l
          → Guard o s.leases other l
          → Guard o leases other l
      go pending none eo el g = g
      go pending (some l) eo el g = keep other r (lock_key l) e eo ne g
      go committed l eo el g = g
      go failed_clean l eo el g = g
      go ambiguous l eo el g = g
      go denied l eo el g = g

  pub save-IsConsistent :
      (s : IdempotencyStore V) (key : String) (r' : IdempotencyRecord V) (leases : Dict String)
      → IsConsistent s
      → r'.idempotency_key ≡ key
      → Guard r'.outcome leases key r'.lease
      → KeepsLocks s key leases
      → IsConsistent (record s { records = Dict.set s.records key r'; leases = leases })
  save-IsConsistent s key r' leases h filed guard keep = record {
    unique = set-IsUnique s.records key r' h.unique;
    at_key = λ other r e. elim (get-set_cases s.records key other r' r e) [
      | inl (same, value) ↦
          subst₂
            (λ k (t : IdempotencyRecord V).
              (t.idempotency_key ≡ k) × Guard t.outcome leases k t.lease)
            same value (filed, guard)
      | inr (ne, old) ↦
          let (f, g) = h.at_key other r old in (f, Guard-other s key other leases r keep old ne g)
    ];
  }

  -- An assignment that leaves the locks alone.
  pub save_only-IsConsistent :
      (s : IdempotencyStore V) (key : String) (r' : IdempotencyRecord V)
      → IsConsistent s
      → r'.idempotency_key ≡ key
      → Guard r'.outcome s.leases key r'.lease
      → IsConsistent (record s { records = Dict.set s.records key r' })
  save_only-IsConsistent s key r' h filed guard =
      save-IsConsistent s key r' s.leases h filed guard (λ other r lock e p ne o. o)

  -- Giving a lock back where its holder is known.
  pub free-KeepsLocks :
      (s : IdempotencyStore V) (key : String) (r : IdempotencyRecord V)
      → HoldsLock s.leases key r.lease
      → KeepsLocks s key (free r.lease s).leases
  free-KeepsLocks s key r held = go r.lease held
    where
      go :
          (l : Option MutationLease) → HoldsLock s.leases key l → KeepsLocks s key (free l s).leases
      go none held other t lock e p ne o = o
      go (some l) held other t lock e p ne o =
          ground (arith, get-pop s.leases (lock_key l) lock, eq_iff (lock_key l) lock)

  pub pending-HoldsLock :
      (s : IdempotencyStore V) (key : String) (r : IdempotencyRecord V)
      → Guard r.outcome s.leases key r.lease
      → r.outcome ≡ pending
      → HoldsLock s.leases key r.lease
  pending-HoldsLock s key r g p = subst (λ o. Guard o s.leases key r.lease) p g

  -- A pending record gets another outcome and gives its lock back.
  pub settle-IsConsistent :
      (s : IdempotencyStore V) (key : String) (r r' : IdempotencyRecord V)
      → IsConsistent s
      → Dict.get s.records key ≡ some r
      → r.outcome ≡ pending
      → r'.idempotency_key ≡ r.idempotency_key
      → r'.outcome ≢ pending
      → r'.lease ≡ none
      → IsConsistent (save key r' (free r.lease s))
  settle-IsConsistent s key r r' h e p filed settled nolease =
      let (f, g) = h.at_key key r e in
      save-IsConsistent s key r' (free r.lease s).leases h (filed ∙ f)
        (Guard-settled r'.outcome _ key r'.lease settled nolease)
        (free-KeepsLocks s key r (pending-HoldsLock s key r g p))
