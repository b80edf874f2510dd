-- ===== src/Mutation/Approvals/Binding.antt =====
-- What an approval authorises: the conditions of `verify_and_consume`, and the write behind the digest.
use hermes_mcp_bridge.Mutation.Idempotency.Key.{capability_value-injective}
use hermes_mcp_bridge.Base.{inr, inl, Bool-cases, ◌∙◌, sym, false, ◌⊎◌, ◌↔◌, is_ok, Result}
use hermes_mcp_bridge.Base.Dict
use hermes_mcp_bridge.Base.Dict.{Dict, get, set, get-set_self}
use hermes_mcp_bridge.Base.{ap, String, arith, eq_iff, ok, some, true, ℕ, ◌<◌, ◌≡◌, ◌≢◌}
use hermes_mcp_bridge.Mutation.Kinds.{ApprovalState, consumed, is_consumed, is_usable}
use hermes_mcp_bridge.Mutation.Approvals.{
  MutationError, verify_and_consume, ApprovalRecord, ApprovalStore, OperationDescriptor,
  OperationPayload, OperationPreconditions, canonical_payload, check_approved,
  compute_operation_digest, consume_record, is_expired, preconditions_payload,
  requires_distinct_approver,
}

-- The fields are read back from the payload.
reads :
    (p : OperationPreconditions)
    → (Dict.get (preconditions_payload p) "base_sha" ≡ p.base_sha)
      × (Dict.get (preconditions_payload p) "expected_head_sha" ≡ p.expected_head_sha)
      × (Dict.get (preconditions_payload p) "required_checks_policy" ≡ p.required_checks_policy)
unfolding get
reads p = ground arith

preconditions_payload-injective :
    (p q : OperationPreconditions) → preconditions_payload p ≡ preconditions_payload q → p ≡ q
preconditions_payload-injective p q h =
    let read = λ (k : String). ap (λ l. Dict.get l k) h in
    ground (
      arith,
      reads p,
      reads q,
      read "base_sha",
      read "expected_head_sha",
      read "required_checks_policy",
    )

canonical_payload-injective :
    {V : Type 0} (a b : OperationDescriptor V) → canonical_payload a ≡ canonical_payload b → a ≡ b
canonical_payload-injective a b h = ground (
  arith,
  capability_value-injective a.capability b.capability,
  preconditions_payload-injective a.preconditions b.preconditions,
)

-- An approval as it stands permits a user a write at a moment, if it was issued for that write.
pub record Permits {V : Type 0} (r : ApprovalRecord) (d : OperationDescriptor V) (user : String)
    (now : ℕ) : Type 0 where
  pub unspent : r.state ≡ ApprovalState.pending
  pub in_time : now < r.expires_at
  pub repository : r.repository ≡ d.repository
  pub operation : r.operation ≡ d.operation
  pub principal : r.principal ≡ user
  pub distinct : requires_distinct_approver d ≡ true → r.approver ≢ r.principal

abbrev pub spent_now : ApprovalRecord → ℕ → ApprovalRecord
spent_now r now = record r { state = consumed; consumed_at = some now }

module _ {V : Type 0} (i digest : String) (d : OperationDescriptor V) (user : String) (now : ℕ)
    (s : ApprovalStore) (r : ApprovalRecord) where
  abbrev outcome : Result MutationError ApprovalRecord
  outcome = (consume_record i digest d user now r s).1

  granted-Permits :
      is_ok outcome ≡ true
      → Permits r d user now × (r.operation_digest ≡ digest) × (outcome ≡ ok (spent_now r now))
  unfolding consume_record check_approved is_usable is_consumed is_expired
  granted-Permits h = ground (
    arith,
    h,
    eq_iff r.operation_digest digest,
    eq_iff r.repository d.repository,
    eq_iff r.operation d.operation,
    eq_iff r.principal user,
    eq_iff r.approver r.principal,
  )

  Permits-granted : Permits r d user now → r.operation_digest ≡ digest → is_ok outcome ≡ true
  unfolding consume_record check_approved is_usable is_consumed is_expired
  Permits-granted p e = ground (
    arith,
    p.distinct,
    eq_iff r.operation_digest digest,
    eq_iff r.repository d.repository,
    eq_iff r.operation d.operation,
    eq_iff r.principal user,
    eq_iff r.approver r.principal,
  )

module _ {V : Type 0} (canonical_hash : OperationPayload V → String) where
  -- An approval that was issued for the write `e` is consumed by exactly the call that presents this very write,
  -- in every argument, precondition and version, for its principal and in its scope, while it is pending and
  -- has not expired, and for a merge by a second person; and what is returned then is the record as it is
  -- spent. The payloads of the two writes are assumed not to collide under the hash.
  pub consume_exactly :
      (i : String) (d e : OperationDescriptor V) (user : String) (now : ℕ) (s : ApprovalStore)
      (r : ApprovalRecord)
      → (canonical_hash (canonical_payload d) ≡ canonical_hash (canonical_payload e)
          → canonical_payload d ≡ canonical_payload e)
      → Dict.get s i ≡ some r
      → r.operation_digest ≡ compute_operation_digest canonical_hash e
      → ((is_ok (verify_and_consume canonical_hash i d user now s).1 ≡ true)
          ↔ (Permits r d user now × (d ≡ e)))
        × ((verify_and_consume canonical_hash i d user now s).1 ≡ ok (spent_now r now)
            ⊎ (is_ok (verify_and_consume canonical_hash i d user now s).1 ≡ false))
  unfolding verify_and_consume compute_operation_digest
  consume_exactly i d e user now s r no_collision found issued =
      let digest = canonical_hash (canonical_payload d) in
      let done = granted-Permits i digest d user now s r in
      rw found (
        (
          λ h. (
            (done h).0,
            canonical_payload-injective d e (no_collision (sym (done h).1 ∙ issued)),
          ),
          λ (p, same).
              Permits-granted i digest d user now s r p
                (issued ∙ ap (λ t. canonical_hash (canonical_payload t)) (sym same)),
        ),
        elim (Bool-cases (is_ok (outcome i digest d user now s r))) [
          | inl h ↦ inl (done h).2
          | inr h ↦ inr h
        ],
      )
