-- ===== src/Mutation/Approvals/Spec.antt =====
-- The approvals of src/hermes_mcp_bridge/v2/mutation_digest.py against what they promise: a token that is
-- handed out once, and then spent once or closed. The store's lock makes each call one step.
use hermes_mcp_bridge.Base.Dict
use hermes_mcp_bridge.Base.Dict.{Dict, get, set, get-set}
use hermes_mcp_bridge.Base.{
  is_ok, inr, inl, ◌≤◌, maybe_ind, Option-cases, Bool, List, Result, String, [], ap, arith, eq_iff,
  false, if◌then◌else◌, maybe, none, refl, some, str_eq, true, ℕ, ◌&&◌, ◌+◌, ◌∷◌, ◌≡◌, ◌⊎◌,
}
use hermes_mcp_bridge.Mutation.Kinds.{
  ApprovalState, consumed, expired, is_consumed, is_usable, revoked,
}
use hermes_mcp_bridge.Mutation.Approvals.{
  compute_operation_digest, MutationError, ApprovalRecord, ApprovalStore, OperationDescriptor,
  OperationPayload, verify_and_consume, consume_record, is_expired, issue, purge_expired, revoke,
}

-- The specification, of one token.
pub data Phase : Type 0 where
  absent usable spent closed : Phase

-- A step is a grant or not; a grant spends the token.
abbrev pub Step : Phase → Bool → Phase → Type 0
Step p true q = (p ≡ usable) × (q ≡ spent)
Step p false q = (p ≡ q) ⊎ (p ≡ absent) × (q ≡ usable) ⊎ (p ≡ usable) × (q ≡ closed)

abbrev pub Trace : Phase → List Bool → Phase → Type 0
Trace p [] q = p ≡ q
Trace p (g ∷ gs) q = (m : Phase) × Step p g m × Trace m gs q

abbrev pub spent_count : Phase → ℕ
spent_count spent = 1
spent_count _ = 0

abbrev pub count : List Bool → ℕ
count [] = 0
count (g ∷ gs) = (if g then 1 else 0) + count gs

-- A token is granted once, where it ends as spent and did not begin so.
Trace-count :
    (p : Phase) (gs : List Bool) (q : Phase)
    → Trace p gs q
    → count gs + spent_count p ≡ spent_count q
Trace-count p [] q t = omega (arith, ap spent_count t)
Trace-count p (true ∷ gs) q (m, (a, b), t) =
    omega (arith, Trace-count m gs q t, ap spent_count a, ap spent_count b)
Trace-count p (false ∷ gs) q (m, st, t) = ground (arith, Trace-count m gs q t)

spent_count_bound : (p : Phase) → spent_count p ≤ 1
spent_count_bound p = ground arith

-- What the store shows of an approval.
abbrev pub phase_of : ApprovalState → Phase
phase_of ApprovalState.pending = usable
phase_of consumed = spent
phase_of expired = closed
phase_of revoked = closed

abbrev pub phase : String → ApprovalStore → Phase
phase i s = maybe (Dict.get s i) absent (λ r. phase_of r.state)

pub data Call (V : Type 0) : Type 0 where
  issue_call : ApprovalRecord → Call V
  revoke_call : String → Call V
  consume_call : String → OperationDescriptor V → String → ℕ → Call V
  purge_call : ℕ → Call V

turned : ℕ → ApprovalRecord → ApprovalRecord
turned now r = if is_usable r.state && is_expired r now then record r { state = expired } else r

get-purge_expired :
    (now : ℕ) (s : ApprovalStore) (i : String)
    → Dict.get (purge_expired now s).0 i ≡ maybe (Dict.get s i) none (λ r. some (turned now r))
unfolding purge_expired get turned
get-purge_expired now [] i = refl
get-purge_expired now ((j, r) ∷ s) i = ground (arith, get-purge_expired now s i)

phase-turned :
    (now : ℕ) (r : ApprovalRecord) → Step (phase_of r.state) false (phase_of (turned now r).state)
unfolding turned is_usable
phase-turned now r = ground arith

module _ {V : Type 0} (canonical_hash : OperationPayload V → String) where
  abbrev pub apply : Call V → ApprovalStore → ApprovalStore
  apply (issue_call r) s = (issue r s).0
  apply (revoke_call i) s = revoke i s
  apply (consume_call i d p now) s = (verify_and_consume canonical_hash i d p now s).0
  apply (purge_call now) s = (purge_expired now s).0

  -- Whether a call hands out the authority that the approval stands for.
  abbrev pub granted : String → Call V → ApprovalStore → Bool
  granted i (consume_call j d p now) s =
      str_eq j i && is_ok (verify_and_consume canonical_hash j d p now s).1
  granted i _ s = false

  abbrev pub apply_all : List (Call V) → ApprovalStore → ApprovalStore
  apply_all [] s = s
  apply_all (c ∷ cs) s = apply_all cs (apply c s)

  abbrev pub grants : String → List (Call V) → ApprovalStore → List Bool
  grants i [] s = []
  grants i (c ∷ cs) s = granted i c s ∷ grants i cs (apply c s)

  consume_record-Step :
      (i j : String) (d : OperationDescriptor V) (p : String) (now : ℕ) (s : ApprovalStore)
      (r : ApprovalRecord) (digest : String)
      → Dict.get s j ≡ some r
      → Step
          (phase i s)
          (str_eq j i && is_ok (consume_record j digest d p now r s).1)
          (phase i (consume_record j digest d p now r s).0)
  unfolding consume_record is_usable is_consumed
  consume_record-Step i j d p now s r digest h = ground (
    arith,
    eq_iff j i,
    get-set s j i (record r { state = expired }),
    get-set s j i (record r { state = consumed; consumed_at = some now }),
  )

  consume-Step :
      (i j : String) (d : OperationDescriptor V) (p : String) (now : ℕ) (s : ApprovalStore)
      → Step
          (phase i s)
          (granted i (consume_call j d p now) s)
          (phase i (apply (consume_call j d p now) s))
  unfolding verify_and_consume
  consume-Step i j d p now s =
      maybe_ind
        (λ (t : ApprovalStore × Result MutationError ApprovalRecord).
          Step (phase i s) (str_eq j i && is_ok t.1) (phase i t.0))
        (Dict.get s j) (λ e. ground arith)
        λ r. consume_record-Step i j d p now s r (compute_operation_digest canonical_hash d)

  revoke-Step : (i j : String) (s : ApprovalStore) → Step (phase i s) false (phase i (revoke j s))
  unfolding revoke is_usable
  revoke-Step i j s =
      maybe_ind (λ t. Step (phase i s) false (phase i t)) (Dict.get s j) (λ e. inl refl)
        λ r h. ground (arith, eq_iff j i, get-set s j i (record r { state = revoked }))

  purge-Step :
      (i : String) (now : ℕ) (s : ApprovalStore)
      → Step (phase i s) false (phase i (purge_expired now s).0)
  purge-Step i now s = elim (Option-cases (Dict.get s i)) [
    | inl e ↦ rw (get-purge_expired now s i, e) (inl refl)
    | inr (r, e) ↦ rw (get-purge_expired now s i, e) (phase-turned now r)
  ]

  apply-Step :
      (i : String) (c : Call V) (s : ApprovalStore)
      → Step (phase i s) (granted i c s) (phase i (apply c s))
  unfolding issue is_usable
  apply-Step i (issue_call r) s =
      ground (arith, eq_iff r.approval_id i, get-set s r.approval_id i r)
  apply-Step i (revoke_call j) s = revoke-Step i j s
  apply-Step i (consume_call j d p now) s = consume-Step i j d p now s
  apply-Step i (purge_call now) s = purge-Step i now s

  apply_all-Trace :
      (i : String) (cs : List (Call V)) (s : ApprovalStore)
      → Trace (phase i s) (grants i cs s) (phase i (apply_all cs s))
  apply_all-Trace i [] s = refl
  apply_all-Trace i (c ∷ cs) s =
      (phase i (apply c s), apply-Step i c s, apply_all-Trace i cs (apply c s))

  -- Whatever calls clients make in whatever order, every approval of the store behaves as a token of the
  -- specification: it is usable only once it has been issued, is granted only while it is usable, a grant
  -- spends it, and nothing makes a spent or closed one usable again. So the calls grant it at most once, and
  -- once exactly where it ends as spent and was not spent before.
  pub calls-IsRefining :
      (i : String) (cs : List (Call V)) (s : ApprovalStore)
      → Trace (phase i s) (grants i cs s) (phase i (apply_all cs s))
        × (count (grants i cs s) + spent_count (phase i s) ≡ spent_count (phase i (apply_all cs s)))
        × (count (grants i cs s) ≤ 1)
  calls-IsRefining i cs s =
      let t = apply_all-Trace i cs s in
      let c = Trace-count (phase i s) (grants i cs s) (phase i (apply_all cs s)) t in
      (t, c, omega (arith, c, spent_count_bound (phase i (apply_all cs s))))
