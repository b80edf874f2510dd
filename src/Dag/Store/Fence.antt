-- ===== src/Dag/Store/Fence.antt =====
-- Fencing: the token of a row never falls, and a writer with an older lease is shut out.
use mathlib.Core.Path.{subst}
use mathlib.Core.Option.{some-injective}
use hermes_mcp_bridge.Base.Dict
use hermes_mcp_bridge.Base.{
  attempt_ind, ok-chain, ◌+◌, lt→ltb, ok-injective, err, ◌<◌, ok, Bool-cases, List, Result, String,
  [], and_then_ind, ap, arith, eq_iff, if_ind, inl, inr, ltb, maybe_ind, refl, some, str_eq, sym, ℕ,
  ◌∙◌, ◌∷◌, ◌≡◌, ◌≤◌,
}
use hermes_mcp_bridge.Base.Dict.{get-set_self, Dict, get, get-set}
use hermes_mcp_bridge.Dag.Contract.{lease_fence_stale}
use hermes_mcp_bridge.Dag.Json.{number, store_error, Json, assert_no_secret_material}
use hermes_mcp_bridge.Dag.Body.Codec.{as_fields, at, at_or}
use hermes_mcp_bridge.Dag.Body.Codec.Leases.{lease_token}
use hermes_mcp_bridge.Dag.Store.{
  LoadError, leased, Leaves, Lease, Call, Checkpoint, CheckpointStore, Row, acquire_lease, apply,
  apply_all, approval_holder, body, consume_approval, consume_call, create, create_call, grant,
  lease_call, put, save, save_call, save_row,
}

-- The execution has a row whose token is at least `f`.
abbrev pub HasFence : String → ℕ → CheckpointStore → Type 0
HasFence e f s = (row : Row) × (Dict.get s.rows e ≡ some row) × (f ≤ row.fence_token)

moved :
    {A : Type 0} (e : String) (f : ℕ) {s s' : CheckpointStore} {r r' : A}
    → ◌≡◌ {A = CheckpointStore × A} (s, r) (s', r')
    → HasFence e f s
    → HasFence e f s'
moved e f t h = subst (HasFence e f) (ap (λ t. t.0) t) h

put-HasFence :
    (k e : String) (f : ℕ) (new_row : Row) (s : CheckpointStore)
    → (k ≡ e → f ≤ new_row.fence_token)
    → HasFence e f s
    → HasFence e f (put k new_row s)
put-HasFence k e f new_row s higher (row, found, le) = elim (Bool-cases (str_eq k e)) [
  | inl same ↦ (new_row, get-set s.rows k e new_row ∙ rw same refl, higher ((eq_iff k e).0 same))
  | inr other ↦ (row, get-set s.rows k e new_row ∙ rw other found, le)
]

-- The row that `maybe` finds is the one of the fence, where the keys agree.
found_fence :
    (k e : String) (f : ℕ) (row : Row) (s : CheckpointStore)
    → Dict.get s.rows k ≡ some row
    → HasFence e f s
    → k ≡ e
    → f ≤ row.fence_token
found_fence k e f row s found (row', found', le) same =
    subst (λ r. f ≤ r.fence_token)
      (some-injective _ _ (sym found' ∙ ap (Dict.get s.rows) (sym same) ∙ found)) le

leased-token :
    (owner : String) (token x : ℕ) (payload : Json) (c : Checkpoint)
    → leased owner token x payload ≡ ok c
    → c.lease.fence_token ≡ token
unfolding leased
leased-token owner token x payload c h =
    let (f, _, h1) = ok-chain (as_fields "body" payload) _ h in
    let (old, _, h2) = ok-chain (at as_fields f "lease") _ h1 in
    let (heartbeat, _, h3) = ok-chain (at_or (number 0) (λ k v. ok v) old "heartbeat_at_ms") _ h2 in
    lease_token owner token x heartbeat f c h3

module _ (lower : String → String) (sha256_hex : Json → String) where
  create-HasFence :
      (c : Checkpoint) (e : String) (f : ℕ) (s : CheckpointStore)
      → HasFence e f s
      → HasFence e f (create lower sha256_hex c s).0
  unfolding create
  create-HasFence c e f s h =
      and_then_ind (Leaves (HasFence e f)) (s, assert_no_secret_material lower (body c))
        (λ s' a t.
          maybe_ind (Leaves (HasFence e f)) (Dict.get s'.rows c.execution_id)
            (λ free.
              put-HasFence c.execution_id e f _ s'
                (λ same. let found = (moved e f t h).1 in absurd (cc (free, same, found)))
                (moved e f t h))
            (λ row found. moved e f t h))
        (λ s' x t. moved e f t h)

  save-HasFence :
      (c : Checkpoint) (g : ℕ) (e : String) (f : ℕ) (s : CheckpointStore)
      → HasFence e f s
      → HasFence e f (save lower sha256_hex c g s).0
  unfolding save save_row
  save-HasFence c g e f s h =
      and_then_ind (Leaves (HasFence e f)) (s, assert_no_secret_material lower (body c))
        (λ s' a t.
          maybe_ind (Leaves (HasFence e f)) (Dict.get s'.rows c.execution_id)
            (λ free. moved e f t h)
            (λ row found.
              if_ind (Leaves (HasFence e f)) (ltb g row.fence_token) (λ _. moved e f t h)
                (λ high.
                  put-HasFence c.execution_id e f _ s'
                    (λ same.
                      let le = found_fence c.execution_id e f row s' found (moved e f t h) same in
                      ground arith)
                    (moved e f t h))))
        (λ s' x t. moved e f t h)

  acquire_lease-HasFence :
      (k owner : String) (x : ℕ) (e : String) (f : ℕ) (s : CheckpointStore)
      → HasFence e f s
      → HasFence e f (acquire_lease lower sha256_hex k owner x s).0
  unfolding acquire_lease grant
  acquire_lease-HasFence k owner x e f s h =
      maybe_ind (Leaves (HasFence e f)) (Dict.get s.rows k) (λ _. h)
        (λ row found.
          attempt_ind (Leaves (HasFence e f)) (leased owner (row.fence_token + 1) x row.body)
            (λ _ _. h)
            (λ c read.
              put-HasFence k e f _ s
                (λ same. let le = found_fence k e f row s found h same in omega arith) h))

  consume-HasFence :
      (a nonce k e : String) (f : ℕ) (s : CheckpointStore)
      → HasFence e f s
      → HasFence e f (consume_approval a nonce k s).0
  unfolding consume_approval
  consume-HasFence a nonce k e f s h =
      maybe_ind (Leaves (HasFence e f)) (approval_holder a nonce s) (λ _. h) (λ _ _. h)

  apply-HasFence :
      (c : Call) (e : String) (f : ℕ) (s : CheckpointStore)
      → HasFence e f s
      → HasFence e f (apply lower sha256_hex c s)
  unfolding apply
  apply-HasFence (create_call c) e f s h = create-HasFence c e f s h
  apply-HasFence (save_call c g) e f s h = save-HasFence c g e f s h
  apply-HasFence (lease_call k owner x) e f s h = acquire_lease-HasFence k owner x e f s h
  apply-HasFence (consume_call a nonce k) e f s h = consume-HasFence a nonce k e f s h

  apply_all-HasFence :
      (cs : List Call) (e : String) (f : ℕ) (s : CheckpointStore)
      → HasFence e f s
      → HasFence e f (apply_all lower sha256_hex cs s)
  unfolding apply_all
  apply_all-HasFence [] e f s h = h
  apply_all-HasFence (c ∷ cs) e f s h =
      apply_all-HasFence cs e f (apply lower sha256_hex c s) (apply-HasFence c e f s h)

  acquired-HasFence :
      (e owner : String) (x : ℕ) (l : Lease) (s : CheckpointStore)
      → (acquire_lease lower sha256_hex e owner x s).1 ≡ ok l
      → HasFence e l.fence_token (acquire_lease lower sha256_hex e owner x s).0
  unfolding acquire_lease grant
  acquired-HasFence e owner x l s =
      maybe_ind
        (λ (t : CheckpointStore × Result LoadError Lease).
          t.1 ≡ ok l → HasFence e l.fence_token t.0)
        (Dict.get s.rows e) (λ _ h. cc)
        (λ row found.
          attempt_ind
            (λ (t : CheckpointStore × Result LoadError Lease).
              t.1 ≡ ok l → HasFence e l.fence_token t.0)
            (leased owner (row.fence_token + 1) x row.body) (λ _ _ h. absurd (cc h))
            (λ c read h. (
              _,
              get-set_self s.rows e _,
              let token = leased-token owner (row.fence_token + 1) x row.body c read in
                  subst (λ m. m.fence_token ≤ row.fence_token + 1) (ok-injective h)
                    (omega (arith, token)),
            )))

  outranks :
      (e owner : String) (x f : ℕ) (l : Lease) (s : CheckpointStore)
      → HasFence e f s
      → (acquire_lease lower sha256_hex e owner x s).1 ≡ ok l
      → f < l.fence_token
  unfolding acquire_lease grant
  outranks e owner x f l s h =
      maybe_ind (λ (t : CheckpointStore × Result LoadError Lease). t.1 ≡ ok l → f < l.fence_token)
        (Dict.get s.rows e) (λ _ q. absurd (cc q))
        (λ row found.
          attempt_ind
            (λ (t : CheckpointStore × Result LoadError Lease). t.1 ≡ ok l → f < l.fence_token)
            (leased owner (row.fence_token + 1) x row.body) (λ _ _ q. absurd (cc q))
            (λ c read q.
              let le = found_fence e e f row s found h refl in
              let token = leased-token owner (row.fence_token + 1) x row.body c read in
              subst (λ m. f < m.fence_token) (ok-injective q) (omega (arith, token))))

  -- Leases have an order: of two leases of one execution, the one that is granted later has the greater
  -- fence token, whatever calls are made between them.
  pub leases_increase :
      (e owner owner' : String) (x x' : ℕ) (l l' : Lease) (cs : List Call) (s : CheckpointStore)
      → (acquire_lease lower sha256_hex e owner x s).1 ≡ ok l
      → let between =
          apply_all lower sha256_hex cs (acquire_lease lower sha256_hex e owner x s).0 in
        (acquire_lease lower sha256_hex e owner' x' between).1 ≡ ok l'
        → l.fence_token < l'.fence_token
  leases_increase e owner owner' x x' l l' cs s h h' =
      outranks e owner' x' l.fence_token l' _
        (apply_all-HasFence cs e l.fence_token _ (acquired-HasFence e owner x l s h)) h'

  -- Fencing: once a lease is granted, every save of that execution under a smaller token is refused as
  -- stale and changes nothing, after any further calls; the checkpoint is one that has no secret in it, for
  -- otherwise it is refused before.
  pub stale_writer_refused :
      (e owner : String) (x : ℕ) (l : Lease) (cs : List Call) (c : Checkpoint) (f : ℕ)
      (s : CheckpointStore)
      → (acquire_lease lower sha256_hex e owner x s).1 ≡ ok l
      → c.execution_id ≡ e
      → f < l.fence_token
      → assert_no_secret_material lower (body c) ≡ ok tt
      → let later = apply_all lower sha256_hex cs (acquire_lease lower sha256_hex e owner x s).0 in
        save lower sha256_hex c f later
        ≡ (later, err (store_error lease_fence_stale "stale fence token"))
  unfolding save save_row
  stale_writer_refused e owner x l cs c f s h same low clean =
      let later = apply_all lower sha256_hex cs (acquire_lease lower sha256_hex e owner x s).0 in
      let (row, found, le) =
        apply_all-HasFence cs e l.fence_token (acquire_lease lower sha256_hex e owner x s).0
          (acquired-HasFence e owner x l s h) in
      rw (clean, same, found, lt→ltb f row.fence_token (omega arith)) refl
