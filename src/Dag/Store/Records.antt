-- ===== src/Dag/Store/Records.antt =====
-- `save` and `load` of src/hermes_mcp_bridge/v2/dag_store.py, and bodies that are changed behind the store.
use hermes_mcp_bridge.Base.Dict
use mathlib.Core.Path.{subst}
use hermes_mcp_bridge.Base.{
  eq_iff, ◌∙◌, ◌≢◌, arith, err, Result, List, Result, String, [], and_then_ind, ap, if_ind, inl,
  inr, ltb, maybe_ind, ok, refl, attempt_ind, ◌+◌, some, ℕ, ◌∷◌, ◌≡◌,
}
use hermes_mcp_bridge.Base.Dict.{get-set_self, Dict, IsUnique, get, get-by_key, get-set_cases}
use hermes_mcp_bridge.Dag.Contract.{checkpoint_tampered, DagError}
use hermes_mcp_bridge.Dag.Json.{store_error, Json, assert_no_secret_material}
use hermes_mcp_bridge.Dag.Body.Codec.{IsKeyed}
use hermes_mcp_bridge.Dag.Body.Codec.Reads.{
  body-sorted_checkpoint, checkpoint_from_body-body, sorted_checkpoint,
}
use hermes_mcp_bridge.Dag.Store.{
  leased, refused, Leaves, load, schema, empty, Call, Checkpoint, CheckpointStore, Row,
  acquire_lease, apply, apply_all, approval_holder, body, checked, consume_approval, consume_call,
  create, create_call, grant, lease_call, load, put, save, save_call, save_row, schema,
}

module _ (lower : String → String) (sha256_hex : Json → String) where
  -- A row as `create`, `save` and `acquire_lease` leave it: its digest is that of its body.
  abbrev pub IsIntact : Row → Type 0
  IsIntact row = row.record_digest ≡ sha256_hex row.body

  abbrev pub AllIntact : CheckpointStore → Type 0
  AllIntact s = (e : String) (row : Row) → Dict.get s.rows e ≡ some row → IsIntact row

  put-AllIntact :
      (k : String) (new_row : Row) (s : CheckpointStore)
      → IsIntact new_row
      → AllIntact s
      → AllIntact (put k new_row s)
  put-AllIntact k new_row s h all e row found = elim (get-set_cases s.rows k e new_row row found) [
    | inl (same, is) ↦ subst IsIntact is h
    | inr (other, old) ↦ all e row old
  ]

  moved-AllIntact :
      {A : Type 0} {s s' : CheckpointStore} {r r' : A}
      → ◌≡◌ {A = CheckpointStore × A} (s, r) (s', r')
      → AllIntact s
      → AllIntact s'
  moved-AllIntact t h = subst AllIntact (ap (λ t. t.0) t) h

  create-AllIntact :
      (c : Checkpoint) (s : CheckpointStore)
      → AllIntact s
      → AllIntact (create lower sha256_hex c s).0
  unfolding create
  create-AllIntact c s h =
      and_then_ind (Leaves AllIntact) (s, assert_no_secret_material lower (body c))
        (λ s' a t.
          maybe_ind (Leaves AllIntact) (Dict.get s'.rows c.execution_id)
            (λ free. put-AllIntact c.execution_id _ s' refl (moved-AllIntact t h))
            (λ row found. moved-AllIntact t h))
        (λ s' x t. moved-AllIntact t h)

  save-AllIntact :
      (c : Checkpoint) (f : ℕ) (s : CheckpointStore)
      → AllIntact s
      → AllIntact (save lower sha256_hex c f s).0
  unfolding save save_row
  save-AllIntact c f s h =
      and_then_ind (Leaves AllIntact) (s, assert_no_secret_material lower (body c))
        (λ s' a t.
          maybe_ind (Leaves AllIntact) (Dict.get s'.rows c.execution_id)
            (λ free. moved-AllIntact t h)
            (λ row found.
              if_ind (Leaves AllIntact) (ltb f row.fence_token) (λ _. moved-AllIntact t h)
                (λ _. put-AllIntact c.execution_id _ s' refl (moved-AllIntact t h))))
        (λ s' x t. moved-AllIntact t h)

  acquire_lease-AllIntact :
      (e owner : String) (x : ℕ) (s : CheckpointStore)
      → AllIntact s
      → AllIntact (acquire_lease lower sha256_hex e owner x s).0
  unfolding acquire_lease grant
  acquire_lease-AllIntact e owner x s h =
      maybe_ind (Leaves AllIntact) (Dict.get s.rows e) (λ _. h)
        (λ row found.
          attempt_ind (Leaves AllIntact) (leased owner (row.fence_token + 1) x row.body) (λ _ _. h)
            (λ c read. put-AllIntact e _ s refl h))

  consume_approval-AllIntact :
      (a nonce e : String) (s : CheckpointStore)
      → AllIntact s
      → AllIntact (consume_approval a nonce e s).0
  unfolding consume_approval
  consume_approval-AllIntact a nonce e s h =
      maybe_ind (Leaves AllIntact) (approval_holder a nonce s) (λ _. h) (λ _ _. h)

  apply_all-AllIntact :
      (cs : List Call) (s : CheckpointStore)
      → AllIntact s
      → AllIntact (apply_all lower sha256_hex cs s)
  unfolding apply_all apply
  apply_all-AllIntact [] s h = h
  apply_all-AllIntact (create_call c ∷ cs) s h = apply_all-AllIntact cs _ (create-AllIntact c s h)
  apply_all-AllIntact (save_call c f ∷ cs) s h = apply_all-AllIntact cs _ (save-AllIntact c f s h)
  apply_all-AllIntact (lease_call e owner x ∷ cs) s h =
      apply_all-AllIntact cs _ (acquire_lease-AllIntact e owner x s h)
  apply_all-AllIntact (consume_call a nonce e ∷ cs) s h =
      apply_all-AllIntact cs _ (consume_approval-AllIntact a nonce e s h)

  -- Where the step returned, the checkpoint is what is loaded, up to the order of its dictionaries.
  abbrev pub Loads : Checkpoint → CheckpointStore × Result DagError (Unit {0}) → Type 0
  Loads c t = t.1 ≡ ok tt → load lower sha256_hex c.execution_id t.0 ≡ ok (sorted_checkpoint c)

  -- The row of a checkpoint as it is written.
  checked-written :
      (c : Checkpoint) (row : Row)
      → row.body ≡ body c
      → row.record_digest ≡ sha256_hex (body c)
      → c.schema_version ≡ schema
      → IsKeyed c.node_states
      → checked lower sha256_hex row ≡ ok (sorted_checkpoint c)
  unfolding checked
  checked-written c row b d v keyed =
      rw (b, checkpoint_from_body-body c keyed, body-sorted_checkpoint c, d)
        (unfold body in
          ground (
            arith,
            v,
            eq_iff c.schema_version schema,
            eq_iff (sha256_hex (body c)) (sha256_hex (body c)),
          ))

  -- A row whose digest is not that of the checkpoint in it.
  checked-forged :
      (c : Checkpoint) (row : Row)
      → sha256_hex (body c) ≢ row.record_digest
      → c.schema_version ≡ schema
      → IsKeyed c.node_states
      → checked lower sha256_hex (record row { body = body c })
        ≡ err (refused (store_error checkpoint_tampered "record digest"))
  unfolding checked
  checked-forged c row differ v keyed =
      rw (checkpoint_from_body-body c keyed, body-sorted_checkpoint c)
        (unfold body in
          ground (
            arith,
            v,
            eq_iff c.schema_version schema,
            eq_iff (sha256_hex (body c)) row.record_digest,
            differ,
          ))

  load-put :
      (c : Checkpoint) (row : Row) (s : CheckpointStore)
      → row.body ≡ body c
      → row.record_digest ≡ sha256_hex (body c)
      → c.schema_version ≡ schema
      → IsKeyed c.node_states
      → load lower sha256_hex c.execution_id (put c.execution_id row s) ≡ ok (sorted_checkpoint c)
  unfolding load
  load-put c row s b d v keyed =
      rw (get-set_self s.rows c.execution_id row) (checked-written c row b d v keyed)

  pub save-Loads :
      (c : Checkpoint) (f : ℕ) (s : CheckpointStore)
      → c.schema_version ≡ schema
      → IsKeyed c.node_states
      → Loads c (save lower sha256_hex c f s)
  unfolding save save_row
  save-Loads c f s v keyed =
      and_then_ind (Loads c) (s, assert_no_secret_material lower (body c))
        (λ s' a t.
          maybe_ind (Loads c) (Dict.get s'.rows c.execution_id) (λ free q. absurd (cc q))
            (λ row found.
              if_ind (Loads c) (ltb f row.fence_token) (λ _ q. absurd (cc q))
                (λ _ q. load-put c _ s' refl refl v keyed)))
        (λ s' x t q. absurd (cc q))

  -- A round trip through the JSON of a body: a checkpoint of the supported schema that `save` accepts, in
  -- which each node's state stands under its own node and no key of a dictionary twice, is what `load` then
  -- reads, with every field of it, of its lease and of its node states. Only the order of its two
  -- dictionaries is the one of their keys: each look-up in them finds what it found.
  pub load-save :
      (c : Checkpoint) (f : ℕ) (s : CheckpointStore)
      → (save lower sha256_hex c f s).1 ≡ ok tt
      → c.schema_version ≡ schema
      → IsKeyed c.node_states
      → IsUnique c.budget_consumed
      → (load lower sha256_hex c.execution_id (save lower sha256_hex c f s).0
          ≡ ok (sorted_checkpoint c))
        × ((i : String) → get (sorted_checkpoint c).node_states i ≡ get c.node_states i)
        × ((i : String) → get (sorted_checkpoint c).budget_consumed i ≡ get c.budget_consumed i)
  load-save c f s h v keyed once = (
    save-Loads c f s v keyed h,
    λ i. get-by_key c.node_states i keyed.1,
    λ i. get-by_key c.budget_consumed i once,
  )

  -- Tampering is seen: where calls on an empty store have led to a row that holds the body of a checkpoint, and
  -- this is then replaced behind the store by the body of one whose digest is another, `load` refuses it; where
  -- nothing was replaced, it returns that checkpoint, up to the order of its dictionaries. Both are of the supported
  -- schema, and in both each node's state stands under its own node, once.
  pub tampering_refused :
      (cs : List Call) (e : String) (row : Row) (c forged : Checkpoint)
      → Dict.get (apply_all lower sha256_hex cs empty).rows e ≡ some row
      → row.body ≡ body c
      → c.schema_version ≡ schema
      → forged.schema_version ≡ schema
      → IsKeyed c.node_states
      → IsKeyed forged.node_states
      → sha256_hex (body forged) ≢ sha256_hex (body c)
      → let s = apply_all lower sha256_hex cs empty in
        (load lower sha256_hex e s ≡ ok (sorted_checkpoint c))
        × (load lower sha256_hex e (put e (record row { body = body forged }) s)
            ≡ err (refused (store_error checkpoint_tampered "record digest")))
  unfolding load
  tampering_refused cs e row c forged found b v v' keyed keyed' differ =
      let s = apply_all lower sha256_hex cs empty in
      let d =
        apply_all-AllIntact cs empty (λ e row q. absurd (unfold Dict.get in cc q)) e row found
        ∙ ap sha256_hex b in
      (
        rw found (checked-written c row b d v keyed),
        rw (get-set_self s.rows e (record row { body = body forged }))
            (checked-forged forged row (λ q. differ (q ∙ d)) v' keyed'),
      )
