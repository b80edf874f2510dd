-- ===== src/Dag/Body/Codec/Leases.antt =====
-- The lease that `checkpoint_from_body` of src/hermes_mcp_bridge/v2/dag_store.py reads.
use hermes_mcp_bridge.Base.{
  Bool-cases, String, [], ap, arith, eq_iff, false, inl, inr, none, ok, ok-chain, ok-injective,
  refl, some, str_eq, sym, ℕ, ◌∙◌, ◌≡◌,
}
use hermes_mcp_bridge.Dag.Json.{Fields, Json, field, no_fields, no_items, number, object, text}
use hermes_mcp_bridge.Dag.Transform.{get_field, set_field}
use hermes_mcp_bridge.Dag.Body.{Checkpoint, Lease}
use hermes_mcp_bridge.Dag.Body.Codec.{
  as_boolean, as_fields, as_items, as_number, as_option, as_text, at, at_or, budget_from,
  checkpoint_from_body, lease_from, plan_status, states_from,
}

-- The lease of what is read is the one that stands in the body.
pub checkpoint_from_body-lease :
    (f : Fields) (c : Checkpoint)
    → checkpoint_from_body (object f) ≡ ok c
    → (l : Fields) × (at as_fields f "lease" ≡ ok l) × (lease_from l ≡ ok c.lease)
unfolding checkpoint_from_body
checkpoint_from_body-lease f c h0 =
    let (l, found, h1) = ok-chain (at as_fields f "lease") _ h0 in
    let (_, _, h2) = ok-chain (at as_text f "execution_id") _ h1 in
    let (_, _, h3) = ok-chain (at as_text f "plan_digest") _ h2 in
    let (_, _, h4) = ok-chain (at as_text f "principal_ref") _ h3 in
    let (_, _, h5) = ok-chain (at as_text f "projection_digest") _ h4 in
    let (_, _, h6) = ok-chain (at as_text f "policy_digest") _ h5 in
    let (_, _, h7) = ok-chain (at as_text f "schema_version") _ h6 in
    let (_, _, h8) = ok-chain (at_or none as_option f "approval_ref") _ h7 in
    let (named_status, _, h9) = ok-chain (at_or none as_option f "status") _ h8 in
    let (_, _, h10) = ok-chain (plan_status named_status) _ h9 in
    let (_, _, h11) = ok-chain (at_or false as_boolean f "replay") _ h10 in
    let (budget, _, h12) = ok-chain (at_or no_fields as_fields f "budget_consumed") _ h11 in
    let (_, _, h13) = ok-chain (budget_from budget) _ h12 in
    let (lease, read, h14) = ok-chain (lease_from l) _ h13 in
    let (entries, _, h15) = ok-chain (at_or no_items as_items f "node_states") _ h14 in
    let (_, _, h16) = ok-chain (states_from entries []) _ h15 in
    (l, found, read ∙ ap ok (ap (λ (c : Checkpoint). c.lease) (ok-injective h16)))

get_field-set_field : (k : String) (v : Json) (f : Fields) → get_field (set_field k v f) k ≡ some v
unfolding set_field
get_field-set_field k v no_fields = ground (arith, eq_iff k k)
get_field-set_field k v (field j u f) = elim (Bool-cases (str_eq j k)) [
  | inl same ↦ rw same (ground (arith, eq_iff k k))
  | inr other ↦ rw other (rw other (get_field-set_field k v f))
]

token_of :
    (owner : String) (token expires : ℕ) (heartbeat : Json) (l : Lease)
    → lease_from (
        field "owner_id" (text owner) (
          field "fence_token"
            (number token)
            (field "expires_at_ms" (number expires) (field "heartbeat_at_ms" heartbeat no_fields))))
      ≡ ok l
    → l.fence_token ≡ token
unfolding lease_from
token_of owner token expires heartbeat l h =
    let (_, _, last) = ok-chain (as_number "heartbeat_at_ms" heartbeat) _ h in
    ap (λ (l : Lease). l.fence_token) (sym (ok-injective last))

-- A lease that is written into a body is read from it with its token.
pub lease_token :
    (owner : String) (token expires : ℕ) (heartbeat : Json) (f : Fields) (c : Checkpoint)
    → checkpoint_from_body (
        object (
          set_field "lease"
            (object (
              field "owner_id" (text owner) (
                field "fence_token" (number token) (
                  field "expires_at_ms"
                    (number expires)
                    (field "heartbeat_at_ms" heartbeat no_fields)))))
            f))
      ≡ ok c
    → c.lease.fence_token ≡ token
lease_token owner token expires heartbeat f c h =
    let written = field "owner_id" (text owner) (
      field "fence_token" (number token)
        (field "expires_at_ms" (number expires) (field "heartbeat_at_ms" heartbeat no_fields))) in
    let (l, found, read) = checkpoint_from_body-lease (set_field "lease" (object written) f) c h in
    let there : at as_fields (set_field "lease" (object written) f) "lease" ≡ ok written =
      rw (get_field-set_field "lease" (object written) f) refl in
    let is_written = ok-injective (sym there ∙ found) in
    token_of owner token expires heartbeat c.lease (ap lease_from is_written ∙ read)
