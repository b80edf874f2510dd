-- ===== src/Mutation/Idempotency/Key.antt =====
-- The derivation of the idempotency key, `compute_idempotency_key`. `canonical_hash` of v2/canonical.py sorts the
-- keys; SHA-256 of the JSON text behind it, both of the standard library, is a parameter: a function from the
-- sorted items to digests.
use mathlib.Core.Option.{some-injective}
use hermes_mcp_bridge.Base.{
  Option-cases, inl, inr, ◌↔◌, ◌>>◌, ◌>>=◌, ◌∙◌, sym, ap, refl, arith, if◌then◌else◌, Option,
  Result, String, [], maybe, none, not, ok, require, some, str_eq, ◌∷◌, ◌≡◌,
}
use hermes_mcp_bridge.Base.Dict.{Dict, by_key}
use hermes_mcp_bridge.Mutation.Kinds.{
  MutationError, WriteCapabilityId, branch, deny, idempotency, invalid_arguments, merge, pr,
}
use hermes_mcp_bridge.Mutation.Grammar.{require_digest, require_repository}

-- What names the write: the server's view of the request, and the key that the caller may add.
pub record Scope : Type 0 where
  pub principal : String
  pub capability : WriteCapabilityId
  pub repository : String
  pub operation : String
  pub operation_digest : String
  pub client_key : Option String

abbrev pub capability_value : WriteCapabilityId → String
capability_value branch = "github.write.branch"
capability_value pr = "github.write.pr"
capability_value merge = "github.write.merge"

abbrev pub payload : Scope → Dict String
payload c =
    ("schema", "v2.phase3.idempotency.1")
    ∷ ("principal", c.principal)
    ∷ ("capability", capability_value c.capability)
    ∷ ("repository", c.repository)
    ∷ ("operation", c.operation)
    ∷ ("operation_digest", c.operation_digest)
    ∷ maybe c.client_key [] (λ k. ("client_key", k) ∷ [])

-- `if not client_key: raise`
abbrev pub client_key_ok : Option String → Result MutationError (Unit {0})
client_key_ok none = ok tt
client_key_ok (some k) =
    require (not (str_eq k "")) (deny invalid_arguments idempotency "client_key")

module _ {Digest : Type 0} (sha256_hex : Dict String → Digest) where
  -- sort_keys=True
  abbrev pub canonical_hash : Dict String → Digest
  canonical_hash p = sha256_hex (by_key p)

  unfoldable pub compute_idempotency_key : Scope → Result MutationError Digest
  compute_idempotency_key c = do
    _ ← require_repository c.repository
    _ ← require_digest c.operation_digest "operation_digest"
    client_key_ok c.client_key
    ok (canonical_hash (payload c))

capability_of : String → Option WriteCapabilityId
capability_of s =
    if str_eq s "github.write.branch"
    then some branch
    else if str_eq s "github.write.pr"
    then some pr
    else if str_eq s "github.write.merge"
    then some merge
    else none

capability_of-value : (a : WriteCapabilityId) → capability_of (capability_value a) ≡ some a
unfolding capability_of
capability_of-value branch = refl
capability_of-value pr = refl
capability_of-value merge = refl

pub capability_value-injective :
    (a b : WriteCapabilityId) → capability_value a ≡ capability_value b → a ≡ b
capability_value-injective a b h =
    some-injective a b (sym (capability_of-value a) ∙ ap capability_of h ∙ capability_of-value b)

behind_client_key : Scope → Dict String
behind_client_key c =
    ("operation", c.operation)
    ∷ ("operation_digest", c.operation_digest)
    ∷ ("principal", c.principal)
    ∷ ("repository", c.repository)
    ∷ ("schema", "v2.phase3.idempotency.1")
    ∷ []

payload-by_key :
    (c : Scope)
    → by_key (payload c)
      ≡ ("capability", capability_value c.capability)
        ∷ maybe c.client_key (behind_client_key c) (λ k. ("client_key", k) ∷ behind_client_key c)
unfolding by_key behind_client_key
payload-by_key c = elim (Option-cases c.client_key) [
  | inl absent ↦ rw absent refl
  | inr (k, given) ↦ rw given refl
]

payload-injective : (a b : Scope) → by_key (payload a) ≡ by_key (payload b) → a ≡ b
unfolding behind_client_key
payload-injective a b h = ground (
  arith,
  capability_value-injective a.capability b.capability,
  sym (payload-by_key a) ∙ h ∙ payload-by_key b,
)

-- Two requests that get a key get the same one exactly if they are the same in every part of their scope: the
-- principal, the capability, the repository, the operation, its digest, and the client's key or its absence;
-- so a client's key can narrow a record and never share one across scopes. The two payloads, with their keys
-- sorted, are assumed not to collide under the hash.
pub compute_idempotency_key-injective :
    {Digest : Type 0} (sha256_hex : Dict String → Digest) (a b : Scope) (k l : Digest)
    → (sha256_hex (by_key (payload a)) ≡ sha256_hex (by_key (payload b))
        → by_key (payload a) ≡ by_key (payload b))
    → compute_idempotency_key sha256_hex a ≡ ok k
    → compute_idempotency_key sha256_hex b ≡ ok l
    → (k ≡ l) ↔ (a ≡ b)
unfolding compute_idempotency_key
compute_idempotency_key-injective {Digest} sha256_hex a b k l no_collision ha hb = (
  λ same. payload-injective a b (no_collision (hash_of a k ha ∙ same ∙ sym (hash_of b l hb))),
  λ same.
      sym (hash_of a k ha)
      ∙ ap (λ (c : Scope). sha256_hex (by_key (payload c))) same
      ∙ hash_of b l hb,
)
  where
    hash_of :
        (c : Scope) (k : Digest)
        → compute_idempotency_key sha256_hex c ≡ ok k
        → sha256_hex (by_key (payload c)) ≡ k
    hash_of c k e = ground arith
