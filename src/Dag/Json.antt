-- ===== src/Dag/Json.antt =====
-- Values that JSON holds, and `assert_no_secret_material` of src/hermes_mcp_bridge/v2/dag_store.py, which
-- looks for fields that read like secrets. `lower` of Python's `str` is a parameter.
use Prim.Native.Char.{code}
use hermes_mcp_bridge.Base.{
  ◌>>◌, Bool, List, Result, String, [], any_of, false, not, ok, require, true, ℕ, ◌&&◌, ◌==◌, ◌||◌,
  ◌∷◌,
}
use hermes_mcp_bridge.Dag.Contract.{DagError, PlanReason, checkpoint_tampered}

-- Values that JSON holds, without the floating-point numbers and the negative ones.
mutual
  pub data Json : Type 0 where
    null : Json
    boolean : Bool → Json
    number : ℕ → Json
    text : String → Json
    array : Items → Json
    object : Fields → Json

  pub data Items : Type 0 where
    no_items : Items
    item : Json → Items → Items

  pub data Fields : Type 0 where
    no_fields : Fields
    field : String → Json → Fields → Fields

-- `_SECRET_HINTS`
abbrev pub secret_hints : List String
secret_hints =
    "access_token" ∷ "refresh_token" ∷ "api_token" ∷ "auth_token" ∷ "id_token" ∷ "secret"
    ∷ "password" ∷ "authorization" ∷ "cookie" ∷ "private_key" ∷ "client_secret" ∷ "bearer" ∷ []

abbrev pub is_prefix : String → String → Bool
is_prefix String.[] s = true
is_prefix (String.◌∷◌ c h) String.[] = false
is_prefix (String.◌∷◌ c h) (String.◌∷◌ d s) = (code c == code d) && is_prefix h s

-- `hint in text`
abbrev pub contains : String → String → Bool
contains h String.[] = is_prefix h String.[]
contains h (String.◌∷◌ c s) = is_prefix h (String.◌∷◌ c s) || contains h s

abbrev pub store_error : PlanReason → String → DagError
store_error r d = record { reason = r; detail = d }

module _ (lower : String → String) where
  abbrev pub is_secret : String → Bool
  is_secret key = any_of (λ hint. contains hint (lower key)) secret_hints

  unfoldable mutual
    pub assert_no_secret_material : Json → Result DagError (Unit {0})
    assert_no_secret_material (array l) = assert_items l
    assert_no_secret_material (object f) = assert_fields f
    assert_no_secret_material _ = ok tt

    pub assert_items : Items → Result DagError (Unit {0})
    assert_items no_items = ok tt
    assert_items (item j l) = do assert_no_secret_material j; assert_items l

    pub assert_fields : Fields → Result DagError (Unit {0})
    assert_fields no_fields = ok tt
    assert_fields (field k j f) = do
      require (not (is_secret k)) (store_error checkpoint_tampered "secret-like field")
      assert_no_secret_material j
      assert_fields f
