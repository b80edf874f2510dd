-- ===== src/Dag/Transform.antt =====
-- The operations of src/hermes_mcp_bridge/v2/dag_transform.py that need no canonical JSON.
pub mod Table
use hermes_mcp_bridge.Base.Dict
use Prim.Native.String.{◌++◌ as ◌<>◌}
use hermes_mcp_bridge.Base.{
  ◌&&◌, length, ◌>>◌, ◌>>=◌, Bool, List, Option, Result, String, [], err, false, if◌then◌else◌,
  is_some, maybe, none, not, ok, require, some, str_eq, suc, true, ℕ, ◌==◌, ◌||◌, ◌∷◌,
}
use hermes_mcp_bridge.Dag.Contract.{DagError, PlanReason, transform_type_mismatch}
use hermes_mcp_bridge.Dag.Json.{
  Fields, Items, Json, array, boolean, field, item, no_fields, no_items, null, number, object, text,
}

abbrev pub get_field : Fields → String → Option Json
get_field no_fields k = none
get_field (field j v f) k = if str_eq j k then some v else get_field f k

unfoldable pub set_field : String → Json → Fields → Fields
set_field k v no_fields = field k v no_fields
set_field k v (field j u f) = if str_eq j k then field k v f else field j u (set_field k v f)

abbrev pub field_names : Fields → List String
field_names no_fields = []
field_names (field k v f) = k ∷ field_names f

abbrev pub transform_error : PlanReason → String → DagError
transform_error r d = record { reason = r; detail = d }

abbrev pub mismatch : {A : Type 0} → String → Result DagError A
mismatch d = err (transform_error transform_type_mismatch d)

unfoldable pub type_of : Json → Result DagError String
type_of null = mismatch "unsupported value type"
type_of (boolean b) = ok "bool"
type_of (number n) = ok "int"
type_of (text s) = ok "string"
type_of (array l) = ok "list"
type_of (object f) = ok "object"

-- args.get(name), where a missing argument reads as None
abbrev pub argument : Fields → String → Json
argument args name = maybe (get_field args name) null (λ v. v)

unfoldable pub as_object : String → Json → Result DagError Fields
as_object name (object f) = ok f
as_object name _ = mismatch (name <> ": object")

unfoldable pub as_list : String → Json → Result DagError Items
as_list name (array l) = ok l
as_list name _ = mismatch (name <> ": list")

unfoldable pub as_str : String → Json → Result DagError String
as_str name (text s) = ok s
as_str name _ = mismatch (name <> ": string")

abbrev pub found : String → Option Json → Result DagError Json
found detail none = mismatch detail
found detail (some v) = ok v

-- `_field`
unfoldable pub field_of : Json → String → Result DagError Json
field_of i key = do mapping ← as_object "item" i; found "field: unknown" (get_field mapping key)

unfoldable pub op_select : Fields → Result DagError Json
op_select args = do
  source ← as_object "value" (argument args "value")
  key ← as_str "field" (argument args "field")
  found "select: unknown field" (get_field source key)

unfoldable pub project_fields : Fields → Items → Fields → Result DagError Json
project_fields source no_items out = ok (object out)
project_fields source (item name rest) out = do
  key ← as_str "fields[]" name
  v ← found "project: unknown field" (get_field source key)
  project_fields source rest (set_field key v out)

unfoldable pub op_project : Fields → Result DagError Json
op_project args = do
  source ← as_object "value" (argument args "value")
  fields ← as_list "fields" (argument args "fields")
  project_fields source fields no_fields

-- [item for item in items if keep(_field(item, key))]
unfoldable pub keep_items : String → (Json → Bool) → Items → Result DagError Items
keep_items key keep no_items = ok no_items
keep_items key keep (item i l) = do
  v ← field_of i key
  rest ← keep_items key keep l
  ok (if keep v then item i rest else rest)

unfoldable pub map_items : String → Items → Result DagError Items
map_items key no_items = ok no_items
map_items key (item i l) = do v ← field_of i key; rest ← map_items key l; ok (item v rest)

unfoldable pub op_map_field : Fields → Result DagError Json
op_map_field args = do
  items ← as_list "value" (argument args "value")
  key ← as_str "field" (argument args "field")
  out ← map_items key items
  ok (array out)

abbrev pub count_items : Items → ℕ
count_items no_items = 0
count_items (item i l) = suc (count_items l)

unfoldable pub op_count : Fields → Result DagError Json
op_count args = do items ← as_list "value" (argument args "value"); ok (number (count_items items))

abbrev pub first_item : Items → Result DagError Json
first_item no_items = mismatch "first: empty list"
first_item (item i l) = ok i

unfoldable pub op_first : Fields → Result DagError Json
op_first args = do items ← as_list "value" (argument args "value"); first_item items

abbrev pub overlaps : Fields → Fields → Bool
overlaps no_fields right = false
overlaps (field k v f) right = is_some (get_field right k) || overlaps f right

-- {**left, **right}
unfoldable pub merge_fields : Fields → Fields → Fields
merge_fields left no_fields = left
merge_fields left (field k v f) = merge_fields (set_field k v left) f

unfoldable pub op_merge_objects : Fields → Result DagError Json
op_merge_objects args = do
  left ← as_object "left" (argument args "left")
  right ← as_object "right" (argument args "right")
  require (not (overlaps left right))
      (transform_error transform_type_mismatch "merge_objects: key collision")
  ok (object (merge_fields left right))

abbrev pub listed : Json → Items
listed (array l) = l
listed v = item v no_items

unfoldable pub op_to_list : Fields → Result DagError Json
op_to_list args = ok (array (listed (argument args "value")))

abbrev pub is_empty : Items → Bool
is_empty no_items = true
is_empty (item i l) = false

unfoldable pub op_require_non_empty : Fields → Result DagError Json
op_require_non_empty args = do
  items ← as_list "value" (argument args "value")
  require (not (is_empty items))
      (transform_error transform_type_mismatch "require_non_empty: empty")
  ok (array items)

-- Python's `==` on values, in which True is 1 and a dictionary has no order.
unfoldable mutual
  pub same : Json → Json → Bool
  same null null = true
  same (boolean a) (boolean b) = if a then b else not b
  same (boolean a) (number n) = n == (if a then 1 else 0)
  same (number n) (boolean a) = n == (if a then 1 else 0)
  same (number n) (number m) = n == m
  same (text s) (text t) = str_eq s t
  same (array l) (array m) = same_items l m
  same (object f) (object g) = length (field_names f) == length (field_names g) && same_fields f g
  same _ _ = false

  pub same_items : Items → Items → Bool
  same_items no_items no_items = true
  same_items (item i l) (item j m) = same i j && same_items l m
  same_items _ _ = false

  pub same_fields : Fields → Fields → Bool
  same_fields no_fields g = true
  same_fields (field k v f) g = maybe (get_field g k) false (λ w. same v w) && same_fields f g

abbrev pub among : Items → Json → Bool
among no_items v = false
among (item i l) v = same v i || among l v

unfoldable pub op_filter_eq : Fields → Result DagError Json
op_filter_eq args = do
  items ← as_list "value" (argument args "value")
  key ← as_str "field" (argument args "field")
  out ← keep_items key (λ v. same v (argument args "equals")) items
  ok (array out)

unfoldable pub op_filter_in : Fields → Result DagError Json
op_filter_in args = do
  items ← as_list "value" (argument args "value")
  key ← as_str "field" (argument args "field")
  allowed ← as_list "values" (argument args "values")
  out ← keep_items key (among allowed) items
  ok (array out)
