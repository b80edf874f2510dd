-- ===== src/Dag/Transform/Table.antt =====
-- `TRANSFORM_OPS` of src/hermes_mcp_bridge/v2/dag_transform.py with the operations that compare canonical
-- JSON, and `apply_transform`. The canonical JSON of a value is a parameter: its text, whose order is that of
-- its UTF-8 bytes, and the number of its bytes.
mod Types
mod Tests
use hermes_mcp_bridge.Base.Dict
use Prim.Native.String.{◌++◌ as ◌<>◌}
use hermes_mcp_bridge.Base.{
  is_nil, ◌>>◌, ◌>>=◌, Bool, List, Result, String, [], all_of, err, false, if◌then◌else◌, join, leb,
  maybe, member, ok, require, sorted, str_eq, text_le, true, without, ℕ, ◌∷◌,
}
use hermes_mcp_bridge.Base.Dict.{Dict, get}
use hermes_mcp_bridge.Dag.Contract.{
  DagError, transform_op_unknown, transform_output_too_large, transform_type_mismatch,
}
use hermes_mcp_bridge.Dag.Json.{Fields, Items, Json, array, item, no_items}
use hermes_mcp_bridge.Dag.Transform.{
  argument, as_list, as_str, field_names, map_items, op_count, op_filter_eq, op_filter_in, op_first,
  op_map_field, op_merge_objects, op_project, op_require_non_empty, op_select, op_to_list,
  transform_error, type_of,
}

pub record TransformSpec : Type 0 where
  pub required_args : List String
  pub arg_types : Dict String
  pub output_type : String
  pub handler : Fields → Result DagError Json

abbrev pub spec :
    List String → Dict String → String → (Fields → Result DagError Json) → TransformSpec
spec required types output handler = record {
  required_args = required;
  arg_types = types;
  output_type = output;
  handler = handler;
}

-- {type_of(key) for each key}, as a list
unfoldable pub kinds_of : Items → Result DagError (List String)
kinds_of no_items = ok []
kinds_of (item v l) = do t ← type_of v; rest ← kinds_of l; ok (t ∷ rest)

abbrev pub at_most_one : List String → Bool
at_most_one [] = true
at_most_one (t ∷ ts) = all_of (str_eq t) ts

abbrev pub of_list : List (String × Json) → Items
of_list [] = no_items
of_list ((k, v) ∷ l) = item v (of_list l)

-- Before the first of no smaller key: from the right, this keeps the order of equal keys.
unfoldable pub insert_by : String → Json → List (String × Json) → List (String × Json)
insert_by k v [] = (k, v) ∷ []
insert_by k v ((j, w) ∷ l) =
    let rest = insert_by k v l in if text_le k j then (k, v) ∷ (j, w) ∷ l else (j, w) ∷ rest

module _ (canonical : Json → String) where
  -- The items by the text of their keys; both lists are as long.
  unfoldable pub sort_keyed : Items → Items → List (String × Json)
  sort_keyed (item k ks) (item v vs) = insert_by (canonical k) v (sort_keyed ks vs)
  sort_keyed _ _ = []

  unfoldable pub op_sort_by : Fields → Result DagError Json
  op_sort_by args = do
    items ← as_list "value" (argument args "value")
    key ← as_str "field" (argument args "field")
    keys ← map_items key items
    kinds ← kinds_of keys
    require (at_most_one kinds) (transform_error transform_type_mismatch "sort_by: mixed key types")
    ok (array (of_list (sort_keyed keys items)))

  unfoldable pub unique_items : List String → Items → Items
  unique_items seen no_items = no_items
  unique_items seen (item v l) =
      let old = member (canonical v) seen in
      let rest = unique_items (if old then seen else canonical v ∷ seen) l in
      if old then rest else item v rest

  unfoldable pub op_unique : Fields → Result DagError Json
  op_unique args = do
    items ← as_list "value" (argument args "value")
    ok (array (unique_items [] items))

  abbrev pub transform_ops : Dict TransformSpec
  transform_ops =
      (
        "select",
        spec ("value" ∷ "field" ∷ []) (("value", "object") ∷ ("field", "string") ∷ []) "any"
            op_select,
      )
      ∷ (
        "project",
        spec ("value" ∷ "fields" ∷ []) (("value", "object") ∷ ("fields", "list") ∷ []) "object"
            op_project,
      )
      ∷ (
        "filter_eq",
        spec ("value" ∷ "field" ∷ "equals" ∷ []) (("value", "list") ∷ ("field", "string") ∷ [])
            "list" op_filter_eq,
      )
      ∷ (
        "filter_in",
        spec ("value" ∷ "field" ∷ "values" ∷ [])
            (("value", "list") ∷ ("field", "string") ∷ ("values", "list") ∷ []) "list" op_filter_in,
      )
      ∷ (
        "map_field",
        spec ("value" ∷ "field" ∷ []) (("value", "list") ∷ ("field", "string") ∷ []) "list"
            op_map_field,
      )
      ∷ ("count", spec ("value" ∷ []) (("value", "list") ∷ []) "int" op_count)
      ∷ ("first", spec ("value" ∷ []) (("value", "list") ∷ []) "any" op_first)
      ∷ (
        "sort_by",
        spec ("value" ∷ "field" ∷ []) (("value", "list") ∷ ("field", "string") ∷ []) "list"
            op_sort_by,
      )
      ∷ ("unique", spec ("value" ∷ []) (("value", "list") ∷ []) "list" op_unique)
      ∷ (
        "merge_objects",
        spec ("left" ∷ "right" ∷ []) (("left", "object") ∷ ("right", "object") ∷ []) "object"
            op_merge_objects,
      )
      ∷ ("to_list", spec ("value" ∷ []) [] "list" op_to_list)
      ∷ (
        "require_non_empty",
        spec ("value" ∷ []) (("value", "list") ∷ []) "list" op_require_non_empty,
      )
      ∷ []

  unfoldable pub find_spec : String → Result DagError TransformSpec
  find_spec op =
      maybe (Dict.get transform_ops op) (err (transform_error transform_op_unknown op)) ok

  unfoldable pub transform_output_type : String → Result DagError String
  transform_output_type op = do t ← find_spec op; ok t.output_type

  -- The required arguments and no other are there.
  unfoldable pub check_shape : String → TransformSpec → List String → Result DagError (Unit {0})
  check_shape op t provided = do
    require (is_nil (without provided t.required_args)) (
        transform_error transform_type_mismatch
          (op <> (": missing " <> join (sorted (without provided t.required_args)))))
    require (is_nil (without t.required_args provided)) (
        transform_error transform_type_mismatch
          (op <> (": unexpected " <> join (sorted (without t.required_args provided)))))

  unfoldable pub validate_transform_shape : String → List String → Result DagError (Unit {0})
  validate_transform_shape op names = do t ← find_spec op; check_shape op t names

  -- The types of the arguments; `args[name]` is there, by the shape.
  unfoldable pub check_types : String → Fields → Dict String → Result DagError (Unit {0})
  check_types op args [] = ok tt
  check_types op args ((name, declared) ∷ rest) = do
    actual ← type_of (argument args name)
    require (str_eq actual declared) (
        transform_error transform_type_mismatch
          (op <> ("." <> (name <> (": " <> (actual <> (" != " <> declared)))))))
    check_types op args rest

  unfoldable pub apply_transform : (Json → ℕ) → String → Fields → ℕ → Result DagError Json
  apply_transform encoded_size op args max_bytes = do
    t ← find_spec op
    validate_transform_shape op (field_names args)
    check_types op args t.arg_types
    result ← t.handler args
    require (leb (encoded_size result) max_bytes) (transform_error transform_output_too_large op)
    ok result
