-- ===== src/Dag/Transform/Table/Tests.antt =====
-- Transforms of a list of two pull requests, and the theorem at one of them.
use hermes_mcp_bridge.Base.{Result, String, err, ok, refl, sorted, ◌≡◌, ◌≤◌}
use hermes_mcp_bridge.Base.Dict.{get}
use hermes_mcp_bridge.Dag.Contract.{DagError, transform_type_mismatch}
use hermes_mcp_bridge.Dag.Json.{Fields, Json, array, field, item, no_fields, no_items, object, text}
use hermes_mcp_bridge.Dag.Transform.{
  as_list, as_object, as_str, field_of, keep_items, map_items, merge_fields, op_filter_eq,
  op_merge_objects, same, set_field, transform_error, type_of,
}
use hermes_mcp_bridge.Dag.Transform.Table.{
  TransformSpec, apply_transform, check_shape, check_types, find_spec, insert_by, kinds_of,
  op_sort_by, sort_keyed, transform_output_type, validate_transform_shape,
}
use hermes_mcp_bridge.Dag.Transform.Table.Types.{AreArguments, HasType, apply_transform-HasType}

abbrev pull : String → String → Json
pull id state = object (field "id" (text id) (field "state" (text state) no_fields))

abbrev pulls : Json
pulls = array (item (pull "b" "open") (item (pull "a" "closed") no_items))

abbrev canonical : Json → String
canonical (text s) = s
canonical _ = ""

abbrev run : String → Fields → Result DagError Json
run op args = apply_transform canonical (λ v. 10) op args 10

program : Unit {0}
unfolding apply_transform find_spec validate_transform_shape check_shape check_types type_of get
    as_list as_str as_object field_of keep_items map_items same op_filter_eq op_sort_by
    op_merge_objects kinds_of sort_keyed insert_by set_field merge_fields sorted
program = tt

abbrev by_state : Fields
by_state =
    field "value" pulls (field "field" (text "state") (field "equals" (text "open") no_fields))

filters : run "filter_eq" by_state ≡ ok (array (item (pull "b" "open") no_items))
unfolding program
filters = refl

sorts :
    run "sort_by" (field "value" pulls (field "field" (text "id") no_fields))
    ≡ ok (array (item (pull "a" "closed") (item (pull "b" "open") no_items)))
unfolding program
sorts = refl

collides :
    run "merge_objects" (field "left" (pull "a" "open") (field "right" (pull "b" "open") no_fields))
    ≡ err (transform_error transform_type_mismatch "merge_objects: key collision")
unfolding program
collides = refl

short_of :
    run "count" no_fields ≡ err (transform_error transform_type_mismatch "count: missing value")
unfolding program
short_of = refl

apply_transform-HasType_example :
    (t : TransformSpec) × (find_spec canonical "filter_eq" ≡ ok t)
    × (transform_output_type canonical "filter_eq" ≡ ok t.output_type)
    × AreArguments canonical t by_state
    × HasType t.output_type (array (item (pull "b" "open") no_items))
    × (10 ≤ 10)
unfolding program
apply_transform-HasType_example =
    apply_transform-HasType canonical (λ v. 10) "filter_eq" by_state 10
      (array (item (pull "b" "open") no_items)) refl
