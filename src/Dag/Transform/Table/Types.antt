-- ===== src/Dag/Transform/Table/Types.antt =====
-- The results of the transforms have the types that the table declares.
use mathlib.Core.Path.{subst}
use mathlib.Core.Option.{some-injective}
use hermes_mcp_bridge.Base.Dict
use hermes_mcp_bridge.Base.{
  Result, ap, ◌≤◌, ℕ, eq_iff, require, List, ◌>>=◌, ok-chain, str_eq, ok-chain, String, [], arith,
  if_ind, inl, inr, maybe_ind, ok, ok-injective, refl, some, str_eq, without, ◌∷◌, ◌≡◌, ◌⊎◌,
}
use hermes_mcp_bridge.Base.Dict.{AllItems, Dict, get}
use hermes_mcp_bridge.Dag.Json.{Fields, Items, Json, item, no_fields, no_items}
use hermes_mcp_bridge.Dag.Transform.{
  DagError, argument, as_list, as_object, as_str, field_names, found, get_field, op_count,
  op_filter_eq, op_filter_in, op_map_field, op_merge_objects, op_project, op_require_non_empty,
  op_to_list, project_fields, set_field, type_of,
}
use hermes_mcp_bridge.Dag.Transform.Table.{
  transform_output_type, validate_transform_shape, check_types, apply_transform, check_shape,
  TransformSpec, find_spec, op_sort_by, op_unique, spec, transform_ops,
}

-- A value of a declared type; "any" declares nothing.
abbrev pub HasType : String → Json → Type 0
HasType t v = (t ≡ "any") ⊎ (type_of v ≡ ok t)

abbrev IsTyped : TransformSpec → Type 0
IsTyped t = (args : Fields) (v : Json) → t.handler args ≡ ok v → HasType t.output_type v

AllItems-get :
    {V : Type 0} (P : String → V → Type 0) (d : Dict V) (k : String) (v : V)
    → AllItems P d
    → Dict.get d k ≡ some v
    → (j : String) × P j v
unfolding get
AllItems-get P [] k v a e = absurd (cc e)
AllItems-get P ((j, w) ∷ d) k v a e =
    if_ind (λ o. o ≡ some v → (j : String) × P j v) (str_eq j k)
      (λ same h. (j, subst (P j) (some-injective w v h) a.0))
      (λ other h. AllItems-get P d k v a.1 h) e

project_fields-object :
    (source : Fields) (l : Items) (out : Fields) (v : Json)
    → project_fields source l out ≡ ok v
    → type_of v ≡ ok "object"
unfolding project_fields type_of
project_fields-object source no_items out v h = ground (arith, h)
project_fields-object source (item name rest) out v h =
    let (key, a, b) = ok-chain (as_str "fields[]" name) _ h in
    let (w, c, d) = ok-chain (found "project: unknown field" (get_field source key)) _ b in
    project_fields-object source rest (set_field key w out) v d

op_filter_eq-list : IsTyped (spec [] [] "list" op_filter_eq)
unfolding op_filter_eq type_of
op_filter_eq-list args v h = ground (arith, h)

op_filter_in-list : IsTyped (spec [] [] "list" op_filter_in)
unfolding op_filter_in type_of
op_filter_in-list args v h = ground (arith, h)

op_map_field-list : IsTyped (spec [] [] "list" op_map_field)
unfolding op_map_field type_of
op_map_field-list args v h = ground (arith, h)

op_project-object : IsTyped (spec [] [] "object" op_project)
unfolding op_project
op_project-object args v h =
    let (source, a, b) = ok-chain (as_object "value" (argument args "value")) _ h in
    let (fields, c, d) = ok-chain (as_list "fields" (argument args "fields")) _ b in
    inr (project_fields-object source fields no_fields v d)

op_count-int : IsTyped (spec [] [] "int" op_count)
unfolding op_count type_of
op_count-int args v h = ground (arith, h)

op_merge_objects-object : IsTyped (spec [] [] "object" op_merge_objects)
unfolding op_merge_objects type_of
op_merge_objects-object args v h = ground (arith, h)

op_to_list-list : IsTyped (spec [] [] "list" op_to_list)
unfolding op_to_list type_of
op_to_list-list args v h = ground (arith, h)

op_require_non_empty-list : IsTyped (spec [] [] "list" op_require_non_empty)
unfolding op_require_non_empty type_of
op_require_non_empty-list args v h = ground (arith, h)

module _ (canonical : Json → String) where
  op_sort_by-list : IsTyped (spec [] [] "list" (op_sort_by canonical))
  unfolding op_sort_by type_of
  op_sort_by-list args v h = ground (arith, h)

  op_unique-list : IsTyped (spec [] [] "list" (op_unique canonical))
  unfolding op_unique type_of
  op_unique-list args v h = ground (arith, h)

  table-IsTyped : AllItems (λ k t. IsTyped t) (transform_ops canonical)
  table-IsTyped = (
    λ args v h. inl refl,
    (
      op_project-object,
      (
        op_filter_eq-list,
        (
          op_filter_in-list,
          (
            op_map_field-list,
            (
              op_count-int,
              (
                λ args v h. inl refl,
                (
                  op_sort_by-list,
                  (
                    op_unique-list,
                    (op_merge_objects-object, (op_to_list-list, (op_require_non_empty-list, tt))),
                  ),
                ),
              ),
            ),
          ),
        ),
      ),
    ),
  )

  find_spec-IsTyped : (op : String) (t : TransformSpec) → find_spec canonical op ≡ ok t → IsTyped t
  unfolding find_spec
  find_spec-IsTyped op t h =
      maybe_ind (λ r. r ≡ ok t → IsTyped t) (Dict.get (transform_ops canonical) op)
        (λ e r. absurd (cc r))
        (λ u e r.
          subst IsTyped (ok-injective r)
            (AllItems-get (λ k t. IsTyped t) (transform_ops canonical) op u table-IsTyped e).1)
        h

  -- The arguments that the table requires, and no others, of the types that it declares.
  abbrev pub AreArguments : TransformSpec → Fields → Type 0
  AreArguments t args =
      (without (field_names args) t.required_args ≡ [])
      × (without t.required_args (field_names args) ≡ [])
      × AllItems (λ name declared. type_of (argument args name) ≡ ok declared) t.arg_types

  check_types-AllItems :
      (op : String) (args : Fields) (types : Dict String)
      → check_types canonical op args types ≡ ok tt
      → AllItems (λ name declared. type_of (argument args name) ≡ ok declared) types
  unfolding check_types
  check_types-AllItems op args [] h = tt
  check_types-AllItems op args ((name, declared) ∷ rest) h =
      let (actual, a, b) = ok-chain (type_of (argument args name)) _ h in
      let (u, c, d) = ok-chain (require (str_eq actual declared) _) _ b in
      (ground (arith, a, c, eq_iff actual declared), check_types-AllItems op args rest d)

  check_shape-nil :
      (op : String) (t : TransformSpec) (names : List String)
      → check_shape canonical op t names ≡ ok tt
      → (without names t.required_args ≡ []) × (without t.required_args names ≡ [])
  unfolding check_shape
  check_shape-nil op t names h = ground (arith, h)

  -- What a transform returns is checked on both sides: the arguments are those that the table requires, of the
  -- types that it declares, the result has the type that plan validation reads off the table, and its
  -- canonical JSON is within the bound.
  pub apply_transform-HasType :
      (encoded_size : Json → ℕ) (op : String) (args : Fields) (max_bytes : ℕ) (v : Json)
      → apply_transform canonical encoded_size op args max_bytes ≡ ok v
      → (t : TransformSpec) × (find_spec canonical op ≡ ok t)
        × (transform_output_type canonical op ≡ ok t.output_type)
        × AreArguments t args
        × HasType t.output_type v
        × (encoded_size v ≤ max_bytes)
  unfolding apply_transform validate_transform_shape transform_output_type
  apply_transform-HasType encoded_size op args max_bytes v h =
      let (t, a, b) = ok-chain (find_spec canonical op) _ h in
      let (u, c, d) =
        ok-chain (find_spec canonical op >>= λ t. check_shape canonical op t (field_names args)) _
          b in
      let (w, e, f) = ok-chain (check_types canonical op args t.arg_types) _ d in
      let (r, g, i) = ok-chain (t.handler args) _ f in
      let shape : check_shape canonical op t (field_names args) ≡ ok tt = ground (arith, a, c) in
      let (p, q) = check_shape-nil op t (field_names args) shape in
      let fits : (r ≡ v) × (encoded_size v ≤ max_bytes) = ground (arith, i) in
      (
        t,
        a,
        ap (λ (m : Result DagError TransformSpec). m >>= λ s. ok s.output_type) a,
        (p, q, check_types-AllItems op args t.arg_types e),
        subst (HasType t.output_type) fits.0 (find_spec-IsTyped op t a args r g),
        fits.1,
      )
