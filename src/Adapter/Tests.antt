-- ===== src/Adapter/Tests.antt =====
-- The adapter's schemas on small inputs.
mod Requests
use execgo.Base.Dict.{lookup}
use execgo.Adapter.Json.{fields}
use execgo.Base.{
  text_cases, subst, String, ◌≡◌, refl, ◌↔◌, ◌⊎◌, inl, inr, Bool, true, false, Option, none, some,
  List, [], ◌∷◌, pos, In, ok, err, has,
}
use execgo.Base.Dict.{Dict, lookup, insert}
use execgo.Models.Runtime.{Raw}
use execgo.Models.Task.{Task, TaskGraph}
use execgo.Models.Graph.{
  count_visited, drain, release, roots, build, add_node, add_edges, add_edge, detect_cycle,
  collect_ids, check_all_deps, check_deps,
}
use execgo.Models.Graph as models
use execgo.Models.Graph.Order.{IsWalk}
use execgo.Models.Graph.Valid.{IsValidGraph}
use execgo.Models.Graph.Edges.{ids}
use execgo.Adapter.Json.{
  Json, null, bool, num, str, arr, obj, Fields, no_fields, field, Items, no_items, item, to_fields,
  is_integral,
}
use execgo.Adapter.Schema.{
  validate_against_schema, json_type, is_integer, has_type, validate_type, validate_enum, is_below,
  is_above, validate_number_bounds, require_keys, validate_required, allows_additional_properties,
  check_entry, check_entries, check_items, count_matches, exactly_one, is_not_allowed,
  must_be_at_most, matches_many, key, Schema, SchemaError,
}
use execgo.Adapter.Schema.Conforms.{Conforms}
use execgo.Base.{arith, eq_iff}
use execgo.Adapter.Schema.WalkOrder.{IsSameObject, validate_against_schema_order}
use execgo.Adapter.Schema.Verdict.{validate_against_schema-Conforms}
use execgo.Adapter.Inputs.{
  set_property, set_properties, object_input_schema, free_object_input, string_input,
  string_input_with_default, string_array_input, string_map_input, enum_input, integer_input,
}
use execgo.Adapter.Actions.{
  shell_input_schema, http_input_schema, tcp_input_schema, runtime_execution_input_schema,
  runtime_input_schema, runtime_command_input_schema,
}
use execgo.Adapter.Actions.TextMaps.{
  validate_against_schema-string_map_input, validate_against_schema-http_input_schema,
}

-- Everything that the examples run.
pub schema_checks : Unit {0}
unfolding validate_against_schema json_type is_integer is_integral has_type validate_type
    validate_enum is_below is_above validate_number_bounds require_keys validate_required
    allows_additional_properties check_entry check_entries check_items count_matches exactly_one has
    set_property set_properties object_input_schema free_object_input string_input
    string_input_with_default string_array_input string_map_input enum_input integer_input
    shell_input_schema http_input_schema tcp_input_schema runtime_execution_input_schema
    runtime_input_schema runtime_command_input_schema
schema_checks = tt

-- {"command": "ls", "args": ["-l"]}
abbrev list_files : Fields
list_files = field "command" (str "ls") (field "args" (arr (item (str "-l") no_items)) no_fields)

shell_accepts : validate_against_schema shell_input_schema (obj list_files) [] ≡ ok tt
unfolding schema_checks
shell_accepts = refl

shell_wants_one :
    validate_against_schema shell_input_schema (obj (field "script" (str "ls") list_files)) []
    ≡ err (matches_many [] 2)
unfolding schema_checks
shell_wants_one = refl

tcp_bounds :
    validate_against_schema tcp_input_schema
      (obj (field "address" (str "h:1") (field "timeout_ms" (num (pos 60001) 0) no_fields)))
      []
    ≡ err (must_be_at_most (key "timeout_ms" ∷ []) (pos 60000))
unfolding schema_checks
tcp_bounds = refl

validate_against_schema-Conforms_example :
    (validate_against_schema shell_input_schema (obj list_files) [] ≡ ok tt)
    ↔ Conforms shell_input_schema (obj list_files)
validate_against_schema-Conforms_example =
    validate_against_schema-Conforms shell_input_schema (obj list_files) []

validate_against_schema-string_map_input_example :
    (validate_against_schema
        (string_map_input "Headers.")
        (obj (field "Accept" (str "text/html") no_fields))
        []
      ≡ ok tt)
    ↔ (field "Accept" (str "text/html") no_fields ≡ no_fields)
validate_against_schema-string_map_input_example =
    validate_against_schema-string_map_input "Headers." (field "Accept" (str "text/html") no_fields)
      []

-- {"url": "http://h", "headers": {}}
abbrev bare_request : Fields
bare_request = field "url" (str "http://h") (field "headers" (obj no_fields) no_fields)

bare_request_accepted : validate_against_schema http_input_schema (obj bare_request) [] ≡ ok tt
unfolding schema_checks
bare_request_accepted = refl

validate_against_schema-http_input_schema_example : no_fields ≡ no_fields
validate_against_schema-http_input_schema_example =
    validate_against_schema-http_input_schema bare_request no_fields [] (inr (inl refl))
      bare_request_accepted

-- {"args": ["-l"], "command": "ls"}
abbrev list_files_backwards : Fields
list_files_backwards =
    field "args" (arr (item (str "-l") no_items)) (field "command" (str "ls") no_fields)

list_files-IsSameObject : IsSameObject list_files list_files_backwards
list_files-IsSameObject = record {
  members = λ e. (
    λ m. elim m [ inl x ↦ inr (inl x) | inr y ↦ elim y [ inl z ↦ inl z | inr w ↦ absurd w ] ],
    λ m. elim m [ inl x ↦ inr (inl x) | inr y ↦ elim y [ inl z ↦ inl z | inr w ↦ absurd w ] ],
  );
  lookups = λ k. elim (text_cases "command" k) [
    | inl (e, _) ↦
        subst (λ x. lookup x (fields list_files) ≡ lookup x (fields list_files_backwards)) e refl
    | inr (_, t) ↦ rw (t, lookup) refl
  ];
}

validate_against_schema_order_example :
    (validate_against_schema shell_input_schema (obj list_files) [] ≡ ok tt)
    ↔ (validate_against_schema shell_input_schema (obj list_files_backwards) [] ≡ ok tt)
validate_against_schema_order_example =
    validate_against_schema_order shell_input_schema list_files list_files_backwards []
      list_files-IsSameObject
