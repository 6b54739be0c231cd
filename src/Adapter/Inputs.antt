-- ===== src/Adapter/Inputs.antt =====
-- pkg/adapter/adapter.go: the builders of the input schemas, objectInputSchema to integerInput.
use execgo.Base.{String, Bool, true, Option, none, some, List, [], ◌∷◌, ℤ, if◌then◌else◌, ◌==◌}
use execgo.Adapter.Schema.{
  unset, flag, typed, Default, text, number, Keywords, Schema, schema, Properties, no_properties,
  property, ItemSchema, any_items, every_item, Schemas, no_schemas, also, unconditional,
}

-- A schema with no keys.
abbrev pub no_keywords : Keywords
no_keywords = record {
  type = "";
  description = "";
  format = "";
  enum = none;
  default = none;
  minimum = none;
  maximum = none;
  required = [];
  additional = unset;
}

-- A schema that holds none but, it may be, "items".
abbrev pub simple : Keywords → ItemSchema → Schema
simple k each = schema k no_properties each no_schemas no_schemas unconditional

-- A Go literal of properties, and one of options.
abbrev pub properties_of : List (String × Schema) → Properties
properties_of [] = no_properties
properties_of ((name, s) ∷ ps) = property name s (properties_of ps)

abbrev pub schemas_of : List Schema → Schemas
schemas_of [] = no_schemas
schemas_of (s ∷ ss) = also s (schemas_of ss)

-- `properties[key] = value`
unfoldable pub set_property : String → Schema → Properties → Properties
set_property name s no_properties = property name s no_properties
set_property name s (property other t ps) =
    if other == name then property name s ps else property other t (set_property name s ps)

-- `for key, value := range flatProperties { properties[key] = value }`
unfoldable pub set_properties : Properties → Properties → Properties
set_properties no_properties ps = ps
set_properties (property name s more) ps = set_properties more (set_property name s ps)

-- The keys that objectInputSchema's callers add: no key, "oneOf" or "allOf".
pub data Extra : Type 0 where
  nothing : Extra
  with_one_of with_all_of : Schemas → Extra

abbrev pub all_of_extra : Extra → Schemas
all_of_extra (with_all_of ss) = ss
all_of_extra _ = no_schemas

abbrev pub one_of_extra : Extra → Schemas
one_of_extra (with_one_of ss) = ss
one_of_extra _ = no_schemas

unfoldable pub object_input_schema : Properties → List String → Bool → Extra → Schema
object_input_schema properties required additional_properties extra =
    schema
      (record no_keywords {
        type = "object";
        required = required;
        additional = flag additional_properties;
      })
      properties any_items (all_of_extra extra) (one_of_extra extra) unconditional

unfoldable pub free_object_input : String → Schema
free_object_input description =
    simple
      (record no_keywords { type = "object"; description = description; additional = flag true })
      any_items

unfoldable pub string_input : String → Schema
string_input description =
    simple (record no_keywords { type = "string"; description = description }) any_items

unfoldable pub string_input_with_default : String → String → Schema
string_input_with_default description value =
    simple
      (record no_keywords {
        type = "string";
        description = description;
        default = some (text value);
      })
      any_items

unfoldable pub string_array_input : String → Schema
string_array_input description =
    simple (record no_keywords { type = "array"; description = description })
      (every_item (simple (record no_keywords { type = "string" }) any_items))

-- Its "additionalProperties" is the map {"type": "string"}.
unfoldable pub string_map_input : String → Schema
string_map_input description =
    simple
      (record no_keywords {
        type = "object";
        description = description;
        additional = typed "string";
      })
      any_items

unfoldable pub enum_input : List String → String → String → Schema
enum_input values value description =
    simple
      (record no_keywords {
        type = "string";
        enum = some values;
        description = description;
        default = if value == "" then none else some (text value);
      })
      any_items

abbrev pub number_default : Option ℤ → Option Default
number_default none = none
number_default (some n) = some (number n)

unfoldable pub integer_input : String → Option ℤ → Option ℤ → Option ℤ → Schema
integer_input description minimum maximum value =
    simple
      (record no_keywords {
        type = "integer";
        description = description;
        minimum = minimum;
        maximum = maximum;
        default = number_default value;
      })
      any_items
