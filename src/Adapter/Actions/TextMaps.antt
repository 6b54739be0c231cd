-- ===== src/Adapter/Actions/TextMaps.antt =====
-- pkg/adapter/adapter.go, schema_validate.go: the schema of a map of texts, and the inputs that hold one.
use execgo.Base.{String, ◌≡◌, refl, sym, subst, ◌↔◌, inr, In, All-In, ok}
use execgo.Adapter.Json.{obj, no_fields, field, Fields, fields}
use execgo.Adapter.Schema.{JsonPath, json_type, validate_against_schema}
use execgo.Adapter.Schema.Conforms.{Conforms}
use execgo.Adapter.Schema.Verdict.{validate_against_schema-Conforms}
use execgo.Adapter.Inputs.{string_map_input, object_input_schema}
use execgo.Adapter.Actions.{http_input_schema}

text_map_empty :
    (description : String) (fs : Fields)
    → Conforms (string_map_input description) (obj fs)
    → fs ≡ no_fields
unfolding string_map_input Conforms
text_map_empty description no_fields c = refl
text_map_empty description (field k v fs) (a, b, c, d, e, f, g, h, i) = absurd e.0

empty_text_map : (description : String) → Conforms (string_map_input description) (obj no_fields)
unfolding string_map_input Conforms json_type
empty_text_map description =
    (inr (inr ((λ e. cc), (λ e. cc), refl)), tt, tt, tt, tt, tt, tt, tt, tt)

-- For every description, object and path: the schema that stringMapInput builds accepts the
-- object exactly if it has no entries.
pub validate_against_schema-string_map_input :
    (description : String) (fs : Fields) (path : JsonPath)
    → (validate_against_schema (string_map_input description) (obj fs) path ≡ ok tt)
      ↔ (fs ≡ no_fields)
validate_against_schema-string_map_input description fs path =
    let (f, g) = validate_against_schema-Conforms (string_map_input description) (obj fs) path in
    (
      λ e. text_map_empty description fs (f e),
      λ e. g (
          subst (λ x. Conforms (string_map_input description) (obj x)) (sym e)
            (empty_text_map description)),
    )

-- If the schema of os.http accepts an object with an object under headers, then that one has no
-- entries.
pub validate_against_schema-http_input_schema :
    (fs gs : Fields) (path : JsonPath)
    → In ("headers", obj gs) (fields fs)
    → validate_against_schema http_input_schema (obj fs) path ≡ ok tt
    → gs ≡ no_fields
unfolding http_input_schema object_input_schema Conforms
validate_against_schema-http_input_schema fs gs path m e =
    let (a, b, c, d, each, f, g, h, i) =
      (validate_against_schema-Conforms http_input_schema (obj fs) path).0 e in
    let found = All-In _ ("headers", obj gs) (fields fs) each m in
    text_map_empty "HTTP headers to set on the request." gs
      (((found.1 (λ x. cc)).1 (λ x. cc)).0 refl)
