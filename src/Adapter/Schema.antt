-- ===== src/Adapter/Schema.antt =====
-- pkg/adapter/schema_validate.go: the checks of a value against a schema.
pub mod Conforms
pub mod Checks
pub mod Options
pub mod Verdict
pub mod WalkOrder
use execgo.Base.{
  ℕ, suc, String, Bool, true, false, Option, none, some, List, [], ◌∷◌, ◌++◌, zero, ℤ, pos, has,
  if◌then◌else◌, ◌==◌, Except, ok, err, ◌>>=◌, ◌>>◌, refuse_if, not,
}
use execgo.Base.Dict.{Dict, lookup}
use execgo.Adapter.Json.{
  Json, null, bool, num, str, arr, obj, entries, elements, lt_ℤ, scale, is_integral,
}

-- The value of "additionalProperties": no key, a flag, or the map {"type": t}.
pub data Additional : Type 0 where
  unset : Additional
  flag : Bool → Additional
  typed : String → Additional

pub data Default : Type 0 where
  text : String → Default
  number : ℤ → Default

-- The keys of a schema whose values hold no schema. The empty text and the empty list stand for a
-- key that is not there. The validator does not read `description`, `format` and `default`.
pub record Keywords : Type 0 where
  pub type : String
  pub description : String
  pub format : String
  pub enum : Option (List String)
  pub default : Option Default
  pub minimum : Option ℤ
  pub maximum : Option ℤ
  pub required : List String
  pub additional : Additional

-- A schema: its keywords, "properties", "items", "allOf", "oneOf", and "if" with "then".
mutual
  pub data Schema : Type 0 where
    schema : Keywords → Properties → ItemSchema → Schemas → Schemas → Conditional → Schema

  pub data Properties : Type 0 where
    no_properties : Properties
    property : String → Schema → Properties → Properties

  pub data ItemSchema : Type 0 where
    any_items : ItemSchema
    every_item : Schema → ItemSchema

  pub data Schemas : Type 0 where
    no_schemas : Schemas
    also : Schema → Schemas → Schemas

  pub data Conditional : Type 0 where
    unconditional : Conditional
    if_then : Schema → Schema → Conditional

-- A path from action.input, as a message prints it: ".key" and "[i]".
pub data PathStep : Type 0 where
  key : String → PathStep
  index : ℕ → PathStep

abbrev pub JsonPath : Type 0
JsonPath = List PathStep

pub data SchemaError : Type 0 where
  must_be : JsonPath → String → SchemaError
  must_be_one_of : JsonPath → List String → SchemaError
  must_be_at_least must_be_at_most : JsonPath → ℤ → SchemaError
  is_required is_not_allowed : JsonPath → String → SchemaError
  matches_many : JsonPath → ℕ → SchemaError
  matches_none : JsonPath → SchemaError

abbrev pub Checked : Type 0
Checked = Except SchemaError (Unit {0})

abbrev pub Check : Type 0
Check = Json → JsonPath → Checked

unfoldable pub json_type : Json → String
json_type null = "null"
json_type (obj _) = "object"
json_type (arr _) = "array"
json_type (str _) = "string"
json_type (bool _) = "boolean"
json_type (num _ _) = "number"

-- integerValue on a decoded value.
unfoldable pub is_integer : Json → Bool
is_integer (num n k) = is_integral n k
is_integer _ = false

unfoldable pub has_type : String → Json → Bool
has_type want v =
    if want == "" then true else if want == "integer" then is_integer v else json_type v == want

unfoldable pub validate_type : Keywords → Check
validate_type k v path = refuse_if (not (has_type k.type v)) (must_be path k.type)

abbrev pub check_enum : Option (List String) → Check
check_enum none v path = ok tt
check_enum (some allowed) (str s) path =
    refuse_if (not (has s allowed)) (must_be_one_of path allowed)
check_enum (some allowed) _ path = err (must_be_one_of path allowed)

unfoldable pub validate_enum : Keywords → Check
validate_enum k v path = check_enum k.enum v path

-- n / 2^k < min, and max < n / 2^k.
unfoldable pub is_below : ℤ → ℕ → Option ℤ → Bool
is_below n k none = false
is_below n k (some min) = lt_ℤ n (scale min k)

unfoldable pub is_above : ℤ → ℕ → Option ℤ → Bool
is_above n k none = false
is_above n k (some max) = lt_ℤ (scale max k) n

abbrev pub bound_or_zero : Option ℤ → ℤ
bound_or_zero none = pos 0
bound_or_zero (some b) = b

abbrev pub check_bounds : Option ℤ → Option ℤ → Check
check_bounds min max (num n k) path = do
  refuse_if (is_below n k min) (must_be_at_least path (bound_or_zero min))
  refuse_if (is_above n k max) (must_be_at_most path (bound_or_zero max))
check_bounds min max _ path = ok tt

unfoldable pub validate_number_bounds : Keywords → Check
validate_number_bounds k v path = check_bounds k.minimum k.maximum v path

-- The loop over the required keys.
unfoldable pub require_keys : List (String × Json) → List String → JsonPath → Checked
require_keys fs [] path = ok tt
require_keys fs (k ∷ ks) path = elim (lookup k fs) [
  | none ↦ err (is_required path k)
  | some _ ↦ require_keys fs ks path
]

unfoldable pub validate_required : Keywords → Check
validate_required k (obj fs) path = require_keys (entries (obj fs)) k.required path
validate_required k _ path = ok tt

unfoldable pub allows_additional_properties : Additional → Bool
allows_additional_properties unset = true
allows_additional_properties (flag b) = b
allows_additional_properties (typed _) = false

-- One round of the loop of validateProperties; `checks` are the properties that are known.
unfoldable pub check_entry : Bool → Dict Check → String → Check
check_entry extra checks k v path = elim (lookup k checks) [
  | none ↦ refuse_if (not extra) (is_not_allowed path k)
  | some check ↦ check v (path ++ key k ∷ [])
]

unfoldable pub check_entries : Bool → Dict Check → List (String × Json) → JsonPath → Checked
check_entries extra checks [] path = ok tt
check_entries extra checks ((k, v) ∷ fs) path = do
  check_entry extra checks k v path
  check_entries extra checks fs path

unfoldable pub check_items : Check → ℕ → List Json → JsonPath → Checked
check_items check i [] path = ok tt
check_items check i (v ∷ vs) path = do
  check v (path ++ index i ∷ [])
  check_items check (suc i) vs path

-- How many options of "oneOf" match, and the first error of those that do not.
pub record Matches : Type 0 where
  pub matched : ℕ
  pub first_error : Option SchemaError

unfoldable pub count_matches : List Checked → Matches → Matches
count_matches [] m = m
count_matches (ok _ ∷ rs) m = count_matches rs (record m { matched = suc m.matched })
count_matches (err e ∷ rs) m =
    count_matches rs
      (record m { first_error = elim m.first_error [ none ↦ some e | some f ↦ some f ] })

unfoldable pub exactly_one : Matches → JsonPath → Checked
exactly_one m path = elim m.matched [
  | zero ↦ elim m.first_error [ none ↦ err (matches_none path) | some e ↦ err e ]
  | suc zero ↦ ok tt
  | suc (suc n) ↦ err (matches_many path (suc (suc n)))
]

abbrev pub one_of : List Checked → JsonPath → Checked
one_of [] path = ok tt
one_of (r ∷ rs) path =
    exactly_one (count_matches (r ∷ rs) (record { matched = 0; first_error = none })) path

-- `if err := validateAgainstSchema(value, ifSchema, path); err != nil { return nil }`
abbrev pub conditionally : Checked → Checked → Checked
conditionally (ok _) r = r
conditionally (err _) r = ok tt

-- validateAgainstSchema. A schema with no key at all passes every check.
unfoldable mutual
  pub validate_against_schema : Schema → Json → JsonPath → Checked
  validate_against_schema (schema k ps each all one cond) v path = do
    validate_type k v path
    validate_enum k v path
    validate_number_bounds k v path
    validate_required k v path
    check_entries (allows_additional_properties k.additional) (property_checks ps) (entries v) path
    validate_items each v path
    validate_all_of all v path
    one_of (results one v path) path
    validate_conditional cond v path

  pub property_checks : Properties → Dict Check
  property_checks no_properties = []
  property_checks (property name s ps) = (name, validate_against_schema s) ∷ property_checks ps

  pub validate_items : ItemSchema → Json → JsonPath → Checked
  validate_items any_items v path = ok tt
  validate_items (every_item s) v path = check_items (validate_against_schema s) 0 (elements v) path

  pub validate_all_of : Schemas → Json → JsonPath → Checked
  validate_all_of no_schemas v path = ok tt
  validate_all_of (also s ss) v path = do
    validate_against_schema s v path
    validate_all_of ss v path

  pub results : Schemas → Json → JsonPath → List Checked
  results no_schemas v path = []
  results (also s ss) v path = validate_against_schema s v path ∷ results ss v path

  pub validate_conditional : Conditional → Json → JsonPath → Checked
  validate_conditional unconditional v path = ok tt
  validate_conditional (if_then s t) v path =
      conditionally (validate_against_schema s v path) (validate_against_schema t v path)
