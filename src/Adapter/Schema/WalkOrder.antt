-- ===== src/Adapter/Schema/WalkOrder.antt =====
-- pkg/adapter/schema_validate.go: the order in which Go walks an object does not change the verdict.
use execgo.Base.{
  String, ◌≡◌, refl, sym, ◌∙◌, ◌↔◌, inl, inr, Option, none, some, List, [], ◌∷◌, In, All, All-In,
  ok,
}
use execgo.Base.Dict.{lookup}
use execgo.Adapter.Json.{Json, obj, Fields, fields}
use execgo.Adapter.Schema.{
  Schema, schema, ItemSchema, any_items, every_item, Schemas, no_schemas, also, Conditional,
  unconditional, if_then, JsonPath, json_type, validate_against_schema,
}
use execgo.Adapter.Schema.Conforms.{
  HasType, InEnum, HasKeys, AllowsMore, Conforms, EntryConforms, ItemsConform, ConformsToAll,
  ConformsToOne, ExactlyOne, ConformsToNone, Implication,
}
use execgo.Adapter.Schema.Verdict.{validate_against_schema-Conforms}

-- Two walks of one object: the same entries, and the same value under each key.
pub record IsSameObject (fs gs : Fields) : Type 0 where
  pub members : (e : String × Json) → In e (fields fs) ↔ In e (fields gs)
  pub lookups : (k : String) → lookup k (fields fs) ≡ lookup k (fields gs)

IsSameObject-sym : (fs gs : Fields) → IsSameObject fs gs → IsSameObject gs fs
IsSameObject-sym fs gs h = record {
  members = λ e. let (f, g) = h.members e in (g, f);
  lookups = λ k. sym (h.lookups k);
}

module _ {A : Type 0} where
  All-of_In : (P : A → Type 0) (xs : List A) → ((a : A) → In a xs → P a) → All P xs
  All-of_In P [] h = tt
  All-of_In P (x ∷ xs) h = (h x (inl refl), All-of_In P xs (λ a m. h a (inr m)))

type_same : (want : String) (fs gs : Fields) → HasType want (obj fs) → HasType want (obj gs)
unfolding json_type
type_same want fs gs h = h

enum_same :
    (allowed : Option (List String)) (fs gs : Fields)
    → InEnum allowed (obj fs)
    → InEnum allowed (obj gs)
enum_same none fs gs h = h
enum_same (some a) fs gs h = h

keys_same :
    (ks : List String) (fs gs : Fields)
    → IsSameObject fs gs
    → HasKeys ks (obj fs)
    → HasKeys ks (obj gs)
keys_same [] fs gs h x = tt
keys_same (k ∷ ks) fs gs h ((v, e), rest) = ((v, sym (h.lookups k) ∙ e), keys_same ks fs gs h rest)

entries_same :
    (P : String × Json → Type 0) (fs gs : Fields)
    → IsSameObject fs gs
    → All P (fields fs)
    → All P (fields gs)
entries_same P fs gs h x =
    All-of_In P (fields gs) (λ e m. All-In P e (fields fs) x ((h.members e).1 m))

items_same :
    (each : ItemSchema) (fs gs : Fields) → ItemsConform each (obj fs) → ItemsConform each (obj gs)
unfolding Conforms
items_same any_items fs gs x = tt
items_same (every_item s) fs gs x = tt

mutual
  unfolding Conforms

  Conforms-same :
      (s : Schema) (fs gs : Fields) → IsSameObject fs gs → Conforms s (obj fs) → Conforms s (obj gs)
  Conforms-same (schema k ps each all one cond) fs gs h (a, b, c, d, e, i, l, m, n) = (
    type_same k.type fs gs a,
    enum_same k.enum fs gs b,
    c,
    keys_same k.required fs gs h d,
    entries_same (EntryConforms (AllowsMore k.additional) ps) fs gs h e,
    items_same each fs gs i,
    all_same all fs gs h l,
    one_same one fs gs h m,
    conditional_same cond fs gs h n,
  )

  all_same :
      (ss : Schemas) (fs gs : Fields)
      → IsSameObject fs gs
      → ConformsToAll ss (obj fs)
      → ConformsToAll ss (obj gs)
  all_same no_schemas fs gs h x = tt
  all_same (also s ss) fs gs h (a, b) = (Conforms-same s fs gs h a, all_same ss fs gs h b)

  none_same :
      (ss : Schemas) (fs gs : Fields)
      → IsSameObject fs gs
      → ConformsToNone ss (obj fs)
      → ConformsToNone ss (obj gs)
  none_same no_schemas fs gs h x = tt
  none_same (also s ss) fs gs h (a, b) =
      (λ c. a (Conforms-same s gs fs (IsSameObject-sym fs gs h) c), none_same ss fs gs h b)

  exactly_same :
      (ss : Schemas) (fs gs : Fields)
      → IsSameObject fs gs
      → ExactlyOne ss (obj fs)
      → ExactlyOne ss (obj gs)
  exactly_same no_schemas fs gs h x = absurd x
  exactly_same (also s ss) fs gs h x = elim x [
    | inl (a, b) ↦ inl (Conforms-same s fs gs h a, none_same ss fs gs h b)
    | inr (a, b) ↦
        inr (λ c. a (Conforms-same s gs fs (IsSameObject-sym fs gs h) c), exactly_same ss fs gs h b)
  ]

  one_same :
      (ss : Schemas) (fs gs : Fields)
      → IsSameObject fs gs
      → ConformsToOne ss (obj fs)
      → ConformsToOne ss (obj gs)
  one_same no_schemas fs gs h x = tt
  one_same (also s ss) fs gs h x = elim x [
    | inl (a, b) ↦ inl (Conforms-same s fs gs h a, none_same ss fs gs h b)
    | inr (a, b) ↦
        inr (λ c. a (Conforms-same s gs fs (IsSameObject-sym fs gs h) c), exactly_same ss fs gs h b)
  ]

  conditional_same :
      (c : Conditional) (fs gs : Fields)
      → IsSameObject fs gs
      → Implication c (obj fs)
      → Implication c (obj gs)
  conditional_same unconditional fs gs h x = tt
  conditional_same (if_then s t) fs gs h x =
      λ a. Conforms-same t fs gs h (x (Conforms-same s gs fs (IsSameObject-sym fs gs h) a))

-- For every schema and path, and two walks of one object, with the same entries and the same
-- value under each key: validateAgainstSchema returns nil for the one exactly if it does for the
-- other.
pub validate_against_schema_order :
    (s : Schema) (fs gs : Fields) (path : JsonPath)
    → IsSameObject fs gs
    → (validate_against_schema s (obj fs) path ≡ ok tt)
      ↔ (validate_against_schema s (obj gs) path ≡ ok tt)
validate_against_schema_order s fs gs path h =
    let (a, b) = validate_against_schema-Conforms s (obj fs) path in
    let (c, d) = validate_against_schema-Conforms s (obj gs) path in
    (
      λ x. d (Conforms-same s fs gs h (a x)),
      λ x. b (Conforms-same s gs fs (IsSameObject-sym fs gs h) (c x)),
    )
