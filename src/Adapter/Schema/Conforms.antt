-- ===== src/Adapter/Schema/Conforms.antt =====
-- What the keys of a schema ask of a value, as JSON Schema says it, with no order of checks.
use execgo.Base.{
  ℕ, ◌*◌, ◌^◌, ◌%◌, suc, String, ◌≡◌, ◌≢◌, ◌⊎◌, true, Option, none, some, List, ◌≤◌, ℤ, pos, negsuc,
  In, All,
}
use execgo.Base.Dict.{lookup}
use execgo.Adapter.Json.{Json, num, str, obj, entries, elements}
use execgo.Adapter.Schema.{
  Additional, unset, flag, typed, Schema, schema, Properties, no_properties, property, ItemSchema,
  any_items, every_item, Schemas, no_schemas, also, Conditional, unconditional, if_then, json_type,
}

-- n / 2^k is a whole number.
abbrev pub IsWhole : ℤ → ℕ → Type 0
IsWhole (pos n) k = n % 2 ^ k ≡ 0
IsWhole (negsuc n) k = suc n % 2 ^ k ≡ 0

abbrev pub IsInteger : Json → Type 0
IsInteger (num n k) = IsWhole n k
IsInteger _ = ⊥

abbrev pub HasType : String → Json → Type 0
HasType want v =
    (want ≡ "")
    ⊎ (((want ≡ "integer") × IsInteger v)
        ⊎ ((want ≢ "") × (want ≢ "integer") × (json_type v ≡ want)))

abbrev pub InEnum : Option (List String) → Json → Type 0
InEnum none v = Unit
InEnum (some allowed) (str s) = In s allowed
InEnum (some allowed) _ = ⊥

-- c ≤ n / 2^k, and n / 2^k ≤ c.
abbrev pub LeNumber : ℤ → ℤ → ℕ → Type 0
LeNumber (pos c) (pos n) k = c * 2 ^ k ≤ n
LeNumber (pos c) (negsuc n) k = ⊥
LeNumber (negsuc c) (pos n) k = Unit
LeNumber (negsuc c) (negsuc n) k = suc n ≤ suc c * 2 ^ k

abbrev pub NumberLe : ℤ → ℕ → ℤ → Type 0
NumberLe (pos n) k (pos c) = n ≤ c * 2 ^ k
NumberLe (pos n) k (negsuc c) = ⊥
NumberLe (negsuc n) k (pos c) = Unit
NumberLe (negsuc n) k (negsuc c) = suc c * 2 ^ k ≤ suc n

abbrev pub IsAtLeast : Option ℤ → ℤ → ℕ → Type 0
IsAtLeast none n k = Unit
IsAtLeast (some c) n k = LeNumber c n k

abbrev pub IsAtMost : Option ℤ → ℤ → ℕ → Type 0
IsAtMost none n k = Unit
IsAtMost (some c) n k = NumberLe n k c

abbrev pub InBounds : Option ℤ → Option ℤ → Json → Type 0
InBounds min max (num n k) = IsAtLeast min n k × IsAtMost max n k
InBounds min max _ = Unit

abbrev pub HasKeys : List String → Json → Type 0
HasKeys ks (obj fs) = All (λ k. (v : Json) × (lookup k (entries (obj fs)) ≡ some v)) ks
HasKeys ks _ = Unit

-- Only `true`, or no key, allows keys that are not among the properties.
abbrev pub AllowsMore : Additional → Type 0
AllowsMore unset = Unit
AllowsMore (flag b) = b ≡ true
AllowsMore (typed _) = ⊥

unfoldable mutual
  pub Conforms : Schema → Json → Type 0
  Conforms (schema k ps each all one cond) v =
      HasType k.type v
      × InEnum k.enum v
      × InBounds k.minimum k.maximum v
      × HasKeys k.required v
      × All (EntryConforms (AllowsMore k.additional) ps) (entries v)
      × ItemsConform each v
      × ConformsToAll all v
      × ConformsToOne one v
      × Implication cond v

  -- An entry of an object conforms to its property, or is one that the schema allows.
  pub EntryConforms : Type 0 → Properties → String × Json → Type 0
  EntryConforms more no_properties e = more
  EntryConforms more (property name s ps) e =
      ((name ≡ e.0) → Conforms s e.1) × ((name ≢ e.0) → EntryConforms more ps e)

  pub ItemsConform : ItemSchema → Json → Type 0
  ItemsConform any_items v = Unit
  ItemsConform (every_item s) v = All (Conforms s) (elements v)

  pub ConformsToAll : Schemas → Json → Type 0
  ConformsToAll no_schemas v = Unit
  ConformsToAll (also s ss) v = Conforms s v × ConformsToAll ss v

  -- To exactly one, where there is one.
  pub ConformsToOne : Schemas → Json → Type 0
  ConformsToOne no_schemas v = Unit
  ConformsToOne (also s ss) v =
      (Conforms s v × ConformsToNone ss v) ⊎ ((¬ Conforms s v) × ExactlyOne ss v)

  pub ExactlyOne : Schemas → Json → Type 0
  ExactlyOne no_schemas v = ⊥
  ExactlyOne (also s ss) v =
      (Conforms s v × ConformsToNone ss v) ⊎ ((¬ Conforms s v) × ExactlyOne ss v)

  pub ConformsToNone : Schemas → Json → Type 0
  ConformsToNone no_schemas v = Unit
  ConformsToNone (also s ss) v = (¬ Conforms s v) × ConformsToNone ss v

  pub Implication : Conditional → Json → Type 0
  Implication unconditional v = Unit
  Implication (if_then s t) v = Conforms s v → Conforms t v
