-- ===== src/Adapter/Schema/Verdict.antt =====
-- pkg/adapter/schema_validate.go: validateAgainstSchema accepts the values that conform to the schema.
use execgo.Base.{
  ℕ, suc, String, ◌≡◌, refl, sym, ◌∙◌, ◌≢◌, ◌↔◌, inl, inr, Bool, not, List, [], ◌∷◌, ◌++◌, arith,
  text_cases, All, ok, err, ◌>>◌,
}
use execgo.Base.Dict.{Dict}
use execgo.Adapter.Json.{Json, entries, elements}
use execgo.Adapter.Schema.{
  Additional, Schema, schema, Properties, no_properties, property, ItemSchema, any_items,
  every_item, Schemas, no_schemas, also, Conditional, unconditional, if_then, JsonPath, key, index,
  SchemaError, Checked, Check, allows_additional_properties, check_entry, check_entries,
  check_items, one_of, conditionally, validate_against_schema, property_checks, validate_items,
  validate_all_of, results, validate_conditional,
}
use execgo.Adapter.Schema.Conforms.{
  AllowsMore, Conforms, EntryConforms, ItemsConform, ConformsToAll, ConformsToOne, ExactlyOne,
  ConformsToNone, Implication,
}
use execgo.Adapter.Schema.Options.{matching, none_step, one_step, one_of_iff}
use execgo.Adapter.Schema.Checks.{
  then_iff, refuse_iff, not_iff, validate_type_iff, validate_enum_iff, validate_number_bounds_iff,
  validate_required_iff, allows_iff,
}

then_both :
    (m k : Checked) (P Q : Type 0)
    → (m ≡ ok tt) ↔ P
    → (k ≡ ok tt) ↔ Q
    → ((m >> k) ≡ ok tt) ↔ (P × Q)
then_both m k P Q (a, b) (c, d) =
    let (f, g) = then_iff m k in (λ x. let (y, z) = f x in (a y, c z), λ (p, q). g (b p, d q))

refused : (r : Checked) (P : Type 0) (x : SchemaError) → (r ≡ ok tt) ↔ P → r ≡ err x → ¬ P
refused r P x (f, g) e p = absurd (cc (sym e ∙ g p))

conditionally_iff :
    (m k : Checked) (P Q : Type 0)
    → (m ≡ ok tt) ↔ P
    → (k ≡ ok tt) ↔ Q
    → (conditionally m k ≡ ok tt) ↔ (P → Q)
conditionally_iff (ok _) k P Q (a, b) (c, d) = (λ x p. c x, λ h. d (h (a refl)))
conditionally_iff (err y) k P Q (a, b) (c, d) = (λ x p. absurd (cc (b p)), λ h. refl)

items_iff :
    (check : Check) (P : Json → Type 0)
    → ((v : Json) (path : JsonPath) → (check v path ≡ ok tt) ↔ P v)
    → (i : ℕ) (vs : List Json) (path : JsonPath) → (check_items check i vs path ≡ ok tt) ↔ All P vs
unfolding check_items
items_iff check P h i [] path = (λ _. tt, λ _. refl)
items_iff check P h i (v ∷ vs) path =
    then_both (check v (path ++ index i ∷ [])) (check_items check (suc i) vs path) (P v) (All P vs)
      (h v (path ++ index i ∷ [])) (items_iff check P h (suc i) vs path)

entries_iff :
    (extra : Bool) (checks : Dict Check) (P : String × Json → Type 0)
    → ((k : String) (v : Json) (path : JsonPath)
        → (check_entry extra checks k v path ≡ ok tt) ↔ P (k, v))
    → (fs : List (String × Json)) (path : JsonPath)
    → (check_entries extra checks fs path ≡ ok tt) ↔ All P fs
unfolding check_entries
entries_iff extra checks P h [] path = (λ _. tt, λ _. refl)
entries_iff extra checks P h ((k, v) ∷ fs) path =
    then_both (check_entry extra checks k v path) (check_entries extra checks fs path) (P (k, v))
      (All P fs) (h k v path) (entries_iff extra checks P h fs path)

known_entry :
    (extra : Bool) (check : Check) (checks : Dict Check) (name k : String) (v : Json)
    (path : JsonPath) (P Q : Type 0)
    → ((path : JsonPath) → (check v path ≡ ok tt) ↔ P)
    → (check_entry extra checks k v path ≡ ok tt) ↔ Q
    → (check_entry extra ((name, check) ∷ checks) k v path ≡ ok tt)
      ↔ ((name ≡ k → P) × (name ≢ k → Q))
unfolding check_entry
known_entry extra check checks name k v path P Q here (f, g) = elim (text_cases name k) [
  | inl (e, t) ↦
      let (a, b) = here (path ++ key k ∷ []) in
      rw (t, check_entry) (λ x. (λ _. a x, λ n. absurd (n e)), λ h. b (h.0 e))
  | inr (n, t) ↦ rw (t, check_entry) (λ x. (λ e. absurd (n e), λ _. f x), λ h. g (h.1 n))
]

mutual
  unfolding validate_against_schema Conforms check_entry

  validate_iff :
      (s : Schema) (v : Json) (path : JsonPath)
      → (validate_against_schema s v path ≡ ok tt) ↔ Conforms s v
  validate_iff (schema k ps each all one cond) v path =
      let last = conditional_iff cond v path in
      let one_ok = options_iff one v path in
      let all_ok = all_of_iff all v path in
      let items_ok = each_iff each v path in
      let props_ok =
        entries_iff (allows_additional_properties k.additional) (property_checks ps)
          (EntryConforms (AllowsMore k.additional) ps) (λ j w p. entry_iff k.additional ps j w p)
          (entries v) path in
      let (f, g) = then_both _ _ _ _ (validate_type_iff k v path) (
        then_both _ _ _ _ (validate_enum_iff k v path) (
          then_both _ _ _ _ (validate_number_bounds_iff k v path) (
            then_both _ _ _ _ (validate_required_iff k v path) (
              then_both _ _ _ _ props_ok (
                then_both _ _ _ _ items_ok
                  (then_both _ _ _ _ all_ok (then_both _ _ _ _ one_ok last))))))) in
      (
        λ x. let (a, (b, (c, (d, (e, (h, (i, (j, l)))))))) = f x in (a, b, c, d, e, h, i, j, l),
        λ (a, b, c, d, e, h, i, j, l). g (a, (b, (c, (d, (e, (h, (i, (j, l)))))))),
      )

  entry_iff :
      (a : Additional) (ps : Properties) (k : String) (v : Json) (path : JsonPath)
      → (check_entry (allows_additional_properties a) (property_checks ps) k v path ≡ ok tt)
        ↔ EntryConforms (AllowsMore a) ps (k, v)
  entry_iff a no_properties k v path =
      let (f, g) =
        refuse_iff (not (allows_additional_properties a)) (SchemaError.is_not_allowed path k) in
      let (h, i) = allows_iff a in
      let (x, y) = not_iff (allows_additional_properties a) in (λ e. h (x (f e)), λ m. g (y (i m)))
  entry_iff a (property name s ps) k v path =
      known_entry (allows_additional_properties a) (validate_against_schema s) (property_checks ps)
        name k v path (Conforms s v) (EntryConforms (AllowsMore a) ps (k, v))
        (λ p. validate_iff s v p) (entry_iff a ps k v path)

  each_iff :
      (each : ItemSchema) (v : Json) (path : JsonPath)
      → (validate_items each v path ≡ ok tt) ↔ ItemsConform each v
  each_iff any_items v path = (λ _. tt, λ _. refl)
  each_iff (every_item s) v path =
      items_iff (validate_against_schema s) (Conforms s) (λ w p. validate_iff s w p) 0 (elements v)
        path

  all_of_iff :
      (ss : Schemas) (v : Json) (path : JsonPath)
      → (validate_all_of ss v path ≡ ok tt) ↔ ConformsToAll ss v
  all_of_iff no_schemas v path = (λ _. tt, λ _. refl)
  all_of_iff (also s ss) v path = then_both _ _ _ _ (validate_iff s v path) (all_of_iff ss v path)

  none_iff :
      (ss : Schemas) (v : Json) (path : JsonPath)
      → (matching (results ss v path) ≡ 0) ↔ ConformsToNone ss v
  none_iff no_schemas v path = (λ _. tt, λ _. refl)
  none_iff (also s ss) v path =
      none_step (validate_against_schema s v path) (results ss v path) _ _ (validate_iff s v path)
        (none_iff ss v path)

  one_iff :
      (ss : Schemas) (v : Json) (path : JsonPath)
      → (matching (results ss v path) ≡ 1) ↔ ExactlyOne ss v
  one_iff no_schemas v path = (λ e. absurd (omega (arith, e)), λ h. absurd h)
  one_iff (also s ss) v path =
      one_step (validate_against_schema s v path) (results ss v path) _ _ _ (validate_iff s v path)
        (none_iff ss v path) (one_iff ss v path)

  options_iff :
      (ss : Schemas) (v : Json) (path : JsonPath)
      → (one_of (results ss v path) path ≡ ok tt) ↔ ConformsToOne ss v
  options_iff no_schemas v path = (λ _. tt, λ _. refl)
  options_iff (also s ss) v path =
      let (a, b) = one_of_iff (validate_against_schema s v path) (results ss v path) path in
      let (f, g) =
        one_step (validate_against_schema s v path) (results ss v path) _ _ _
          (validate_iff s v path) (none_iff ss v path) (one_iff ss v path) in
      (λ e. f (a e), λ h. b (g h))

  conditional_iff :
      (c : Conditional) (v : Json) (path : JsonPath)
      → (validate_conditional c v path ≡ ok tt) ↔ Implication c v
  conditional_iff unconditional v path = (λ _. tt, λ _. refl)
  conditional_iff (if_then s t) v path =
      conditionally_iff (validate_against_schema s v path) (validate_against_schema t v path) _ _
        (validate_iff s v path) (validate_iff t v path)

-- For every schema, value and path: validateAgainstSchema returns nil exactly if the value
-- conforms to the schema, that is, has its type, is in its enum, within its bounds, has its
-- required keys, conforms entry by entry and item by item, to all of allOf, to exactly one of
-- oneOf where there is one, and to "then" if it conforms to "if".
pub validate_against_schema-Conforms :
    (s : Schema) (v : Json) (path : JsonPath)
    → (validate_against_schema s v path ≡ ok tt) ↔ Conforms s v
validate_against_schema-Conforms s v path = validate_iff s v path
