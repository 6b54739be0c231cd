-- ===== src/Adapter/Manifest/Tools.antt =====
-- pkg/adapter/schema_validate.go: the schema that inputSchemaForKind finds.
use execgo.Base.{
  String, ◌≡◌, refl, sym, ap, subst, inl, inr, some, List, [], ◌∷◌, map, In, In-map_of_In,
  IsDistinct, text_cases, eq_iff,
}
use execgo.Adapter.Schema.{Schema}
use execgo.Adapter.Manifest.{AgentToolSpec, find_schema}

abbrev pub action_kinds : List AgentToolSpec → List String
action_kinds ts = map (λ t. t.action_kind) ts

pub find_schema-In :
    (kind : String) (s : Schema) (ts : List AgentToolSpec)
    → find_schema kind ts ≡ some s
    → (t : AgentToolSpec) × In t ts × (t.action_kind ≡ kind) × (t.input_schema ≡ s)
unfolding find_schema
find_schema-In kind s [] e = absurd (cc e)
find_schema-In kind s (t ∷ ts) e = elim (text_cases t.action_kind kind) [
  | inl (same, b) ↦
      let found : t.input_schema ≡ s = cc (rw (b, find_schema) at e) in (t, inl refl, same, found)
  | inr (n, b) ↦
      let (u, m, same, found) = find_schema-In kind s ts (rw (b, find_schema) at e) in
      (u, inr m, same, found)
]

pub find_schema_of_In :
    (t : AgentToolSpec) (ts : List AgentToolSpec)
    → IsDistinct (action_kinds ts)
    → In t ts
    → find_schema t.action_kind ts ≡ some t.input_schema
unfolding find_schema
find_schema_of_In t [] d m = absurd m
find_schema_of_In t (u ∷ us) (fresh, d) (inl e) =
    rw ((eq_iff u.action_kind t.action_kind).1 (ap (λ x. x.action_kind) (sym e)), find_schema)
      (ap (λ (x : AgentToolSpec). some x.input_schema) (sym e))
find_schema_of_In t (u ∷ us) (fresh, d) (inr m) = elim (text_cases u.action_kind t.action_kind) [
  | inl (same, b) ↦ absurd (
      fresh
        (subst (λ x. In x (action_kinds us)) (sym same) (In-map_of_In (λ x. x.action_kind) t us m)))
  | inr (n, b) ↦ rw (b, find_schema) (find_schema_of_In t us d m)
]
