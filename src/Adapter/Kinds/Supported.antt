-- ===== src/Adapter/Kinds/Supported.antt =====
-- pkg/adapter/adapter.go, schema_validate.go: NormalizeActionKind gives the kinds that have a schema.
use execgo.Base.{
  String, ◌≡◌, refl, sym, subst, ◌↔◌, inl, inr, true, not, Option, none, some, List, [], ◌∷◌, map,
  arith, ◌==◌, text_cases, has, has_iff, In, All-In, ok, ok_injective, if_ok,
}
use execgo.Base.Dict.{Dict, lookup}
use execgo.Adapter.Schema.{Schema}
use execgo.Adapter.Manifest.{
  supported_kinds, AgentToolSpec, tool_manifest, find_schema, input_schema_for_kind,
}
use execgo.Adapter.Request.{kind_required, unknown_kind, Std}
use execgo.Adapter.Schema.Checks.{not_iff}
use execgo.Adapter.Kinds.{aliases, alias_or_kind, resolve, normalize_action_kind}

lookup-values : (k v : String) (m : Dict String) → lookup k m ≡ some v → In v (map (λ e. e.1) m)
lookup-values k v [] e = absurd (cc e)
lookup-values k v ((j, w) ∷ m) e = ground (arith, lookup-values k v m)

-- The kinds of the aliases are supported.
aliases-supported : (v : String) → In v (map (λ e. e.1) aliases) → In v supported_kinds
unfolding has
aliases-supported v m = (has_iff v supported_kinds).0 (
    All-In (λ k. has k supported_kinds ≡ true) v (map (λ e. e.1) aliases)
      (
        refl,
        (refl, (refl, (refl, (refl, (refl, (refl, (refl, (refl, (refl, (refl, (refl, tt))))))))))),
      )
      m)

chosen :
    (kind k r : String) (o : Option String)
    → ((v : String) → o ≡ some v → In v supported_kinds)
    → alias_or_kind kind k o ≡ ok r
    → In r supported_kinds
chosen kind k r (some a) h e = subst (λ v. In v supported_kinds) (ok_injective a r e) (h a refl)
chosen kind k r none h e =
    let (found, same) = if_ok (not (has k supported_kinds)) (unknown_kind kind) (ok k) r e in
    let here : has k supported_kinds ≡ true = (not_iff (has k supported_kinds)).0 found in
    subst (λ v. In v supported_kinds) (ok_injective k r same) ((has_iff k supported_kinds).0 here)

resolve-supported : (kind k r : String) → resolve kind k ≡ ok r → In r supported_kinds
unfolding resolve
resolve-supported kind k r e =
    chosen kind k r (lookup k aliases) (λ v a. aliases-supported v (lookup-values k v aliases a))
      (if_ok (k == "") kind_required (alias_or_kind kind k (lookup k aliases)) r e).1

find_schema_iff :
    (k : String) (ts : List AgentToolSpec)
    → ((s : Schema) × (find_schema k ts ≡ some s)) ↔ In k (map (λ t. t.action_kind) ts)
unfolding find_schema
find_schema_iff k [] = (λ x. absurd (cc x.1), λ m. absurd m)
find_schema_iff k (t ∷ ts) =
    let (f, g) = find_schema_iff k ts in
    elim (text_cases t.action_kind k) [
      | inl (e, t) ↦ rw t (λ _. inl (sym e), λ _. (_, refl))
      | inr (n, t) ↦ rw t (λ x. inr (f x), λ m. elim m [ inl e ↦ absurd (n (sym e)) | inr i ↦ g i ])
    ]

-- Whatever the library makes of the text: a kind that NormalizeActionKind returns is a supported
-- one.
pub normalize_action_kind-supported_kinds :
    (std : Std) (raw kind : String)
    → normalize_action_kind std raw ≡ ok kind
    → In kind supported_kinds
unfolding normalize_action_kind
normalize_action_kind-supported_kinds std raw kind e = resolve-supported raw _ kind e

-- inputSchemaForKind finds a schema exactly for the supported kinds.
pub input_schema_for_kind-supported_kinds :
    (kind : String)
    → ((s : Schema) × (input_schema_for_kind kind ≡ some s)) ↔ In kind supported_kinds
unfolding input_schema_for_kind tool_manifest
input_schema_for_kind-supported_kinds kind = find_schema_iff kind tool_manifest.tools
