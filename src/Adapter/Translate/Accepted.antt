-- ===== src/Adapter/Translate/Accepted.antt =====
-- pkg/adapter/adapter.go, schema_validate.go: what holds of a request that Translate accepts.
use execgo.Base.{
  String, ◌≡◌, refl, sym, ap, ◌∙◌, subst, ◌↔◌, Option, none, some, List, [], In, IsDistinct, has,
  has_repeat, IsDistinct-of_has_repeat, ok, ok_injective, absurd_ok, bind_ok, bind_intro,
}
use execgo.Models.Runtime.{Raw}
use execgo.Models.Graph.Edges.{ids}
use execgo.Models.Graph.Order.{IsWalk}
use execgo.Models.Graph.Valid.{IsValidGraph}
use execgo.Models.Graph.Accept.{validate-IsValidGraph}
use execgo.Adapter.Json.{Json}
use execgo.Adapter.Schema.{Schema, SchemaError}
use execgo.Adapter.Schema as schemas
use execgo.Adapter.Schema.Conforms.{Conforms}
use execgo.Adapter.Schema.Verdict.{validate_against_schema-Conforms}
use execgo.Adapter.Manifest.{
  supported_kinds, input_schema_for_kind, AgentToolSpec, tool_manifest, find_schema,
}
use execgo.Adapter.Request.{
  AgentActionRequest, AgentActionResponse, no_schema, refused_input, Std, task_ids,
}
use execgo.Adapter.Kinds.{normalize_action_kind}
use execgo.Adapter.Kinds.Supported.{normalize_action_kind-supported_kinds}
use execgo.Adapter.Translate.{
  wrap, decode_input, schema_or_refuse, found_schema, checked_input, validate_action_request,
  response, translate,
}
use execgo.Adapter.Translate.Input.{IsChecked, IsDecoded, checked_input_iff, decode_input_iff}
use execgo.Adapter.Manifest.Tools.{action_kinds, find_schema-In, find_schema_of_In}
use execgo.Adapter.Translate.Steps.{wrap_ok, translate-Steps}

-- For every order of the walk over the degree map, every codec and every clock: when Translate
-- returns without an error, its graph is valid (tasks with distinct ids and types that are not
-- empty, dependencies inside the graph, no cycle), the response lists the ids of the graph, and
-- the normalized kind in the trace is a supported one.
pub translate-IsValidGraph :
    (std : Std) (order : List String → List String)
    → IsWalk order
    → (req : AgentActionRequest) (r : AgentActionResponse) → translate std order req ≡ ok r
    → IsValidGraph r.task_graph.tasks
      × (r.task_ids ≡ ids r.task_graph.tasks)
      × In r.translation_trace.normalized_kind supported_kinds
unfolding response task_ids
translate-IsValidGraph std order walk req r e =
    let s = translate-Steps std order req r e in
    let raw = std.trim_space req.action.kind in
    let valid = (validate-IsValidGraph order walk s.graph.tasks).0 s.valid in
    let known = normalize_action_kind-supported_kinds std raw s.kind s.normalized in
    subst
      (λ a.
        IsValidGraph a.task_graph.tasks
        × (a.task_ids ≡ ids a.task_graph.tasks)
        × In a.translation_trace.normalized_kind supported_kinds)
      s.answer (valid, refl, known)

-- The input, with the default action of a file alias, is a value that conforms to the schema of the
-- tool of the manifest for the kind.
abbrev pub InputConforms : Std → AgentActionRequest → String → Type 0
InputConforms std req kind =
    (t : AgentToolSpec) × (raw : Raw) × (v : Json) × In t tool_manifest.tools
    × (t.action_kind ≡ kind)
    × IsChecked std (std.to_lower (std.trim_space (std.trim_space req.action.kind)))
        req.action.input raw
    × IsDecoded std raw v
    × Conforms t.input_schema v

tool_kinds-IsDistinct : IsDistinct (action_kinds tool_manifest.tools)
unfolding has has_repeat tool_manifest
tool_kinds-IsDistinct = IsDistinct-of_has_repeat (action_kinds tool_manifest.tools) refl

schema_found :
    (o : Option Schema) (kind : String) (s : Schema) → found_schema kind o ≡ ok s → o ≡ some s
schema_found none kind s e = absurd (absurd_ok (no_schema kind) s e)
schema_found (some t) kind s e = ap some (ok_injective t s e)

input_conforms :
    (std : Std) (req : AgentActionRequest) (kind : String)
    → normalize_action_kind std (std.trim_space req.action.kind) ≡ ok kind
    → validate_action_request std req ≡ ok tt
    → InputConforms std req kind
unfolding validate_action_request input_schema_for_kind
input_conforms std req kind n e =
    let raw_kind = std.trim_space req.action.kind in
    let (k, n', e₁) = bind_ok (normalize_action_kind std raw_kind) _ tt e in
    let (s, found, e₂) = bind_ok (schema_or_refuse k) _ tt e₁ in
    let (raw, c, e₃) = bind_ok (checked_input std req raw_kind k) _ tt e₂ in
    let (v, d, e₄) = bind_ok (decode_input std raw) _ tt e₃ in
    let (t, m, own, of_t) =
      find_schema-In k s tool_manifest.tools (schema_found (input_schema_for_kind k) k s found) in
    let h =
      (validate_against_schema-Conforms s v []).0
        (wrap_ok refused_input (schemas.validate_against_schema s v []) tt e₄) in
    (
      t,
      raw,
      v,
      m,
      own ∙ ok_injective k kind (sym n' ∙ n),
      (checked_input_iff std req raw_kind k n' raw).0 c,
      (decode_input_iff std raw v).0 d,
      subst (λ x. Conforms x v) (sym of_t) h,
    )

-- For a request whose kind normalizes to a kind: ValidateActionRequest returns nil exactly if the
-- manifest has a tool for the kind, the input that is checked decodes, and the value conforms to
-- the schema of the tool. That input is the one of the action; for file.read and file.write it
-- encodes the object of the action's input, with the action read or write where it had none.
pub validate_action_request-Conforms :
    (std : Std) (req : AgentActionRequest) (kind : String)
    → normalize_action_kind std (std.trim_space req.action.kind) ≡ ok kind
    → (validate_action_request std req ≡ ok tt) ↔ InputConforms std req kind
unfolding validate_action_request input_schema_for_kind
validate_action_request-Conforms std req kind n = (
  input_conforms std req kind n,
  λ (t, raw, v, m, own, c, d, h).
      let raw_kind = std.trim_space req.action.kind in
      let s = t.input_schema in
      let found =
        subst (λ x. find_schema x tool_manifest.tools ≡ some s) own
          (find_schema_of_In t tool_manifest.tools tool_kinds-IsDistinct m) in
      let accepted = ap (wrap refused_input) ((validate_against_schema-Conforms s v []).1 h) in
      let schema_ok : schema_or_refuse kind ≡ ok s = ap (found_schema kind) found in
      bind_intro _ _ kind tt n (
        bind_intro _ _ s tt schema_ok (
          bind_intro _ _ raw tt ((checked_input_iff std req raw_kind kind n raw).1 c)
            (bind_intro _ _ v tt ((decode_input_iff std raw v).1 d) accepted))),
)
