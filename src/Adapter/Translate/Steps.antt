-- ===== src/Adapter/Translate/Steps.antt =====
-- pkg/adapter/adapter.go: the steps that a request which Translate accepts has passed.
use execgo.Base.{String, ◌≡◌, List, Except, ok, err, ok_injective, absurd_ok, bind_ok}
use execgo.Models.Task.{TaskGraph}
use execgo.Models.Graph.{ValidationError}
use execgo.Models.Graph as models
use execgo.Adapter.Request.{AgentActionRequest, AgentActionResponse, invalid_graph, Std}
use execgo.Adapter.Kinds.{normalize_action_kind}
use execgo.Adapter.Translate.{wrap, validate_action_request, translate_kind, response, translate}

-- What Translate has found out about a request when it returns a response.
pub record Steps (std : Std) (order : List String → List String) (req : AgentActionRequest)
    (r : AgentActionResponse) : Type 0 where
  pub kind : String
  pub graph : TaskGraph
  pub checked : validate_action_request std req ≡ ok tt
  pub normalized : normalize_action_kind std (std.trim_space req.action.kind) ≡ ok kind
  pub translated : translate_kind std req (std.trim_space req.action.kind) kind ≡ ok graph
  pub valid : models.validate order graph ≡ ok tt
  pub answer : response std req (std.trim_space req.action.kind) kind graph ≡ r

module _ {ℓ κ} {E : Type ℓ} {F : Type κ} {A : Type 0} where
  pub wrap_ok : (f : E → F) (m : Except E A) (a : A) → wrap f m ≡ ok a → m ≡ ok a
  wrap_ok f (ok b) a e = cc e
  wrap_ok f (err x) a e = absurd (absurd_ok (f x) a e)

pub translate-Steps :
    (std : Std) (order : List String → List String) (req : AgentActionRequest)
    (r : AgentActionResponse)
    → translate std order req ≡ ok r
    → Steps std order req r
unfolding translate
translate-Steps std order req r e =
    let raw = std.trim_space req.action.kind in
    let (_, c, e₁) = bind_ok (validate_action_request std req) _ r e in
    let (kind, n, e₂) = bind_ok (normalize_action_kind std raw) _ r e₁ in
    let (g, t, e₃) = bind_ok (translate_kind std req raw kind) _ r e₂ in
    let (_, v, e₄) = bind_ok (wrap invalid_graph (models.validate order g)) _ r e₃ in
    record {
      kind = kind;
      graph = g;
      checked = c;
      normalized = n;
      translated = t;
      valid = wrap_ok invalid_graph (models.validate order g) tt v;
      answer = ok_injective (response std req raw kind g) r e₄;
    }
