-- ===== src/Adapter/Translate/Single.antt =====
-- pkg/adapter/adapter.go: every kind but task_graph.submit gives a graph of one task.
use execgo.Base.{
  String, ◌≡◌, refl, sym, ap, ◌∙◌, subst, ◌≢◌, inl, inr, ◌||◌, List, [], ◌∷◌, eq_iff, ◌==◌,
  List-cases, In, Except, ok, refuse_if, ok_injective, absurd_ok, bind_ok, if_either,
}
use execgo.Models.Runtime.{Raw}
use execgo.Models.Task.{Task, TaskGraph}
use execgo.Models.Graph.Order.{IsWalk}
use execgo.Models.Graph.Valid.{IsValidGraph}
use execgo.Models.Graph.Accept.{validate-IsValidGraph}
use execgo.Adapter.Request.{
  AgentActionRequest, AgentActionResponse, ActionError, tool_name_required, unknown_kind, Std,
  provenance,
}
use execgo.Adapter.Payload.{runtime_payload, normalize_os_input}
use execgo.Adapter.Translate.{
  task_of, os_task, runtime_task, mcp_task, mcp_tool_name, cli_task, single, translate_kind,
  response, translate,
}
use text.Mathlib.Text.{starts_with}
use execgo.Adapter.Translate.Steps.{translate-Steps}

-- The fields of a task that come from the request as they are.
pub record IsTaskOf (std : Std) (req : AgentActionRequest) (kind : String) (t : Task) : Type 0 where
  pub depends_on : t.depends_on ≡ req.action.depends_on
  pub retry : t.retry ≡ req.action.retry
  pub timeout : t.timeout ≡ req.action.timeout
  pub annotations : t.annotations ≡ provenance std req kind

task_of-IsTaskOf :
    (std : Std) (req : AgentActionRequest) (kind id type tool_name : String) (input : Raw)
    (category : String) (t : Task)
    → ◌≡◌ {A = Except ActionError Task}
        (ok (task_of std req kind id type tool_name input category))
        (ok t)
    → IsTaskOf std req kind t
task_of-IsTaskOf std req kind id type tool_name input category t e =
    subst (IsTaskOf std req kind)
      (ok_injective (task_of std req kind id type tool_name input category) t e)
      (record { depends_on = refl; retry = refl; timeout = refl; annotations = refl })

os_task-IsTaskOf :
    (std : Std) (req : AgentActionRequest) (raw kind : String) (t : Task)
    → os_task std req raw kind ≡ ok t
    → IsTaskOf std req kind t
unfolding os_task
os_task-IsTaskOf std req raw kind t e =
    let (input, _, e₁) = bind_ok (normalize_os_input std req.action.input raw) _ t e in
    task_of-IsTaskOf std req kind _ _ _ input _ t e₁

runtime_task-IsTaskOf :
    (std : Std) (req : AgentActionRequest) (kind : String) (t : Task)
    → runtime_task std req kind ≡ ok t
    → IsTaskOf std req kind t
unfolding runtime_task
runtime_task-IsTaskOf std req kind t e =
    let (payload, _, e₁) = bind_ok (runtime_payload std req kind) _ t e in
    task_of-IsTaskOf std req kind _ _ _ _ _ t e₁

mcp_task-IsTaskOf :
    (std : Std) (req : AgentActionRequest) (kind : String) (t : Task)
    → mcp_task std req kind ≡ ok t
    → IsTaskOf std req kind t
unfolding mcp_task
mcp_task-IsTaskOf std req kind t e =
    let (tool_name, _, e₁) = bind_ok (mcp_tool_name std req) _ t e in
    let (_, _, e₂) =
      bind_ok (refuse_if (std.trim_space tool_name == "") tool_name_required) _ t e₁ in
    task_of-IsTaskOf std req kind _ _ _ _ _ t e₂

cli_task-IsTaskOf :
    (std : Std) (req : AgentActionRequest) (kind : String) (t : Task)
    → cli_task std req kind ≡ ok t
    → IsTaskOf std req kind t
unfolding cli_task
cli_task-IsTaskOf std req kind t e = task_of-IsTaskOf std req kind _ _ _ _ _ t e

abbrev pub IsSingle : Std → AgentActionRequest → String → TaskGraph → Type 0
IsSingle std req kind g = (t : Task) × (g.tasks ≡ t ∷ []) × IsTaskOf std req kind t

single-IsSingle :
    (std : Std) (req : AgentActionRequest) (kind : String) (m : Except ActionError Task)
    (g : TaskGraph)
    → ((t : Task) → m ≡ ok t → IsTaskOf std req kind t)
    → single m ≡ ok g
    → IsSingle std req kind g
single-IsSingle std req kind m g h e =
    let (t, e₁, e₂) = bind_ok m _ g e in
    (t, sym (ap (λ x. x.tasks) (ok_injective (record { tasks = t ∷ [] }) g e₂)), h t e₁)

pub translate_kind-IsSingle :
    (std : Std) (req : AgentActionRequest) (raw kind : String) (g : TaskGraph)
    → kind ≢ "task_graph.submit"
    → translate_kind std req raw kind ≡ ok g
    → IsSingle std req kind g
unfolding translate_kind
translate_kind-IsSingle std req raw kind g n e =
    let done = single-IsSingle std req kind in
    if_either (kind == "task_graph.submit") _ _ g _ e
      (λ b _. absurd (n ((eq_iff kind "task_graph.submit").0 b)))
      (λ _ e₁.
        if_either ((kind == "runtime.command") || (kind == "runtime.script")) _ _ g _ e₁
          (λ _. done (runtime_task std req kind) g (runtime_task-IsTaskOf std req kind))
          (λ _ e₂.
            if_either (kind == "mcp.call") _ _ g _ e₂
              (λ _. done (mcp_task std req kind) g (mcp_task-IsTaskOf std req kind))
              (λ _ e₃.
                if_either (kind == "cli.run") _ _ g _ e₃
                  (λ _. done (cli_task std req kind) g (cli_task-IsTaskOf std req kind))
                  (λ _ e₄.
                    if_either (starts_with kind "os.") _ _ g _ e₄
                      (λ _. done (os_task std req raw kind) g (os_task-IsTaskOf std req raw kind))
                      (λ _ e₅. absurd (absurd_ok (unknown_kind raw) g e₅))))))

-- The only task of a valid graph depends on nothing.
lone_task_free : (t : Task) → IsValidGraph (t ∷ []) → t.depends_on ≡ []
lone_task_free t v = elim (List-cases t.depends_on) [
  | inl e ↦ e
  | inr (d, rest, e) ↦
      let (here, other) = v.closed.0 d (subst (In d) (sym e) (inl refl)) in
      absurd (other (elim here [ inl h ↦ h | inr h ↦ absurd h ]))
]

-- For every order of the walk: when Translate accepts an action whose kind does not normalize to
-- task_graph.submit, the action has no dependencies, and the graph is one task with the
-- dependencies, the retry count and the timeout of the action, and the annotations of provenance.
pub translate-IsSingle :
    (std : Std) (order : List String → List String)
    → IsWalk order
    → (req : AgentActionRequest) (r : AgentActionResponse) → translate std order req ≡ ok r
    → r.translation_trace.normalized_kind ≢ "task_graph.submit"
    → (req.action.depends_on ≡ [])
      × IsSingle std req r.translation_trace.normalized_kind r.task_graph
unfolding response
translate-IsSingle std order walk req r e n =
    let s = translate-Steps std order req r e in
    let raw = std.trim_space req.action.kind in
    let same : s.kind ≡ r.translation_trace.normalized_kind =
      ap (λ a. a.translation_trace.normalized_kind) s.answer in
    let graph_same : s.graph ≡ r.task_graph = ap (λ a. a.task_graph) s.answer in
    let (t, only, fields_) =
      translate_kind-IsSingle std req raw s.kind s.graph (λ h. n (sym same ∙ h)) s.translated in
    let valid = (validate-IsValidGraph order walk s.graph.tasks).0 s.valid in
    (
      sym fields_.depends_on ∙ lone_task_free t (subst IsValidGraph only valid),
      subst (λ g. IsSingle std req r.translation_trace.normalized_kind g) graph_same
          (subst (λ k. IsSingle std req k s.graph) same (t, only, fields_)),
    )
