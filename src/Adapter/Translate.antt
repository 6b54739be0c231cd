-- ===== src/Adapter/Translate.antt =====
-- pkg/adapter/adapter.go, schema_validate.go: Translate, the tasks of each kind and ValidateActionRequest.
pub mod Input
pub mod Accepted
pub mod Steps
pub mod Single
pub mod Scheduled
use execgo.Base.{
  String, Bool, not, Option, none, some, List, [], ◌∷◌, ◌||◌, if◌then◌else◌, ◌==◌, pos, Except, ok,
  err, ◌>>=◌, ◌>>◌, refuse_if, ℤ,
}
use execgo.Base.Dict.{Dict, lookup}
use execgo.Models.Runtime.{Raw, RuntimeStatus}
use execgo.Models.Task.{Task, TaskGraph, TaskStatus}
use execgo.Models.Graph.{ValidationError}
use execgo.Models.Graph as models
use execgo.Adapter.Json.{Json, null, str, obj, no_fields}
use execgo.Adapter.Schema.{Schema, SchemaError, Checked}
use execgo.Adapter.Schema as schemas
use execgo.Adapter.Manifest.{schema_version, input_schema_for_kind}
use execgo.Adapter.Request.{
  AgentAction, AgentActionRequest, AgentActionResponse, TranslationTrace, ActionError,
  tool_name_required, no_schema, not_valid_json, refused_input, invalid_graph, unknown_kind, Std,
  task_ids, raw_object, task_id, adapter_name, provenance,
}
use execgo.Adapter.Kinds.{normalize_action_kind}
use execgo.Adapter.Payload.{
  trim_prefix, runtime_payload, normalize_os_input, graph_from_action_input,
}
use text.Mathlib.Text.{starts_with}

-- `fmt.Errorf("invalid adapter action: %w", err)`
abbrev pub wrap {ℓ κ μ} : {E : Type ℓ} {F : Type κ} {A : Type μ} → (E → F) → Except E A → Except F A
wrap f (ok a) = ok a
wrap f (err e) = err (f e)

abbrev pub found_schema : String → Option Schema → Except ActionError Schema
found_schema kind none = err (no_schema kind)
found_schema kind (some s) = ok s

-- The text of an `any` value, or "".
abbrev pub text_or_empty : Option Json → String
text_or_empty (some (str s)) = s
text_or_empty _ = ""

abbrev pub single : Except ActionError Task → Except ActionError TaskGraph
single t = do task ← t; ok (record { tasks = task ∷ [] })

abbrev pub schema_or_refuse : String → Except ActionError Schema
schema_or_refuse kind = found_schema kind (input_schema_for_kind kind)

module _ (std : Std) where
  -- What the four kinds of task share.
  abbrev pub task_of : AgentActionRequest → String → String → String → String → Raw → String → Task
  task_of req kind id type tool_name input category = record {
    id = id;
    type = type;
    params = [];
    tool_name = tool_name;
    input = input;
    category = category;
    depends_on = req.action.depends_on;
    retry = req.action.retry;
    timeout = req.action.timeout;
    annotations = provenance std req kind;
    status = TaskStatus.other "";
    run_status = RuntimeStatus.unset;
    handle_id = "";
    progress = [];
    result = [];
    runtime = none;
    events = [];
    error = "";
    created_at = 0;
    updated_at = 0;
  }

  unfoldable pub os_task : AgentActionRequest → String → String → Except ActionError Task
  os_task req raw_kind kind = do
    input ← normalize_os_input std req.action.input raw_kind
    ok (task_of req kind (task_id std req.action_id) "os" (trim_prefix kind "os.") input "os")

  unfoldable pub runtime_task : AgentActionRequest → String → Except ActionError Task
  runtime_task req kind = do
    payload ← runtime_payload std req kind
    ok (task_of req kind payload.1 "runtime" "" payload.0 "runtime")

  -- The tool name of the action, or else of the input.
  unfoldable pub mcp_tool_name : AgentActionRequest → Except ActionError String
  mcp_tool_name req =
      let own = std.trim_space req.action.tool_name in
      if own == ""
      then (do
        input ← raw_object std req.action.input
        ok (text_or_empty (lookup "tool_name" input)))
      else ok own

  unfoldable pub mcp_task : AgentActionRequest → String → Except ActionError Task
  mcp_task req kind = do
    tool_name ← mcp_tool_name req
    refuse_if (std.trim_space tool_name == "") tool_name_required
    ok (task_of req kind (task_id std req.action_id) "mcp" tool_name req.action.input "mcp")

  unfoldable pub cli_task : AgentActionRequest → String → Except ActionError Task
  cli_task req kind = ok (
      task_of req kind (task_id std req.action_id) "cli-skills" "cli.run" req.action.input
        "cli-skills")

  -- `json.Unmarshal(rawInput, &input)`, where no bytes leave the empty object.
  unfoldable pub decode_input : Raw → Except ActionError Json
  decode_input [] = ok (obj no_fields)
  decode_input (b ∷ bs) = elim (std.decode (b ∷ bs)) [ none ↦ err not_valid_json | some v ↦ ok v ]

  -- The input that is checked: that of an os.* kind is normalized first.
  unfoldable pub checked_input : AgentActionRequest → String → String → Except ActionError Raw
  checked_input req raw_kind kind =
      if starts_with kind "os."
      then normalize_os_input std req.action.input raw_kind
      else ok req.action.input

  unfoldable pub validate_action_request : AgentActionRequest → Except ActionError (Unit {0})
  validate_action_request req = do
    kind ← normalize_action_kind std (std.trim_space req.action.kind)
    schema ← schema_or_refuse kind
    raw_input ← checked_input req (std.trim_space req.action.kind) kind
    input ← decode_input raw_input
    wrap refused_input (schemas.validate_against_schema schema input [])

  -- The switch of Translate.
  unfoldable pub translate_kind :
      AgentActionRequest → String → String → Except ActionError TaskGraph
  translate_kind req raw_kind kind =
      if kind == "task_graph.submit"
      then graph_from_action_input std req.action.input
      else if (kind == "runtime.command") || (kind == "runtime.script")
      then single (runtime_task req kind)
      else if kind == "mcp.call"
      then single (mcp_task req kind)
      else if kind == "cli.run"
      then single (cli_task req kind)
      else if starts_with kind "os."
      then single (os_task req raw_kind kind)
      else err (unknown_kind raw_kind)

  unfoldable pub response : AgentActionRequest → String → String → TaskGraph → AgentActionResponse
  response req raw_kind kind g = record {
    task_ids = task_ids g;
    task_graph = g;
    translation_trace = record {
      schema_version = schema_version;
      adapter = adapter_name std req.adapter;
      agent_id = req.agent_id;
      session_id = req.session_id;
      action_id = req.action_id;
      source_kind = raw_kind;
      normalized_kind = kind;
      task_ids = task_ids g;
    };
  }

  -- `order` is the order in which detectCycle walks its map. The graph is never nil here: each branch
  -- that returns no error returns a graph.
  module _ (order : List String → List String) where
    unfoldable pub translate : AgentActionRequest → Except ActionError AgentActionResponse
    translate req = do
      validate_action_request req
      kind ← normalize_action_kind std (std.trim_space req.action.kind)
      g ← translate_kind req (std.trim_space req.action.kind) kind
      wrap invalid_graph (models.validate order g)
      ok (response req (std.trim_space req.action.kind) kind g)
