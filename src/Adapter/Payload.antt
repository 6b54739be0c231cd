-- ===== src/Adapter/Payload.antt =====
-- pkg/adapter/adapter.go: the inputs of the tasks, runtimePayload, runtimeExecution, normalizeOSInput and
-- graphFromActionInput.
pub mod Runtime
pub mod Completed
pub mod Files
use execgo.Base.{
  String, Bool, true, false, Option, none, some, List, [], ◌∷◌, map, if◌then◌else◌, ◌==◌, Except,
  ok, err, ◌>>=◌,
}
use execgo.Base.Dict.{Dict, lookup, insert}
use execgo.Models.Runtime.{Raw}
use execgo.Models.Task.{TaskGraph}
use execgo.Adapter.Json.{Json, str, arr, obj, fields, to_items, to_fields}
use execgo.Adapter.Request.{
  AgentActionRequest, ActionError, not_an_object, marshal_failed, program_required, script_required,
  input_required, graph_not_parsed, no_tasks, GraphInput, Std, string_map_value, string_slice_value,
  text_object, raw_object, task_id, string_value, merge_string_maps, provenance,
}
use Prim.Native.String.{len, slice}
use text.Mathlib.Text.{starts_with}

-- strings.TrimPrefix
unfoldable pub trim_prefix : String → String → String
trim_prefix s prefix = if starts_with s prefix then slice s (len prefix) (len s) else s

-- `payload[key] = v`, where there is a value.
unfoldable pub insert_some : String → Option Json → Dict Json → Dict Json
insert_some key none m = m
insert_some key (some v) m = insert key v m

abbrev pub texts_json : Option (List String) → Option Json
texts_json none = none
texts_json (some ss) = some (arr (to_items (map str ss)))

abbrev pub env_json : Dict String → Option Json
env_json [] = none
env_json (e ∷ es) = some (text_object (e ∷ es))

-- `for _, key := range keys { if v, ok := in[key]; ok { payload[key] = v } }`
unfoldable pub forward_keys : List String → Dict Json → Dict Json → Dict Json
forward_keys [] in_ payload = payload
forward_keys (key ∷ keys) in_ payload =
    forward_keys keys in_ (insert_some key (lookup key in_) payload)

abbrev pub chosen_graph : GraphInput → Except ActionError TaskGraph
chosen_graph env = elim env.task_graph [
  | some g ↦ ok g
  | none ↦ elim env.tasks [ some ts ↦ ok (record { tasks = ts }) | none ↦ err no_tasks ]
]

-- `if _, ok := obj["action"]; !ok { obj["action"] = action }`
abbrev pub action_or : String → Dict Json → Option Json → Dict Json
action_or action object none = insert "action" (str action) object
action_or action object (some _) = object

unfoldable pub with_default_action : String → Dict Json → Dict Json
with_default_action action object = action_or action object (lookup "action" object)

abbrev pub marshalled : Option Raw → Except ActionError Raw
marshalled none = err marshal_failed
marshalled (some raw) = ok raw

module _ (std : Std) where
  -- One of the two branches of runtimeExecution: a text that must be there and a list of texts.
  unfoldable pub execution_of :
      String → String → String → ActionError → Dict Json → Except ActionError (Dict Json)
  execution_of kind body arguments missing in_ = elim (string_value std (lookup body in_)) [
    | none ↦ err missing
    | some text ↦ ok (
        insert_some "env" (env_json (string_map_value (lookup "env" in_))) (
          insert_some arguments (texts_json (string_slice_value (lookup arguments in_)))
            (insert body (str text) (("kind", str (trim_prefix kind "runtime.")) ∷ []))))
  ]

  unfoldable pub runtime_execution : Dict Json → String → Except ActionError (Dict Json)
  runtime_execution in_ kind =
      if kind == "runtime.command"
      then execution_of kind "program" "args" program_required in_
      else execution_of kind "script" "interpreter" script_required in_

  -- `input.execution` with its kind filled in, or an execution made of the flat keys.
  unfoldable pub chosen_execution : Dict Json → String → Except ActionError (Dict Json)
  chosen_execution in_ kind = elim (lookup "execution" in_) [
    | some (obj fs) ↦ elim (lookup "kind" (fields fs)) [
      | some _ ↦ ok (fields fs)
      | none ↦ ok (insert "kind" (str (trim_prefix kind "runtime.")) (fields fs))
    ]
    | _ ↦ runtime_execution in_ kind
  ]

  unfoldable pub runtime_task_id : AgentActionRequest → Dict Json → String
  runtime_task_id req in_ =
      if req.action_id == ""
      then (elim (string_value std (lookup "task_id" in_)) [
        | some existing ↦ existing
        | none ↦ task_id std req.action_id
      ])
      else task_id std req.action_id

  unfoldable pub runtime_metadata : AgentActionRequest → String → Dict Json → Dict String
  runtime_metadata req kind in_ =
      merge_string_maps std
        (string_map_value (lookup "metadata" in_) ∷ req.metadata ∷ provenance std req kind ∷ [])

  unfoldable pub payload_of : AgentActionRequest → String → Dict Json → Dict Json → Dict Json
  payload_of req kind in_ execution =
      insert_some "metadata" (env_json (runtime_metadata req kind in_)) (
        forward_keys ("limits" ∷ "sandbox" ∷ "policy" ∷ "control_context" ∷ []) in_ (
          ("task_id", str (runtime_task_id req in_))
          ∷ ("execution", obj (to_fields execution))
          ∷ []))

  -- json.Marshal, or the error of the caller.
  unfoldable pub marshal : Dict Json → Except ActionError Raw
  marshal m = elim (std.encode (obj (to_fields m))) [
    | none ↦ err marshal_failed
    | some raw ↦ ok raw
  ]

  unfoldable pub runtime_payload : AgentActionRequest → String → Except ActionError (Raw × String)
  runtime_payload req kind = do
    in_ ← raw_object std req.action.input
    execution ← chosen_execution in_ kind
    data_ ← marshal (payload_of req kind in_ execution)
    ok (data_, runtime_task_id req in_)

  unfoldable pub input_with_default_action : Raw → String → Except ActionError Raw
  input_with_default_action raw action = do
    object ← raw_object std raw
    marshal (with_default_action action object)

  unfoldable pub normalize_os_input : Raw → String → Except ActionError Raw
  normalize_os_input raw raw_kind =
      let k = std.to_lower (std.trim_space raw_kind) in
      if k == "file.read"
      then input_with_default_action raw "read"
      else if k == "file.write"
      then input_with_default_action raw "write"
      else ok raw

  unfoldable pub graph_from_action_input : Raw → Except ActionError TaskGraph
  graph_from_action_input [] = err input_required
  graph_from_action_input (b ∷ bs) = elim (std.decode_graph (b ∷ bs)) [
    | none ↦ err graph_not_parsed
    | some env ↦ chosen_graph env
  ]
