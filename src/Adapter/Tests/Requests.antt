-- ===== src/Adapter/Tests/Requests.antt =====
-- The adapter on small requests.
use execgo.Base.{
  String, ◌≡◌, refl, ◌↔◌, ◌≢◌, inl, inr, Option, none, some, List, [], ◌∷◌, pos, In, ok, has,
}
use execgo.Adapter.Tests.{schema_checks}
use execgo.Base.Dict.{Dict, insert}
use execgo.Models.Runtime.{Raw}
use execgo.Store.{Heap}
use execgo.Executor.{ProgressEvent}
use execgo.Scheduler.State.{State, new}
use execgo.Scheduler.Submit.{submit}
use execgo.Scheduler.Dispatch.{Report, complete, start}
use execgo.Adapter.Translate.Scheduled.{translate_complete_returns}
use execgo.Models.Task.{TaskStatus, TaskGraph}
use execgo.Models.Graph.{
  count_visited, drain, release, roots, build, add_node, add_edges, add_edge, detect_cycle,
  collect_ids, check_all_deps, check_deps,
}
use execgo.Models.Graph as models
use execgo.Models.Graph.Order.{IsWalk}
use execgo.Models.Graph.Valid.{IsValidGraph}
use execgo.Models.Graph.Edges.{ids}
use execgo.Adapter.Json.{Json, str, obj, no_fields, field, to_fields}
use execgo.Adapter.Schema.{Schema}
use execgo.Adapter.Actions.{file_input_schema}
use execgo.Adapter.Manifest.{supported_kinds, tool_manifest, find_schema, input_schema_for_kind}
use execgo.Adapter.Request.{
  AgentActionRequest, AgentActionResponse, Std, raw_object, task_id, adapter_name, string_value,
  texts_of, string_map_value, all_texts, string_slice_value, merge_entry, merge_into, merge_all,
  merge_string_maps, stamp, provenance, task_ids,
}
use execgo.Adapter.Request.Provenance.{IsTrimming, IsStamped, provenance-IsStamped}
use execgo.Adapter.Kinds.{resolve, normalize_action_kind}
use execgo.Adapter.Kinds.Supported.{
  normalize_action_kind-supported_kinds, input_schema_for_kind-supported_kinds,
}
use execgo.Adapter.Payload.{
  trim_prefix, insert_some, execution_of, runtime_execution, chosen_execution, runtime_task_id,
  forward_keys, runtime_metadata, payload_of, marshal, runtime_payload, with_default_action,
  input_with_default_action, normalize_os_input, graph_from_action_input,
}
use execgo.Adapter.Payload.Runtime.{IsPayload, runtime_payload-IsPayload}
use execgo.Adapter.Payload.Files.{FilledInput, normalize_os_input-IsFilled}
use execgo.Adapter.Translate.{
  task_of, os_task, runtime_task, mcp_tool_name, mcp_task, cli_task, decode_input, checked_input,
  validate_action_request, translate_kind, response, translate,
}
use execgo.Adapter.Translate.Accepted.{
  translate-IsValidGraph, InputConforms, validate_action_request-Conforms,
}
use execgo.Adapter.Translate.Single.{IsSingle, translate-IsSingle}

-- Everything that the examples run.
program : Unit {0}
unfolding schema_checks tool_manifest find_schema input_schema_for_kind raw_object task_id
    adapter_name string_value texts_of string_map_value all_texts string_slice_value merge_entry
    merge_into merge_all merge_string_maps stamp provenance task_ids resolve normalize_action_kind
    trim_prefix insert_some execution_of runtime_execution chosen_execution runtime_task_id
    forward_keys runtime_metadata payload_of marshal runtime_payload with_default_action
    input_with_default_action normalize_os_input graph_from_action_input os_task runtime_task
    mcp_tool_name mcp_task cli_task decode_input checked_input validate_action_request
    translate_kind response translate models.validate collect_ids check_all_deps check_deps
    detect_cycle count_visited drain release roots build add_node add_edges add_edge insert
program = tt

-- {"program": "ls", "limits": {}} and {"path": "a.txt"}.
abbrev documents : Raw → Option Json
documents [] = none
documents (b ∷ []) =
    some (obj (field "program" (str "ls") (field "limits" (obj no_fields) no_fields)))
documents (b ∷ _) = some (obj (field "path" (str "a.txt") no_fields))

abbrev test_std : Std
test_std = record {
  trim_space = λ s. s;
  to_lower = λ s. s;
  decode = documents;
  decode_graph = λ raw. none;
  encode = λ v. some (7 ∷ []);
  clock_id = "adapter-1";
}

test_std-IsTrimming : IsTrimming test_std
test_std-IsTrimming = record { fixed = λ s m. refl }

abbrev bytes : Raw
bytes = 7 ∷ []

abbrev path_input : Raw
path_input = 2 ∷ 2 ∷ []

abbrev file_read : String
file_read = "file.read"

abbrev run_ls : AgentActionRequest
run_ls = record {
  adapter = "codex";
  agent_id = "agent";
  session_id = "";
  action_id = "a1";
  action = record {
    kind = "command";
    tool_name = "";
    input = 1 ∷ [];
    depends_on = [];
    retry = pos 2;
    timeout = pos 1000;
  };
  metadata = ("action_kind", "os.noop") ∷ ("team", "x") ∷ [];
}

abbrev ls_graph : TaskGraph
ls_graph = record {
  tasks = task_of test_std run_ls "runtime.command" "a1" "runtime" "" (7 ∷ []) "runtime" ∷ [];
}

abbrev answer : AgentActionResponse
answer = response test_std run_ls "command" "runtime.command" ls_graph

abbrev in_order : List String → List String
in_order vs = vs

in_order-IsWalk : IsWalk in_order
in_order-IsWalk = record { members = λ vs v. (λ m. m, λ m. m); distinct = λ vs d. d }

translate-run_ls : translate test_std in_order run_ls ≡ ok answer
unfolding program
translate-run_ls = refl

translate-IsValidGraph_example :
    IsValidGraph ls_graph.tasks
    × (answer.task_ids ≡ ids ls_graph.tasks)
    × In "runtime.command" supported_kinds
unfolding response
translate-IsValidGraph_example =
    translate-IsValidGraph test_std in_order in_order-IsWalk run_ls answer translate-run_ls

translate-IsSingle_example :
    (run_ls.action.depends_on ≡ []) × IsSingle test_std run_ls "runtime.command" ls_graph
unfolding response
translate-IsSingle_example =
    translate-IsSingle test_std in_order in_order-IsWalk run_ls answer translate-run_ls (λ e. cc)

-- {"path": "a.txt"}, and with "action": "read" for what is encoded.
abbrev file_documents : Raw → Option Json
file_documents [] = none
file_documents (b ∷ []) =
    some (obj (field "path" (str "a.txt") (field "action" (str "read") no_fields)))
file_documents (b ∷ _) = some (obj (field "path" (str "a.txt") no_fields))

abbrev file_std : Std
file_std = record test_std { decode = file_documents }

abbrev read_file : AgentActionRequest
read_file = record run_ls { action = record run_ls.action { kind = file_read; input = path_input } }

validate_action_request-Conforms_example :
    (validate_action_request file_std read_file ≡ ok tt)
    ↔ InputConforms file_std read_file "os.file"
unfolding program
validate_action_request-Conforms_example =
    validate_action_request-Conforms file_std read_file "os.file" refl

-- The schema of os.file wants an action.
read_file_accepted : validate_action_request file_std read_file ≡ ok tt
unfolding program file_input_schema
read_file_accepted = refl

run_ls_accepted : validate_action_request test_std run_ls ≡ ok tt
unfolding program
run_ls_accepted = refl

provenance-IsStamped_example :
    IsStamped test_std run_ls "runtime.command" (provenance test_std run_ls "runtime.command")
unfolding has
provenance-IsStamped_example =
    provenance-IsStamped test_std test_std-IsTrimming run_ls "runtime.command"
      (inr (inr (inr (inr (inr (inr (inr (inl refl))))))))

runtime_payload-IsPayload_example :
    (p : Dict Json) × (test_std.encode (obj (to_fields p)) ≡ some bytes)
    × IsPayload test_std run_ls "runtime.command" "a1" p
unfolding program
runtime_payload-IsPayload_example =
    runtime_payload-IsPayload test_std run_ls "runtime.command" (7 ∷ []) "a1" refl

normalize_os_input-IsFilled_example :
    ((file_read ≡ "file.read") → FilledInput test_std "read" path_input bytes)
    × ((file_read ≡ "file.write") → FilledInput test_std "write" path_input bytes)
    × ((file_read ≢ "file.read") → (file_read ≢ "file.write") → bytes ≡ path_input)
unfolding program
normalize_os_input-IsFilled_example =
    normalize_os_input-IsFilled test_std path_input bytes file_read refl

normalize_action_kind-supported_kinds_example : In "os.shell" supported_kinds
unfolding program
normalize_action_kind-supported_kinds_example =
    normalize_action_kind-supported_kinds test_std "bash" "os.shell" refl

input_schema_for_kind-supported_kinds_example :
    ((s : Schema) × (input_schema_for_kind "cli.run" ≡ some s)) ↔ In "cli.run" supported_kinds
input_schema_for_kind-supported_kinds_example = input_schema_for_kind-supported_kinds "cli.run"

abbrev ls_heap : Heap
ls_heap p = task_of test_std run_ls "runtime.command" "a1" "runtime" "" bytes "runtime"

abbrev no_json : List ProgressEvent → Raw
no_json es = []

abbrev done : Report
done = record {
  result = [];
  run_err = none;
  exec_result = none;
  started = 6;
  finished = 7;
  attempt = pos 1;
  now = 7;
}

translate_complete_returns_example :
    (t : State) × (complete no_json 1 0 TaskStatus.success done (submit 5 (0 ∷ []) (new ls_heap []))
      ≡ some t)
unfolding response
translate_complete_returns_example =
    translate_complete_returns test_std in_order in_order-IsWalk run_ls answer translate-run_ls
      no_json ls_heap (0 ∷ []) 5 refl 0 TaskStatus.success done start
