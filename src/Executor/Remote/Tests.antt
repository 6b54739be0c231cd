-- ===== src/Executor/Remote/Tests.antt =====
-- The runtime executor against a small service.
use execgo.Base.{◌≡◌, refl, ◌↔◌, has, Option, none, some, List, [], ◌∷◌, pos}
use execgo.Base.Dict.{Dict, insert}
use execgo.Models.Runtime.{Raw, RuntimeStatus}
use execgo.Models.Task.{Task, TaskStatus}
use execgo.Adapter.Json.{Json, null, str, obj, Fields, no_fields, field, fields, to_fields}
use execgo.Executor.Remote.{
  RuntimeExecutor, ApiError, Outside, answered, new_runtime_executor, remember_runtime_mapping,
  lookup_task_id,
}
use execgo.Executor.Remote.Codes.{
  map_runtime_error_code, is_retryable_runtime_code, convert_runtime_api_error,
}
use execgo.Executor.Remote.Payload.{
  payload_ready, fill_key, fill_text, with_identity, has_identity, with_context, fill_task_id,
  encode_map, encode_nil, submit_payload,
}
use execgo.Executor.Remote.Calls.{
  panicked, executed, is_success, submitted, execute_prepared, execute, result_of, get_handle,
  get_handle_by_ref, polled, two_tries, task_result,
}
use execgo.Executor.Remote.Panics.{HasStamp, IsNullInput, execute_panics_iff}
use execgo.Executor.Remote.Kept.{IsCompleted, submit_payload-IsCompleted}
use execgo.Executor.Remote.Mapping.{
  HasLinks, Operation, execute_task, poll, apply, apply_all, apply_all-HasLinks,
}
use execgo.Executor.Remote.Retryable.{MayPass, convert_runtime_api_error-MayPass}

program : Unit {0}
unfolding insert has new_runtime_executor remember_runtime_mapping lookup_task_id
    map_runtime_error_code is_retryable_runtime_code convert_runtime_api_error fill_key fill_text
    with_identity has_identity with_context fill_task_id encode_map encode_nil submit_payload
    is_success submitted execute_prepared execute get_handle get_handle_by_ref polled two_tries
    task_result apply apply_all
program = tt

-- {"control_context": {"tenant": "own"}}
abbrev owned : Fields
owned = field "control_context" (obj (field "tenant" (str "own") no_fields)) no_fields

-- One byte is `null`, and more are the object.
abbrev read : Raw → Option Json
read [] = none
read (b ∷ []) = some null
read (b ∷ _) = some (obj owned)

-- The service accepts each task as "r1", with the handle "h1".
abbrev service : Outside
service = record {
  call = λ r. answered 202 (5 ∷ []);
  trim_space = λ s. s;
  trim_slashes = λ s. s;
  number_text = λ n. "202";
  decode = read;
  encode = λ v. 9 ∷ [];
  parse_message = λ raw. "bad input";
  decode_submit =
      λ raw. some (record { task_id = "r1"; handle_id = "h1"; status = RuntimeStatus.accepted });
  submit_message = λ raw. "message";
  decode_task = λ raw. none;
  decode_envelope = λ raw. none;
  decode_error = λ raw. none;
  decode_text = λ raw. none;
  decode_events = λ raw. none;
  decode_event_envelope = λ raw. none;
}

abbrev task : Raw → Task
task input = record {
  id = "t1";
  type = "runtime";
  params = [];
  tool_name = "";
  input = input;
  category = "runtime";
  depends_on = [];
  retry = pos 0;
  timeout = pos 0;
  annotations = [];
  status = TaskStatus.pending;
  run_status = RuntimeStatus.unset;
  handle_id = "";
  progress = [];
  result = [];
  runtime = none;
  events = [];
  error = "";
  created_at = 0;
  updated_at = 0;
}

unfoldable fresh : RuntimeExecutor
fresh = new_runtime_executor service "" "acme" ""

null_panics : execute service fresh (task (1 ∷ [])) ≡ panicked
unfolding program fresh
null_panics = refl

object_accepted :
    execute service fresh (task (1 ∷ 1 ∷ []))
    ≡ executed
        (some (result_of "r1" "h1" RuntimeStatus.accepted (5 ∷ [])))
        none
        (record fresh { handle_to_task = ("h1", "r1") ∷ [] })
unfolding program fresh
object_accepted = refl

execute_panics_iff_example :
    (execute service fresh (task (1 ∷ [])) ≡ panicked)
    ↔ (IsNullInput service (1 ∷ []) × HasStamp service fresh (task (1 ∷ [])))
execute_panics_iff_example = execute_panics_iff service fresh (task (1 ∷ []))

submit_payload-IsCompleted_example :
    (m : Dict Json) × (submit_payload service fresh (task (1 ∷ 1 ∷ []))
      ≡ payload_ready (service.encode (obj (to_fields m))))
    × IsCompleted fresh (fields owned) m
submit_payload-IsCompleted_example =
    submit_payload-IsCompleted service fresh (task (1 ∷ 1 ∷ [])) owned (λ e. cc) refl

abbrev calls : List (Outside × Operation)
calls = (service, execute_task (task (1 ∷ 1 ∷ []))) ∷ (service, poll "h1") ∷ []

apply_all-HasLinks_example : HasLinks (apply_all calls (new_runtime_executor service "" "acme" ""))
apply_all-HasLinks_example = apply_all-HasLinks service "" "acme" "" calls

abbrev timed_out : ApiError
timed_out = record { code = "timeout"; message = "deadline"; details = null }

convert_runtime_api_error-MayPass_example :
    MayPass (convert_runtime_api_error service timed_out).code
unfolding program
convert_runtime_api_error-MayPass_example = convert_runtime_api_error-MayPass service timed_out refl
