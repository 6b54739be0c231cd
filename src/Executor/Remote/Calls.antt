-- ===== src/Executor/Remote/Calls.antt =====
-- pkg/executor/runtime.go: Execute, GetHandle, CancelHandle and GetEvents.
use Prim.Native.String.{◌++◌ as text_append}
use execgo.Base.{
  ℕ, String, Bool, true, false, ◌&&◌, not, Option, none, some, [], ◌∷◌, if◌then◌else◌, ◌==◌, ltb,
  leb, eq_ℕ, pos,
}
use execgo.Models.Runtime.{Raw, RuntimeStatus, RuntimeError, ErrorCode}
use execgo.Models.Task.{Task}
use execgo.Executor.{ExecResult}
use execgo.Executor.Remote.{
  RuntimeExecutor, SubmitResponse, ApiError, TaskResponse, http_get, http_post, Reply,
  not_a_request, call_failed, unreadable, answered, Outside, remember_runtime_mapping,
  lookup_task_id,
}
use execgo.Executor.Remote.Codes.{convert_runtime_api_error, decode_runtime_api_error}
use execgo.Executor.Remote.Payload.{
  Prepared, payload_ready, payload_error, payload_panic, submit_payload,
}

-- A result with four fields set.
abbrev pub result_of : String → String → RuntimeStatus → Raw → ExecResult
result_of task_id handle_id status output = record {
  task_id = task_id;
  status = status;
  handle_id = handle_id;
  output = output;
  details = [];
  progress = [];
  started_at = none;
  finished_at = none;
  duration_ms = pos 0;
  attempt = pos 0;
  error = none;
}

abbrev pub failure : String → String → RuntimeError → Raw → ExecResult
failure task_id handle_id e output =
    record (result_of task_id handle_id RuntimeStatus.failed output) { error = some e }

abbrev pub own_error : ErrorCode → String → Bool → String → RuntimeError
own_error code message retryable source = record {
  code = code;
  message = message;
  retryable = retryable;
  source = source;
  details = [];
}

unfoldable pub is_success : ℕ → Bool
is_success status = leb 200 status && ltb status 300

abbrev pub error_or : Option RuntimeError → RuntimeError → RuntimeError
error_or none d = d
error_or (some e) d = e

abbrev pub is_unset : RuntimeStatus → Bool
is_unset RuntimeStatus.unset = true
is_unset _ = false

-- What Execute does: it panics, or it returns a result, an error and the new state.
pub data Execution : Type 0 where
  panicked : Execution
  executed : Option ExecResult → Option String → RuntimeExecutor → Execution

-- What a call on a handle gives, and the new state.
abbrev pub Found : Type 0
Found = Option ExecResult × RuntimeExecutor

module _ (out : Outside) where
  -- "runtime submit returned status 500", and the like.
  abbrev pub status_error : String → ℕ → RuntimeError
  status_error text status =
      own_error ErrorCode.external_failure (text_append text (out.number_text status))
        (leb 500 status) "execgo-runtime"

  abbrev pub accept : RuntimeExecutor → Raw → Option SubmitResponse → Execution
  accept e body none =
      executed none
        (some (text_append "decode runtime submit response: " (out.submit_message body))) e
  accept e body (some a) =
      let handle_id = out.trim_space a.handle_id in
      let task_id = out.trim_space a.task_id in
      executed
        (some (result_of task_id (if handle_id == "" then task_id else handle_id) a.status body))
        none (remember_runtime_mapping out a.handle_id a.task_id e)

  unfoldable pub submitted : RuntimeExecutor → Task → Reply → Execution
  submitted e t (not_a_request m) =
      executed none (some (text_append "create runtime submit request: " m)) e
  submitted e t (call_failed m) =
      executed
        (some (failure t.id "" (own_error ErrorCode.external_failure m true "runtime-executor") []))
        (some (text_append "runtime submit request failed: " m)) e
  submitted e t (unreadable status m) =
      executed none (some (text_append "read runtime submit response: " m)) e
  submitted e t (answered status body) =
      if not (is_success status)
      then (let rerr =
            error_or (decode_runtime_api_error out body)
              (status_error "runtime submit returned status " status) in
          executed (some (failure t.id "" rerr body)) (some rerr.message) e)
      else accept e body (out.decode_submit body)

  unfoldable pub execute_prepared : RuntimeExecutor → Task → Prepared → Execution
  execute_prepared e t payload_panic = panicked
  execute_prepared e t (payload_error m) =
      executed
        (some (failure t.id "" (own_error ErrorCode.invalid_input m false "runtime-executor") []))
        (some m) e
  execute_prepared e t (payload_ready body) = submitted e t (
      out.call (record {
        method = http_post;
        url = text_append e.base_url "/api/v1/tasks";
        body = body;
        owner = none;
      }))

  unfoldable pub execute : RuntimeExecutor → Task → Execution
  execute e t = execute_prepared e t (submit_payload out e t)

  abbrev pub converted : Option ApiError → Option RuntimeError
  converted none = none
  converted (some x) = some (convert_runtime_api_error out x)

  -- The result that a task of the service gives, with `ref` in place of an empty handle.
  unfoldable pub task_result : String → Raw → TaskResponse → ExecResult
  task_result ref body task =
      let handle_id = out.trim_space task.handle_id in
      record (result_of task.task_id (if handle_id == "" then ref else handle_id) task.status
        body) {
          started_at = task.started_at;
          finished_at = task.finished_at;
          duration_ms = task.duration_ms;
          error = converted task.error;
        }

  abbrev pub task_url : RuntimeExecutor → String → String → String
  task_url e ref tail = text_append e.base_url (text_append "/api/v1/tasks/" (text_append ref tail))

  abbrev pub polled_task : RuntimeExecutor → String → Raw → Option TaskResponse → Found
  polled_task e ref body none = (none, e)
  polled_task e ref body (some task) =
      (some (task_result ref body task), remember_runtime_mapping out task.handle_id task.task_id e)

  unfoldable pub polled : RuntimeExecutor → String → Reply → Found
  polled e ref (not_a_request m) = (none, e)
  polled e ref (call_failed m) = (none, e)
  polled e ref (unreadable status m) = (none, e)
  polled e ref (answered status body) =
      if eq_ℕ status 404
      then (none, e)
      else if not (is_success status)
      then (
        some (record (result_of ref ref RuntimeStatus.failed body) {
          error = decode_runtime_api_error out body;
        }),
        e,
      )
      else polled_task e ref body (out.decode_task body)

  unfoldable pub get_handle_by_ref : RuntimeExecutor → String → Found
  get_handle_by_ref e ref =
      polled e ref
        (out.call (record { method = http_get; url = task_url e ref ""; body = []; owner = none }))

  -- A body that is no task, or has no status, counts as a cancellation.
  abbrev pub killed_task : RuntimeExecutor → String → Raw → Option TaskResponse → Found
  killed_task e ref body none = (some (result_of ref ref RuntimeStatus.cancelled body), e)
  killed_task e ref body (some task) =
      if not (is_unset task.status)
      then (
        some (task_result ref body task),
        remember_runtime_mapping out task.handle_id task.task_id e,
      )
      else (some (result_of ref ref RuntimeStatus.cancelled body), e)

  abbrev pub killed_body : RuntimeExecutor → String → Raw → Found
  killed_body e ref [] = (some (result_of ref ref RuntimeStatus.cancelled []), e)
  killed_body e ref (b ∷ bs) = killed_task e ref (b ∷ bs) (out.decode_task (b ∷ bs))

  unfoldable pub killed : RuntimeExecutor → String → Reply → Found
  killed e ref (not_a_request m) = (none, e)
  killed e ref (call_failed m) = (
    some (failure ref ref (own_error ErrorCode.external_failure m true "runtime-executor") []),
    e,
  )
  killed e ref (unreadable status m) = (none, e)
  killed e ref (answered status body) =
      if eq_ℕ status 404
      then (none, e)
      else if not (is_success status)
      then (
        some (
            failure ref ref
              (error_or (decode_runtime_api_error out body)
                (status_error "runtime kill returned status " status))
              body),
        e,
      )
      else killed_body e ref body

  unfoldable pub cancel_by_ref : RuntimeExecutor → String → Found
  cancel_by_ref e ref = killed e ref (
      out.call (record {
        method = http_post;
        url = task_url e ref "/kill";
        body = [];
        owner = if not (e.owner == "") then some e.owner else none;
      }))

  -- The second try of GetHandle and CancelHandle, by the task id that stands for the handle.
  abbrev pub by_task_id :
      (RuntimeExecutor → String → Found) → RuntimeExecutor → String → Option String → Found
  by_task_id try e handle_id none = (none, e)
  by_task_id try e handle_id (some task_id) =
      if not (task_id == "") && not (task_id == handle_id) then try e task_id else (none, e)

  abbrev pub or_by_task_id : (RuntimeExecutor → String → Found) → String → Found → Found
  or_by_task_id try handle_id (some r, e) = (some r, e)
  or_by_task_id try handle_id (none, e) =
      by_task_id try e handle_id (lookup_task_id out e handle_id)

  unfoldable pub two_tries : (RuntimeExecutor → String → Found) → RuntimeExecutor → String → Found
  two_tries try e handle_id =
      if handle_id == "" then (none, e) else or_by_task_id try handle_id (try e handle_id)

  unfoldable pub get_handle : RuntimeExecutor → String → Found
  get_handle e handle_id = two_tries get_handle_by_ref e (out.trim_space handle_id)

  unfoldable pub cancel_handle : RuntimeExecutor → String → Found
  cancel_handle e handle_id = two_tries cancel_by_ref e (out.trim_space handle_id)
