-- ===== src/Scheduler/Runtime.antt =====
-- pkg/scheduler/scheduler.go: the runtime envelope of a task, built from an executor's answer.
use execgo.Base.{
  ◌-◌, ◌/◌, String, true, false, Option, none, some, [], ◌∷◌, ◌++◌, leb, eq_ℕ, ◌==◌, if◌then◌else◌,
  ℤ, pos, negsuc, is_zero,
}
use execgo.Models.Runtime.{
  Raw, Time, RuntimeStatus, is_terminal, ErrorCode, RuntimeError, RuntimeResult, RuntimeEvent,
  RuntimeEventType,
}
use execgo.Models.Task
use execgo.Models.Task.{Task, TaskStatus}
use execgo.Executor.{ExecResult, GoError}

unfoldable pub runtime_status_from_task : TaskStatus → Option GoError → RuntimeStatus
runtime_status_from_task TaskStatus.success e = RuntimeStatus.success
runtime_status_from_task TaskStatus.running e = RuntimeStatus.running
runtime_status_from_task TaskStatus.cancelling e = RuntimeStatus.cancelling
runtime_status_from_task TaskStatus.cancelled e = RuntimeStatus.cancelled
runtime_status_from_task TaskStatus.failed none = RuntimeStatus.failed
runtime_status_from_task TaskStatus.failed (some e) =
    if e.is_canceled then RuntimeStatus.cancelled else RuntimeStatus.failed
runtime_status_from_task _ e = RuntimeStatus.failed

unfoldable pub normalize_runtime_error : Option GoError → Option RuntimeError
normalize_runtime_error none = none
normalize_runtime_error (some e) =
    if e.is_deadline
    then some (record {
      code = ErrorCode.timeout;
      message = e.message;
      retryable = true;
      source = "scheduler";
      details = [];
    })
    else if e.is_canceled
    then some (record {
      code = ErrorCode.cancelled;
      message = e.message;
      retryable = false;
      source = "scheduler";
      details = [];
    })
    else some (record {
      code = ErrorCode.external_failure;
      message = e.message;
      retryable = false;
      source = "executor";
      details = [];
    })

-- A copy; an empty document becomes nil, which is the same here.
unfoldable pub clone_raw : Raw → Raw
clone_raw [] = []
clone_raw (b ∷ bs) = b ∷ bs

unfoldable pub result_output : Option ExecResult → Raw
result_output none = []
result_output (some r) = r.output

-- `a.Sub(b).Milliseconds()`, which rounds towards zero.
unfoldable pub elapsed_ms : Time → Time → ℤ
elapsed_ms a b =
    if leb b a
    then pos ((a - b) / 1000000)
    else if eq_ℕ ((b - a) / 1000000) 0
    then pos 0
    else negsuc ((b - a) / 1000000 - 1)

abbrev set_time : Time → Option Time
set_time t = if eq_ℕ t 0 then none else some t

-- `if runtime.StartedAt == nil && !startedAt.IsZero() { … }`
unfoldable pub or_time : Option Time → Time → Option Time
or_time (some t) _ = some t
or_time none t = set_time t

-- `if execResult.Status != "" { runtime.Status = execResult.Status }`
unfoldable pub or_status : RuntimeStatus → RuntimeStatus → RuntimeStatus
or_status RuntimeStatus.unset d = d
or_status s d = s

unfoldable pub duration_or : ℤ → Option Time → Option Time → ℤ
duration_or given (some started) (some finished) =
    if is_zero given then elapsed_ms finished started else given
duration_or given _ _ = given

unfoldable pub or_error : Option RuntimeError → Option GoError → Option RuntimeError
or_error (some e) _ = some e
or_error none e = normalize_runtime_error e

-- The envelope before its gaps are filled.
unfoldable pub copy_result : RuntimeStatus → Option ExecResult → RuntimeResult
copy_result status none = record {
  status = status;
  handle_id = "";
  output = [];
  started_at = none;
  finished_at = none;
  duration_ms = pos 0;
  attempt = pos 0;
  details = [];
  error = none;
}
copy_result status (some r) = record {
  status = or_status r.status status;
  handle_id = r.handle_id;
  output = clone_raw r.output;
  started_at = r.started_at;
  finished_at = r.finished_at;
  duration_ms = r.duration_ms;
  attempt = r.attempt;
  details = clone_raw r.details;
  error = r.error;
}

-- What follows `if execResult != nil` in buildRuntimeResult.
unfoldable pub fill : Option GoError → Time → Time → ℤ → RuntimeResult → RuntimeResult
fill run_err started finished attempt r =
    let started_at = or_time r.started_at started in
    let finished_at =
      if is_terminal r.status then or_time r.finished_at finished else r.finished_at in
    record r {
      attempt = if is_zero r.attempt then attempt else r.attempt;
      started_at = started_at;
      finished_at = finished_at;
      duration_ms = duration_or r.duration_ms started_at finished_at;
      error = or_error r.error run_err;
    }

unfoldable pub build_runtime_result :
    TaskStatus → Option ExecResult → Option GoError → Time → Time → ℤ → Option RuntimeResult
build_runtime_result status none none started finished attempt = none
build_runtime_result status none (some e) started finished attempt = some (
    fill (some e) started finished attempt
      (copy_result (runtime_status_from_task status (some e)) none))
build_runtime_result status (some r) e started finished attempt =
    some
      (fill e started finished attempt (copy_result (runtime_status_from_task status e) (some r)))

-- runtimeResultError: a terminal result that is no success is an error.
abbrev message_or : Option RuntimeError → String → String
message_or none d = d
message_or (some e) d = if e.message == "" then d else e.message

unfoldable pub runtime_result_error : ExecResult → Option GoError
runtime_result_error r = elim r.status [
  | RuntimeStatus.cancelled ↦ some (record {
    message = message_or r.error "task cancelled";
    is_canceled = true;
    is_deadline = false;
  })
  | RuntimeStatus.failed ↦ some (record {
    message = message_or r.error "task failed";
    is_canceled = false;
    is_deadline = false;
  })
  | _ ↦ none
]

unfoldable pub append_task_event : RuntimeEvent → Task → Task
append_task_event e t = elim e.type [
  | RuntimeEventType.unset ↦ t
  | _ ↦ record t { events = t.events ++ e ∷ [] }
]

abbrev event_type : TaskStatus → RuntimeEventType
event_type TaskStatus.success = RuntimeEventType.succeeded
event_type TaskStatus.cancelled = RuntimeEventType.cancelled
event_type _ = RuntimeEventType.failed

abbrev event_message : TaskStatus → String
event_message TaskStatus.success = "task succeeded"
event_message TaskStatus.cancelled = "task cancelled"
event_message TaskStatus.skipped = "task skipped"
event_message _ = "task failed"

abbrev event_handle : String → Option RuntimeResult → String
event_handle handle none = handle
event_handle handle (some r) = if r.handle_id == "" then handle else r.handle_id

-- terminalTaskEvent; `now` is the clock, read where `finished` is the zero time.
unfoldable pub terminal_task_event :
    Task → TaskStatus → Option RuntimeResult → Time → Time → RuntimeEvent
terminal_task_event t status runtime finished now =
    if Task.is_terminal status
    then record {
      type = event_type status;
      task_id = t.id;
      handle_id = event_handle t.handle_id runtime;
      timestamp = if eq_ℕ finished 0 then now else finished;
      message = event_message status;
      details = [];
    }
    else record {
      type = RuntimeEventType.unset;
      task_id = "";
      handle_id = "";
      timestamp = 0;
      message = "";
      details = [];
    }
