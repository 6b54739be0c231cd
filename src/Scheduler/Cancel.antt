-- ===== src/Scheduler/Cancel.antt =====
-- pkg/scheduler/scheduler.go: Cancel.
pub mod Handover
use execgo.Base.{
  ℕ, zero, suc, ◌+◌, ◌-◌, ◌*◌, ◌/◌, ◌%◌, ◌^◌, ◌≤◌, ◌<◌, String, ◌≡◌, refl, sym, ap, ◌∙◌, subst, ◌≢◌,
  ◌↔◌, ◌⊎◌, inl, inr, Bool, true, false, not, ◌&&◌, ◌||◌, Option, none, some, List, [], ◌∷◌, ◌++◌,
  map, arith, eq_iff, eq_refl, ltb, leb, eq_ℕ, ◌==◌, if◌then◌else◌, Bool-cases, Option-cases,
  text_cases, String-discrete, length, length-append, List-cases, has, has_iff, In-cases, count,
  count-pos_of_In, In_of_count-pos, count-append, count-eq_zero, count-le_one, IsDistinct-of_count,
  length-le_of_subset, subset_of_length-le, In, In-append, In-append_left, In-append_right,
  In-map_of_In, All, IsDistinct, ℤ, pos, negsuc, pred_ℤ, suc_ℤ, is_zero, is_nonpos, Except, ok, err,
  ◌>>=◌, ◌>>◌, refuse_if,
}
use Prim.Native.String.{◌++◌ as text_append}
use execgo.Models.Runtime.{
  Raw, Time, RuntimeStatus, ErrorCode, RuntimeError, RuntimeResult, RuntimeEvent, RuntimeEventType,
}
use execgo.Models.Task
use execgo.Models.Task.{Task, TaskStatus}
use execgo.Store.{Ptr, Heap, modify, update_status}
use execgo.Executor.{ProgressEvent, ExecResult, GoError, Executor}
use execgo.Scheduler.State.{
  State, InFlightTask, in_flight_entry, set_in_flight, set_in_flight_cancel_result,
}
use execgo.Scheduler.Runtime.{append_task_event, build_runtime_result, result_output}
use mathlib.Core.Option
use execgo.Base.Dict.{lookup}
use execgo.Scheduler.Complete.{with_runtime, complete_task}

-- What Cancel returns: the result, whether the task was found, and the text of the error.
abbrev pub Reply : Type 0
Reply = Option ExecResult × Bool × Option String

-- `context.Canceled`
abbrev pub canceled_error : GoError
canceled_error = record { message = "context canceled"; is_canceled = true; is_deadline = false }

abbrev pub cancelled_result : String → String → String → ExecResult
cancelled_result message id handle = record {
  task_id = id;
  status = RuntimeStatus.cancelled;
  handle_id = handle;
  output = [];
  details = [];
  progress = [];
  started_at = none;
  finished_at = none;
  duration_ms = pos 0;
  attempt = pos 0;
  error = some (record {
    code = ErrorCode.cancelled;
    message = message;
    retryable = false;
    source = "scheduler";
    details = [];
  });
}

-- The handle: of the entry, else of the task, else of its runtime.
unfoldable pub cancel_handle_of : InFlightTask → Task → String
cancel_handle_of entry t =
    if entry.handle == ""
    then if t.handle_id == ""
      then elim t.runtime [ none ↦ "" | some r ↦ r.handle_id ]
      else t.handle_id
    else entry.handle

-- `entry.exec.(executor.HandleCanceler)` and its answer.
unfoldable pub canceler_result : Executor → String → Option ExecResult
canceler_result exec handle = elim exec.cancel_handle [
  | none ↦ none
  | some cancel ↦ if handle == "" then none else cancel handle
]

-- The result of a cancellation in flight, with the attempt of the task where it has none.
unfoldable pub cancel_result_of : InFlightTask → Task → ExecResult
cancel_result_of entry t =
    let handle = cancel_handle_of entry t in
    let r : ExecResult = elim (canceler_result entry.exec handle) [
      | none ↦ cancelled_result "task cancelled" t.id handle
      | some r ↦ r
    ] in
    elim t.runtime [
      | none ↦ r
      | some rt ↦ record r { attempt = if is_zero r.attempt then rt.attempt else r.attempt }
    ]

-- `entry.cancel()`
unfoldable pub cancel_context : String → State → State
cancel_context id s = elim (in_flight_entry id s) [
  | none ↦ s
  | some entry ↦ set_in_flight id (record entry { cancelled = true }) s
]

abbrev cancel_message : Option RuntimeResult → String
cancel_message none = "task cancellation requested"
cancel_message (some r) = elim r.error [
  | none ↦ "task cancellation requested"
  | some e ↦ if e.message == "" then "task cancellation requested" else e.message
]

abbrev with_cancelling : Option RuntimeResult → Option RuntimeResult
with_cancelling none = none
with_cancelling (some r) = some (record r { status = RuntimeStatus.cancelling })

-- What Cancel writes to a task in flight before the call of UpdateStatus.
unfoldable pub mark_cancelling : InFlightTask → ExecResult → Time → Task → Task
mark_cancelling entry r now t =
    let handle = cancel_handle_of entry t in
    let t' =
      append_task_event
        (record {
          type = RuntimeEventType.cancel_requested;
          task_id = t.id;
          handle_id = handle;
          timestamp = now;
          message = "task cancellation requested";
          details = ("source", "scheduler") ∷ ("runtime_kind", entry.exec.name) ∷ [];
        })
        t in
    record t' {
      handle_id = handle;
      runtime =
          with_cancelling
            (build_runtime_result TaskStatus.cancelling (some r) none entry.started 0 r.attempt);
      run_status = RuntimeStatus.cancelling;
    }

unfoldable pub cancel_in_flight : Time → Ptr → InFlightTask → String → State → State × ExecResult
cancel_in_flight now p entry task_id s =
    let r = cancel_result_of entry (s.heap p) in
    let s' = cancel_context task_id (set_in_flight_cancel_result task_id r s) in
    let h = modify p (mark_cancelling entry r now) s'.heap in
    let message = cancel_message (h p).runtime in
    (
      record s' {
        heap =
            (update_status (h p).id TaskStatus.cancelling (result_output (some r)) message now
              s'.tasks h).0;
      },
      r,
    )

module _ (marshal : List ProgressEvent → Raw) (fuel : ℕ) (now : Time) where
  -- A task that was not started.
  unfoldable pub cancel_waiting : Ptr → State → Option (State × ExecResult)
  cancel_waiting p s =
      let t = s.heap p in
      let r = cancelled_result "task cancelled before execution" t.id t.handle_id in
      let event : RuntimeEvent = record {
        type = RuntimeEventType.cancelled;
        task_id = t.id;
        handle_id = t.handle_id;
        timestamp = now;
        message = "task cancelled before execution";
        details = [];
      } in
      Option.map (λ s'. (s', r))
        (complete_task marshal fuel now p TaskStatus.cancelled [] (some canceled_error) (some r) 0
          now (pos 0) (record s { heap = modify p (append_task_event event) s.heap }))

  -- `none` means that the fuel of cascadeSkip ran out.
  unfoldable pub cancel : String → State → Option (State × Reply)
  cancel task_id s = elim (lookup task_id s.tasks) [
    | none ↦ some (s, (none, false, some (text_append "task not found: " task_id)))
    | some p ↦ elim (Task.is_terminal (s.heap p).status) [
      | true ↦ some (s, (none, true, none))
      | false ↦ elim (in_flight_entry task_id s) [
        | none ↦ Option.map (λ (t, r). (t, (some r, true, none))) (cancel_waiting p s)
        | some entry ↦
            let (t, r) = cancel_in_flight now p entry task_id s in some (t, (some r, true, none))
      ]
    ]
  ]
