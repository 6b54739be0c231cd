-- ===== src/Scheduler/Attempt.antt =====
-- pkg/scheduler/scheduler.go: one attempt of executeTask, with awaitRuntimeResult.
use execgo.Base.{
  ℕ, String, false, Option, none, some, List, [], ◌∷◌, ◌==◌, if◌then◌else◌, pos, is_zero,
}
use Prim.Native.String.{◌++◌ as text_append}
use mathlib.Core.Option
use execgo.Models.Runtime.{Raw, Time, RuntimeStatus, is_terminal}
use execgo.Models.Task.{TaskStatus}
use execgo.Store.{Ptr, modify}
use execgo.Executor.{ProgressEvent, ExecResult, GoError, Executor}
use execgo.Scheduler.State.{
  State, InFlightTask, set_in_flight, clear_in_flight, update_in_flight_handle,
  in_flight_cancel_result,
}
use execgo.Scheduler.Runtime.{build_runtime_result, runtime_result_error}
use execgo.Scheduler.Complete.{with_runtime, with_progress}

-- What may happen while executeTask waits: other goroutines change the state, and then the context
-- ends, or the ticker fires and the executor is asked for the handle.
pub data WakeEvent : Type 0 where
  context_done : GoError → WakeEvent
  tick : Option ExecResult → WakeEvent

pub record Wakeup : Type 0 where
  pub others : State → State
  pub event : WakeEvent

-- The outside of one attempt: the reply of Execute, what other goroutines did meanwhile, and the
-- wakeups of the wait that may follow.
pub record Attempt : Type 0 where
  pub reply : Option ExecResult × Option GoError
  pub others : State → State
  pub wakeups : List Wakeup

abbrev pub plain_error : String → GoError
plain_error message = record { message = message; is_canceled = false; is_deadline = false }

-- `if res.Attempt == 0 { res.Attempt = attempt }`
abbrev pub with_attempt : ℕ → ExecResult → ExecResult
with_attempt attempt r = record r { attempt = if is_zero r.attempt then pos attempt else r.attempt }

-- The format verb %q, of a text without characters to escape.
abbrev pub quoted : String → String
quoted s = text_append "\"" (text_append s "\"")

abbrev status_text : RuntimeStatus → String
status_text RuntimeStatus.accepted = "accepted"
status_text RuntimeStatus.running = "running"
status_text RuntimeStatus.cancelling = "cancelling"
status_text RuntimeStatus.success = "success"
status_text RuntimeStatus.failed = "failed"
status_text RuntimeStatus.cancelled = "cancelled"
status_text RuntimeStatus.unset = ""
status_text (RuntimeStatus.other s) = s

abbrev no_polling : String → RuntimeStatus → String
no_polling name status = text_append "executor " (
    text_append (quoted name) (
      text_append " returned non-terminal status "
        (text_append (quoted (status_text status)) " without handle polling support")))

-- `exec.(executor.HandleReader)` fails, or the first result has no handle.
unfoldable pub wait_refused : Executor → ExecResult → Option GoError
wait_refused exec r =
    if r.handle_id == ""
    then some (plain_error "non-terminal runtime result missing handle_id")
    else elim exec.get_handle [
      | none ↦ some (plain_error (no_polling exec.name r.status))
      | some _ ↦ none
    ]

module _ (marshal : List ProgressEvent → Raw) (p : Ptr) (started : Time) where
  unfoldable pub apply_in_flight_runtime : ExecResult → ℕ → State → State
  apply_in_flight_runtime r attempt s =
      let runtime = build_runtime_result TaskStatus.running (some r) none started 0 (pos attempt) in
      let h = modify p (λ t. with_progress marshal (some r) (with_runtime runtime t)) s.heap in
      update_in_flight_handle (h p).id (h p).handle_id (record s { heap = h })

  -- The loop of awaitRuntimeResult, which polls `handle`; `none` means that the events ran out while it waits.
  unfoldable pub await_loop :
      String
      → ℕ
      → List Wakeup
      → ExecResult
      → State
      → Option (State × Option ExecResult × Option GoError)
  await_loop handle attempt [] current s =
      let s' = apply_in_flight_runtime current attempt s in
      if is_terminal current.status
      then some (s', some current, runtime_result_error current)
      else none
  await_loop handle attempt (w ∷ ws) current s =
      let s' = apply_in_flight_runtime current attempt s in
      let next : Option (State × Option ExecResult × Option GoError) = elim w.event [
        | context_done e ↦ some (w.others s', some current, some e)
        | tick none ↦ some (
          w.others s',
          some current,
          some (plain_error (text_append "handle not found: " handle)),
        )
        | tick (some r) ↦ await_loop handle attempt ws (with_attempt attempt r) (w.others s')
      ] in
      if is_terminal current.status
      then some (s', some current, runtime_result_error current)
      else next

  unfoldable pub await_runtime_result :
      Executor
      → ℕ
      → List Wakeup
      → ExecResult
      → State
      → Option (State × Option ExecResult × Option GoError)
  await_runtime_result exec attempt wakeups initial s = elim (wait_refused exec initial) [
    | some e ↦ some (s, some initial, some e)
    | none ↦ await_loop initial.handle_id attempt wakeups initial s
  ]

  -- `if lastErr == nil && execResult != nil && !execResult.Status.IsTerminal()`
  unfoldable pub settle :
      Executor
      → ℕ
      → List Wakeup
      → Option ExecResult
      → Option GoError
      → State
      → Option (State × Option ExecResult × Option GoError)
  settle exec attempt wakeups none e s = some (s, none, e)
  settle exec attempt wakeups (some r) (some e) s =
      some (apply_in_flight_runtime r attempt s, some r, some e)
  settle exec attempt wakeups (some r) none s =
      let s' = apply_in_flight_runtime r attempt s in
      if is_terminal r.status
      then some (s', some r, none)
      else await_runtime_result exec attempt wakeups r s'

  -- A cancelled attempt takes the result that Cancel left in the in-flight entry, if there is one.
  unfoldable pub take_cancel_result :
      ℕ → Option ExecResult → Option GoError → State → Option ExecResult × Option GoError
  take_cancel_result attempt r none s = (r, none)
  take_cancel_result attempt r (some e) s = elim (in_flight_cancel_result (s.heap p).id s) [
    | none ↦ (r, some e)
    | some res ↦
        if e.is_canceled
        then (some (with_attempt attempt res), runtime_result_error (with_attempt attempt res))
        else (r, some e)
  ]

  -- The body of the loop of executeTask, from the entry in `inFlight` to its removal.
  unfoldable pub run_attempt :
      Executor → ℕ → Attempt → State → Option (State × Option ExecResult × Option GoError)
  run_attempt exec attempt a s =
      let entry : InFlightTask = record {
        cancelled = false;
        exec = exec;
        handle = "";
        started = started;
        cancel_result = none;
      } in
      let s' = a.others (set_in_flight (s.heap p).id entry s) in
      elim (settle exec attempt a.wakeups (Option.map (with_attempt attempt) a.reply.0) a.reply.1
        s') [
          | none ↦ none
          | some (t, r, e) ↦
              let (r', e') = take_cancel_result attempt r e t in
              some (clear_in_flight (t.heap p).id t, r', e')
        ]
