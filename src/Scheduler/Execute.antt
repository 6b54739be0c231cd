-- ===== src/Scheduler/Execute.antt =====
-- pkg/scheduler/scheduler.go: executeTask, its retries, and the wait for an asynchronous result.
pub mod Retry
pub mod Returns
pub mod Final
pub mod Stored
pub mod Wait
pub mod Backoff
use execgo.Base.{
  ℕ, zero, suc, ◌+◌, ◌-◌, ◌*◌, ◌/◌, ◌%◌, ◌^◌, ◌≤◌, ◌<◌, String, ◌≡◌, refl, sym, ap, ◌∙◌, subst, ◌≢◌,
  ◌↔◌, ◌⊎◌, inl, inr, Bool, true, false, not, ◌&&◌, ◌||◌, Option, none, some, List, [], ◌∷◌, ◌++◌,
  map, arith, eq_iff, eq_refl, ltb, leb, eq_ℕ, ◌==◌, if◌then◌else◌, Bool-cases, Option-cases,
  text_cases, String-discrete, length, length-append, List-cases, has, has_iff, In-cases, count,
  count-pos_of_In, In_of_count-pos, count-append, count-eq_zero, count-le_one, IsDistinct-of_count,
  length-le_of_subset, subset_of_length-le, In, In-append, In-append_left, In-append_right,
  In-map_of_In, All, IsDistinct, ℤ, pos, negsuc, pred_ℤ, suc_ℤ, is_zero, is_nonpos, Except, ok, err,
  ◌>>=◌, ◌>>◌, refuse_if,
}
use Prim.Native.String.{◌++◌ as text_append}
use mathlib.Core.Option
use execgo.Models.Runtime.{Raw, Time, RuntimeStatus, is_terminal, RuntimeResult}
use execgo.Models.Task
use execgo.Models.Task.{Task, TaskStatus}
use execgo.Store.{Ptr, Heap, modify, update_status}
use execgo.Executor
use execgo.Executor.{ProgressEvent, ExecResult, GoError, Executor, Registry, normalize_task}
use execgo.Scheduler.State.{
  State, InFlightTask, set_in_flight, clear_in_flight, update_in_flight_handle,
  in_flight_cancel_result,
}
use execgo.Scheduler.Runtime.{build_runtime_result, runtime_result_error, result_output}
use execgo.Scheduler.Complete.{with_runtime, with_progress, complete_task}
pub use execgo.Scheduler.Attempt.{
  WakeEvent, context_done, tick, Wakeup, Attempt, plain_error, with_attempt, quoted,
}
unfoldable pub use execgo.Scheduler.Attempt.{
  wait_refused, apply_in_flight_runtime, await_loop, await_runtime_result, settle,
  take_cancel_result, run_attempt,
}

abbrev pub int64_mod : ℕ
int64_mod = 2 ^ 64

-- What a 64-bit pattern stands for as a signed number.
unfoldable pub to_signed : ℕ → ℤ
to_signed n =
    if ltb (n % int64_mod) (2 ^ 63)
    then pos (n % int64_mod)
    else negsuc (int64_mod - n % int64_mod - 1)

abbrev pub max_backoff : ℕ
max_backoff = 10000000000

abbrev pub cap_backoff : ℤ → ℤ
cap_backoff (pos n) = if ltb max_backoff n then pos max_backoff else pos n
cap_backoff (negsuc n) = negsuc n

-- `time.Duration(100*(1<<(attempt-2))) * time.Millisecond`, at most 10 seconds, in nanoseconds,
-- for attempt = k + 2. The products wrap around at 64 bits.
unfoldable pub backoff : ℕ → ℤ
backoff k = cap_backoff (to_signed (100 * 2 ^ k * 1000000))

-- `maxAttempts := task.Retry + 1; if maxAttempts < 1 { maxAttempts = 1 }`
-- The sum wraps around at 64 bits.
abbrev pub at_least_one : ℤ → ℕ
at_least_one (pos zero) = 1
at_least_one (pos (suc n)) = suc n
at_least_one (negsuc n) = 1

unfoldable pub max_attempts : ℤ → ℕ
max_attempts (pos n) = at_least_one (to_signed (suc n))
max_attempts (negsuc n) = 1

-- After which errors there is no retry.
abbrev pub stops : Option GoError → Bool
stops none = true
stops (some e) = e.is_canceled

pub record Outcome : Type 0 where
  pub state : State
  pub result : Option ExecResult
  pub error : Option GoError
  pub used : ℕ
  pub slept : List ℤ

abbrev pub outcome : ℕ → List ℤ → State × Option ExecResult × Option GoError → Outcome
outcome attempt slept (s, r, e) = record {
  state = s;
  result = r;
  error = e;
  used = attempt;
  slept = slept;
}

abbrev pub final_status : Option GoError → TaskStatus
final_status none = TaskStatus.success
final_status (some e) = if e.is_canceled then TaskStatus.cancelled else TaskStatus.failed

abbrev pub add_running : (ℤ → ℤ) → State → State
add_running f s = record s {
  metrics = record s.metrics { tasks_running = f s.metrics.tasks_running };
}

module _ (marshal : List ProgressEvent → Raw) (p : Ptr) (started : Time) where
  -- `left` attempts may follow this one; each of them begins with a pause.
  unfoldable pub attempt_loop : Executor → ℕ → ℕ → (ℕ → Attempt) → List ℤ → State → Option Outcome
  attempt_loop exec zero attempt outside slept s =
      Option.map (outcome attempt slept)
        (run_attempt marshal p started exec attempt (outside attempt) s)
  attempt_loop exec (suc left) attempt outside slept s =
      elim (run_attempt marshal p started exec attempt (outside attempt) s) [
        | none ↦ none
        | some (t, r, e) ↦ elim (stops e) [
          | true ↦ some (outcome attempt slept (t, r, e))
          | false ↦
              attempt_loop exec left (suc attempt) outside (slept ++ backoff (attempt - 1) ∷ []) t
        ]
      ]

  -- `task.RunStatus = "running"` and what follows it up to the loop.
  unfoldable pub mark_running : Time → State → State
  mark_running now s =
      let runtime : RuntimeResult = record {
        status = RuntimeStatus.running;
        handle_id = "";
        output = [];
        started_at = some started;
        finished_at = none;
        duration_ms = pos 0;
        attempt = pos 0;
        details = [];
        error = none;
      } in
      let h =
        modify p (λ t. record t { run_status = RuntimeStatus.running; runtime = some runtime })
          s.heap in
      add_running suc_ℤ
        (record s { heap = (update_status (h p).id TaskStatus.running [] "" now s.tasks h).0 })

  -- `finished` is the clock after the last attempt, and `fuel` bounds the depth of cascadeSkip.
  module _ (trim_space : String → String) (registry : Registry) (fuel : ℕ) (finished : Time) where
    unfoldable pub finish_execution : Outcome → Option State
    finish_execution o =
        complete_task marshal fuel finished p (final_status o.error) (result_output o.result)
          o.error o.result started finished (pos o.used) (add_running pred_ℤ o.state)

    unfoldable pub execute_task : (ℕ → Attempt) → State → Option State
    execute_task outside s =
        let s' = record s { heap = modify p (normalize_task trim_space) s.heap } in
        let run : Option State = elim (Executor.get (s'.heap p).type registry) [
          | none ↦
              complete_task marshal fuel finished p TaskStatus.failed []
                (some (
                  plain_error
                    (text_append "no executor registered for type " (quoted (s'.heap p).type))))
                none 0 finished (pos 0) s'
          | some exec ↦
              elim (attempt_loop exec (max_attempts (s'.heap p).retry - 1) 1 outside []
                (mark_running started s')) [ none ↦ none | some o ↦ finish_execution o ]
        ] in
        if Task.is_terminal (s.heap p).status then some s else run
