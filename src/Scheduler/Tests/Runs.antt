-- ===== src/Scheduler/Tests/Runs.antt =====
-- The chain of three tasks, executed and cancelled.
use execgo.Base.{
  ℕ, ◌*◌, ◌^◌, String, ◌≡◌, refl, sym, subst, inl, inr, true, false, none, some, [], ◌∷◌, arith,
  ltb, eq_ℕ, if◌then◌else◌, pos,
}
use execgo.Base.Dict.{lookup}
use execgo.Models.Runtime.{RuntimeStatus, is_terminal}
use execgo.Models.Task
use execgo.Models.Task.{Task, TaskStatus}
use execgo.Store.{update_status}
use execgo.Executor
use execgo.Executor.{ProgressEvent, ExecResult, GoError, Executor, Registry, normalize_task}
use execgo.Scheduler.State.{
  State, InFlightTask, in_flight_entry, set_in_flight, clear_in_flight, update_in_flight_handle,
  in_flight_cancel_result,
}
use execgo.Scheduler.Runtime.{
  build_runtime_result, copy_result, fill, or_status, or_time, duration_or, or_error, clone_raw,
  runtime_result_error, result_output,
}
use execgo.Scheduler.Execute.{
  max_backoff, backoff, max_attempts, to_signed, tick, Wakeup, Attempt, wait_refused,
  apply_in_flight_runtime, await_loop, await_runtime_result, settle, take_cancel_result,
  run_attempt, Outcome, attempt_loop, final_status, mark_running, finish_execution, execute_task,
}
use execgo.Base.Dict.{remove}
use execgo.Executor.{is_os_tool, is_os_name}
use execgo.Scheduler.State.{set_in_flight_cancel_result}
use execgo.Scheduler.Complete.Final.{IsSettled}
use execgo.Scheduler.Execute.Retry.{IsRetried, attempt_loop-IsRetried}
use execgo.Scheduler.Execute.Wait.{ends_wait, IsWoken, Returns, attempt_loop_ends}
use execgo.Scheduler.Execute.Stored.{IsStored, IsFair}
use execgo.Scheduler.Execute.Final.{execute_task-terminal}
use execgo.Scheduler.Execute.Returns.{IsRanked, execute_task_ends}
use execgo.Scheduler.Execute.Backoff.{backoff-doubles, backoff_vanishes}
use execgo.Scheduler.Cancel.{Reply, cancel, cancel_waiting, cancelled_result}
use execgo.Scheduler.Cancel.Handover.{outcome_of, cancel_handover, cancel_before_start, AllSkipped}
use execgo.Scheduler.Tests.{no_json, submitted, failure, value_or, program, depth, depth-Falls}

abbrev result : RuntimeStatus → ExecResult
result status = record {
  task_id = "a";
  status = status;
  handle_id = "h";
  output = 7 ∷ [];
  details = [];
  progress = [];
  started_at = none;
  finished_at = none;
  duration_ms = pos 0;
  attempt = pos 0;
  error = none;
}

-- An executor that accepts, whose kill of a handle answers with a status of its own.
abbrev remote : Executor
remote = record {
  name = "os";
  category = "os";
  execute = λ _ _. (some (result RuntimeStatus.accepted), none);
  get_handle = some (λ _ _. some (result RuntimeStatus.success));
  cancel_handle = some (λ _. some (result RuntimeStatus.running));
}

abbrev wakes : RuntimeStatus → Wakeup
wakes status = record { others = λ s. s; event = tick (some (result status)) }

-- The first attempt fails at once; the second is accepted, and succeeds at the second poll.
abbrev outside : ℕ → Attempt
outside k = record {
  reply = if eq_ℕ k 1 then (none, failure) else (some (result RuntimeStatus.accepted), none);
  others = λ s. s;
  wakeups = wakes RuntimeStatus.running ∷ wakes RuntimeStatus.success ∷ [];
}

outside-IsFair : (k : ℕ) → IsFair (IsStored 0) (outside k)
outside-IsFair k = record {
  meanwhile = λ s h. h;
  woken = λ w s m h. elim m [
    | inl e ↦ subst (λ (u : Wakeup). IsStored 0 (u.others s)) (sym e) h
    | inr n ↦ elim n [
      | inl e ↦ subst (λ (u : Wakeup). IsStored 0 (u.others s)) (sym e) h
      | inr x ↦ absurd x
    ]
  ];
}

outside-IsWoken : (k : ℕ) → IsWoken no_json 0 6 (outside k)
unfolding ends_wait is_terminal
outside-IsWoken k = (wakes RuntimeStatus.success, inr (inl refl), refl)

abbrev registry : Registry
registry = ("os", remote) ∷ []

abbrev same_text : String → String
same_text t = t

abbrev executed : State
executed = value_or submitted (execute_task no_json 0 6 same_text registry 3 9 outside submitted)

runs : Unit {0}
unfolding program execute_task attempt_loop run_attempt settle await_runtime_result await_loop
    wait_refused apply_in_flight_runtime take_cancel_result finish_execution mark_running
    max_attempts to_signed normalize_task is_os_tool is_os_name remove Executor.get set_in_flight
    clear_in_flight update_in_flight_handle in_flight_cancel_result update_status
    build_runtime_result copy_result fill or_status or_time duration_or or_error
    runtime_result_error result_output clone_raw in_flight_entry set_in_flight_cancel_result
runs = tt

executed_status : (executed.heap 0).status ≡ TaskStatus.success
unfolding runs
executed_status = refl

dispatched_next : executed.ready_queue ≡ 0 ∷ 1 ∷ []
unfolding runs
dispatched_next = refl

execute_task-terminal_example : Task.is_terminal (executed.heap 0).status ≡ true
unfolding runs
execute_task-terminal_example =
    execute_task-terminal no_json 0 6 same_text registry 3 9 outside submitted executed
      outside-IsFair refl refl

attempt_loop_ends_example : Returns (attempt_loop no_json 0 6 remote 1 1 outside [] submitted)
attempt_loop_ends_example =
    attempt_loop_ends no_json 0 6 remote 1 1 outside [] submitted outside-IsWoken

abbrev no_outcome : Outcome
no_outcome = record { state = submitted; result = none; error = none; used = 0; slept = [] }

abbrev tried : Outcome
tried = value_or no_outcome (attempt_loop no_json 0 6 remote 1 1 outside [] submitted)

attempt_loop-IsRetried_example : IsRetried no_json 0 6 remote outside 1 1 [] submitted tried
unfolding runs
attempt_loop-IsRetried_example =
    attempt_loop-IsRetried no_json 0 6 remote outside 1 1 [] submitted tried refl

backoff-doubles_example : backoff 3 ≡ (if ltb 6 3 then pos max_backoff else pos (100000000 * 2 ^ 3))
backoff-doubles_example = backoff-doubles 3 (omega arith)

backoff_vanishes_example : backoff 56 ≡ pos 0
backoff_vanishes_example = backoff_vanishes 56 (omega arith)

-- A task in flight.
abbrev entry : InFlightTask
entry = record { cancelled = false; exec = remote; handle = "h"; started = 6; cancel_result = none }

abbrev in_flight : State
in_flight = record submitted { in_flight = ("a", entry) ∷ [] }

abbrev canceled : GoError
canceled = record { message = "context canceled"; is_canceled = true; is_deadline = false }

cancel_handover_example :
    (t : State) × (r : ExecResult) × (cancel no_json 3 8 "a" in_flight
      ≡ some (t, (some r, true, none)))
    × ((t.heap 0).status ≡ TaskStatus.cancelling)
    × (lookup "a" t.in_flight ≡ some (record entry { cancelled = true; cancel_result = some r }))
    × (final_status (take_cancel_result no_json 0 6 1 none (some canceled) t).1
        ≡ outcome_of r.status)
unfolding runs
cancel_handover_example =
    cancel_handover 0 "a" entry in_flight refl refl refl no_json 3 8 6 1 none canceled refl refl

abbrev cancelled_waiting : State × Reply
cancelled_waiting = value_or (submitted, (none, false, none)) (cancel no_json 3 8 "a" submitted)

cancel_before_start_example :
    (cancelled_waiting.1
      ≡ (some (cancelled_result "task cancelled before execution" "a" ""), true, none))
    × IsSettled TaskStatus.cancelled (cancelled_waiting.0.heap 0)
    × AllSkipped 0 submitted cancelled_waiting.0
unfolding runs cancel cancel_waiting
cancel_before_start_example =
    cancel_before_start no_json 3 8 0 submitted cancelled_waiting.0 cancelled_waiting.1 refl refl
      refl refl

-- The task "c" stands below "a".
outside-IsFair-IsRanked : (k : ℕ) → IsFair (IsRanked depth 3 0) (outside k)
outside-IsFair-IsRanked k = record {
  meanwhile = λ s h. h;
  woken = λ w s m h. elim m [
    | inl e ↦ subst (λ (u : Wakeup). IsRanked depth 3 0 (u.others s)) (sym e) h
    | inr n ↦ elim n [
      | inl e ↦ subst (λ (u : Wakeup). IsRanked depth 3 0 (u.others s)) (sym e) h
      | inr x ↦ absurd x
    ]
  ];
}

execute_task_ends_example :
    (t : State) × (execute_task no_json 0 6 same_text registry 3 9 outside submitted ≡ some t)
unfolding program
execute_task_ends_example =
    execute_task_ends no_json 0 6 same_text registry 3 9 depth outside submitted outside-IsWoken
      outside-IsFair-IsRanked (depth-Falls, omega arith)
