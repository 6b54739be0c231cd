-- ===== src/Scheduler/Tests.antt =====
-- A chain of three tasks that is submitted, run, failed and cancelled, and the theorems on it.
mod Runs
use execgo.Base.{
  ℕ, zero, suc, ◌+◌, ◌-◌, ◌*◌, ◌/◌, ◌%◌, ◌^◌, ◌≤◌, ◌<◌, String, ◌≡◌, refl, sym, ap, ◌∙◌, subst, ◌≢◌,
  ◌↔◌, ◌⊎◌, inl, inr, Bool, true, false, not, ◌&&◌, ◌||◌, Option, none, some, List, [], ◌∷◌, ◌++◌,
  map, arith, eq_iff, eq_refl, ltb, leb, eq_ℕ, ◌==◌, if◌then◌else◌, Bool-cases, Option-cases,
  text_cases, String-discrete, length, length-append, List-cases, has, has_iff, In-cases, count,
  count-pos_of_In, In_of_count-pos, count-append, count-eq_zero, count-le_one, IsDistinct-of_count,
  length-le_of_subset, subset_of_length-le, In, In-append, In-append_left, In-append_right,
  In-map_of_In, All, IsDistinct, ℤ, pos, negsuc, pred_ℤ, suc_ℤ, is_zero, is_nonpos, Except, ok, err,
  ◌>>=◌, ◌>>◌, refuse_if,
}
use Prim.Native.String.{◌++◌ as text_append}
use mathlib.Core.Option
use execgo.Base.Dict.{Dict, lookup}
use execgo.Models.Runtime.{Raw, Time, RuntimeStatus, is_terminal, RuntimeResult}
use execgo.Models.Task
use execgo.Models.Task.{Task, TaskStatus}
use execgo.Store.{Ptr, Heap, Manager, modify, update_status}
use execgo.Executor
use execgo.Executor.{ProgressEvent, ExecResult, GoError, Executor, Registry, normalize_task}
use execgo.Scheduler.State.{
  State, InFlightTask, in_flight_entry, set_in_flight, clear_in_flight, update_in_flight_handle,
  in_flight_cancel_result,
}
use execgo.Scheduler.Runtime.{build_runtime_result, runtime_result_error, result_output}
use execgo.Scheduler.Complete.{with_runtime, with_progress, complete_task}
use execgo.Scheduler.Execute.{
  plain_error, max_backoff, int64_mod, to_signed, backoff, cap_backoff, max_attempts, WakeEvent,
  context_done, tick, Wakeup, Attempt, wait_refused, apply_in_flight_runtime, await_loop,
  await_runtime_result, settle, take_cancel_result, run_attempt, stops, Outcome, outcome,
  with_attempt, attempt_loop, final_status, mark_running, finish_execution, execute_task,
}
use execgo.Base.Dict.{Dict, insert, lookup, get_or}
use execgo.Models.Runtime.{RuntimeError, RuntimeEvent, RuntimeEventType}
use execgo.Store.{put}
use execgo.Executor.{is_os_tool, is_os_name}
use execgo.Scheduler.State.{new, inc_type, set_in_flight_cancel_result}
use execgo.Scheduler.Submit.{
  enqueue, add_dependent, register_task, register_tasks, enqueue_if_ready, enqueue_ready, submit,
  admit, receive,
}
use execgo.Scheduler.Runtime.{append_task_event, terminal_task_event}
use execgo.Scheduler.Complete.{
  cascade_of, skip_all, skip_child, skip_children, cascade_skip, clear_runtime_of, enqueue_id,
  count_down_child, count_down_all, complete_children, finish_task, count_completed,
}
use execgo.Scheduler.Complete.Cascade.{Below, child, further, IsSkipped, cascade_skip_diverges}
use execgo.Scheduler.Complete.Effect.{cascade_skip_frame}
use execgo.Scheduler.Complete.Final.{IsSettled}
use execgo.Scheduler.Complete.Outcome.{complete_task-IsSettled, complete_task-IsSkipped}
use execgo.Scheduler.Complete.Returns.{Falls, complete_task_ends}
use execgo.Scheduler.Execute.Retry.{IsRetried, pauses, attempt_loop-IsRetried}
use execgo.Scheduler.Execute.Wait.{ends_wait, IsWoken, Returns, attempt_loop_ends}
use execgo.Scheduler.Execute.Stored.{IsStored, IsFair}
use execgo.Scheduler.Execute.Final.{execute_task-terminal}
use execgo.Scheduler.Execute.Backoff.{backoff-doubles, backoff_vanishes}
use execgo.Scheduler.Cancel.{cancel}
use execgo.Scheduler.Cancel.Handover.{outcome_of, cancel_handover, cancel_before_start}

abbrev task : String → List String → Task
task id deps = record {
  id = id;
  type = "noop";
  params = [];
  tool_name = "";
  input = [];
  category = "";
  depends_on = deps;
  retry = pos 0;
  timeout = pos 0;
  annotations = [];
  status = TaskStatus.pending;
  run_status = RuntimeStatus.unset;
  handle_id = "";
  progress = [];
  result = [];
  runtime = none;
  events = [];
  error = "";
  created_at = 0;
  updated_at = 0;
}

abbrev pub no_json : List ProgressEvent → Raw
no_json es = []

-- The task "c" at 2 depends on "b" at 1, and "b" on "a" at 0.
abbrev memory : Heap
memory zero = record (task "a" []) { retry = pos 1 }
memory (suc zero) = task "b" ("a" ∷ [])
memory (suc (suc _)) = task "c" ("b" ∷ [])

abbrev graph : List Ptr
graph = 0 ∷ 1 ∷ 2 ∷ []

abbrev pub value_or {ℓ} : {A : Type ℓ} → A → Option A → A
value_or d none = d
value_or d (some a) = a

abbrev pub submitted : State
submitted = submit 5 graph (new memory [])

abbrev pub failure : Option GoError
failure = some (plain_error "boom")

abbrev after_failure : State
after_failure =
    value_or submitted
      (complete_task no_json 3 8 0 TaskStatus.failed [] failure none 6 7 (pos 1) submitted)

pub program : Unit {0}
unfolding Task.is_terminal is_terminal submit new register_tasks register_task enqueue_ready
    enqueue_if_ready enqueue add_dependent inc_type put modify update_status insert receive admit
    complete_task finish_task complete_children cascade_of count_down_all count_down_child
    enqueue_id build_runtime_result append_task_event terminal_task_event count_completed skip_all
    skip_child clear_runtime_of cascade_skip skip_children
program = tt

pub c-Below_a : Below submitted.dependents "a" "c"
unfolding program
c-Below_a = further {u = "a"} {v = "b"} (inl refl) (child {v = "b"} {w = "c"} (inl refl))

-- Each id comes after those it depends on.
abbrev pub depth : String → ℕ
depth id = if id == "a" then 2 else if id == "b" then 1 else 0

abbrev chain : Dict (List String)
chain = ("a", "b" ∷ []) ∷ ("b", "c" ∷ []) ∷ []

depth-chain : (v w : String) → In w (get_or chain v []) → depth w < depth v
depth-chain v w m = elim (text_cases "a" v) [
  | inl (e, t) ↦
      let g : get_or chain v [] ≡ "b" ∷ [] = rw (t, get_or) refl in
      let n : In w ("b" ∷ []) = subst (In w) g m in
      elim n [ inl f ↦ rw (sym e, f) (omega arith) | inr x ↦ absurd x ]
  | inr (ne, t) ↦ elim (text_cases "b" v) [
    | inl (e, u) ↦
        let g : get_or chain v [] ≡ "c" ∷ [] = rw (t, u, get_or) refl in
        let n : In w ("c" ∷ []) = subst (In w) g m in
        elim n [ inl f ↦ rw (sym e, f) (omega arith) | inr x ↦ absurd x ]
    | inr (ne', u) ↦
        let g : get_or chain v [] ≡ [] = rw (t, u, get_or) refl in absurd (subst (In w) g m)
  ]
]

pub depth-Falls : Falls depth submitted.dependents
unfolding program
depth-Falls v w m = depth-chain v w m

complete_task-IsSkipped_example : IsSkipped (after_failure.heap 2)
unfolding program
complete_task-IsSkipped_example =
    complete_task-IsSkipped no_json 8 0 TaskStatus.failed [] failure none 6 7 (pos 1) submitted 3
      "c" 2 after_failure (inl refl) c-Below_a refl refl

complete_task-IsSettled_example : IsSettled TaskStatus.failed (after_failure.heap 0)
unfolding program
complete_task-IsSettled_example =
    complete_task-IsSettled no_json 8 0 TaskStatus.failed [] failure none 6 7 (pos 1) submitted 3
      after_failure refl refl

complete_task_ends_example :
    (t : State) × (complete_task no_json 3 8 0 TaskStatus.failed [] failure none 6 7
        (pos 1)
        submitted
      ≡ some t)
unfolding program
complete_task_ends_example =
    complete_task_ends depth 3 8 no_json 0 TaskStatus.failed [] failure none 6 7 (pos 1) submitted
      depth-Falls (omega arith)

abbrev twisted : Heap
twisted zero = task "a" []
twisted (suc zero) = task "b" ("a" ∷ [])
twisted (suc (suc zero)) = task "b" []
twisted (suc (suc (suc _))) = task "a" ("b" ∷ [])

-- Two submissions: "b" on "a", and then "a" on "b".
abbrev resubmitted : State
resubmitted = submit 6 (2 ∷ 3 ∷ []) (submit 5 (0 ∷ 1 ∷ []) (new twisted []))

cascade_skip_diverges_example :
    cascade_skip resubmitted.tasks resubmitted.dependents 7 9 "a" resubmitted.heap ≡ none
unfolding program
cascade_skip_diverges_example =
    cascade_skip_diverges resubmitted.tasks resubmitted.dependents 7 9 "a" resubmitted.heap
      (further {u = "a"} {v = "b"} (inl refl) (child {v = "b"} {w = "a"} (inl refl)))
