-- ===== src/Scheduler/Complete.antt =====
-- pkg/scheduler/scheduler.go: completeTask and cascadeSkip.
use execgo.Base.{
  ℕ, zero, suc, ◌+◌, ◌-◌, ◌*◌, ◌/◌, ◌%◌, ◌^◌, ◌≤◌, ◌<◌, String, ◌≡◌, refl, sym, ap, ◌∙◌, subst, ◌≢◌,
  ◌↔◌, ◌⊎◌, inl, inr, Bool, true, false, not, ◌&&◌, ◌||◌, Option, none, some, List, [], ◌∷◌, ◌++◌,
  map, arith, eq_iff, eq_refl, ltb, leb, eq_ℕ, ◌==◌, if◌then◌else◌, Bool-cases, Option-cases,
  text_cases, String-discrete, length, length-append, has, has_iff, In-cases, count,
  count-pos_of_In, In_of_count-pos, count-append, count-eq_zero, length-le_of_subset,
  subset_of_length-le, In, In-append, In-append_left, In-append_right, All, IsDistinct, ℤ, pos,
  negsuc, pred_ℤ, suc_ℤ, is_zero, is_nonpos, Except, ok, err, ◌>>=◌, ◌>>◌, refuse_if,
}
pub mod Cascade
pub mod Effect
pub mod Final
pub mod Returns
pub mod Ids
pub mod Outcome
use Prim.Native.String.{◌++◌ as text_append}
use execgo.Base.Dict.{Dict, lookup, insert, get_or}
use execgo.Models.Runtime.{Raw, Time, RuntimeStatus, RuntimeError, RuntimeResult}
use execgo.Models.Task.{Task, TaskStatus}
use execgo.Store.{Ptr, Heap, Manager, modify, update_status}
use execgo.Executor.{ProgressEvent, ExecResult, GoError}
use execgo.Scheduler.State.{Metrics, State}
use execgo.Scheduler.Submit.{enqueue}
use execgo.Scheduler.Runtime.{build_runtime_result, append_task_event, terminal_task_event}

-- `child.Runtime = nil; child.RunStatus = ""`
abbrev pub clear_runtime : Task → Task
clear_runtime t = record t { runtime = none; run_status = RuntimeStatus.unset }

-- `if task, ok := s.state.Get(id); ok { … }` around it.
unfoldable pub clear_runtime_of : String → Manager → Heap → Heap
clear_runtime_of id m h = elim (lookup id m) [ none ↦ h | some p ↦ modify p clear_runtime h ]

-- "dependency " + id + " " + reason
abbrev pub reason_text : String → String → String
reason_text id reason = text_append "dependency " (text_append id (text_append " " reason))

module _ (tasks : Manager) (dependents : Dict (List String)) (now : Time) where
  -- The loop of cascadeSkip over the children, where `rec` is its own call.
  unfoldable pub skip_children :
      (String → Heap → Option Heap) → String → List String → Heap → Option Heap
  skip_children rec parent [] h = some h
  skip_children rec parent (child ∷ children) h =
      let h' =
        (update_status child TaskStatus.skipped [] (reason_text parent "skipped") now tasks h).0 in
      elim (rec child h') [ none ↦ none | some h'' ↦ skip_children rec parent children h'' ]

  -- cascadeSkip writes to the tasks alone. `none` means that the fuel ran out.
  unfoldable pub cascade_skip : ℕ → String → Heap → Option Heap
  cascade_skip zero id h = none
  cascade_skip (suc fuel) id h =
      skip_children (cascade_skip fuel) id (get_or dependents id []) (clear_runtime_of id tasks h)

-- How completeTask treats the children, by the status.
pub data ChildAction : Type 0 where
  skip : String → ChildAction
  count_down : ChildAction

unfoldable pub cascade_of : TaskStatus → ChildAction
cascade_of TaskStatus.failed = skip "failed"
cascade_of TaskStatus.cancelled = skip "cancelled"
cascade_of _ = count_down

-- One child of a task that failed or was cancelled.
unfoldable pub skip_child : ℕ → Time → String → String → String → State → Option State
skip_child fuel now parent reason child s =
    let cleared = clear_runtime_of child s.tasks s.heap in
    let h =
      (update_status child TaskStatus.skipped [] (reason_text parent reason) now s.tasks
        cleared).0 in
    elim (cascade_skip s.tasks s.dependents now fuel child h) [
      | none ↦ none
      | some h' ↦ some (record s {
        heap = h';
        metrics = record s.metrics { tasks_failed = suc s.metrics.tasks_failed };
      })
    ]

unfoldable pub skip_all : ℕ → Time → String → String → List String → State → Option State
skip_all fuel now parent reason [] s = some s
skip_all fuel now parent reason (child ∷ children) s =
    elim (skip_child fuel now parent reason child s) [
      | none ↦ none
      | some s' ↦ skip_all fuel now parent reason children s'
    ]

-- `if child, ok := s.state.Get(childID); ok { s.enqueue(child) }`
unfoldable pub enqueue_id : String → State → State
enqueue_id id s = elim (lookup id s.tasks) [ none ↦ s | some p ↦ enqueue p s ]

-- One child of any other task.
unfoldable pub count_down_child : String → State → State
count_down_child child s =
    let left = pred_ℤ (get_or s.dep_count child (pos 0)) in
    let s' = record s { dep_count = insert child left s.dep_count } in
    if is_nonpos left then enqueue_id child s' else s'

unfoldable pub count_down_all : List String → State → State
count_down_all [] s = s
count_down_all (child ∷ children) s = count_down_all children (count_down_child child s)

unfoldable pub complete_children :
    ℕ → Time → String → ChildAction → List String → State → Option State
complete_children fuel now parent (skip reason) children s =
    skip_all fuel now parent reason children s
complete_children fuel now parent count_down children s = some (count_down_all children s)

abbrev runtime_message : Option RuntimeResult → String
runtime_message none = ""
runtime_message (some r) = elim r.error [ none ↦ "" | some e ↦ e.message ]

-- `if runtime != nil { task.Runtime = runtime; … }`
abbrev pub with_runtime : Option RuntimeResult → Task → Task
with_runtime none t = t
with_runtime (some r) t = record t {
  runtime = some r;
  run_status = r.status;
  handle_id = r.handle_id;
}

unfoldable pub count_completed : TaskStatus → Metrics → Metrics
count_completed TaskStatus.success m = record m { tasks_succeeded = suc m.tasks_succeeded }
count_completed TaskStatus.cancelled m = record m { tasks_cancelled = suc m.tasks_cancelled }
count_completed _ m = record m { tasks_failed = suc m.tasks_failed }

-- `marshal` is json.Marshal on a list of progress events.
module _ (marshal : List ProgressEvent → Raw) where
  abbrev pub with_progress : Option ExecResult → Task → Task
  with_progress none t = t
  with_progress (some r) t = elim r.progress [
    | [] ↦ t
    | e ∷ es ↦ record t { progress = marshal (e ∷ es) }
  ]

  -- completeTask up to the lock: what it writes to the task, the store and the metrics.
  unfoldable pub finish_task :
      Time
      → Ptr
      → TaskStatus
      → Raw
      → Option GoError
      → Option ExecResult
      → Time
      → Time
      → ℤ
      → State
      → State
  finish_task now p status result run_err exec_result started finished attempt s =
      let runtime = build_runtime_result status exec_result run_err started finished attempt in
      let h = modify p (λ t. with_progress exec_result (with_runtime runtime t)) s.heap in
      let event = terminal_task_event (h p) status runtime finished now in
      let h' = modify p (append_task_event event) h in
      record s {
        heap = (update_status (h' p).id status result (runtime_message runtime) now s.tasks h').0;
        metrics = count_completed status s.metrics;
      }

  unfoldable pub complete_task :
      ℕ
      → Time
      → Ptr
      → TaskStatus
      → Raw
      → Option GoError
      → Option ExecResult
      → Time
      → Time
      → ℤ
      → State
      → Option State
  complete_task fuel now p status result run_err exec_result started finished attempt s =
      let s' = finish_task now p status result run_err exec_result started finished attempt s in
      let id = (s'.heap p).id in
      complete_children fuel now id (cascade_of status) (get_or s'.dependents id []) s'
