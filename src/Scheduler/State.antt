-- ===== src/Scheduler/State.antt =====
-- pkg/scheduler/scheduler.go: what a Scheduler holds, and the metrics that it counts.
use execgo.Base.{ℕ, suc, String, Bool, Option, none, some, List, [], ◌==◌, if◌then◌else◌, ℤ, pos}
use execgo.Base.Dict.{Dict, lookup, insert, remove, get_or}
use execgo.Models.Runtime.{Time}
use execgo.Store.{Ptr, Heap, Manager}
use execgo.Executor.{Executor, ExecResult}

-- pkg/observability: the counters. TasksRunning also falls.
pub record Metrics : Type 0 where
  pub tasks_total : ℕ
  pub tasks_running : ℤ
  pub tasks_succeeded : ℕ
  pub tasks_failed : ℕ
  pub tasks_cancelled : ℕ
  pub by_type : Dict ℕ

unfoldable pub inc_type : String → Metrics → Metrics
inc_type task_type m = record m {
  by_type = insert task_type (suc (get_or m.by_type task_type 0)) m.by_type;
}

-- `cancelled` says that the context was cancelled through `cancel`.
pub record InFlightTask : Type 0 where
  pub cancelled : Bool
  pub exec : Executor
  pub handle : String
  pub started : Time
  pub cancel_result : Option ExecResult

-- The channel `readyQueue` holds `queue_capacity` tasks at most; `blocked` are the goroutines that
-- wait to send one more. `heap` is the memory that the task pointers lead to.
pub record State : Type 0 where
  pub heap : Heap
  pub tasks : Manager
  pub metrics : Metrics
  pub ready_queue : List Ptr
  pub blocked : List Ptr
  pub dep_count : Dict ℤ
  pub dependents : Dict (List String)
  pub in_flight : Dict InFlightTask

abbrev pub queue_capacity : ℕ
queue_capacity = 1024

-- New, over a store that is given.
unfoldable pub new : Heap → Manager → State
new heap tasks = record {
  heap = heap;
  tasks = tasks;
  metrics = record {
    tasks_total = 0;
    tasks_running = pos 0;
    tasks_succeeded = 0;
    tasks_failed = 0;
    tasks_cancelled = 0;
    by_type = [];
  };
  ready_queue = [];
  blocked = [];
  dep_count = [];
  dependents = [];
  in_flight = [];
}

-- The small methods on `inFlight`.
unfoldable pub set_in_flight : String → InFlightTask → State → State
set_in_flight id entry s = record s { in_flight = insert id entry s.in_flight }

unfoldable pub clear_in_flight : String → State → State
clear_in_flight id s = record s { in_flight = remove id s.in_flight }

unfoldable pub update_in_flight_handle : String → String → State → State
update_in_flight_handle id handle s = if handle == "" then s else elim (lookup id s.in_flight) [
  | none ↦ s
  | some entry ↦ record s { in_flight = insert id (record entry { handle = handle }) s.in_flight }
]

unfoldable pub in_flight_entry : String → State → Option InFlightTask
in_flight_entry id s = lookup id s.in_flight

unfoldable pub set_in_flight_cancel_result : String → ExecResult → State → State
set_in_flight_cancel_result id res s = elim (lookup id s.in_flight) [
  | none ↦ s
  | some entry ↦ record s {
    in_flight = insert id (record entry { cancel_result = some res }) s.in_flight;
  }
]

unfoldable pub in_flight_cancel_result : String → State → Option ExecResult
in_flight_cancel_result id s = elim (lookup id s.in_flight) [
  | none ↦ none
  | some entry ↦ entry.cancel_result
]
