-- ===== src/Scheduler/Dispatch/Tests.antt =====
-- A small graph that the scheduler runs, and the theorems on it.
use execgo.Base.{ok}
use execgo.Base.{
  zero, suc, String, ◌≡◌, refl, ◌↔◌, ◌⊎◌, inl, Option, none, some, List, [], ◌∷◌, ◌++◌, map, arith,
  eq_iff, In, IsDistinct, pos,
}
use execgo.Base.Dict.{insert}
use execgo.Models.Runtime.{Raw, RuntimeStatus}
use execgo.Models.Task
use execgo.Models.Task.{Task, TaskStatus}
use execgo.Models.Graph.{
  count_visited, drain, release, roots, build, add_node, add_edges, add_edge, detect_cycle,
  collect_ids, check_all_deps, check_deps, validate,
}
use execgo.Models.Graph.Order.{IsWalk}
use execgo.Models.Graph.Accept.{graph as task_graph}
use execgo.Scheduler.Dispatch.Returns.{complete_returns}
use execgo.Models.Graph.Edges.{DepsIn}
use execgo.Store.{Ptr, Heap, modify, put, update_status}
use execgo.Executor.{ProgressEvent}
use execgo.Scheduler.State.{State, new, inc_type}
use execgo.Scheduler.Submit.{
  enqueue, add_dependent, register_task, register_tasks, enqueue_if_ready, enqueue_ready, submit,
  admit, receive,
}
use execgo.Scheduler.Runtime.{build_runtime_result, append_task_event, terminal_task_event}
use execgo.Scheduler.Complete.{
  cascade_of, enqueue_id, count_down_child, count_down_all, complete_children, finish_task,
  complete_task, count_completed,
}
use execgo.Scheduler.Dispatch.{System, Report, complete, receives, succeeds, Reach, start, next}
use execgo.Scheduler.Dispatch.Invariant.{released}
use execgo.Scheduler.Dispatch.Safety.{dispatched_iff, dispatched_once, executing-DepsIn}

abbrev task : String → List String → Task
task id deps = record {
  id = id;
  type = "noop";
  params = [];
  tool_name = "";
  input = [];
  category = "";
  depends_on = deps;
  retry = pos 0;
  timeout = pos 0;
  annotations = [];
  status = TaskStatus.pending;
  run_status = RuntimeStatus.unset;
  handle_id = "";
  progress = [];
  result = [];
  runtime = none;
  events = [];
  error = "";
  created_at = 0;
  updated_at = 0;
}

abbrev no_json : List ProgressEvent → Raw
no_json es = []

-- The task "b" at 1 depends on "a" at 0.
abbrev memory : Heap
memory zero = task "a" []
memory (suc _) = task "b" ("a" ∷ [])

abbrev graph : List Ptr
graph = 1 ∷ 0 ∷ []

abbrev report : Report
report = record {
  result = [];
  run_err = none;
  exec_result = none;
  started = 6;
  finished = 7;
  attempt = pos 1;
  now = 7;
}

abbrev value_or {ℓ} : {A : Type ℓ} → A → Option A → A
value_or d none = d
value_or d (some a) = a

abbrev submitted : State
submitted = submit 5 graph (new memory [])

abbrev received : State → State
received s = (value_or (0, s) (receive s)).1

abbrev first_received : State
first_received = received submitted

abbrev first_done : State
first_done = value_or submitted (complete no_json 1 0 TaskStatus.success report first_received)

abbrev second_received : State
second_received = received first_done

program : Unit {0}
unfolding Task.is_terminal submit new register_tasks register_task enqueue_ready enqueue_if_ready
    enqueue add_dependent inc_type put modify update_status insert receive admit complete_task
    finish_task complete_children cascade_of count_down_all count_down_child enqueue_id
    build_runtime_result append_task_event terminal_task_event count_completed
program = tt

waits_first : submitted.ready_queue ≡ 0 ∷ []
unfolding program
waits_first = refl

waits_second : first_done.ready_queue ≡ 1 ∷ []
unfolding program
waits_second = refl

abbrev running_second : System
running_second = record {
  state = second_received;
  executing = 1 ∷ [];
  succeeded = "a" ∷ [];
  ended = [];
}

graph-IsDistinct : IsDistinct (map (λ p. (memory p).id) graph)
graph-IsDistinct = (λ m. ground (arith, eq_iff "b" "a"), (λ m. m, tt))

running_second-Reach : Reach no_json memory graph 5 running_second
unfolding program
running_second-Reach =
    next
      (next (next start (receives _ 0 first_received refl))
        (succeeds _ [] [] 0 1 report first_done refl refl))
      (receives _ 1 second_received refl)

dispatched_iff_example :
    (In "b" (released (λ p. (memory p).id) running_second) ⊎ In "b" running_second.succeeded) ↔ (
      In "b" (map (λ p. (memory p).id) graph)
      × DepsIn (map memory graph) "b" running_second.succeeded)
dispatched_iff_example =
    dispatched_iff no_json memory graph 5 graph-IsDistinct "b" running_second-Reach

dispatched_once_example :
    IsDistinct (released (λ p. (memory p).id) running_second ++ running_second.succeeded)
dispatched_once_example =
    dispatched_once no_json memory graph 5 graph-IsDistinct running_second-Reach

executing-DepsIn_example : DepsIn (map memory graph) "b" running_second.succeeded
executing-DepsIn_example =
    executing-DepsIn no_json memory graph 5 graph-IsDistinct 1 running_second-Reach (inl refl)

abbrev forward : List String → List String
forward vs = vs

forward-IsWalk : IsWalk forward
forward-IsWalk = record { members = λ vs v. (λ m. m, λ m. m); distinct = λ vs d. d }

accepted : validate forward (task_graph (map memory graph)) ≡ ok tt
unfolding validate collect_ids check_all_deps check_deps detect_cycle count_visited drain release
    roots build add_node add_edges add_edge insert
accepted = refl

complete_returns_example :
    (t : State) × (complete no_json 2 1 TaskStatus.failed report running_second.state ≡ some t)
complete_returns_example =
    complete_returns no_json forward forward-IsWalk memory graph 5 accepted 1 TaskStatus.failed
      report running_second-Reach
