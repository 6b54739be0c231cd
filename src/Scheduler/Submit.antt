-- ===== src/Scheduler/Submit.antt =====
-- pkg/scheduler/scheduler.go: Submit, enqueue, and the receiving end of the ready queue.
use execgo.Base.{
  suc, String, Option, none, some, List, [], ◌∷◌, ◌++◌, ltb, if◌then◌else◌, length, pos, is_zero,
}
use execgo.Base.Dict.{Dict, insert, get_or}
use execgo.Models.Runtime.{Time}
use execgo.Models.Task.{TaskStatus}
use execgo.Store.{Ptr, modify, put}
use execgo.Scheduler.State.{inc_type, State, queue_capacity}

unfoldable pub enqueue : Ptr → State → State
enqueue p s =
    if ltb (length s.ready_queue) queue_capacity
    then record s { ready_queue = s.ready_queue ++ p ∷ [] }
    else record s { blocked = s.blocked ++ p ∷ [] }

-- `s.dependents[dep] = append(s.dependents[dep], task.ID)` for each dependency.
unfoldable pub add_dependent : String → List String → Dict (List String) → Dict (List String)
add_dependent id [] m = m
add_dependent id (dep ∷ deps) m = add_dependent id deps (insert dep (get_or m dep [] ++ id ∷ []) m)

-- The body of the first loop of Submit.
unfoldable pub register_task : Time → Ptr → State → State
register_task now p s =
    let heap =
      modify p (λ t. record t { status = TaskStatus.pending; created_at = now; updated_at = now })
        s.heap in
    let task = heap p in
    let metrics =
      inc_type task.type (record s.metrics { tasks_total = suc s.metrics.tasks_total }) in
    record s {
      heap = heap;
      tasks = put heap p s.tasks;
      metrics = metrics;
      dep_count = insert task.id (pos (length task.depends_on)) s.dep_count;
      dependents = add_dependent task.id task.depends_on s.dependents;
    }

unfoldable pub register_tasks : Time → List Ptr → State → State
register_tasks now [] s = s
register_tasks now (p ∷ ps) s = register_tasks now ps (register_task now p s)

-- The body of the second loop of Submit.
unfoldable pub enqueue_if_ready : Ptr → State → State
enqueue_if_ready p s = if is_zero (get_or s.dep_count (s.heap p).id (pos 0)) then enqueue p s else s

unfoldable pub enqueue_ready : List Ptr → State → State
enqueue_ready [] s = s
enqueue_ready (p ∷ ps) s = enqueue_ready ps (enqueue_if_ready p s)

-- Submit holds the lock all along, so it is one step.
unfoldable pub submit : Time → List Ptr → State → State
submit now ps s = enqueue_ready ps (register_tasks now ps s)

-- `task := <-s.readyQueue`: the oldest task leaves the channel, and a blocked sender, if there is
-- one, puts its task in. Which one comes first Go leaves open; here it is the oldest.
unfoldable pub admit : List Ptr → State → State
admit [] s = s
admit (q ∷ qs) s = record s { ready_queue = s.ready_queue ++ q ∷ []; blocked = qs }

unfoldable pub receive : State → Option (Ptr × State)
receive s = elim s.ready_queue [
  | [] ↦ none
  | p ∷ rest ↦ some (p, admit s.blocked (record s { ready_queue = rest }))
]
