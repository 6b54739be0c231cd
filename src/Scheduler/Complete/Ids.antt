-- ===== src/Scheduler/Complete/Ids.antt =====
-- pkg/scheduler/scheduler.go: what completeTask writes never changes the id of a task.
use execgo.Base.{String, ◌≡◌, refl, Option, none, some, List, arith}
use execgo.Models.Runtime.{Raw, Time, RuntimeResult, RuntimeEvent}
use execgo.Models.Task.{Task, TaskStatus}
use execgo.Store.{Ptr, Heap, Manager, modify, update_status}
use execgo.Executor.{ProgressEvent, ExecResult}
use execgo.Scheduler.Runtime.{append_task_event}
use execgo.Scheduler.Complete.{with_runtime, with_progress}
use execgo.Scheduler.Complete.Effect.{IsKept, modify_ind, update_ind}

abbrev pub HasId : String → Task → Type 0
HasId id t = t.id ≡ id

pub HasId-IsKept : (now : Time) (id : String) → IsKept now (HasId id)
HasId-IsKept now id = record { cleared = λ t e. e; skipped = λ t msg e. e }

pub with_runtime-id : (r : Option RuntimeResult) (t : Task) → (with_runtime r t).id ≡ t.id
with_runtime-id none t = refl
with_runtime-id (some r) t = refl

pub append_task_event-id : (e : RuntimeEvent) (t : Task) → (append_task_event e t).id ≡ t.id
unfolding append_task_event
append_task_event-id e t = ground arith

pub modify-id :
    (p q : Ptr) (f : Task → Task) (h : Heap)
    → ((t : Task) → (f t).id ≡ t.id)
    → (modify p f h q).id ≡ (h q).id
modify-id p q f h e = modify_ind (HasId (h q).id) p q f h refl (λ _. e (h q))

pub update_status-id :
    (m : Manager) (id msg : String) (status : TaskStatus) (result : Raw) (now : Time) (q : Ptr)
    (h : Heap)
    → ((update_status id status result msg now m h).0 q).id ≡ (h q).id
update_status-id m id msg status result now q h =
    update_ind m now (HasId (h q).id) id msg status result q h refl (λ _. refl)

module _ (marshal : List ProgressEvent → Raw) where
  pub with_progress-id : (r : Option ExecResult) (t : Task) → (with_progress marshal r t).id ≡ t.id
  with_progress-id none t = refl
  with_progress-id (some r) t = ground arith
