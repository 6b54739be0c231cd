-- ===== src/Scheduler/Dispatch.antt =====
-- The scheduler as a system of steps: a graph is submitted, and tasks are received and completed.
mod Counts
mod Preserve
mod Released
mod Invariant
mod Register
mod Start
mod Steps
pub mod Safety
pub mod Returns
mod Tests
use execgo.Base.{
  ℕ, zero, suc, ◌+◌, ◌-◌, ◌*◌, ◌/◌, ◌%◌, ◌^◌, ◌≤◌, ◌<◌, String, ◌≡◌, refl, sym, ap, ◌∙◌, subst, ◌≢◌,
  ◌↔◌, ◌⊎◌, inl, inr, Bool, true, false, not, ◌&&◌, ◌||◌, Option, none, some, List, [], ◌∷◌, ◌++◌,
  map, arith, eq_iff, eq_refl, ltb, leb, eq_ℕ, ◌==◌, if◌then◌else◌, Bool-cases, Option-cases,
  text_cases, String-discrete, length, length-append, has, has_iff, In-cases, count,
  count-pos_of_In, In_of_count-pos, count-append, count-eq_zero, count-le_one, IsDistinct-of_count,
  length-le_of_subset, subset_of_length-le, In, In-append, In-append_left, In-append_right, All,
  IsDistinct, ℤ, pos, negsuc, pred_ℤ, suc_ℤ, is_zero, is_nonpos, Except, ok, err, ◌>>=◌, ◌>>◌,
  refuse_if,
}
use execgo.Models.Runtime.{Raw, Time}
use execgo.Models.Task
use execgo.Models.Task.{Task, TaskStatus}
use execgo.Store.{Ptr, Heap}
use execgo.Executor.{ProgressEvent, ExecResult, GoError}
use execgo.Scheduler.State.{State, new}
use execgo.Scheduler.Submit.{submit, receive}
use execgo.Scheduler.Complete.{complete_task}

-- `executing` are the tasks that a goroutine of `loop` holds. The last two fields are the history:
-- the ids of the tasks that completed with success, and the tasks whose run ended otherwise.
pub record System : Type 0 where
  pub state : State
  pub executing : List Ptr
  pub succeeded : List String
  pub ended : List Ptr

-- Two states that differ in metrics, in-flight entries and the contents of tasks alone.
pub record SameSchedule (s t : State) : Type 0 where
  pub same_ids : (q : Ptr) → (t.heap q).id ≡ (s.heap q).id
  pub same_tasks : t.tasks ≡ s.tasks
  pub same_ready : t.ready_queue ≡ s.ready_queue
  pub same_blocked : t.blocked ≡ s.blocked
  pub same_counts : t.dep_count ≡ s.dep_count
  pub same_dependents : t.dependents ≡ s.dependents

-- The statuses with which completeTask is called other than success.
pub data IsUnsuccessful : TaskStatus → Type 0 where
  did_fail : IsUnsuccessful TaskStatus.failed
  was_cancelled : IsUnsuccessful TaskStatus.cancelled

-- What completeTask is told of a run.
pub record Report : Type 0 where
  pub result : Raw
  pub run_err : Option GoError
  pub exec_result : Option ExecResult
  pub started : Time
  pub finished : Time
  pub attempt : ℤ
  pub now : Time

module _ (marshal : List ProgressEvent → Raw) where
  abbrev pub complete : ℕ → Ptr → TaskStatus → Report → State → Option State
  complete fuel p status r s =
      complete_task marshal fuel r.now p status r.result r.run_err r.exec_result r.started
        r.finished r.attempt s

  -- `loop` receives a task; executeTask completes one with success or otherwise, or returns at once
  -- because the task is terminal, cancelled or skipped while it waited; Cancel completes
  -- a task that is not in flight; and executors, Cancel and NormalizeTask write to tasks.
  pub data Step : System → System → Type 0 where
    receives :
        (sys : System) (p : Ptr) (t : State)
        → receive sys.state ≡ some (p, t)
        → Step sys (record sys { state = t; executing = p ∷ sys.executing })
    succeeds :
        (sys : System) (before after : List Ptr) (p : Ptr) (fuel : ℕ) (r : Report) (t : State)
        → sys.executing ≡ before ++ p ∷ after
        → complete fuel p TaskStatus.success r sys.state ≡ some t
        → Step sys (record sys {
          state = t;
          executing = before ++ after;
          succeeded = (sys.state.heap p).id ∷ sys.succeeded;
        })
    ends :
        (sys : System) (before after : List Ptr) (p : Ptr) (status : TaskStatus) (fuel : ℕ)
        (r : Report) (t : State)
        → sys.executing ≡ before ++ p ∷ after
        → IsUnsuccessful status
        → complete fuel p status r sys.state ≡ some t
        → Step sys (record sys { state = t; executing = before ++ after; ended = p ∷ sys.ended })
    returns :
        (sys : System) (before after : List Ptr) (p : Ptr)
        → sys.executing ≡ before ++ p ∷ after
        → Task.is_terminal (sys.state.heap p).status ≡ true
        → Step sys (record sys { executing = before ++ after; ended = p ∷ sys.ended })
    cancels :
        (sys : System) (p : Ptr) (fuel : ℕ) (r : Report) (t : State)
        → complete fuel p TaskStatus.cancelled r sys.state ≡ some t
        → Step sys (record sys { state = t })
    writes :
        (sys : System) (t : State) → SameSchedule sys.state t → Step sys (record sys { state = t })

  -- The systems that a fresh scheduler reaches after one graph was submitted to it.
  pub data Reach (heap : Heap) (graph : List Ptr) (now : Time) : System → Type 0 where
    start : Reach heap graph now (record {
      state = submit now graph (new heap []);
      executing = [];
      succeeded = [];
      ended = [];
    })
    next : {s t : System} → Reach heap graph now s → Step s t → Reach heap graph now t
