-- ===== src/Scheduler/Complete/Outcome.antt =====
-- pkg/scheduler/scheduler.go: the tasks after completeTask.
use execgo.Base.{
  ℕ, String, ◌≡◌, refl, sym, ap, ◌∙◌, subst, ◌⊎◌, inl, inr, Option, some, List, [], ℤ,
}
use execgo.Base.Dict.{lookup, get_or}
use execgo.Models.Runtime.{Raw, Time}
use execgo.Models.Task.{Task, TaskStatus}
use execgo.Store.{Ptr, Heap, modify}
use execgo.Executor.{ProgressEvent, ExecResult, GoError}
use execgo.Scheduler.State.{State}
use execgo.Scheduler.Runtime.{build_runtime_result, append_task_event, terminal_task_event}
use execgo.Scheduler.Complete.{
  ChildAction, skip, count_down, cascade_of, skip_all, count_down_all, complete_children,
  with_runtime, with_progress, finish_task, complete_task,
}
use execgo.Scheduler.Complete.Cascade.{Below, Below-first, IsSkipped}
use execgo.Scheduler.Complete.Effect.{IsKept, update_status-status}
use execgo.Scheduler.Complete.Ids.{
  update_status-id, modify-id, append_task_event-id, with_runtime-id, with_progress-id,
}
use execgo.Scheduler.Complete.Final.{
  IsSettled, IsSettled-IsKept, count_down_all-heap, skip_all_keeps, skip_all-IsSkipped,
}

cascade_of-skip :
    (status : TaskStatus)
    → (status ≡ TaskStatus.failed) ⊎ (status ≡ TaskStatus.cancelled)
    → (reason : String) × (cascade_of status ≡ skip reason)
unfolding cascade_of
cascade_of-skip status (inl e) = ("failed", rw e refl)
cascade_of-skip status (inr e) = ("cancelled", rw e refl)

module _ (marshal : List ProgressEvent → Raw) (now : Time) (p : Ptr) (status : TaskStatus)
    (result : Raw) (run_err : Option GoError) (exec_result : Option ExecResult)
    (started finished : Time) (attempt : ℤ) (s : State) where
  -- The state after the writes to the task itself.
  abbrev pub finished_state : State
  finished_state =
      finish_task marshal now p status result run_err exec_result started finished attempt s

  finish_task-status :
      lookup (s.heap p).id s.tasks ≡ some p → (finished_state.heap p).status ≡ status
  unfolding finish_task
  finish_task-status here =
      let runtime = build_runtime_result status exec_result run_err started finished attempt in
      let h = modify p (λ t. with_progress marshal exec_result (with_runtime runtime t)) s.heap in
      let h' =
        modify p (append_task_event (terminal_task_event (h p) status runtime finished now)) h in
      let same : (h' p).id ≡ (s.heap p).id =
        modify-id p p _ h (append_task_event-id _)
        ∙ modify-id p p _ s.heap
            (λ t. with_progress-id marshal exec_result _ ∙ with_runtime-id _ t) in
      update_status-status s.tasks s.dependents now p (h' p).id _ status result h'
        (subst (λ i. lookup i s.tasks ≡ some p) (sym same) here)

  pub finish_task-id : (finished_state.heap p).id ≡ (s.heap p).id
  unfolding finish_task
  finish_task-id =
      update_status-id s.tasks _ _ status result now p _
      ∙ modify-id p p _ _ (append_task_event-id _)
      ∙ modify-id p p _ s.heap (λ t. with_progress-id marshal exec_result _ ∙ with_runtime-id _ t)

  pub finish_task-dependents : finished_state.dependents ≡ s.dependents
  unfolding finish_task
  finish_task-dependents = refl

  finish_task-tasks : finished_state.tasks ≡ s.tasks
  unfolding finish_task
  finish_task-tasks = refl

  -- What the loop over the children keeps of any task.
  complete_children_keeps :
      (P : Task → Type 0) (q : Ptr) (fuel : ℕ) (parent : String) (action : ChildAction)
      (cs : List String) (t u : State)
      → IsKept now P
      → complete_children fuel now parent action cs t ≡ some u
      → P (t.heap q)
      → P (u.heap q)
  unfolding complete_children
  complete_children_keeps P q fuel parent (skip reason) cs t u kept e x =
      skip_all_keeps now q P fuel parent reason cs t u kept e x
  complete_children_keeps P q fuel parent count_down cs t u kept e x =
      let same : count_down_all cs t ≡ u = cc e in
      subst (λ (v : State). P (v.heap q)) same
        (subst (λ (g : Heap). P (g q)) (sym (count_down_all-heap cs t)) x)

  -- If the task is stored under its id, it has the status that it was completed with when
  -- completeTask returns, or it is skipped.
  pub complete_task-IsSettled :
      (fuel : ℕ) (s' : State)
      → lookup (s.heap p).id s.tasks ≡ some p
      → complete_task marshal fuel now p status result run_err exec_result started finished attempt
          s
        ≡ some s'
      → IsSettled status (s'.heap p)
  unfolding complete_task
  complete_task-IsSettled fuel s' here e =
      complete_children_keeps (IsSettled status) p fuel _ (cascade_of status) _ finished_state s'
        (IsSettled-IsKept status now) e (inl (finish_task-status here))

  -- When completeTask returns for a task that failed or was cancelled, a stored task below it is
  -- skipped, and has neither a runtime nor a run status.
  pub complete_task-IsSkipped :
      (fuel : ℕ) (v : String) (q : Ptr) (s' : State)
      → (status ≡ TaskStatus.failed) ⊎ (status ≡ TaskStatus.cancelled)
      → Below s.dependents (s.heap p).id v
      → lookup v s.tasks ≡ some q
      → complete_task marshal fuel now p status result run_err exec_result started finished attempt
          s
        ≡ some s'
      → IsSkipped (s'.heap q)
  unfolding complete_task complete_children
  complete_task-IsSkipped fuel v q s' bad below here e =
      let (reason, f) = cascade_of-skip status bad in
      let fs = finished_state in
      let children : skip_all fuel now (fs.heap p).id reason
            (get_or fs.dependents (fs.heap p).id []) fs
          ≡ some s' =
        sym (
          ap
            (λ a.
              complete_children fuel now (fs.heap p).id a (get_or fs.dependents (fs.heap p).id [])
                fs)
            f)
        ∙ e in
      let below' : Below fs.dependents (fs.heap p).id v =
        subst (λ i. Below fs.dependents i v) (sym finish_task-id)
          (subst (λ d. Below d (s.heap p).id v) (sym finish_task-dependents) below) in
      let (c, m, rest) = Below-first below' in
      skip_all-IsSkipped now q fuel _ reason v c _ fs s' m
        (elim rest [ inl x ↦ inl (sym x) | inr b ↦ inr b ])
        (subst (λ m. lookup v m ≡ some q) (sym finish_task-tasks) here) children
