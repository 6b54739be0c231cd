-- ===== src/Scheduler/Dispatch/Preserve.antt =====
-- What completeTask leaves alone: the queues and counts, unless the task succeeded.
use execgo.Base.{
  ℕ, suc, String, ◌≡◌, refl, ◌∙◌, subst, inl, inr, Option, some, List, [], ◌∷◌, Option-cases, ℤ,
}
use execgo.Models.Runtime.{Raw, Time}
use execgo.Models.Task.{TaskStatus}
use execgo.Store.{Ptr, update_status}
use execgo.Executor.{ProgressEvent, ExecResult, GoError}
use execgo.Scheduler.State.{State}
use execgo.Scheduler.Complete.{
  reason_text, cascade_of, clear_runtime_of, skip_child, skip_all, complete_children, cascade_skip,
  finish_task, complete_task,
}
use execgo.Scheduler.Complete.Effect.{clear_ind, cascade_skip_keeps}
use execgo.Scheduler.Dispatch.{
  SameSchedule, IsUnsuccessful, did_fail, was_cancelled, Report, complete,
}
use execgo.Scheduler.Complete.Ids.{
  HasId, HasId-IsKept, with_runtime-id, append_task_event-id, modify-id, update_status-id,
  with_progress-id,
}

SameSchedule-refl : (s : State) → SameSchedule s s
SameSchedule-refl s = record {
  same_ids = λ q. refl;
  same_tasks = refl;
  same_ready = refl;
  same_blocked = refl;
  same_counts = refl;
  same_dependents = refl;
}

SameSchedule-trans : {s t u : State} → SameSchedule s t → SameSchedule t u → SameSchedule s u
SameSchedule-trans a b = record {
  same_ids = λ q. b.same_ids q ∙ a.same_ids q;
  same_tasks = b.same_tasks ∙ a.same_tasks;
  same_ready = b.same_ready ∙ a.same_ready;
  same_blocked = b.same_blocked ∙ a.same_blocked;
  same_counts = b.same_counts ∙ a.same_counts;
  same_dependents = b.same_dependents ∙ a.same_dependents;
}

skip_child-Same :
    (fuel : ℕ) (now : Time) (parent reason child : String) (s t : State)
    → skip_child fuel now parent reason child s ≡ some t
    → SameSchedule s t
unfolding skip_child
skip_child-Same fuel now parent reason child s t e =
    let h₁ =
      (update_status child TaskStatus.skipped [] (reason_text parent reason) now s.tasks
        (clear_runtime_of child s.tasks s.heap)).0 in
    elim (Option-cases (cascade_skip s.tasks s.dependents now fuel child h₁)) [
      | inl f ↦ absurd (cc (rw (f, skip_child) at e))
      | inr (h', f) ↦
          let u = record s {
            heap = h';
            metrics = record s.metrics { tasks_failed = suc s.metrics.tasks_failed };
          } in
          let same : u ≡ t = cc (rw (f, skip_child) at e) in
          let ids : (q : Ptr) → (h' q).id ≡ (s.heap q).id = λ q.
            cascade_skip_keeps s.tasks s.dependents now (HasId (s.heap q).id) q fuel child h₁ h'
              (λ _ _ _. HasId-IsKept now (s.heap q).id) f
              (update_status-id s.tasks child _ TaskStatus.skipped [] now q _
                ∙ clear_ind s.tasks now (HasId (s.heap q).id) child q s.heap refl (λ _. refl)) in
          subst (SameSchedule s) same (record {
            same_ids = ids;
            same_tasks = refl;
            same_ready = refl;
            same_blocked = refl;
            same_counts = refl;
            same_dependents = refl;
          })
    ]

skip_all-Same :
    (fuel : ℕ) (now : Time) (parent reason : String) (cs : List String) (s t : State)
    → skip_all fuel now parent reason cs s ≡ some t
    → SameSchedule s t
unfolding skip_all
skip_all-Same fuel now parent reason [] s t e =
    let same : s ≡ t = cc e in subst (SameSchedule s) same (SameSchedule-refl s)
skip_all-Same fuel now parent reason (c ∷ cs) s t e =
    elim (Option-cases (skip_child fuel now parent reason c s)) [
      | inl f ↦ absurd (cc (rw (f, skip_all) at e))
      | inr (u, f) ↦
          SameSchedule-trans (skip_child-Same fuel now parent reason c s u f)
            (skip_all-Same fuel now parent reason cs u t (rw (f, skip_all) at e))
    ]

module _ (marshal : List ProgressEvent → Raw) where
  pub finish_task-Same :
      (now : Time) (p : Ptr) (status : TaskStatus) (result : Raw) (e : Option GoError)
      (r : Option ExecResult) (started finished : Time) (attempt : ℤ) (s : State)
      → SameSchedule s (finish_task marshal now p status result e r started finished attempt s)
  unfolding finish_task
  finish_task-Same now p status result e r started finished attempt s = record {
    same_ids = λ q.
        update_status-id s.tasks _ _ status result now q _
        ∙ modify-id p q _ _ (append_task_event-id _)
        ∙ modify-id p q _ _ (λ t. with_progress-id marshal r _ ∙ with_runtime-id _ t);
    same_tasks = refl;
    same_ready = refl;
    same_blocked = refl;
    same_counts = refl;
    same_dependents = refl;
  }

  -- A task that fails or is cancelled changes no queue and no count.
  pub unsuccessful-Same :
      (fuel : ℕ) (p : Ptr) (status : TaskStatus) (r : Report) (s t : State)
      → IsUnsuccessful status
      → complete marshal fuel p status r s ≡ some t
      → SameSchedule s t
  unfolding complete_task complete_children cascade_of
  unsuccessful-Same fuel p _ r s t did_fail e =
      SameSchedule-trans
        (finish_task-Same r.now p TaskStatus.failed r.result r.run_err r.exec_result r.started
          r.finished r.attempt s)
        (skip_all-Same fuel r.now _ "failed" _ _ t e)
  unsuccessful-Same fuel p _ r s t was_cancelled e =
      SameSchedule-trans
        (finish_task-Same r.now p TaskStatus.cancelled r.result r.run_err r.exec_result r.started
          r.finished r.attempt s)
        (skip_all-Same fuel r.now _ "cancelled" _ _ t e)
