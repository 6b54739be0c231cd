-- ===== src/Scheduler/Complete/Returns.antt =====
-- pkg/scheduler/scheduler.go: completeTask returns where no task is below itself.
use execgo.Base.{
  ℕ, suc, ◌≤◌, ◌<◌, String, ◌≡◌, refl, sym, subst, inl, inr, Option, some, List, [], ◌∷◌, arith, In,
  ℤ,
}
use execgo.Base.Dict.{Dict, get_or}
use execgo.Models.Runtime.{Raw, Time}
use execgo.Models.Task.{TaskStatus}
use execgo.Store.{Ptr}
use execgo.Executor.{ProgressEvent, ExecResult, GoError}
use execgo.Scheduler.State.{State}
use execgo.Scheduler.Complete.{
  ChildAction, skip, count_down, cascade_of, skip_child, skip_all, count_down_all,
  complete_children, finish_task, complete_task,
}
use execgo.Scheduler.Complete.Cascade.{cascade_skip_ends}
use execgo.Scheduler.Complete.Final.{skipped_heap}
use execgo.Scheduler.Complete.Outcome.{finish_task-id, finish_task-dependents}

-- A rank falls from a task to those that depend on it.
abbrev pub Falls : (String → ℕ) → Dict (List String) → Type 0
Falls rank dependents = (v w : String) → In w (get_or dependents v []) → rank w < rank v

module _ (rank : String → ℕ) (fuel : ℕ) (now : Time) where
  skip_child_ends :
      (parent reason c : String) (s : State)
      → Falls rank s.dependents
      → rank c < fuel
      → (t : State) × (skip_child fuel now parent reason c s ≡ some t)
        × (t.dependents ≡ s.dependents)
  unfolding skip_child
  skip_child_ends parent reason c s falls low =
      let (h, e) =
        cascade_skip_ends s.tasks s.dependents now rank falls fuel c
          (skipped_heap now parent reason c s) low in
      (
        record s {
          heap = h;
          metrics = record s.metrics { tasks_failed = suc s.metrics.tasks_failed };
        },
        rw (e, skip_child) refl,
        refl,
      )

  skip_all_ends :
      (parent reason : String) (cs : List String) (s : State)
      → Falls rank s.dependents
      → ((c : String) → In c cs → rank c < fuel)
      → (t : State) × (skip_all fuel now parent reason cs s ≡ some t)
  unfolding skip_all
  skip_all_ends parent reason [] s falls low = (s, refl)
  skip_all_ends parent reason (c ∷ cs) s falls low =
      let (t, e, same) = skip_child_ends parent reason c s falls (low c (inl refl)) in
      let (u, f) =
        skip_all_ends parent reason cs t (subst (Falls rank) (sym same) falls)
          (λ d m. low d (inr m)) in
      (u, rw (e, skip_all) f)

  complete_children_ends :
      (parent : String) (action : ChildAction) (s : State)
      → Falls rank s.dependents
      → rank parent ≤ fuel
      → (t : State) × (complete_children fuel now parent action (get_or s.dependents parent []) s
          ≡ some t)
  unfolding complete_children
  complete_children_ends parent (skip reason) s falls low =
      skip_all_ends parent reason (get_or s.dependents parent []) s falls
        (λ c m. omega (arith, falls parent c m))
  complete_children_ends parent count_down s falls low =
      (count_down_all (get_or s.dependents parent []) s, refl)

  -- If a rank falls from each task to its dependents, and the fuel is at least the rank of the
  -- task, then completeTask returns.
  pub complete_task_ends :
      (marshal : List ProgressEvent → Raw) (p : Ptr) (status : TaskStatus) (result : Raw)
      (run_err : Option GoError) (exec_result : Option ExecResult) (started finished : Time)
      (attempt : ℤ) (s : State)
      → Falls rank s.dependents
      → rank (s.heap p).id ≤ fuel
      → (t : State) × (complete_task marshal fuel now p status result run_err exec_result started
            finished attempt s
          ≡ some t)
  unfolding complete_task
  complete_task_ends marshal p status result run_err exec_result started finished attempt s falls
        low =
      let fs =
        finish_task marshal now p status result run_err exec_result started finished attempt s in
      let same =
        finish_task-id marshal now p status result run_err exec_result started finished attempt s in
      let deps =
        finish_task-dependents marshal now p status result run_err exec_result started finished
          attempt s in
      complete_children_ends (fs.heap p).id (cascade_of status) fs
        (subst (Falls rank) (sym deps) falls) (subst (λ i. rank i ≤ fuel) (sym same) low)
