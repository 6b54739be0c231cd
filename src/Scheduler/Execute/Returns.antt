-- ===== src/Scheduler/Execute/Returns.antt =====
-- pkg/scheduler/scheduler.go: executeTask returns.
use execgo.Base.{
  ℕ, ◌-◌, ◌≤◌, String, ◌≡◌, refl, sym, ◌∙◌, subst, inl, inr, none, some, List, [], Bool-cases,
  Option-cases, pos, pred_ℤ,
}
use Prim.Native.String.{◌++◌ as text_append}
use execgo.Models.Runtime.{Raw, Time}
use execgo.Models.Task
use execgo.Models.Task.{Task, TaskStatus}
use execgo.Store.{Ptr, modify}
use execgo.Executor
use execgo.Executor.{ProgressEvent, ExecResult, GoError, Executor, Registry, normalize_task}
use execgo.Scheduler.State.{State}
use execgo.Scheduler.Runtime.{result_output}
use execgo.Scheduler.Execute.{
  plain_error, quoted, add_running, max_attempts, Attempt, Outcome, final_status, mark_running,
  finish_execution, execute_task,
}
use execgo.Scheduler.Complete.Ids.{modify-id, update_status-id}
use execgo.Scheduler.Complete.Returns.{Falls, complete_task_ends}
use execgo.Scheduler.Execute.Wait.{IsWoken, attempt_loop_ends}
use execgo.Scheduler.Execute.Stored.{IsFair, IsNarrow, normalize_task-id, attempt_loop_keeps}

-- A rank falls along the dependents, and `fuel` is at least the rank of the task.
abbrev pub IsRanked : (String → ℕ) → ℕ → Ptr → State → Type 0
IsRanked rank fuel p s = Falls rank s.dependents × (rank (s.heap p).id ≤ fuel)

IsRanked-IsNarrow : (rank : String → ℕ) (fuel : ℕ) (p : Ptr) → IsNarrow p (IsRanked rank fuel p)
IsRanked-IsNarrow rank fuel p s t ids tasks deps (falls, low) =
    (subst (Falls rank) (sym deps) falls, subst (λ i. rank i ≤ fuel) (sym ids) low)

module _ (marshal : List ProgressEvent → Raw) (p : Ptr) (started : Time)
    (trim_space : String → String) (registry : Registry) (fuel : ℕ) (finished : Time)
    (rank : String → ℕ) where
  mark_running-IsRanked :
      (s : State)
      → IsRanked rank fuel p s
      → IsRanked rank fuel p (mark_running marshal p started started s)
  unfolding mark_running
  mark_running-IsRanked s low =
      IsRanked-IsNarrow rank fuel p s (mark_running marshal p started started s)
        (update_status-id s.tasks _ "" TaskStatus.running [] started p _
          ∙ modify-id p p _ s.heap (λ _. refl))
        refl refl low

  finish_execution_ends :
      (o : Outcome)
      → IsRanked rank fuel p o.state
      → (t : State) × (finish_execution marshal p started trim_space registry fuel finished o
          ≡ some t)
  unfolding finish_execution
  finish_execution_ends o (falls, low) =
      complete_task_ends rank fuel finished marshal p (final_status o.error)
        (result_output o.result) o.error o.result started finished (pos o.used)
        (add_running pred_ℤ o.state) falls low

  -- If every attempt has a wakeup that ends its wait, and a rank falls along the dependents, with
  -- the rank of the task at most the fuel, which other goroutines keep so, then executeTask
  -- returns.
  pub execute_task_ends :
      (outside : ℕ → Attempt) (s : State)
      → ((k : ℕ) → IsWoken marshal p started (outside k))
      → ((k : ℕ) → IsFair (IsRanked rank fuel p) (outside k))
      → IsRanked rank fuel p s
      → (t : State) × (execute_task marshal p started trim_space registry fuel finished outside s
          ≡ some t)
  unfolding execute_task
  execute_task_ends outside s woken fair low =
      let s₁ = record s { heap = modify p (normalize_task trim_space) s.heap } in
      let low₁ : IsRanked rank fuel p s₁ =
        IsRanked-IsNarrow rank fuel p s s₁ (modify-id p p _ s.heap (normalize_task-id trim_space))
          refl refl low in
      elim (Bool-cases (Task.is_terminal (s.heap p).status)) [
        | inl f ↦ (s, rw (f, execute_task) refl)
        | inr f ↦ elim (Option-cases (Executor.get (s₁.heap p).type registry)) [
          | inl g ↦
              let rest =
                complete_task_ends rank fuel finished marshal p TaskStatus.failed []
                  (some (
                    plain_error
                      (text_append "no executor registered for type " (quoted (s₁.heap p).type))))
                  none 0 finished (pos 0) s₁ low₁.0 low₁.1 in
              (rest.0, rw (f, execute_task) (rw (g, execute_task) rest.1))
          | inr (exec, g) ↦
              let left = max_attempts (s₁.heap p).retry - 1 in
              let s₂ = mark_running marshal p started started s₁ in
              let (o, k) = attempt_loop_ends marshal p started exec left 1 outside [] s₂ woken in
              let rest = finish_execution_ends o (
                attempt_loop_keeps marshal p started (IsRanked rank fuel p)
                  (IsRanked-IsNarrow rank fuel p) exec left 1 outside [] s₂ o fair k
                  (mark_running-IsRanked s₁ low₁)) in
              (rest.0, rw (f, execute_task) (rw (g, execute_task) (rw (k, execute_task) rest.1)))
        ]
      ]
