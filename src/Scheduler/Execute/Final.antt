-- ===== src/Scheduler/Execute/Final.antt =====
-- pkg/scheduler/scheduler.go: the status that executeTask leaves.
use execgo.Base.{
  ℕ, ◌-◌, String, ◌≡◌, refl, ◌∙◌, subst, inl, inr, true, Option, none, some, List, [], Bool-cases,
  Option-cases, pos, pred_ℤ,
}
use execgo.Models.Runtime.{Raw, Time}
use execgo.Models.Task
use execgo.Models.Task.{Task, TaskStatus}
use execgo.Store.{Ptr, modify}
use execgo.Executor
use execgo.Executor.{ProgressEvent, ExecResult, GoError, Executor, Registry, normalize_task}
use execgo.Scheduler.State.{State}
use execgo.Scheduler.Runtime.{result_output}
use execgo.Scheduler.Execute.{
  add_running, max_attempts, Attempt, Outcome, attempt_loop, final_status, mark_running,
  finish_execution, execute_task,
}
use execgo.Scheduler.Complete.Ids.{modify-id, update_status-id}
use execgo.Scheduler.Complete.Final.{IsSettled}
use execgo.Scheduler.Complete.Outcome.{complete_task-IsSettled}
use execgo.Scheduler.Execute.Stored.{
  IsStored, IsFair, IsStored-of_ids, normalize_task-id, attempt_loop_keeps, IsStored-IsNarrow,
}

IsTerminal_of_settled :
    (status : TaskStatus) (t : Task)
    → Task.is_terminal status ≡ true
    → IsSettled status t
    → Task.is_terminal t.status ≡ true
unfolding Task.is_terminal
IsTerminal_of_settled status t final (inl e) = rw e final
IsTerminal_of_settled status t final (inr e) = rw e refl

final_status-terminal : (e : Option GoError) → Task.is_terminal (final_status e) ≡ true
unfolding Task.is_terminal
final_status-terminal none = refl
final_status-terminal (some e) = elim (Bool-cases e.is_canceled) [
  | inl f ↦ rw f refl
  | inr f ↦ rw f refl
]

module _ (marshal : List ProgressEvent → Raw) (p : Ptr) (started : Time) where
  mark_running-IsStored :
      (s : State) → IsStored p s → IsStored p (mark_running marshal p started started s)
  unfolding mark_running
  mark_running-IsStored s here =
      IsStored-of_ids p s (mark_running marshal p started started s)
        (update_status-id s.tasks _ "" TaskStatus.running [] started p _
          ∙ modify-id p p _ s.heap (λ _. refl))
        refl here

  module _ (trim_space : String → String) (registry : Registry) (fuel : ℕ) (finished : Time) where
    finish_execution-final :
        (o : Outcome) (s' : State)
        → IsStored p o.state
        → finish_execution marshal p started trim_space registry fuel finished o ≡ some s'
        → Task.is_terminal (s'.heap p).status ≡ true
    unfolding finish_execution
    finish_execution-final o s' here e =
        IsTerminal_of_settled (final_status o.error) (s'.heap p) (final_status-terminal o.error) (
          complete_task-IsSettled marshal finished p (final_status o.error) (result_output o.result)
            o.error o.result started finished (pos o.used) (add_running pred_ℤ o.state) fuel s' here
            e)

    -- If the task is stored under its id at the start, other goroutines keep it so, and
    -- executeTask returns, then the status of the task is terminal.
    pub execute_task-terminal :
        (outside : ℕ → Attempt) (s s' : State)
        → ((k : ℕ) → IsFair (IsStored p) (outside k))
        → IsStored p s
        → execute_task marshal p started trim_space registry fuel finished outside s ≡ some s'
        → Task.is_terminal (s'.heap p).status ≡ true
    unfolding execute_task Task.is_terminal
    execute_task-terminal outside s s' fair here e =
        let s₁ = record s { heap = modify p (normalize_task trim_space) s.heap } in
        let here₁ : IsStored p s₁ =
          IsStored-of_ids p s s₁ (modify-id p p _ s.heap (normalize_task-id trim_space)) refl
            here in
        elim (Bool-cases (Task.is_terminal (s.heap p).status)) [
          | inl f ↦
              let same : s ≡ s' = cc (rw (f, execute_task) at e) in
              subst (λ (u : State). Task.is_terminal (u.heap p).status ≡ true) same f
          | inr f ↦ elim (Option-cases (Executor.get (s₁.heap p).type registry)) [
            | inl g ↦ IsTerminal_of_settled TaskStatus.failed (s'.heap p) refl (
                complete_task-IsSettled marshal finished p TaskStatus.failed [] _ none 0 finished
                  (pos 0) s₁ fuel s' here₁ (rw (g, execute_task) at (rw (f, execute_task) at e)))
            | inr (exec, g) ↦
                let run =
                  attempt_loop marshal p started exec (max_attempts (s₁.heap p).retry - 1) 1 outside
                    [] (mark_running marshal p started started s₁) in
                let e' = rw (g, execute_task) at (rw (f, execute_task) at e) in
                elim (Option-cases run) [
                  | inl k ↦ absurd (cc (rw (k, execute_task) at e'))
                  | inr (o, k) ↦
                      finish_execution-final o s'
                        (attempt_loop_keeps marshal p started (IsStored p) (IsStored-IsNarrow p)
                          exec _ 1 outside [] _ o fair k (mark_running-IsStored s₁ here₁))
                        (rw (k, execute_task) at e')
                ]
          ]
        ]
