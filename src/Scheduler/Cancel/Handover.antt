-- ===== src/Scheduler/Cancel/Handover.antt =====
-- pkg/scheduler/scheduler.go: what Cancel leaves, and what executeTask makes of it.
use execgo.Base.{
  ℕ, String, ◌≡◌, refl, sym, ap, ◌∙◌, subst, inl, inr, true, false, Option, none, some, List, [],
  arith, eq_iff, Option-cases, pos,
}
use execgo.Base.Dict.{Dict, lookup}
use execgo.Models.Runtime.{Raw, Time, RuntimeStatus}
use execgo.Models.Task
use execgo.Models.Task.{Task, TaskStatus}
use execgo.Store.{Ptr, Heap, modify}
use execgo.Executor.{ProgressEvent, ExecResult, GoError}
use execgo.Scheduler.State.{
  State, InFlightTask, in_flight_entry, set_in_flight, in_flight_cancel_result,
}
use execgo.Scheduler.Runtime.{runtime_result_error, result_output}
use execgo.Scheduler.Complete.{complete_task}
use execgo.Scheduler.Execute.{take_cancel_result, with_attempt, final_status}
use execgo.Base.Dict.{insert, lookup-insert}
use execgo.Models.Runtime.{RuntimeEvent, RuntimeEventType}
use execgo.Scheduler.Runtime.{append_task_event}
use execgo.Scheduler.State.{set_in_flight_cancel_result}
use execgo.Scheduler.Complete.Cascade.{Below, IsSkipped}
use execgo.Scheduler.Complete.Effect.{update_status-status}
use execgo.Scheduler.Complete.Ids.{update_status-id, modify-id, append_task_event-id}
use execgo.Scheduler.Complete.Final.{IsSettled}
use execgo.Scheduler.Complete.Outcome.{complete_task-IsSettled, complete_task-IsSkipped}
use execgo.Scheduler.Execute.Stored.{IsStored-of_ids}
use execgo.Scheduler.Cancel.{
  Reply, canceled_error, cancel_result_of, cancel_context, mark_cancelling, cancel_in_flight,
  cancelled_result, cancel_waiting, cancel,
}

-- What a cancelled attempt makes of the status that the canceler reported.
pub outcome_of : RuntimeStatus → TaskStatus
outcome_of RuntimeStatus.cancelled = TaskStatus.cancelled
outcome_of RuntimeStatus.failed = TaskStatus.failed
outcome_of _ = TaskStatus.success

runtime_result_error-outcome :
    (r : ExecResult) → final_status (runtime_result_error r) ≡ outcome_of r.status
unfolding runtime_result_error outcome_of
runtime_result_error-outcome r = ground arith

take_cancel_result-outcome :
    (marshal : List ProgressEvent → Raw) (started : Time) (p : Ptr) (attempt : ℕ) (r : ExecResult)
    (x : Option ExecResult) (e : GoError) (s : State)
    → in_flight_cancel_result (s.heap p).id s ≡ some r
    → e.is_canceled ≡ true
    → final_status (take_cancel_result marshal p started attempt x (some e) s).1
      ≡ outcome_of r.status
unfolding take_cancel_result
take_cancel_result-outcome marshal started p attempt r x e s left cancelled =
    rw (left, take_cancel_result)
      (rw cancelled (runtime_result_error-outcome (with_attempt attempt r)))

mark_cancelling-id :
    (entry : InFlightTask) (r : ExecResult) (now : Time) (t : Task)
    → (mark_cancelling entry r now t).id ≡ t.id
unfolding mark_cancelling
mark_cancelling-id entry r now t = append_task_event-id _ t

lookup-insert_self :
    (id : String) (entry : InFlightTask) (m : Dict InFlightTask)
    → lookup id (insert id entry m) ≡ some entry
lookup-insert_self id entry m = lookup-insert id id entry m ∙ ground (arith, eq_iff id id)

module _ (p : Ptr) (task_id : String) (entry : InFlightTask) (s : State)
    (named : (s.heap p).id ≡ task_id) (stored : lookup task_id s.tasks ≡ some p)
    (running : lookup task_id s.in_flight ≡ some entry) where
  cancel_in_flight-entry :
      (now : Time)
      → let (t, r) = cancel_in_flight now p entry task_id s in
        lookup task_id t.in_flight
        ≡ some (record entry { cancelled = true; cancel_result = some r })
  unfolding cancel_in_flight set_in_flight_cancel_result cancel_context in_flight_entry
      set_in_flight
  cancel_in_flight-entry now =
      let r = cancel_result_of entry (s.heap p) in
      let s₁ = set_in_flight_cancel_result task_id r s in
      let left : s₁.in_flight
          ≡ insert task_id (record entry { cancel_result = some r }) s.in_flight =
        rw (running, set_in_flight_cancel_result) refl in
      let found : in_flight_entry task_id s₁ ≡ some (record entry { cancel_result = some r }) =
        ap (lookup task_id) left ∙ lookup-insert_self task_id _ s.in_flight in
      rw (found, cancel_context) (lookup-insert_self task_id _ s₁.in_flight)

  cancel_in_flight-Same :
      (r : ExecResult)
      → let t = cancel_context task_id (set_in_flight_cancel_result task_id r s) in
        (t.heap ≡ s.heap) × (t.tasks ≡ s.tasks)
  unfolding set_in_flight_cancel_result cancel_context in_flight_entry set_in_flight
  cancel_in_flight-Same r =
      let found =
        lookup-insert_self task_id (record entry { cancel_result = some r }) s.in_flight in
      rw (running, set_in_flight_cancel_result) (rw (found, cancel_context) (refl, refl))

  cancel_in_flight-status :
      (now : Time)
      → ((cancel_in_flight now p entry task_id s).0.heap p).status ≡ TaskStatus.cancelling
  unfolding cancel_in_flight
  cancel_in_flight-status now =
      let r = cancel_result_of entry (s.heap p) in
      let s' = cancel_context task_id (set_in_flight_cancel_result task_id r s) in
      let (heaps, tasks) = cancel_in_flight-Same r in
      let h = modify p (mark_cancelling entry r now) s'.heap in
      let here : lookup (h p).id s'.tasks ≡ some p =
        rw
          (
            modify-id p p (mark_cancelling entry r now) s'.heap (mark_cancelling-id entry r now)
                ∙ ap (λ (g : Heap). (g p).id) heaps
                ∙ named,
            tasks,
          )
          stored in
      update_status-status s'.tasks s'.dependents now p (h p).id _ TaskStatus.cancelling
        (result_output (some r)) h here

  in_flight_cancel_result-found :
      (t : State) (held : InFlightTask)
      → lookup task_id t.in_flight ≡ some held
      → in_flight_cancel_result task_id t ≡ held.cancel_result
  unfolding in_flight_cancel_result
  in_flight_cancel_result-found t held found = rw (found, in_flight_cancel_result) refl

  cancel_in_flight-id :
      (now : Time) → ((cancel_in_flight now p entry task_id s).0.heap p).id ≡ task_id
  unfolding cancel_in_flight
  cancel_in_flight-id now =
      let r = cancel_result_of entry (s.heap p) in
      let s' = cancel_context task_id (set_in_flight_cancel_result task_id r s) in
      let (heaps, tasks) = cancel_in_flight-Same r in
      update_status-id s'.tasks _ _ TaskStatus.cancelling (result_output (some r)) now p _
      ∙ modify-id p p (mark_cancelling entry r now) s'.heap (mark_cancelling-id entry r now)
      ∙ ap (λ (g : Heap). (g p).id) heaps
      ∙ named

  -- For a task that is stored, not terminal and in flight: Cancel returns a result, the task is
  -- cancelling, and its entry is cancelled and holds the result. An attempt that then ends with a
  -- cancellation gives the status that the status of the result stands for: cancelled, failed,
  -- and success for every other.
  pub cancel_handover :
      (marshal : List ProgressEvent → Raw) (fuel : ℕ) (now started : Time) (attempt : ℕ)
      (x : Option ExecResult) (e : GoError)
      → Task.is_terminal (s.heap p).status ≡ false
      → e.is_canceled ≡ true
      → (t : State) × (r : ExecResult) × (cancel marshal fuel now task_id s
          ≡ some (t, (some r, true, none)))
        × ((t.heap p).status ≡ TaskStatus.cancelling)
        × (lookup task_id t.in_flight
            ≡ some (record entry { cancelled = true; cancel_result = some r }))
        × (final_status (take_cancel_result marshal p started attempt x (some e) t).1
            ≡ outcome_of r.status)
  unfolding cancel in_flight_entry in_flight_cancel_result
  cancel_handover marshal fuel now started attempt x e live cancelled =
      let (t, r) = cancel_in_flight now p entry task_id s in
      let left = cancel_in_flight-entry now in
      let same = cancel_in_flight-id now in
      (
        t,
        r,
        rw (stored, live, running, cancel) refl,
        cancel_in_flight-status now,
        left,
        take_cancel_result-outcome marshal started p attempt r x e t
            (subst (λ i. in_flight_cancel_result i t ≡ some r) (sym same)
              (in_flight_cancel_result-found t _ left))
            cancelled,
      )

-- The event that Cancel appends before it completes the task.
abbrev cancelled_event : Time → Task → RuntimeEvent
cancelled_event now t = record {
  type = RuntimeEventType.cancelled;
  task_id = t.id;
  handle_id = t.handle_id;
  timestamp = now;
  message = "task cancelled before execution";
  details = [];
}

abbrev with_event : Time → Ptr → State → State
with_event now p s = record s {
  heap = modify p (append_task_event (cancelled_event now (s.heap p))) s.heap;
}

-- Every stored task below `p` in the state `s` is skipped in `t`.
abbrev pub AllSkipped : Ptr → State → State → Type 0
AllSkipped p s t =
    (v : String) (q : Ptr)
    → Below s.dependents (s.heap p).id v
    → lookup v s.tasks ≡ some q
    → IsSkipped (t.heap q)

module _ (marshal : List ProgressEvent → Raw) (fuel : ℕ) (now : Time) (p : Ptr) (s t : State)
    (reply : Reply) (stored : lookup (s.heap p).id s.tasks ≡ some p)
    (live : Task.is_terminal (s.heap p).status ≡ false)
    (waiting : lookup (s.heap p).id s.in_flight ≡ none)
    (returned : cancel marshal fuel now (s.heap p).id s ≡ some (t, reply)) where
  abbrev pub before_result : ExecResult
  before_result =
      cancelled_result "task cancelled before execution" (s.heap p).id (s.heap p).handle_id

  completed :
      (complete_task marshal fuel now p TaskStatus.cancelled []
          (some canceled_error)
          (some before_result)
          0
          now
          (pos 0)
          (with_event now p s)
        ≡ some t)
      × (reply ≡ (some before_result, true, none))
  unfolding cancel in_flight_entry cancel_waiting
  completed =
      let run =
        complete_task marshal fuel now p TaskStatus.cancelled [] (some canceled_error)
          (some before_result) 0 now (pos 0) (with_event now p s) in
      elim (Option-cases run) [
        | inl e ↦
            absurd (cc (rw (e, cancel_waiting) at (rw (stored, live, waiting, cancel) at returned)))
        | inr (u, e) ↦
            let both = rw (e, cancel_waiting) at (rw (stored, live, waiting, cancel) at returned) in
            let same : u ≡ t = cc both in
            let answer : reply ≡ (some before_result, true, none) = cc both in
            (e ∙ ap some same, answer)
      ]

  -- When Cancel returns for a task that is stored under its id, neither terminal nor in flight:
  -- the answer is that it was found, with the result that it was cancelled before execution and
  -- no error; it is cancelled or skipped, and every stored task below it is skipped.
  pub cancel_before_start :
      (reply ≡ (some before_result, true, none))
      × IsSettled TaskStatus.cancelled (t.heap p)
      × AllSkipped p s t
  cancel_before_start =
      let (run, answer) = completed in
      let same : ((with_event now p s).heap p).id ≡ (s.heap p).id =
        modify-id p p _ s.heap (append_task_event-id _) in
      (
        answer,
        complete_task-IsSettled marshal now p TaskStatus.cancelled [] (some canceled_error)
            (some before_result) 0 now (pos 0) (with_event now p s) fuel t
            (IsStored-of_ids p s (with_event now p s) same refl stored) run,
        λ v q below here.
            complete_task-IsSkipped marshal now p TaskStatus.cancelled [] (some canceled_error)
              (some before_result) 0 now (pos 0) (with_event now p s) fuel v q t (inr refl)
              (subst (λ i. Below s.dependents i v) (sym same) below) here run,
      )
