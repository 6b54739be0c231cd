-- ===== src/Scheduler/Execute/Stored.antt =====
-- pkg/scheduler/scheduler.go: what executeTask keeps of the store and of the dependents.
use execgo.Base.{
  ℕ, zero, suc, String, ◌≡◌, refl, ap, ◌∙◌, subst, inl, inr, false, Option, none, some, List, [],
  ◌∷◌, arith, ◌==◌, Bool-cases, Option-cases, In, ℤ, pos,
}
use mathlib.Core.Option
use execgo.Base.Dict.{lookup}
use execgo.Models.Runtime.{Raw, Time, is_terminal}
use execgo.Models.Task.{Task, TaskStatus}
use execgo.Store.{Ptr, Heap, modify}
use execgo.Executor.{ProgressEvent, ExecResult, GoError, Executor, normalize_task}
use execgo.Scheduler.State.{
  State, InFlightTask, set_in_flight, clear_in_flight, update_in_flight_handle,
}
use execgo.Scheduler.Runtime.{build_runtime_result}
use execgo.Scheduler.Complete.{with_runtime, with_progress}
use execgo.Scheduler.Execute.{
  Wakeup, Attempt, wait_refused, apply_in_flight_runtime, await_loop, await_runtime_result, settle,
  run_attempt, stops, Outcome, outcome, with_attempt, attempt_loop,
}
use execgo.Scheduler.Execute.Wait.{event-cases}
use execgo.Scheduler.Complete.Ids.{modify-id, with_runtime-id, with_progress-id}

-- The store leads from the id of the task at `p` to `p`.
abbrev pub IsStored : Ptr → State → Type 0
IsStored p s = lookup (s.heap p).id s.tasks ≡ some p

pub IsStored-of_ids :
    (p : Ptr) (s t : State)
    → (t.heap p).id ≡ (s.heap p).id
    → t.tasks ≡ s.tasks
    → IsStored p s
    → IsStored p t
IsStored-of_ids p s t ids tasks here = rw (ids, tasks) here

-- What other goroutines do while the attempt runs keeps `I`.
pub record IsFair (I : State → Type 0) (a : Attempt) : Type 0 where
  pub meanwhile : (s : State) → I s → I (a.others s)
  pub woken : (w : Wakeup) (s : State) → In w a.wakeups → I s → I (w.others s)

-- `I` looks at the id of the task, the store and the dependents alone.
abbrev pub IsNarrow : Ptr → (State → Type 0) → Type 0
IsNarrow p I =
    (s t : State)
    → (t.heap p).id ≡ (s.heap p).id
    → t.tasks ≡ s.tasks
    → t.dependents ≡ s.dependents
    → I s
    → I t

pub IsStored-IsNarrow : (p : Ptr) → IsNarrow p (IsStored p)
IsStored-IsNarrow p s t ids tasks deps here = IsStored-of_ids p s t ids tasks here

update_in_flight_handle-Same :
    (id handle : String) (s : State)
    → ((update_in_flight_handle id handle s).heap ≡ s.heap)
      × ((update_in_flight_handle id handle s).tasks ≡ s.tasks)
      × ((update_in_flight_handle id handle s).dependents ≡ s.dependents)
unfolding update_in_flight_handle
update_in_flight_handle-Same id handle s = elim (Bool-cases (handle == "")) [
  | inl e ↦ rw e (refl, refl, refl)
  | inr e ↦ elim (Option-cases (lookup id s.in_flight)) [
    | inl f ↦ rw (e, f) (refl, refl, refl)
    | inr (x, f) ↦ rw (e, f) (refl, refl, refl)
  ]
]

pub normalize_task-id :
    (trim_space : String → String) (t : Task) → (normalize_task trim_space t).id ≡ t.id
unfolding normalize_task
normalize_task-id trim_space t = ground arith

module _ (marshal : List ProgressEvent → Raw) (p : Ptr) (started : Time) (I : State → Type 0)
    (narrow : IsNarrow p I) where
  pub apply_in_flight_runtime_keeps :
      (r : ExecResult) (attempt : ℕ) (s : State)
      → I s
      → I (apply_in_flight_runtime marshal p started r attempt s)
  unfolding apply_in_flight_runtime
  apply_in_flight_runtime_keeps r attempt s here =
      let runtime = build_runtime_result TaskStatus.running (some r) none started 0 (pos attempt) in
      let h = modify p (λ t. with_progress marshal (some r) (with_runtime runtime t)) s.heap in
      let (heaps, tasks, deps) =
        update_in_flight_handle-Same (h p).id (h p).handle_id (record s { heap = h }) in
      narrow s (apply_in_flight_runtime marshal p started r attempt s)
        (ap (λ (g : Heap). (g p).id) heaps
          ∙ modify-id p p _ s.heap (λ t. with_progress-id marshal (some r) _ ∙ with_runtime-id _ t))
        tasks deps here

  abbrev AttemptResult : Type 0
  AttemptResult = State × Option ExecResult × Option GoError

  keeps_result : (x out : AttemptResult) → some x ≡ some out → I x.0 → I out.0
  keeps_result x out eq here =
      let same : x ≡ out = cc eq in subst (λ (y : AttemptResult). I y.0) same here

  await_loop_keeps :
      (handle : String) (attempt : ℕ) (ws : List Wakeup) (current : ExecResult) (s : State)
      (out : AttemptResult)
      → ((w : Wakeup) (u : State) → In w ws → I u → I (w.others u))
      → await_loop marshal p started handle attempt ws current s ≡ some out
      → I s
      → I out.0
  unfolding await_loop
  await_loop_keeps handle attempt [] current s out fair eq here =
      let here' = apply_in_flight_runtime_keeps current attempt s here in
      elim (Bool-cases (is_terminal current.status)) [
        | inl f ↦ keeps_result _ out (rw (f, await_loop) at eq) here'
        | inr f ↦ absurd (cc (rw (f, await_loop) at eq))
      ]
  await_loop_keeps handle attempt (w ∷ ws) current s out fair eq here =
      let s' = apply_in_flight_runtime marshal p started current attempt s in
      let here' : I s' = apply_in_flight_runtime_keeps current attempt s here in
      let next : I (w.others s') = fair w s' (inl refl) here' in
      elim (Bool-cases (is_terminal current.status)) [
        | inl f ↦ keeps_result _ out (rw (f, await_loop) at eq) here'
        | inr f ↦ elim (event-cases w.event) [
          | inl (x, e) ↦ keeps_result _ out (rw (f, e, await_loop) at eq) next
          | inr (inl e) ↦ keeps_result _ out (rw (f, e, await_loop) at eq) next
          | inr (inr (r, e)) ↦
              await_loop_keeps handle attempt ws (with_attempt attempt r) (w.others s') out
                (λ v u m. fair v u (inr m)) (rw (f, e, await_loop) at eq) next
        ]
      ]

  settle_keeps :
      (exec : Executor) (attempt : ℕ) (ws : List Wakeup) (r : Option ExecResult)
      (e : Option GoError) (s : State) (out : AttemptResult)
      → ((w : Wakeup) (u : State) → In w ws → I u → I (w.others u))
      → settle marshal p started exec attempt ws r e s ≡ some out
      → I s
      → I out.0
  unfolding settle await_runtime_result
  settle_keeps exec attempt ws none e s out fair eq here = keeps_result _ out eq here
  settle_keeps exec attempt ws (some r) (some e) s out fair eq here =
      keeps_result _ out eq (apply_in_flight_runtime_keeps r attempt s here)
  settle_keeps exec attempt ws (some r) none s out fair eq here =
      let s' = apply_in_flight_runtime marshal p started r attempt s in
      let here' : I s' = apply_in_flight_runtime_keeps r attempt s here in
      elim (Bool-cases (is_terminal r.status)) [
        | inl f ↦ keeps_result _ out (rw (f, settle) at eq) here'
        | inr f ↦ elim (Option-cases (wait_refused exec r)) [
          | inl g ↦
              await_loop_keeps r.handle_id attempt ws r s' out fair
                (rw (g, await_runtime_result) at (rw (f, settle) at eq)) here'
          | inr (x, g) ↦
              keeps_result _ out (rw (g, await_runtime_result) at (rw (f, settle) at eq)) here'
        ]
      ]

  run_attempt_keeps :
      (exec : Executor) (attempt : ℕ) (a : Attempt) (s : State) (out : AttemptResult)
      → IsFair I a
      → run_attempt marshal p started exec attempt a s ≡ some out
      → I s
      → I out.0
  unfolding run_attempt set_in_flight clear_in_flight
  run_attempt_keeps exec attempt a s out fair eq here =
      let entry : InFlightTask = record {
        cancelled = false;
        exec = exec;
        handle = "";
        started = started;
        cancel_result = none;
      } in
      let s' = a.others (set_in_flight (s.heap p).id entry s) in
      let r = Option.map (with_attempt attempt) a.reply.0 in
      elim (Option-cases (settle marshal p started exec attempt a.wakeups r a.reply.1 s')) [
        | inl f ↦ absurd (cc (rw (f, run_attempt) at eq))
        | inr ((t, r', e'), f) ↦
            let here' : I t =
              settle_keeps exec attempt a.wakeups r a.reply.1 s' (t, r', e') fair.woken f
                (fair.meanwhile (set_in_flight (s.heap p).id entry s)
                  (narrow s (set_in_flight (s.heap p).id entry s) refl refl refl here)) in
            keeps_result _ out (rw (f, run_attempt) at eq)
              (narrow t (clear_in_flight (t.heap p).id t) refl refl refl here')
      ]

  pub attempt_loop_keeps :
      (exec : Executor) (left attempt : ℕ) (outside : ℕ → Attempt) (slept : List ℤ) (s : State)
      (o : Outcome)
      → ((k : ℕ) → IsFair I (outside k))
      → attempt_loop marshal p started exec left attempt outside slept s ≡ some o
      → I s
      → I o.state
  unfolding attempt_loop
  attempt_loop_keeps exec zero attempt outside slept s o fair eq here =
      elim (Option-cases (run_attempt marshal p started exec attempt (outside attempt) s)) [
        | inl f ↦ absurd (cc (rw (f, attempt_loop) at eq))
        | inr (out, f) ↦
            let same : outcome attempt slept out ≡ o = cc (rw (f, attempt_loop) at eq) in
            subst (λ (y : Outcome). I y.state) same
              (run_attempt_keeps exec attempt (outside attempt) s out (fair attempt) f here)
      ]
  attempt_loop_keeps exec (suc left) attempt outside slept s o fair eq here =
      elim (Option-cases (run_attempt marshal p started exec attempt (outside attempt) s)) [
        | inl f ↦ absurd (cc (rw (f, attempt_loop) at eq))
        | inr ((t, r, x), f) ↦
            let here' : I t =
              run_attempt_keeps exec attempt (outside attempt) s (t, r, x) (fair attempt) f here in
            elim (Bool-cases (stops x)) [
              | inl g ↦
                  let same : outcome attempt slept (t, r, x) ≡ o =
                    cc (rw (g, attempt_loop) at (rw (f, attempt_loop) at eq)) in
                  subst (λ (y : Outcome). I y.state) same here'
              | inr g ↦
                  attempt_loop_keeps exec left (suc attempt) outside _ t o fair
                    (rw (g, attempt_loop) at (rw (f, attempt_loop) at eq)) here'
            ]
      ]
