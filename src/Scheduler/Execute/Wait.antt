-- ===== src/Scheduler/Execute/Wait.antt =====
-- pkg/scheduler/scheduler.go: when the waits of executeTask end.
use Prim.Native.String.{String}
use execgo.Base.{
  ℕ, zero, suc, ◌-◌, ◌≡◌, refl, subst, ◌⊎◌, inl, inr, Bool, true, false, Option, none, some, List,
  [], ◌∷◌, ◌++◌, Bool-cases, Option-cases, In, ℤ,
}
use Prim.Native.String.{◌++◌ as text_append}
use mathlib.Core.Option
use execgo.Models.Runtime.{Raw, Time, is_terminal}
use execgo.Store.{Ptr}
use execgo.Executor.{ProgressEvent, ExecResult, GoError, Executor}
use execgo.Scheduler.State.{State, InFlightTask, set_in_flight, clear_in_flight}
use execgo.Scheduler.Runtime.{runtime_result_error}
use execgo.Scheduler.Execute.{
  plain_error, backoff, WakeEvent, context_done, tick, Wakeup, Attempt, wait_refused,
  apply_in_flight_runtime, await_loop, await_runtime_result, settle, take_cancel_result,
  run_attempt, stops, outcome, with_attempt, attempt_loop,
}

-- What a wait ends at: the end of the context, a handle that is lost, or a terminal result.
unfoldable pub ends_wait : Wakeup → Bool
ends_wait w = elim w.event [
  | context_done _ ↦ true
  | tick none ↦ true
  | tick (some r) ↦ is_terminal r.status
]

pub event-cases :
    (e : WakeEvent)
    → ((x : GoError) × (e ≡ context_done x))
      ⊎ ((e ≡ tick none) ⊎ ((r : ExecResult) × (e ≡ tick (some r))))
event-cases (context_done x) = inl (x, refl)
event-cases (tick none) = inr (inl refl)
event-cases (tick (some r)) = inr (inr (r, refl))

-- The computation gives a value.
abbrev pub Returns {ℓ} : {A : Type ℓ} → Option A → Type ℓ
Returns {A = A} o = (a : A) × (o ≡ some a)

module _ (marshal : List ProgressEvent → Raw) (p : Ptr) (started : Time) where
  await_loop-terminal :
      (handle : String) (attempt : ℕ) (ws : List Wakeup) (current : ExecResult) (s : State)
      → is_terminal current.status ≡ true
      → Returns (await_loop marshal p started handle attempt ws current s)
  unfolding await_loop
  await_loop-terminal handle attempt [] current s done = (
    (
      apply_in_flight_runtime marshal p started current attempt s,
      some current,
      runtime_result_error current,
    ),
    rw done refl,
  )
  await_loop-terminal handle attempt (w ∷ ws) current s done = (
    (
      apply_in_flight_runtime marshal p started current attempt s,
      some current,
      runtime_result_error current,
    ),
    rw done refl,
  )

  pub await_loop_ends :
      (handle : String) (attempt : ℕ) (ws : List Wakeup) (current : ExecResult) (s : State)
      (w : Wakeup)
      → In w ws
      → ends_wait w ≡ true
      → Returns (await_loop marshal p started handle attempt ws current s)
  unfolding await_loop ends_wait
  await_loop_ends handle attempt [] current s w m last = absurd m
  await_loop_ends handle attempt (v ∷ ws) current s w m last =
      let s' = apply_in_flight_runtime marshal p started current attempt s in
      elim (Bool-cases (is_terminal current.status)) [
        | inl done ↦ await_loop-terminal handle attempt (v ∷ ws) current s done
        | inr waits ↦ elim (event-cases v.event) [
          | inl (x, e) ↦ ((v.others s', some current, some x), rw (waits, e, await_loop) refl)
          | inr (inl e) ↦ (
            (
              v.others s',
              some current,
              some (plain_error (text_append "handle not found: " handle)),
            ),
            rw (waits, e, await_loop) refl,
          )
          | inr (inr (r, e)) ↦
              let rest : Returns (
                  await_loop marshal p started handle attempt ws (with_attempt attempt r)
                    (v.others s')) =
                elim m [
                  | inl same ↦
                      await_loop-terminal handle attempt ws (with_attempt attempt r) (v.others s')
                        (rw (e, ends_wait) at (subst (λ u. ends_wait u ≡ true) same last))
                  | inr n ↦
                      await_loop_ends handle attempt ws (with_attempt attempt r) (v.others s') w n
                        last
                ] in
              (rest.0, rw (waits, e, await_loop) rest.1)
        ]
      ]

  -- Each wait of the run meets a wakeup that ends it.
  abbrev pub IsWoken : Attempt → Type 0
  IsWoken a = (w : Wakeup) × In w a.wakeups × (ends_wait w ≡ true)

  settle_ends :
      (exec : Executor) (attempt : ℕ) (ws : List Wakeup) (r : Option ExecResult)
      (e : Option GoError) (s : State) (w : Wakeup)
      → In w ws
      → ends_wait w ≡ true
      → Returns (settle marshal p started exec attempt ws r e s)
  unfolding settle await_runtime_result
  settle_ends exec attempt ws none e s w m last = (_, refl)
  settle_ends exec attempt ws (some r) (some e) s w m last = (_, refl)
  settle_ends exec attempt ws (some r) none s w m last =
      let s' = apply_in_flight_runtime marshal p started r attempt s in
      elim (Bool-cases (is_terminal r.status)) [
        | inl done ↦ ((s', some r, none), rw (done, settle) refl)
        | inr waits ↦ elim (Option-cases (wait_refused exec r)) [
          | inl f ↦
              let rest = await_loop_ends r.handle_id attempt ws r s' w m last in
              (rest.0, rw (waits, settle) (rw (f, await_runtime_result) rest.1))
          | inr (x, f) ↦
              ((s', some r, some x), rw (waits, settle) (rw (f, await_runtime_result) refl))
        ]
      ]

  run_attempt_ends :
      (exec : Executor) (attempt : ℕ) (a : Attempt) (s : State)
      → IsWoken a
      → Returns (run_attempt marshal p started exec attempt a s)
  unfolding run_attempt
  run_attempt_ends exec attempt a s (w, m, last) =
      let entry : InFlightTask = record {
        cancelled = false;
        exec = exec;
        handle = "";
        started = started;
        cancel_result = none;
      } in
      let ((t, r, e), f) =
        settle_ends exec attempt a.wakeups (Option.map (with_attempt attempt) a.reply.0) a.reply.1
          (a.others (set_in_flight (s.heap p).id entry s)) w m last in
      let (r', e') = take_cancel_result marshal p started attempt r e t in
      ((clear_in_flight (t.heap p).id t, r', e'), rw (f, run_attempt) refl)

  -- If every attempt has a wakeup that ends its wait, the retry loop of executeTask gives an
  -- outcome.
  pub attempt_loop_ends :
      (exec : Executor) (left attempt : ℕ) (outside : ℕ → Attempt) (slept : List ℤ) (s : State)
      → ((k : ℕ) → IsWoken (outside k))
      → Returns (attempt_loop marshal p started exec left attempt outside slept s)
  unfolding attempt_loop
  attempt_loop_ends exec zero attempt outside slept s ends =
      let (out, f) = run_attempt_ends exec attempt (outside attempt) s (ends attempt) in
      (outcome attempt slept out, rw (f, attempt_loop) refl)
  attempt_loop_ends exec (suc left) attempt outside slept s ends =
      let ((t, r, x), f) = run_attempt_ends exec attempt (outside attempt) s (ends attempt) in
      elim (Bool-cases (stops x)) [
        | inl g ↦
            (outcome attempt slept (t, r, x), rw (f, attempt_loop) (rw (g, attempt_loop) refl))
        | inr g ↦
            let rest =
              attempt_loop_ends exec left (suc attempt) outside
                (slept ++ backoff (attempt - 1) ∷ []) t ends in
            (rest.0, rw (f, attempt_loop) (rw (g, attempt_loop) rest.1))
      ]
