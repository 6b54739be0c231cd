-- ===== src/Scheduler/Execute/Retry.antt =====
-- pkg/scheduler/scheduler.go: how often executeTask tries, and how long it pauses.
use execgo.Base.{
  ℕ, zero, suc, ◌+◌, ◌-◌, ◌≤◌, ◌≡◌, refl, sym, ◌∙◌, subst, ◌⊎◌, inl, inr, ap, true, false, Option,
  none, some, List, [], ◌∷◌, ◌++◌, arith, Bool-cases, Option-cases, ℤ,
}
use mathlib.Core.List.{append-nil, append_assoc}
use execgo.Models.Runtime.{Raw, Time}
use execgo.Store.{Ptr}
use execgo.Executor.{ProgressEvent, ExecResult, GoError, Executor}
use execgo.Scheduler.State.{State}
use execgo.Scheduler.Execute.{backoff, Attempt, run_attempt, stops, Outcome, outcome, attempt_loop}

-- The pauses between attempt `k` and attempt `k + n`.
pub pauses : ℕ → ℕ → List ℤ
pauses k zero = []
pauses k (suc n) = backoff (k - 1) ∷ pauses (suc k) n

-- No error, or a cancellation.
abbrev pub IsFinal : Option GoError → Type 0
IsFinal none = Unit
IsFinal (some e) = e.is_canceled ≡ true

stops-IsFinal : (x : Option GoError) → stops x ≡ true → IsFinal x
stops-IsFinal none h = tt
stops-IsFinal (some e) h = h

goes_on :
    (x : Option GoError) → stops x ≡ false → (e : GoError) × (x ≡ some e) × (e.is_canceled ≡ false)
goes_on none h = absurd (cc h)
goes_on (some e) h = (e, refl, h)

one_more : (P : Type 0) (n left : ℕ) → P ⊎ (n ≡ left) → P ⊎ (suc n ≡ suc left)
one_more P n left (inl h) = inl h
one_more P n left (inr e) = inr (ap suc e)

module _ (marshal : List ProgressEvent → Raw) (p : Ptr) (started : Time) (exec : Executor)
    (outside : ℕ → Attempt) where
  -- Attempt `k` and `n` more, from a state to what the last of them gives: each but the last gave
  -- an error that is no cancellation, and the next one begins in the state that it left.
  pub data Attempts : ℕ → ℕ → State → State × Option ExecResult × Option GoError → Type 0 where
    last :
        {k : ℕ} {s : State} {o : State × Option ExecResult × Option GoError}
        → run_attempt marshal p started exec k (outside k) s ≡ some o
        → Attempts k 0 s o
    again :
        {k n : ℕ} {s t : State} {r : Option ExecResult} {e : GoError}
        {o : State × Option ExecResult × Option GoError}
        → run_attempt marshal p started exec k (outside k) s ≡ some (t, r, some e)
        → e.is_canceled ≡ false
        → Attempts (suc k) n t o
        → Attempts k (suc n) s o

  -- From attempt `attempt` on, with `left` more allowed, `n` of them are made.
  abbrev pub IsRetried : ℕ → ℕ → List ℤ → State → Outcome → Type 0
  IsRetried left attempt slept s o =
      (n : ℕ) × (o.used ≡ attempt + n)
      × (n ≤ left)
      × (IsFinal o.error ⊎ (n ≡ left))
      × (o.slept ≡ slept ++ pauses attempt n)
      × Attempts attempt n s (o.state, o.result, o.error)

  -- The last attempt.
  ends_here :
      (left attempt : ℕ) (slept : List ℤ) (s t : State) (r : Option ExecResult) (x : Option GoError)
      (o : Outcome)
      → run_attempt marshal p started exec attempt (outside attempt) s ≡ some (t, r, x)
      → IsFinal x ⊎ (0 ≡ left)
      → outcome attempt slept (t, r, x) ≡ o
      → IsRetried left attempt slept s o
  unfolding pauses
  ends_here left attempt slept s t r x o ran why same =
      subst (IsRetried left attempt slept s) same
        (0, omega arith, omega arith, why, sym (append-nil slept), last ran)

  -- Where the retry loop gives an outcome from some attempt on with `left` more allowed: `n` more
  -- are made, at most `left`, and exactly `left` unless the last one gave no error or a
  -- cancellation; each begins in the state that the one before it left, each but the last gave an
  -- error that is no cancellation, the outcome is what the last one gave, and the pauses are the
  -- backoffs between these attempts.
  pub attempt_loop-IsRetried :
      (left attempt : ℕ) (slept : List ℤ) (s : State) (o : Outcome)
      → attempt_loop marshal p started exec left attempt outside slept s ≡ some o
      → IsRetried left attempt slept s o
  unfolding attempt_loop pauses
  attempt_loop-IsRetried zero attempt slept s o e =
      elim (Option-cases (run_attempt marshal p started exec attempt (outside attempt) s)) [
        | inl f ↦ absurd (cc (rw (f, attempt_loop) at e))
        | inr ((t, r, x), f) ↦
            ends_here zero attempt slept s t r x o f (inr refl) (cc (rw (f, attempt_loop) at e))
      ]
  attempt_loop-IsRetried (suc left) attempt slept s o e =
      elim (Option-cases (run_attempt marshal p started exec attempt (outside attempt) s)) [
        | inl f ↦ absurd (cc (rw (f, attempt_loop) at e))
        | inr ((t, r, x), f) ↦ elim (Bool-cases (stops x)) [
          | inl g ↦
              ends_here (suc left) attempt slept s t r x o f (inl (stops-IsFinal x g))
                (cc (rw (g, attempt_loop) at (rw (f, attempt_loop) at e)))
          | inr g ↦
              let (err_, is_err, live) = goes_on x g in
              let (n, used, bound, why, slept', rest) =
                attempt_loop-IsRetried left (suc attempt) (slept ++ backoff (attempt - 1) ∷ []) t o
                  (rw (g, attempt_loop) at (rw (f, attempt_loop) at e)) in
              let failed_ : run_attempt marshal p started exec attempt (outside attempt) s
                  ≡ some (t, r, some err_) =
                subst
                  (λ y.
                    run_attempt marshal p started exec attempt (outside attempt) s ≡ some (t, r, y))
                  is_err f in
              (
                suc n,
                omega arith,
                omega arith,
                one_more (IsFinal o.error) n left why,
                slept' ∙ append_assoc slept (backoff (attempt - 1) ∷ []) (pauses (suc attempt) n),
                again failed_ live rest,
              )
        ]
      ]
