-- ===== src/Scheduler/Dispatch/Counts.antt =====
-- How often each id waits in the queues of a state.
use execgo.Base.{
  ℕ, ◌+◌, String, ◌≡◌, refl, ap, inl, inr, some, List, [], ◌∷◌, ◌++◌, map, arith, List-cases, count,
  count-append,
}
use mathlib.Core.List.{map-append}
use execgo.Store.{Ptr}
use execgo.Scheduler.State.{State}
use execgo.Scheduler.Submit.{enqueue, receive, admit}

-- The parts of the state that a count does not touch.
pub record SameTasks (s t : State) : Type 0 where
  pub kept_heap : t.heap ≡ s.heap
  pub kept_tasks : t.tasks ≡ s.tasks
  pub kept_dependents : t.dependents ≡ s.dependents

admit-Same :
    (qs : List Ptr) (s : State) → SameTasks s (admit qs s) × ((admit qs s).dep_count ≡ s.dep_count)
unfolding admit
admit-Same [] s = (record { kept_heap = refl; kept_tasks = refl; kept_dependents = refl }, refl)
admit-Same (q ∷ qs) s =
    (record { kept_heap = refl; kept_tasks = refl; kept_dependents = refl }, refl)

pub receive-Same :
    (p : Ptr) (s t : State) → receive s ≡ some (p, t) → SameTasks s t × (t.dep_count ≡ s.dep_count)
unfolding receive
receive-Same p s t e = elim (List-cases s.ready_queue) [
  | inl f ↦ absurd (cc (rw (f, receive) at e))
  | inr (x, rest, f) ↦
      let e' = rw (f, receive) at e in
      let second : admit s.blocked (record s { ready_queue = rest }) ≡ t = cc e' in
      let (same, counts) = admit-Same s.blocked (record s { ready_queue = rest }) in
      rw (← second) (
        record {
          kept_heap = same.kept_heap;
          kept_tasks = same.kept_tasks;
          kept_dependents = same.kept_dependents;
        },
        counts,
      )
]

-- `name` gives the id of the task that a pointer leads to.
module _ (name : Ptr → String) where
  abbrev pub times : String → List Ptr → ℕ
  times v ps = count v (map name ps)

  pub times-append : (v : String) (ps qs : List Ptr) → times v (ps ++ qs) ≡ times v ps + times v qs
  times-append v ps qs = rw map-append (count-append v (map name ps) (map name qs))

  pub times-cons :
      (v : String) (p : Ptr) (ps : List Ptr) → times v (p ∷ ps) ≡ times v ps + count v (name p ∷ [])
  unfolding count
  times-cons v p ps = ground arith

  -- In the channel, or about to be sent.
  abbrev pub waits : String → State → ℕ
  waits v s = times v s.ready_queue + times v s.blocked

  pub waits-enqueue :
      (v : String) (p : Ptr) (s : State) → waits v (enqueue p s) ≡ waits v s + count v (name p ∷ [])
  unfolding enqueue
  waits-enqueue v p s =
      ground (arith, times-append v s.ready_queue (p ∷ []), times-append v s.blocked (p ∷ []))

  waits-admit :
      (v : String) (qs : List Ptr) (s : State) → s.blocked ≡ qs → waits v (admit qs s) ≡ waits v s
  unfolding admit
  waits-admit v [] s e = refl
  waits-admit v (q ∷ qs) s e =
      ground (arith, times-append v s.ready_queue (q ∷ []), times-cons v q qs, ap (times v) e)

  -- What `receive` takes out of the queues is the task that it returns.
  pub waits-receive :
      (v : String) (p : Ptr) (s t : State)
      → receive s ≡ some (p, t)
      → waits v t + count v (name p ∷ []) ≡ waits v s
  unfolding receive
  waits-receive v p s t e = elim (List-cases s.ready_queue) [
    | inl f ↦ absurd (cc (rw (f, receive) at e))
    | inr (x, rest, f) ↦
        let e' = rw (f, receive) at e in
        let first : x ≡ p = cc e' in
        let second : admit s.blocked (record s { ready_queue = rest }) ≡ t = cc e' in
        rw (← second, ← first)
          (omega (
            arith,
            waits-admit v s.blocked (record s { ready_queue = rest }) refl,
            times-cons v x rest,
            ap (times v) f,
          ))
  ]
