-- ===== src/Scheduler/Dispatch/Returns.antt =====
-- pkg/scheduler/scheduler.go: completeTask returns for the graphs that Validate accepts.
use execgo.Base.{
  ℕ, suc, ◌≤◌, ◌<◌, String, ◌≡◌, refl, sym, ◌∙◌, subst, inl, inr, true, some, List, [], ◌∷◌, map,
  arith, eq_iff, ◌==◌, if◌then◌else◌, text_cases, length, length-le_of_subset, In, In-append,
  IsDistinct, ok,
}
use execgo.Models.Runtime.{Raw, Time}
use execgo.Models.Task.{Task, TaskStatus}
use execgo.Models.Graph.{validate}
use execgo.Models.Graph.Edges.{ids, children, repeat_for, In-ids_of_children}
use execgo.Models.Graph.Drain.{IsOrdered}
use execgo.Models.Graph.Order.{IsWalk}
use execgo.Models.Graph.Chains.{DependsOn, listed, DepsIn_listed, DependsOn-In}
use execgo.Models.Graph.Accept.{validate-IsValidGraph, graph}
use execgo.Store.{Ptr, Heap}
use execgo.Executor.{ProgressEvent}
use execgo.Scheduler.State.{State}
use execgo.Scheduler.Complete.Returns.{Falls, complete_task_ends}
use execgo.Scheduler.Dispatch.{System, Report, complete, Reach}
use execgo.Scheduler.Dispatch.Register.{ids-map}
use execgo.Scheduler.Dispatch.Safety.{Reach-IsScheduled}

-- How far an id stands from the head of a plan.
place : String → List String → ℕ
place v [] = 0
place v (x ∷ xs) = if x == v then 0 else suc (place v xs)

length-ids-map : (heap : Heap) (ps : List Ptr) → length (ids (map heap ps)) ≡ length ps
length-ids-map heap [] = omega arith
length-ids-map heap (p ∷ ps) = omega (arith, length-ids-map heap ps)

place-le : (v : String) (xs : List String) → place v xs ≤ length xs
unfolding place
place-le v [] = omega arith
place-le v (x ∷ xs) = ground (arith, place-le v xs)

repeat_for-deps :
    (d id w : String) (deps : List String) → In w (repeat_for d id deps) → (w ≡ id) × In d deps
unfolding repeat_for
repeat_for-deps d id w [] m = absurd m
repeat_for-deps d id w (dep ∷ deps) m = ground (arith, eq_iff dep d, repeat_for-deps d id w deps)

children-DependsOn : (d w : String) (ts : List Task) → In w (children d ts) → DependsOn ts w d
unfolding children
children-DependsOn d w [] m = absurd m
children-DependsOn d w (t ∷ ts) m =
    elim (In-append w (repeat_for d t.id t.depends_on) (children d ts) m) [
      | inl k ↦
          let (e, dep) = repeat_for-deps d t.id w t.depends_on k in listed t (inl refl) (sym e) dep
      | inr k ↦ further_listed t (children-DependsOn d w ts k)
    ]
  where
    further_listed :
        {v w : String} {ts : List Task} (t : Task) → DependsOn ts v w → DependsOn (t ∷ ts) v w
    further_listed t (listed u k e n) = listed u (inr k) e n

-- A task stands nearer to the head than what it depends on.
place_falls :
    (ts : List Task) (v w : String) (plan : List String)
    → IsOrdered ts plan
    → IsDistinct plan
    → In w plan
    → DependsOn ts w v
    → place w plan < place v plan
unfolding place
place_falls ts v w [] o d m dep = absurd m
place_falls ts v w (x ∷ plan) o d (inl e) (listed t k p q) =
    let n : In v plan = DepsIn_listed ts x v plan t o.0 k (p ∙ e) q in
    let here : (x == w) ≡ true = (eq_iff x w).1 (sym e) in
    elim (text_cases x v) [
      | inl (f, _) ↦ absurd (d.0 (subst (λ u. In u plan) (sym f) n))
      | inr (_, f) ↦ rw (here, f) (omega arith)
    ]
place_falls ts v w (x ∷ plan) o d (inr m) dep =
    let n = DependsOn-In plan o.1 m dep in
    elim (text_cases x v) [
      | inl (f, _) ↦ absurd (d.0 (subst (λ u. In u plan) (sym f) n))
      | inr (_, f) ↦ elim (text_cases x w) [
        | inl (g, _) ↦ absurd (d.0 (subst (λ u. In u plan) (sym g) m))
        | inr (_, g) ↦ rw (f, g) (omega (arith, place_falls ts v w plan o.1 d.1 m dep))
      ]
    ]

module _ (marshal : List ProgressEvent → Raw) (order : List String → List String)
    (walk : IsWalk order) (heap : Heap) (ptrs : List Ptr) (now : Time)
    (accepted : validate order (graph (map heap ptrs)) ≡ ok tt) where
  -- For every order of the walk: after the submission of a graph that Validate accepts to a fresh
  -- scheduler, and any sequence of steps, completeTask returns for every task and status, with as
  -- much fuel as the graph has tasks.
  pub complete_returns :
      {sys : System} (p : Ptr) (status : TaskStatus) (r : Report)
      → Reach marshal heap ptrs now sys
      → (t : State) × (complete marshal (length ptrs) p status r sys.state ≡ some t)
  complete_returns {sys} p status r reach =
      let ts = map heap ptrs in
      let valid = (validate-IsValidGraph order walk ts).0 accepted in
      let planned = valid.planned in
      let plan = valid.plan in
      let inv =
        Reach-IsScheduled marshal heap ptrs now
          (subst IsDistinct (ids-map heap now ptrs) valid.once) reach in
      let falls : Falls (λ v. place v plan) sys.state.dependents = λ v w m.
        let n : In w (children v ts) = subst (In w) (inv.edges v) m in
        place_falls ts v w plan planned.ordered planned.once
          (planned.complete w (In-ids_of_children v w ts n)) (children-DependsOn v w ts n) in
      complete_task_ends (λ v. place v plan) (length ptrs) r.now marshal p status r.result r.run_err
        r.exec_result r.started r.finished r.attempt sys.state falls
        (omega (
          arith,
          place-le (sys.state.heap p).id plan,
          length-le_of_subset plan (ids ts) planned.once planned.known,
          length-ids-map heap ptrs,
        ))
