-- ===== src/Scheduler/Dispatch/Safety.antt =====
-- No task is dispatched before its dependencies have succeeded, none twice, and none is lost.
use execgo.Base.{
  ℕ, String, ◌≡◌, sym, ap, subst, ◌↔◌, ◌⊎◌, inl, some, List, [], ◌∷◌, ◌++◌, map, In, In-append_left,
  In-map_of_In, IsDistinct,
}
use execgo.Base.Dict.{get_or}
use execgo.Models.Runtime.{Raw, Time}
use execgo.Models.Task.{Task, TaskStatus}
use execgo.Models.Graph.Edges.{DepsIn, open_count-eq_zero}
use execgo.Models.Graph.Drain.{IsDistinct-append}
use execgo.Store.{Ptr, Heap}
use execgo.Executor.{ProgressEvent}
use execgo.Scheduler.State.{State}
use execgo.Scheduler.Complete.{
  count_down_all, complete_task, complete_children, cascade_of, finish_task,
}
use execgo.Scheduler.Dispatch.{
  System, Report, complete, Step, receives, succeeds, ends, returns, cancels, writes, Reach, start,
  next, was_cancelled,
}
use execgo.Scheduler.Dispatch.Preserve.{finish_task-Same, unsuccessful-Same}
use execgo.Scheduler.Dispatch.Invariant.{released, IsScheduled}
use execgo.Scheduler.Dispatch.Start.{start-IsScheduled}
use execgo.Scheduler.Dispatch.Register.{ids-map}
use execgo.Scheduler.Dispatch.Steps.{
  same-IsScheduled, receives-IsScheduled, ended-IsScheduled, counted-IsScheduled,
}

module _ (marshal : List ProgressEvent → Raw) where
  succeeds-IsScheduled :
      (ts : List Task) (name : Ptr → String) (sys : System) (before after : List Ptr) (p : Ptr)
      (fuel : ℕ) (r : Report) (t : State)
      → sys.executing ≡ before ++ p ∷ after
      → complete marshal fuel p TaskStatus.success r sys.state ≡ some t
      → IsScheduled ts name sys
      → IsScheduled ts name (record sys {
        state = t;
        executing = before ++ after;
        succeeded = (sys.state.heap p).id ∷ sys.succeeded;
      })
  unfolding complete_task complete_children cascade_of
  succeeds-IsScheduled ts name sys before after p fuel r t e done inv =
      let s' =
        finish_task marshal r.now p TaskStatus.success r.result r.run_err r.exec_result r.started
          r.finished r.attempt sys.state in
      let same =
        finish_task-Same marshal r.now p TaskStatus.success r.result r.run_err r.exec_result
          r.started r.finished r.attempt sys.state in
      let sys₁ = record sys { state = s' } in
      let inv₁ = same-IsScheduled ts name sys s' same inv in
      let cs = get_or s'.dependents (s'.heap p).id [] in
      let ends_as : count_down_all cs s' ≡ t = cc done in
      let moved =
        counted-IsScheduled ts name sys₁ before after p cs e
          (ap (λ v. get_or s'.dependents v []) (inv₁.named p)) inv₁ in
      subst
        (λ u. IsScheduled ts name (record sys {
          state = u;
          executing = before ++ after;
          succeeded = (sys.state.heap p).id ∷ sys.succeeded;
        }))
        ends_as
        (subst
          (λ v. IsScheduled ts name (record sys {
            state = count_down_all cs s';
            executing = before ++ after;
            succeeded = v ∷ sys.succeeded;
          }))
          (sym (inv.named p)) moved)

  Step-IsScheduled :
      {sys sys' : System} (ts : List Task) (name : Ptr → String)
      → Step marshal sys sys'
      → IsScheduled ts name sys
      → IsScheduled ts name sys'
  Step-IsScheduled ts name (receives sys p t e) inv = receives-IsScheduled ts name sys p t e inv
  Step-IsScheduled ts name (succeeds sys before after p fuel r t e done) inv =
      succeeds-IsScheduled ts name sys before after p fuel r t e done inv
  Step-IsScheduled ts name (ends sys before after p status fuel r t e bad done) inv =
      let sys' = record sys { executing = before ++ after; ended = p ∷ sys.ended } in
      same-IsScheduled ts name sys' t
        (unsuccessful-Same marshal fuel p status r sys.state t bad done)
        (ended-IsScheduled ts name sys before after p e inv)
  Step-IsScheduled ts name (returns sys before after p e done) inv =
      ended-IsScheduled ts name sys before after p e inv
  Step-IsScheduled ts name (cancels sys p fuel r t done) inv =
      same-IsScheduled ts name sys t
        (unsuccessful-Same marshal fuel p TaskStatus.cancelled r sys.state t was_cancelled done) inv
  Step-IsScheduled ts name (writes sys t same) inv = same-IsScheduled ts name sys t same inv

  module _ (heap : Heap) (graph : List Ptr) (now : Time)
      (once : IsDistinct (map (λ p. (heap p).id) graph)) where
    abbrev name : Ptr → String
    name p = (heap p).id

    pub Reach-IsScheduled :
        {sys : System} → Reach marshal heap graph now sys → IsScheduled (map heap graph) name sys
    Reach-IsScheduled start = start-IsScheduled heap now graph once
    Reach-IsScheduled (next r step) =
        Step-IsScheduled (map heap graph) name step (Reach-IsScheduled r)

    -- A graph with distinct ids was submitted to a fresh scheduler, and any sequence of receives,
    -- completions, cancellations and writes followed: an id is among the tasks that wait,
    -- execute, ended or succeeded exactly if it is the id of a task of the graph and all that
    -- this task depends on has completed with success.
    pub dispatched_iff :
        {sys : System} (v : String)
        → Reach marshal heap graph now sys
        → (In v (released name sys) ⊎ In v sys.succeeded)
          ↔ (In v (map name graph) × DepsIn (map heap graph) v sys.succeeded)
    dispatched_iff {sys} v r =
        let inv = Reach-IsScheduled r in
        let (only, all) = inv.kahn.ready v in
        let (closed, opened) = open_count-eq_zero sys.succeeded v (map heap graph) in
        let names = ids-map heap now graph in
        (
          λ m. let (k, e) = only m in (subst (In v) names k, closed e),
          λ (k, d). all (subst (In v) (sym names) k, opened d),
        )

    -- In such a system, the tasks that wait, execute, ended or succeeded, all in one list, have
    -- distinct ids.
    pub dispatched_once :
        {sys : System}
        → Reach marshal heap graph now sys
        → IsDistinct (released name sys ++ sys.succeeded)
    dispatched_once {sys} r =
        let inv = Reach-IsScheduled r in
        IsDistinct-append (released name sys) sys.succeeded inv.kahn.queue_distinct
          inv.kahn.done_distinct inv.kahn.apart

    -- In such a system, all that an executing task depends on has completed with success.
    pub executing-DepsIn :
        {sys : System} (p : Ptr)
        → Reach marshal heap graph now sys
        → In p sys.executing
        → DepsIn (map heap graph) (name p) sys.succeeded
    executing-DepsIn {sys} p r m =
        ((dispatched_iff (name p) r).0 (
          inl (
            In-append_left (name p) (map name sys.executing) _
              (In-map_of_In name p sys.executing m)))).1
