-- ===== src/Adapter/Translate/Scheduled.antt =====
-- pkg/adapter and pkg/scheduler together: the graph of an accepted action, submitted.
use execgo.Base.{String, ◌≡◌, sym, ap, subst, some, List, map, length, ok}
use execgo.Models.Runtime.{Raw, Time}
use execgo.Models.Task.{TaskStatus}
use execgo.Models.Graph as models
use execgo.Models.Graph.Order.{IsWalk}
use execgo.Models.Graph.Accept.{graph}
use execgo.Store.{Ptr, Heap}
use execgo.Executor.{ProgressEvent}
use execgo.Scheduler.State.{State}
use execgo.Scheduler.Dispatch.{System, Report, complete, Reach}
use execgo.Scheduler.Dispatch.Returns.{complete_returns}
use execgo.Adapter.Request.{AgentActionRequest, AgentActionResponse, Std}
use execgo.Adapter.Translate.{response, translate}
use execgo.Adapter.Translate.Steps.{translate-Steps}

translated_graph_valid :
    (std : Std) (order : List String → List String) (req : AgentActionRequest)
    (r : AgentActionResponse)
    → translate std order req ≡ ok r
    → models.validate order (graph r.task_graph.tasks) ≡ ok tt
unfolding response
translated_graph_valid std order req r e =
    let s = translate-Steps std order req r e in
    subst (λ g. models.validate order (graph g.tasks) ≡ ok tt) (ap (λ a. a.task_graph) s.answer)
      s.valid

-- For every order of the walk: when the graph that Translate returns for an action is submitted
-- to a fresh scheduler, and any sequence of steps follows, completeTask returns for every task
-- and status, with as much fuel as the graph has tasks.
pub translate_complete_returns :
    (std : Std) (order : List String → List String)
    → IsWalk order
    → (req : AgentActionRequest) (r : AgentActionResponse) → translate std order req ≡ ok r
    → (marshal : List ProgressEvent → Raw) (heap : Heap) (ptrs : List Ptr) (now : Time)
    → map heap ptrs ≡ r.task_graph.tasks
    → {sys : System} (p : Ptr) (status : TaskStatus) (report : Report)
    → Reach marshal heap ptrs now sys
    → (t : State) × (complete marshal (length ptrs) p status report sys.state ≡ some t)
translate_complete_returns std order walk req r e marshal heap ptrs now stored p status report
      reach =
    complete_returns marshal order walk heap ptrs now
      (subst (λ ts. models.validate order (graph ts) ≡ ok tt) (sym stored)
        (translated_graph_valid std order req r e))
      p status report reach
