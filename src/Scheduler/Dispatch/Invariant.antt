-- ===== src/Scheduler/Dispatch/Invariant.antt =====
-- What holds of the scheduler between two steps.
use execgo.Base.{◌+◌, String, ◌≡◌, some, List, [], ◌++◌, map, arith, count, count-append, In}
use execgo.Base.Dict.{lookup, get_or}
use execgo.Models.Task.{Task}
use execgo.Models.Graph.Edges.{children, ids}
use execgo.Models.Graph.Drain.{Inv}
use execgo.Store.{Ptr}
use execgo.Scheduler.Dispatch.{System}
use execgo.Scheduler.Dispatch.Counts.{times, waits}

module _ (name : Ptr → String) where
  -- The ids of the tasks that were put in the ready queue and have not succeeded.
  abbrev pub released : System → List String
  released sys =
      map name sys.executing
      ++ (map name sys.ended ++ (map name sys.state.ready_queue ++ map name sys.state.blocked))

  pub count-released :
      (v : String) (sys : System)
      → count v (released sys)
        ≡ times name v sys.executing + times name v sys.ended + waits name v sys.state
  count-released v sys =
      let ready = map name sys.state.ready_queue in
      let blocked = map name sys.state.blocked in
      omega (
        arith,
        count-append v (map name sys.executing) (map name sys.ended ++ (ready ++ blocked)),
        count-append v (map name sys.ended) (ready ++ blocked),
        count-append v ready blocked,
      )

-- The counts, queues and history of a system that runs the graph `ts` are those of detectCycle's
-- loop, with the tasks that succeeded as the nodes that were taken off.
pub record IsScheduled (ts : List Task) (name : Ptr → String) (sys : System) : Type 0 where
  pub kahn : Inv ts sys.succeeded (released name sys) sys.state.dep_count
  pub edges : (d : String) → get_or sys.state.dependents d [] ≡ children d ts
  pub named : (q : Ptr) → (sys.state.heap q).id ≡ name q
  pub stored :
      (v : String) → In v (ids ts) → (p : Ptr) × (lookup v sys.state.tasks ≡ some p) × (name p ≡ v)
