-- ===== src/Scheduler/Dispatch/Start.antt =====
-- A graph that is submitted to a fresh scheduler meets the invariant.
use execgo.Base.{
  ◌+◌, String, ◌≡◌, refl, sym, ap, ◌∙◌, subst, some, List, [], ◌∷◌, map, arith, if◌then◌else◌,
  count, In, IsDistinct, pos, is_zero,
}
use execgo.Base.Dict.{lookup, get_or}
use execgo.Models.Runtime.{Time}
use execgo.Models.Graph.{roots}
use execgo.Models.Graph.Edges.{degree_of, open_count}
use execgo.Models.Graph.Drain.{Inv, Inv-perm}
use execgo.Models.Graph.Order.{In-roots, IsDistinct-roots}
use execgo.Store.{Ptr, Heap}
use execgo.Scheduler.State.{State, new}
use execgo.Scheduler.Submit.{register_tasks, enqueue_if_ready, enqueue_ready, submit}
use execgo.Scheduler.Dispatch.Counts.{SameTasks, times, waits, waits-enqueue}
use execgo.Scheduler.Dispatch.{System}
use execgo.Scheduler.Dispatch.Released.{enqueue-Same}
use execgo.Scheduler.Dispatch.Invariant.{released, count-released, IsScheduled}
use execgo.Scheduler.Dispatch.Register.{In-map, ids-map, SameGraph, register_tasks-IsRegistered}

module _ (heap : Heap) (now : Time) where
  abbrev name : Ptr → String
  name q = (heap q).id

  enqueue_if_ready-count :
      (v : String) (p : Ptr) (s : State)
      → SameGraph heap now s.heap
      → waits name v (enqueue_if_ready p s)
        ≡ waits name v s
          + (if is_zero (degree_of s.dep_count (name p)) then count v (name p ∷ []) else 0)
  unfolding enqueue_if_ready
  enqueue_if_ready-count v p s same = ground (arith, same p, waits-enqueue name v p s)

  enqueue_if_ready-Same :
      (p : Ptr) (s : State)
      → SameTasks s (enqueue_if_ready p s) × ((enqueue_if_ready p s).dep_count ≡ s.dep_count)
  unfolding enqueue_if_ready
  enqueue_if_ready-Same p s = ground (arith, enqueue-Same p s)

  enqueue_ready-Same :
      (ps : List Ptr) (s : State)
      → SameTasks s (enqueue_ready ps s) × ((enqueue_ready ps s).dep_count ≡ s.dep_count)
  unfolding enqueue_ready
  enqueue_ready-Same [] s =
      (record { kept_heap = refl; kept_tasks = refl; kept_dependents = refl }, refl)
  enqueue_ready-Same (p ∷ ps) s =
      let (a, b) = enqueue_if_ready-Same p s in
      let (c, d) = enqueue_ready-Same ps (enqueue_if_ready p s) in
      (
        record {
          kept_heap = c.kept_heap ∙ a.kept_heap;
          kept_tasks = c.kept_tasks ∙ a.kept_tasks;
          kept_dependents = c.kept_dependents ∙ a.kept_dependents;
        },
        d ∙ b,
      )

  -- The second loop of Submit queues what the loop of detectCycle starts with.
  enqueue_ready-roots :
      (v : String) (ps : List Ptr) (s : State)
      → SameGraph heap now s.heap
      → waits name v (enqueue_ready ps s)
        ≡ waits name v s + count v (roots s.dep_count (map name ps))
  unfolding enqueue_ready roots count
  enqueue_ready-roots v [] s same = omega arith
  enqueue_ready-roots v (p ∷ ps) s same =
      let u = enqueue_if_ready p s in
      let (kept, c) = enqueue_if_ready-Same p s in
      let rest =
        subst
          (λ D.
            waits name v (enqueue_ready ps u) ≡ waits name v u + count v (roots D (map name ps)))
          c (enqueue_ready-roots v ps u (subst (SameGraph heap now) (sym kept.kept_heap) same)) in
      ground (arith, rest, enqueue_if_ready-count v p s same)

  abbrev pub start_system : List Ptr → System
  start_system graph = record {
    state = submit now graph (new heap []);
    executing = [];
    succeeded = [];
    ended = [];
  }

  -- So the invariant holds when Submit returns.
  pub start-IsScheduled :
      (graph : List Ptr)
      → IsDistinct (map name graph)
      → IsScheduled (map heap graph) name (start_system graph)
  unfolding submit new
  start-IsScheduled graph once =
      let s = new heap [] in
      let t = register_tasks now graph s in
      let reg = register_tasks-IsRegistered heap now graph s (λ q. (refl, refl)) once in
      let u = enqueue_ready graph t in
      let (same, kept_counts) = enqueue_ready-Same graph t in
      let degrees : (v : String)
          → degree_of t.dep_count v ≡ pos (open_count [] v (map heap graph)) =
        λ v. reg.counts v refl in
      let queue = roots t.dep_count (map name graph) in
      let kahn : Inv (map heap graph) [] queue t.dep_count = record {
        degrees = degrees;
        queue_distinct = IsDistinct-roots t.dep_count (map name graph) once;
        done_distinct = tt;
        apart = λ v m n. n;
        ready = λ v.
            rw (ids-map heap now graph)
              (ground (arith, In-roots t.dep_count (map name graph) v, degrees v));
        ordered = tt;
      } in
      let sys = start_system graph in
      let none_waits : (v : String) → waits name v t ≡ 0 = λ v.
        unfold count in
        omega (arith, ap (times name v) reg.ready_kept, ap (times name v) reg.blocked_kept) in
      record {
        kahn = subst (Inv (map heap graph) [] (released name sys)) (sym kept_counts) (
            Inv-perm (map heap graph) [] queue (released name sys) t.dep_count
              (λ v.
                unfold count in
                omega (
                  arith,
                  count-released name v sys,
                  enqueue_ready-roots v graph t reg.graph_kept,
                  none_waits v,
                ))
              kahn);
        edges = λ d. ap (λ m. get_or m d []) same.kept_dependents ∙ reg.listed d;
        named = λ q. ap (λ (h : Heap). (h q).id) same.kept_heap ∙ (reg.graph_kept q).0;
        stored = λ v m.
            let (p, k, e) = In-map name v graph (subst (In v) (ids-map heap now graph) m) in
            (
              p,
              ap (lookup v) same.kept_tasks
                  ∙ subst (λ w. lookup w t.tasks ≡ some p) e (reg.kept p k),
              e,
            );
      }
