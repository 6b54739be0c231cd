-- ===== src/Scheduler/Dispatch/Steps.antt =====
-- Each kind of step keeps the invariant.
use execgo.Base.{
  ◌+◌, String, ◌≡◌, refl, sym, ap, ◌∙◌, subst, some, List, [], ◌∷◌, ◌++◌, arith, count, In, pos,
}
use execgo.Base.Dict.{lookup, get_or}
use execgo.Models.Task.{Task}
use execgo.Models.Graph.{release}
use execgo.Models.Graph.Edges.{degree_of, open_count, children, In-ids_of_children}
use execgo.Models.Graph.Release.{IsReleased, release_lem}
use execgo.Models.Graph.Drain.{Inv, Inv-perm, next-Inv, taken_off}
use execgo.Store.{Ptr, Heap}
use execgo.Scheduler.State.{State}
use execgo.Scheduler.Submit.{receive}
use execgo.Scheduler.Complete.{count_down_all}
use execgo.Scheduler.Dispatch.{System, SameSchedule}
use execgo.Scheduler.Dispatch.Counts.{receive-Same, times, times-append, times-cons, waits-receive}
use execgo.Scheduler.Dispatch.Released.{count_down_all-release}
use execgo.Scheduler.Dispatch.Invariant.{released, count-released, IsScheduled}

module _ (ts : List Task) (name : Ptr → String) where
  -- A step that keeps the counts and the tasks, and moves tasks between the lists.
  moved-IsScheduled :
      (sys sys' : System)
      → sys'.succeeded ≡ sys.succeeded
      → sys'.state.dep_count ≡ sys.state.dep_count
      → sys'.state.dependents ≡ sys.state.dependents
      → sys'.state.tasks ≡ sys.state.tasks
      → ((q : Ptr) → (sys'.state.heap q).id ≡ (sys.state.heap q).id)
      → ((v : String) → count v (released name sys') ≡ count v (released name sys))
      → IsScheduled ts name sys
      → IsScheduled ts name sys'
  moved-IsScheduled sys sys' e₁ e₂ e₃ e₄ e₅ bag inv = record {
    kahn =
        subst (λ D. Inv ts sys'.succeeded (released name sys') D) (sym e₂)
          (subst (λ d. Inv ts d (released name sys') sys.state.dep_count) (sym e₁)
            (Inv-perm ts sys.succeeded (released name sys) (released name sys') sys.state.dep_count
              bag inv.kahn));
    edges = λ d. ap (λ m. get_or m d []) e₃ ∙ inv.edges d;
    named = λ q. e₅ q ∙ inv.named q;
    stored = λ v m. let (p, e, f) = inv.stored v m in (p, ap (lookup v) e₄ ∙ e, f);
  }

  pub receives-IsScheduled :
      (sys : System) (p : Ptr) (t : State)
      → receive sys.state ≡ some (p, t)
      → IsScheduled ts name sys
      → IsScheduled ts name (record sys { state = t; executing = p ∷ sys.executing })
  receives-IsScheduled sys p t e inv =
      let (same, counts) = receive-Same p sys.state t e in
      let sys' = record sys { state = t; executing = p ∷ sys.executing } in
      moved-IsScheduled sys sys' refl counts same.kept_dependents same.kept_tasks
        (λ q. ap (λ (h : Heap). (h q).id) same.kept_heap)
        (λ v. omega (
          arith,
          count-released name v sys,
          count-released name v sys',
          waits-receive name v p sys.state t e,
          times-cons name v p sys.executing,
        ))
        inv

  pub same-IsScheduled :
      (sys : System) (t : State)
      → SameSchedule sys.state t
      → IsScheduled ts name sys
      → IsScheduled ts name (record sys { state = t })
  same-IsScheduled sys t same inv =
      let sys' = record sys { state = t } in
      moved-IsScheduled sys sys' refl same.same_counts same.same_dependents same.same_tasks
        same.same_ids
        (λ v. omega (
          arith,
          count-released name v sys,
          count-released name v sys',
          ap (times name v) same.same_ready,
          ap (times name v) same.same_blocked,
        ))
        inv

  pub ended-IsScheduled :
      (sys : System) (before after : List Ptr) (p : Ptr)
      → sys.executing ≡ before ++ p ∷ after
      → IsScheduled ts name sys
      → IsScheduled ts name (record sys { executing = before ++ after; ended = p ∷ sys.ended })
  ended-IsScheduled sys before after p e inv =
      let sys' = record sys { executing = before ++ after; ended = p ∷ sys.ended } in
      moved-IsScheduled sys sys' refl refl refl refl (λ q. refl)
        (λ v. omega (
          arith,
          count-released name v sys,
          count-released name v sys',
          ap (times name v) e,
          times-append name v before (p ∷ after),
          times-append name v before after,
          times-cons name v p after,
          times-cons name v p sys.ended,
        ))
        inv

  -- A success takes its node off the graph, and queues the children that this frees.
  pub counted-IsScheduled :
      (sys : System) (before after : List Ptr) (p : Ptr) (cs : List String)
      → sys.executing ≡ before ++ p ∷ after
      → cs ≡ get_or sys.state.dependents (name p) []
      → IsScheduled ts name sys
      → IsScheduled ts name (record sys {
        state = count_down_all cs sys.state;
        executing = before ++ after;
        succeeded = name p ∷ sys.succeeded;
      })
  counted-IsScheduled sys before after p cs e f inv =
      let rest = record sys { executing = before ++ after } in
      let queue = released name rest in
      let degree = sys.state.dep_count in
      let left = λ (v : String). open_count (name p ∷ sys.succeeded) v ts in
      let listed : cs ≡ children (name p) ts = f ∙ inv.edges (name p) in
      let headed : Inv ts sys.succeeded (name p ∷ queue) degree =
        Inv-perm ts sys.succeeded (released name sys) (name p ∷ queue) degree bag_before inv.kahn in
      let counts : (v : String) → degree_of degree v ≡ pos (left v + count v cs) = λ v.
        inv.kahn.degrees v
        ∙ ap pos (
            sym (taken_off ts (name p) sys.succeeded queue degree headed v)
            ∙ ap (λ l. left v + count v l) (sym listed)) in
      let (low, freed) = release_lem cs degree queue left counts in
      let (same, same_counts, bag) =
        count_down_all-release name cs sys.state left queue counts
          (λ v m. inv.stored v (In-ids_of_children (name p) v ts (subst (In v) listed m))) in
      let sys' = record sys {
        state = count_down_all cs sys.state;
        executing = before ++ after;
        succeeded = name p ∷ sys.succeeded;
      } in
      let after_round =
        next-Inv ts (name p) sys.succeeded queue degree headed (release cs degree queue).0
          (release cs degree queue).1 low
          (subst (λ l. IsReleased l queue (release cs degree queue).1 left) listed freed) in
      record {
        kahn = subst (Inv ts (name p ∷ sys.succeeded) (released name sys')) (sym same_counts) (
            Inv-perm ts (name p ∷ sys.succeeded) (release cs degree queue).1 (released name sys')
              (release cs degree queue).0
              (λ v. omega (arith, bag v, count-released name v sys', count-released name v rest))
              after_round);
        edges = λ d. ap (λ m. get_or m d []) same.kept_dependents ∙ inv.edges d;
        named = λ q. ap (λ (h : Heap). (h q).id) same.kept_heap ∙ inv.named q;
        stored = λ v m. let (q, g, h) = inv.stored v m in (q, ap (lookup v) same.kept_tasks ∙ g, h);
      }
    where
      bag_before :
          (v : String)
          → count v (name p ∷ released name (record sys { executing = before ++ after }))
            ≡ count v (released name sys)
      bag_before v =
          let rest = record sys { executing = before ++ after } in
          unfold count in
          ground (
            arith,
            count-released name v sys,
            count-released name v rest,
            ap (times name v) e,
            times-append name v before (p ∷ after),
            times-append name v before after,
          )
