-- ===== src/Scheduler/Dispatch/Register.antt =====
-- pkg/scheduler/scheduler.go: the first loop of Submit.
use execgo.Base.{
  suc, String, ◌≡◌, refl, sym, ap, ◌∙◌, subst, inl, inr, false, some, List, [], ◌∷◌, ◌++◌, map,
  arith, eq_iff, eq_refl, ◌==◌, if◌then◌else◌, text_cases, length, has, In, IsDistinct, pos,
}
use mathlib.Core.List.{append-nil, append_assoc}
use execgo.Base.Dict.{Dict, lookup, get_or, insert, lookup-insert}
use execgo.Models.Runtime.{Time}
use execgo.Models.Task.{Task}
use execgo.Models.Graph.Edges.{degree_of, open_deps, open_count, repeat_for, children, ids}
use execgo.Store.{Ptr, Heap, modify, put}
use execgo.Scheduler.State.{State}
use execgo.Scheduler.Submit.{add_dependent, register_task, register_tasks}

add_dependent-children :
    (id d : String) (deps : List String) (m : Dict (List String))
    → get_or (add_dependent id deps m) d [] ≡ get_or m d [] ++ repeat_for d id deps
unfolding add_dependent repeat_for
add_dependent-children id d [] m = sym (append-nil _)
add_dependent-children id d (dep ∷ deps) m =
    let m' = insert dep (get_or m dep [] ++ id ∷ []) m in
    ground (
      arith,
      add_dependent-children id d deps m',
      lookup-insert dep d (get_or m dep [] ++ id ∷ []) m,
      eq_iff dep d,
      append_assoc (get_or m d []) (id ∷ []) (repeat_for d id deps),
    )

length-open_deps : (deps : List String) → open_deps [] deps ≡ length deps
unfolding open_deps has
length-open_deps [] = refl
length-open_deps (d ∷ deps) = ap suc (length-open_deps deps)

open_count-absent : (v : String) (ts : List Task) → ¬ In v (ids ts) → open_count [] v ts ≡ 0
unfolding open_count
open_count-absent v [] h = refl
open_count-absent v (t ∷ ts) h =
    ground
      (arith, eq_iff t.id v, λ (e : v ≡ t.id). h (inl e), open_count-absent v ts (λ m. h (inr m)))

pub In-map :
    (f : Ptr → String) (v : String) (ps : List Ptr)
    → In v (map f ps)
    → (p : Ptr) × In p ps × (f p ≡ v)
In-map f v [] m = absurd m
In-map f v (p ∷ ps) (inl e) = (p, inl refl, sym e)
In-map f v (p ∷ ps) (inr m) = let (q, k, e) = In-map f v ps m in (q, inr k, e)

module _ (heap : Heap) (now : Time) where
  abbrev name : Ptr → String
  name q = (heap q).id

  -- The writes of Submit to the tasks leave what the graph says.
  abbrev pub SameGraph : Heap → Type 0
  SameGraph h = (q : Ptr) → ((h q).id ≡ name q) × ((h q).depends_on ≡ (heap q).depends_on)

  register_task-graph :
      (p : Ptr) (s : State) → SameGraph s.heap → SameGraph (register_task now p s).heap
  unfolding register_task modify
  register_task-graph p s same q = ground (arith, same q)

  register_task-count :
      (p : Ptr) (s : State) (v : String)
      → SameGraph s.heap
      → degree_of (register_task now p s).dep_count v
        ≡ (if name p == v then pos (length (heap p).depends_on) else degree_of s.dep_count v)
  unfolding register_task modify
  register_task-count p s v same =
      ground
        (arith, same p, lookup-insert (name p) v (pos (length (heap p).depends_on)) s.dep_count)

  register_task-children :
      (p : Ptr) (s : State) (d : String)
      → SameGraph s.heap
      → get_or (register_task now p s).dependents d []
        ≡ get_or s.dependents d [] ++ repeat_for d (name p) (heap p).depends_on
  unfolding register_task modify
  register_task-children p s d same =
      ground (arith, same p, add_dependent-children (name p) d (heap p).depends_on s.dependents)

  register_task-tasks :
      (p : Ptr) (s : State) (v : String)
      → SameGraph s.heap
      → lookup v (register_task now p s).tasks ≡ (if name p == v then some p else lookup v s.tasks)
  unfolding register_task modify put
  register_task-tasks p s v same = ground (arith, same p, lookup-insert (name p) v p s.tasks)

  pub ids-map : (ps : List Ptr) → ids (map heap ps) ≡ map name ps
  ids-map [] = refl
  ids-map (p ∷ ps) = ap (◌∷◌ (name p)) (ids-map ps)

  -- What the first loop of Submit leaves for the ids that it does not meet.
  record IsUntouched (v : String) (s t : State) : Type 0 where
    count_kept : degree_of t.dep_count v ≡ degree_of s.dep_count v
    task_kept : lookup v t.tasks ≡ lookup v s.tasks

  register_tasks-IsUntouched :
      (v : String) (ps : List Ptr) (s : State)
      → SameGraph s.heap
      → ¬ In v (map name ps)
      → IsUntouched v s (register_tasks now ps s)
  unfolding register_tasks
  register_tasks-IsUntouched v [] s same absent = record { count_kept = refl; task_kept = refl }
  register_tasks-IsUntouched v (p ∷ ps) s same absent =
      let rest =
        register_tasks-IsUntouched v ps (register_task now p s) (register_task-graph p s same)
          (λ m. absent (inr m)) in
      let other : (name p == v) ≡ false = elim (text_cases (name p) v) [
        | inl (e, _) ↦ absurd (absent (inl (sym e)))
        | inr (_, f) ↦ f
      ] in
      record {
        count_kept = rest.count_kept ∙ (register_task-count p s v same ∙ rw other);
        task_kept = rest.task_kept ∙ (register_task-tasks p s v same ∙ rw other);
      }

  -- What it leaves for the graph, where the ids are distinct and new.
  pub record IsRegistered (ps : List Ptr) (s t : State) : Type 0 where
    pub graph_kept : SameGraph t.heap
    pub counts :
        (v : String)
        → degree_of s.dep_count v ≡ pos 0
        → degree_of t.dep_count v ≡ pos (open_count [] v (map heap ps))
    pub listed :
        (d : String)
        → get_or t.dependents d [] ≡ get_or s.dependents d [] ++ children d (map heap ps)
    pub kept : (p : Ptr) → In p ps → lookup (name p) t.tasks ≡ some p
    pub ready_kept : t.ready_queue ≡ s.ready_queue
    pub blocked_kept : t.blocked ≡ s.blocked

  pub register_tasks-IsRegistered :
      (ps : List Ptr) (s : State)
      → SameGraph s.heap
      → IsDistinct (map name ps)
      → IsRegistered ps s (register_tasks now ps s)
  unfolding register_tasks open_count children
  register_tasks-IsRegistered [] s same once = record {
    graph_kept = same;
    counts = λ v e. e;
    listed = λ d. sym (append-nil _);
    kept = λ p m. absurd m;
    ready_kept = refl;
    blocked_kept = refl;
  }
  register_tasks-IsRegistered (p ∷ ps) s same once =
      let s' = register_task now p s in
      let same' = register_task-graph p s same in
      let rest = register_tasks-IsRegistered ps s' same' once.1 in
      let away = register_tasks-IsUntouched (name p) ps s' same' once.0 in
      record {
        graph_kept = rest.graph_kept;
        counts = λ v e. elim (text_cases (name p) v) [
          | inl (q, f) ↦ ground (
            arith,
            subst (λ w. degree_of (register_tasks now ps s').dep_count w ≡ degree_of s'.dep_count w)
                q away.count_kept,
            register_task-count p s v same,
            length-open_deps (heap p).depends_on,
            open_count-absent v (map heap ps) (
                subst (λ l. ¬ In v l) (sym (ids-map ps))
                  (subst (λ w. ¬ In w (map name ps)) q once.0)),
          )
          | inr (q, f) ↦ ground (arith, register_task-count p s v same, rest.counts v)
        ];
        listed = λ d.
            rest.listed d
            ∙ (ap (λ l. l ++ children d (map heap ps)) (register_task-children p s d same)
                ∙ append_assoc (get_or s.dependents d [])
                    (repeat_for d (name p) (heap p).depends_on) (children d (map heap ps)));
        kept = λ q m. elim m [
          | inl e ↦
              rw e
                (away.task_kept ∙ (register_task-tasks p s (name p) same ∙ rw (eq_refl (name p))))
          | inr k ↦ rest.kept q k
        ];
        ready_kept = rest.ready_kept ∙ unfold register_task in refl;
        blocked_kept = rest.blocked_kept ∙ unfold register_task in refl;
      }
