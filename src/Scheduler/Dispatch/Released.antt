-- ===== src/Scheduler/Dispatch/Released.antt =====
-- Counting down the children of a task does what the loop of detectCycle does.
use execgo.Base.{
  ℕ, zero, suc, ◌+◌, String, ◌≡◌, refl, ◌∙◌, subst, inl, inr, some, List, [], ◌∷◌, ◌++◌, arith,
  eq_iff, eq_refl, if◌then◌else◌, Bool-cases, count, count-append, In, pos, pred_ℤ, is_zero,
}
use execgo.Base.Dict.{lookup, insert, lookup-insert}
use execgo.Models.Graph.{release}
use execgo.Models.Graph.Edges.{degree_of}
use execgo.Store.{Ptr, Manager}
use execgo.Scheduler.State.{State}
use execgo.Scheduler.Submit.{enqueue}
use execgo.Scheduler.Complete.{enqueue_id, count_down_child, count_down_all}
use execgo.Scheduler.Dispatch.Counts.{SameTasks, waits, waits-enqueue}

pub enqueue-Same :
    (p : Ptr) (s : State) → SameTasks s (enqueue p s) × ((enqueue p s).dep_count ≡ s.dep_count)
unfolding enqueue
enqueue-Same p s = ground arith

module _ (name : Ptr → String) where
  -- Every id of the list is stored under its own name.
  abbrev pub Stores : Manager → List String → Type 0
  Stores m cs = (v : String) → In v cs → (p : Ptr) × (lookup v m ≡ some p) × (name p ≡ v)

  -- One child: its count falls, and at zero it joins the queue.
  pub record IsCounted (c : String) (s t : State) : Type 0 where
    pub same : SameTasks s t
    pub counted : t.dep_count ≡ insert c (pred_ℤ (degree_of s.dep_count c)) s.dep_count
    pub queued :
        (v : String)
        → waits name v t
          ≡ waits name v s
            + (if is_zero (pred_ℤ (degree_of s.dep_count c)) then count v (c ∷ []) else 0)

  -- What the call comes to where the child has `suc n` dependencies left.
  count_down_child_lem :
      (c : String) (s : State) (n : ℕ) (p : Ptr)
      → degree_of s.dep_count c ≡ pos (suc n)
      → lookup c s.tasks ≡ some p
      → let s' = record s { dep_count = insert c (pos n) s.dep_count } in
        count_down_child c s ≡ (if is_zero (pos n) then enqueue p s' else s')
  unfolding count_down_child enqueue_id
  count_down_child_lem c s zero p e f = rw (e, f, enqueue_id) (rw e refl)
  count_down_child_lem c s (suc n) p e f = rw e

  count_down_child-IsCounted :
      (c : String) (s : State) (n : ℕ) (p : Ptr)
      → degree_of s.dep_count c ≡ pos (suc n)
      → lookup c s.tasks ≡ some p
      → name p ≡ c
      → IsCounted c s (count_down_child c s)
  count_down_child-IsCounted c s zero p e f g =
      let s' = record s { dep_count = insert c (pos 0) s.dep_count } in
      let (same, counts) = enqueue-Same p s' in
      rw (count_down_child_lem c s zero p e f) (record {
        same = record {
          kept_heap = same.kept_heap;
          kept_tasks = same.kept_tasks;
          kept_dependents = same.kept_dependents;
        };
        counted = rw e counts;
        queued = λ v. rw e (
            subst (λ w. waits name v (enqueue p s') ≡ waits name v s + count v (w ∷ [])) g
              (waits-enqueue name v p s'));
      })
  count_down_child-IsCounted c s (suc n) p e f g =
      rw (count_down_child_lem c s (suc n) p e f) (record {
        same = record { kept_heap = refl; kept_tasks = refl; kept_dependents = refl };
        counted = rw e refl;
        queued = λ v. rw e (omega arith);
      })

  -- The whole list: counts and queue end as `release` leaves them.
  pub count_down_all-release :
      (cs : List String) (s : State) (left : String → ℕ) (queue : List String)
      → ((v : String) → degree_of s.dep_count v ≡ pos (left v + count v cs))
      → Stores s.tasks cs
      → let t = count_down_all cs s in
        let r = release cs s.dep_count queue in
        SameTasks s t
        × (t.dep_count ≡ r.0)
        × ((v : String) → waits name v t + count v queue ≡ waits name v s + count v r.1)
  unfolding count_down_all release
  count_down_all-release [] s left queue h stored =
      (record { kept_heap = refl; kept_tasks = refl; kept_dependents = refl }, refl, λ v. refl)
  count_down_all-release (c ∷ cs) s left queue h stored =
      let (p, f, g) = stored c (inl refl) in
      let x = pred_ℤ (degree_of s.dep_count c) in
      let u = count_down_child c s in
      let one : degree_of s.dep_count c ≡ pos (suc (left c + count c cs)) =
        unfold count in ground (arith, h c, eq_refl c) in
      let counted = count_down_child-IsCounted c s (left c + count c cs) p one f g in
      let low : (v : String) → degree_of u.dep_count v ≡ pos (left v + count v cs) = λ v.
        unfold count in
        ground (arith, counted.counted, h v, one, lookup-insert c v x s.dep_count, eq_iff c v) in
      let (same, counts, bag) =
        count_down_all-release cs u left (if is_zero x then queue ++ c ∷ [] else queue) low
          (λ v m. let (q, a, b) = stored v (inr m) in (q, rw counted.same.kept_tasks a, b)) in
      let queue' = if is_zero x then queue ++ c ∷ [] else queue in
      let grown : (v : String)
          → count v queue' ≡ count v queue + (if is_zero x then count v (c ∷ []) else 0) =
        λ v. elim (Bool-cases (is_zero x)) [
          | inl z ↦ rw z (count-append v queue (c ∷ []))
          | inr z ↦ rw z (omega arith)
        ] in
      (
        record {
          kept_heap = same.kept_heap ∙ counted.same.kept_heap;
          kept_tasks = same.kept_tasks ∙ counted.same.kept_tasks;
          kept_dependents = same.kept_dependents ∙ counted.same.kept_dependents;
        },
        subst (λ D. (count_down_all cs u).dep_count ≡ (release cs D queue').0) counted.counted
            counts,
        λ v.
            let b =
              subst
                (λ D.
                  waits name v (count_down_all cs u) + count v queue'
                  ≡ waits name v u + count v (release cs D queue').1)
                counted.counted (bag v) in
            omega (arith, b, grown v, counted.queued v),
      )
