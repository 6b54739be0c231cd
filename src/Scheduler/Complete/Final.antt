-- ===== src/Scheduler/Complete/Final.antt =====
-- pkg/scheduler/scheduler.go: the task that completeTask completes, and those below it.
use execgo.Base.{
  ℕ, suc, String, ◌≡◌, refl, sym, ◌∙◌, subst, ◌⊎◌, inl, inr, some, List, [], ◌∷◌, ltb, Bool-cases,
  Option-cases, length, In, pos, pred_ℤ, is_nonpos,
}
use execgo.Base.Dict.{lookup, get_or}
use execgo.Models.Runtime.{Time}
use execgo.Models.Task.{Task, TaskStatus}
use execgo.Store.{Ptr, Heap, update_status}
use execgo.Scheduler.State.{State}
use execgo.Scheduler.Submit.{enqueue}
use execgo.Scheduler.Complete.{
  clear_runtime_of, reason_text, cascade_skip, skip_child, skip_all, enqueue_id, count_down_child,
  count_down_all,
}
use execgo.Scheduler.Complete.Cascade.{Below, IsSkipped}
use execgo.Scheduler.Complete.Effect.{
  IsKept, clear_ind, update_ind, cascade_skip_keeps, update_status-status, cascade_skip-IsSkipped,
  cascade_skip-clears, IsSkipped-IsKept,
}

pub enqueue-heap : (p : Ptr) (s : State) → (enqueue p s).heap ≡ s.heap
unfolding enqueue
enqueue-heap p s = elim (Bool-cases (ltb (length s.ready_queue) 1024)) [
  | inl e ↦ rw e refl
  | inr e ↦ rw e refl
]

enqueue_id-heap : (id : String) (s : State) → (enqueue_id id s).heap ≡ s.heap
unfolding enqueue_id
enqueue_id-heap id s = elim (Option-cases (lookup id s.tasks)) [
  | inl e ↦ rw (e, enqueue_id) refl
  | inr (p, e) ↦ rw (e, enqueue_id) (enqueue-heap p s)
]

count_down_child-heap : (c : String) (s : State) → (count_down_child c s).heap ≡ s.heap
unfolding count_down_child
count_down_child-heap c s =
    let left = pred_ℤ (get_or s.dep_count c (pos 0)) in
    elim (Bool-cases (is_nonpos left)) [ inl e ↦ rw e (enqueue_id-heap c _) | inr e ↦ rw e refl ]

pub count_down_all-heap : (cs : List String) (s : State) → (count_down_all cs s).heap ≡ s.heap
unfolding count_down_all
count_down_all-heap [] s = refl
count_down_all-heap (c ∷ cs) s =
    count_down_all-heap cs (count_down_child c s) ∙ count_down_child-heap c s

-- A completion or a skip: what a task looks like whose completion was reported.
abbrev pub IsSettled : TaskStatus → Task → Type 0
IsSettled status t = (t.status ≡ status) ⊎ (t.status ≡ TaskStatus.skipped)

pub IsSettled-IsKept : (status : TaskStatus) (now : Time) → IsKept now (IsSettled status)
IsSettled-IsKept status now = record { cleared = λ t s. s; skipped = λ t msg s. inr refl }

abbrev pub skipped_heap : Time → String → String → String → State → Heap
skipped_heap now parent reason c s =
    (update_status c TaskStatus.skipped [] (reason_text parent reason) now s.tasks
      (clear_runtime_of c s.tasks s.heap)).0

-- One child: the writes of cascadeSkip, and one more failure in the metrics.
skip_child_parts :
    (fuel : ℕ) (now : Time) (parent reason c : String) (s s' : State)
    → skip_child fuel now parent reason c s ≡ some s'
    → (h : Heap) × (cascade_skip s.tasks s.dependents now fuel c
          (skipped_heap now parent reason c s)
        ≡ some h)
      × (s' ≡ record s {
        heap = h;
        metrics = record s.metrics { tasks_failed = suc s.metrics.tasks_failed };
      })
unfolding skip_child
skip_child_parts fuel now parent reason c s s' e =
    let h₂ = skipped_heap now parent reason c s in
    elim (Option-cases (cascade_skip s.tasks s.dependents now fuel c h₂)) [
      | inl f ↦ absurd (cc (rw (f, skip_child) at e))
      | inr (h, f) ↦ (h, f, cc (rw (f, skip_child) at e))
    ]

module _ (now : Time) (q : Ptr) where
  skip_child_keeps :
      (P : Task → Type 0) (fuel : ℕ) (parent reason c : String) (s s' : State)
      → IsKept now P
      → skip_child fuel now parent reason c s ≡ some s'
      → P (s.heap q)
      → P (s'.heap q)
  skip_child_keeps P fuel parent reason c s s' kept e p =
      let h₁ = clear_runtime_of c s.tasks s.heap in
      let (h, f, same) = skip_child_parts fuel now parent reason c s s' e in
      let p₁ : P (h₁ q) = clear_ind s.tasks now P c q s.heap p (λ _. kept.cleared (s.heap q) p) in
      let p₂ : P (skipped_heap now parent reason c s q) =
        update_ind s.tasks now P c _ TaskStatus.skipped [] q h₁ p₁
          (λ _. kept.skipped (h₁ q) _ p₁) in
      subst (λ (u : State). P (u.heap q)) (sym same)
        (cascade_skip_keeps s.tasks s.dependents now P q fuel c _ h (λ _ _ _. kept) f p₂)

  -- What the writes of cascadeSkip keep, the loop over the children of a failed task keeps.
  pub skip_all_keeps :
      (P : Task → Type 0) (fuel : ℕ) (parent reason : String) (cs : List String) (s s' : State)
      → IsKept now P
      → skip_all fuel now parent reason cs s ≡ some s'
      → P (s.heap q)
      → P (s'.heap q)
  unfolding skip_all
  skip_all_keeps P fuel parent reason [] s s' kept e p =
      let same : s ≡ s' = cc e in subst (λ (u : State). P (u.heap q)) same p
  skip_all_keeps P fuel parent reason (c ∷ cs) s s' kept e p =
      elim (Option-cases (skip_child fuel now parent reason c s)) [
        | inl f ↦ absurd (cc (rw (f, skip_all) at e))
        | inr (u, f) ↦
            skip_all_keeps P fuel parent reason cs u s' kept (rw (f, skip_all) at e)
              (skip_child_keeps P fuel parent reason c s u kept f p)
      ]

  -- A child, and what is below it.
  skip_child-IsSkipped :
      (fuel : ℕ) (parent reason c v : String) (s s' : State)
      → (v ≡ c) ⊎ Below s.dependents c v
      → lookup v s.tasks ≡ some q
      → skip_child fuel now parent reason c s ≡ some s'
      → IsSkipped (s'.heap q)
  skip_child-IsSkipped fuel parent reason c v s s' way here e =
      let (h, f, same) = skip_child_parts fuel now parent reason c s s' e in
      subst (λ (u : State). IsSkipped (u.heap q)) (sym same)
        (elim way [
          | inl p ↦
              let stored : lookup c s.tasks ≡ some q =
                subst (λ u. lookup u s.tasks ≡ some q) p here in
              cascade_skip-clears s.tasks s.dependents now q fuel c _ h stored
                (update_status-status s.tasks s.dependents now q c _ TaskStatus.skipped [] _ stored)
                f
          | inr b ↦ cascade_skip-IsSkipped s.tasks s.dependents now q fuel c v _ h b here f
        ])

  pub skip_all-IsSkipped :
      (fuel : ℕ) (parent reason v c : String) (cs : List String) (s s' : State)
      → In c cs
      → (v ≡ c) ⊎ Below s.dependents c v
      → lookup v s.tasks ≡ some q
      → skip_all fuel now parent reason cs s ≡ some s'
      → IsSkipped (s'.heap q)
  unfolding skip_all
  skip_all-IsSkipped fuel parent reason v c [] s s' m way here e = absurd m
  skip_all-IsSkipped fuel parent reason v c (d ∷ cs) s s' m way here e =
      elim (Option-cases (skip_child fuel now parent reason d s)) [
        | inl f ↦ absurd (cc (rw (f, skip_all) at e))
        | inr (u, f) ↦
            let rest = rw (f, skip_all) at e in
            let (h, _, same) = skip_child_parts fuel now parent reason d s u f in
            elim m [
              | inl p ↦
                  skip_all_keeps IsSkipped fuel parent reason cs u s' (IsSkipped-IsKept now) rest (
                    skip_child-IsSkipped fuel parent reason d v s u
                      (subst (λ w. (v ≡ w) ⊎ Below s.dependents w v) p way) here f)
              | inr n ↦
                  skip_all-IsSkipped fuel parent reason v c cs u s' n
                    (subst (λ (u : State). (v ≡ c) ⊎ Below u.dependents c v) (sym same) way)
                    (subst (λ (u : State). lookup v u.tasks ≡ some q) (sym same) here) rest
            ]
      ]
