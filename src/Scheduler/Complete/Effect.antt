-- ===== src/Scheduler/Complete/Effect.antt =====
-- cascadeSkip: what it writes.
use execgo.Base.{
  ℕ, zero, suc, String, ◌≡◌, refl, sym, ap, ◌∙◌, subst, ◌≢◌, ◌⊎◌, inl, inr, Option, some, List, [],
  ◌∷◌, arith, eq_ℕ, Bool-cases, Option-cases, In,
}
use execgo.Base.Dict.{Dict, lookup, get_or}
use execgo.Models.Runtime.{Raw, Time}
use execgo.Models.Task.{Task, TaskStatus}
use execgo.Store.{Ptr, Heap, Manager, modify, with_status, update_status}
use execgo.Scheduler.Complete.{
  clear_runtime, clear_runtime_of, reason_text, skip_children, cascade_skip,
}
use execgo.Scheduler.Complete.Cascade.{Below, Below-first, child, further, IsSkipped}

pub modify_ind :
    (P : Task → Type 0) (p q : Ptr) (f : Task → Task) (h : Heap)
    → P (h q)
    → (p ≡ q → P (f (h q)))
    → P (modify p f h q)
unfolding modify
modify_ind P p q f h old new = elim (Bool-cases (eq_ℕ p q)) [
  | inl e ↦ rw e (new (ground arith))
  | inr e ↦ rw e old
]

pub modify_self : (p : Ptr) (f : Task → Task) (h : Heap) → modify p f h p ≡ f (h p)
unfolding modify
modify_self p f h = ground arith

-- A property of the task at `q` that the two writes of cascadeSkip keep.
pub record IsKept (now : Time) (P : Task → Type 0) : Type 0 where
  pub cleared : (t : Task) → P t → P (clear_runtime t)
  pub skipped : (t : Task) (msg : String) → P t → P (with_status TaskStatus.skipped [] msg now t)

module _ (tasks : Manager) (now : Time) where
  pub clear_ind :
      (P : Task → Type 0) (id : String) (q : Ptr) (h : Heap)
      → P (h q)
      → (lookup id tasks ≡ some q → P (clear_runtime (h q)))
      → P (clear_runtime_of id tasks h q)
  unfolding clear_runtime_of
  clear_ind P id q h old new = elim (Option-cases (lookup id tasks)) [
    | inl e ↦ rw (e, clear_runtime_of) old
    | inr (p, e) ↦
        rw (e, clear_runtime_of) (modify_ind P p q clear_runtime h old (λ s. new (e ∙ ap some s)))
  ]

  pub update_ind :
      (P : Task → Type 0) (id msg : String) (status : TaskStatus) (result : Raw) (q : Ptr)
      (h : Heap)
      → P (h q)
      → (lookup id tasks ≡ some q → P (with_status status result msg now (h q)))
      → P ((update_status id status result msg now tasks h).0 q)
  unfolding update_status
  update_ind P id msg status result q h old new = elim (Option-cases (lookup id tasks)) [
    | inl e ↦ rw (e, update_status) old
    | inr (p, e) ↦
        rw (e, update_status)
          (modify_ind P p q (with_status status result msg now) h old (λ s. new (e ∙ ap some s)))
  ]

module _ (tasks : Manager) (dependents : Dict (List String)) (now : Time) where
  -- `Touches id q P` holds of a property that the writes keep, if they reach `q` at all.
  abbrev pub Touches : String → Ptr → (Task → Type 0) → Type 0
  Touches id q P =
      (v : String) → (v ≡ id) ⊎ Below dependents id v → lookup v tasks ≡ some q → IsKept now P

  module _ (P : Task → Type 0) (q : Ptr) where
    skip_children_keeps :
        (rec : String → Heap → Option Heap) (parent : String) (cs : List String) (h h' : Heap)
        → ((c : String) (g g' : Heap) → In c cs → rec c g ≡ some g' → P (g q) → P (g' q))
        → ((c : String) → In c cs → lookup c tasks ≡ some q → IsKept now P)
        → skip_children tasks dependents now rec parent cs h ≡ some h'
        → P (h q)
        → P (h' q)
    unfolding skip_children
    skip_children_keeps rec parent [] h h' step kept e p =
        let same : h ≡ h' = cc e in subst (λ (g : Heap). P (g q)) same p
    skip_children_keeps rec parent (c ∷ cs) h h' step kept e p =
        let h₁ =
          (update_status c TaskStatus.skipped [] (reason_text parent "skipped") now tasks h).0 in
        let p₁ : P (h₁ q) =
          update_ind tasks now P c _ TaskStatus.skipped [] q h p
            (λ s. (kept c (inl refl) s).skipped (h q) _ p) in
        elim (Option-cases (rec c h₁)) [
          | inl f ↦ absurd (cc (rw (f, skip_children) at e))
          | inr (h₂, f) ↦
              skip_children_keeps rec parent cs h₂ h' (λ d g g' m. step d g g' (inr m))
                (λ d m. kept d (inr m)) (rw (f, skip_children) at e) (step c h₁ h₂ (inl refl) f p₁)
        ]

    -- What the writes keep, cascadeSkip keeps.
    pub cascade_skip_keeps :
        (fuel : ℕ) (id : String) (h h' : Heap)
        → Touches id q P
        → cascade_skip tasks dependents now fuel id h ≡ some h'
        → P (h q)
        → P (h' q)
    unfolding cascade_skip
    cascade_skip_keeps zero id h h' kept e p = absurd (cc e)
    cascade_skip_keeps (suc fuel) id h h' kept e p =
        skip_children_keeps (cascade_skip tasks dependents now fuel) id (get_or dependents id [])
          (clear_runtime_of id tasks h) h'
          (λ c g g' m. cascade_skip_keeps fuel c g g' (below_kept c m))
          (λ c m. kept c (inr (child m))) e
          (clear_ind tasks now P id q h p (λ s. (kept id (inl refl) s).cleared (h q) p))
      where
        below_kept : (c : String) → In c (get_or dependents id []) → Touches c q P
        below_kept c m v (inl e) =
            kept v (inr (subst (λ u. Below dependents id u) (sym e) (child m)))
        below_kept c m v (inr b) = kept v (inr (further m b))

pub IsSkipped-IsKept : (now : Time) → IsKept now IsSkipped
IsSkipped-IsKept now = record {
  cleared = λ t s. (s.0, refl, refl);
  skipped = λ t msg s. (refl, s.1, s.2);
}

module _ (tasks : Manager) (dependents : Dict (List String)) (now : Time) (q : Ptr) where
  -- The first thing that cascadeSkip does is to clear the runtime of its own task.
  pub cascade_skip-clears :
      (fuel : ℕ) (id : String) (h h' : Heap)
      → lookup id tasks ≡ some q
      → (h q).status ≡ TaskStatus.skipped
      → cascade_skip tasks dependents now fuel id h ≡ some h'
      → IsSkipped (h' q)
  unfolding cascade_skip clear_runtime_of
  cascade_skip-clears zero id h h' here s e = absurd (cc e)
  cascade_skip-clears (suc fuel) id h h' here s e =
      skip_children_keeps tasks dependents now IsSkipped q (cascade_skip tasks dependents now fuel)
        id (get_or dependents id []) (clear_runtime_of id tasks h) h'
        (λ c g g' m.
          cascade_skip_keeps tasks dependents now IsSkipped q fuel c g g'
            (λ _ _ _. IsSkipped-IsKept now))
        (λ _ _ _. IsSkipped-IsKept now) e
        (rw (here, clear_runtime_of)
          (subst IsSkipped (sym (modify_self q clear_runtime h)) (s, refl, refl)))

  pub update_status-status :
      (id msg : String) (status : TaskStatus) (result : Raw) (h : Heap)
      → lookup id tasks ≡ some q
      → ((update_status id status result msg now tasks h).0 q).status ≡ status
  unfolding update_status
  update_status-status id msg status result h here =
      rw (here, update_status)
        (ap (λ t. t.status) (modify_self q (with_status status result msg now) h))

  skip_children-skips :
      (fuel : ℕ) (parent v : String) (cs : List String) (h h' : Heap)
      → lookup v tasks ≡ some q
      → (c : String) → In c cs
      → (v ≡ c) ⊎ Below dependents c v
      → ((c : String) (g g' : Heap)
          → Below dependents c v
          → cascade_skip tasks dependents now fuel c g ≡ some g'
          → IsSkipped (g' q))
      → skip_children tasks dependents now (cascade_skip tasks dependents now fuel) parent cs h
        ≡ some h'
      → IsSkipped (h' q)
  unfolding skip_children
  skip_children-skips fuel parent v [] h h' here c m way below e = absurd m
  skip_children-skips fuel parent v (d ∷ cs) h h' here c m way below e =
      let h₁ =
        (update_status d TaskStatus.skipped [] (reason_text parent "skipped") now tasks h).0 in
      elim (Option-cases (cascade_skip tasks dependents now fuel d h₁)) [
        | inl f ↦ absurd (cc (rw (f, skip_children) at e))
        | inr (h₂, f) ↦
            let rest = rw (f, skip_children) at e in
            elim m [
              | inr n ↦ skip_children-skips fuel parent v cs h₂ h' here c n way below rest
              | inl p ↦
                  skip_children_keeps tasks dependents now IsSkipped q
                    (cascade_skip tasks dependents now fuel) parent cs h₂ h'
                    (λ b g g' k.
                      cascade_skip_keeps tasks dependents now IsSkipped q fuel b g g'
                        (λ _ _ _. IsSkipped-IsKept now))
                    (λ _ _ _. IsSkipped-IsKept now) rest
                    (elim way [
                      | inl same ↦
                          let stored : lookup d tasks ≡ some q =
                            subst (λ u. lookup u tasks ≡ some q) (same ∙ p) here in
                          cascade_skip-clears fuel d h₁ h₂ stored
                            (update_status-status d _ TaskStatus.skipped [] h stored) f
                      | inr b ↦ below d h₁ h₂ (subst (λ u. Below dependents u v) p b) f
                    ])
            ]
      ]

  -- When cascadeSkip returns, every stored task below `id` is skipped and has no runtime.
  pub cascade_skip-IsSkipped :
      (fuel : ℕ) (id v : String) (h h' : Heap)
      → Below dependents id v
      → lookup v tasks ≡ some q
      → cascade_skip tasks dependents now fuel id h ≡ some h'
      → IsSkipped (h' q)
  unfolding cascade_skip
  cascade_skip-IsSkipped zero id v h h' b here e = absurd (cc e)
  cascade_skip-IsSkipped (suc fuel) id v h h' b here e =
      let (c, m, rest) = Below-first b in
      skip_children-skips fuel id v (get_or dependents id []) (clear_runtime_of id tasks h) h' here
        c m (elim rest [ inl p ↦ inl (sym p) | inr d ↦ inr d ])
        (λ d g g' k. cascade_skip-IsSkipped fuel d v g g' k here) e

  -- A task that is stored under no id that is `id` or below it is left alone.
  pub cascade_skip_frame :
      (fuel : ℕ) (id : String) (h h' : Heap)
      → ((v : String) → (v ≡ id) ⊎ Below dependents id v → lookup v tasks ≢ some q)
      → cascade_skip tasks dependents now fuel id h ≡ some h'
      → h' q ≡ h q
  cascade_skip_frame fuel id h h' away e =
      cascade_skip_keeps tasks dependents now (λ t. t ≡ h q) q fuel id h h'
        (λ v m s. absurd (away v m s)) e refl
