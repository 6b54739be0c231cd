-- ===== src/Scheduler/Complete/Cascade.antt =====
-- cascadeSkip: which tasks it changes, when it ends, and when it does not.
use execgo.Base.{
  ℕ, zero, suc, ◌<◌, String, ◌≡◌, refl, sym, subst, ◌⊎◌, inl, inr, Option, none, some, List, [],
  ◌∷◌, arith, Option-cases, In,
}
use execgo.Base.Dict.{Dict, get_or}
use execgo.Models.Runtime.{Time, RuntimeStatus}
use execgo.Models.Task.{Task, TaskStatus}
use execgo.Store.{Heap, Manager, update_status}
use execgo.Scheduler.Complete.{clear_runtime_of, reason_text, skip_children, cascade_skip}

-- `w` is below `v`: it depends on `v`, at one remove or more.
pub data Below (dependents : Dict (List String)) : String → String → Type 0 where
  child : {v w : String} → In w (get_or dependents v []) → Below dependents v w
  further :
      {u v w : String} → In v (get_or dependents u []) → Below dependents v w → Below dependents u w

pub Below-trans :
    {dependents : Dict (List String)} {u v w : String}
    → Below dependents u v
    → Below dependents v w
    → Below dependents u w
Below-trans (child m) b = further m b
Below-trans (further m a) b = further m (Below-trans a b)

pub Below-first :
    {dependents : Dict (List String)} {u w : String}
    → Below dependents u w
    → (c : String) × In c (get_or dependents u []) × ((c ≡ w) ⊎ Below dependents c w)
Below-first (child {w = w} m) = (w, m, inl refl)
Below-first (further {v = c} m a) = (c, m, inr a)

-- On a cycle the next task is on it too.
Below-next :
    {dependents : Dict (List String)} {v : String}
    → Below dependents v v
    → (c : String) × In c (get_or dependents v []) × Below dependents c c
Below-next {dependents} {v} b =
    let (c, m, rest) = Below-first b in
    (
      c,
      m,
      elim rest [
        | inl e ↦ subst (λ x. Below dependents x x) (sym e) b
        | inr a ↦ Below-trans a (child m)
      ],
    )

-- What cascadeSkip leaves of a task that it reached: skipped, with no runtime.
abbrev pub IsSkipped : Task → Type 0
IsSkipped t =
    (t.status ≡ TaskStatus.skipped) × (t.runtime ≡ none) × (t.run_status ≡ RuntimeStatus.unset)

module _ (tasks : Manager) (dependents : Dict (List String)) (now : Time) where
  -- With a rank that falls along the dependents, as much fuel as the rank is enough.
  skip_children_ends :
      (rec : String → Heap → Option Heap) (parent : String) (cs : List String) (h : Heap)
      → ((c : String) (h : Heap) → In c cs → (h' : Heap) × (rec c h ≡ some h'))
      → (h' : Heap) × (skip_children tasks dependents now rec parent cs h ≡ some h')
  unfolding skip_children
  skip_children_ends rec parent [] h ends = (h, refl)
  skip_children_ends rec parent (c ∷ cs) h ends =
      let h₁ =
        (update_status c TaskStatus.skipped [] (reason_text parent "skipped") now tasks h).0 in
      let (h₂, e) = ends c h₁ (inl refl) in
      let (h₃, f) = skip_children_ends rec parent cs h₂ (λ d g m. ends d g (inr m)) in
      (h₃, rw (e, skip_children) f)

  pub cascade_skip_ends :
      (rank : String → ℕ)
      → ((v w : String) → In w (get_or dependents v []) → rank w < rank v)
      → (fuel : ℕ) (id : String) (h : Heap) → rank id < fuel
      → (h' : Heap) × (cascade_skip tasks dependents now fuel id h ≡ some h')
  unfolding cascade_skip
  cascade_skip_ends rank falls zero id h lt = absurd (omega arith)
  cascade_skip_ends rank falls (suc fuel) id h lt =
      skip_children_ends (cascade_skip tasks dependents now fuel) id (get_or dependents id [])
        (clear_runtime_of id tasks h)
        (λ c g m. cascade_skip_ends rank falls fuel c g (omega (arith, falls id c m)))

  skip_children_diverges :
      (rec : String → Heap → Option Heap) (parent c : String) (cs : List String) (h : Heap)
      → In c cs
      → ((h : Heap) → rec c h ≡ none)
      → skip_children tasks dependents now rec parent cs h ≡ none
  unfolding skip_children
  skip_children_diverges rec parent c [] h m stuck = absurd m
  skip_children_diverges rec parent c (d ∷ cs) h (inl e) stuck =
      let h₁ =
        (update_status d TaskStatus.skipped [] (reason_text parent "skipped") now tasks h).0 in
      rw (subst (λ x. rec x h₁ ≡ none) e (stuck h₁), skip_children) refl
  skip_children_diverges rec parent c (d ∷ cs) h (inr m) stuck =
      let h₁ =
        (update_status d TaskStatus.skipped [] (reason_text parent "skipped") now tasks h).0 in
      elim (Option-cases (rec d h₁)) [
        | inl e ↦ rw (e, skip_children) refl
        | inr (h₂, e) ↦ rw (e, skip_children) (skip_children_diverges rec parent c cs h₂ m stuck)
      ]

  -- From a task that is below itself cascadeSkip never returns, whatever the fuel.
  pub cascade_skip_diverges :
      (fuel : ℕ) (id : String) (h : Heap)
      → Below dependents id id
      → cascade_skip tasks dependents now fuel id h ≡ none
  unfolding cascade_skip
  cascade_skip_diverges zero id h loop = refl
  cascade_skip_diverges (suc fuel) id h loop =
      let (c, m, b) = Below-next loop in
      skip_children_diverges (cascade_skip tasks dependents now fuel) id c (get_or dependents id [])
        (clear_runtime_of id tasks h) m (λ g. cascade_skip_diverges fuel c g b)
