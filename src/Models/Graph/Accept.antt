-- ===== src/Models/Graph/Accept.antt =====
-- Validate as a whole: what it accepts, and why it refuses.
use execgo.Base.{
  ℕ, suc, String, ◌≡◌, refl, sym, subst, ◌≢◌, ◌↔◌, ◌⊎◌, inl, inr, Bool, false, List, [], ◌∷◌, arith,
  eq_ℕ, length, count, count-le_one, All, IsDistinct, All-In, Except, ok, err, ◌>>=◌, ◌>>◌,
}
use execgo.Base.Dict.{Dict}
use execgo.Models.Task.{Task, TaskGraph}
use execgo.Models.Graph.{
  ValidationError, empty_graph, id_required, cycle_detected, type_required, duplicate_id,
  self_dependency, unknown_dependency, collect_ids, check_all_deps, detect_cycle, validate,
}
use execgo.Models.Graph.Edges.{ids}
use execgo.Models.Graph.Chains.{Chain, IsPlan-no_cycle}
use execgo.Models.Graph.Order.{IsWalk, detect_cycle-IsPlan}
use execgo.Models.Graph.Valid.{
  IsKnownDep, IsValidGraph, Explains, Collected, Checked, collect_ids-Collected,
  check_all_deps-Checked,
}

-- A valid graph is accepted, and an error is explained.
abbrev Verdict : List Task → Except ValidationError (Unit {0}) → Type 0
Verdict ts (ok _) = IsValidGraph ts
Verdict ts (err e) = Explains ts e

abbrev pub graph : List Task → TaskGraph
graph ts = record { tasks = ts }

-- What an error says is false of a valid graph.
not_both : (ts : List Task) (e : ValidationError) → Explains ts e → ¬ IsValidGraph ts
not_both ts empty_graph x v = v.nonempty x
not_both ts id_required (t, m, e) v = (All-In _ t ts v.named m).0 e
not_both ts (type_required id) (t, m, _, e) v = (All-In _ t ts v.named m).1 e
not_both ts (duplicate_id id) x v = absurd (omega (arith, count-le_one id (ids ts) v.once))
not_both ts (unknown_dependency id dep) (t, m, _, k, n) v =
    n ((All-In (IsKnownDep ts) t ts v.closed m dep k).0)
not_both ts (self_dependency id) (t, m, e, k) v =
    (All-In (IsKnownDep ts) t ts v.closed m id k).1 (sym e)
not_both ts cycle_detected x v = x (v.plan, v.planned)

detect_cycle_cases :
    (order : List String → List String) (ts : List Task)
    → (detect_cycle order ts ≡ ok tt) ⊎ (detect_cycle order ts ≡ err cycle_detected)
unfolding detect_cycle
detect_cycle_cases order ts = ground arith

module _ (order : List String → List String) (walk : IsWalk order) (ts : List Task) where
  cycle-Verdict :
      ts ≢ []
      → All (λ t. (t.id ≢ "") × (t.type ≢ "")) ts
      → IsDistinct (ids ts)
      → All (IsKnownDep ts) ts
      → Verdict ts (detect_cycle order ts)
  cycle-Verdict some_task named once closed =
      let (planned, accepted) = detect_cycle-IsPlan order walk ts once in
      elim (detect_cycle_cases order ts) [
        | inl e ↦
            let (plan, p) = planned e in
            rw e (record {
              nonempty = some_task;
              named = named;
              once = once;
              closed = closed;
              plan = plan;
              planned = p;
            })
        | inr e ↦ rw e (λ p. cc (accepted p))
      ]

  deps-Verdict :
      (m : Dict Bool)
      → ts ≢ []
      → Collected [] ts (ok m)
      → (r : Except ValidationError (Unit {0})) → Checked ts ts r
      → Verdict ts (r >> detect_cycle order ts)
  deps-Verdict m some_task (named, once, _, held) (ok _) c = cycle-Verdict some_task named once c
  deps-Verdict m some_task _ (err empty_graph) c = absurd c
  deps-Verdict m some_task _ (err id_required) c = absurd c
  deps-Verdict m some_task _ (err cycle_detected) c = absurd c
  deps-Verdict m some_task _ (err (type_required _)) c = absurd c
  deps-Verdict m some_task _ (err (duplicate_id _)) c = absurd c
  deps-Verdict m some_task _ (err (unknown_dependency _ _)) c = c
  deps-Verdict m some_task _ (err (self_dependency _)) c = c

  ids-Verdict :
      ts ≢ []
      → (r : Except ValidationError (Dict Bool)) → Collected [] ts r
      → Verdict ts (r >>= λ m. check_all_deps m ts >> detect_cycle order ts)
  unfolding count
  ids-Verdict some_task (ok m) c =
      let (_, _, _, held) = c in
      deps-Verdict m some_task c (check_all_deps m ts)
        (check_all_deps-Checked ts m (λ v. ground (arith, held v)) ts)
  ids-Verdict some_task (err empty_graph) c = absurd c
  ids-Verdict some_task (err id_required) c = c
  ids-Verdict some_task (err cycle_detected) c = absurd c
  ids-Verdict some_task (err (type_required _)) c = c
  ids-Verdict some_task (err (duplicate_id id)) c = omega arith
  ids-Verdict some_task (err (unknown_dependency _ _)) c = absurd c
  ids-Verdict some_task (err (self_dependency _)) c = absurd c

suc-ne-zero : (n : ℕ) → eq_ℕ (suc n) 0 ≡ false
suc-ne-zero n = ground arith

validate-Verdict :
    (order : List String → List String)
    → IsWalk order
    → (ts : List Task) → Verdict ts (validate order (graph ts))
unfolding validate
validate-Verdict order walk [] = refl
validate-Verdict order walk (t ∷ ts) = rw (suc-ne-zero (length ts)) (
    ids-Verdict order walk (t ∷ ts) (λ e. cc) (collect_ids [] (t ∷ ts))
      (collect_ids-Collected (t ∷ ts) [] [] (λ v. (λ e. cc, λ m. absurd m))))

Verdict-both :
    (ts : List Task) (r : Except ValidationError (Unit {0}))
    → Verdict ts r
    → (r ≡ ok tt) ↔ IsValidGraph ts
Verdict-both ts (ok _) v = (λ _. v, λ _. refl)
Verdict-both ts (err e) x = (λ p. cc, λ v. absurd (not_both ts e x v))

-- For every order in which Go walks the map: Validate returns nil exactly for the graphs that
-- have a task, whose ids are distinct and not empty, whose types are not empty, whose
-- dependencies name other tasks of the graph, and whose tasks can be put in an order in which
-- each stands behind all that it depends on.
pub validate-IsValidGraph :
    (order : List String → List String)
    → IsWalk order
    → (ts : List Task) → (validate order (graph ts) ≡ ok tt) ↔ IsValidGraph ts
validate-IsValidGraph order walk ts = Verdict-both ts _ (validate-Verdict order walk ts)

-- For every order of the walk: whatever error Validate returns, the graph has the fault that it
-- names.
pub validate-Explains :
    (order : List String → List String)
    → IsWalk order
    → (ts : List Task) (e : ValidationError) → validate order (graph ts) ≡ err e
    → Explains ts e
validate-Explains order walk ts e h = subst (Verdict ts) h (validate-Verdict order walk ts)

-- For every order of the walk: in a graph that Validate accepts no chain of dependencies leads
-- back to where it began.
pub validate_no_cycle :
    (order : List String → List String)
    → IsWalk order
    → (ts : List Task) (v : String) → validate order (graph ts) ≡ ok tt
    → ¬ Chain ts v v
validate_no_cycle order walk ts v h =
    IsPlan-no_cycle v (IsValidGraph.planned ((validate-IsValidGraph order walk ts).0 h))
