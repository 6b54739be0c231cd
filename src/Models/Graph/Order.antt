-- ===== src/Models/Graph/Order.antt =====
-- detectCycle accepts exactly the graphs whose tasks can be put in order.
use execgo.Base.{
  zero, suc, String, ◌≡◌, refl, ap, ◌∙◌, ◌↔◌, inl, inr, true, some, List, [], ◌∷◌, arith, length,
  length-le_of_subset, subset_of_length-le, In, IsDistinct, ℤ, pos, negsuc, is_zero, ok,
}
use execgo.Base.Dict.{Dict, keys}
use execgo.Models.Task.{Task}
use execgo.Models.Graph.{Degrees, build, roots, count_visited, detect_cycle}
use execgo.Models.Graph.Edges.{
  degree_of, open_count, ids, DepsIn, open_count-eq_zero, build-degree, build-dependents,
  build-IsKeyed,
}
use execgo.Models.Graph.Drain.{IsOrdered, Inv, drain_lem}

-- What Go promises of a walk over a map: each key comes once.
pub record IsWalk (order : List String → List String) : Type 0 where
  pub members : (vs : List String) (v : String) → In v (order vs) ↔ In v vs
  pub distinct : (vs : List String) → IsDistinct vs → IsDistinct (order vs)

-- Each task stands in the plan once, behind it (nearer to the end) all that it depends on.
pub record IsPlan (ts : List Task) (plan : List String) : Type 0 where
  pub complete : (v : String) → In v (ids ts) → In v plan
  pub known : (v : String) → In v plan → In v (ids ts)
  pub once : IsDistinct plan
  pub ordered : IsOrdered ts plan

is_zero_iff : (x : ℤ) → (is_zero x ≡ true) ↔ (x ≡ pos 0)
is_zero_iff (pos zero) = (λ _. refl, λ _. refl)
is_zero_iff (pos (suc n)) = (λ e. cc, λ e. cc)
is_zero_iff (negsuc n) = (λ e. cc, λ e. cc)

pub In-roots :
    (degree : Dict ℤ) (vs : List String) (v : String)
    → In v (roots degree vs) ↔ (In v vs × (degree_of degree v ≡ pos 0))
unfolding roots
In-roots degree [] v = (λ m. absurd m, λ m. absurd m.0)
In-roots degree (x ∷ vs) v = ground (
  arith,
  In-roots degree vs v,
  λ (e : v ≡ x). ap (degree_of degree) e,
  is_zero_iff (degree_of degree x),
)

pub IsDistinct-roots :
    (degree : Dict ℤ) (vs : List String) → IsDistinct vs → IsDistinct (roots degree vs)
unfolding roots
IsDistinct-roots degree [] d = tt
IsDistinct-roots degree (x ∷ vs) d =
    ground (arith, In-roots degree vs x, IsDistinct-roots degree vs)

empty_degrees : Degrees
empty_degrees = record { in_degree = []; dependents = [] }

DepsIn-mono :
    (ts : List Task) (v : String) (xs ys : List String)
    → ((u : String) → In u xs → In u ys)
    → DepsIn ts v xs
    → DepsIn ts v ys
DepsIn-mono [] v xs ys h d = tt
DepsIn-mono (t ∷ ts) v xs ys h d = (λ e dep m. h dep (d.0 e dep m), DepsIn-mono ts v xs ys h d.1)

module _ (order : List String → List String) (walk : IsWalk order) (ts : List Task) where
  start-Inv :
      let g = build ts empty_degrees in
      Inv ts [] (roots g.in_degree (order (keys g.in_degree))) g.in_degree
  unfolding empty_degrees
  start-Inv =
      let g = build ts empty_degrees in
      let (once, members) = build-IsKeyed ts empty_degrees [] (tt, λ v. (λ m. m, λ m. m)) in
      let degrees : (v : String) → degree_of g.in_degree v ≡ pos (open_count [] v ts) =
        λ v. build-degree ts empty_degrees v 0 refl ∙ ap pos (omega arith) in
      record {
        degrees = degrees;
        queue_distinct = IsDistinct-roots g.in_degree _ (walk.distinct _ once);
        done_distinct = tt;
        apart = λ v m n. n;
        ready = λ v. ground (
          arith,
          In-roots g.in_degree (order (keys g.in_degree)) v,
          walk.members (keys g.in_degree) v,
          members v,
          degrees v,
        );
        ordered = tt;
      }

  length-ids : (us : List Task) → length (ids us) ≡ length us
  length-ids [] = refl
  length-ids (u ∷ us) = ap suc (length-ids us)

  -- The loop ends, and what it visited is a set that is closed both ways.
  visits :
      (final : List String) × (degree : Dict ℤ) × Inv ts final [] degree
      × (count_visited order ts ≡ some (length final))
  unfolding count_visited empty_degrees
  visits =
      let g = build ts empty_degrees in
      drain_lem ts g.dependents (λ d. build-dependents ts empty_degrees d) (length ts) [] _
        g.in_degree start-Inv (omega (arith, length-ids ts))

  -- A set that is closed under readiness holds every id of an ordered list.
  catches :
      (final : List String) (degree : Dict ℤ)
      → Inv ts final [] degree
      → (plan : List String) → ((v : String) → In v plan → In v (ids ts))
      → IsOrdered ts plan
      → (v : String) → In v plan
      → In v final
  catches final degree inv [] known ordered v m = absurd m
  catches final degree inv (x ∷ plan) known ordered v m =
      let below = catches final degree inv plan (λ u n. known u (inr n)) ordered.1 in
      elim m [
        | inl e ↦
            rw e
              (elim ((inv.ready x).1 (
                known x (inl refl),
                (open_count-eq_zero final x ts).1 (DepsIn-mono ts x plan final below ordered.0),
              )) [ inl n ↦ absurd n | inr n ↦ n ])
        | inr k ↦ below v k
      ]

  -- For every order of the walk, and tasks with distinct ids: detectCycle returns nil exactly if
  -- the tasks can be put in an order in which each stands behind all that it depends on.
  pub detect_cycle-IsPlan :
      IsDistinct (ids ts)
      → (detect_cycle order ts ≡ ok tt) ↔ ((plan : List String) × IsPlan ts plan)
  unfolding detect_cycle
  detect_cycle-IsPlan once =
      let (final, degree, inv, e) = visits in
      let only : (v : String) → In v final → In v (ids ts) = λ v m. ((inv.ready v).0 (inr m)).0 in
      (
        λ accepted. (
          final,
          record {
            complete =
                subset_of_length-le final (ids ts) inv.done_distinct only
                  (omega (arith, length-ids ts, visited_all final e accepted));
            known = only;
            once = inv.done_distinct;
            ordered = inv.ordered;
          },
        ),
        λ (plan, p). accepts final e (
            omega (
              arith,
              length-ids ts,
              length-le_of_subset final (ids ts) inv.done_distinct only,
              length-le_of_subset (ids ts) final once
                  (λ v m. catches final degree inv plan p.known p.ordered v (p.complete v m)),
            )),
      )
    where
      visited_all :
          (final : List String)
          → count_visited order ts ≡ some (length final)
          → detect_cycle order ts ≡ ok tt
          → length final ≡ length ts
      visited_all final e h = ground arith

      accepts :
          (final : List String)
          → count_visited order ts ≡ some (length final)
          → length final ≡ length ts
          → detect_cycle order ts ≡ ok tt
      accepts final e h = ground arith
