-- ===== src/Models/Graph/Drain.antt =====
-- The loop of detectCycle: its invariant, and that it ends.
use execgo.Base.{
  ℕ, zero, suc, ◌+◌, ◌≤◌, String, ◌≡◌, refl, sym, ap, ◌∙◌, subst, ◌↔◌, ◌⊎◌, inl, inr, false, some,
  List, [], ◌∷◌, ◌++◌, arith, length, length-append, has, has_iff, In-cases, count, count-pos_of_In,
  In_of_count-pos, count-eq_zero, count-le_one, IsDistinct-of_count, length-le_of_subset, In,
  In-append, In-append_left, In-append_right, IsDistinct, ℤ, pos,
}
use native.Mathlib.Numerals.{add-one}
use execgo.Base.Dict.{Dict, get_or}
use execgo.Models.Task.{Task}
use execgo.Models.Graph.{release, drain}
use execgo.Models.Graph.Edges.{
  degree_of, open_count, children, ids, DepsIn, open_count-cons, open_count-eq_zero,
  In-ids_of_children,
}
use execgo.Models.Graph.Release.{IsReleased, release_lem}

-- Newest first: behind each id stand the ids of all that its tasks depend on.
abbrev pub IsOrdered : List Task → List String → Type 0
IsOrdered ts [] = Unit
IsOrdered ts (v ∷ before) = DepsIn ts v before × IsOrdered ts before

-- `done` are the ids taken from the queue so far, newest first.
pub record Inv (ts : List Task) (done queue : List String) (degree : Dict ℤ) : Type 0 where
  pub degrees : (v : String) → degree_of degree v ≡ pos (open_count done v ts)
  pub queue_distinct : IsDistinct queue
  pub done_distinct : IsDistinct done
  pub apart : (v : String) → In v queue → ¬ In v done
  pub ready : (v : String) → (In v queue ⊎ In v done) ↔ (In v (ids ts) × (open_count done v ts ≡ 0))
  pub ordered : IsOrdered ts done

pub IsDistinct-append :
    (xs ys : List String)
    → IsDistinct xs
    → IsDistinct ys
    → ((v : String) → In v xs → ¬ In v ys)
    → IsDistinct (xs ++ ys)
IsDistinct-append [] ys d e h = e
IsDistinct-append (x ∷ xs) ys d e h = (
  λ m. elim (In-append x xs ys m) [ inl l ↦ d.0 l | inr r ↦ h x (inl refl) r ],
  IsDistinct-append xs ys d.1 e (λ v m. h v (inr m)),
)

module _ (ts : List Task) (node : String) (done queue : List String) (degree : Dict ℤ)
    (inv : Inv ts done (node ∷ queue) degree) where
  open inv use {degrees, queue_distinct, done_distinct, apart, ready, ordered}

  not_done : has node done ≡ false
  unfolding has
  not_done = ground (arith, has_iff node done, apart node (inl refl))

  pub taken_off :
      (v : String)
      → open_count (node ∷ done) v ts + count v (children node ts) ≡ open_count done v ts
  taken_off v = open_count-cons node v done ts not_done

  pub next-Inv :
      (degree' : Dict ℤ) (queue' : List String)
      → ((v : String) → degree_of degree' v ≡ pos (open_count (node ∷ done) v ts))
      → IsReleased (children node ts) queue queue' (λ v. open_count (node ∷ done) v ts)
      → Inv ts (node ∷ done) queue' degree'
  next-Inv degree' queue' degrees' r = record {
    degrees = degrees';
    queue_distinct = rw r.behind (
        IsDistinct-append queue r.added queue_distinct.1 r.distinct
          (λ v m n. fresh v n (inl (inr m))));
    done_distinct = (apart node (inl refl), done_distinct);
    apart = λ v m. elim (In-append v queue r.added (subst (In v) r.behind m)) [
      | inl old ↦ λ n. elim n [
        | inl e ↦ queue_distinct.0 (subst (λ w. In w queue) e old)
        | inr k ↦ apart v (inr old) k
      ]
      | inr new ↦ λ n. elim n [ inl e ↦ fresh v new (inl (inl e)) | inr k ↦ fresh v new (inr k) ]
    ];
    ready = λ v. (ready_only v, ready_all v);
    ordered = ((open_count-eq_zero done node ts).0 ((ready node).0 (inl (inl refl))).1, ordered);
  }
    where
      fresh : (v : String) → In v r.added → ¬ (In v (node ∷ queue) ⊎ In v done)
      fresh v m old = absurd (
          omega (
            arith,
            taken_off v,
            (ready v).0 old,
            count-pos_of_In v (children node ts) ((r.members v).0 m).0,
          ))

      ready_only :
          (v : String)
          → In v queue' ⊎ In v (node ∷ done)
          → In v (ids ts) × (open_count (node ∷ done) v ts ≡ 0)
      ready_only v (inl m) = elim (In-append v queue r.added (subst (In v) r.behind m)) [
        | inl old ↦
            let (known, e) = (ready v).0 (inl (inr old)) in (known, omega (arith, taken_off v))
        | inr new ↦ let (child, e) = (r.members v).0 new in (In-ids_of_children node v ts child, e)
      ]
      ready_only v (inr (inl p)) =
          let (known, e) = (ready v).0 (inl (inl p)) in (known, omega (arith, taken_off v))
      ready_only v (inr (inr k)) =
          let (known, e) = (ready v).0 (inr k) in (known, omega (arith, taken_off v))

      old :
          (v : String)
          → In v (ids ts)
          → open_count (node ∷ done) v ts ≡ 0
          → ¬ In v (children node ts)
          → In v (node ∷ queue) ⊎ In v done
      old v known e other =
          (ready v).1 (known, omega (arith, taken_off v, count-eq_zero v (children node ts) other))

      unmoved : (v : String) → In v (node ∷ queue) ⊎ In v done → In v queue' ⊎ In v (node ∷ done)
      unmoved v (inl (inl p)) = inr (inl p)
      unmoved v (inl (inr m)) = inl (subst (In v) (sym r.behind) (In-append_left v queue r.added m))
      unmoved v (inr k) = inr (inr k)

      ready_all :
          (v : String)
          → In v (ids ts) × (open_count (node ∷ done) v ts ≡ 0)
          → In v queue' ⊎ In v (node ∷ done)
      ready_all v (known, e) = elim (In-cases v (children node ts)) [
        | inl child ↦ inl (
            subst (In v) (sym r.behind)
              (In-append_right v queue r.added ((r.members v).1 (child, e))))
        | inr other ↦ unmoved v (old v known e other)
      ]

  -- One round keeps the invariant.
  pub round-Inv :
      (listed : List String)
      → listed ≡ children node ts
      → let next = release listed degree queue in Inv ts (node ∷ done) next.1 next.0
  round-Inv listed e =
      let (low, r) =
        release_lem listed degree queue (λ v. open_count (node ∷ done) v ts)
          (λ v. rw e (degrees v ∙ ap pos (sym (taken_off v)))) in
      next-Inv _ _ low (
        subst
          (λ l.
            IsReleased l queue (release listed degree queue).1 (λ v. open_count (node ∷ done) v ts))
          e r)

-- An id is in `done` or queued only if it is a task's, so there are no more of them than tasks.
done-le :
    (ts : List Task) (done queue : List String) (degree : Dict ℤ)
    → Inv ts done queue degree
    → length done + length queue ≤ length (ids ts)
done-le ts done queue degree inv = omega (
  arith,
  length-append queue done,
  length-le_of_subset (queue ++ done) (ids ts)
      (IsDistinct-append queue done inv.queue_distinct inv.done_distinct inv.apart)
      (λ v m. ((inv.ready v).0 (In-append v queue done m)).0),
)

-- With a round for each task that is not done yet the loop ends with the queue empty.
pub drain_lem :
    (ts : List Task) (dependents : Dict (List String))
    → ((d : String) → get_or dependents d [] ≡ children d ts)
    → (fuel : ℕ) (done queue : List String) (degree : Dict ℤ) → Inv ts done queue degree
    → length (ids ts) ≤ fuel + length done
    → (final : List String) × (degree' : Dict ℤ) × Inv ts final [] degree'
      × (drain fuel dependents degree queue (length done) ≡ some (length final))
unfolding drain
drain_lem ts dependents dep fuel done [] degree inv h = (done, degree, inv, refl)
drain_lem ts dependents dep zero done (node ∷ queue) degree inv h =
    absurd (omega (arith, done-le ts done (node ∷ queue) degree inv))
drain_lem ts dependents dep (suc fuel) done (node ∷ queue) degree inv h =
    let next = release (get_or dependents node []) degree queue in
    let (final, degree', inv', e) =
      drain_lem ts dependents dep fuel (node ∷ done) next.1 next.0
        (round-Inv ts node done queue degree inv (get_or dependents node []) (dep node))
        (omega arith) in
    (
      final,
      degree',
      inv',
      subst (λ n. drain fuel dependents next.0 next.1 n ≡ some (length final))
          (sym (add-one (length done))) e,
    )

-- The invariant looks at the queue as a bag of ids.
pub Inv-perm :
    (ts : List Task) (done queue queue' : List String) (degree : Dict ℤ)
    → ((v : String) → count v queue' ≡ count v queue)
    → Inv ts done queue degree
    → Inv ts done queue' degree
Inv-perm ts done queue queue' degree same inv =
    let to : (v : String) → In v queue → In v queue' =
      λ v m. In_of_count-pos v queue' (omega (arith, same v, count-pos_of_In v queue m)) in
    let back : (v : String) → In v queue' → In v queue =
      λ v m. In_of_count-pos v queue (omega (arith, same v, count-pos_of_In v queue' m)) in
    record {
      degrees = inv.degrees;
      queue_distinct =
          IsDistinct-of_count queue'
            (λ v. omega (arith, same v, count-le_one v queue inv.queue_distinct));
      done_distinct = inv.done_distinct;
      apart = λ v m. inv.apart v (back v m);
      ready = λ v. (
        λ m. (inv.ready v).0 (elim m [ inl k ↦ inl (back v k) | inr k ↦ inr k ]),
        λ h. elim ((inv.ready v).1 h) [ inl k ↦ inl (to v k) | inr k ↦ inr k ],
      );
      ordered = inv.ordered;
    }
