-- ===== src/Models/Graph/Valid.antt =====
-- What Validate accepts, and what each of its errors says.
use execgo.Base.{
  ◌+◌, ◌≤◌, String, ◌≡◌, refl, sym, ◌∙◌, subst, ◌≢◌, ◌↔◌, ◌⊎◌, inl, inr, Bool, true, false, List,
  [], ◌∷◌, arith, eq_iff, eq_refl, Bool-cases, text_cases, count, count-pos_of_In, In, All,
  IsDistinct, Except, ok, err, ◌>>=◌,
}
use execgo.Base.Dict.{Dict, insert, get_or, lookup-insert}
use execgo.Models.Task.{Task}
use execgo.Models.Graph.{
  ValidationError, empty_graph, id_required, cycle_detected, type_required, duplicate_id,
  self_dependency, unknown_dependency, collect_ids, check_deps, check_all_deps,
}
use execgo.Models.Graph.Edges.{ids}
use execgo.Models.Graph.Order.{IsPlan}

-- A dependency names another task of the graph.
abbrev pub IsKnownDep : List Task → Task → Type 0
IsKnownDep all t = (dep : String) → In dep t.depends_on → In dep (ids all) × (dep ≢ t.id)

pub record IsValidGraph (ts : List Task) : Type 0 where
  pub nonempty : ts ≢ []
  pub named : All (λ t. (t.id ≢ "") × (t.type ≢ "")) ts
  pub once : IsDistinct (ids ts)
  pub closed : All (IsKnownDep ts) ts
  pub plan : List String
  pub planned : IsPlan ts plan

-- What is wrong with the graph, by the error.
abbrev pub Explains : List Task → ValidationError → Type 0
Explains ts empty_graph = ts ≡ []
Explains ts id_required = (t : Task) × In t ts × (t.id ≡ "")
Explains ts (type_required id) = (t : Task) × In t ts × (t.id ≡ id) × (t.type ≡ "")
Explains ts (duplicate_id id) = 2 ≤ count id (ids ts)
Explains ts (unknown_dependency id dep) =
    (t : Task) × In t ts × (t.id ≡ id) × In dep t.depends_on × (¬ In dep (ids ts))
Explains ts (self_dependency id) = (t : Task) × In t ts × (t.id ≡ id) × In id t.depends_on
Explains ts cycle_detected = ¬ ((plan : List String) × IsPlan ts plan)

-- The map holds the ids of the list.
abbrev pub Holds : Dict Bool → List String → Type 0
Holds m seen = (v : String) → (get_or m v false ≡ true) ↔ In v seen

Holds-insert :
    (m : Dict Bool) (seen : List String) (k : String)
    → Holds m seen
    → Holds (insert k true m) (k ∷ seen)
Holds-insert m seen k h v = ground (arith, lookup-insert k v true m, eq_iff k v, h v)

-- The outcome of the first loop.
abbrev pub Collected : List String → List Task → Except ValidationError (Dict Bool) → Type 0
Collected seen ts (ok m) =
    All (λ t. (t.id ≢ "") × (t.type ≢ "")) ts
    × IsDistinct (ids ts)
    × ((v : String) → In v (ids ts) → ¬ In v seen)
    × ((v : String) → (get_or m v false ≡ true) ↔ (In v seen ⊎ In v (ids ts)))
Collected seen ts (err empty_graph) = ⊥
Collected seen ts (err cycle_detected) = ⊥
Collected seen ts (err (self_dependency id)) = ⊥
Collected seen ts (err (unknown_dependency id dep)) = ⊥
Collected seen ts (err id_required) = (t : Task) × In t ts × (t.id ≡ "")
Collected seen ts (err (type_required id)) = (t : Task) × In t ts × (t.id ≡ id) × (t.type ≡ "")
Collected seen ts (err (duplicate_id id)) = 2 ≤ count id seen + count id (ids ts)

-- A task that passes the tests goes in front of the rest.
Collected-cons :
    (seen : List String) (t : Task) (ts : List Task) (r : Except ValidationError (Dict Bool))
    → t.id ≢ ""
    → t.type ≢ ""
    → ¬ In t.id seen
    → Collected (t.id ∷ seen) ts r
    → Collected seen (t ∷ ts) r
Collected-cons seen t ts (ok m) p q new (named, once, apart, held) = (
  ((p, q), named),
  (λ k. apart t.id k (inl refl), once),
  λ v k. elim k [
    | inl e ↦ λ old. new (subst (λ u. In u seen) e old)
    | inr n ↦ λ old. apart v n (inr old)
  ],
  λ v. ground (arith, held v),
)
Collected-cons seen t ts (err empty_graph) p q new c = c
Collected-cons seen t ts (err cycle_detected) p q new c = c
Collected-cons seen t ts (err (self_dependency id)) p q new c = c
Collected-cons seen t ts (err (unknown_dependency id dep)) p q new c = c
Collected-cons seen t ts (err id_required) p q new (u, k, e) = (u, inr k, e)
Collected-cons seen t ts (err (type_required id)) p q new (u, k, e, f) = (u, inr k, e, f)
Collected-cons seen t ts (err (duplicate_id id)) p q new c = unfold count in ground (arith, c)

pub collect_ids-Collected :
    (ts : List Task) (m : Dict Bool) (seen : List String)
    → Holds m seen
    → Collected seen ts (collect_ids m ts)
unfolding collect_ids
collect_ids-Collected [] m seen h = (tt, tt, λ v n. absurd n, λ v. ground (arith, h v))
collect_ids-Collected (t ∷ ts) m seen h = elim (text_cases t.id "") [
  | inl (p, e) ↦ rw e (t, inl refl, p)
  | inr (p, e) ↦ rw e (elim (text_cases t.type "") [
    | inl (q, f) ↦ rw f (t, inl refl, refl, q)
    | inr (q, f) ↦ rw f (elim (Bool-cases (get_or m t.id false)) [
      | inl g ↦
          rw g
            (unfold count in ground (arith, count-pos_of_In t.id seen ((h t.id).0 g), eq_refl t.id))
      | inr g ↦ rw g (
          Collected-cons seen t ts (collect_ids (insert t.id true m) ts) p q
            (λ k. cc ((h t.id).1 k))
            (collect_ids-Collected ts (insert t.id true m) (t.id ∷ seen)
              (Holds-insert m seen t.id h)))
    ])
  ])
]

-- The outcome of the second loop, for the tasks that are left.
abbrev pub Checked : List Task → List Task → Except ValidationError (Unit {0}) → Type 0
Checked all ts (ok _) = All (IsKnownDep all) ts
Checked all ts (err empty_graph) = ⊥
Checked all ts (err id_required) = ⊥
Checked all ts (err cycle_detected) = ⊥
Checked all ts (err (type_required id)) = ⊥
Checked all ts (err (duplicate_id id)) = ⊥
Checked all ts (err (unknown_dependency id dep)) =
    (t : Task) × In t ts × (t.id ≡ id) × In dep t.depends_on × (¬ In dep (ids all))
Checked all ts (err (self_dependency id)) = (t : Task) × In t ts × (t.id ≡ id) × In id t.depends_on

-- The same for the dependencies of one task that are left.
abbrev DepsChecked : List Task → String → List String → Except ValidationError (Unit {0}) → Type 0
DepsChecked all id deps (ok _) = (d : String) → In d deps → In d (ids all) × (d ≢ id)
DepsChecked all id deps (err empty_graph) = ⊥
DepsChecked all id deps (err id_required) = ⊥
DepsChecked all id deps (err cycle_detected) = ⊥
DepsChecked all id deps (err (type_required _)) = ⊥
DepsChecked all id deps (err (duplicate_id _)) = ⊥
DepsChecked all id deps (err (unknown_dependency j dep)) =
    (j ≡ id) × In dep deps × (¬ In dep (ids all))
DepsChecked all id deps (err (self_dependency j)) = (j ≡ id) × In id deps

DepsChecked-cons :
    (all : List Task) (id d : String) (deps : List String) (r : Except ValidationError (Unit {0}))
    → In d (ids all)
    → d ≢ id
    → DepsChecked all id deps r
    → DepsChecked all id (d ∷ deps) r
DepsChecked-cons all id d deps (ok _) k n c = λ v m. elim m [
  | inl e ↦ (subst (λ u. In u (ids all)) (sym e) k, λ p. n (sym e ∙ p))
  | inr l ↦ c v l
]
DepsChecked-cons all id d deps (err empty_graph) k n c = c
DepsChecked-cons all id d deps (err id_required) k n c = c
DepsChecked-cons all id d deps (err cycle_detected) k n c = c
DepsChecked-cons all id d deps (err (type_required _)) k n c = c
DepsChecked-cons all id d deps (err (duplicate_id _)) k n c = c
DepsChecked-cons all id d deps (err (unknown_dependency _ _)) k n (e, m, u) = (e, inr m, u)
DepsChecked-cons all id d deps (err (self_dependency _)) k n (e, m) = (e, inr m)

module _ (all : List Task) (m : Dict Bool) (h : Holds m (ids all)) where
  check_deps-DepsChecked :
      (id : String) (deps : List String) → DepsChecked all id deps (check_deps m id deps)
  unfolding check_deps
  check_deps-DepsChecked id [] = λ d k. absurd k
  check_deps-DepsChecked id (d ∷ deps) = elim (Bool-cases (get_or m d false)) [
    | inr e ↦ rw e (refl, inl refl, λ k. cc ((h d).1 k))
    | inl e ↦ rw e (elim (text_cases d id) [
      | inl (p, f) ↦ rw f (refl, inl (sym p))
      | inr (p, f) ↦ rw f (
          DepsChecked-cons all id d deps (check_deps m id deps) ((h d).0 e) p
            (check_deps-DepsChecked id deps))
    ])
  ]

  -- The checks of one task, then those of the rest.
  Checked-cons :
      (t : Task) (ts : List Task) (r q : Except ValidationError (Unit {0}))
      → DepsChecked all t.id t.depends_on r
      → Checked all ts q
      → Checked all (t ∷ ts) (r >>= λ _. q)
  Checked-cons t ts (ok _) (ok _) c d = (c, d)
  Checked-cons t ts (ok _) (err empty_graph) c d = d
  Checked-cons t ts (ok _) (err id_required) c d = d
  Checked-cons t ts (ok _) (err cycle_detected) c d = d
  Checked-cons t ts (ok _) (err (type_required _)) c d = d
  Checked-cons t ts (ok _) (err (duplicate_id _)) c d = d
  Checked-cons t ts (ok _) (err (unknown_dependency _ _)) c (u, k, e, f, g) = (u, inr k, e, f, g)
  Checked-cons t ts (ok _) (err (self_dependency _)) c (u, k, e, f) = (u, inr k, e, f)
  Checked-cons t ts (err empty_graph) q c d = c
  Checked-cons t ts (err id_required) q c d = c
  Checked-cons t ts (err cycle_detected) q c d = c
  Checked-cons t ts (err (type_required _)) q c d = c
  Checked-cons t ts (err (duplicate_id _)) q c d = c
  Checked-cons t ts (err (unknown_dependency _ _)) q (e, k, u) d = (t, inl refl, sym e, k, u)
  Checked-cons t ts (err (self_dependency j)) q (e, k) d =
      (t, inl refl, sym e, subst (λ v. In v t.depends_on) (sym e) k)

  pub check_all_deps-Checked : (ts : List Task) → Checked all ts (check_all_deps m ts)
  unfolding check_all_deps
  check_all_deps-Checked [] = tt
  check_all_deps-Checked (t ∷ ts) =
      Checked-cons t ts (check_deps m t.id t.depends_on) (check_all_deps m ts)
        (check_deps-DepsChecked t.id t.depends_on) (check_all_deps-Checked ts)
