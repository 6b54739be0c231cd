-- ===== src/Models/Graph/Edges.antt =====
-- What the first loop of detectCycle builds.
use execgo.Base.{
  ℕ, suc, ◌+◌, String, ◌≡◌, refl, sym, subst, ◌↔◌, ◌⊎◌, inl, inr, false, List, [], ◌∷◌, ◌++◌, map,
  arith, eq_iff, eq_refl, ◌==◌, if◌then◌else◌, Option-cases, text_cases, has, has_iff, count,
  count-append, In, In-append, IsDistinct, ℤ, pos, suc_ℤ,
}
use execgo.Base.Dict.{
  Dict, lookup, insert, get_or, keys, lookup-insert, In-keys-insert, IsDistinct-keys-insert,
  In-keys_of_lookup,
}
use mathlib.Core.List.{append-nil, append_assoc}
use execgo.Models.Task.{Task}
use execgo.Models.Graph.{Degrees, add_edge, add_edges, add_node, build}

-- The dependencies that are not in `done`, counted as often as they are listed.
unfoldable pub open_deps : List String → List String → ℕ
open_deps done [] = 0
open_deps done (dep ∷ deps) =
    if has dep done then open_deps done deps else suc (open_deps done deps)

-- The same for the tasks named `v`.
unfoldable pub open_count : List String → String → List Task → ℕ
unfolding open_deps
open_count done v [] = 0
open_count done v (t ∷ ts) =
    (if t.id == v then open_deps done t.depends_on else 0) + open_count done v ts

unfoldable pub repeat_for : String → String → List String → List String
repeat_for d id [] = []
repeat_for d id (dep ∷ deps) = if dep == d then id ∷ repeat_for d id deps else repeat_for d id deps

-- The tasks that list `d` as a dependency, as often as they list it.
unfoldable pub children : String → List Task → List String
unfolding repeat_for
children d [] = []
children d (t ∷ ts) = repeat_for d t.id t.depends_on ++ children d ts

abbrev pub ids : List Task → List String
ids ts = map (λ t. t.id) ts

abbrev pub degree_of : Dict ℤ → String → ℤ
degree_of m v = get_or m v (pos 0)

degree_of-insert :
    (k v : String) (x : ℤ) (m : Dict ℤ)
    → degree_of (insert k x m) v ≡ (if k == v then x else degree_of m v)
degree_of-insert k v x m = ground (arith, lookup-insert k v x m)

add_node-degree :
    (id v : String) (g : Degrees) → degree_of (add_node id g).in_degree v ≡ degree_of g.in_degree v
unfolding add_node
add_node-degree id v g = ground (arith, lookup-insert id v (pos 0) g.in_degree, eq_iff id v)

add_edge-degree :
    (id v dep : String) (g : Degrees)
    → degree_of (add_edge id dep g).in_degree v
      ≡ (if id == v then suc_ℤ (degree_of g.in_degree v) else degree_of g.in_degree v)
unfolding add_edge
add_edge-degree id v dep g =
    ground
      (arith, degree_of-insert id v (suc_ℤ (degree_of g.in_degree id)) g.in_degree, eq_iff id v)

add_edges-degree :
    (id v : String) (deps : List String) (g : Degrees) (n : ℕ)
    → degree_of g.in_degree v ≡ pos n
    → degree_of (add_edges id deps g).in_degree v
      ≡ pos (n + (if id == v then open_deps [] deps else 0))
unfolding add_edges open_deps has
add_edges-degree id v [] g n e = ground arith
add_edges-degree id v (dep ∷ deps) g n e = ground (
  arith,
  add_edge-degree id v dep g,
  add_edges-degree id v deps (add_edge id dep g) n,
  add_edges-degree id v deps (add_edge id dep g) (suc n),
)

pub build-degree :
    (ts : List Task) (g : Degrees) (v : String) (n : ℕ)
    → degree_of g.in_degree v ≡ pos n
    → degree_of (build ts g).in_degree v ≡ pos (n + open_count [] v ts)
unfolding build open_count
build-degree [] g v n e = ground arith
build-degree (t ∷ ts) g v n e =
    let step = if t.id == v then open_deps [] t.depends_on else 0 in
    ground (
      arith,
      add_node-degree t.id v g,
      add_edges-degree t.id v t.depends_on (add_node t.id g) n,
      build-degree ts (add_edges t.id t.depends_on (add_node t.id g)) v (n + step),
    )

add_edges-dependents :
    (id d : String) (deps : List String) (g : Degrees)
    → get_or (add_edges id deps g).dependents d []
      ≡ get_or g.dependents d [] ++ repeat_for d id deps
unfolding add_edges add_edge repeat_for
add_edges-dependents id d [] g = sym (append-nil _)
add_edges-dependents id d (dep ∷ deps) g = ground (
  arith,
  add_edges-dependents id d deps (add_edge id dep g),
  lookup-insert dep d (get_or g.dependents dep [] ++ id ∷ []) g.dependents,
  eq_iff dep d,
  append_assoc (get_or g.dependents d []) (id ∷ []) (repeat_for d id deps),
)

pub build-dependents :
    (ts : List Task) (g : Degrees) (d : String)
    → get_or (build ts g).dependents d [] ≡ get_or g.dependents d [] ++ children d ts
unfolding build children add_node
build-dependents [] g d = sym (append-nil _)
build-dependents (t ∷ ts) g d = ground (
  arith,
  build-dependents ts (add_edges t.id t.depends_on (add_node t.id g)) d,
  add_edges-dependents t.id d t.depends_on (add_node t.id g),
  append_assoc (get_or g.dependents d []) (repeat_for d t.id t.depends_on) (children d ts),
)

-- The keys of `inDegree`, once each.
abbrev IsKeyed : Degrees → List String → Type 0
IsKeyed g vs = IsDistinct (keys g.in_degree) × ((v : String) → In v (keys g.in_degree) ↔ In v vs)

add_node-IsKeyed :
    (id : String) (g : Degrees) (vs : List String)
    → IsKeyed g vs
    → IsKeyed (add_node id g) (id ∷ vs)
unfolding add_node
add_node-IsKeyed id g vs k = elim (Option-cases (lookup id g.in_degree)) [
  | inl e ↦
      rw (e, add_node)
        (
          IsDistinct-keys-insert id (pos 0) g.in_degree k.0,
          λ v. ground (arith, In-keys-insert id v (pos 0) g.in_degree, k.1 v),
        )
  | inr (x, e) ↦
      rw (e, add_node) (k.0, λ v. ground (arith, In-keys_of_lookup id g.in_degree x e, k.1 v))
]

add_edges-IsKeyed :
    (id : String) (deps : List String) (g : Degrees) (vs : List String)
    → In id vs
    → IsKeyed g vs
    → IsKeyed (add_edges id deps g) vs
unfolding add_edges add_edge
add_edges-IsKeyed id [] g vs m k = k
add_edges-IsKeyed id (dep ∷ deps) g vs m k =
    let x = suc_ℤ (degree_of g.in_degree id) in
    add_edges-IsKeyed id deps (add_edge id dep g) vs m (
      IsDistinct-keys-insert id x g.in_degree k.0,
      λ v. ground (arith, In-keys-insert id v x g.in_degree, k.1 v),
    )

pub build-IsKeyed :
    (ts : List Task) (g : Degrees) (vs : List String)
    → IsKeyed g vs
    → IsDistinct (keys (build ts g).in_degree)
      × ((v : String) → In v (keys (build ts g).in_degree) ↔ (In v vs ⊎ In v (ids ts)))
unfolding build
build-IsKeyed [] g vs k = (k.0, λ v. ground (arith, k.1 v))
build-IsKeyed (t ∷ ts) g vs k =
    let (distinct, members) =
      build-IsKeyed ts (add_edges t.id t.depends_on (add_node t.id g)) (t.id ∷ vs) (
        add_edges-IsKeyed t.id t.depends_on (add_node t.id g) (t.id ∷ vs) (inl refl)
          (add_node-IsKeyed t.id g vs k)) in
    (distinct, λ v. ground (arith, members v))

-- Marking `node` as done takes off its edges, one for each time that a task lists it.
open_deps-cons :
    (node id v : String) (done deps : List String)
    → has node done ≡ false
    → open_deps (node ∷ done) deps + count id (repeat_for node id deps) ≡ open_deps done deps
unfolding open_deps repeat_for has count
open_deps-cons node id v done [] h = omega arith
open_deps-cons node id v done (dep ∷ deps) h =
    ground (arith, eq_iff dep node, eq_refl id, open_deps-cons node id v done deps h)

count-repeat_for_ne :
    (node id v : String) (deps : List String)
    → (id == v) ≡ false
    → count v (repeat_for node id deps) ≡ 0
unfolding repeat_for count
count-repeat_for_ne node id v [] h = refl
count-repeat_for_ne node id v (dep ∷ deps) h = ground (arith, count-repeat_for_ne node id v deps h)

pub open_count-cons :
    (node v : String) (done : List String) (ts : List Task)
    → has node done ≡ false
    → open_count (node ∷ done) v ts + count v (children node ts) ≡ open_count done v ts
unfolding open_count children
open_count-cons node v done [] h = unfold count in refl
open_count-cons node v done (t ∷ ts) h = ground (
  arith,
  eq_iff t.id v,
  count-append v (repeat_for node t.id t.depends_on) (children node ts),
  open_count-cons node v done ts h,
  open_deps-cons node t.id v done t.depends_on h,
  count-repeat_for_ne node t.id v t.depends_on,
)

In_of_repeat_for : (d id v : String) (deps : List String) → In v (repeat_for d id deps) → v ≡ id
unfolding repeat_for
In_of_repeat_for d id v [] m = absurd m
In_of_repeat_for d id v (dep ∷ deps) m = ground (arith, In_of_repeat_for d id v deps)

-- Every child is a task of the graph.
pub In-ids_of_children : (d v : String) (ts : List Task) → In v (children d ts) → In v (ids ts)
unfolding children
In-ids_of_children d v [] m = absurd m
In-ids_of_children d v (t ∷ ts) m =
    elim (In-append v (repeat_for d t.id t.depends_on) (children d ts) m) [
      | inl here ↦ inl (In_of_repeat_for d t.id v t.depends_on here)
      | inr there ↦ inr (In-ids_of_children d v ts there)
    ]

-- Every dependency of the tasks named `v` is done.
abbrev pub DepsIn : List Task → String → List String → Type 0
DepsIn [] v done = Unit
DepsIn (t ∷ ts) v done =
    (t.id ≡ v → (dep : String) → In dep t.depends_on → In dep done) × DepsIn ts v done

open_deps-eq_zero :
    (done deps : List String)
    → (open_deps done deps ≡ 0) ↔ ((dep : String) → In dep deps → In dep done)
unfolding open_deps
open_deps-eq_zero done [] = (λ _ dep m. absurd m, λ _. refl)
open_deps-eq_zero done (d ∷ deps) =
    let (closed, opened) = open_deps-eq_zero done deps in
    (
      λ e dep m. elim m [
        | inl p ↦ subst (λ x. In x done) (sym p) (ground (arith, has_iff d done))
        | inr k ↦ closed (ground arith) dep k
      ],
      λ all. ground (arith, has_iff d done, all d (inl refl), opened (λ dep m. all dep (inr m))),
    )

pub open_count-eq_zero :
    (done : List String) (v : String) (ts : List Task)
    → (open_count done v ts ≡ 0) ↔ DepsIn ts v done
unfolding open_count
open_count-eq_zero done v [] = (λ _. tt, λ _. refl)
open_count-eq_zero done v (t ∷ ts) =
    let (closed, opened) = open_deps-eq_zero done t.depends_on in
    let (rest_closed, rest_opened) = open_count-eq_zero done v ts in
    (
      λ e. (λ p. closed (ground (arith, eq_iff t.id v)), rest_closed (ground arith)),
      λ h. elim (text_cases t.id v) [
        | inl (p, e) ↦ ground (arith, opened (h.0 p), rest_opened h.1)
        | inr (p, e) ↦ ground (arith, rest_opened h.1)
      ],
    )
