-- ===== src/Models/Graph.antt =====
-- pkg/models/task.go: Validate and detectCycle.
pub mod Edges
pub mod Release
pub mod Order
pub mod Chains
pub mod Valid
pub mod Accept
mod Tests
pub mod Drain
use execgo.Base.{
  ℕ, zero, suc, ◌+◌, String, Bool, true, false, not, Option, none, some, List, [], ◌∷◌, ◌++◌, eq_ℕ,
  ◌==◌, if◌then◌else◌, length, ℤ, pos, pred_ℤ, suc_ℤ, is_zero, Except, ok, err, ◌>>=◌, ◌>>◌,
  refuse_if,
}
use execgo.Base.Dict.{Dict, lookup, insert, get_or, keys}
use execgo.Models.Task.{Task, TaskGraph}

-- The errors of Validate, with the texts that their messages quote.
pub data ValidationError : Type 0 where
  empty_graph id_required cycle_detected : ValidationError
  type_required duplicate_id self_dependency : String → ValidationError
  unknown_dependency : String → String → ValidationError

-- The first loop of Validate; `ids` is the map that it fills.
unfoldable pub collect_ids : Dict Bool → List Task → Except ValidationError (Dict Bool)
collect_ids ids [] = ok ids
collect_ids ids (t ∷ ts) = do
  refuse_if (t.id == "") id_required
  refuse_if (t.type == "") (type_required t.id)
  refuse_if (get_or ids t.id false) (duplicate_id t.id)
  collect_ids (insert t.id true ids) ts

-- The dependencies of one task.
unfoldable pub check_deps : Dict Bool → String → List String → Except ValidationError (Unit {0})
check_deps ids id [] = ok tt
check_deps ids id (dep ∷ deps) = do
  refuse_if (not (get_or ids dep false)) (unknown_dependency id dep)
  refuse_if (dep == id) (self_dependency id)
  check_deps ids id deps

-- The second loop of Validate.
unfoldable pub check_all_deps : Dict Bool → List Task → Except ValidationError (Unit {0})
check_all_deps ids [] = ok tt
check_all_deps ids (t ∷ ts) = do check_deps ids t.id t.depends_on; check_all_deps ids ts

-- What detectCycle keeps: `inDegree` and `dependents`.
pub record Degrees : Type 0 where
  pub in_degree : Dict ℤ
  pub dependents : Dict (List String)

-- `inDegree[id]++; dependents[dep] = append(dependents[dep], id)`
unfoldable pub add_edge : String → String → Degrees → Degrees
add_edge id dep g = record {
  in_degree = insert id (suc_ℤ (get_or g.in_degree id (pos 0))) g.in_degree;
  dependents = insert dep (get_or g.dependents dep [] ++ id ∷ []) g.dependents;
}

unfoldable pub add_edges : String → List String → Degrees → Degrees
add_edges id [] g = g
add_edges id (dep ∷ deps) g = add_edges id deps (add_edge id dep g)

-- `if _, ok := inDegree[id]; !ok { inDegree[id] = 0 }`
unfoldable pub add_node : String → Degrees → Degrees
add_node id g = elim (lookup id g.in_degree) [
  | none ↦ record g { in_degree = insert id (pos 0) g.in_degree }
  | some _ ↦ g
]

unfoldable pub build : List Task → Degrees → Degrees
build [] g = g
build (t ∷ ts) g = build ts (add_edges t.id t.depends_on (add_node t.id g))

-- The keys of degree 0, in the order in which the map is walked.
unfoldable pub roots : Dict ℤ → List String → List String
roots degree [] = []
roots degree (id ∷ ids) =
    if is_zero (get_or degree id (pos 0)) then id ∷ roots degree ids else roots degree ids

-- `for _, child := range dependents[node]`, over `inDegree` and `queue`.
unfoldable pub release : List String → Dict ℤ → List String → Dict ℤ × List String
release [] degree queue = (degree, queue)
release (child ∷ children) degree queue =
    let left = pred_ℤ (get_or degree child (pos 0)) in
    release children (insert child left degree)
      (if is_zero left then queue ++ child ∷ [] else queue)

-- `for len(queue) > 0`, with fuel; `none` means that the fuel ran out.
unfoldable pub drain : ℕ → Dict (List String) → Dict ℤ → List String → ℕ → Option ℕ
drain fuel dependents degree [] visited = some visited
drain zero dependents degree (node ∷ queue) visited = none
drain (suc fuel) dependents degree (node ∷ queue) visited =
    let next = release (get_or dependents node []) degree queue in
    drain fuel dependents next.0 next.1 (visited + 1)

-- Go walks a map in no fixed order: `order` is the order of the walk over the keys of `inDegree`.
-- Each id is queued once at most, so as many rounds as tasks are enough.
module _ (order : List String → List String) where
  unfoldable pub count_visited : List Task → Option ℕ
  count_visited tasks =
      let g = build tasks (record { in_degree = []; dependents = [] }) in
      drain (length tasks) g.dependents g.in_degree (roots g.in_degree (order (keys g.in_degree))) 0

  unfoldable pub detect_cycle : List Task → Except ValidationError (Unit {0})
  detect_cycle tasks = elim (count_visited tasks) [
    | some visited ↦ refuse_if (not (eq_ℕ visited (length tasks))) cycle_detected
    | none ↦ err cycle_detected
  ]

  unfoldable pub validate : TaskGraph → Except ValidationError (Unit {0})
  validate g = do
    refuse_if (eq_ℕ (length g.tasks) 0) empty_graph
    ids ← collect_ids [] g.tasks
    check_all_deps ids g.tasks
    detect_cycle g.tasks
