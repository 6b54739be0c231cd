-- ===== src/Models/Graph/Tests.antt =====
-- Validate on small graphs.
use execgo.Base.{String, ◌≡◌, refl, none, some, List, [], ◌∷◌, pos, ok, err}
use execgo.Base.Dict.{insert}
use execgo.Models.Runtime.{RuntimeStatus}
use execgo.Models.Task.{Task, TaskStatus}
use execgo.Models.Graph.{
  cycle_detected, duplicate_id, unknown_dependency, self_dependency, count_visited, drain, release,
  roots, build, add_node, add_edges, add_edge, detect_cycle, collect_ids, check_all_deps,
  check_deps, validate,
}
use execgo.Models.Graph.Order.{IsWalk, IsPlan, detect_cycle-IsPlan}
use execgo.Models.Graph.Chains.{Chain}
use execgo.Models.Graph.Valid.{IsValidGraph, Explains}
use execgo.Models.Graph.Accept.{validate-IsValidGraph, validate-Explains, validate_no_cycle, graph}

abbrev task : String → List String → Task
task id deps = record {
  id = id;
  type = "noop";
  params = [];
  tool_name = "";
  input = [];
  category = "";
  depends_on = deps;
  retry = pos 0;
  timeout = pos 0;
  annotations = [];
  status = TaskStatus.other "";
  run_status = RuntimeStatus.unset;
  handle_id = "";
  progress = [];
  result = [];
  runtime = none;
  events = [];
  error = "";
  created_at = 0;
  updated_at = 0;
}

-- The walk in the order of the list, and the walk backwards.
abbrev forward : List String → List String
forward vs = vs

forward-IsWalk : IsWalk forward
forward-IsWalk = record { members = λ vs v. (λ m. m, λ m. m); distinct = λ vs d. d }

abbrev diamond : List Task
diamond =
    task "d" ("b" ∷ "c" ∷ []) ∷ task "b" ("a" ∷ "a" ∷ []) ∷ task "c" ("a" ∷ []) ∷ task "a" [] ∷ []

abbrev ring : List Task
ring = task "a" ("c" ∷ []) ∷ task "b" ("a" ∷ []) ∷ task "c" ("b" ∷ []) ∷ task "d" [] ∷ []

program : Unit {0}
unfolding validate collect_ids check_all_deps check_deps detect_cycle count_visited drain release
    roots build add_node add_edges add_edge insert
program = tt

validate-diamond : validate forward (graph diamond) ≡ ok tt
unfolding program
validate-diamond = refl

validate-ring : validate forward (graph ring) ≡ err cycle_detected
unfolding program
validate-ring = refl

visited_ring : count_visited forward ring ≡ some 1
unfolding program
visited_ring = refl

validate_twice : validate forward (graph (task "a" [] ∷ task "a" [] ∷ [])) ≡ err (duplicate_id "a")
unfolding program
validate_twice = refl

validate_unknown :
    validate forward (graph (task "a" ("z" ∷ []) ∷ [])) ≡ err (unknown_dependency "a" "z")
unfolding program
validate_unknown = refl

validate_self : validate forward (graph (task "a" ("a" ∷ []) ∷ [])) ≡ err (self_dependency "a")
unfolding program
validate_self = refl

validate-IsValidGraph_example : IsValidGraph diamond
validate-IsValidGraph_example =
    (validate-IsValidGraph forward forward-IsWalk diamond).0 validate-diamond

validate-Explains_example : Explains ring cycle_detected
validate-Explains_example =
    validate-Explains forward forward-IsWalk ring cycle_detected validate-ring

validate_no_cycle_example : ¬ Chain diamond "d" "d"
validate_no_cycle_example = validate_no_cycle forward forward-IsWalk diamond "d" validate-diamond

detect_cycle-diamond : detect_cycle forward diamond ≡ ok tt
unfolding program
detect_cycle-diamond = refl

detect_cycle-IsPlan_example : (plan : List String) × IsPlan diamond plan
detect_cycle-IsPlan_example =
    (detect_cycle-IsPlan forward forward-IsWalk diamond validate-IsValidGraph_example.once).0
      detect_cycle-diamond
