-- ===== src/Store.antt =====
-- pkg/store/jsonfile/jsonfile.go: the table of tasks, and the tasks that its pointers lead to.
pub mod Recovery
pub mod Atomic
mod Tests
use execgo.Base.{ℕ, String, Bool, true, false, Option, none, some, List, map, eq_ℕ, if◌then◌else◌}
use execgo.Base.Dict.{Dict, lookup, insert, remove}
use execgo.Models.Runtime.{Raw, Time}
use execgo.Models.Task.{Task, TaskStatus}

-- `*models.Task`, and what each pointer leads to.
abbrev pub Ptr : Type 0
Ptr = ℕ

abbrev pub Heap : Type 0
Heap = Ptr → Task

-- An assignment through the pointer `p`.
unfoldable pub modify : Ptr → (Task → Task) → Heap → Heap
modify p f h q = if eq_ℕ p q then f (h q) else h q

-- Manager: the field `tasks`. The lock makes each method one step.
abbrev pub Manager : Type 0
Manager = Dict Ptr

unfoldable pub put : Heap → Ptr → Manager → Manager
put h p m = insert (h p).id p m

unfoldable pub get : String → Manager → Option Ptr
get id m = lookup id m

-- `order` is the order in which Go walks the map.
unfoldable pub get_all : (Manager → Manager) → Manager → List Ptr
get_all order m = map (λ e. e.1) (order m)

unfoldable pub delete : String → Manager → Manager × Bool
delete id m = elim (lookup id m) [ none ↦ (m, false) | some _ ↦ (remove id m, true) ]

abbrev pub with_status : TaskStatus → Raw → String → Time → Task → Task
with_status status result err_msg now t = record t {
  status = status;
  result = result;
  error = err_msg;
  updated_at = now;
}

unfoldable pub update_status :
    String → TaskStatus → Raw → String → Time → Manager → Heap → Heap × Bool
update_status id status result err_msg now m h = elim (lookup id m) [
  | none ↦ (h, false)
  | some p ↦ (modify p (with_status status result err_msg now) h, true)
]
