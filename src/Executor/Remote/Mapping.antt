-- ===== src/Executor/Remote/Mapping.antt =====
-- pkg/executor/runtime.go: the map from handles to task ids, through any sequence of calls.
use execgo.Base.{
  String, ◌≡◌, refl, ◌≢◌, inl, inr, Bool, true, false, not, ◌||◌, ◌&&◌, Option, none, some, List,
  [], ◌∷◌, if◌then◌else◌, ◌==◌, Bool-cases, eq_iff, eq_ℕ, arith, All,
}
use execgo.Base.Dict.{Dict, insert}
use execgo.Models.Runtime.{Raw}
use execgo.Models.Task.{Task}
use execgo.Executor.Remote.{
  RuntimeExecutor, Outside, Reply, not_a_request, call_failed, unreadable, answered, SubmitResponse,
  TaskResponse, remember, remember_runtime_mapping, lookup_task_id, new_runtime_executor,
}
use execgo.Executor.Remote.Payload.{
  Prepared, payload_ready, payload_error, payload_panic, submit_payload,
}
use execgo.Executor.Remote.Calls.{
  Execution, panicked, executed, Found, is_success, is_unset, accept, submitted, execute_prepared,
  execute, polled_task, polled, get_handle_by_ref, killed_task, killed_body, killed, cancel_by_ref,
  by_task_id, or_by_task_id, two_tries, get_handle, cancel_handle,
}

-- A handle and a task id that are not empty, and differ.
abbrev pub IsLink : String × String → Type 0
IsLink p = (p.0 ≢ "") × (p.1 ≢ "") × (p.0 ≢ p.1)

abbrev pub HasLinks : RuntimeExecutor → Type 0
HasLinks e = All IsLink e.handle_to_task

All-insert :
    (k v : String) (m : Dict String) → IsLink (k, v) → All IsLink m → All IsLink (insert k v m)
unfolding insert
All-insert k v [] p h = (p, tt)
All-insert k v ((j, w) ∷ m) p h = elim (Bool-cases (j == k)) [
  | inl e ↦ rw (e, insert) (p, h.1)
  | inr e ↦ rw (e, insert) (h.0, All-insert k v m p h.1)
]

linked :
    (b : Bool) (handle_id task_id : String) (e : RuntimeExecutor)
    → (b ≡ false → IsLink (handle_id, task_id))
    → HasLinks e
    → HasLinks
        (if b then e else record e { handle_to_task = insert handle_id task_id e.handle_to_task })
linked true handle_id task_id e p h = h
linked false handle_id task_id e p h = All-insert handle_id task_id e.handle_to_task (p refl) h

guards-IsLink : (a b : String) → ((a == "") || (b == "") || (a == b)) ≡ false → IsLink (a, b)
guards-IsLink a b e = ground (arith, eq_iff a "", eq_iff b "", eq_iff a b)

remember-HasLinks :
    (handle_id task_id : String) (e : RuntimeExecutor)
    → HasLinks e
    → HasLinks (remember handle_id task_id e)
remember-HasLinks handle_id task_id e h =
    linked ((handle_id == "") || (task_id == "") || (handle_id == task_id)) handle_id task_id e
      (guards-IsLink handle_id task_id) h

mapping-HasLinks :
    (out : Outside) (handle_id task_id : String) (e : RuntimeExecutor)
    → HasLinks e
    → HasLinks (remember_runtime_mapping out handle_id task_id e)
unfolding remember_runtime_mapping
mapping-HasLinks out handle_id task_id e h =
    remember-HasLinks (out.trim_space handle_id) (out.trim_space task_id) e h

-- The state after Execute; a panic leaves no state.
abbrev pub Leaves : Execution → Type 0
Leaves panicked = Unit
Leaves (executed r x e) = HasLinks e

if-Leaves : (b : Bool) (x y : Execution) → Leaves x → Leaves y → Leaves (if b then x else y)
if-Leaves true x y p q = p
if-Leaves false x y p q = q

accept-Leaves :
    (out : Outside) (e : RuntimeExecutor) (body : Raw) (o : Option SubmitResponse)
    → HasLinks e
    → Leaves (accept out e body o)
accept-Leaves out e body none h = h
accept-Leaves out e body (some a) h = mapping-HasLinks out a.handle_id a.task_id e h

submitted-Leaves :
    (out : Outside) (e : RuntimeExecutor) (t : Task) (r : Reply)
    → HasLinks e
    → Leaves (submitted out e t r)
unfolding submitted
submitted-Leaves out e t (not_a_request m) h = h
submitted-Leaves out e t (call_failed m) h = h
submitted-Leaves out e t (unreadable status m) h = h
submitted-Leaves out e t (answered status body) h =
    if-Leaves (not (is_success status)) _ _ h (accept-Leaves out e body (out.decode_submit body) h)

prepared-Leaves :
    (out : Outside) (e : RuntimeExecutor) (t : Task) (p : Prepared)
    → HasLinks e
    → Leaves (execute_prepared out e t p)
unfolding execute_prepared
prepared-Leaves out e t payload_panic h = tt
prepared-Leaves out e t (payload_error m) h = h
prepared-Leaves out e t (payload_ready body) h = submitted-Leaves out e t _ h

execute-Leaves :
    (out : Outside) (e : RuntimeExecutor) (t : Task) → HasLinks e → Leaves (execute out e t)
unfolding execute
execute-Leaves out e t h = prepared-Leaves out e t (submit_payload out e t) h

if-HasLinks :
    (b : Bool) (x y : Found) → HasLinks x.1 → HasLinks y.1 → HasLinks ((if b then x else y).1)
if-HasLinks true x y p q = p
if-HasLinks false x y p q = q

polled_task-HasLinks :
    (out : Outside) (e : RuntimeExecutor) (ref : String) (body : Raw) (o : Option TaskResponse)
    → HasLinks e
    → HasLinks (polled_task out e ref body o).1
polled_task-HasLinks out e ref body none h = h
polled_task-HasLinks out e ref body (some task) h =
    mapping-HasLinks out task.handle_id task.task_id e h

polled-HasLinks :
    (out : Outside) (e : RuntimeExecutor) (ref : String) (r : Reply)
    → HasLinks e
    → HasLinks (polled out e ref r).1
unfolding polled
polled-HasLinks out e ref (not_a_request m) h = h
polled-HasLinks out e ref (call_failed m) h = h
polled-HasLinks out e ref (unreadable status m) h = h
polled-HasLinks out e ref (answered status body) h = if-HasLinks (eq_ℕ status 404) _ _ h (
    if-HasLinks (not (is_success status)) _ _ h
      (polled_task-HasLinks out e ref body (out.decode_task body) h))

killed_task-HasLinks :
    (out : Outside) (e : RuntimeExecutor) (ref : String) (body : Raw) (o : Option TaskResponse)
    → HasLinks e
    → HasLinks (killed_task out e ref body o).1
killed_task-HasLinks out e ref body none h = h
killed_task-HasLinks out e ref body (some task) h =
    if-HasLinks (not (is_unset task.status)) _ _
      (mapping-HasLinks out task.handle_id task.task_id e h) h

killed_body-HasLinks :
    (out : Outside) (e : RuntimeExecutor) (ref : String) (body : Raw)
    → HasLinks e
    → HasLinks (killed_body out e ref body).1
killed_body-HasLinks out e ref [] h = h
killed_body-HasLinks out e ref (b ∷ bs) h =
    killed_task-HasLinks out e ref (b ∷ bs) (out.decode_task (b ∷ bs)) h

killed-HasLinks :
    (out : Outside) (e : RuntimeExecutor) (ref : String) (r : Reply)
    → HasLinks e
    → HasLinks (killed out e ref r).1
unfolding killed
killed-HasLinks out e ref (not_a_request m) h = h
killed-HasLinks out e ref (call_failed m) h = h
killed-HasLinks out e ref (unreadable status m) h = h
killed-HasLinks out e ref (answered status body) h =
    if-HasLinks (eq_ℕ status 404) _ _ h
      (if-HasLinks (not (is_success status)) _ _ h (killed_body-HasLinks out e ref body h))

module _ (out : Outside) (try : RuntimeExecutor → String → Found)
    (ok_ : (e : RuntimeExecutor) (ref : String) → HasLinks e → HasLinks (try e ref).1) where
  by_task_id-HasLinks :
      (e : RuntimeExecutor) (handle_id : String) (o : Option String)
      → HasLinks e
      → HasLinks (by_task_id out try e handle_id o).1
  by_task_id-HasLinks e handle_id none h = h
  by_task_id-HasLinks e handle_id (some task_id) h =
      if-HasLinks (not (task_id == "") && not (task_id == handle_id)) _ _ (ok_ e task_id h) h

  retry-HasLinks :
      (handle_id : String) (f : Found)
      → HasLinks f.1
      → HasLinks (or_by_task_id out try handle_id f).1
  retry-HasLinks handle_id (some r, e) h = h
  retry-HasLinks handle_id (none, e) h =
      by_task_id-HasLinks e handle_id (lookup_task_id out e handle_id) h

  two_tries-HasLinks :
      (e : RuntimeExecutor) (handle_id : String)
      → HasLinks e
      → HasLinks (two_tries out try e handle_id).1
  unfolding two_tries
  two_tries-HasLinks e handle_id h =
      if-HasLinks (handle_id == "") _ _ h
        (retry-HasLinks handle_id (try e handle_id) (ok_ e handle_id h))

-- The operations that change the map, and what each leaves. A panic ends the program.
pub data Operation : Type 0 where
  execute_task : Task → Operation
  poll kill : String → Operation

abbrev pub state_of : RuntimeExecutor → Execution → RuntimeExecutor
state_of before panicked = before
state_of before (executed r x e) = e

unfoldable pub apply : Outside → Operation → RuntimeExecutor → RuntimeExecutor
apply out (execute_task t) e = state_of e (execute out e t)
apply out (poll handle_id) e = (get_handle out e handle_id).1
apply out (kill handle_id) e = (cancel_handle out e handle_id).1

-- Each operation meets an outside of its own.
unfoldable pub apply_all : List (Outside × Operation) → RuntimeExecutor → RuntimeExecutor
apply_all [] e = e
apply_all ((out, op) ∷ ops) e = apply_all ops (apply out op e)

state_of-HasLinks :
    (e : RuntimeExecutor) (x : Execution) → HasLinks e → Leaves x → HasLinks (state_of e x)
state_of-HasLinks e panicked h l = h
state_of-HasLinks e (executed r x f) h l = l

apply-HasLinks :
    (out : Outside) (op : Operation) (e : RuntimeExecutor) → HasLinks e → HasLinks (apply out op e)
unfolding apply get_handle cancel_handle get_handle_by_ref cancel_by_ref
apply-HasLinks out (execute_task t) e h =
    state_of-HasLinks e (execute out e t) h (execute-Leaves out e t h)
apply-HasLinks out (poll handle_id) e h =
    two_tries-HasLinks out (get_handle_by_ref out) (λ f ref l. polled-HasLinks out f ref _ l) e
      (out.trim_space handle_id) h
apply-HasLinks out (kill handle_id) e h =
    two_tries-HasLinks out (cancel_by_ref out) (λ f ref l. killed-HasLinks out f ref _ l) e
      (out.trim_space handle_id) h

all-HasLinks :
    (ops : List (Outside × Operation)) (e : RuntimeExecutor)
    → HasLinks e
    → HasLinks (apply_all ops e)
unfolding apply_all
all-HasLinks [] e h = h
all-HasLinks ((out, op) ∷ ops) e h = all-HasLinks ops (apply out op e) (apply-HasLinks out op e h)

-- After any sequence of Execute, GetHandle and CancelHandle on a new executor, whatever the
-- outside does at each call: every entry of the map from handles to task ids has a handle and a
-- task id that are not empty, and differ.
pub apply_all-HasLinks :
    (out : Outside) (base_url tenant owner : String) (ops : List (Outside × Operation))
    → HasLinks (apply_all ops (new_runtime_executor out base_url tenant owner))
unfolding new_runtime_executor
apply_all-HasLinks out base_url tenant owner ops =
    all-HasLinks ops (new_runtime_executor out base_url tenant owner) tt
