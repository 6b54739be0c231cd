-- ===== src/Executor/Remote/Panics.antt =====
-- pkg/executor/runtime.go: the inputs on which Execute panics.
use execgo.Base.{
  String, ◌≡◌, refl, ◌≢◌, ◌↔◌, ◌⊎◌, Bool, true, false, not, Option, none, some, List, [], ◌∷◌,
  if◌then◌else◌, eq_iff, arith,
}
use execgo.Models.Runtime.{Raw}
use execgo.Models.Task.{Task}
use execgo.Adapter.Json.{Json, null, bool, num, str, arr, obj}
use execgo.Executor.Remote.{
  RuntimeExecutor, Outside, Reply, not_a_request, call_failed, unreadable, answered, SubmitResponse,
}
use execgo.Executor.Remote.Payload.{
  Prepared, payload_ready, payload_error, payload_panic, raw_input, has_identity, encode_map,
  encode_nil, payload_of_value, payload_of_raw, submit_payload,
}
use execgo.Executor.Remote.Calls.{
  Execution, panicked, is_success, accept, submitted, execute_prepared, execute,
}

-- There is a task id, a tenant or an owner to put into the payload.
abbrev pub HasStamp : Outside → RuntimeExecutor → Task → Type 0
HasStamp out e t = (out.trim_space t.id ≢ "") ⊎ ((e.tenant ≢ "") ⊎ (e.owner ≢ ""))

-- The bytes of the input are not empty, and they are the JSON text `null`.
abbrev pub IsNullInput : Outside → Raw → Type 0
IsNullInput out [] = ⊥
IsNullInput out (b ∷ bs) = out.decode (b ∷ bs) ≡ some null

accept_returns :
    (out : Outside) (e : RuntimeExecutor) (body : Raw) (o : Option SubmitResponse)
    → accept out e body o ≢ panicked
accept_returns out e body none x = cc
accept_returns out e body (some a) x = cc

if_returns :
    (b : Bool) (x y : Execution) → x ≢ panicked → y ≢ panicked → (if b then x else y) ≢ panicked
if_returns true x y p q = p
if_returns false x y p q = q

submitted_returns :
    (out : Outside) (e : RuntimeExecutor) (t : Task) (r : Reply) → submitted out e t r ≢ panicked
unfolding submitted
submitted_returns out e t (not_a_request m) x = cc
submitted_returns out e t (call_failed m) x = cc
submitted_returns out e t (unreadable status m) x = cc
submitted_returns out e t (answered status body) x =
    if_returns (not (is_success status)) _ _ (λ y. cc)
      (accept_returns out e body (out.decode_submit body)) x

execute_prepared_iff :
    (out : Outside) (e : RuntimeExecutor) (t : Task) (p : Prepared)
    → (execute_prepared out e t p ≡ panicked) ↔ (p ≡ payload_panic)
unfolding execute_prepared
execute_prepared_iff out e t payload_panic = (λ x. refl, λ x. refl)
execute_prepared_iff out e t (payload_error m) = (λ x. cc, λ x. cc)
execute_prepared_iff out e t (payload_ready body) =
    (λ x. absurd (submitted_returns out e t _ x), λ x. cc)

encode_nil_iff :
    (out : Outside) (e : RuntimeExecutor) (t : Task)
    → (encode_nil out e t ≡ payload_panic) ↔ HasStamp out e t
unfolding encode_nil has_identity
encode_nil_iff out e t =
    ground (arith, eq_iff (out.trim_space t.id) "", eq_iff e.tenant "", eq_iff e.owner "")

encode_map_ready :
    (out : Outside) (e : RuntimeExecutor) (t : Task) (m : List (String × Json))
    → encode_map out e t m ≢ payload_panic
unfolding encode_map
encode_map_ready out e t m x = cc

value_iff :
    (out : Outside) (e : RuntimeExecutor) (t : Task) (raw : Raw) (o : Option Json)
    → (payload_of_value out e t raw o ≡ payload_panic) ↔ ((o ≡ some null) × HasStamp out e t)
value_iff out e t raw (some null) =
    let (f, g) = encode_nil_iff out e t in (λ x. (refl, f x), λ h. g h.1)
value_iff out e t raw (some (obj fs)) =
    (λ x. absurd (encode_map_ready out e t _ x), λ h. absurd (cc h.0))
value_iff out e t raw none = (λ x. cc, λ h. absurd (cc h.0))
value_iff out e t raw (some (bool _)) = (λ x. cc, λ h. absurd (cc h.0))
value_iff out e t raw (some (num _ _)) = (λ x. cc, λ h. absurd (cc h.0))
value_iff out e t raw (some (str _)) = (λ x. cc, λ h. absurd (cc h.0))
value_iff out e t raw (some (arr _)) = (λ x. cc, λ h. absurd (cc h.0))

raw_iff :
    (out : Outside) (e : RuntimeExecutor) (t : Task) (raw : Raw)
    → (payload_of_raw out e t raw ≡ payload_panic) ↔ (IsNullInput out raw × HasStamp out e t)
raw_iff out e t [] = (λ x. absurd (encode_map_ready out e t _ x), λ h. absurd h.0)
raw_iff out e t (b ∷ bs) = value_iff out e t (b ∷ bs) (out.decode (b ∷ bs))

-- Whatever the service answers: Execute panics exactly if the input of the task, or its params
-- where that is empty, is not empty and decodes to null, and the trimmed task id, the tenant or
-- the owner is not empty.
pub execute_panics_iff :
    (out : Outside) (e : RuntimeExecutor) (t : Task)
    → (execute out e t ≡ panicked)
      ↔ (IsNullInput out (raw_input t.input t.params) × HasStamp out e t)
unfolding execute submit_payload
execute_panics_iff out e t =
    let (f, g) = execute_prepared_iff out e t (submit_payload out e t) in
    let (h, i) = raw_iff out e t (raw_input t.input t.params) in (λ x. h (f x), λ y. g (i y))
