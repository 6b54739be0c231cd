-- ===== src/Executor/Remote/Payload.antt =====
-- pkg/executor/runtime.go: runtimePayload, with the map that is nil when the input is `null`.
use Prim.Native.String.{◌++◌ as text_append}
use execgo.Base.{String, Bool, ◌||◌, not, Option, none, some, [], ◌∷◌, if◌then◌else◌, ◌==◌}
use execgo.Base.Dict.{Dict, lookup, insert}
use execgo.Models.Runtime.{Raw}
use execgo.Models.Task.{Task}
use execgo.Adapter.Json.{Json, null, str, obj, fields, to_fields}
use execgo.Executor.Remote.{RuntimeExecutor, Outside}

-- A payload, the message of a parse error, or the panic of an assignment to a nil map.
pub data Prepared : Type 0 where
  payload_ready : Raw → Prepared
  payload_error : String → Prepared
  payload_panic : Prepared

-- `raw := task.Input`, and task.Params where that is empty.
abbrev pub raw_input : Raw → Raw → Raw
raw_input [] params = params
raw_input (b ∷ bs) params = b ∷ bs

-- `if _, ok := m[key]; !ok { m[key] = v }`
abbrev pub fill_missing : String → Json → Option Json → Dict Json → Dict Json
fill_missing key v none m = insert key v m
fill_missing key v (some _) m = m

unfoldable pub fill_key : String → Json → Dict Json → Dict Json
fill_key key v m = fill_missing key v (lookup key m) m

-- The same under `if text != ""`.
unfoldable pub fill_text : String → String → Dict Json → Dict Json
fill_text key text m = if not (text == "") then fill_key key (str text) m else m

-- The control context that is there, if it is an object, or a new one.
abbrev pub control_context : Option Json → Dict Json
control_context (some (obj fs)) = fields fs
control_context _ = []

unfoldable pub with_identity : RuntimeExecutor → Dict Json → Dict Json
with_identity e m =
    let cc = control_context (lookup "control_context" m) in
    insert "control_context"
      (obj (to_fields (fill_text "owner" e.owner (fill_text "tenant" e.tenant cc)))) m

unfoldable pub has_identity : RuntimeExecutor → Bool
has_identity e = not (e.tenant == "") || not (e.owner == "")

unfoldable pub with_context : RuntimeExecutor → Dict Json → Dict Json
with_context e m = if has_identity e then with_identity e m else m

module _ (out : Outside) where
  unfoldable pub fill_task_id : Task → Dict Json → Dict Json
  fill_task_id t m = if not (out.trim_space t.id == "") then fill_key "task_id" (str t.id) m else m

  unfoldable pub encode_map : RuntimeExecutor → Task → Dict Json → Prepared
  encode_map e t m =
      payload_ready (out.encode (obj (to_fields (with_context e (fill_task_id t m)))))

  -- On a nil map each assignment panics, and json.Marshal writes null.
  unfoldable pub encode_nil : RuntimeExecutor → Task → Prepared
  encode_nil e t =
      if not (out.trim_space t.id == "") || has_identity e
      then payload_panic
      else payload_ready (out.encode null)

  abbrev pub payload_of_value : RuntimeExecutor → Task → Raw → Option Json → Prepared
  payload_of_value e t raw (some (obj fs)) = encode_map e t (fields fs)
  payload_of_value e t raw (some null) = encode_nil e t
  payload_of_value e t raw _ =
      payload_error (text_append "parse runtime input: " (out.parse_message raw))

  abbrev pub payload_of_raw : RuntimeExecutor → Task → Raw → Prepared
  payload_of_raw e t [] = encode_map e t []
  payload_of_raw e t (b ∷ bs) = payload_of_value e t (b ∷ bs) (out.decode (b ∷ bs))

  unfoldable pub submit_payload : RuntimeExecutor → Task → Prepared
  submit_payload e t = payload_of_raw e t (raw_input t.input t.params)
