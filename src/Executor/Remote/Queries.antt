-- ===== src/Executor/Remote/Queries.antt =====
-- pkg/executor/runtime.go: GetEvents, getRuntimeJSON and HealthCheck, which leave the state as it is.
use Prim.Native.String.{◌++◌ as text_append}
use execgo.Base.{
  String, ◌&&◌, not, Option, none, some, List, [], if◌then◌else◌, ◌==◌, eq_ℕ, Except, ok, err,
}
use execgo.Models.Runtime.{Raw, RuntimeEvent, RuntimeError}
use execgo.Executor.Remote.{
  RuntimeExecutor, http_get, Reply, not_a_request, call_failed, unreadable, answered, Outside,
  lookup_task_id,
}
use execgo.Executor.Remote.Codes.{decode_runtime_api_error}
use execgo.Executor.Remote.Calls.{is_success, task_url, error_or, status_error}

-- The two forms of an event list; any other body counts as no events.
abbrev pub events_of_envelope : Option (Option (List RuntimeEvent)) → List RuntimeEvent
events_of_envelope (some (some es)) = es
events_of_envelope _ = []

abbrev pub events_of :
    Option (List RuntimeEvent) → Option (Option (List RuntimeEvent)) → List RuntimeEvent
events_of (some es) env = es
events_of none env = events_of_envelope env

module _ (out : Outside) where
  unfoldable pub listed : Reply → Option (List RuntimeEvent)
  listed (not_a_request m) = none
  listed (call_failed m) = none
  listed (unreadable status m) = none
  listed (answered status body) =
      if eq_ℕ status 404
      then none
      else if not (is_success status)
      then some []
      else some (events_of (out.decode_events body) (out.decode_event_envelope body))

  unfoldable pub get_events_by_ref : RuntimeExecutor → String → Option (List RuntimeEvent)
  get_events_by_ref e ref = listed (
      out.call
        (record { method = http_get; url = task_url out e ref "/events"; body = []; owner = none }))

  abbrev pub events_by_task_id :
      RuntimeExecutor → String → Option String → Option (List RuntimeEvent)
  events_by_task_id e handle_id none = none
  events_by_task_id e handle_id (some task_id) =
      if not (task_id == "") && not (task_id == handle_id)
      then get_events_by_ref e task_id
      else none

  abbrev pub events_or_by_task_id :
      RuntimeExecutor → String → Option (List RuntimeEvent) → Option (List RuntimeEvent)
  events_or_by_task_id e handle_id (some es) = some es
  events_or_by_task_id e handle_id none =
      events_by_task_id e handle_id (lookup_task_id out e handle_id)

  unfoldable pub get_events : RuntimeExecutor → String → Option (List RuntimeEvent)
  get_events e handle_id =
      let h = out.trim_space handle_id in
      if h == "" then none else events_or_by_task_id e h (get_events_by_ref e h)

  -- The error that getRuntimeJSON and HealthCheck return is its message.
  unfoldable pub fetched : String → Reply → Except String Raw
  fetched path (not_a_request m) = err m
  fetched path (call_failed m) = err m
  fetched path (unreadable status m) = err m
  fetched path (answered status body) =
      if not (is_success status)
      then (let own =
            status_error out
              (text_append "runtime endpoint " (text_append path " returned status ")) status in
          err (RuntimeError.message (error_or (decode_runtime_api_error out body) own)))
      else ok body

  unfoldable pub get_runtime_json : RuntimeExecutor → String → Except String Raw
  get_runtime_json e path =
      let p = out.trim_space path in
      if p == ""
      then err "runtime path is empty"
      else fetched p (
          out.call
            (record { method = http_get; url = text_append e.base_url p; body = []; owner = none }))

  unfoldable pub ready : Reply → Except String (Unit {0})
  ready (not_a_request m) = err m
  ready (call_failed m) = err m
  ready (unreadable status m) =
      if not (is_success status)
      then err (text_append "runtime readiness returned status " (out.number_text status))
      else ok tt
  ready (answered status body) =
      if not (is_success status)
      then err (text_append "runtime readiness returned status " (out.number_text status))
      else ok tt

  unfoldable pub health_check : RuntimeExecutor → Except String (Unit {0})
  health_check e = ready (
      out.call (record {
        method = http_get;
        url = text_append e.base_url "/readyz";
        body = [];
        owner = none;
      }))
