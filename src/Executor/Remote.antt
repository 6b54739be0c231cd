-- ===== src/Executor/Remote.antt =====
-- pkg/executor/runtime.go: the executor that submits tasks to the runtime service.
pub mod Codes
pub mod Payload
pub mod Calls
pub mod Queries
pub mod Panics
pub mod Kept
pub mod Mapping
pub mod Retryable
mod Tests
use execgo.Base.{
  ℕ, String, Bool, ◌&&◌, ◌||◌, not, Option, none, some, List, [], ◌∷◌, if◌then◌else◌, ◌==◌, ℤ,
}
use execgo.Base.Dict.{Dict, lookup, insert}
use execgo.Models.Runtime.{Raw, Time, RuntimeStatus, RuntimeEvent}
use execgo.Adapter.Json.{Json}

-- The state of a RuntimeExecutor. The client and the lock are not part of it.
pub record RuntimeExecutor : Type 0 where
  pub base_url : String
  pub tenant : String
  pub owner : String
  pub handle_to_task : Dict String

pub record SubmitResponse : Type 0 where
  pub task_id : String
  pub handle_id : String
  pub status : RuntimeStatus

pub record ApiError : Type 0 where
  pub code : String
  pub message : String
  pub details : Json

pub record TaskResponse : Type 0 where
  pub task_id : String
  pub handle_id : String
  pub status : RuntimeStatus
  pub started_at : Option Time
  pub finished_at : Option Time
  pub duration_ms : ℤ
  pub error : Option ApiError

pub data Method : Type 0 where
  http_get http_post : Method

-- A request: its URL, its body, and the header X-Execgo-Owner, where it is set.
pub record Request : Type 0 where
  pub method : Method
  pub url : String
  pub body : Raw
  pub owner : Option String

-- What comes back: no request could be made, the call failed, the body could not be read, each with
-- the message of the error, or a status with a body.
pub data Reply : Type 0 where
  not_a_request : String → Reply
  call_failed : String → Reply
  unreadable : ℕ → String → Reply
  answered : ℕ → Raw → Reply

-- What the executor calls of the standard library: net/http on a request, encoding/json on each of
-- the types with the messages of two parse errors, strings.TrimSpace and TrimRight, and the text of a number.
pub record Outside : Type 0 where
  pub call : Request → Reply
  pub trim_space : String → String
  pub trim_slashes : String → String
  pub number_text : ℕ → String
  pub decode : Raw → Option Json
  pub encode : Json → Raw
  pub parse_message : Raw → String
  pub decode_submit : Raw → Option SubmitResponse
  pub submit_message : Raw → String
  pub decode_task : Raw → Option TaskResponse
  pub decode_envelope : Raw → Option (Option ApiError)
  pub decode_error : Raw → Option ApiError
  pub decode_text : Raw → Option String
  pub decode_events : Raw → Option (List RuntimeEvent)
  pub decode_event_envelope : Raw → Option (Option (List RuntimeEvent))

-- The guards of rememberRuntimeMapping, on texts that are trimmed.
abbrev pub remember : String → String → RuntimeExecutor → RuntimeExecutor
remember handle_id task_id e =
    if (handle_id == "") || (task_id == "") || (handle_id == task_id)
    then e
    else record e { handle_to_task = insert handle_id task_id e.handle_to_task }

module _ (out : Outside) where
  unfoldable pub new_runtime_executor : String → String → String → RuntimeExecutor
  new_runtime_executor base_url tenant owner =
      let url = out.trim_space (out.trim_slashes base_url) in
      record {
        base_url = if url == "" then "http://127.0.0.1:8080" else url;
        tenant = out.trim_space tenant;
        owner = out.trim_space owner;
        handle_to_task = [];
      }

  unfoldable pub remember_runtime_mapping : String → String → RuntimeExecutor → RuntimeExecutor
  remember_runtime_mapping handle_id task_id e =
      remember (out.trim_space handle_id) (out.trim_space task_id) e

  unfoldable pub lookup_task_id : RuntimeExecutor → String → Option String
  lookup_task_id e handle_id =
      let h = out.trim_space handle_id in if h == "" then none else lookup h e.handle_to_task
