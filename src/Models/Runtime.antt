-- ===== src/Models/Runtime.antt =====
-- pkg/models/runtime.go: the statuses, errors, results and events of one run.
use execgo.Base.{ℕ, String, Bool, true, false, Option, List, ℤ}

-- `json.RawMessage`: the bytes of a JSON document. An empty one and a nil one are not told apart.
abbrev pub Raw : Type 0
Raw = List ℕ

-- `time.Time`, in nanoseconds; 0 is the zero time.
abbrev pub Time : Type 0
Time = ℕ

-- The Go type is a text. `unset` is "", and `other` any text that is none of the constants.
pub data RuntimeStatus : Type 0 where
  accepted running cancelling success failed cancelled unset : RuntimeStatus
  other : String → RuntimeStatus

unfoldable pub is_terminal : RuntimeStatus → Bool
is_terminal RuntimeStatus.success = true
is_terminal RuntimeStatus.failed = true
is_terminal RuntimeStatus.cancelled = true
is_terminal _ = false

pub data ErrorCode : Type 0 where
  unknown invalid_input launch_failed timeout cancelled memory_limit cpu_limit : ErrorCode
  resource_limit sandbox_setup exit_non_zero denied not_found external_failure internal : ErrorCode

pub record RuntimeError : Type 0 where
  pub code : ErrorCode
  pub message : String
  pub retryable : Bool
  pub source : String
  pub details : Raw

-- `Output` and `Details` have the type `any`; the program stores raw JSON there.
pub record RuntimeResult : Type 0 where
  pub status : RuntimeStatus
  pub handle_id : String
  pub output : Raw
  pub started_at : Option Time
  pub finished_at : Option Time
  pub duration_ms : ℤ
  pub attempt : ℤ
  pub details : Raw
  pub error : Option RuntimeError

-- `unset` is the empty text of an event that was not filled in.
pub data RuntimeEventType : Type 0 where
  submitted accepted started progress retried cancel_requested : RuntimeEventType
  succeeded failed cancelled unset : RuntimeEventType

pub record RuntimeEvent : Type 0 where
  pub type : RuntimeEventType
  pub task_id : String
  pub handle_id : String
  pub timestamp : Time
  pub message : String
  pub details : List (String × String)
