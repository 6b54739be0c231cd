-- ===== src/Models/Task.antt =====
-- pkg/models/task.go: the task and its status.
use execgo.Base.{String, Bool, true, false, Option, List, ℤ}
use execgo.Base.Dict.{Dict}
use execgo.Models.Runtime.{Raw, Time, RuntimeStatus, RuntimeResult, RuntimeEvent}

-- The Go type is a text. `other` is any text that is none of the constants, "" among them.
pub data TaskStatus : Type 0 where
  pending running cancelling success failed cancelled skipped : TaskStatus
  other : String → TaskStatus

unfoldable pub is_terminal : TaskStatus → Bool
is_terminal TaskStatus.success = true
is_terminal TaskStatus.failed = true
is_terminal TaskStatus.cancelled = true
is_terminal TaskStatus.skipped = true
is_terminal _ = false

-- `run_status` is the text of a runtime status, or "".
pub record Task : Type 0 where
  pub id : String
  pub type : String
  pub params : Raw
  pub tool_name : String
  pub input : Raw
  pub category : String
  pub depends_on : List String
  pub retry : ℤ
  pub timeout : ℤ
  pub annotations : Dict String
  pub status : TaskStatus
  pub run_status : RuntimeStatus
  pub handle_id : String
  pub progress : Raw
  pub result : Raw
  pub runtime : Option RuntimeResult
  pub events : List RuntimeEvent
  pub error : String
  pub created_at : Time
  pub updated_at : Time

-- The pointers of the slice are not nil.
pub record TaskGraph : Type 0 where
  pub tasks : List Task
