-- ===== src/Executor.antt =====
-- pkg/executor: the results of executors, the registry and the legacy task types.
pub mod Remote
use execgo.Base.{ℕ, String, Bool, ◌||◌, Option, List, [], ◌∷◌, ◌==◌, if◌then◌else◌, ℤ}
use execgo.Base.Dict.{Dict, lookup, insert, keys}
use execgo.Models.Runtime.{Raw, Time, RuntimeStatus, RuntimeError}
use execgo.Models.Task.{Task}

pub record ProgressEvent : Type 0 where
  pub timestamp : Time
  pub message : String
  pub details : Raw

pub record ExecResult : Type 0 where
  pub task_id : String
  pub status : RuntimeStatus
  pub handle_id : String
  pub output : Raw
  pub details : Raw
  pub progress : List ProgressEvent
  pub started_at : Option Time
  pub finished_at : Option Time
  pub duration_ms : ℤ
  pub attempt : ℤ
  pub error : Option RuntimeError

-- What the program reads of an `error`: its text, and the answers of errors.Is.
pub record GoError : Type 0 where
  pub message : String
  pub is_canceled : Bool
  pub is_deadline : Bool

-- A value of the interface Executor. The optional interfaces HandleReader and HandleCanceler are
-- fields that may be absent. `get_handle` takes the number of the poll, since the answer changes.
pub record Executor : Type 0 where
  pub name : String
  pub category : String
  pub execute : ℕ → Task → Option ExecResult × Option GoError
  pub get_handle : Option (ℕ → String → Option ExecResult)
  pub cancel_handle : Option (String → Option ExecResult)

abbrev pub Registry : Type 0
Registry = Dict Executor

unfoldable pub register : Executor → Registry → Registry
register e r = insert e.name e r

unfoldable pub get : String → Registry → Option Executor
get task_type r = lookup task_type r

-- The loop of GetByCategory; no executor of the category is its error.
unfoldable pub get_by_category : String → Registry → List Executor
get_by_category category [] = []
get_by_category category ((name, e) ∷ r) =
    if e.category == category then e ∷ get_by_category category r else get_by_category category r

-- RegisteredTypes: `sort` is sort.Strings.
unfoldable pub registered_types : (List String → List String) → Registry → List String
registered_types sort r = sort (keys r)

-- The names of the tools that NewOSExecutor registers.
unfoldable pub is_os_name : String → Bool
is_os_name name =
    (name == "shell")
    || (name == "file")
    || (name == "dns")
    || (name == "tcp")
    || (name == "sleep")
    || (name == "noop")
    || (name == "http")

-- `trim_space` is strings.TrimSpace.
module _ (trim_space : String → String) where
  unfoldable pub is_os_tool : String → Bool
  is_os_tool name = is_os_name (trim_space name)

  -- `if len(task.Input) == 0 { task.Input = task.Params }`
  abbrev input_or_params : Raw → Raw → Raw
  input_or_params [] params = params
  input_or_params (b ∷ bs) params = b ∷ bs

  unfoldable pub normalize_task : Task → Task
  normalize_task t =
      if (t.type == "")
        || (t.type == "mcp")
        || (t.type == "cli-skills")
        || (t.type == "os")
        || (t.type == "runtime")
      then t
      else if is_os_tool t.type
      then record t {
        tool_name = t.type;
        category = "os";
        type = "os";
        input = input_or_params t.input t.params;
      }
      else t
