-- ===== src/Store/Recovery.antt =====
-- pkg/store/jsonfile/jsonfile.go: Persist, loadFromDisk, and what NewManager recovers.
use Prim.Native.String.{◌++◌ as text_append}
use execgo.Base.{String, Except, ok, err, Bool, true, false, Option, none, some, [], ◌∷◌, map}
use execgo.Base.Dict.{Dict}
use execgo.Models.Runtime.{Raw, Time}
use execgo.Models.Task.{Task, TaskStatus}

-- The state file and the temporary file beside it; `none` is a file that does not exist.
pub record Disk : Type 0 where
  pub state_file : Option Raw
  pub tmp_file : Option Raw

-- How the writes of Persist go: a failed write leaves some temporary file.
pub data Writes : Type 0 where
  write_fails : Option Raw → Writes
  rename_fails written : Writes

-- `if t.Status == models.StatusRunning { … }`
unfoldable pub reset_running : Time → Task → Task
reset_running now t = elim t.status [
  | TaskStatus.running ↦ record t { status = TaskStatus.pending; updated_at = now }
  | _ ↦ t
]

unfoldable pub recover : Time → Dict Task → Dict Task
recover now m = map (λ e. (e.0, reset_running now e.1)) m

-- The table of tasks is written by value; `marshal` is json.MarshalIndent, and `unmarshal` is
-- json.Unmarshal into a table.
module _ (marshal : Dict Task → Option Raw) (unmarshal : Raw → Option (Dict Task)) where
  -- The files afterwards, and whether there was no error.
  unfoldable pub persist : Writes → Dict Task → Disk → Disk × Bool
  persist writes tasks d = elim (marshal tasks) [
    | none ↦ (d, false)
    | some bytes ↦ elim writes [
      | write_fails left ↦ (record d { tmp_file = left }, false)
      | rename_fails ↦ (record d { tmp_file = some bytes }, false)
      | written ↦ (record { state_file = some bytes; tmp_file = none }, true)
    ]
  ]

  unfoldable pub read_table : Raw → Dict Task × Bool
  read_table [] = ([], true)
  read_table (b ∷ bs) = elim (unmarshal (b ∷ bs)) [
    | none ↦ ([], false)
    | some tasks ↦ (tasks, true)
  ]

  -- The table that loadFromDisk sets, and whether there was no error. `readable` says that a file
  -- that exists can be read.
  unfoldable pub load_from_disk : Bool → Disk → Dict Task × Bool
  load_from_disk readable d = elim d.state_file [
    | none ↦ ([], true)
    | some bytes ↦ elim readable [ false ↦ ([], false) | true ↦ read_table bytes ]
  ]

  -- The table, or the error of os.MkdirAll, where it gives one. An error of loadFromDisk is only
  -- logged.
  unfoldable pub new_manager : Option String → Bool → Time → Disk → Except String (Dict Task)
  new_manager (some e) readable now d = err (text_append "create data dir: " e)
  new_manager none readable now d = ok (recover now (load_from_disk readable d).0)
