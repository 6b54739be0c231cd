-- ===== src/Store/Tests.antt =====
-- A table of two tasks that is written and recovered.
use execgo.Base.{String, ◌≡◌, refl, subst, ◌≢◌, Option, none, some, List, [], ◌∷◌, pos}
use execgo.Base.Dict.{Dict}
use execgo.Models.Runtime.{Raw, RuntimeStatus}
use execgo.Models.Task.{Task, TaskStatus}
use execgo.Store.Recovery.{Disk, written, recover, persist}
use execgo.Store.Atomic.{IsRecovered, reread_table, RestartsWith, persist_atomic, recover_idle}

abbrev task : String → List String → Task
task id deps = record {
  id = id;
  type = "noop";
  params = [];
  tool_name = "";
  input = [];
  category = "";
  depends_on = deps;
  retry = pos 0;
  timeout = pos 0;
  annotations = [];
  status = TaskStatus.pending;
  run_status = RuntimeStatus.unset;
  handle_id = "";
  progress = [];
  result = [];
  runtime = none;
  events = [];
  error = "";
  created_at = 0;
  updated_at = 0;
}

abbrev running_task : Task
running_task = record (task "a" []) { status = TaskStatus.running; params = 1 ∷ [] }

abbrev sample : Dict Task
sample = ("a", running_task) ∷ ("b", task "b" ("a" ∷ [])) ∷ []

-- A layout that puts a space before a raw text that is not empty.
abbrev indented : Raw → Raw
indented [] = []
indented (b ∷ bs) = 32 ∷ b ∷ bs

-- The sample, with the raw text of "a" laid out anew.
abbrev read_back : Dict Task
read_back = ("a", record running_task { params = 32 ∷ 1 ∷ [] }) ∷ ("b", task "b" ("a" ∷ [])) ∷ []

abbrev seven : Raw
seven = 7 ∷ []

-- A codec that knows one table.
abbrev encode : Dict Task → Option Raw
encode m = some seven

abbrev decode : Raw → Option (Dict Task)
decode bytes = some read_back

abbrev fresh : Disk
fresh = record { state_file = none; tmp_file = none }

no_nil : seven ≢ []
no_nil e = cc

encode-sample :
    (bytes : Raw)
    → encode sample ≡ some bytes
    → (decode bytes ≡ some (reread_table indented indented sample)) × (bytes ≢ [])
encode-sample bytes e =
    let same : seven ≡ bytes = cc e in (refl, subst (λ (b : Raw). b ≢ []) same no_nil)

persist_atomic_example :
    RestartsWith encode decode 9 "a" (persist encode decode written sample fresh).0 read_back
unfolding persist
persist_atomic_example =
    persist_atomic encode decode indented indented written 9 "a" sample [] fresh refl encode-sample

recover_idle_example : IsRecovered 9 "a" sample (recover 9 sample)
recover_idle_example = recover_idle 9 "a" sample
