-- ===== src/Store/Atomic.antt =====
-- pkg/store/jsonfile/jsonfile.go: a restart finds the tables before or after Persist, never another.
use execgo.Base.{
  String, ◌≡◌, refl, sym, ap, ◌∙◌, subst, ◌≢◌, ◌⊎◌, inl, inr, true, ok, Option, none, some, [], ◌∷◌,
  map, arith, ◌==◌, if◌then◌else◌, Bool-cases, Option-cases,
}
use mathlib.Core.Option
use execgo.Base.Dict.{Dict, lookup}
use execgo.Models.Runtime.{Raw, Time, RuntimeResult, RuntimeError}
use execgo.Models.Task.{Task, TaskStatus}
use execgo.Store.Recovery.{
  Disk, Writes, write_fails, rename_fails, written, reset_running, recover, persist, read_table,
  load_from_disk, new_manager,
}

-- What a restart makes of a task.
abbrev pub IsRestarted : Time → Task → Task → Type 0
IsRestarted now s t =
    ((s.status ≡ TaskStatus.running)
      × (t ≡ record s { status = TaskStatus.pending; updated_at = now }))
    ⊎ ((s.status ≢ TaskStatus.running) × (t ≡ s))

-- At one id: the table `m` after the restart, where `table` is the one that was stored.
abbrev pub IsRecovered : Time → String → Dict Task → Dict Task → Type 0
IsRecovered now k table m =
    ((lookup k table ≡ none) × (lookup k m ≡ none))
    ⊎ ((s : Task) × (t : Task) × (lookup k table ≡ some s)
        × (lookup k m ≡ some t)
        × IsRestarted now s t
        × (t.status ≢ TaskStatus.running))

-- The table that a state file holds: none, if there is no file, or its text is empty or no table.
abbrev pub Holds : (Raw → Option (Dict Task)) → Option Raw → Dict Task → Type 0
Holds unmarshal none table = table ≡ []
Holds unmarshal (some []) table = table ≡ []
Holds unmarshal (some (b ∷ bs)) table =
    (unmarshal (b ∷ bs) ≡ some table) ⊎ ((unmarshal (b ∷ bs) ≡ none) × (table ≡ []))

-- The task that is read from a written one: json.MarshalIndent lays out raw JSON anew, by
-- `raw_text`, and a value of type `any` is decoded and encoded again, by `any_text`.
module _ (raw_text any_text : Raw → Raw) where
  abbrev pub reread_error : RuntimeError → RuntimeError
  reread_error e = record e { details = any_text e.details }

  abbrev pub reread_runtime : RuntimeResult → RuntimeResult
  reread_runtime r = record r {
    output = any_text r.output;
    details = any_text r.details;
    error = Option.map reread_error r.error;
  }

  abbrev pub reread : Task → Task
  reread t = record t {
    params = raw_text t.params;
    input = raw_text t.input;
    progress = raw_text t.progress;
    result = raw_text t.result;
    runtime = Option.map reread_runtime t.runtime;
  }

  abbrev pub reread_table : Dict Task → Dict Task
  reread_table m = map (λ e. (e.0, reread e.1)) m

reset_running-IsRestarted : (now : Time) (t : Task) → IsRestarted now t (reset_running now t)
unfolding reset_running
reset_running-IsRestarted now t = ground arith

reset_running-idle : (now : Time) (t : Task) → (reset_running now t).status ≢ TaskStatus.running
unfolding reset_running
reset_running-idle now t = ground arith

lookup-recover :
    (now : Time) (k : String) (m : Dict Task)
    → lookup k (recover now m) ≡ Option.map (reset_running now) (lookup k m)
unfolding recover
lookup-recover now k [] = refl
lookup-recover now k ((j, t) ∷ m) = elim (Bool-cases (j == k)) [
  | inl e ↦ rw (e, lookup) refl
  | inr e ↦ rw (e, lookup) (lookup-recover now k m)
]

-- For every table and id: if the table has no task under the id, nor has the one that a restart
-- recovers; otherwise that one has the same task, but with the status pending and the new time if
-- it was running, and it is not running.
pub recover_idle : (now : Time) (k : String) (m : Dict Task) → IsRecovered now k m (recover now m)
recover_idle now k m = elim (Option-cases (lookup k m)) [
  | inl e ↦ inl (e, lookup-recover now k m ∙ ap (Option.map (reset_running now)) e)
  | inr (s, e) ↦ inr (
    s,
    reset_running now s,
    e,
    lookup-recover now k m ∙ ap (Option.map (reset_running now)) e,
    reset_running-IsRestarted now s,
    reset_running-idle now s,
  )
]

module _ (marshal : Dict Task → Option Raw) (unmarshal : Raw → Option (Dict Task)) where
  loads :
      (file tmp : Option Raw) (table : Dict Task)
      → Holds unmarshal file table
      → (load_from_disk marshal unmarshal true (record { state_file = file; tmp_file = tmp })).0
        ≡ table
  unfolding load_from_disk read_table
  loads none tmp table h = sym h
  loads (some []) tmp table h = sym h
  loads (some (b ∷ bs)) tmp table (inl e) = rw (e, read_table) refl
  loads (some (b ∷ bs)) tmp table (inr (e, n)) = rw (e, read_table) (sym n)

  -- A restart on a disk.
  abbrev pub RestartsWith : Time → String → Disk → Dict Task → Type 0
  RestartsWith now k d table =
      (m : Dict Task) × (new_manager marshal unmarshal none true now d ≡ ok m)
      × IsRecovered now k table m

  restarts :
      (now : Time) (k : String) (d : Disk) (table : Dict Task)
      → Holds unmarshal d.state_file table
      → RestartsWith now k d table
  unfolding new_manager
  restarts now k d table h =
      let m = (load_from_disk marshal unmarshal true d).0 in
      (
        recover now m,
        refl,
        subst (λ u. IsRecovered now k u (recover now m)) (loads d.state_file d.tmp_file table h)
            (recover_idle now k m),
      )

  persist-Holds :
      (writes : Writes) (tasks written_table old : Dict Task) (d : Disk)
      → Holds unmarshal d.state_file old
      → ((bytes : Raw)
          → marshal tasks ≡ some bytes
          → (unmarshal bytes ≡ some written_table) × (bytes ≢ []))
      → let (after, done) = persist marshal unmarshal writes tasks d in
        Holds unmarshal after.state_file (if done then written_table else old)
  unfolding persist
  persist-Holds writes tasks written_table old d h reads = elim (Option-cases (marshal tasks)) [
    | inl e ↦ rw (e, persist) h
    | inr (bytes, e) ↦ by_writes writes bytes e
  ]
    where
      holds :
          (bytes : Raw)
          → unmarshal bytes ≡ some written_table
          → bytes ≢ []
          → Holds unmarshal (some bytes) written_table
      holds [] e n = absurd (n refl)
      holds (b ∷ bs) e n = inl e

      by_writes :
          (w : Writes) (bytes : Raw)
          → marshal tasks ≡ some bytes
          → let (after, done) = persist marshal unmarshal w tasks d in
            Holds unmarshal after.state_file (if done then written_table else old)
      by_writes (write_fails left) bytes e = rw (e, persist) h
      by_writes rename_fails bytes e = rw (e, persist) h
      by_writes written bytes e =
          let (back, filled) = reads bytes e in rw (e, persist) (holds bytes back filled)

  -- Let the state file hold `old`, and let the codec read back what it writes for the table, up
  -- to the layout of raw JSON and of values of type `any`, from at least a byte. After Persist,
  -- whichever of its writes fails, a restart that can make the directory and read the file
  -- succeeds, and has at every id the task that was persisted, as it is read back, if Persist
  -- gave no error, and the task of `old` if it gave one, where a task that was running is
  -- pending, with the new time.
  pub persist_atomic :
      (raw_text any_text : Raw → Raw) (writes : Writes) (now : Time) (k : String)
      (tasks old : Dict Task) (d : Disk)
      → Holds unmarshal d.state_file old
      → ((bytes : Raw)
          → marshal tasks ≡ some bytes
          → (unmarshal bytes ≡ some (reread_table raw_text any_text tasks)) × (bytes ≢ []))
      → let (after, done) = persist marshal unmarshal writes tasks d in
        RestartsWith now k after (if done then reread_table raw_text any_text tasks else old)
  persist_atomic raw_text any_text writes now k tasks old d h reads =
      let (after, done) = persist marshal unmarshal writes tasks d in
      let there = reread_table raw_text any_text tasks in
      restarts now k after (if done then there else old)
        (persist-Holds writes tasks there old d h reads)
