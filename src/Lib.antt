-- ===== src/Lib.antt =====
-- execgo: a scheduler of task graphs for agents, written in Go.
--
-- A client submits a graph of tasks over HTTP, or an action, from which pkg/adapter makes a graph
-- after it has checked the input against the schema of its kind. pkg/models checks the graph
-- (Validate, detectCycle); pkg/scheduler stores its tasks, counts their open dependencies and sends
-- the ready ones to a channel, from which the main loop starts one goroutine per task. A goroutine
-- finds the executor of the task in the registry of pkg/executor, runs it with retries, waits for an
-- asynchronous result, and completes the task, which releases its dependents or skips them.
-- pkg/executor/runtime.go hands tasks to a service over HTTP. pkg/store/jsonfile keeps the tasks.
-- Cancel may come at any time.
--
-- The files:
-- - Models.Runtime, Models.Task: pkg/models/runtime.go and the data of pkg/models/task.go.
-- - Models.Graph: Validate and detectCycle (validate, collect_ids, check_all_deps, detect_cycle,
--   build, roots, drain, release). Its children: Edges and Release on the degree counts, Order and
--   Drain on the drained queue, Chains on cycles, Valid and Accept on the verdict of Validate.
-- - Store: the Manager of pkg/store/jsonfile/jsonfile.go, and the memory that task pointers lead to.
--   Store.Recovery: its state file, with tables by value (persist, load_from_disk, new_manager).
--   Store.Atomic: what a restart finds.
-- - Executor: pkg/executor/core.go and normalize_task.go.
--   Executor.Remote: the client of the runtime service, pkg/executor/runtime.go (Payload, Codes, Calls
--   and Queries for its methods; Panics, Kept, Mapping and Retryable for what they prove). A call of
--   the HTTP client is a function from requests to replies.
-- - Scheduler.State, Scheduler.Submit, Scheduler.Runtime, Scheduler.Complete, Scheduler.Attempt,
--   Scheduler.Execute and Scheduler.Cancel: pkg/scheduler/scheduler.go. State is the struct
--   Scheduler; submit, enqueue, receive, execute_task, await_runtime_result, cancel, complete_task
--   and cascade_skip are its methods, and Runtime has the functions on runtime results.
-- - Scheduler.Dispatch: a step relation over the methods, one step for each critical section that
--   changes what is scheduled.
-- - Adapter: pkg/adapter. Json is what encoding/json decodes to; Schema is the validator of
--   schema_validate.go, with Schema.Conforms as its specification, Schema.Checks, Schema.Options and
--   Schema.Verdict as the proof, and Schema.WalkOrder on the order of a walk; Inputs, Actions and
--   Manifest are the input schemas and the tool manifest of adapter.go;
--   Request, Kinds, Payload and Translate are the translation (normalize_action_kind, provenance,
--   runtime_payload, os_task and its kin, validate_action_request, translate).
--   Payload.Completed and Translate.Input specify the input that is checked, and Translate.Scheduled
--   joins the translation to the scheduler.
-- - Config: pkg/config/config.go, Load and its two providers.
-- - Base: the helpers that these share: tests, lists, members, integers, maps and error results.
--
-- Correspondence. A *Task is a number, and Heap what it leads to, so that the store, the queue and
-- the scheduler share the tasks as the program does. A Go map is an association list; the order in
-- which Go walks a map is a parameter. Statuses are data types with a constructor for every other
-- text. JSON texts are lists of bytes, and json.Marshal, json.Unmarshal and strings.TrimSpace are
-- parameters. Times are nanoseconds, read from a clock that is a parameter. Negative counts are
-- integers (ℤ); the
-- 64-bit products of the backoff wrap around as in Go. What an executor answers, what other
-- goroutines do while a run waits, and what the wait meets at each poll are arguments of the run.
-- Other goroutines act during Execute and during the polls only: the end of executeTask, from the
-- last attempt to completeTask, is one step, and so is Cancel of a task that has not started.
--
-- The adapter. What it calls of the standard library is the record Std: strings.TrimSpace and
-- ToLower, the JSON codec, and the id that the clock gives. A decoded number is n / 2^k, which every
-- finite float64 is. A schema is a data type with the keys that the validator reads, in place of a
-- map[string]any; a path is a list of its steps in place of its text; an error is a constructor with
-- the texts that its message quotes. The maps that the adapter builds list their keys in the order
-- in which the code adds them.
--
-- Fuel. detectCycle gets as many rounds as there are tasks, since each id is queued once at most.
-- cascadeSkip gets fuel for its depth: the rank of a task in an acyclic graph is enough. A wait is
-- recursion on the list of its wakeups.
--
-- Not modelled: the executors of processes, files and sockets (os.go, mcp.go, cli.go), the HTTP and
-- gRPC servers, the command-line client, the SQLite and Redis stores, the timer of the JSON store,
-- loggers, and the start and stop of the loop with its semaphore. A graph is modelled without nil
-- pointers in its list.
pub mod Base
pub mod Models
pub mod Store
pub mod Executor
pub mod Scheduler
pub mod Adapter
pub mod Config
