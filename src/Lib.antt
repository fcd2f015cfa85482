-- ===== src/Lib.antt =====
-- gxo, an automation engine: a playbook of tasks becomes an execution graph, whose tasks run on a
-- pool of workers as their dependencies are met.
--
-- How the parts work together. internal/config reads a playbook and checks it. internal/engine/dag.go
-- builds the graph: a task depends on another by a stream (`stream_inputs`) or by the state (a variable
-- in one of its templates that the other registers, or its status). internal/engine/engine.go keeps the
-- status of each task: a task starts when its stream dependencies have started and its state
-- dependencies are completed or skipped, and a task that fails halts the playbook unless it ignores
-- errors.
--
-- Which file models which part:
--   Prelude     shared names, Boolean tests, lists, maps (`Dict`), texts and signed integers
--   Value       Go's `interface{}` as the program's type switches read it
--   Errors      pkg/gxo/v1/errors/errors.go
--   Config      the records of internal/config, `collectTemplatesToScan` (Config/Templates),
--               `ValidatePlaybookStructure` (Config/Validation), and `LoadPlaybook`,
--               `ValidateWithSchema` and `assignInternalTaskIDs` (Config/Loading)
--   Dag         internal/engine/dag.go: the nodes (Defs), `detectCycle` (Cycle), `BuildDAG` (Build)
--   Engine      internal/engine/engine.go: the state (Defs), `signal*Dependents` (Signals),
--               `handleTaskCompletion` (Completion), the counts (Counts), the scheduling loop and the
--               workers (Schedule), their steps in any order (Steps), and what holds in every state
--               that they reach (Safety); the final error and the report (Outcome)
--   Channels    internal/engine/channel_manager.go: the default policy, Write, and
--               the channels and WaitGroups between the tasks (Topology)
--   Params      internal/paramutil/paramutil.go
--   Copy        internal/util/copy.go: `DeepCopy`
--   State       internal/state/memory_store.go: the store, and the nesting of its dotted keys
--   Secrets     internal/secrets/tracker.go and internal/template/redaction.go
--   Retry       internal/retry/retry.go: `Do`
--   Join        modules/stream/join/join.go: keys (Keys), parameters (Settings), combinations (Combine),
--               the phases (Build, Probe), `Perform` (Perform)
--   Runner      internal/engine/task_runner.go: the condition (Conditions), the loop's items (Items), one
--               run of the module (Instance), and `ExecuteTask` (Task)
--   Modules     modules/generate/from_list/from_list.go (FromList)
--   Tests       runs on concrete inputs
--
-- Conventions. A map is an association list, and a `range` visits it in the order of that list, whichever
-- it is. A pointer that may be nil is an `Option`. A channel is the list of what waits in it: a send
-- on the ready channel is taken never to block; the channels between tasks have their capacity. An int32
-- counter wraps. The cycle check recurses on fuel, the number of nodes, which is proved enough, and the
-- printing of a number on fuel above the number. A step of the engine is a whole handler with the
-- signalling at its end, although the program has released its locks by then; what the interleavings of
-- two handlers add to that, such as a task that is sent to the ready channel twice, is not modelled.
--
-- Code outside the repository is a parameter: `extract` stands for the parser of templates (none for a
-- syntax error), `mentions` for the search for a redacted keyword in an error's text, `text` for the
-- printing of an error, `parse` for time.ParseDuration, `Libraries` for what the loading of playbooks
-- calls, `whole` for the test whether a float is a whole number.
--
-- Not modelled: the deep copy of shared data, pointers and structs, the length of a retry's delay, the
-- closing of output channels by the task runner, the modules but stream:join and generate:from_list,
-- logging, metrics, tracing, the command line, and the rendering of templates, which Go's text/template
-- does.
pub mod Prelude
pub mod Value
pub mod Errors
pub mod Config
pub mod Dag
pub mod Engine
pub mod Channels
pub mod Params
pub mod Retry
pub mod Join
pub mod Runner
pub mod Modules
pub mod Secrets
pub mod State
pub mod Copy
pub mod Tests
