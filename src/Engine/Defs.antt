-- ===== src/Engine/Defs.antt =====
-- The runtime state of `Engine` in internal/engine/engine.go, with the local variables of `RunPlaybook`
-- that its scheduling loop changes. `cancelled` says that the run's context is done, and `worker_tasks` are
-- the tasks that a worker has taken from the queue and not finished. A channel is the list of what waits in it; `now` is a reading of
-- the clock. Metrics, tracing and logging leave no trace here.
use gxo.Prelude.{ℕ, String, Bool, true, false, List, Option, none, some, if◌then◌else◌, ◌==◌}
use Prim.Native.String.{◌++◌ as text_append}
use gxo.Prelude.Dict.{Dict, get, put}
use gxo.Value.{Value, str}
use gxo.Errors.{Error}
use gxo.Dag.Defs.{TaskStatus, pending, ready, running, completed, failed, skipped, Dag}

-- A zero `time.Time` is `none`.
pub record TaskTiming : Type 0 where
  pub start : Option ℕ
  pub stop : Option ℕ

-- events.TaskStatusChanged
pub record StatusChanged : Type 0 where
  pub task_id : String
  pub old_status : Option TaskStatus
  pub new_status : TaskStatus

pub record Engine : Type 0 where
  pub dag : Dag
  pub total_tasks : ℕ
  pub completed_tasks : ℕ
  pub active_workers : ℕ
  pub running_tasks : ℕ
  pub ready_chan : List String
  pub work_queue : List String
  pub fatal_err_chan : Option Error
  pub task_statuses : Dict TaskStatus
  pub task_timings : Dict TaskTiming
  pub task_errors : Dict Error
  pub dispatched_tasks : List String
  pub first_fatal_error : Option Error
  pub cancelled : Bool
  pub stall_checks : ℕ
  pub last_accounted_for_count : Option ℕ
  pub tasks_accounted_for : ℕ
  pub worker_tasks : List String
  pub state : Dict Value
  pub events : List StatusChanged

unfoldable pub is_terminal : TaskStatus → Bool
is_terminal completed = true
is_terminal failed = true
is_terminal skipped = true
is_terminal s = false

unfoldable pub is_pending : TaskStatus → Bool
is_pending pending = true
is_pending s = false

unfoldable pub is_failed : TaskStatus → Bool
is_failed failed = true
is_failed s = false

-- A task in such a state has met the state dependencies on it.
unfoldable pub is_done : TaskStatus → Bool
is_done completed = true
is_done skipped = true
is_done s = false

unfoldable pub status_text : TaskStatus → String
status_text pending = "Pending"
status_text ready = "Ready"
status_text running = "Running"
status_text completed = "Completed"
status_text failed = "Failed"
status_text skipped = "Skipped"

-- The name of a task in the state store: its own, or its id where it has none or is unknown.
unfoldable pub state_name : Dag → String → String
state_name dag id = elim (get id dag.nodes) [
  | none ↦ id
  | some node ↦ if node.task.name == "" then id else node.task.name
]

unfoldable pub status_key : String → String
status_key name = text_append "_gxo.tasks." (text_append name ".status")

unfoldable pub write_task_status : String → TaskStatus → Engine → Engine
unfolding state_name status_key status_text
write_task_status id status e = record e {
  state = put (status_key (state_name e.dag id)) (str (status_text status)) e.state;
}
