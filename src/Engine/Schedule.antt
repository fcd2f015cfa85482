-- ===== src/Engine/Schedule.antt =====
-- The scheduling loop of `RunPlaybook` and the loop of `worker`, one function for each case of a
-- `select`. Which case runs, and when, is left to `Engine.Steps`.
use gxo.Prelude.{
  ℕ, ◌+◌, ◌-◌, String, Bool, true, false, List, [], ◌∷◌, ◌++◌, ◌&&◌, Option, none, some,
  if◌then◌else◌, eqb, leb, ◌==◌, contains, length,
}
use gxo.Prelude.Dict.{get, put}
use gxo.Errors.{Error, plain, config_error, is_skipped}
use gxo.Dag.Defs.{TaskStatus, pending, running, completed, failed, skipped, Node, Dag, node_ids}
use gxo.Engine.Defs.{Engine, is_pending, write_task_status}
use gxo.Engine.Signals.{signal_stream_dependents, send_ready}
use gxo.Engine.Completion.{handle_task_completion}
use gxo.Engine.Counts.{count_terminal_tasks, count_runnable_pending_tasks, has_pending_tasks}

abbrev pub is_pending? : Option TaskStatus → Bool
is_pending? none = false
is_pending? (some s) = is_pending s

unfoldable pub mark_pending : String → Engine → Engine
unfolding write_task_status
mark_pending id e = write_task_status id pending (record e {
  task_statuses = put id pending e.task_statuses;
  task_timings = put id (record { start = none; stop = none }) e.task_timings;
})

-- for id := range e.dag.Nodes { … }
unfoldable pub set_pending : List String → Engine → Engine
unfolding mark_pending
set_pending [] e = e
set_pending (id ∷ ids) e = set_pending ids (mark_pending id e)

-- for _, node := range initialReadyNodes { e.readyChan <- node.ID }
unfoldable pub seed_ready : List Node → Engine → Engine
seed_ready [] e = e
seed_ready (node ∷ nodes) e = seed_ready nodes (send_ready node.id e)

-- The fields that `RunPlaybook` sets before its loop, and the local variables of the loop.
unfoldable pub fresh_run : Dag → Engine → Engine
unfolding node_ids
fresh_run dag e = record e {
  dag = dag;
  total_tasks = length (node_ids dag);
  completed_tasks = 0;
  active_workers = 0;
  running_tasks = 0;
  ready_chan = [];
  work_queue = [];
  fatal_err_chan = none;
  task_statuses = [];
  task_timings = [];
  task_errors = [];
  dispatched_tasks = [];
  first_fatal_error = none;
  cancelled = false;
  stall_checks = 0;
  last_accounted_for_count = none;
  tasks_accounted_for = 0;
  worker_tasks = [];
}

-- The state in which the scheduling loop starts.
unfoldable pub start_run : Dag → List Node → Engine → Engine
unfolding fresh_run set_pending seed_ready node_ids
start_run dag initial e = seed_ready initial (set_pending (node_ids dag) (fresh_run dag e))

-- What `RunPlaybook` does once the graph is built: it returns without an error and without a report,
-- returns an error, or starts its loop.
pub data Launch : Type 0 where
  nothing_to_do : Launch
  not_launched : Error → Launch
  launched : Engine → Launch

unfoldable pub launch : Dag → List Node → Engine → Launch
unfolding start_run node_ids
launch dag initial e = if eqb (length (node_ids dag)) 0 then nothing_to_do else elim initial [
  | [] ↦ not_launched (config_error "no initially ready tasks found in non-empty DAG")
  | node ∷ nodes ↦ launched (start_run dag (node ∷ nodes) e)
]

-- e.signalStreamDependents(e.dag.Nodes[id])
unfoldable pub signal_streams_of : String → Engine → Engine
unfolding signal_stream_dependents
signal_streams_of id e = elim (get id e.dag.nodes) [
  | none ↦ e
  | some node ↦ signal_stream_dependents node e
]

-- The task is marked as running, under the locks.
unfoldable pub mark_running : ℕ → String → Engine → Engine
unfolding write_task_status
mark_running now id e = write_task_status id running (record e {
  dispatched_tasks = id ∷ e.dispatched_tasks;
  task_statuses = put id running e.task_statuses;
  task_timings = put id (record { start = some now; stop = none }) e.task_timings;
})

-- The worker that held the task is free again.
unfoldable pub remove_one : String → List String → List String
remove_one id [] = []
remove_one id (k ∷ ks) = let rest = remove_one id ks in if k == id then ks else k ∷ rest

module _ (mentions : Error → Bool) where
  -- The inner `select`: the queue takes the task, or the context ends first, with its error.
  unfoldable pub hand_over : ℕ → String → Option Error → Engine → Engine
  unfolding handle_task_completion
  hand_over now id none e = record e {
    work_queue = e.work_queue ++ id ∷ [];
    running_tasks = e.running_tasks + 1;
  }
  hand_over now id (some err) e = handle_task_completion mentions now id failed (some err) true e

  -- case taskID := <-e.readyChan
  unfoldable pub receive_ready : ℕ → String → Option Error → Engine → Engine
  unfolding mark_running signal_streams_of hand_over
  receive_ready now id ended e =
      let e' = record e { stall_checks = 0 } in
      if contains id e.dispatched_tasks
      then e'
      else if is_pending? (get id e.task_statuses)
      then hand_over now id ended (signal_streams_of id (mark_running now id e'))
      else e'

  -- case taskID, ok := <-e.workQueue, of `worker`
  unfoldable pub worker_start : String → Engine → Engine
  worker_start id e = record e {
    active_workers = e.active_workers + 1;
    worker_tasks = id ∷ e.worker_tasks;
  }

  -- The status that `runTaskAndHandleCompletion` gives by the error of `ExecuteTask`.
  unfoldable pub final_status : Option Error → TaskStatus
  final_status none = completed
  final_status (some err) = if is_skipped err then skipped else failed

  -- What `worker` does with a task of the queue: `err` is the error of `ExecuteTask`, or the error of
  -- the context where that is done before the task starts.
  unfoldable pub complete : ℕ → String → Option Error → Engine → Engine
  unfolding handle_task_completion final_status
  complete now id err e = elim (get id e.dag.nodes) [
    | none ↦
        handle_task_completion mentions now id failed
          (some (plain "task definition not found in DAG")) true e
    | some node ↦ handle_task_completion mentions now id (final_status err) err false e
  ]

  -- The completion, and the deferred calls of `worker`.
  unfoldable pub worker_finish : ℕ → String → Option Error → Engine → Engine
  unfolding complete remove_one
  worker_finish now id err e =
      let e' = complete now id err e in
      record e' {
        active_workers = e'.active_workers - 1;
        running_tasks = e'.running_tasks - 1;
        worker_tasks = remove_one id e'.worker_tasks;
      }

-- if firstFatalError == nil { firstFatalError = err }
abbrev pub first_or : Option Error → Error → Option Error
first_or none err = some err
first_or (some first) err = some first

-- case err := <-fatalErrChan
unfoldable pub receive_fatal : Error → Engine → Engine
receive_fatal err e = record e {
  stall_checks = 0;
  first_fatal_error = first_or e.first_fatal_error err;
  cancelled = true;
}

-- Whether the loop goes round again.
pub data Next : Type 0 where
  again stop : Engine → Next

abbrev pub stalled : Error
stalled = plain "playbook execution stalled"

-- currentAccounted == lastAccountedForCount, where -1 is `none`
abbrev pub same_count : ℕ → Option ℕ → Bool
same_count n none = false
same_count n (some m) = eqb n m

-- The stall check at the end of the ticker's case.
unfoldable pub check_stall : ℕ → ℕ → Bool → Engine → Next
check_stall tolerance current blocked e =
    let e' = record e { last_accounted_for_count = some current } in
    if same_count current e.last_accounted_for_count
    then (let checks = e.stall_checks + 1 in
        if leb tolerance checks
        then if blocked
          then again (record e' { stall_checks = 0 })
          else stop (record e {
            stall_checks = checks;
            first_fatal_error = first_or e.first_fatal_error stalled;
            cancelled = true;
          })
        else again (record e' { stall_checks = checks }))
    else again (record e' { stall_checks = 0 })

-- case <-ticker.C
unfoldable pub tick : ℕ → Engine → Next
unfolding count_terminal_tasks count_runnable_pending_tasks has_pending_tasks check_stall
tick tolerance e =
    let current = count_terminal_tasks e.task_statuses in
    let e' = record e { tasks_accounted_for = current } in
    let idle =
      eqb e.active_workers 0 && eqb (count_runnable_pending_tasks e.dag e.task_statuses) 0 in
    let waiting = has_pending_tasks e.task_statuses in
    if leb e.total_tasks current
    then again e'
    else if idle && waiting
    then stop e'
    else check_stall tolerance current (idle && waiting) e'

-- case <-runCtx.Done()
unfoldable pub context_done : Error → Engine → Next
context_done err e = stop (record e { first_fatal_error = first_or e.first_fatal_error err })
