-- ===== src/Engine/Outcome.antt =====
-- `determineFinalOutcome` and `generateReport`. `text` stands for the method `Error`, whose verbs the
-- standard library prints. A duration is `none` where the source leaves it 0.
pub mod Verdict
pub mod Report
use gxo.Prelude.{
  ℕ, ◌+◌, ◌-◌, String, Bool, true, false, not, List, [], ◌∷◌, ◌&&◌, ◌||◌, Option, none, some,
  if◌then◌else◌, ltb, ◌==◌, length,
}
use gxo.Prelude.Dict.{Dict, get, put}
use gxo.Prelude.Int.{is_positive}
use gxo.Errors.{Error, plain, config_error, config_caused, is_skipped, is_context_error}
use gxo.Dag.Defs.{TaskStatus, pending, ready, running, completed, failed, skipped, Node, Dag}
use gxo.Engine.Defs.{Engine, TaskTiming, is_pending, is_failed, status_text}
use gxo.Engine.Completion.{redact_error}

-- firstFatalError.Error() == "playbook execution stalled"
unfoldable pub is_stalled : Error → Bool
is_stalled (plain s) = s == "playbook execution stalled"
is_stalled err = false

-- isExpectedPending: the task waits for the state of another one.
unfoldable pub is_expected_pending : Dag → String → Bool
is_expected_pending dag id = elim (get id dag.nodes) [
  | none ↦ false
  | some node ↦ is_positive node.state_deps_remaining
]

pub record Flags : Type 0 where
  pub has_failed_tasks : Bool
  pub has_unexpected_pending : Bool

unfoldable pub look_at : Dag → String → TaskStatus → Flags → Flags
unfolding is_failed is_pending is_expected_pending
look_at dag id status flags = record {
  has_failed_tasks = is_failed status || flags.has_failed_tasks;
  has_unexpected_pending =
      (is_pending status && not (is_expected_pending dag id)) || flags.has_unexpected_pending;
}

-- for id, status := range e.taskStatuses
unfoldable pub look_at_all : Dag → Dict TaskStatus → Flags → Flags
unfolding look_at
look_at_all dag [] flags = flags
look_at_all dag ((id, status) ∷ statuses) flags =
    look_at_all dag statuses (look_at dag id status flags)

abbrev pub no_flags : Flags
no_flags = record { has_failed_tasks = false; has_unexpected_pending = false }

unfoldable pub outcome_of : Flags → Option Error
outcome_of flags =
    if flags.has_unexpected_pending
    then some (config_error "playbook finished with unexpected pending tasks")
    else if flags.has_failed_tasks
    then some (config_error "playbook finished with one or more failed tasks")
    else none

-- The status of a task in the report, with its error as a text.
pub record TaskResult : Type 0 where
  pub status : String
  pub error : String
  pub timing : TaskTiming
  pub duration : Option ℕ

pub record ExecutionReport : Type 0 where
  pub overall_status : String
  pub error : String
  pub total_tasks : ℕ
  pub completed_tasks : ℕ
  pub failed_tasks : ℕ
  pub skipped_tasks : ℕ
  pub task_results : Dict TaskResult

abbrev pub timing_or_zero : Option TaskTiming → TaskTiming
timing_or_zero none = record { start = none; stop = none }
timing_or_zero (some t) = t

-- timing.end.Sub(timing.start) where both are set
unfoldable pub duration_of : TaskTiming → Option ℕ
duration_of t = elim t.start [
  | none ↦ none
  | some a ↦ elim t.stop [ none ↦ none | some b ↦ some (b - a) ]
]

-- if s == "" { s = t }
abbrev pub text_or : String → String → String
text_or s t = if s == "" then t else s

-- A non-terminal task turns a report that is still "Completed" into a failed one.
unfoldable pub fail_report : String → ExecutionReport → ExecutionReport
fail_report message r =
    if r.overall_status == "Completed"
    then record r { overall_status = "Failed"; error = text_or r.error message }
    else r

module _ (mentions : Error → Bool) (text : Error → String) where
  unfoldable pub determine_final_outcome : Dag → Dict TaskStatus → Option Error → Option Error
  unfolding is_stalled look_at_all outcome_of redact_error
  determine_final_outcome dag statuses none = outcome_of (look_at_all dag statuses no_flags)
  determine_final_outcome dag statuses (some err) =
      if is_context_error err
      then some err
      else if is_stalled err
      then some err
      else some (config_caused "playbook finished due to fatal error" (redact_error mentions err))

  abbrev pub text_of : Option Error → String
  text_of none = ""
  text_of (some err) = text err

  -- The error's text in the task's result, by its status.
  unfoldable pub result_error : TaskStatus → Option Error → String
  result_error failed err = text_or (text_of err) "Task failed (unknown error)"
  result_error pending err = "Task remained in Pending state"
  result_error running err = "Task remained in Running state"
  result_error status err = text_of err

  -- the switch on the status, without the error's text
  unfoldable pub count_status : TaskStatus → ExecutionReport → ExecutionReport
  unfolding fail_report
  count_status failed r = record r { failed_tasks = r.failed_tasks + 1 }
  count_status completed r = record r { completed_tasks = r.completed_tasks + 1 }
  count_status skipped r = record r { skipped_tasks = r.skipped_tasks + 1 }
  count_status ready r = r
  count_status status r =
      let r' = fail_report "Playbook finished with non-terminal tasks" r in
      record r' { failed_tasks = r'.failed_tasks + 1 }

  unfoldable pub report_task : Engine → String → TaskStatus → ExecutionReport → ExecutionReport
  unfolding count_status result_error duration_of status_text
  report_task e id status r =
      let r' = count_status status r in
      let timing = timing_or_zero (get id e.task_timings) in
      record r' {
        task_results =
            put id
              (record {
                status = status_text status;
                error = result_error status (get id e.task_errors);
                timing = timing;
                duration = duration_of timing;
              })
              r'.task_results;
      }

  -- for id, status := range e.taskStatuses
  unfoldable pub report_tasks : Engine → Dict TaskStatus → ExecutionReport → ExecutionReport
  unfolding report_task
  report_tasks e [] r = r
  report_tasks e ((id, status) ∷ statuses) r = report_tasks e statuses (report_task e id status r)

  unfoldable pub empty_report : Option Error → ExecutionReport
  unfolding redact_error
  empty_report err = record {
    overall_status = elim err [ none ↦ "Completed" | some x ↦ "Failed" ];
    error = elim err [ none ↦ "" | some x ↦ text (redact_error mentions x) ];
    total_tasks = 0;
    completed_tasks = 0;
    failed_tasks = 0;
    skipped_tasks = 0;
    task_results = [];
  }

  unfoldable pub generate_report : Engine → Option Error → ExecutionReport
  unfolding report_tasks empty_report fail_report
  generate_report e err =
      let r = report_tasks e e.task_statuses (empty_report err) in
      let r' = record r { total_tasks = length e.task_statuses } in
      if ltb 0 r'.failed_tasks
      then fail_report "Playbook finished with one or more failed tasks" r'
      else r'
