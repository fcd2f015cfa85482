-- ===== src/Engine/Completion.antt =====
-- `handleTaskCompletion`. The text of an error is not modelled: `mentions` says whether it holds a
-- redacted keyword, in which case template.RedactSecretsInError makes it a plain error.
use gxo.Prelude.{
  ℕ, ◌+◌, String, Bool, true, false, not, [], ◌∷◌, ◌++◌, ◌&&◌, ◌||◌, Option, none, some,
  if◌then◌else◌,
}
use gxo.Prelude.Dict.{Dict, get, put, del}
use gxo.Errors.{Error, plain, is_skipped, is_context_error}
use gxo.Dag.Defs.{TaskStatus, pending, running, Node}
use gxo.Engine.Defs.{TaskTiming, Engine, is_terminal, is_failed, is_done, write_task_status}
use gxo.Engine.Signals.{signal_state_dependents}

-- The status that the map holds; a missing one is "", which equals no constant.
abbrev pub is_terminal? : Option TaskStatus → Bool
is_terminal? none = false
is_terminal? (some s) = is_terminal s

-- oldStatus == StatusRunning || oldStatus == StatusPending
unfoldable pub was_open : Option TaskStatus → Bool
was_open (some running) = true
was_open (some pending) = true
was_open s = false

-- timing.end is set once; `none` is the zero time of a task without a timing.
unfoldable pub stop_timing : ℕ → Option TaskTiming → TaskTiming
stop_timing now none = record { start = none; stop = some now }
stop_timing now (some t) = elim t.stop [ none ↦ record t { stop = some now } | some s ↦ t ]

-- select { case fatalErrChan <- err: default: }, on a channel of capacity 1
unfoldable pub send_fatal : Error → Engine → Engine
send_fatal err e = elim e.fatal_err_chan [
  | none ↦ record e { fatal_err_chan = some err }
  | some first ↦ e
]

-- The end of the handler, for a failed task that does not ignore errors.
unfoldable pub halt_on : Option Error → Engine → Engine
unfolding send_fatal
halt_on none e = e
halt_on (some err) e = if is_context_error err || is_skipped err then e else send_fatal err e

module _ (mentions : Error → Bool) where
  -- template.RedactSecretsInError
  unfoldable pub redact_error : Error → Error
  redact_error err = if mentions err then plain "redacted" else err

  unfoldable pub note_error : String → Option Error → Dict Error → Dict Error
  unfolding redact_error
  note_error id none errors = del id errors
  note_error id (some err) errors = put id (redact_error err) errors

  -- The part under the locks, the event, the write to the state store and the count.
  unfoldable pub record_completion : ℕ → String → TaskStatus → Option Error → Engine → Engine
  unfolding stop_timing note_error was_open write_task_status
  record_completion now id status err e =
      let old = get id e.task_statuses in
      let e' = record e {
        task_timings = put id (stop_timing now (get id e.task_timings)) e.task_timings;
        task_statuses = put id status e.task_statuses;
        task_errors = note_error id err e.task_errors;
        events = e.events ++ record { task_id = id; old_status = old; new_status = status } ∷ [];
        completed_tasks = if was_open old then e.completed_tasks + 1 else e.completed_tasks;
      } in
      write_task_status id status e'

  -- What follows for the dependents and for the playbook.
  unfoldable pub propagate : Option Node → TaskStatus → Option Error → Engine → Engine
  unfolding halt_on signal_state_dependents
  propagate none status err e = e
  propagate (some node) status err e =
      let e' = if is_done status then signal_state_dependents node e else e in
      if is_failed status && not node.task.ignore_errors then halt_on err e' else e'

  unfoldable pub handle_task_completion :
      ℕ → String → TaskStatus → Option Error → Bool → Engine → Engine
  unfolding record_completion propagate
  handle_task_completion now id status err synthetic e =
      if not synthetic && is_terminal? (get id e.task_statuses)
      then e
      else propagate (get id e.dag.nodes) status err (record_completion now id status err e)
