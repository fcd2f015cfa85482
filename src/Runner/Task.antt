-- ===== src/Runner/Task.antt =====
-- `ExecuteTask` of internal/engine/task_runner.go: the whole of a task.
pub mod Registers
pub mod Loops
use Prim.Native.String.{String}
use gxo.Prelude.{
  ℕ, suc, ◌+◌, Bool, true, false, not, List, [], ◌∷◌, Option, none, some, if◌then◌else◌, ◌==◌,
  length,
}
use gxo.Prelude.Dict.{Dict, get, put}
use gxo.Value.{
  Value, null, bool, int, sized_int, float32, float64, str, strings, list, dict, generic, other,
}
use gxo.Errors.{Error, plain, wrapped, skipped, is_skipped, Result, ok, err}
use gxo.Config.{Task}
use gxo.Dag.Defs.{Node}
use gxo.Secrets.{SecretTracker, redact_tracked_secrets}
use gxo.Runner.Conditions.{evaluate_condition_string}
use gxo.Runner.Items.{resolve_loop_items}
use gxo.Runner.Instance.{ModuleRun, InstanceResult, RunnerSetting, execute_single_task_instance}

-- What happens in a loop, in the order of the lock that the iterations take: one has run for its item,
-- one has left since the context had ended, or the context has ended before the next one was started.
pub data LoopEvent : Type 0 where
  ran : Value → ModuleRun → LoopEvent
  left : LoopEvent
  ended : Error → LoopEvent

-- finalInstanceSummary and finalInstanceErr, the errors passed on, and whether a run waits for room
-- among them. That a run closes the output channels of the task, if it has any, is left out.
pub record Runs : Type 0 where
  pub summary : Value
  pub error : Option Error
  pub aggregated : List Error
  pub waiting : Bool

-- What ExecuteTask leaves, with the state store.
pub record TaskResult : Type 0 where
  pub runs : Runs
  pub store : Dict Value

-- if finalInstanceErr == nil { finalInstanceErr = … }
abbrev pub first_error : Option Error → Error → Option Error
first_error none e = some e
first_error (some old) e = some old

-- else if iterErr == nil && finalInstanceErr == nil { finalInstanceSummary = iterSummary }
abbrev pub last_summary : Option Error → Value → Value → Value
last_summary none old new = new
last_summary (some e) old new = old

-- The part of an iteration under the lock.
unfoldable pub record_iteration : InstanceResult → Option Error → Runs → Runs
record_iteration i (some e) r =
    if is_skipped e
    then record r { aggregated = i.aggregated }
    else record r { error = first_error r.error e; aggregated = i.aggregated }
record_iteration i none r = record r {
  summary = last_summary r.error r.summary i.summary;
  aggregated = i.aggregated;
}

-- An iteration that waits does not come to the lock.
unfoldable pub end_iteration : InstanceResult → Runs → Runs
unfolding record_iteration
end_iteration i r =
    if i.waiting
    then record r { aggregated = i.aggregated; waiting = true }
    else record_iteration i i.error r

-- GetLoopVar
abbrev pub loop_var_or : String → String
loop_var_or v = if v == "" then "item" else v

unfoldable pub get_loop_var : Task → String
get_loop_var task = elim task.loop_control [ none ↦ "item" | some c ↦ loop_var_or c.loop_var ]

abbrev pub no_runs : Runs
no_runs = record { summary = null; error = none; aggregated = []; waiting = false }

abbrev pub ends_with : Error → TaskResult → TaskResult
ends_with e t = record t { runs = record t.runs { error = some e } }

-- task.Loop != nil
abbrev pub has_loop : Value → Bool
has_loop null = false
has_loop v = true

-- What a task's world answers: the condition's rendering, floats, reflection, the events of the loop over
-- some items, the run of a task without a loop, and the error of the store, if any. Any events are
-- allowed, among them those of the loop, where each item runs at most once.
pub record TaskWorld : Type 0 where
  pub render : String → Dict Value → Result String
  pub nonzero : String → Option Bool
  pub reflect_items : ℕ → Option (List Value)
  pub schedule : List Value → List LoopEvent
  pub single : ModuleRun
  pub all_state : Dict Value
  pub set_error : Option Error

-- if regErr := r.stateManager.Set(…); regErr != nil { … } else { … }
unfoldable pub set_registered : String → Value → Option Error → TaskResult → TaskResult
set_registered key v none t = record t {
  runs = record t.runs { summary = v };
  store = put key v t.store;
}
set_registered key v (some e) t = ends_with (wrapped "failed to register result" e) t

-- if finalInstanceErr == nil && task.Register != ""
unfoldable pub register_result :
    Task → Option SecretTracker → Option Error → Option Error → TaskResult → TaskResult
unfolding set_registered
register_result task tracker set_error (some e) t = t
register_result task tracker set_error none t =
    if task.register == ""
    then t
    else set_registered task.register (redact_tracked_secrets t.runs.summary tracker).0 set_error t

module _ (s : RunnerSetting) (w : TaskWorld) (task : Task) (node : Node) where
  -- for i, item := range loopItems, with the goroutines
  unfoldable pub run_loop : List LoopEvent → Runs → Runs
  unfolding end_iteration execute_single_task_instance get_loop_var
  run_loop [] r = r
  run_loop (left ∷ events) r = run_loop events r
  run_loop (ended e ∷ events) r = run_loop events (record r { error = first_error r.error e })
  run_loop (ran item run ∷ events) r = run_loop events (
      end_iteration
        (execute_single_task_instance s task node (some (get_loop_var task, item)) w.all_state run
          r.aggregated)
        r)

  unfoldable pub run_once : InstanceResult → Runs
  run_once i = record {
    summary = i.summary;
    error = i.error;
    aggregated = i.aggregated;
    waiting = i.waiting;
  }

  -- The runs of the module, by the loop's items.
  unfoldable pub run_instances : List Value → Runs
  unfolding run_loop run_once execute_single_task_instance
  run_instances [] =
      run_once (execute_single_task_instance s task node none w.all_state w.single [])
  run_instances (item ∷ items) = run_loop (w.schedule (item ∷ items)) no_runs

  -- From `finalInstanceErr == nil && task.Register != ""` on; nothing follows a run that waits.
  unfoldable pub finish_task : Option SecretTracker → Runs → Dict Value → TaskResult
  unfolding register_result
  finish_task tracker r store =
      let t : TaskResult = record { runs = r; store = store } in
      if r.waiting then t else register_result task tracker w.set_error r.error t

  abbrev stopped : Error → Dict Value → TaskResult
  stopped e store = record { runs = record no_runs { error = some e }; store = store }

  -- From the items of the loop on.
  unfoldable pub run_items : Option SecretTracker → Result (List Value) → Dict Value → TaskResult
  unfolding finish_task run_instances
  run_items tracker (err e) store = stopped (wrapped "failed to resolve loop items" e) store
  run_items tracker (ok []) store =
      if has_loop task.loop
      then record { runs = no_runs; store = store }
      else finish_task tracker (run_instances []) store
  run_items tracker (ok (item ∷ items)) store =
      finish_task tracker (run_instances (item ∷ items)) store

  -- The condition: the error that skips the task, if any.
  unfoldable pub condition_error : Result String → Option Error
  unfolding evaluate_condition_string
  condition_error (err e) = some (skipped "'when' condition error")
  condition_error (ok text) =
      if evaluate_condition_string w.nonzero text
      then none
      else some (skipped "'when' condition false")

  unfoldable pub when_error : Option Error
  unfolding condition_error
  when_error = if task.when == "" then none else condition_error (w.render task.when w.all_state)

  -- ExecuteTask
  unfoldable pub execute_task : Option SecretTracker → Dict Value → TaskResult
  unfolding when_error run_items resolve_loop_items
  execute_task tracker store = elim when_error [
    | some e ↦ stopped e store
    | none ↦
        run_items tracker (resolve_loop_items w.reflect_items s.resolve w.all_state task.loop) store
  ]
