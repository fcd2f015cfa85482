-- ===== src/Runner/Instance.antt =====
-- `executeSingleTaskInstance` of internal/engine/task_runner.go: one run of a task's module.
pub mod Params
pub mod Summary
use Prim.Native.String.{String}
use gxo.Prelude.{
  ℕ, zero, suc, ◌+◌, Bool, true, false, List, [], ◌∷◌, ◌++◌, Option, none, some, if◌then◌else◌, ltb,
  length, ◌==◌,
}
use gxo.Prelude.Dict.{Dict, get, put}
use gxo.Prelude.Int.{ℤ, pos}
use gxo.Value.{
  Value, null, bool, int, sized_int, float32, float64, str, strings, list, dict, generic, other,
  Fields, end, field,
}
use gxo.Errors.{
  Error, plain, wrapped, config_caused, validation_caused, task_execution, record_processing,
  Result, ok, err,
}
use gxo.Config.{Task, RetryConfig}
use gxo.Dag.Defs.{Node}
use gxo.Retry.{Config, World, retry_do}

-- What the module and the hooks of one run do, by the number of the attempt from 1, and what the context
-- answers; `module_errors` are the errors that the module has put into its channel over all attempts,
-- with none for a nil.
pub record ModuleRun : Type 0 where
  pub before_execute : List (Option Error)
  pub registered : Option Error
  pub ended_before : ℕ → Option Error
  pub ended_in_delay : ℕ → Option Error
  pub perform : ℕ → Dict Value → Value × Option Error
  pub module_errors : List (Option Error)
  pub ended_in_send : ℕ → Bool

-- What a run leaves: its summary and error, and whether it waits for room among the aggregated errors.
pub record InstanceResult : Type 0 where
  pub summary : Value
  pub error : Option Error
  pub aggregated : List Error
  pub waiting : Bool

-- GetRetryAttempts
abbrev pub at_least_one : ℤ → ℤ
at_least_one (pos zero) = pos 1
at_least_one (pos (suc n)) = pos (suc n)
at_least_one n = pos 1

unfoldable pub get_retry_attempts : Option RetryConfig → ℤ
get_retry_attempts none = pos 1
get_retry_attempts (some retry) = at_least_one retry.attempts

-- ShouldRetryOnError
abbrev pub true_or : Option Bool → Bool
true_or none = true
true_or (some b) = b

unfoldable pub should_retry_on_error : Option RetryConfig → Bool
should_retry_on_error none = true
should_retry_on_error (some retry) = true_or retry.on_error

-- for _, hook := range r.hooks { if hookErr := hook.BeforeExecute(…); hookErr != nil { return } }
unfoldable pub run_hooks : List (Option Error) → Option Error
run_hooks [] = none
run_hooks (none ∷ hooks) = run_hooks hooks
run_hooks (some e ∷ hooks) = some (wrapped "BeforeExecute hook failed" e)

-- for k, v := range loopScopeData { templateData[k] = v }
unfoldable pub add_scope : Option (String × Value) → Dict Value → Dict Value
add_scope none template_data = template_data
add_scope (some (k, v)) template_data = put k v template_data

unfoldable pub resolved_param : Result Value → Result Value
resolved_param (err e) = err (wrapped "parameter resolution failed" e)
resolved_param (ok v) = ok v

-- The value of a parameter: a text is resolved, every other value is kept.
unfoldable pub render_param :
    (String → Dict Value → Result Value) → Dict Value → Value → Result Value
unfolding resolved_param
render_param resolve template_data (str s) = resolved_param (resolve s template_data)
render_param resolve template_data v = ok v

-- for key, value := range task.Params
unfoldable pub render_params :
    (String → Dict Value → Result Value)
    → Dict Value
    → Dict Value
    → Dict Value
    → Result (Dict Value)
unfolding render_param
render_params resolve template_data [] rendered = ok rendered
render_params resolve template_data ((key, v) ∷ params) rendered =
    elim (render_param resolve template_data v) [
      | err e ↦ err e
      | ok v' ↦ render_params resolve template_data params (put key v' rendered)
    ]

-- for _, depNode := range node.StreamDependsOn, with the name of a node's task
unfoldable pub producer_ids : (String → String) → List String → Dict Value → Dict Value
producer_ids name_of [] m = m
producer_ids name_of (id ∷ ids) m =
    producer_ids name_of ids (if name_of id == "" then m else put (name_of id) (str id) m)

unfoldable pub to_fields : Dict Value → Fields
to_fields [] = end
to_fields ((k, v) ∷ m) = field k v (to_fields m)

-- renderedParams[module.ProducerIDMapKey] = producerIDMap
unfoldable pub add_producers : (String → String) → Task → Node → Dict Value → Dict Value
unfolding producer_ids to_fields
add_producers name_of task node rendered = elim task.stream_inputs [
  | [] ↦ rendered
  | _ ∷ _ ↦
      put "_gxo_producer_id_map_"
        (dict (to_fields (producer_ids name_of node.stream_depends_on []))) rendered
]

-- if performErr == nil { summary = performSummary }, over the attempts that were made
unfoldable pub summary_of : (ℕ → Value × Option Error) → ℕ → Value
summary_of perform zero = null
summary_of perform (suc n) = elim (perform (suc n)).1 [
  | none ↦ (perform (suc n)).0
  | some e ↦ summary_of perform n
]

-- errors.As(errFromChan, &rpe)
unfoldable pub is_record_processing : Error → Bool
is_record_processing (record_processing s e) = true
is_record_processing (wrapped s e) = is_record_processing e
is_record_processing (config_caused s e) = is_record_processing e
is_record_processing (validation_caused s e) = is_record_processing e
is_record_processing (task_execution s e) = is_record_processing e
is_record_processing e = false

unfoldable pub as_record_error : String → Error → Error
unfolding is_record_processing
as_record_error task_name e = if is_record_processing e then e else record_processing task_name e

-- for errFromChan := range moduleErrChan; `cap` is the room of the channel of aggregated errors, and the
-- last result says whether the loop waits for room.
unfoldable pub forward_errors :
    String → ℕ → (ℕ → Bool) → ℕ → List (Option Error) → List Error → List Error × Bool
unfolding as_record_error
forward_errors task_name cap ended n [] aggregated = (aggregated, false)
forward_errors task_name cap ended n (none ∷ errors) aggregated =
    forward_errors task_name cap ended n errors aggregated
forward_errors task_name cap ended n (some e ∷ errors) aggregated =
    let dropped = forward_errors task_name cap ended (n + 1) errors aggregated in
    let sent =
      forward_errors task_name cap ended (n + 1) errors
        (aggregated ++ as_record_error task_name e ∷ []) in
    if ended n then dropped else if ltb (length aggregated) cap then sent else (aggregated, true)

-- What the runner is made with, and what the task's renderer and the graph answer.
pub record RunnerSetting : Type 0 where
  pub mentions : Error → Bool
  pub resolve : String → Dict Value → Result Value
  pub name_of : String → String
  pub aggregated_cap : ℕ

module _ (s : RunnerSetting) where
  abbrev pub retry_config : Task → Config
  retry_config task = record {
    attempts = get_retry_attempts task.retry;
    on_error = should_retry_on_error task.retry;
  }

  -- From retryCfg on.
  unfoldable pub run_module : Task → ModuleRun → Dict Value → List Error → InstanceResult
  unfolding retry_do summary_of forward_errors get_retry_attempts should_retry_on_error
  run_module task run rendered aggregated =
      let perform = λ (n : ℕ). run.perform n rendered in
      let (error, calls) = retry_do s.mentions (retry_config task) (record {
        ended_before = run.ended_before;
        op = λ n. (perform n).1;
        ended_in_delay = run.ended_in_delay;
      }) in
      let (aggregated', waiting) =
        forward_errors task.name s.aggregated_cap run.ended_in_send 0 run.module_errors
          aggregated in
      record {
        summary = summary_of perform calls;
        error = error;
        aggregated = aggregated';
        waiting = waiting;
      }

  abbrev pub stopped_by : Error → List Error → InstanceResult
  stopped_by e aggregated = record {
    summary = null;
    error = some e;
    aggregated = aggregated;
    waiting = false;
  }

  -- From the parameters on.
  unfoldable pub run_rendered :
      Task → Node → ModuleRun → Result (Dict Value) → List Error → InstanceResult
  unfolding run_module add_producers
  run_rendered task node run (err e) aggregated = stopped_by e aggregated
  run_rendered task node run (ok rendered) aggregated =
      run_module task run (add_producers s.name_of task node rendered) aggregated

  -- From the hooks on.
  unfoldable pub run_registered :
      Task
      → Node
      → Option (String × Value)
      → Dict Value
      → ModuleRun
      → Option Error
      → List Error
      → InstanceResult
  unfolding run_rendered render_params add_scope
  run_registered task node scope all_state run (some e) aggregated = stopped_by e aggregated
  run_registered task node scope all_state run none aggregated =
      run_rendered task node run
        (render_params s.resolve (add_scope scope all_state) task.params []) aggregated

  -- executeSingleTaskInstance
  unfoldable pub execute_single_task_instance :
      Task → Node → Option (String × Value) → Dict Value → ModuleRun → List Error → InstanceResult
  unfolding run_registered run_hooks
  execute_single_task_instance task node scope all_state run aggregated =
      elim (run_hooks run.before_execute) [
        | some e ↦ stopped_by e aggregated
        | none ↦ run_registered task node scope all_state run run.registered aggregated
      ]
