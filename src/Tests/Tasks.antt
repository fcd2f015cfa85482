-- ===== src/Tests/Tasks.antt =====
-- A task that registers what its module returns, and the same task with a loop over two items.
use gxo.Prelude.{String, true, false, List, [], ◌∷◌, none, some, ◌≡◌, refl, if◌then◌else◌, ◌==◌}
use gxo.Prelude.Dict.{Dict, put}
use gxo.Value.{Value, null, str, list, nil, cons, bool}
use gxo.Errors.{plain, Result, ok, err}
use gxo.Config.{Task}
use gxo.Prelude.Text.{has_substring}
use gxo.Secrets.{redact_tracked_secrets}
use gxo.Runner.Conditions.{evaluate_condition_string, codes}
use gxo.Runner.Items.{resolve_loop_items}
use gxo.Runner.Instance.{
  ModuleRun, RunnerSetting, render_params, add_scope, add_producers, execute_single_task_instance,
}
use gxo.Runner.Instance.Summary.{FromAttempt, execute_single_task_instance_summary}
use gxo.Runner.Task.{LoopEvent, ran, TaskWorld, no_runs, run_loop, execute_task}
use gxo.Runner.Task.Registers.{RegistersRuns, execute_task_registers}
use gxo.Runner.Task.Loops.{outcomes, first_failure, last_success, run_loop_result}
use gxo.Tests.Samples.{gen_task, gen_node, mentions}
use gxo.Tests.Secret.{tracker, harmless}

abbrev params : Dict Value
params = ("command", str "{{ .tool }}") ∷ ("quiet", bool true) ∷ []

abbrev task : Task
task = record gen_task { params = params }

abbrev two_items : Task
two_items = record task { loop = list (cons (str "a") (cons (str "b") nil)) }

-- stands for the template engine
abbrev resolve : String → Dict Value → Result Value
resolve text context = if text == "{{ .tool }}" then ok (str "ls") else err (plain "no such key")

abbrev setting : RunnerSetting
setting = record { mentions = mentions; resolve = resolve; name_of = λ id. ""; aggregated_cap = 10 }

-- The module returns a text with the secret.
abbrev run : ModuleRun
run = record {
  before_execute = none ∷ [];
  registered = none;
  ended_before = λ n. none;
  ended_in_delay = λ n. none;
  perform = λ n params. (str "the key is hunter2", none);
  module_errors = some (plain "one bad record") ∷ [];
  ended_in_send = λ n. false;
}

abbrev events : List Value → List LoopEvent
events [] = []
events (item ∷ items) = ran item run ∷ events items

abbrev world : TaskWorld
world = record {
  render = λ text context. ok text;
  nonzero = λ text. none;
  reflect_items = λ n. none;
  schedule = events;
  single = run;
  all_state = [];
  set_error = none;
}

registered :
    (execute_task setting world task gen_node (some tracker) []).store
    ≡ ("out", str "[REDACTED_SECRET]") ∷ []
unfolding execute_task put redact_tracked_secrets has_substring
registered = refl

off : evaluate_condition_string (λ text. none) " Off " ≡ false
unfolding evaluate_condition_string codes
off = refl

execute_task_registers_example :
    RegistersRuns setting world gen_node task tracker []
      (resolve_loop_items world.reflect_items resolve [] task.loop)
      (execute_task setting world task gen_node (some tracker) [])
execute_task_registers_example =
    execute_task_registers setting world task gen_node tracker [] harmless

run_loop_result_example :
    let r = run_loop setting world two_items gen_node (events (str "a" ∷ str "b" ∷ [])) no_runs in
    (r.error
      ≡ first_failure
          (outcomes setting world two_items gen_node (events (str "a" ∷ str "b" ∷ [])) []))
    × (r.summary
        ≡ last_success null
            (outcomes setting world two_items gen_node (events (str "a" ∷ str "b" ∷ [])) []))
run_loop_result_example =
    run_loop_result setting world two_items gen_node (events (str "a" ∷ str "b" ∷ []))

abbrev rendered : Dict Value
rendered = ("command", str "ls") ∷ ("quiet", bool true) ∷ []

no_error : (execute_single_task_instance setting task gen_node none [] run []).error ≡ none
unfolding execute_single_task_instance put
no_error = refl

execute_single_task_instance_summary_example :
    (rendered' : Dict Value) × (render_params resolve (add_scope none []) params [] ≡ ok rendered')
    × FromAttempt setting task run
        (add_producers setting.name_of task gen_node rendered')
        (execute_single_task_instance setting task gen_node none [] run []).summary
execute_single_task_instance_summary_example =
    execute_single_task_instance_summary setting task gen_node none [] run [] no_error
