-- ===== src/Runner/Instance/Summary.antt =====
-- The summary of one run of a module.
use gxo.Prelude.{ℕ, zero, suc, ◌≤◌, String, false, List, [], Option, none, some, ◌≡◌, refl, arith}
use gxo.Prelude.Dict.{Dict}
use gxo.Value.{Value, null}
use gxo.Errors.{Error, Result, ok, err}
use gxo.Config.{Task}
use gxo.Dag.Defs.{Node}
use gxo.Retry.{World, attempts_of, retry_do}
use gxo.Retry.Calls.{retry_do_calls, last_call}
use gxo.Runner.Instance.{
  ModuleRun, InstanceResult, RunnerSetting, run_hooks, add_scope, render_params, add_producers,
  summary_of, get_retry_attempts, retry_config, run_module, run_rendered, run_registered,
  execute_single_task_instance,
}

summary-of_success :
    (perform : ℕ → Value × Option Error) (n : ℕ)
    → 1 ≤ n
    → (perform n).1 ≡ none
    → summary_of perform n ≡ (perform n).0
unfolding summary_of
summary-of_success perform zero from h = absurd (omega arith)
summary-of_success perform (suc n) from h = rw (h, summary_of) refl

module _ (s : RunnerSetting) (task : Task) (run : ModuleRun) where
  -- The summary is that of an attempt that has succeeded, with these parameters.
  abbrev pub FromAttempt : Dict Value → Value → Type 0
  FromAttempt rendered summary =
      (n : ℕ) × (1 ≤ n)
      × (n ≤ attempts_of (get_retry_attempts task.retry))
      × ((run.perform n rendered).1 ≡ none)
      × (summary ≡ (run.perform n rendered).0)

  run_module-FromAttempt :
      (rendered : Dict Value) (aggregated : List Error)
      → (run_module s task run rendered aggregated).error ≡ none
      → FromAttempt rendered (run_module s task run rendered aggregated).summary
  unfolding run_module
  run_module-FromAttempt rendered aggregated h =
      let w : World = record {
        ended_before = run.ended_before;
        op = λ n. (run.perform n rendered).1;
        ended_in_delay = run.ended_in_delay;
      } in
      let (from, last) = last_call s.mentions (retry_config s task) w h in
      let n = (retry_do s.mentions (retry_config s task) w).1 in
      (
        n,
        from,
        retry_do_calls s.mentions (retry_config s task) w,
        last,
        summary-of_success (λ n. run.perform n rendered) n from last,
      )

-- A run of a task's module that ends without an error has resolved each parameter, and its summary is what
-- the module has returned with these parameters in an attempt that succeeded, within the number of
-- attempts that the task configures.
pub execute_single_task_instance_summary :
    (s : RunnerSetting)
    → (task : Task) → (node : Node) → (scope : Option (String × Value)) → (all_state : Dict Value)
    → (run : ModuleRun) → (aggregated : List Error)
    → let i = execute_single_task_instance s task node scope all_state run aggregated in
      i.error ≡ none
      → (rendered : Dict Value) × (render_params s.resolve
            (add_scope scope all_state)
            task.params
            []
          ≡ ok rendered)
        × FromAttempt s task run (add_producers s.name_of task node rendered) i.summary
unfolding execute_single_task_instance run_registered run_rendered
execute_single_task_instance_summary s task node scope all_state run aggregated =
    by_hooks (run_hooks run.before_execute)
  where
    Claim : InstanceResult → Type 0
    Claim i =
        i.error ≡ none
        → (rendered : Dict Value) × (render_params s.resolve (add_scope scope all_state) task.params
              []
            ≡ ok rendered)
          × FromAttempt s task run (add_producers s.name_of task node rendered) i.summary

    by_params :
        (r : Result (Dict Value))
        → render_params s.resolve (add_scope scope all_state) task.params [] ≡ r
        → Claim (run_rendered s task node run r aggregated)
    by_params (err e) same h = cc
    by_params (ok rendered) same h = (
      rendered,
      same,
      run_module-FromAttempt s task run (add_producers s.name_of task node rendered) aggregated h,
    )

    by_registry :
        (o : Option Error) → Claim (run_registered s task node scope all_state run o aggregated)
    by_registry (some e) h = cc
    by_registry none h =
        by_params (render_params s.resolve (add_scope scope all_state) task.params []) refl h

    by_hooks :
        (o : Option Error)
        → Claim (elim o as (λ x. InstanceResult) [
          | some e ↦ record {
            summary = null;
            error = some e;
            aggregated = aggregated;
            waiting = false;
          }
          | none ↦ run_registered s task node scope all_state run run.registered aggregated
        ])
    by_hooks (some e) h = cc
    by_hooks none h = by_registry run.registered h
