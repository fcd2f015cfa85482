-- ===== src/Runner/Task/Registers.antt =====
-- What a task puts into the state store.
use gxo.Prelude.{
  false, List, [], ◌∷◌, Option, none, some, ◌≡◌, ◌↔◌, true, ◌⊎◌, inl, inr, refl, ap, if_cases, ◌==◌,
  Option-cases,
}
use gxo.Prelude.Dict.{Dict, put}
use gxo.Value.{Value}
use gxo.Errors.{Error, Result, ok, err}
use gxo.Config.{Task}
use gxo.Dag.Defs.{Node}
use gxo.Secrets.{
  SecretTracker, contains_tracked_secret, redacted_secret_value, redact_tracked_secrets,
}
use gxo.Secrets.Clean.{IsClean, IsHiddenClean, redact_tracked_secrets-IsClean}
use gxo.Runner.Instance.{RunnerSetting}
use gxo.Runner.Task.{
  Runs, TaskResult, TaskWorld, set_registered, register_result, run_instances, finish_task,
  run_items, when_error, has_loop, execute_task,
}
use gxo.Runner.Items.{resolve_loop_items}

-- Why a task without a name to register, an unfinished one or a failed one leaves the store alone.
abbrev pub IsOmitted : Task → TaskResult → Type 0
IsOmitted task t =
    ((task.register == "") ≡ true)
    ⊎ ((t.runs.waiting ≡ true) ⊎ ((e : Error) × (t.runs.error ≡ some e)))

-- The task has put into the store, under its name, the summary `v` of its runs in redacted form.
abbrev pub IsRegistered : Task → SecretTracker → Dict Value → Value → TaskResult → Type 0
IsRegistered task tracker store v t =
    ((task.register == "") ≡ false)
    × (t.runs.error ≡ none)
    × (t.runs.summary ≡ (redact_tracked_secrets v (some tracker)).0)
    × (t.store ≡ put task.register t.runs.summary store)
    × (IsClean tracker t.runs.summary ↔ IsHiddenClean tracker v)

abbrev Registers : Task → SecretTracker → Dict Value → Value → TaskResult → Type 0
Registers task tracker store v t =
    ((t.store ≡ store) × IsOmitted task t) ⊎ IsRegistered task tracker store v t

-- What the items of the loop lead to: no run where there are none, and else what is registered.
abbrev pub RegistersRuns :
    RunnerSetting
    → TaskWorld
    → Node
    → Task
    → SecretTracker
    → Dict Value
    → Result (List Value)
    → TaskResult
    → Type 0
RegistersRuns s w node task tracker store items t =
    (((t.store ≡ store) × IsOmitted task t)
      ⊎ ((t.store ≡ store) × (items ≡ ok []) × (has_loop task.loop ≡ true)))
    ⊎ ((given : List Value) × (items ≡ ok given)
        × IsRegistered task tracker store (run_instances s w task node given).summary t)

module _ (task : Task) (tracker : SecretTracker) (store : Dict Value)
    (harmless : contains_tracked_secret tracker redacted_secret_value ≡ false) where
  set_registered-Registers :
      (v : Value) (set_error : Option Error) (t : TaskResult)
      → (task.register == "") ≡ false
      → t.store ≡ store
      → t.runs.error ≡ none
      → Registers task tracker store v
          (set_registered task.register (redact_tracked_secrets v (some tracker)).0 set_error t)
  unfolding set_registered
  set_registered-Registers v none t named same no_error = inr (
    named,
    no_error,
    refl,
    ap (put task.register (redact_tracked_secrets v (some tracker)).0) same,
    redact_tracked_secrets-IsClean tracker v harmless,
  )
  set_registered-Registers v (some e) t named same no_error = inl (same, inr (inr (_, refl)))

  register_result-Registers :
      (set_error : Option Error) (o : Option Error) (t : TaskResult)
      → t.runs.error ≡ o
      → t.store ≡ store
      → Registers task tracker store t.runs.summary
          (register_result task (some tracker) set_error o t)
  unfolding register_result
  register_result-Registers set_error (some e) t h same = inl (same, inr (inr (e, h)))
  register_result-Registers set_error none t h same =
      if_cases (Registers task tracker store t.runs.summary) (task.register == "") t _
        (λ blank. inl (same, inl blank))
        (λ named. set_registered-Registers t.runs.summary set_error t named same h)

  module _ (s : RunnerSetting) (w : TaskWorld) (node : Node) where
    finish_task-Registers :
        (r : Runs)
        → Registers task tracker store r.summary (finish_task s w task node (some tracker) r store)
    unfolding finish_task
    finish_task-Registers r =
        if_cases (Registers task tracker store r.summary) r.waiting
          (record { runs = r; store = store }) _ (λ waits. inl (refl, inr (inl waits)))
          (λ on.
            register_result-Registers w.set_error r.error (record { runs = r; store = store }) refl
              refl)

    as_runs :
        (given : List Value) (t : TaskResult)
        → Registers task tracker store (run_instances s w task node given).summary t
        → RegistersRuns s w node task tracker store (ok given) t
    as_runs given t (inl omitted) = inl (inl omitted)
    as_runs given t (inr registered) = inr (given, refl, registered)

    run_items-Registers :
        (items : Result (List Value))
        → RegistersRuns s w node task tracker store items
            (run_items s w task node (some tracker) items store)
    unfolding run_items
    run_items-Registers (err e) = inl (inl (refl, inr (inr (_, refl))))
    run_items-Registers (ok []) =
        if_cases (RegistersRuns s w node task tracker store (ok [])) (has_loop task.loop) _ _
          (λ loops. inl (inr (refl, refl, loops)))
          (λ once.
            as_runs []
              (finish_task s w task node (some tracker) (run_instances s w task node []) store)
              (finish_task-Registers (run_instances s w task node [])))
    run_items-Registers (ok (item ∷ items)) =
        as_runs (item ∷ items)
          (finish_task s w task node (some tracker) (run_instances s w task node (item ∷ items))
            store)
          (finish_task-Registers (run_instances s w task node (item ∷ items)))

-- With a tracker whose secrets the placeholder does not hold, a task leaves the state store as it was,
-- and then it has no name to register, waits for room, has an error, or has a loop over no items; or it
-- has a name, has ended without an error, and has put under its name the summary of its runs as
-- `RedactTrackedSecrets` returns it. No text of that, at any depth, holds a tracked secret exactly when
-- none did in a `[]string` or a `map[interface{}]interface{}` of the summary; keys of maps with text keys
-- do not count, nor do texts inside values of types that `Value` knows by a number only.
pub execute_task_registers :
    (s : RunnerSetting)
    → (w : TaskWorld) → (task : Task) → (node : Node) → (tracker : SecretTracker)
    → (store : Dict Value) → contains_tracked_secret tracker redacted_secret_value ≡ false
    → RegistersRuns s w node task tracker store
        (resolve_loop_items w.reflect_items s.resolve w.all_state task.loop)
        (execute_task s w task node (some tracker) store)
unfolding execute_task
execute_task_registers s w task node tracker store harmless =
    elim (Option-cases (when_error s w task node)) [
      | inr (e, skips) ↦ rw (skips, execute_task) (inl (inl (refl, inr (inr (_, refl)))))
      | inl goes ↦
          rw (goes, execute_task)
            (run_items-Registers task tracker store harmless s w node
              (resolve_loop_items w.reflect_items s.resolve w.all_state task.loop))
    ]
