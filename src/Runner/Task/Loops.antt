-- ===== src/Runner/Task/Loops.antt =====
-- The result of a loop, whose iterations end in any order.
use gxo.Prelude.{
  Bool, true, false, List, [], ◌∷◌, ◌++◌, Option, none, some, ◌≡◌, refl, ap, ◌∙◌, subst,
  if◌then◌else◌, if_both, Bool-cases, inl, inr,
}
use gxo.Value.{Value, null}
use gxo.Errors.{Error, is_skipped}
use gxo.Config.{Task}
use gxo.Dag.Defs.{Node}
use gxo.Runner.Instance.{ModuleRun, InstanceResult, RunnerSetting, execute_single_task_instance}
use gxo.Runner.Task.{
  LoopEvent, ran, left, ended, Runs, first_error, last_summary, record_iteration, end_iteration,
  get_loop_var, no_runs, TaskWorld, run_loop,
}

-- What an event of a loop means for its result.
pub data Outcome : Type 0 where
  failed : Error → Outcome
  succeeded : Value → Outcome

-- The result is that of the first failure, and the value that of the last success before it.
abbrev pub first_failure : List Outcome → Option Error
first_failure [] = none
first_failure (failed e ∷ os) = some e
first_failure (succeeded v ∷ os) = first_failure os

abbrev pub last_success : Value → List Outcome → Value
last_success v [] = v
last_success v (failed e ∷ os) = v
last_success v (succeeded v' ∷ os) = last_success v' os

-- An iteration that was skipped means nothing.
abbrev pub outcome_of : Option Error → Value → List Outcome
outcome_of none v = succeeded v ∷ []
outcome_of (some e) v = if is_skipped e then [] else failed e ∷ []

abbrev outcome_of_run : InstanceResult → List Outcome
outcome_of_run i = if i.waiting then [] else outcome_of i.error i.summary

abbrev or_else : Option Error → Option Error → Option Error
or_else none o = o
or_else (some e) o = some e

-- From one state to another, by what has happened between.
record Follows (os : List Outcome) (r r' : Runs) : Type 0 where
  error : r'.error ≡ or_else r.error (first_failure os)
  summary : r'.summary ≡ last_summary r.error r.summary (last_success r.summary os)

or_else-none : (o : Option Error) → o ≡ or_else o none
or_else-none none = refl
or_else-none (some e) = refl

last_same : (o : Option Error) (v : Value) → v ≡ last_summary o v v
last_same none v = refl
last_same (some e) v = refl

Follows-append :
    (os os' : List Outcome) (r r' r'' : Runs)
    → Follows os r r'
    → Follows os' r' r''
    → Follows (os ++ os') r r''
Follows-append os os' r r' r'' f g = record {
  error = g.error ∙ ap (λ o. or_else o (first_failure os')) f.error ∙ errors r.error os;
  summary =
      g.summary
      ∙ ap (λ o. last_summary o r'.summary (last_success r'.summary os')) f.error
      ∙ ap (λ v. last_summary (or_else r.error (first_failure os)) v (last_success v os')) f.summary
      ∙ summaries r.error r.summary os;
}
  where
    errors :
        (o : Option Error) (os : List Outcome)
        → or_else (or_else o (first_failure os)) (first_failure os')
          ≡ or_else o (first_failure (os ++ os'))
    errors (some e) os = refl
    errors none [] = refl
    errors none (failed e ∷ os) = refl
    errors none (succeeded v ∷ os) = errors none os

    summaries :
        (o : Option Error) (v : Value) (os : List Outcome)
        → last_summary
            (or_else o (first_failure os))
            (last_summary o v (last_success v os))
            (last_success (last_summary o v (last_success v os)) os')
          ≡ last_summary o v (last_success v (os ++ os'))
    summaries (some e) v os = refl
    summaries none v [] = refl
    summaries none v (failed e ∷ os) = refl
    summaries none v (succeeded v' ∷ os) = summaries none v' os

Follows-nothing : (r r' : Runs) → r'.error ≡ r.error → r'.summary ≡ r.summary → Follows [] r r'
Follows-nothing r r' same same' = record {
  error = same ∙ or_else-none r.error;
  summary = same' ∙ last_same r.error r.summary;
}

record_iteration-Follows :
    (i : InstanceResult) (o : Option Error) (r : Runs)
    → Follows (outcome_of o i.summary) r (record_iteration i o r)
unfolding record_iteration
record_iteration-Follows i none r = record { error = or_else-none r.error; summary = refl }
record_iteration-Follows i (some e) r = elim (Bool-cases (is_skipped e)) [
  | inl skip ↦ rw skip (Follows-nothing r _ refl refl)
  | inr real ↦ rw real (record { error = firsts r.error; summary = last_same r.error r.summary })
]
  where
    firsts : (o : Option Error) → first_error o e ≡ or_else o (some e)
    firsts none = refl
    firsts (some x) = refl

end_iteration-Follows :
    (i : InstanceResult) (r : Runs) → Follows (outcome_of_run i) r (end_iteration i r)
unfolding end_iteration
end_iteration-Follows i r = by_wait i.waiting
  where
    by_wait :
        (b : Bool)
        → Follows (if b then [] else outcome_of i.error i.summary) r (
            if b
            then record r { aggregated = i.aggregated; waiting = true }
            else record_iteration i i.error r)
    by_wait true = Follows-nothing r _ refl refl
    by_wait false = record_iteration-Follows i i.error r

passed_by :
    (i : InstanceResult) (o : Option Error) (r : Runs)
    → (record_iteration i o r).aggregated ≡ i.aggregated
unfolding record_iteration
passed_by i none r = refl
passed_by i (some e) r =
    if_both (λ (x : Runs). x.aggregated ≡ i.aggregated) (is_skipped e) _ _ refl refl

passed_on : (i : InstanceResult) (r : Runs) → (end_iteration i r).aggregated ≡ i.aggregated
unfolding end_iteration
passed_on i r =
    if_both (λ (x : Runs). x.aggregated ≡ i.aggregated) i.waiting
      (record r { aggregated = i.aggregated; waiting = true }) _ refl (passed_by i i.error r)

module _ (s : RunnerSetting) (w : TaskWorld) (task : Task) (node : Node) where
  abbrev run_of : Value → ModuleRun → List Error → InstanceResult
  run_of item run aggregated =
      execute_single_task_instance s task node (some (get_loop_var task, item)) w.all_state run
        aggregated

  -- What the events mean, in their order.
  abbrev pub outcomes : List LoopEvent → List Error → List Outcome
  outcomes [] aggregated = []
  outcomes (left ∷ events) aggregated = outcomes events aggregated
  outcomes (ended e ∷ events) aggregated = failed e ∷ outcomes events aggregated
  outcomes (ran item run ∷ events) aggregated =
      let i =
        execute_single_task_instance s task node (some (get_loop_var task, item)) w.all_state run
          aggregated in
      (if i.waiting then [] else outcome_of i.error i.summary) ++ outcomes events i.aggregated

  run_loop-Follows :
      (events : List LoopEvent) (r : Runs)
      → Follows (outcomes events r.aggregated) r (run_loop s w task node events r)
  unfolding run_loop
  run_loop-Follows [] r = Follows-nothing r r refl refl
  run_loop-Follows (left ∷ events) r = run_loop-Follows events r
  run_loop-Follows (ended e ∷ events) r =
      Follows-append (failed e ∷ []) (outcomes events r.aggregated) r
        (record r { error = first_error r.error e }) _
        (record { error = firsts r.error; summary = last_same r.error r.summary })
        (run_loop-Follows events (record r { error = first_error r.error e }))
    where
      firsts : (o : Option Error) → first_error o e ≡ or_else o (some e)
      firsts none = refl
      firsts (some x) = refl
  run_loop-Follows (ran item run ∷ events) r =
      let i = run_of item run r.aggregated in
      Follows-append (outcome_of_run i) (outcomes events i.aggregated) r (end_iteration i r) _
        (end_iteration-Follows i r)
        (subst
          (λ a.
            Follows (outcomes events a) (end_iteration i r)
              (run_loop s w task node events (end_iteration i r)))
          (passed_on i r) (run_loop-Follows events (end_iteration i r)))

-- A loop ends with the error of the first iteration that failed or of the context, by the order in which
-- the iterations end, and with none if none did; the summary is that of the last iteration that succeeded
-- before. An iteration that was skipped counts for neither.
pub run_loop_result :
    (s : RunnerSetting) (w : TaskWorld) (task : Task) (node : Node) (events : List LoopEvent)
    → let r = run_loop s w task node events no_runs in
      (r.error ≡ first_failure (outcomes s w task node events []))
      × (r.summary ≡ last_success null (outcomes s w task node events []))
run_loop_result s w task node events =
    let f = run_loop-Follows s w task node events no_runs in (f.error, f.summary)
