-- ===== src/Tests/Reports.antt =====
-- The report and the outcome of the sample run.
use gxo.Prelude.{◌+◌, String, ◌≡◌, ◌↔◌, refl, [], ◌∷◌, Option, none, length}
use gxo.Prelude.Dict.{Dict, put}
use gxo.Errors.{Error}
use gxo.Dag.Defs.{TaskStatus, completed, failed, pending}
use gxo.Engine.Defs.{Engine}
use gxo.Engine.Outcome.{determine_final_outcome, generate_report}
use gxo.Engine.Outcome.Verdict.{IsSettled, final_outcome_iff}
use gxo.Engine.Outcome.Report.{generate_report_totals}
use gxo.Tests.Samples.{sample_dag, blank, mentions}

-- stands for the method `Error`
abbrev text : Error → String
text e = "failed"

abbrev no_error : Option Error
no_error = none

abbrev statuses : Dict TaskStatus
statuses = ("t0", completed) ∷ ("t1", failed) ∷ ("t2", pending) ∷ []

abbrev ended : Engine
ended = record blank { task_statuses = statuses }

final_outcome_iff_example :
    (determine_final_outcome mentions text sample_dag statuses no_error ≡ none)
    ↔ ((no_error ≡ none) × IsSettled sample_dag statuses)
final_outcome_iff_example = final_outcome_iff mentions text sample_dag statuses none

generate_report_totals_example :
    let r = generate_report mentions text ended none in
    (r.completed_tasks + (r.failed_tasks + r.skipped_tasks) ≡ r.total_tasks)
    × (r.total_tasks ≡ length statuses)
    × ((r.overall_status ≡ "Completed") ↔ ((no_error ≡ none) × (r.failed_tasks ≡ 0)))
generate_report_totals_example =
    generate_report_totals mentions text ended none (λ q. cc, (λ q. cc, (λ q. cc, tt)))

pending_fails : (generate_report mentions text ended none).failed_tasks ≡ 2
unfolding generate_report put
pending_fails = refl
