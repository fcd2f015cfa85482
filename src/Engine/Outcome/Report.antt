-- ===== src/Engine/Outcome/Report.antt =====
-- The counts and the overall status of a report.
use gxo.Prelude.{
  ℕ, ◌+◌, String, Bool, true, false, ◌≡◌, ◌≢◌, ◌↔◌, ◌⊎◌, ◌<◌, refl, sym, ap, ◌∙◌, [], ◌∷◌, ◌&&◌,
  Option, none, some, arith, if◌then◌else◌, inl, inr, Bool-cases, ltb, ◌==◌, eq_iff, length,
  is_some,
}
use gxo.Prelude.Dict.{Dict}
use gxo.Errors.{Error}
use gxo.Dag.Defs.{TaskStatus, ready}
use gxo.Engine.Defs.{Engine}
use gxo.Engine.Outcome.{
  ExecutionReport, fail_report, count_status, report_task, report_tasks, empty_report,
  generate_report,
}

-- No task of the list has the internal status.
abbrev pub NeverReady : Dict TaskStatus → Type 0
NeverReady [] = Unit
NeverReady ((id, status) ∷ statuses) = (status ≢ ready) × NeverReady statuses

module _ (mentions : Error → Bool) (text : Error → String) (e : Engine) where
  abbrev counted : ExecutionReport → ℕ
  counted r = r.completed_tasks + (r.failed_tasks + r.skipped_tasks)

  report_tasks_count :
      (statuses : Dict TaskStatus) (r : ExecutionReport)
      → NeverReady statuses
      → counted (report_tasks mentions text e statuses r) ≡ counted r + length statuses
  unfolding report_tasks report_task count_status fail_report
  report_tasks_count [] r h = omega arith
  report_tasks_count ((id, status) ∷ statuses) r h =
      ground (arith, report_tasks_count statuses (report_task mentions text e id status r) h.1)

  -- The overall status follows from the final error, which is `given` or not, and the count.
  abbrev IsAgreed : Bool → ExecutionReport → Type 0
  IsAgreed given r =
      ((r.overall_status ≡ "Completed") × (given ≡ false))
      ⊎ ((r.overall_status ≡ "Failed") × ((given ≡ true) ⊎ (0 < r.failed_tasks)))

  report_task-IsAgreed :
      (given : Bool) (id : String) (status : TaskStatus) (r : ExecutionReport)
      → IsAgreed given r
      → IsAgreed given (report_task mentions text e id status r)
  unfolding report_task count_status fail_report
  report_task-IsAgreed given id status r h = ground arith

  report_tasks-IsAgreed :
      (given : Bool) (statuses : Dict TaskStatus) (r : ExecutionReport)
      → IsAgreed given r
      → IsAgreed given (report_tasks mentions text e statuses r)
  unfolding report_tasks
  report_tasks-IsAgreed given [] r h = h
  report_tasks-IsAgreed given ((id, status) ∷ statuses) r h =
      report_tasks-IsAgreed given statuses (report_task mentions text e id status r)
        (report_task-IsAgreed given id status r h)

  abbrev message : String
  message = "Playbook finished with one or more failed tasks"

  -- the last test of `generateReport`
  abbrev closed : ExecutionReport → ExecutionReport
  closed r = if ltb 0 r.failed_tasks then fail_report message r else r

  closed_fields :
      (r : ExecutionReport)
      → ((closed r).total_tasks ≡ r.total_tasks)
        × (counted (closed r) ≡ counted r)
        × ((closed r).failed_tasks ≡ r.failed_tasks)
        × ((closed r).overall_status ≡ (
            if ltb 0 r.failed_tasks && r.overall_status == "Completed"
            then "Failed"
            else r.overall_status))
  unfolding fail_report
  closed_fields r = elim (Bool-cases (ltb 0 r.failed_tasks)) [
    | inl some_failed ↦ elim (Bool-cases (r.overall_status == "Completed")) [
      | inl c ↦ rw some_failed (rw c (refl, refl, refl, refl))
      | inr c ↦ rw some_failed (rw c (refl, refl, refl, refl))
    ]
    | inr no_failed ↦ rw no_failed (refl, refl, refl, refl)
  ]

  distinct : ◌≡◌ {A = String} "Failed" "Completed" → ⊥
  distinct q = cc ((eq_iff "Failed" "Completed").1 q)

  status_after :
      (given : Bool) (n n' : ℕ) (o o' : String)
      → ((o ≡ "Completed") × (given ≡ false)) ⊎ ((o ≡ "Failed") × ((given ≡ true) ⊎ (0 < n)))
      → n' ≡ n
      → o' ≡ (if ltb 0 n && o == "Completed" then "Failed" else o)
      → (o' ≡ "Completed") ↔ ((given ≡ false) × (n' ≡ 0))
  status_after given n n' o o' (inl (c, g)) f e = elim (Bool-cases (ltb 0 n)) [
    | inl some_failed ↦ (
      λ q. absurd (distinct (sym (e ∙ fails some_failed) ∙ q)),
      λ (g', z). absurd (ground (arith, f, z, some_failed)),
    )
    | inr no_failed ↦ (λ q. (g, ground arith), λ z. e ∙ keeps no_failed ∙ c)
  ]
    where
      fails : ltb 0 n ≡ true → (if ltb 0 n && o == "Completed" then "Failed" else o) ≡ "Failed"
      fails q = rw q (rw ((eq_iff o "Completed").1 c) refl)

      keeps : ltb 0 n ≡ false → (if ltb 0 n && o == "Completed" then "Failed" else o) ≡ o
      keeps q = rw q refl
  status_after given n n' o o' (inr (c, why)) f e =
      (λ q. absurd (distinct (sym (e ∙ still) ∙ q)), λ (g, z). absurd (ground arith))
    where
      still : (if ltb 0 n && o == "Completed" then "Failed" else o) ≡ "Failed"
      still = elim (Bool-cases (ltb 0 n && o == "Completed")) [ inl q ↦ rw q refl | inr q ↦ rw q c ]

  closed_status :
      (given : Bool) (r : ExecutionReport)
      → IsAgreed given r
      → ((closed r).overall_status ≡ "Completed")
        ↔ ((given ≡ false) × ((closed r).failed_tasks ≡ 0))
  closed_status given r h =
      let (t, c, f, o) = closed_fields r in
      status_after given r.failed_tasks (closed r).failed_tasks r.overall_status
        (closed r).overall_status h f o

  no_error : (err : Option Error) → is_some err ≡ false → err ≡ none
  no_error none q = refl
  no_error (some x) q = cc

  -- Where no task has the internal status Ready, the completed, failed and skipped tasks of a report
  -- are as many as its tasks, which are the tasks with a status; and the overall status is
  -- "Completed" exactly when there is no final error and no task counts as failed.
  pub generate_report_totals :
      (err : Option Error)
      → NeverReady e.task_statuses
      → let r = generate_report mentions text e err in
        (r.completed_tasks + (r.failed_tasks + r.skipped_tasks) ≡ r.total_tasks)
        × (r.total_tasks ≡ length e.task_statuses)
        × ((r.overall_status ≡ "Completed") ↔ ((err ≡ none) × (r.failed_tasks ≡ 0)))
  unfolding generate_report empty_report
  generate_report_totals err h = (
    (closed_fields filled).1 ∙ counts ∙ sym (closed_fields filled).0,
    (closed_fields filled).0,
    (
      λ q. let (g, z) = (closed_status (is_some err) filled agreed).0 q in (no_error err g, z),
      λ (none_given, z). (closed_status (is_some err) filled agreed).1 (ap is_some none_given, z),
    ),
  )
    where
      filled : ExecutionReport
      filled =
          record (report_tasks mentions text e e.task_statuses (empty_report mentions text err)) {
            total_tasks = length e.task_statuses;
          }

      counts :
          counted (report_tasks mentions text e e.task_statuses (empty_report mentions text err))
          ≡ length e.task_statuses
      counts = omega (arith, report_tasks_count e.task_statuses (empty_report mentions text err) h)

      agreed :
          IsAgreed
            (is_some err)
            (report_tasks mentions text e e.task_statuses (empty_report mentions text err))
      agreed =
          report_tasks-IsAgreed (is_some err) e.task_statuses (empty_report mentions text err)
            (starts err)
        where
          starts : (err : Option Error) → IsAgreed (is_some err) (empty_report mentions text err)
          starts none = unfold empty_report in inl (refl, refl)
          starts (some x) = unfold empty_report in inr (refl, inl refl)
