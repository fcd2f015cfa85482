-- ===== src/Config/Validation/Names.antt =====
-- What the names of a playbook without findings are like.
use gxo.Prelude.{
  String, true, false, not, ◌≡◌, ◌≢◌, refl, sym, ap, subst, ◌∙◌, inl, inr, List, [], ◌∷◌, Option,
  arith, if◌then◌else◌, Bool-cases, ◌==◌, eq_iff, contains, IsNodup, All, All-map,
}
use gxo.Prelude.Int.{ℤ}
use gxo.Config.{Task, Playbook}
use gxo.Config.Templates.{collect_templates_to_scan}
use gxo.Config.Validation.{
  Findings, report_if, require_name, check_channel_policy, check_state_policy, check_name,
  check_type, check_register, check_stream_inputs, check_loop_control, check_retry, check_timeout,
  check_task, check_tasks, check_required_names, no_findings, no_tasks, validate_playbook_structure,
  is_task_name,
}
use gxo.Config.Validation.Kept.{
  Kept, Kept-trans, report_if_fine, report_if-Kept, check_state_policy-Kept,
  check_channel_policy-Kept, check_register-Kept, check_stream_inputs-Kept, check_loop_control-Kept,
  check_retry-Kept, check_templates-Kept,
}

module _ (extract : String → Option (List String)) (parse : String → Option ℤ) where
  -- what a task adds to the names
  abbrev name_added : Task → List String → List String
  name_added task names = if task.name == "" then names else task.name ∷ names

  -- the findings after the name is checked, and those before the stream inputs are
  record Named (task : Task) (s s' : Findings) : Type 0 where
    clean :
        s'.errs ≡ [] → (s.errs ≡ []) × (task.name ≢ "" → contains task.name s.task_names ≡ false)
    names : s'.task_names ≡ name_added task s.task_names
    more :
        (k : String)
        → contains k s.required_task_names ≡ true
        → contains k s'.required_task_names ≡ true

  check_name-Named : (task : Task) (s : Findings) → Named task s (check_name task s)
  unfolding check_name
  check_name-Named task s = elim (Bool-cases (task.name == "")) [
    | inl empty ↦ rw empty (record {
      clean = λ h. (h, λ n. absurd (n ((eq_iff task.name "").0 empty)));
      names = rw empty refl;
      more = λ k c. c;
    })
    | inr given ↦
        let first =
          report_if-Kept (not (is_task_name task.name)) "name contains invalid characters" s in
        let s1 = report_if (not (is_task_name task.name)) "name contains invalid characters" s in
        let second =
          report_if-Kept (contains task.name s.task_names) "duplicate task name found" s1 in
        rw given (record {
          clean = λ h. (
            first.clean (second.clean h),
            λ n. report_if_fine _ "duplicate task name found" s1 h,
          );
          names = rw given (ap (λ ns. task.name ∷ ns) (second.names ∙ first.names));
          more = λ k c. second.more k (first.more k c);
        })
  ]

  Named-trans : {task : Task} {a b c : Findings} → Named task a b → Kept b c → Named task a c
  Named-trans f g = record {
    clean = λ h. f.clean (g.clean h);
    names = g.names ∙ f.names;
    more = λ k c. g.more k (f.more k c);
  }

  check_stream_inputs_requires :
      (task : Task) (targets : List String) (s : Findings) (k : String)
      → contains k targets ≡ true
      → contains k (check_stream_inputs task targets s).required_task_names ≡ true
  unfolding check_stream_inputs require_name contains
  check_stream_inputs_requires task [] s k c = absurd (cc)
  check_stream_inputs_requires task (t ∷ ts) s k c = elim (Bool-cases (t == k)) [
    | inl same ↦ (check_stream_inputs-Kept task ts _).more k (ground (arith, eq_iff t k))
    | inr other ↦ check_stream_inputs_requires task ts _ k (ground arith)
  ]

  check_timeout-Kept : (task : Task) (s : Findings) → Kept s (check_timeout parse task s)
  unfolding check_timeout
  check_timeout-Kept task s = report_if-Kept _ "invalid format for 'timeout'" s

  check_type-Kept : (task : Task) (s : Findings) → Kept s (check_type task s)
  unfolding check_type
  check_type-Kept task s = report_if-Kept _ "'type' is required" s

  module _ (task : Task) (s : Findings) where
    abbrev registered : Findings
    registered = check_register task (
        check_state_policy "state_policy has invalid access_mode" task.state_policy
          (check_type task (check_name task s)))

    abbrev streamed : Findings
    streamed = check_stream_inputs task task.stream_inputs registered

    abbrev retried : Findings
    retried = check_retry parse task.retry (check_loop_control task.loop_control streamed)

    registered-Named : Named task s registered
    registered-Named = Named-trans (check_name-Named task s) (
        Kept-trans (check_type-Kept task (check_name task s)) (
          Kept-trans
            (check_state_policy-Kept "state_policy has invalid access_mode" task.state_policy
              (check_type task (check_name task s)))
            (check_register-Kept task _)))

    rest-Kept : Kept streamed (check_task extract parse task s)
    unfolding check_task
    rest-Kept = Kept-trans (check_loop_control-Kept task.loop_control streamed) (
        Kept-trans (check_retry-Kept parse task.retry _) (
          Kept-trans (check_timeout-Kept task retried) (
            check_templates-Kept extract parse task (collect_templates_to_scan task)
              (check_timeout parse task retried))))

    check_task-Named : Named task s (check_task extract parse task s)
    check_task-Named =
        Named-trans registered-Named
          (Kept-trans (check_stream_inputs-Kept task task.stream_inputs registered) rest-Kept)

    check_task_requires :
        (k : String)
        → contains k task.stream_inputs ≡ true
        → contains k (check_task extract parse task s).required_task_names ≡ true
    check_task_requires k c =
        rest-Kept.more k (check_stream_inputs_requires task task.stream_inputs registered k c)

  -- The names of the tasks, the last one first, in front of `names`.
  abbrev pub names_after : List Task → List String → List String
  names_after [] names = names
  names_after (task ∷ tasks) names = names_after tasks (name_added task names)

  name_added-IsNodup :
      (task : Task) (names : List String)
      → (task.name ≢ "" → contains task.name names ≡ false)
      → IsNodup names
      → IsNodup (name_added task names)
  name_added-IsNodup task names fresh n = elim (Bool-cases (task.name == "")) [
    | inl empty ↦ rw empty n
    | inr given ↦ rw given (fresh (λ q. ground (arith, eq_iff task.name "")), n)
  ]

  record Checked (tasks : List Task) (s s' : Findings) : Type 0 where
    clean : s.errs ≡ []
    distinct : IsNodup s.task_names → IsNodup s'.task_names
    names : s'.task_names ≡ names_after tasks s.task_names
    more :
        (k : String)
        → contains k s.required_task_names ≡ true
        → contains k s'.required_task_names ≡ true
    streams :
        All
          (λ (task : Task).
            (k : String)
            → contains k task.stream_inputs ≡ true
            → contains k s'.required_task_names ≡ true)
          tasks

  check_tasks-Checked :
      (tasks : List Task) (s : Findings)
      → (check_tasks extract parse tasks s).errs ≡ []
      → Checked tasks s (check_tasks extract parse tasks s)
  unfolding check_tasks
  check_tasks-Checked [] s h = record {
    clean = h;
    distinct = λ n. n;
    names = refl;
    more = λ k c. c;
    streams = tt;
  }
  check_tasks-Checked (task ∷ tasks) s h =
      let rest = check_tasks-Checked tasks (check_task extract parse task s) h in
      let first = check_task-Named task s in
      let (clean, fresh) = first.clean rest.clean in
      record {
        clean = clean;
        distinct = λ n.
            rest.distinct
              (subst IsNodup (sym first.names) (name_added-IsNodup task s.task_names fresh n));
        names = rest.names ∙ ap (names_after tasks) first.names;
        more = λ k c. rest.more k (first.more k c);
        streams = (λ k c. rest.more k (check_task_requires task s k c), rest.streams);
      }

  check_required_names_clean :
      (names : List String) (s : Findings)
      → (check_required_names extract parse names s).errs ≡ []
      → (s.errs ≡ []) × ((k : String) → contains k names ≡ true → contains k s.task_names ≡ true)
  unfolding check_required_names contains
  check_required_names_clean [] s h = (h, λ k c. absurd (cc))
  check_required_names_clean (name ∷ names) s h =
      let message : String = "task name is referenced by another task but is not defined" in
      let one = report_if-Kept (not (contains name s.task_names)) message s in
      let (clean, rest) =
        check_required_names_clean names (report_if (not (contains name s.task_names)) message s)
          h in
      let fine = report_if_fine (not (contains name s.task_names)) message s clean in
      (
        one.clean clean,
        λ k c. elim (Bool-cases (name == k)) [
          | inl same ↦ ground (arith, eq_iff name k)
          | inr other ↦ ap (contains k) (sym one.names) ∙ rest k (ground arith)
        ],
      )

  module _ (p : Playbook) where
    abbrev none_message : String
    none_message = "playbook must contain at least one task"

    abbrev first : Findings
    first = report_if (no_tasks extract parse p.tasks) none_message (no_findings extract parse)

    abbrev global : Findings
    global =
        check_state_policy "global state_policy has invalid access_mode" p.state_policy
          (check_channel_policy p.channel_policy first)

    abbrev last : Findings
    last = check_tasks extract parse p.tasks global

    later : Kept first global
    later =
        Kept-trans (check_channel_policy-Kept p.channel_policy first)
          (check_state_policy-Kept "global state_policy has invalid access_mode" p.state_policy _)

    global-Kept : Kept (no_findings extract parse) global
    global-Kept = Kept-trans (report_if-Kept (no_tasks extract parse p.tasks) none_message _) later

    some_task : (tasks : List Task) → no_tasks extract parse tasks ≡ false → tasks ≢ []
    some_task [] q r = cc
    some_task (t ∷ ts) q r = cc

    -- When the validation of a playbook finds no error, the playbook has a task, no two of its tasks
    -- have the same name, and each stream input of each task is the name of a task.
    pub validated_names :
        validate_playbook_structure extract parse p ≡ []
        → (p.tasks ≢ [])
          × IsNodup (names_after p.tasks [])
          × All
              (λ (task : Task).
                (k : String)
                → contains k task.stream_inputs ≡ true
                → contains k (names_after p.tasks []) ≡ true)
              p.tasks
    unfolding validate_playbook_structure
    validated_names h =
        let (clean, defined) = check_required_names_clean last.required_task_names last h in
        let checked = check_tasks-Checked p.tasks global clean in
        let unnamed = global-Kept.names in
        let names : last.task_names ≡ names_after p.tasks [] =
          checked.names ∙ ap (names_after p.tasks) unnamed in
        (
          λ q.
              some_task p.tasks
                (report_if_fine (no_tasks extract parse p.tasks) none_message
                  (no_findings extract parse) (later.clean checked.clean))
                q,
          subst IsNodup names (checked.distinct (subst IsNodup (sym unnamed) tt)),
          All-map p.tasks
              (λ task f k c. subst (λ ns. contains k ns ≡ true) names (defined k (f k c)))
              checked.streams,
        )
