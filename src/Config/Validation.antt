-- ===== src/Config/Validation.antt =====
-- `ValidatePlaybookStructure` of internal/config/validation.go. `extract` stands for the parser of
-- templates and `parse` for `time.ParseDuration`, in nanoseconds; what `%s` and `%v` print is left out.
pub mod Kept
pub mod Names
use Prim.Native.Char.{Char, code}
use text.Mathlib.Text.{starts_with}
use gxo.Prelude.{
  ℕ, String, Bool, true, false, not, List, [], ◌∷◌, ◌++◌, ◌&&◌, ◌||◌, Option, none, some,
  if◌then◌else◌, leb, eqb, ◌==◌, contains, is_some,
}
use gxo.Prelude.Dict.{Dict, get, put}
use gxo.Prelude.Int.{ℤ, pos, is_negative, ltb_int, is_positive}
use gxo.Prelude.Text.{split_dots, ends_with}
use gxo.Errors.{Error, validation_error}
use gxo.Config.{
  Task, Playbook, StatePolicy, ChannelPolicy, LoopControlConfig, RetryConfig,
  state_access_deep_copy, state_access_unsafe_direct_reference,
}
use gxo.Config.Templates.{collect_templates_to_scan}

abbrev pub between : ℕ → ℕ → ℕ → Bool
between a n b = leb a n && leb n b

-- [a-zA-Z], [0-9] and [_]
abbrev pub is_letter : Char → Bool
is_letter c = between b'a' (code c) b'z' || between b'A' (code c) b'Z'

abbrev pub is_digit : Char → Bool
is_digit c = between b'0' (code c) b'9'

abbrev pub is_underscore : Char → Bool
is_underscore c = eqb (code c) b'_'

unfoldable pub all_chars : (Char → Bool) → String → Bool
all_chars p String.[] = true
all_chars p (String.◌∷◌ c s) = p c && all_chars p s

-- identifierRegex
unfoldable pub is_identifier : String → Bool
unfolding all_chars
is_identifier String.[] = false
is_identifier (String.◌∷◌ c s) =
    (is_letter c || is_underscore c)
    && all_chars (λ d. is_letter d || (is_digit d || is_underscore d)) s

-- taskNameRegex
unfoldable pub is_task_name : String → Bool
unfolding all_chars
is_task_name String.[] = false
is_task_name (String.◌∷◌ c s) =
    all_chars (λ d. is_letter d || (is_digit d || (is_underscore d || eqb (code d) b'-')))
      (String.◌∷◌ c s)

-- The errors found so far, and the three maps; the keys of a set are a list.
pub record Findings : Type 0 where
  pub errs : List Error
  pub task_names : List String
  pub registered_vars : Dict String
  pub required_task_names : List String

-- if bad { errs = append(errs, …) }
unfoldable pub report_if : Bool → String → Findings → Findings
report_if bad message s =
    if bad then record s { errs = s.errs ++ validation_error message ∷ [] } else s

unfoldable pub is_bad_access_mode : String → Bool
is_bad_access_mode mode =
    not (mode == "")
    && (not (mode == state_access_deep_copy) && not (mode == state_access_unsafe_direct_reference))

abbrev pub negative_size : Option ℤ → Bool
negative_size none = false
negative_size (some n) = is_negative n

unfoldable pub check_channel_policy : Option ChannelPolicy → Findings → Findings
unfolding report_if
check_channel_policy none s = s
check_channel_policy (some p) s =
    report_if (negative_size p.buffer_size) "global channel_policy buffer_size cannot be negative" s

unfoldable pub check_state_policy : String → Option StatePolicy → Findings → Findings
unfolding report_if is_bad_access_mode
check_state_policy message none s = s
check_state_policy message (some p) s = report_if (is_bad_access_mode p.access_mode) message s

-- if task.Name != "" { … }
unfoldable pub check_name : Task → Findings → Findings
unfolding report_if is_task_name
check_name task s =
    if task.name == ""
    then s
    else (let s1 = report_if (not (is_task_name task.name)) "name contains invalid characters" s in
        let s2 = report_if (contains task.name s.task_names) "duplicate task name found" s1 in
        record s2 { task_names = task.name ∷ s2.task_names })

unfoldable pub check_type : Task → Findings → Findings
unfolding report_if
check_type task s = report_if (task.type == "") "'type' is required" s

-- if regTaskName, exists := registeredVars[task.Register]; exists { … } else { … }
unfoldable pub note_register : Task → Findings → Findings
unfolding report_if
note_register task s =
    if is_some (get task.register s.registered_vars)
    then report_if true "'register' key is already used by another task" s
    else record s { registered_vars = put task.register task.name s.registered_vars }

-- if task.Register != "" { … }
unfoldable pub check_register : Task → Findings → Findings
unfolding report_if is_identifier note_register
check_register task s =
    if task.register == ""
    then s
    else report_if (task.name == "") "'name' is required when 'register' is used" (
        note_register task (
          report_if (not (is_identifier task.register)) "'register' key is not a valid identifier"
            s))

-- requiredTaskNames[name] = struct{}{}
unfoldable pub require_name : String → Findings → Findings
require_name name s = record s {
  required_task_names =
      if contains name s.required_task_names
      then s.required_task_names
      else name ∷ s.required_task_names;
}

-- for _, streamInputTarget := range task.StreamInputs
unfoldable pub check_stream_inputs : Task → List String → Findings → Findings
unfolding report_if is_task_name require_name
check_stream_inputs task [] s = s
check_stream_inputs task (target ∷ targets) s =
    let s1 =
      report_if (not (is_task_name target)) "'stream_inputs' target contains invalid characters"
        s in
    let s2 =
      report_if (not (task.name == "") && target == task.name)
        "'stream_inputs' cannot target itself" s1 in
    check_stream_inputs task targets (require_name target s2)

unfoldable pub check_loop_control : Option LoopControlConfig → Findings → Findings
unfolding report_if is_identifier
check_loop_control none s = s
check_loop_control (some loop) s =
    report_if (is_negative loop.parallel) "'loop_control.parallel' cannot be negative" (
      report_if (not (loop.loop_var == "") && not (is_identifier loop.loop_var))
        "'loop_control.loop_var' is not a valid identifier" s)

module _ (parse : String → Option ℤ) where
  abbrev pub bad_duration : Option ℤ → Bool
  bad_duration none = true
  bad_duration (some d) = false

  -- The base delay, 0 where there is none; `none` where it does not parse.
  unfoldable pub base_delay : String → Option ℤ
  base_delay delay = if delay == "" then some (pos 0) else parse delay

  abbrev pub negative_delay : Option ℤ → Bool
  negative_delay none = false
  negative_delay (some d) = is_negative d

  -- maxDelay > 0 && delayErr == nil && maxDelay < baseDelay
  abbrev pub below_base : Option ℤ → Option ℤ → Bool
  below_base none base = false
  below_base (some m) none = false
  below_base (some m) (some b) = is_positive m && ltb_int m b

  -- task.Retry.Attempts and task.Retry.Delay, whose value is `base`
  unfoldable pub check_delay : RetryConfig → Option ℤ → Findings → Findings
  unfolding report_if
  check_delay r base s = report_if (negative_delay base) "'retry.delay' cannot be negative" (
      report_if (bad_duration base) "invalid format for 'retry.delay'"
        (report_if (ltb_int r.attempts (pos 1)) "'retry.attempts' must be at least 1" s))

  -- task.Retry.MaxDelay, whose value is `longest`
  unfoldable pub check_max_delay : Option ℤ → Option ℤ → Findings → Findings
  unfolding report_if
  check_max_delay longest base s =
      report_if (below_base longest base) "'retry.max_delay' cannot be less than 'retry.delay'"
        (report_if (bad_duration longest) "invalid format for 'retry.max_delay'" s)

  unfoldable pub check_retry : Option RetryConfig → Findings → Findings
  unfolding check_delay check_max_delay base_delay
  check_retry none s = s
  check_retry (some r) s =
      let s' = check_delay r (base_delay r.delay) s in
      if r.max_delay == "" then s' else check_max_delay (parse r.max_delay) (base_delay r.delay) s'

  unfoldable pub check_timeout : Task → Findings → Findings
  unfolding report_if
  check_timeout task s =
      report_if (not (task.timeout == "") && bad_duration (parse task.timeout))
        "invalid format for 'timeout'" s

-- parts := strings.Split(fullVarPath, "."); if len(parts) == 4 { … }
unfoldable pub check_status_path : Task → List String → Findings → Findings
unfolding report_if require_name
check_status_path task (a ∷ b ∷ name ∷ d ∷ []) s =
    report_if (not (task.name == "") && name == task.name)
      "task cannot depend on its own status via template" (require_name name s)
check_status_path task parts s = s

unfoldable pub check_variable : Task → String → Findings → Findings
unfolding report_if check_status_path
check_variable task path s =
    if starts_with path "_gxo.tasks." && ends_with path ".status"
    then check_status_path task (split_dots path) s
    else elim (get path s.registered_vars) [
      | none ↦ s
      | some owner ↦
          report_if (not (task.name == "") && owner == task.name)
            "task cannot depend on its own registered variable via template" s
    ]

unfoldable pub check_variables : Task → List String → Findings → Findings
unfolding check_variable
check_variables task [] s = s
check_variables task (path ∷ paths) s = check_variables task paths (check_variable task path s)

module _ (extract : String → Option (List String)) (parse : String → Option ℤ) where
  unfoldable pub check_templates : Task → List String → Findings → Findings
  unfolding report_if check_variables
  check_templates task [] s = s
  check_templates task (template ∷ templates) s =
      check_templates task templates (elim (extract template) [
        | none ↦ report_if true "error parsing template" s
        | some vars ↦ check_variables task vars s
      ])

  -- the body of the loop over the tasks
  unfoldable pub check_task : Task → Findings → Findings
  unfolding check_name check_type check_state_policy check_register check_stream_inputs
      check_loop_control check_retry check_timeout check_templates
  check_task task s = check_templates task (collect_templates_to_scan task) (
      check_timeout parse task (
        check_retry parse task.retry (
          check_loop_control task.loop_control (
            check_stream_inputs task task.stream_inputs (
              check_register task (
                check_state_policy "state_policy has invalid access_mode" task.state_policy
                  (check_type task (check_name task s))))))))

  unfoldable pub check_tasks : List Task → Findings → Findings
  unfolding check_task
  check_tasks [] s = s
  check_tasks (task ∷ tasks) s = check_tasks tasks (check_task task s)

  -- for reqName := range requiredTaskNames
  unfoldable pub check_required_names : List String → Findings → Findings
  unfolding report_if
  check_required_names [] s = s
  check_required_names (name ∷ names) s = check_required_names names (
      report_if (not (contains name s.task_names))
        "task name is referenced by another task but is not defined" s)

  abbrev pub no_findings : Findings
  no_findings = record {
    errs = [];
    task_names = [];
    registered_vars = [];
    required_task_names = [];
  }

  abbrev pub no_tasks : List Task → Bool
  no_tasks [] = true
  no_tasks (task ∷ tasks) = false

  -- ValidatePlaybookStructure
  unfoldable pub validate_playbook_structure : Playbook → List Error
  unfolding report_if check_channel_policy check_state_policy check_tasks check_required_names
  validate_playbook_structure p =
      let s = check_tasks p.tasks (
        check_state_policy "global state_policy has invalid access_mode" p.state_policy (
          check_channel_policy p.channel_policy (
            report_if (no_tasks p.tasks) "playbook must contain at least one task" no_findings))) in
      (check_required_names s.required_task_names s).errs
