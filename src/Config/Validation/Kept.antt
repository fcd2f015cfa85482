-- ===== src/Config/Validation/Kept.antt =====
-- What each check keeps of the findings before it.
use gxo.Prelude.{
  String, Bool, true, false, not, ◌≡◌, ◌≢◌, refl, ◌∙◌, ◌&&◌, List, [], ◌∷◌, ◌++◌, Option, none,
  some, arith, if◌then◌else◌, ◌==◌, contains, is_some,
}
use gxo.Prelude.Dict.{get}
use gxo.Prelude.Int.{ℤ, pos, ltb_int}
use gxo.Prelude.Text.{split_dots}
use gxo.Errors.{Error}
use gxo.Config.{Task, StatePolicy, ChannelPolicy, LoopControlConfig, RetryConfig}
use gxo.Config.Validation.{
  Findings, report_if, require_name, check_channel_policy, check_state_policy, note_register,
  check_register, check_stream_inputs, check_loop_control, base_delay, bad_duration, negative_delay,
  below_base, check_delay, check_max_delay, check_retry, check_status_path, check_variable,
  check_variables, check_templates,
}

-- `s'` has the names of `s`, and at least its errors and its references.
pub record Kept (s s' : Findings) : Type 0 where
  pub clean : s'.errs ≡ [] → s.errs ≡ []
  pub names : s'.task_names ≡ s.task_names
  pub more :
      (k : String)
      → contains k s.required_task_names ≡ true
      → contains k s'.required_task_names ≡ true

pub Kept-refl : (s : Findings) → Kept s s
Kept-refl s = record { clean = λ h. h; names = refl; more = λ k c. c }

pub Kept-trans : {a b c : Findings} → Kept a b → Kept b c → Kept a c
Kept-trans f g = record {
  clean = λ h. f.clean (g.clean h);
  names = g.names ∙ f.names;
  more = λ k c. g.more k (f.more k c);
}

pub not_empty : (x : Error) (es : List Error) → (es ++ x ∷ []) ≢ []
not_empty x [] q = cc
not_empty x (e ∷ es) q = cc

-- A report leaves no error exactly where nothing is bad.
pub report_if_fine :
    (bad : Bool) (message : String) (s : Findings)
    → (report_if bad message s).errs ≡ []
    → bad ≡ false
unfolding report_if
report_if_fine true message s h = absurd (not_empty _ s.errs h)
report_if_fine false message s h = refl

pub report_if-Kept :
    (bad : Bool) (message : String) (s : Findings) → Kept s (report_if bad message s)
unfolding report_if
report_if-Kept true message s = record {
  clean = λ h. absurd (not_empty _ s.errs h);
  names = refl;
  more = λ k c. c;
}
report_if-Kept false message s = Kept-refl s

-- A test between two ways to go on.
pub if-Kept : (b : Bool) {s x y : Findings} → Kept s x → Kept s y → Kept s (if b then x else y)
if-Kept true f g = f
if-Kept false f g = g

pub require-Kept : (k : String) (s : Findings) → Kept s (require_name k s)
unfolding contains require_name
require-Kept k s = record { clean = λ h. h; names = refl; more = λ j c. ground arith }

pub check_state_policy-Kept :
    (message : String) (p : Option StatePolicy) (s : Findings)
    → Kept s (check_state_policy message p s)
unfolding check_state_policy
check_state_policy-Kept message none s = Kept-refl s
check_state_policy-Kept message (some p) s = report_if-Kept _ message s

pub check_channel_policy-Kept :
    (p : Option ChannelPolicy) (s : Findings) → Kept s (check_channel_policy p s)
unfolding check_channel_policy
check_channel_policy-Kept none s = Kept-refl s
check_channel_policy-Kept (some p) s = report_if-Kept _ _ s

pub check_register-Kept : (task : Task) (s : Findings) → Kept s (check_register task s)
unfolding check_register note_register
check_register-Kept task s =
    if-Kept (task.register == "") (Kept-refl s)
      (Kept-trans (report_if-Kept _ _ s) (Kept-trans (noted _) (report_if-Kept _ _ _)))
  where
    noted : (x : Findings) → Kept x (note_register task x)
    noted x =
        unfold note_register in
        if-Kept (is_some (get task.register x.registered_vars)) (report_if-Kept true _ x)
          (record { clean = λ h. h; names = refl; more = λ k c. c })

pub check_stream_inputs-Kept :
    (task : Task) (targets : List String) (s : Findings)
    → Kept s (check_stream_inputs task targets s)
unfolding check_stream_inputs
check_stream_inputs-Kept task [] s = Kept-refl s
check_stream_inputs-Kept task (target ∷ targets) s = Kept-trans (report_if-Kept _ _ s) (
    Kept-trans (report_if-Kept _ _ _)
      (Kept-trans (require-Kept target _) (check_stream_inputs-Kept task targets _)))

pub check_loop_control-Kept :
    (loop : Option LoopControlConfig) (s : Findings) → Kept s (check_loop_control loop s)
unfolding check_loop_control
check_loop_control-Kept none s = Kept-refl s
check_loop_control-Kept (some loop) s = Kept-trans (report_if-Kept _ _ s) (report_if-Kept _ _ _)

pub check_delay-Kept :
    (parse : String → Option ℤ) (r : RetryConfig) (base : Option ℤ) (s : Findings)
    → Kept s (check_delay parse r base s)
unfolding check_delay
check_delay-Kept parse r base s =
    Kept-trans (report_if-Kept (ltb_int r.attempts (pos 1)) "'retry.attempts' must be at least 1" s)
      (Kept-trans (report_if-Kept (bad_duration parse base) "invalid format for 'retry.delay'" _)
        (report_if-Kept (negative_delay parse base) "'retry.delay' cannot be negative" _))

pub check_max_delay-Kept :
    (parse : String → Option ℤ) (longest base : Option ℤ) (s : Findings)
    → Kept s (check_max_delay parse longest base s)
unfolding check_max_delay
check_max_delay-Kept parse longest base s =
    Kept-trans
      (report_if-Kept (bad_duration parse longest) "invalid format for 'retry.max_delay'" s)
      (report_if-Kept (below_base parse longest base)
        "'retry.max_delay' cannot be less than 'retry.delay'" _)

pub check_retry-Kept :
    (parse : String → Option ℤ) (r : Option RetryConfig) (s : Findings)
    → Kept s (check_retry parse r s)
unfolding check_retry
check_retry-Kept parse none s = Kept-refl s
check_retry-Kept parse (some r) s =
    let base = base_delay parse r.delay in
    let first = check_delay-Kept parse r base s in
    if-Kept (r.max_delay == "") first (
      Kept-trans first
        (check_max_delay-Kept parse (parse r.max_delay) base (check_delay parse r base s)))

pub check_status_path-Kept :
    (task : Task) (parts : List String) (s : Findings) → Kept s (check_status_path task parts s)
unfolding check_status_path
check_status_path-Kept task (a ∷ b ∷ name ∷ d ∷ []) s =
    Kept-trans (require-Kept name s) (report_if-Kept _ _ _)
check_status_path-Kept task [] s = Kept-refl s
check_status_path-Kept task (a ∷ []) s = Kept-refl s
check_status_path-Kept task (a ∷ b ∷ []) s = Kept-refl s
check_status_path-Kept task (a ∷ b ∷ c ∷ []) s = Kept-refl s
check_status_path-Kept task (a ∷ b ∷ c ∷ d ∷ x ∷ rest) s = Kept-refl s

pub check_variable-Kept :
    (task : Task) (path : String) (s : Findings) → Kept s (check_variable task path s)
unfolding check_variable
check_variable-Kept task path s =
    if-Kept _ (check_status_path-Kept task (split_dots path) s) (owned (get path s.registered_vars))
  where
    owned :
        (o : Option String)
        → Kept s (elim o [
          | none ↦ s
          | some owner ↦
              report_if
                (not (task.name == "") && owner == task.name)
                "task cannot depend on its own registered variable via template"
                s
        ])
    owned none = Kept-refl s
    owned (some owner) = report_if-Kept _ _ s

pub check_variables-Kept :
    (task : Task) (paths : List String) (s : Findings) → Kept s (check_variables task paths s)
unfolding check_variables
check_variables-Kept task [] s = Kept-refl s
check_variables-Kept task (path ∷ paths) s =
    Kept-trans (check_variable-Kept task path s) (check_variables-Kept task paths _)

module _ (extract : String → Option (List String)) (parse : String → Option ℤ) where
  pub check_templates-Kept :
      (task : Task) (templates : List String) (s : Findings)
      → Kept s (check_templates extract parse task templates s)
  unfolding check_templates
  check_templates-Kept task [] s = Kept-refl s
  check_templates-Kept task (t ∷ ts) s =
      Kept-trans (parsed (extract t)) (check_templates-Kept task ts _)
    where
      parsed :
          (o : Option (List String))
          → Kept s (elim o [
            | none ↦ report_if true "error parsing template" s
            | some vars ↦ check_variables task vars s
          ])
      parsed none = report_if-Kept true _ s
      parsed (some vars) = check_variables-Kept task vars s
