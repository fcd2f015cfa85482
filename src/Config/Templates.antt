-- ===== src/Config/Templates.antt =====
-- `collectTemplatesToScan`, which internal/config/validation.go and internal/engine/dag.go both hold.
use gxo.Prelude.{String, List, [], ◌∷◌, ◌++◌, ◌&&◌, if◌then◌else◌, ◌==◌}
use gxo.Prelude.Dict.{Dict}
use gxo.Prelude.Text.{has_substring}
use gxo.Value.{Value, str}
use gxo.Config.{Task}

-- if s != "" { templates = append(templates, s) }
unfoldable pub non_empty : String → List String
non_empty s = if s == "" then [] else s ∷ []

-- loopStr, ok := task.Loop.(string); ok && loopStr != ""
unfoldable pub loop_template : Value → List String
unfolding non_empty
loop_template (str s) = non_empty s
loop_template v = []

unfoldable pub param_template : Value → List String
param_template (str s) = if has_substring s "{{" && has_substring s "}}" then s ∷ [] else []
param_template v = []

unfoldable pub param_templates : Dict Value → List String
unfolding param_template
param_templates [] = []
param_templates ((k, v) ∷ params) = param_template v ++ param_templates params

unfoldable pub collect_templates_to_scan : Task → List String
unfolding non_empty loop_template param_templates
collect_templates_to_scan task =
    non_empty task.when ++ (loop_template task.loop ++ param_templates task.params)
