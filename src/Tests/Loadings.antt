-- ===== src/Tests/Loadings.antt =====
-- The loading of the sample playbook, by libraries that know one document.
use gxo.Prelude.{true, ◌≡◌, refl, ◌⊎◌, List, [], ◌∷◌, none, if◌then◌else◌, ◌==◌, IsNodup, contains}
use gxo.Prelude.Dict.{get, put}
use gxo.Prelude.Decimal.{decimal}
use gxo.Errors.{plain, config_error, ok, err}
use gxo.Config.{Playbook}
use gxo.Config.Templates.{collect_templates_to_scan}
use gxo.Config.Validation.{validate_playbook_structure}
use gxo.Config.Loading.{
  Libraries, index_id, assign_internal_task_ids, load_playbook, load_playbook_from_file,
}
use gxo.Config.Loading.Ids.{NoIndexName, NoIndexName-prefix, internal_ids, loaded_ids_distinct}
use gxo.Dag.Defs.{Node, Dag}
use gxo.Dag.Build.{build_dag}
use gxo.Dag.Build.Loaded.{loaded_playbook_builds}
use gxo.Tests.Samples.{extract, playbook_of, task_named, gen_task, use_task}

abbrev of_document : Playbook → Libraries (Unit {0}) (Unit {0})
of_document playbook = record {
  new_schema = λ bytes. ok tt;
  unmarshal = λ document. ok tt;
  validate = λ schema json. ok true;
  decode = λ document. if document == "doc" then ok playbook else err (plain "yaml");
  is_valid_version = λ v. v == "v1.0.0";
  major = λ v. if v == "v1.0.0" then "v1" else "";
  abs = λ path. ok path;
  read_file = λ path. if path == "file" then ok "doc" else err (plain "no such file");
  extract_variables = extract;
  parse_duration = λ s. none;
}

-- the tasks `gen` and `use`, and one without a name
abbrev unnamed_last : Playbook
unnamed_last = playbook_of (gen_task ∷ use_task ∷ task_named "" "" "" ("gen" ∷ []) "" ∷ [])

abbrev loaded : Playbook
loaded = assign_internal_task_ids unnamed_last

ids_of_sample : internal_ids loaded.tasks ≡ "gen" ∷ "use" ∷ "__task_idx_2" ∷ []
unfolding assign_internal_task_ids index_id decimal
ids_of_sample = refl

sample_loads : load_playbook_from_file (of_document unnamed_last) "{}" "file" ≡ ok loaded
unfolding load_playbook_from_file validate_playbook_structure collect_templates_to_scan contains get
    put
sample_loads = refl

document_loads : load_playbook (of_document unnamed_last) "{}" "doc" ≡ ok loaded
unfolding load_playbook validate_playbook_structure collect_templates_to_scan contains get put
document_loads = refl

no_index_name : NoIndexName loaded.tasks
unfolding assign_internal_task_ids
no_index_name = NoIndexName-prefix loaded.tasks (refl, (refl, (refl, tt)))

loaded_ids_distinct_example : IsNodup (internal_ids loaded.tasks)
loaded_ids_distinct_example =
    loaded_ids_distinct (of_document unnamed_last) "{}" "doc" loaded document_loads no_index_name

loaded_playbook_builds_example :
    (build_dag extract loaded ≡ err (config_error "cycle detected in task dependencies"))
    ⊎ ((built : Dag × List Node) × (build_dag extract loaded ≡ ok built))
loaded_playbook_builds_example =
    loaded_playbook_builds (of_document unnamed_last) "{}" "doc" loaded document_loads

-- A name that the pattern for names allows is the id of a task without a name.
abbrev clashing : Playbook
clashing = playbook_of (task_named "" "__task_idx_1" "" [] "" ∷ task_named "" "" "" [] "" ∷ [])

clash_loads :
    load_playbook (of_document clashing) "{}" "doc" ≡ ok (assign_internal_task_ids clashing)
unfolding load_playbook validate_playbook_structure collect_templates_to_scan contains get put
clash_loads = refl

ids_clash :
    internal_ids (assign_internal_task_ids clashing).tasks ≡ "__task_idx_1" ∷ "__task_idx_1" ∷ []
unfolding assign_internal_task_ids index_id decimal
ids_clash = refl
