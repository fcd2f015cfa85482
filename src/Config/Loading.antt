-- ===== src/Config/Loading.antt =====
-- `LoadPlaybook`, `LoadPlaybookFromFile` and `assignInternalTaskIDs` of internal/config/load.go, and
-- `ValidateWithSchema` of internal/config/schema.go. The libraries they call (YAML, JSON Schema,
-- semantic versions, files) are the fields of `Libraries`. The path of the file, which messages show,
-- is left out.
pub mod Loaded
pub mod Ids
use Prim.Native.String.{◌++◌}
use text.Mathlib.Text.{starts_with}
use gxo.Prelude.{ℕ, suc, String, Bool, true, false, not, List, [], ◌∷◌, Option, if◌then◌else◌, ◌==◌}
use gxo.Prelude.Decimal.{decimal}
use gxo.Prelude.Int.{ℤ}
use gxo.Errors.{
  Error, config_error, validation_error, config_caused, validation_caused, wrapped, Result, ok, err,
  ◌>>=◌, ◌>>◌,
}
use gxo.Config.{Task, Playbook}
use gxo.Config.Validation.{validate_playbook_structure}

-- What the code calls: gojsonschema (with the schemas `S` and the generic documents `J`), yaml.v3,
-- semver, the file system, the parser of templates and that of durations.
pub record Libraries (S J : Type 0) : Type 1 where
  pub new_schema : String → Result S
  pub unmarshal : String → Result J
  -- an error of the validation itself, or whether the document is valid
  pub validate : S → J → Result Bool
  -- with KnownFields(true)
  pub decode : String → Result Playbook
  pub is_valid_version : String → Bool
  pub major : String → String
  pub abs : String → Result String
  pub read_file : String → Result String
  pub extract_variables : String → Option (List String)
  pub parse_duration : String → Option ℤ

-- if err != nil { return NewConfigError(text, err) }
abbrev pub config_cause {ℓ} : {V : Type ℓ} → String → Result V → Result V
config_cause text (err e) = err (config_caused text e)
config_cause text (ok v) = ok v

-- if bad { return err }
abbrev pub fail_if : Bool → Error → Result (Unit {0})
fail_if true e = err e
fail_if false e = ok tt

-- task.InternalID, at position i
unfoldable pub index_id : ℕ → String
index_id i = "__task_idx_" ++ decimal i

abbrev pub assign_id : ℕ → Task → Task
assign_id i task = record task {
  internal_id = if not (task.name == "") then task.name else index_id i;
}

unfoldable pub assign_ids : ℕ → List Task → List Task
assign_ids i [] = []
assign_ids i (task ∷ tasks) = assign_id i task ∷ assign_ids (suc i) tasks

unfoldable pub assign_internal_task_ids : Playbook → Playbook
unfolding assign_ids
assign_internal_task_ids playbook = record playbook { tasks = assign_ids 0 playbook.tasks }

unfoldable pub with_v : String → String
with_v version = if not (starts_with version "v") then "v" ++ version else version

-- what `ValidatePlaybookStructure` found
abbrev pub first_finding : List Error → Result (Unit {0})
first_finding [] = ok tt
first_finding (e ∷ es) = err (validation_caused "playbook has validation errors" e)

module _ {S J : Type 0} (libraries : Libraries S J) (schema_v1 : String) where
  -- The answer is the same on each call, since `sync.Once` keeps it.
  unfoldable pub load_schema : Result S
  load_schema =
      fail_if (schema_v1 == "") (config_error "embedded schema is empty or not found")
      >> config_cause "failed to compile embedded schema" (libraries.new_schema schema_v1)

  unfoldable pub validate_with_schema : String → Result (Unit {0})
  unfolding load_schema
  validate_with_schema document = do
    schema ← load_schema
    json ←
        config_cause "failed to parse playbook YAML for schema validation"
          (libraries.unmarshal document)
    valid ← config_cause "schema validation process failed" (libraries.validate schema json)
    fail_if (not valid) (validation_error "Playbook failed JSON schema validation:")

  unfoldable pub yaml_unmarshal_strict : String → Result Playbook
  yaml_unmarshal_strict document = elim (libraries.decode document) [
    | err e ↦ err (wrapped "YAML parsing error" e)
    | ok playbook ↦ ok playbook
  ]

  unfoldable pub check_schema_version : String → Result (Unit {0})
  unfolding with_v
  check_schema_version version =
      fail_if (version == "") (validation_error "missing required 'schemaVersion' field")
      >> fail_if (not (libraries.is_valid_version (with_v version)))
          (validation_error "invalid 'schemaVersion' format")
      >> fail_if (not (libraries.major (with_v version) == "v1"))
          (validation_error "schemaVersion is not compatible with engine requirement")

  unfoldable pub load_playbook : String → Result Playbook
  unfolding validate_with_schema yaml_unmarshal_strict check_schema_version
      validate_playbook_structure assign_internal_task_ids
  load_playbook document = do
    fail_if (document == "") (config_error "playbook content cannot be empty")
    config_cause "playbook failed schema validation" (validate_with_schema document)
    playbook ← config_cause "failed to parse playbook YAML" (yaml_unmarshal_strict document)
    check_schema_version playbook.schema_version
    first_finding
        (validate_playbook_structure libraries.extract_variables libraries.parse_duration playbook)
    ok (assign_internal_task_ids playbook)

  unfoldable pub load_playbook_from_file : String → Result Playbook
  unfolding load_playbook
  load_playbook_from_file path = do
    fail_if (path == "") (config_error "playbook file path cannot be empty")
    abs_path ← config_cause "failed to get absolute path" (libraries.abs path)
    document ← config_cause "failed to read playbook file" (libraries.read_file abs_path)
    load_playbook document
