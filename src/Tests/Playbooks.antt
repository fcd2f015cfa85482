-- ===== src/Tests/Playbooks.antt =====
-- The validation of the sample playbook.
use gxo.Prelude.{String, true, ◌≡◌, ◌≢◌, refl, [], ◌∷◌, Option, none, contains, IsNodup, All}
use gxo.Prelude.Dict.{get, put}
use gxo.Prelude.Int.{ℤ}
use gxo.Errors.{validation_error}
use gxo.Config.{Task}
use gxo.Config.Templates.{collect_templates_to_scan}
use gxo.Config.Validation.{validate_playbook_structure}
use gxo.Config.Validation.Names.{names_after, validated_names}
use gxo.Tests.Samples.{extract, sample, playbook_of, gen_task}

-- stands for `time.ParseDuration`
abbrev parse : String → Option ℤ
parse s = none

sample_validates : validate_playbook_structure extract parse sample ≡ []
unfolding validate_playbook_structure collect_templates_to_scan contains get put
sample_validates = refl

duplicates_found :
    validate_playbook_structure extract parse (playbook_of (gen_task ∷ gen_task ∷ []))
    ≡ validation_error "duplicate task name found"
      ∷ validation_error "'register' key is already used by another task"
      ∷ []
unfolding validate_playbook_structure collect_templates_to_scan contains get put
duplicates_found = refl

validated_names_example :
    (sample.tasks ≢ [])
    × IsNodup (names_after extract parse sample.tasks [])
    × All
        (λ (task : Task).
          (k : String)
          → contains k task.stream_inputs ≡ true
          → contains k (names_after extract parse sample.tasks []) ≡ true)
        sample.tasks
validated_names_example = validated_names extract parse sample sample_validates
