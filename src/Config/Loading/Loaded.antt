-- ===== src/Config/Loading/Loaded.antt =====
-- Where a loaded playbook comes from: one that validates, whose tasks are given their ids.
use gxo.Prelude.{String, ◌≡◌, refl, [], ◌∷◌, List, ◌==◌}
use gxo.Errors.{Error, ok, >>=-eq-ok}
use gxo.Config.{Playbook}
use gxo.Config.Validation.{validate_playbook_structure}
use gxo.Config.Loading.{
  Libraries, config_cause, fail_if, first_finding, assign_internal_task_ids, validate_with_schema,
  yaml_unmarshal_strict, check_schema_version, load_playbook,
}

first_finding-none : (es : List Error) → first_finding es ≡ ok tt → es ≡ []
first_finding-none [] h = refl
first_finding-none (e ∷ es) h = cc

module _ {S J : Type 0} (libraries : Libraries S J) (schema_v1 document : String)
    (p : Playbook) where
  abbrev pub IsLoadedFrom : Playbook → Type 0
  IsLoadedFrom q =
      (validate_playbook_structure libraries.extract_variables libraries.parse_duration q ≡ [])
      × (p ≡ assign_internal_task_ids q)

  pub load_playbook-source :
      load_playbook libraries schema_v1 document ≡ ok p → (q : Playbook) × IsLoadedFrom q
  unfolding load_playbook
  load_playbook-source e =
      let (a, filled, e1) = >>=-eq-ok (fail_if (document == "") _) _ e in
      let (b, valid, e2) =
        >>=-eq-ok (config_cause _ (validate_with_schema libraries schema_v1 document)) _ e1 in
      let (q, decoded, e3) =
        >>=-eq-ok (config_cause _ (yaml_unmarshal_strict libraries schema_v1 document)) _ e2 in
      let (c, version, e4) =
        >>=-eq-ok (check_schema_version libraries schema_v1 q.schema_version) _ e3 in
      let (d, found, e5) =
        >>=-eq-ok
          (first_finding
            (validate_playbook_structure libraries.extract_variables libraries.parse_duration q))
          _ e4 in
      (q, (first_finding-none _ found, cc))
